-- ===== src/Reactor/Sockets/Laws.antt =====
-- Calls that have their result at once, and closing.
use rust_fumio.Prelude.{
  ℕ, ◌<◌, ◌≡◌, refl, ap, Bool, true, false, Option, some, arith, Bool-cases, inl, inr,
}
use rust_fumio.AtomicWaker.{AtomicWaker}
use rust_fumio.Reactor.Evented.{
  IoResult, ok, async_io, PollEvented, Tried, value, not_registered, come_back, panicked, blocked,
  try_mut, try_mut_read,
}
use rust_fumio.Reactor.Evented.Laws.{Interrupted, async_io_lem, as_poll}
use rust_fumio.Reactor.Sockets.{
  Answer, good, bad, endless, as_poll_op, is_gone, poll_read, poll_flush, close_after, poll_close,
}

close-bad :
    (r : Tried (Answer Unit)) (code : ℕ)
    → close_after r ≡ value (bad code)
    → (is_gone code ≡ false) × (r ≡ value (bad code))
unfolding close_after
close-bad (value (good a)) code e = absurd (cc)
close-bad (value (bad b)) code e = elim (Bool-cases (is_gone b)) [
  | inl h ↦ absurd (ground (arith, h, e))
  | inr h ↦ (ground (arith, h, e), ground (arith, h, e))
]
close-bad (value endless) code e = absurd (cc)
close-bad not_registered code e = absurd (cc)
close-bad come_back code e = absurd (cc)
close-bad panicked code e = absurd (cc)
close-bad blocked code e = absurd (cc)

close-gone :
    (r : Tried (Answer Unit)) (code : ℕ)
    → r ≡ value (bad code)
    → is_gone code ≡ true
    → close_after r ≡ value (good tt)
unfolding close_after
close-gone r code e gone = rw (e, close_after, gone) refl

at_once :
    {S A : Type 0} (fuel : ℕ) (op : S → S × IoResult A) (s s' : S) (a : A)
    → async_io fuel op s ≡ ((op s').0, as_poll (op s').1)
    → (op s').1 ≡ ok a
    → as_poll_op fuel op s ≡ ((op s').0, some (good a))
unfolding as_poll_op
at_once fuel op s s' a run e = ground (arith, ap (λ x. x.0) run, ap (λ x. x.1) run, e)

try_mut-value :
    {Cell S A : Type 0} (w : AtomicWaker Cell) (mio : Bool) (t : ℕ) (op : S → S × Option A)
    (p : PollEvented Cell S) (io : S) (a : A)
    → op p.io ≡ (io, some a)
    → try_mut_read w mio t op p ≡ (record p { io = io }, value a)
unfolding try_mut_read try_mut
try_mut-value w mio t op p io a e = ground (arith, ap (λ x. x.0) e, ap (λ x. x.1) e)

module _ {Cell S : Type 0} (w : AtomicWaker Cell) (mio : Bool) (t fuel : ℕ) where
  -- If reading gives `a` after `n` interruptions, and there is fuel for them, then `poll_read` answers
  -- `a`, and touches neither the registration nor the waker of the context.
  pub poll_read-at_once :
      {A : Type 0} (read : S → S × IoResult A) (p : PollEvented Cell S) (n : ℕ) (s' : S) (a : A)
      → Interrupted read n p.io s'
      → (read s').1 ≡ ok a
      → n < fuel
      → poll_read w mio t fuel read p ≡ (record p { io = (read s').0 }, value (good a))
  unfolding poll_read
  poll_read-at_once read p n s' a run e enough =
      try_mut-value w mio t (as_poll_op fuel read) p (read s').0 (good a) (
        at_once fuel read p.io s' a
          (async_io_lem read n fuel p.io s' run (λ i. absurd (ground (arith, e, i))) enough) e)

  -- Closing fails with an error only if the flush does, with the same error, and the error is not one
  -- of those that say that the other end is gone; and it succeeds on those.
  pub poll_close_lem :
      (flush : S → S × IoResult Unit) (p : PollEvented Cell S) (code : ℕ)
      → ((poll_close w mio t fuel flush p).1 ≡ value (bad code)
          → (is_gone code ≡ false) × ((poll_flush w mio t fuel flush p).1 ≡ value (bad code)))
        × ((poll_flush w mio t fuel flush p).1 ≡ value (bad code)
            → is_gone code ≡ true
            → (poll_close w mio t fuel flush p).1 ≡ value (good tt))
  unfolding poll_close
  poll_close_lem flush p code = (λ e. close-bad _ code e, λ e gone. close-gone _ code e gone)
