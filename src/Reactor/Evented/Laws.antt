-- ===== src/Reactor/Evented/Laws.antt =====
-- Interrupted operations end, a pending attempt will be called back, and a registration that fails.
use rust_fumio.Prelude.{
  ℕ, zero, suc, ◌<◌, ◌≡◌, ◌≢◌, ◌∙◌, ◌⊎◌, Bool, true, false, Option, none, ◌%◌, arith,
}
use rust_fumio.AtomicWaker.{AtomicWaker}
use rust_fumio.Reactor.Readiness.{pending, take_ready, poll_ready, poll_read_ready}
use rust_fumio.Reactor.Registration.{
  State, done, with_task, lock, unlock, task_from_state, register, registration_poll_read,
}
use rust_fumio.Reactor.Registration.Laws.{register_lem, unregistered-polls}
use rust_fumio.Reactor.Evented.{
  IoResult, ok, interrupted, would_block, other_error, Polled, ready_ok, ready_err, not_ready,
  again, async_io, incomplete, complete, PollEvented, not_registered, come_back, panicked,
  register_once, retry, try_mut, try_mut_read, try_mut_write,
}

-- `n` calls of `op` in a row are interrupted, and lead from `s` to `s'`.
pub data Interrupted {S A : Type 0} (op : S → S × IoResult A) : ℕ → S → S → Type 0 where
  none_yet : {s : S} → Interrupted op 0 s s
  one_more :
      {n : ℕ} {s s' : S}
      → (op s).1 ≡ interrupted
      → Interrupted op n (op s).0 s'
      → Interrupted op (suc n) s s'

-- A result of an operation that was not interrupted, as a poll.
abbrev pub as_poll : {A : Type 0} → IoResult A → Polled A
as_poll (ok a) = ready_ok a
as_poll interrupted = again
as_poll would_block = not_ready
as_poll (other_error code) = ready_err code

async_io_last :
    {S A : Type 0} (op : S → S × IoResult A) (fuel : ℕ) (s : S)
    → (op s).1 ≢ interrupted
    → async_io (suc fuel) op s ≡ ((op s).0, as_poll (op s).1)
unfolding async_io
async_io_last op fuel s last = ground arith

async_io_next :
    {S A : Type 0} (op : S → S × IoResult A) (fuel : ℕ) (s : S)
    → (op s).1 ≡ interrupted
    → async_io (suc fuel) op s ≡ async_io fuel op (op s).0
unfolding async_io
async_io_next op fuel s e = ground arith

-- With fuel for the interruptions there are, the loop ends at the first call that is not interrupted
-- and gives its result.
pub async_io_lem :
    {S A : Type 0} (op : S → S × IoResult A) (n fuel : ℕ) (s s' : S)
    → Interrupted op n s s'
    → (op s').1 ≢ interrupted
    → n < fuel
    → async_io fuel op s ≡ ((op s').0, as_poll (op s').1)
unfolding async_io
async_io_lem op n zero s s' run last enough = absurd (omega arith)
async_io_lem op zero (suc fuel) s s' none_yet last enough = async_io_last op fuel s last
async_io_lem op (suc n) (suc fuel) s s' (one_more e run) last enough =
    async_io_next op fuel s e ∙ async_io_lem op n fuel (op s).0 s' run last (omega arith)

poll_read_armed :
    {Cell : Type 0} (w : AtomicWaker Cell) (s : State Cell) (t : ℕ)
    → s.word ≡ t
    → t % 2 ≡ 0
    → t ≢ 0
    → let (s', r) = registration_poll_read w s in
      r ≡ done pending → w.armed (s'.readiness t).read.waker ≡ true
unfolding registration_poll_read with_task lock unlock task_from_state poll_read_ready poll_ready
    take_ready
poll_read_armed w s t e even full h = ground (arith, h, w.register_arms (s.readiness t).read.waker)

module _ {Cell S A : Type 0} (w : AtomicWaker Cell) where
  -- The first attempt on a source that has a handle and a reactor that lives, whose operation has no
  -- result, and which mio refuses to register: reading gives an error, writing panics.
  pub refused-try_mut :
      (t : ℕ) (op : S → S × Option A) (p : PollEvented Cell S)
      → (op p.io).1 ≡ none
      → p.registered ≡ incomplete
      → p.bound ≡ true
      → p.registration.word ≡ 0
      → p.registration.io ≡ true
      → p.registration.alive ≡ true
      → t % 2 ≡ 0
      → ((try_mut_read w false t op p).1 ≡ not_registered)
        × ((try_mut_write w false t op p).1 ≡ panicked)
  unfolding try_mut_read try_mut_write try_mut register_once
  refused-try_mut t op p e once bound word io alive even =
      let (result, (empty, _)) = register_lem w false t p.registration word io alive even in
      let (reads, writes) = unregistered-polls w (register true false t w p.registration).0 empty in
      (ground (arith, result, reads), ground (arith, result, writes))

  -- An attempt to read from a source that is registered, at an even address that is not null, and that
  -- comes back without a result, has called the waker of its context, or left it with the task.
  pub come_back-woken :
      (mio : Bool) (u t : ℕ) (op : S → S × Option A) (p : PollEvented Cell S)
      → p.registered ≡ complete
      → p.registration.word ≡ t
      → t % 2 ≡ 0
      → t ≢ 0
      → let (p', r) = try_mut_read w mio u op p in
        r ≡ come_back
        → (p'.woken ≡ true) ⊎ (w.armed (p'.registration.readiness t).read.waker ≡ true)
  unfolding try_mut_read try_mut register_once retry
  come_back-woken mio u t op p once word even full back =
      ground (arith, back, poll_read_armed w p.registration t word even full)
