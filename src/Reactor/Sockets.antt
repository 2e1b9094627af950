-- ===== src/Reactor/Sockets.antt =====
-- The operations of sockets: `AsyncRead` and `AsyncWrite` of fumio-reactor/src/reactor/evented.rs,
-- and what fumio-reactor/src/net makes of them. What the operating system does is an argument.
pub mod Laws
use rust_fumio.Prelude.{ℕ, Bool, true, false, Option, none, some, if◌then◌else◌, ltb, ◌&&◌}
use rust_fumio.AtomicWaker.{AtomicWaker}
use rust_fumio.Reactor.Readiness.{PollReady, ready, pending, failed}
use rust_fumio.Reactor.Registration.{
  State, Io, done, error, panic, spinning, registration_poll_write,
}
use rust_fumio.Reactor.Evented.{
  IoResult, Polled, ready_ok, ready_err, not_ready, again, async_io, PollEvented, Tried, value,
  not_registered, come_back, panicked, blocked, try_mut_read, try_mut_write, register_once,
}

-- `io::Result`; `endless` is a call that was interrupted for all of its fuel.
pub data Answer (A : Type 0) : Type 0 where
  good : (a : A) → Answer A
  bad : (code : ℕ) → Answer A
  endless : Answer A

-- `|io| async_io(|| op(io))`
pub as_poll_op : {S A : Type 0} → ℕ → (S → S × IoResult A) → S → S × Option (Answer A)
as_poll_op fuel op s =
    let (s', r) = async_io fuel op s in
    elim r [
      | ready_ok a ↦ (s', some (good a))
      | ready_err code ↦ (s', some (bad code))
      | not_ready ↦ (s', none)
      | again ↦ (s', some endless)
    ]

-- The kinds after which closing succeeds all the same: `BrokenPipe`, `ConnectionAborted`,
-- `ConnectionReset`, `NotConnected` and `UnexpectedEof` are the codes 1 to 5.
abbrev pub is_gone : ℕ → Bool
is_gone code = ltb 0 code && ltb code 6

-- A result that is mapped, as `map` on a `Poll<io::Result<_>>` does.
abbrev pub map_good : {A B : Type 0} → (A → B) → Tried (Answer A) → Tried (Answer B)
map_good f (value (good a)) = value (good (f a))
map_good f (value (bad code)) = value (bad code)
map_good f (value endless) = value endless
map_good f not_registered = not_registered
map_good f come_back = come_back
map_good f panicked = panicked
map_good f blocked = blocked

-- `map(Some)` on a `Poll`.
abbrev pub map_some : {A : Type 0} → Tried A → Tried (Option A)
map_some (value a) = value (some a)
map_some not_registered = not_registered
map_some come_back = come_back
map_some panicked = panicked
map_some blocked = blocked

-- The part of `poll_close` after the flush.
pub close_after : Tried (Answer Unit) → Tried (Answer Unit)
close_after (value (bad code)) = if is_gone code then value (good tt) else value (bad code)
close_after not_registered = not_registered
close_after (value (good a)) = value (good tt)
close_after (value endless) = value endless
close_after come_back = come_back
close_after panicked = panicked
close_after blocked = blocked

module _ {Cell S : Type 0} (w : AtomicWaker Cell) (mio : Bool) (t fuel : ℕ) where
  -- `poll_read`, and the `poll_read` of `TcpStream`; `read` is the source's.
  pub poll_read :
      {A : Type 0}
      → (S → S × IoResult A)
      → PollEvented Cell S
      → PollEvented Cell S × Tried (Answer A)
  unfolding as_poll_op
  poll_read read p = try_mut_read w mio t (as_poll_op fuel read) p

  -- `poll_write` and `poll_flush`; `write` is the source's `write` or `flush`.
  pub poll_write :
      {A : Type 0}
      → (S → S × IoResult A)
      → PollEvented Cell S
      → PollEvented Cell S × Tried (Answer A)
  unfolding as_poll_op
  poll_write write p = try_mut_write w mio t (as_poll_op fuel write) p

  pub poll_flush :
      (S → S × IoResult Unit) → PollEvented Cell S → PollEvented Cell S × Tried (Answer Unit)
  unfolding as_poll_op
  poll_flush flush p = try_mut_write w mio t (as_poll_op fuel flush) p

  pub poll_close :
      (S → S × IoResult Unit) → PollEvented Cell S → PollEvented Cell S × Tried (Answer Unit)
  unfolding poll_flush close_after
  poll_close flush p = let (p', r) = poll_flush flush p in (p', close_after r)

  -- `poll_close` of `TcpStream`; `shutdown` is the source's, and gives the code of its error.
  pub stream_close :
      (S → S × IoResult Unit)
      → (S → S × Option ℕ)
      → PollEvented Cell S
      → PollEvented Cell S × Tried (Answer Unit)
  unfolding poll_close
  stream_close flush shutdown p =
      let (p', r) = poll_close flush p in
      let (io, failure) = shutdown p'.io in
      let shut = record p' { io = io } in
      elim r [
        | value (good a) ↦ elim failure [
          | none ↦ (shut, value (good tt))
          | some code ↦ (shut, value (bad code))
        ]
        | other ↦ (p', other)
      ]

  -- `TcpListener::{poll_accept, poll_accept_std}`; the first wraps the accepted stream.
  pub poll_accept_std :
      {A : Type 0}
      → (S → S × IoResult A)
      → PollEvented Cell S
      → PollEvented Cell S × Tried (Answer A)
  unfolding as_poll_op
  poll_accept_std accept p = try_mut_read w mio t (as_poll_op fuel accept) p

  pub poll_accept :
      {A B : Type 0}
      → (A → B)
      → (S → S × IoResult A)
      → PollEvented Cell S
      → PollEvented Cell S × Tried (Answer B)
  unfolding as_poll_op
  poll_accept wrap accept p =
      let (p', r) = try_mut_read w mio t (as_poll_op fuel accept) p in (p', map_good wrap r)

  -- `UdpSocket::{poll_recv_from, poll_send_to}`
  pub poll_recv_from :
      {A : Type 0}
      → (S → S × IoResult A)
      → PollEvented Cell S
      → PollEvented Cell S × Tried (Answer A)
  unfolding as_poll_op
  poll_recv_from recv p = try_mut_read w mio t (as_poll_op fuel recv) p

  pub poll_send_to :
      {A : Type 0}
      → (S → S × IoResult A)
      → PollEvented Cell S
      → PollEvented Cell S × Tried (Answer A)
  unfolding as_poll_op
  poll_send_to send p = try_mut_write w mio t (as_poll_op fuel send) p
