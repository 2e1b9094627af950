-- ===== src/Reactor/Evented.antt =====
-- fumio-reactor/src/reactor/evented.rs: `PollEvented`, which tries an operation and registers its
-- source lazily; fumio-reactor/src/helper.rs: the loop that turns an operation into a poll.
pub mod Laws
use rust_fumio.Prelude.{ℕ, zero, suc, Bool, true, false, Option, none, some, if◌then◌else◌}
use rust_fumio.AtomicWaker.{AtomicWaker}
use rust_fumio.Reactor.Readiness.{PollReady, ready, pending, failed}
use rust_fumio.Reactor.Registration.{
  registration_io_ref, registration_io_mut, State, Io, done, error, panic, spinning, register,
  registration_poll_read, registration_poll_write,
}

-- What a call of the operating system gives: `io::ErrorKind` by the three cases that are told apart.
pub data IoResult (A : Type 0) : Type 0 where
  ok : (a : A) → IoResult A
  interrupted : IoResult A
  would_block : IoResult A
  other_error : (code : ℕ) → IoResult A

-- `Poll<io::Result<T>>`; `again` is that the loop has run out of fuel.
pub data Polled (A : Type 0) : Type 0 where
  ready_ok : (a : A) → Polled A
  ready_err : (code : ℕ) → Polled A
  not_ready : Polled A
  again : Polled A

-- `async_io`; the operation acts on a world `S`, and the fuel bounds the interruptions.
pub async_io : {S A : Type 0} → ℕ → (S → S × IoResult A) → S → S × Polled A
async_io zero op s = (s, again)
async_io (suc fuel) op s =
    let (s', r) = op s in
    let rest = async_io fuel op s' in
    elim r [
      | ok a ↦ (s', ready_ok a)
      | interrupted ↦ rest
      | would_block ↦ (s', not_ready)
      | other_error code ↦ (s', ready_err code)
    ]

-- `std::sync::Once`
pub data Once : Type 0 where
  incomplete : Once
  complete : Once
  poisoned : Once

-- `S` is the world of the source. `bound` says that the handle of `PollEvented` can be bound, and
-- `woken` that the waker of the context was called.
pub record PollEvented (Cell S : Type 0) : Type 0 where
  pub registration : State Cell
  pub registered : Once
  pub bound : Bool
  pub io : S
  pub woken : Bool

-- The result of an attempt; `value` is what the operation gave.
pub data Tried (A : Type 0) : Type 0 where
  value : (a : A) → Tried A
  not_registered : Tried A
  come_back : Tried A
  panicked : Tried A
  blocked : Tried A

module _ {Cell S : Type 0} (w : AtomicWaker Cell) where
  -- `PollEvented::register`; the error of the registration is dropped, a panic poisons the `Once`.
  -- The second result says whether the call returned. `mio` is the outcome of mio's `register`, and
  -- `t` the address of the task.
  unfoldable pub register_once : Bool → ℕ → PollEvented Cell S → PollEvented Cell S × Bool
  unfolding register
  register_once mio t p =
      let (registration, r) = register true mio t w p.registration in
      let after = record p { registration = registration; registered = complete } in
      let poison = record p { registered = poisoned } in
      elim p.registered [
        | complete ↦ (p, true)
        | poisoned ↦ (p, false)
        | incomplete ↦
            if p.bound
            then (elim r [ panic ↦ (poison, false) | spinning ↦ (p, false) | _ ↦ (after, true) ])
            else (poison, false)
      ]

  -- The last part of `try_mut_read` and `try_mut_write`, when the registration reports readiness.
  pub retry : {A : Type 0} → (S → S × Option A) → PollEvented Cell S → PollEvented Cell S × Tried A
  retry op p =
      let (io, r) = op p.io in
      elim r [
        | some a ↦ (record p { io = io }, value a)
        | none ↦ (record p { io = io; woken = true }, come_back)
      ]

  -- `try_mut_read` and `try_mut_write`, given the registration's `poll_read_ready` or
  -- `poll_write_ready`.
  unfoldable pub try_mut :
      {A : Type 0}
      → (State Cell → State Cell × Io PollReady)
      → Bool
      → ℕ
      → (S → S × Option A)
      → PollEvented Cell S
      → PollEvented Cell S × Tried A
  unfolding register_once retry
  try_mut poll mio t op p =
      let (io, first) = op p.io in
      let (p1, returned) = register_once mio t (record p { io = io }) in
      let (registration, r) = poll p1.registration in
      let p2 = record p1 { registration = registration } in
      elim first [
        | some a ↦ (record p { io = io }, value a)
        | none ↦
            if returned
            then (elim r [
              | done (ready bits) ↦ retry op p2
              | done pending ↦ (p2, come_back)
              | done failed ↦ (p2, not_registered)
              | error ↦ (p2, not_registered)
              | panic ↦ (p2, panicked)
              | spinning ↦ (p2, blocked)
            ])
            else (p1, panicked)
      ]

  unfoldable pub try_mut_read :
      {A : Type 0}
      → Bool
      → ℕ
      → (S → S × Option A)
      → PollEvented Cell S
      → PollEvented Cell S × Tried A
  unfolding try_mut
  try_mut_read mio t op p = try_mut (registration_poll_read w) mio t op p

  pub try_mut_write :
      {A : Type 0}
      → Bool
      → ℕ
      → (S → S × Option A)
      → PollEvented Cell S
      → PollEvented Cell S × Tried A
  unfolding try_mut
  try_mut_write mio t op p = try_mut (registration_poll_write w) mio t op p

-- `PollEvented::{io_ref, io_mut}`
unfoldable pub evented_io_ref : {Cell S : Type 0} → PollEvented Cell S → Option S
unfolding registration_io_ref
evented_io_ref p = registration_io_ref p.io p.registration

pub evented_io_mut : {Cell S : Type 0} → (S → S) → PollEvented Cell S → Option S
unfolding registration_io_mut
evented_io_mut change p = registration_io_mut change p.io p.registration
