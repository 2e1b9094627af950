-- ===== src/Reactor/Connect.antt =====
-- fumio-reactor/src/net/tcp_connect.rs: the future of a connection, and the readiness polls of
-- `PollEvented` that it stands on (fumio-reactor/src/reactor/evented.rs).
use rust_fumio.Prelude.{
  ℕ, ◌≡◌, ◌≢◌, refl, ap, inl, inr, Option-cases, Bool, true, false, Option, none, some,
  if◌then◌else◌,
}
use rust_fumio.AtomicWaker.{AtomicWaker}
use rust_fumio.Reactor.Readiness.{PollReady, ready, pending, failed}
use rust_fumio.Reactor.Registration.{
  State, Io, done, error, panic, spinning, registration_poll_read, registration_poll_write, lock,
  unlock,
}
use rust_fumio.Reactor.Evented.{PollEvented, register_once}

-- What polling the future gives: `connected` hands the stream out.
pub data Connect : Type 0 where
  connected : Connect
  refused : (code : ℕ) → Connect
  unregistered : Connect
  connecting : Connect
  unwound : Connect
  stuck : Connect

-- `Registration::handle`: whether the handle is bound to the reactor of the registered task. `none`
-- is a lock that another thread holds.
pub registration_handle : {Cell : Type 0} → State Cell → State Cell × Option Bool
registration_handle s =
    let (s', held) = lock s in
    elim held [
      | none ↦ (s', none)
      | some none ↦ (unlock s', some false)
      | some (some task) ↦ (unlock s', some true)
    ]

module _ {Cell S : Type 0} (w : AtomicWaker Cell) (mio : Bool) (t : ℕ) where
  -- `PollEvented::{poll_read_ready, poll_write_ready}`
  pub evented_poll_read_ready : PollEvented Cell S → PollEvented Cell S × Io PollReady
  evented_poll_read_ready p =
      let (p1, returned) = register_once w mio t p in
      let (registration, r) = registration_poll_read w p1.registration in
      if returned then (record p1 { registration = registration }, r) else (p1, panic)

  pub evented_poll_write_ready : PollEvented Cell S → PollEvented Cell S × Io PollReady
  evented_poll_write_ready p =
      let (p1, returned) = register_once w mio t p in
      let (registration, r) = registration_poll_write w p1.registration in
      if returned then (record p1 { registration = registration }, r) else (p1, panic)

  -- `PollEvented::handle`; `own` says that the handle it was made with is bound.
  pub evented_handle : Bool → PollEvented Cell S → PollEvented Cell S × Option Bool
  unfolding registration_handle
  evented_handle own p =
      let (registration, bound) = registration_handle p.registration in
      if own then (p, some true) else (record p { registration = registration }, bound)

  -- What the socket says once it is ready to be written; `take_error` gives the code of its error.
  pub connect_ready : Option ℕ → PollEvented Cell S → Option (PollEvented Cell S) × Connect
  connect_ready none p = (none, connected)
  connect_ready (some code) p = (none, refused code)

  pub connect_after :
      (S → Option ℕ) → PollEvented Cell S → Io PollReady → Option (PollEvented Cell S) × Connect
  unfolding connect_ready
  connect_after take_error p (done (ready bits)) = connect_ready (take_error p.io) p
  connect_after take_error p (done pending) = (some p, connecting)
  connect_after take_error p (done failed) = (some p, unregistered)
  connect_after take_error p error = (some p, unregistered)
  connect_after take_error p panic = (some p, unwound)
  connect_after take_error p spinning = (some p, stuck)

  -- `TcpConnectFuture::poll`; the first result is the stream that the future still has.
  pub connect_poll :
      (S → Option ℕ) → Option (PollEvented Cell S) → Option (PollEvented Cell S) × Connect
  unfolding evented_poll_write_ready connect_after
  connect_poll take_error none = (none, unwound)
  connect_poll take_error (some p) =
      let (p', r) = evented_poll_write_ready p in connect_after take_error p' r

  after-once :
      (take_error : S → Option ℕ) (p : PollEvented Cell S) (r : Io PollReady)
      → let (left, c) = connect_after take_error p r in
        (c ≡ connecting → left ≢ none) × (c ≡ connected → left ≡ none)
  unfolding connect_after connect_ready
  after-once take_error p (done (ready bits)) = elim (Option-cases (take_error p.io)) [
    | inl e ↦ rw e ((λ c. absurd (cc)), (λ c. refl))
    | inr (code, e) ↦ rw e ((λ c. absurd (cc)), (λ c. refl))
  ]
  after-once take_error p (done pending) = ((λ c. cc), (λ c. absurd (cc)))
  after-once take_error p (done failed) = ((λ c. absurd (cc)), (λ c. absurd (cc)))
  after-once take_error p error = ((λ c. absurd (cc)), (λ c. absurd (cc)))
  after-once take_error p panic = ((λ c. absurd (cc)), (λ c. absurd (cc)))
  after-once take_error p spinning = ((λ c. absurd (cc)), (λ c. absurd (cc)))

  -- The future keeps its stream while it is connecting, and has none left once it has connected, so
  -- that a poll after that panics.
  pub connect_poll-once :
      (take_error : S → Option ℕ) (stream : Option (PollEvented Cell S))
      → let (left, r) = connect_poll take_error stream in
        (r ≡ connecting → left ≢ none)
        × (r ≡ connected → (left ≡ none) × ((connect_poll take_error left).1 ≡ unwound))
  unfolding connect_poll
  connect_poll-once take_error none = ((λ c. absurd (cc)), (λ c. absurd (cc)))
  connect_poll-once take_error (some p) =
      let (p', r) = evented_poll_write_ready p in
      let (kept, gone) = after-once take_error p' r in
      (kept, λ c. (gone c, ap (λ left. (connect_poll take_error left).1) (gone c)))
