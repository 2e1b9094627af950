-- ===== src/TimerReactor.antt =====
-- src/timer_reactor.rs: the reactor as what the timer parks on. The timer is a parameter: the calls of
-- `park` and `park_timeout` that one turn of it makes, and whether the turn succeeds.
pub mod Laws
mod Examples
use rust_fumio.Prelude.{Bool, true, false, Option, none, some, List, [], ◌∷◌}
use rust_fumio.AtomicWaker.{AtomicWaker}
use rust_fumio.Reactor.Registration.{State, Io, done, error, spinning, wake_reactor}
use rust_fumio.Reactor.Registration as Registration
use rust_fumio.Reactor.Poll.{Event, Timeout, park}

-- `expect("not entered")`, and the two `unwrap`.
pub data Panic : Type 0 where
  not_entered : Panic
  poll_failed : Panic
  turn_failed : Panic

-- How a park ends.
pub data Parked (S : Type 0) : Type 0 where
  left : (s : S) → Parked S
  unwound : (why : Panic) (s : S) → Parked S

-- `Enter` is the type of the executor's token, of which the source keeps the address.
pub record ParkReactor (Cell Enter : Type 0) : Type 0 where
  pub reactor : State Cell
  pub enter : Option Enter

-- A call of `park` (no duration) or of `park_timeout`, with what mio gives for it.
pub record Call : Type 0 where
  pub duration : Timeout
  pub mio : Timeout → Option (List Event)

module _ {Cell Enter : Type 0} (w : AtomicWaker Cell) where
  -- `ParkReactor::{park, park_timeout}`
  pub park_reactor : Call → ParkReactor Cell Enter → Parked (ParkReactor Cell Enter)
  park_reactor c p = elim p.enter [
    | none ↦ unwound not_entered p
    | some _ ↦
        let (s, r) = park w c.mio c.duration p.reactor in
        elim r [
          | done _ ↦ left (record p { reactor = s })
          | error ↦ unwound poll_failed (record p { reactor = s })
          | Registration.panic ↦ unwound poll_failed (record p { reactor = s })
          | spinning ↦ unwound poll_failed (record p { reactor = s })
        ]
  ]

  -- The calls of a turn; a panic ends the turn.
  pub park_calls : List Call → ParkReactor Cell Enter → Parked (ParkReactor Cell Enter)
  unfolding park_reactor
  park_calls [] p = left p
  park_calls (c ∷ cs) p = elim (park_reactor c p) [
    | left p' ↦ park_calls cs p'
    | unwound why p' ↦ unwound why p'
  ]

  -- The end of `TimerReactor::park`, after the turn.
  pub after_turn : Bool → Parked (ParkReactor Cell Enter) → Parked (ParkReactor Cell Enter)
  after_turn true (left p) = left (record p { enter = none })
  after_turn false (left p) = unwound turn_failed (record p { enter = none })
  after_turn _ (unwound why p) = unwound why p

  -- `TimerReactor::park`
  pub timer_park :
      (Timeout → List Call × Bool)
      → Enter
      → Timeout
      → ParkReactor Cell Enter
      → Parked (ParkReactor Cell Enter)
  unfolding park_calls after_turn
  timer_park turn en duration p =
      let (calls, succeeds) = turn duration in
      after_turn succeeds (park_calls calls (record p { enter = some en }))

-- `TimerReactor::new`, from the outcome of `Reactor::new`.
pub timer_reactor_new : {Cell Enter : Type 0} → Io (State Cell) → Io (ParkReactor Cell Enter)
timer_reactor_new (done s) = done (record { reactor = s; enter = none })
timer_reactor_new error = error
timer_reactor_new Registration.panic = Registration.panic
timer_reactor_new spinning = spinning

-- The waker that `ParkReactor::unpark` and `TimerReactor::waker` hand out, which is the reactor's, when
-- it is called: `Unpark::unpark`. The reactor is there, since the timer keeps it.
unfoldable pub timer_unpark :
    {Cell Enter : Type 0} → ParkReactor Cell Enter → ParkReactor Cell Enter
timer_unpark p = record p { reactor = wake_reactor p.reactor }
