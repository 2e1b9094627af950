-- ===== src/Reactor/Poll.antt =====
-- fumio-reactor/src/reactor.rs: one turn of the reactor, and the handle that may outlive it.
pub mod Laws
pub mod Wake
pub mod Delivery
pub mod Calls
pub mod Waiting
mod Examples
use rust_fumio.Prelude.{
  ℕ, Bool, true, false, Option, none, some, List, [], ◌∷◌, if◌then◌else◌, ◌==◌, update,
}
use rust_fumio.AtomicWaker.{AtomicWaker}
use rust_fumio.Reactor.Waker.{start_poll, end_poll}
use rust_fumio.Reactor.Tasks.{Tasks, cleanup_tasks}
use rust_fumio.Reactor.Readiness.{ReactorTask, update_ready}
use rust_fumio.Reactor.Registration.{State, Io, done, error, panic, spinning, wake_reactor}

-- `mio::Event`
pub record Event : Type 0 where
  pub token : ℕ
  pub readiness : ℕ

-- `Option<Duration>`, in units of a clock; `none` waits forever.
abbrev pub Timeout : Type 0
Timeout = Option ℕ

-- `unwrap` on a result.
pub unwrap : {A : Type 0} → Io A → Io A
unwrap (done a) = done a
unwrap error = panic
unwrap panic = panic
unwrap spinning = spinning

module _ {Cell : Type 0} (w : AtomicWaker Cell) where
  -- `Handle::upgrade` and `expect_upgrade`
  pub upgrade : State Cell → Bool
  upgrade s = s.alive

  pub expect_upgrade : State Cell → Io Unit
  unfolding upgrade
  expect_upgrade s = if upgrade s then done tt else error

  -- `Handle::waker().wake_by_ref()`: the waker of a reactor that is gone does nothing.
  pub handle_wake : State Cell → State Cell
  unfolding upgrade
  handle_wake s = if upgrade s then wake_reactor s else s

  -- The loop over the events. The reference that `from_token` adds is dropped at the end of each round.
  pub handle_events : List Event → State Cell → State Cell
  handle_events [] s = s
  handle_events (e ∷ es) s =
      let task = (update_ready w e.readiness (s.readiness e.token)).0 in
      let updated = record s { readiness = update s.readiness e.token task } in
      if e.token == 0 then handle_events es s else handle_events es updated

  -- The timeout that `poll` hands to mio.
  pub poll_timeout : Timeout → State Cell → Timeout
  poll_timeout timeout s =
      let (_, pending) = start_poll s.waker in if pending then some 0 else timeout

  -- `Reactor::poll` after the call of mio's poll, and after the cleanup. Each way out drops the guard of
  -- the waker.
  pub after_cleanup : Option Tasks → State Cell → State Cell × Io Unit
  after_cleanup none s = (record s { waker = end_poll s.waker }, panic)
  after_cleanup (some tasks) s = (record s { tasks = tasks; waker = end_poll s.waker }, done tt)

  pub after_mio : Option (List Event) → State Cell → State Cell × Io Unit
  unfolding handle_events after_cleanup
  after_mio none s = (record s { waker = end_poll s.waker }, error)
  after_mio (some events) s =
      let handled = handle_events events s in after_cleanup (cleanup_tasks handled.tasks) handled

  -- `Reactor::poll`; `mio` is what mio's poll gives with that timeout.
  pub poll : (Timeout → Option (List Event)) → Timeout → State Cell → State Cell × Io Unit
  unfolding after_mio poll_timeout
  poll mio timeout s =
      let (word, _) = start_poll s.waker in
      after_mio (mio (poll_timeout timeout s)) (record s { waker = word })

  -- `park` of the reactor, with what mio gives for it.
  pub park : (Timeout → Option (List Event)) → Timeout → State Cell → State Cell × Io Unit
  unfolding poll unwrap
  park mio timeout s = let (s', r) = poll mio timeout s in (s', unwrap r)
