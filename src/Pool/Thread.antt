-- ===== src/Pool/Thread.antt =====
-- fumio-pool/src/pool.rs on fumio-utils/src/park/park_thread.rs: the loop of polls and parks on a
-- thread, whose token the waker of the polls makes available.
pub mod Ending
pub mod Examples
use rust_fumio.Prelude.{ℕ, Option, some, none, List, if◌then◌else◌}
use rust_fumio.AtomicWaker.{AtomicWaker}
use rust_fumio.Park.{Thread, park_thread, wake_thread}
use rust_fumio.Pool.Task.{TaskList, Action, Outcome, Result, ok}
use rust_fumio.Pool.Exec.{Turn, finished, waiting, unwound, Run, run_executor, poll_pool}

-- `others` is what other threads do to the pool while this one is suspended.
module _ {Cell Fut Token : Type 0} (aw : AtomicWaker Cell) (thread : Thread Token)
    (poll_future : Fut → List (Action Fut) × Outcome Fut)
    (others : TaskList Cell Fut → TaskList Cell Fut) where
  -- The token after a turn that has called the waker of the thread, or has not.
  pub notified : TaskList Cell Fut → Token → Token
  notified s token = if s.woken then wake_thread thread token else token

  -- The closure of `LocalPool::run`, with the waker of `ParkThread` as its context's.
  pub thread_turn : TaskList Cell Fut × Token → Turn (TaskList Cell Fut × Token) Unit
  unfolding notified
  thread_turn (s, token) = elim (poll_pool aw poll_future s) [
    | finished s' u ↦ finished (s', notified s' token) u
    | waiting s' ↦ waiting (s', notified s' token)
    | unwound s' ↦ unwound (s', notified s' token)
  ]

  -- `park.park(enter, None)`. A thread that is suspended resumes when another has made its token
  -- available, and takes it.
  pub thread_park : TaskList Cell Fut × Token → Result (TaskList Cell Fut × Token)
  unfolding park_thread
  thread_park (s, token) = elim (park_thread thread none token) [
    | some token' ↦ ok (s, token')
    | none ↦ ok (others s, token)
  ]

  -- `LocalPool::run` with a `ParkThread`.
  pub run_on_thread : ℕ → TaskList Cell Fut × Token → Run (TaskList Cell Fut × Token) Unit
  unfolding run_executor thread_turn thread_park
  run_on_thread fuel s = run_executor thread_park thread_turn fuel s
