-- ===== src/Pool/Exec.antt =====
-- fumio-pool/src/pool.rs: the loop that polls and parks in turns, `LocalPool` and `LocalSpawner`.
pub mod Laws
use rust_fumio.Prelude.{ℕ, zero, suc, Bool, true, false, List, Option, none, some, if◌then◌else◌}
use rust_fumio.AtomicWaker.{AtomicWaker}
use rust_fumio.Pool.Task.{Task, TaskList, Action, Outcome, Result, ok, panicked, add_task, new}
use rust_fumio.Pool.Round.{poll, is_ready}

-- One call of the closure that `run_executor` runs: a result, `Poll::Pending`, or a panic.
pub data Turn (S T : Type 0) : Type 0 where
  finished : (s : S) (t : T) → Turn S T
  waiting : (s : S) → Turn S T
  unwound : (s : S) → Turn S T

-- The loop's result; `no_fuel` is that it has not ended yet.
pub data Run (S T : Type 0) : Type 0 where
  returned : (s : S) (t : T) → Run S T
  panics : (s : S) → Run S T
  no_fuel : (s : S) → Run S T

-- `run_executor`; `park` is `Park::park`, which may panic, with what other threads do to the state
-- meanwhile.
unfoldable pub run_executor : {S T : Type 0} → (S → Result S) → (S → Turn S T) → ℕ → S → Run S T
run_executor park f zero s = no_fuel s
run_executor park f (suc fuel) s = elim (f s) [
  | finished s' t ↦ returned s' t
  | unwound s' ↦ panics s'
  | waiting s' ↦ elim (park s') [ ok s2 ↦ run_executor park f fuel s2 | panicked s2 ↦ panics s2 ]
]

module _ {Cell Fut : Type 0} (aw : AtomicWaker Cell)
    (poll_future : Fut → List (Action Fut) × Outcome Fut) where
  -- `LocalPool::poll_pool`
  unfoldable pub poll_pool : TaskList Cell Fut → Turn (TaskList Cell Fut) Unit
  poll_pool s = elim (poll aw poll_future s) [
    | ok s' ↦ if is_ready s' then finished s' tt else waiting s'
    | panicked s' ↦ unwound s'
  ]

  -- `LocalPool::run`
  unfoldable pub run :
      (TaskList Cell Fut → Result (TaskList Cell Fut))
      → ℕ
      → TaskList Cell Fut
      → Run (TaskList Cell Fut) Unit
  unfolding run_executor poll_pool
  run park fuel s = run_executor park poll_pool fuel s

  -- The closure of `LocalPool::run_until`; `poll_main` polls the main future `M`, which can spawn and
  -- wake tasks.
  pub until_turn :
      {M T : Type 0}
      → (M × TaskList Cell Fut → Turn (M × TaskList Cell Fut) T)
      → M × TaskList Cell Fut
      → Turn (M × TaskList Cell Fut) T
  unfolding poll_pool
  until_turn poll_main s = elim (poll_main s) [
    | finished s' t ↦ finished s' t
    | unwound s' ↦ unwound s'
    | waiting s' ↦
        let (main, tasks) = s' in
        elim (poll_pool tasks) [
          | finished tasks' _ ↦ waiting (main, tasks')
          | waiting tasks' ↦ waiting (main, tasks')
          | unwound tasks' ↦ unwound (main, tasks')
        ]
  ]

  -- `LocalPool::run_until`
  pub run_until :
      {M T : Type 0}
      → (M × TaskList Cell Fut → Result (M × TaskList Cell Fut))
      → (M × TaskList Cell Fut → Turn (M × TaskList Cell Fut) T)
      → ℕ
      → M × TaskList Cell Fut
      → Run (M × TaskList Cell Fut) T
  unfolding run_executor until_turn
  run_until park poll_main fuel s = run_executor park (until_turn poll_main) fuel s

  -- `LocalSpawner::{spawn_local_obj, status_local}`: `none` is a pool that has been dropped, and the
  -- second result is whether the call succeeds.
  pub spawn_local_obj : Fut → Option (TaskList Cell Fut) → Option (TaskList Cell Fut) × Bool
  unfolding add_task
  spawn_local_obj future none = (none, false)
  spawn_local_obj future (some s) = (some (add_task aw future s), true)

  pub status_local : Option (TaskList Cell Fut) → Bool
  status_local none = false
  status_local (some s) = true

  -- `LocalPool::spawn`, and with it `spawn_local_obj` and `spawn_obj`, which always succeed.
  pub pool_spawn : Fut → TaskList Cell Fut → TaskList Cell Fut
  pool_spawn future s = add_task aw future s

  pub pool_spawn_local_obj : Fut → TaskList Cell Fut → TaskList Cell Fut × Bool
  unfolding pool_spawn
  pool_spawn_local_obj future s = (pool_spawn future s, true)

  pub pool_spawn_obj : Fut → TaskList Cell Fut → TaskList Cell Fut × Bool
  unfolding pool_spawn_local_obj
  pool_spawn_obj future s = pool_spawn_local_obj future s

  -- `LocalSpawner::spawn_obj`
  pub spawn_obj : Fut → Option (TaskList Cell Fut) → Option (TaskList Cell Fut) × Bool
  unfolding spawn_local_obj
  spawn_obj future pool = spawn_local_obj future pool

  -- `LocalPool::new`; its status is that spawning succeeds.
  pub new_pool : TaskList Cell Fut
  new_pool = new aw

  pub pool_status_local : TaskList Cell Fut → Bool
  pool_status_local s = true

  -- `status` of `LocalPool` and of `LocalSpawner`.
  pub pool_status : TaskList Cell Fut → Bool
  unfolding pool_status_local
  pool_status s = pool_status_local s

  pub spawner_status : Option (TaskList Cell Fut) → Bool
  unfolding status_local
  spawner_status pool = status_local pool
