-- ===== src/Runtime.antt =====
-- src/runtime.rs: the runtime enters the handles of its reactor, its timer and its pool, and runs the
-- pool. The crate tokio-timer and the executor's `Enter` are parameters.
pub mod Laws
pub mod Sleep
mod Keeping
mod Ending
pub mod Io
mod Examples
use rust_fumio.Prelude.{ℕ, ◌≡◌, Bool, List, Option, none, some}
use rust_fumio.AtomicWaker.{AtomicWaker}
use rust_fumio.Current.{LocalKey, Outcome, returned, panicked, on_exit, enter}
use rust_fumio.Pool.Task as PoolTask
use rust_fumio.Pool.Task.{TaskList, Action}
use rust_fumio.Pool.Exec as Exec
use rust_fumio.Reactor.Registration as Registration
use rust_fumio.Pool.Exec.{
  Turn, finished, waiting, unwound, Run, poll_pool, spawn_local_obj, status_local, no_fuel, panics,
  run_executor, run_until, new_pool, pool_spawn, pool_spawn_local_obj, pool_status_local,
}

-- What a thread in the state `W` has: the current handles of the reactor (`RH`) and of the pool
-- (`SH`), and the default timer (`TH`) of `tokio_timer::timer::set_default`, which panics (`none`) if
-- there is one already, and whose guard removes it. The laws are that they are separate.
pub record Locals (W RH TH SH : Type 0) : Type 0 where
  pub reactor : LocalKey W RH
  pub spawner : LocalKey W SH
  pub default_timer : W → Option TH
  pub set_default : TH → W → Option W
  pub drop_default : W → W
  pub set_when_free :
      (t : TH) (w : W)
      → default_timer w ≡ none
      → (w' : W) × (set_default t w ≡ some w')
        × ((default_timer w' ≡ some t)
            × ((reactor.get w' ≡ reactor.get w) × (spawner.get w' ≡ spawner.get w)))
  pub drop_clears : (w : W) → default_timer (drop_default w) ≡ none
  pub reactor-drop : (w : W) → reactor.get (drop_default w) ≡ reactor.get w
  pub spawner-drop : (w : W) → spawner.get (drop_default w) ≡ spawner.get w
  pub timer-reactor : (c : _) (w : W) → default_timer (reactor.put c w) ≡ default_timer w
  pub timer-spawner : (c : _) (w : W) → default_timer (spawner.put c w) ≡ default_timer w
  pub reactor-spawner : (c : _) (w : W) → reactor.get (spawner.put c w) ≡ reactor.get w
  pub spawner-reactor : (c : _) (w : W) → spawner.get (reactor.put c w) ≡ spawner.get w

pub record Handle (RH TH SH : Type 0) : Type 0 where
  pub reactor_handle : RH
  pub timer_handle : TH
  pub local_spawner : SH

-- `Runtime::handle`, from the handles that its parts give.
pub runtime_handle : {RH TH SH : Type 0} → RH → TH → SH → Handle RH TH SH
runtime_handle reactor timer spawner = record {
  reactor_handle = reactor;
  timer_handle = timer;
  local_spawner = spawner;
}

-- `Handle::{reactor, timer, spawner}`
pub handle_reactor : {RH TH SH : Type 0} → Handle RH TH SH → RH
handle_reactor h = h.reactor_handle

pub handle_timer : {RH TH SH : Type 0} → Handle RH TH SH → TH
handle_timer h = h.timer_handle

pub handle_spawner : {RH TH SH : Type 0} → Handle RH TH SH → SH
handle_spawner h = h.local_spawner

-- A guard around a callback: taking it may panic, and it is dropped however the callback ends.
pub guarded : {W R : Type 0} → (W → Option W) → (W → W) → (W → Outcome W R) → W → Outcome W R
guarded take leave f w = elim (take w) [ none ↦ panicked w | some w' ↦ on_exit leave (f w') ]

-- The nesting of `Handle::enter`.
pub handle_enter :
    {W RH TH SH R : Type 0}
    → Locals W RH TH SH
    → Handle RH TH SH
    → (W → Outcome W R)
    → W
    → Outcome W R
unfolding guarded
handle_enter k h f =
    enter k.reactor h.reactor_handle
      (guarded (k.set_default h.timer_handle) k.drop_default (enter k.spawner h.local_spawner f))

-- The result of the executor as an outcome; a loop that has not ended yet has the result `none`.
abbrev pub ended : {W T : Type 0} → Run W T → Outcome W (Option T)
ended (Exec.returned w t) = returned w (some t)
ended (panics w) = panicked w
ended (no_fuel w) = returned w none

module _ {Cell Fut : Type 0} (aw : AtomicWaker Cell)
    (poll_future : Fut → List (Action Fut) × PoolTask.Outcome Fut) where
  -- `Runtime::new`, from the outcome of `TimerReactor::new`: the runtime is the timer with its reactor,
  -- and an empty pool.
  pub runtime_new :
      {Timer : Type 0} → Registration.Io Timer → Registration.Io (Timer × TaskList Cell Fut)
  runtime_new (Registration.done timer) = Registration.done (timer, new_pool aw poll_future)
  runtime_new Registration.error = Registration.error
  runtime_new Registration.panic = Registration.panic
  runtime_new Registration.spinning = Registration.spinning

-- `h` has the handles that the parts of the runtime give: `timer_reactor.reactor_handle()`,
-- `timer_reactor.timer_handle()` and `local_pool.spawner()`. The state of the thread is that of the pool,
-- with `M` for all else: its current handles, the reactor, the timer, and the main future.
module _ {M RH TH SH Cell Fut : Type 0} (k : Locals (M × TaskList Cell Fut) RH TH SH)
    (h : Handle RH TH SH) (aw : AtomicWaker Cell)
    (poll_future : Fut → List (Action Fut) × PoolTask.Outcome Fut)
    (take_enter : M × TaskList Cell Fut → Option (M × TaskList Cell Fut))
    (drop_enter : M × TaskList Cell Fut → M × TaskList Cell Fut) where
  -- `Runtime::enter`
  pub runtime_enter :
      {R : Type 0}
      → (M × TaskList Cell Fut → Outcome (M × TaskList Cell Fut) R)
      → M × TaskList Cell Fut
      → Outcome (M × TaskList Cell Fut) R
  unfolding guarded
  runtime_enter f =
      enter k.reactor h.reactor_handle
        (guarded (k.set_default h.timer_handle) k.drop_default (enter k.spawner h.local_spawner f))

  -- `Runtime::enter_run_until`; `park` is that of the timer with its reactor.
  pub enter_run_until :
      {T : Type 0}
      → (M × TaskList Cell Fut → PoolTask.Result (M × TaskList Cell Fut))
      → (M × TaskList Cell Fut → Turn (M × TaskList Cell Fut) T)
      → ℕ
      → M × TaskList Cell Fut
      → Outcome (M × TaskList Cell Fut) (Option T)
  unfolding runtime_enter
  enter_run_until park poll_main fuel =
      runtime_enter (λ w. ended (run_until aw poll_future park poll_main fuel w))

  -- `Runtime::run_until`; `futures_executor::enter` fails if the thread runs an executor already.
  pub run_until_end :
      {T : Type 0}
      → (M × TaskList Cell Fut → PoolTask.Result (M × TaskList Cell Fut))
      → (M × TaskList Cell Fut → Turn (M × TaskList Cell Fut) T)
      → ℕ
      → M × TaskList Cell Fut
      → Outcome (M × TaskList Cell Fut) (Option T)
  unfolding enter_run_until guarded
  run_until_end park poll_main fuel =
      guarded take_enter drop_enter (enter_run_until park poll_main fuel)

  -- The closure of the pool's `run`, on the state of the thread.
  pub pool_turn : M × TaskList Cell Fut → Turn (M × TaskList Cell Fut) Unit
  pool_turn w = elim (poll_pool aw poll_future w.1) [
    | finished tasks u ↦ finished (w.0, tasks) u
    | waiting tasks ↦ waiting (w.0, tasks)
    | unwound tasks ↦ unwound (w.0, tasks)
  ]

  -- `Runtime::enter_run`
  pub enter_run :
      (M × TaskList Cell Fut → PoolTask.Result (M × TaskList Cell Fut))
      → ℕ
      → M × TaskList Cell Fut
      → Outcome (M × TaskList Cell Fut) (Option Unit)
  unfolding runtime_enter pool_turn
  enter_run park fuel = runtime_enter (λ w. ended (run_executor park pool_turn fuel w))

  -- `Runtime::run`
  pub run :
      (M × TaskList Cell Fut → PoolTask.Result (M × TaskList Cell Fut))
      → ℕ
      → M × TaskList Cell Fut
      → Outcome (M × TaskList Cell Fut) (Option Unit)
  unfolding enter_run guarded
  run park fuel = guarded take_enter drop_enter (enter_run park fuel)

  -- `fumio::run` of lib.rs: `created` is the outcome of `TimerReactor::new`, and `thread` the state of
  -- the thread with that timer. `none` is that the `unwrap` of `Runtime::new` panics.
  pub fumio_run :
      {T Timer : Type 0}
      → Registration.Io Timer
      → (Timer → M)
      → (M × TaskList Cell Fut → PoolTask.Result (M × TaskList Cell Fut))
      → (M × TaskList Cell Fut → Turn (M × TaskList Cell Fut) T)
      → ℕ
      → Option (Outcome (M × TaskList Cell Fut) (Option T))
  fumio_run created thread park poll_main fuel = elim (runtime_new aw poll_future created) [
    | Registration.done (timer, tasks) ↦
        some (run_until_end park poll_main fuel (thread timer, tasks))
    | Registration.error ↦ none
    | Registration.panic ↦ none
    | Registration.spinning ↦ none
  ]

module _ {Cell Fut : Type 0} (aw : AtomicWaker Cell)
    (poll_future : Fut → List (Action Fut) × PoolTask.Outcome Fut) where
  -- `Runtime::spawn`, which boxes the future, and the inherent `spawn_local_obj`.
  pub runtime_spawn : {M : Type 0} → Fut → M × TaskList Cell Fut → M × TaskList Cell Fut
  runtime_spawn future w = (w.0, pool_spawn aw poll_future future w.1)

  -- `LocalSpawn` and `Spawn` for `Runtime`.
  pub runtime_spawn_local_obj :
      {M : Type 0} → Fut → M × TaskList Cell Fut → (M × TaskList Cell Fut) × Bool
  runtime_spawn_local_obj future w =
      let (tasks, accepted) = pool_spawn_local_obj aw poll_future future w.1 in
      ((w.0, tasks), accepted)

  pub runtime_spawn_obj :
      {M : Type 0} → Fut → M × TaskList Cell Fut → (M × TaskList Cell Fut) × Bool
  unfolding runtime_spawn_local_obj
  runtime_spawn_obj future w = runtime_spawn_local_obj future w

  pub runtime_status_local : {M : Type 0} → M × TaskList Cell Fut → Bool
  runtime_status_local w = pool_status_local aw poll_future w.1

  pub runtime_status : {M : Type 0} → M × TaskList Cell Fut → Bool
  unfolding runtime_status_local
  runtime_status w = runtime_status_local w

  -- `LocalSpawn` and `Spawn` for `Handle`; `none` is a pool that has been dropped.
  pub handle_spawn_local_obj : Fut → Option (TaskList Cell Fut) → Option (TaskList Cell Fut) × Bool
  handle_spawn_local_obj future pool = spawn_local_obj aw poll_future future pool

  pub handle_spawn_obj : Fut → Option (TaskList Cell Fut) → Option (TaskList Cell Fut) × Bool
  unfolding handle_spawn_local_obj
  handle_spawn_obj future pool = handle_spawn_local_obj future pool

  pub handle_status_local : Option (TaskList Cell Fut) → Bool
  handle_status_local pool = status_local aw poll_future pool

  pub handle_status : Option (TaskList Cell Fut) → Bool
  unfolding handle_status_local
  handle_status pool = handle_status_local pool
