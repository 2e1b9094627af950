-- ===== src/Pool/Exec/Laws.antt =====
-- The executor's loop ends at the first turn with a result, and `run` ends with no task left.
use rust_fumio.Prelude.{
  none, some, true, ℕ, zero, suc, ◌≡◌, refl, ◌∙◌, sym, ◌<◌, List, [], arith, inl, inr, ◌⊎◌,
}
use rust_fumio.AtomicWaker.{AtomicWaker}
use rust_fumio.Pool.Task.{add_task, TaskList, Action, Outcome, Result, ok, panicked}
use rust_fumio.Pool.Invariant.{IsPool}
use rust_fumio.Pool.Notify.{add_task-IsPool}
use rust_fumio.Pool.Round.{is_ready}
use rust_fumio.Pool.Exec.{
  Turn, finished, waiting, unwound, returned, panics, run_executor, poll_pool, run, until_turn,
  run_until, spawn_obj, spawn_local_obj, status_local, pool_spawn_obj, pool_spawn_local_obj,
  pool_spawn,
}

-- `n` turns that wait, each followed by a park, lead from `s` to `s'`.
pub data Waits {S T : Type 0} (park : S → Result S) (f : S → Turn S T) : ℕ → S → S → Type 0 where
  at_once : {s : S} → Waits park f 0 s s
  one_more :
      {n : ℕ} {s s1 s2 s' : S}
      → f s ≡ waiting s1
      → park s1 ≡ ok s2
      → Waits park f n s2 s'
      → Waits park f (suc n) s s'

pub one_turn :
    {S T : Type 0} (park : S → Result S) (f : S → Turn S T) (fuel : ℕ) (s s1 s2 : S)
    → f s ≡ waiting s1
    → park s1 ≡ ok s2
    → run_executor park f (suc fuel) s ≡ run_executor park f fuel s2
unfolding run_executor
one_turn park f fuel s s1 s2 e p = rw (e, p, run_executor) refl

panic_turn :
    {S T : Type 0} (park : S → Result S) (f : S → Turn S T) (fuel : ℕ) (s s1 s2 : S)
    → f s ≡ waiting s1
    → park s1 ≡ panicked s2
    → run_executor park f (suc fuel) s ≡ panics s2
unfolding run_executor
panic_turn park f fuel s s1 s2 e p = rw (e, p, run_executor) refl

pub last_turn :
    {S T : Type 0} (park : S → Result S) (f : S → Turn S T) (fuel : ℕ) (s s1 : S) (t : T)
    → f s ≡ finished s1 t
    → run_executor park f (suc fuel) s ≡ returned s1 t
unfolding run_executor
last_turn park f fuel s s1 t e = rw (e, run_executor) refl

-- If the turn after `n` that wait has a result, more than `n` turns of fuel give that result.
pub run_executor_lem :
    {S T : Type 0} (park : S → Result S) (f : S → Turn S T) (n fuel : ℕ) (s s' s1 : S) (t : T)
    → Waits park f n s s'
    → f s' ≡ finished s1 t
    → n < fuel
    → run_executor park f fuel s ≡ returned s1 t
run_executor_lem park f n zero s s' s1 t turns e enough = absurd (omega arith)
run_executor_lem park f zero (suc fuel) s s' s1 t at_once e enough = last_turn park f fuel s s1 t e
run_executor_lem park f (suc n) (suc fuel) s s' s1 t (one_more {s1 = w1} {s2 = w2} w p turns) e
      enough =
    one_turn park f fuel s w1 w2 w p
    ∙ run_executor_lem park f n fuel w2 s' s1 t turns e (omega arith)

park-cases : {S : Type 0} (r : Result S) → ((s : S) × (r ≡ ok s)) ⊎ ((s : S) × (r ≡ panicked s))
park-cases (ok s) = inl (s, refl)
park-cases (panicked s) = inr (s, refl)

turn-cases :
    {S T : Type 0} (o : Turn S T)
    → ((s : S) × (t : T) × (o ≡ finished s t))
      ⊎ (((s : S) × (o ≡ waiting s)) ⊎ ((s : S) × (o ≡ unwound s)))
turn-cases (finished s t) = inl (s, t, refl)
turn-cases (waiting s) = inr (inl (s, refl))
turn-cases (unwound s) = inr (inr (s, refl))

-- A loop that returns has had a turn with that result.
executor-finished :
    {S T : Type 0} (park : S → Result S) (f : S → Turn S T) (fuel : ℕ) (s s1 : S) (t : T)
    → run_executor park f fuel s ≡ returned s1 t
    → (s' : S) × (f s' ≡ finished s1 t)
unfolding run_executor
executor-finished park f zero s s1 t e = absurd (cc)
executor-finished park f (suc fuel) s s1 t e = elim (turn-cases (f s)) [
  | inl (s', u, h) ↦ (s, ground (arith, h, e))
  | inr (inl (s', h)) ↦ elim (park-cases (park s')) [
    | inl (s2, p) ↦
        executor-finished park f fuel s2 s1 t (sym (one_turn park f fuel s s' s2 h p) ∙ e)
    | inr (s2, p) ↦ absurd (ground (arith, panic_turn park f fuel s s' s2 h p, e))
  ]
  | inr (inr (s', h)) ↦ absurd (ground (arith, h, e))
]

module _ {Cell Fut : Type 0} (aw : AtomicWaker Cell)
    (poll_future : Fut → List (Action Fut) × Outcome Fut) where
  poll_pool-done :
      (s after : TaskList Cell Fut)
      → poll_pool aw poll_future s ≡ finished after tt
      → after.local_all ≡ []
  unfolding poll_pool is_ready
  poll_pool-done s after e = ground arith

  -- When `run` returns, whatever happens while it is parked, the pool has no task left.
  pub run-returned :
      (park : TaskList Cell Fut → Result (TaskList Cell Fut)) (fuel : ℕ)
      (s after : TaskList Cell Fut)
      → run aw poll_future park fuel s ≡ returned after tt
      → after.local_all ≡ []
  unfolding run
  run-returned park fuel s after e =
      let (last, done) = executor-finished park (poll_pool aw poll_future) fuel s after tt e in
      poll_pool-done last after done

  -- A main future that is ready ends the turn before the tasks are polled.
  pub until_turn-finished :
      {M T : Type 0} (poll_main : M × TaskList Cell Fut → Turn (M × TaskList Cell Fut) T)
      (s s1 : M × TaskList Cell Fut) (t : T)
      → poll_main s ≡ finished s1 t
      → until_turn aw poll_future poll_main s ≡ finished s1 t
  unfolding until_turn
  until_turn-finished poll_main s s1 t e = ground (arith, e)

  -- `run_until` gives the result of the first turn that has one.
  pub run_until_lem :
      {M T : Type 0} (park : M × TaskList Cell Fut → Result (M × TaskList Cell Fut))
      (poll_main : M × TaskList Cell Fut → Turn (M × TaskList Cell Fut) T) (n fuel : ℕ)
      (s s' s1 : M × TaskList Cell Fut) (t : T)
      → Waits park (until_turn aw poll_future poll_main) n s s'
      → until_turn aw poll_future poll_main s' ≡ finished s1 t
      → n < fuel
      → run_until aw poll_future park poll_main fuel s ≡ returned s1 t
  unfolding run_until
  run_until_lem park poll_main = run_executor_lem park (until_turn aw poll_future poll_main)

  -- Spawning through a handle succeeds exactly while the pool is there, as its status says; then it
  -- does what spawning on the pool does, and keeps the pool well formed.
  pub spawn_obj_lem :
      (future : Fut) (s : TaskList Cell Fut)
      → IsPool s
      → ((spawn_obj aw poll_future future none).1 ≡ status_local aw poll_future none)
        × (((spawn_obj aw poll_future future (some s)).1 ≡ status_local aw poll_future (some s))
            × ((after : TaskList Cell Fut) × ((spawn_obj aw poll_future future (some s)).0
                  ≡ some after)
                × ((pool_spawn_obj aw poll_future future s ≡ (after, true)) × IsPool after)))
  unfolding spawn_obj spawn_local_obj status_local pool_spawn_obj pool_spawn_local_obj pool_spawn
  spawn_obj_lem future s v =
      (refl, (refl, (add_task aw future s, refl, (refl, add_task-IsPool aw s future v))))
