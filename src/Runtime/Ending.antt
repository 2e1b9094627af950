-- ===== src/Runtime/Ending.antt =====
-- src/runtime.rs: `Runtime::run` returns, for futures whose work comes to an end.
use rust_fumio.Prelude.{ℕ, ◌+◌, ◌<◌, ◌≡◌, ◌≢◌, List, [], Option, some}
use rust_fumio.AtomicWaker.{AtomicWaker}
use rust_fumio.Current.{returned}
use rust_fumio.Pool.Task as PoolTask
use rust_fumio.Pool.Task.{TaskList, Action, Result}
use rust_fumio.Pool.Invariant.{IsPool}
use rust_fumio.Pool.Work.{work}
use rust_fumio.Pool.Spending.{Spends}
use rust_fumio.Runtime.{Locals, Handle, run}
use rust_fumio.Runtime.Laws.{IsFree, IsEntered, IsLeft}
use rust_fumio.Runtime.Keeping.{IsApart, Inside, run_keeping-returns}
use rust_fumio.Pool.Turns.{Revives}

module _ {M RH TH SH Cell Fut : Type 0} (k : Locals (M × TaskList Cell Fut) RH TH SH)
    (apart : IsApart k) where
  module _ (h : Handle RH TH SH) (aw : AtomicWaker Cell)
      (poll_future : Fut → List (Action Fut) × PoolTask.Outcome Fut)
      (take_enter : M × TaskList Cell Fut → Option (M × TaskList Cell Fut))
      (drop_enter : M × TaskList Cell Fut → M × TaskList Cell Fut) (rank : Fut → ℕ)
      (spends : (f : Fut) → Spends rank f (poll_future f).0 (poll_future f).1)
      (park : M × TaskList Cell Fut → Result (M × TaskList Cell Fut))
      (revives : (w : M × TaskList Cell Fut)
        → IsEntered k h w
        → IsPool w.1
        → w.1.poll_list ≡ []
        → w.1.local_all ≢ []
        → Revives aw rank (λ (w' : M × TaskList Cell Fut). w'.1) (IsEntered k h) w (park w)) where
    keeping-Revives :
        (w : M × TaskList Cell Fut)
        → Revives aw rank (λ (w' : M × TaskList Cell Fut). w'.1) (IsEntered k h) w (park w)
        → Revives aw rank (λ (w' : M × TaskList Cell Fut). w'.1) (Inside k h (λ _. Unit)) w (park w)
    keeping-Revives w r = record {
      back = r.back;
      actions = r.actions;
      came_back = r.came_back;
      acted = r.acted;
      unspawned = r.unspawned;
      roused = r.roused;
      kept = (r.kept, tt);
    }

    -- If every poll of a future ends without a panic and takes work away, by some rank of the futures,
    -- and parking while there are tasks comes back with a live task queued and the handles still set,
    -- spawning nothing; on a thread that runs no executor and has no handle set, and whose handles are
    -- apart from its pool: `Runtime::run` on a well-formed pool, with fuel for two turns more than there
    -- is work, returns, the pool is well formed and has no task left, and no handle is set afterwards.
    pub runtime_run-returns :
        (fuel : ℕ) (w w1 : M × TaskList Cell Fut)
        → take_enter w ≡ some w1
        → IsFree k w1
        → IsPool w1.1
        → w1.1.poll_list ≡ []
        → work rank w1.1 + 1 < fuel
        → (end : M × TaskList Cell Fut) × (run k h aw poll_future take_enter drop_enter park fuel w
            ≡ returned (drop_enter end) (some tt))
          × IsPool end.1
          × (end.1.local_all ≡ [])
          × IsLeft k end
    runtime_run-returns fuel w w1 e free v idle enough =
        run_keeping-returns k apart (λ _. Unit)
          (record {
            put_reactor = λ _ _ _. tt;
            put_spawner = λ _ _ _. tt;
            set_timer = λ _ _ _ _ _. tt;
          })
          h aw poll_future take_enter drop_enter rank spends park
          (λ w' i v' idle' tasks. keeping-Revives w' (revives w' i.0 v' idle' tasks)) fuel w w1 e
          free tt v idle enough
