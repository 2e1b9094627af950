-- ===== src/Pool/Ending.antt =====
-- fumio-pool/src/pool.rs: `run` on futures whose work comes to an end.
use rust_fumio.Prelude.{ℕ, ◌+◌, ◌<◌, ◌≡◌, ◌≢◌, refl, Bool, true, List, [], ◌∷◌, arith}
use rust_fumio.AtomicWaker.{AtomicWaker}
use rust_fumio.Pool.Task.{TaskList, Action, Outcome, Result, ok, act_all}
use rust_fumio.Pool.Invariant.{IsPool}
use rust_fumio.Pool.Progress.{wake_up, wake_up-Queued}
use rust_fumio.Pool.Work.{spawned, work}
use rust_fumio.Pool.Spending.{Spends, Roused}
use rust_fumio.Pool.Exec.{returned, poll_pool, run}
use rust_fumio.Pool.Turns.{Seat, Revives, loop-Returns}

-- What parking is to do while there are tasks: it comes back after actions that spawn nothing, with a
-- live task queued.
pub record Wakes {Cell Fut : Type 0} (aw : AtomicWaker Cell) (rank : Fut → ℕ)
    (s : TaskList Cell Fut) (r : Result (TaskList Cell Fut)) : Type 0 where
  pub actions : List (Action Fut)
  pub acted : r ≡ ok (act_all aw actions s)
  pub unspawned : spawned rank actions ≡ 0
  pub roused : Roused (act_all aw actions s)

-- A wake-up of a live task, on either thread, is what parking has to wait for.
pub wake_up-Wakes :
    {Cell Fut : Type 0} (aw : AtomicWaker Cell) (rank : Fut → ℕ) (here : Bool) (t : ℕ)
    (s : TaskList Cell Fut)
    → IsPool s
    → s.poll_list ≡ []
    → (s.tasks t).alive ≡ true
    → Wakes aw rank s (ok (act_all aw (wake_up here t ∷ []) s))
unfolding act_all
wake_up-Wakes aw rank here t s v idle a =
    let q = wake_up-Queued aw t s v idle a here in
    record {
      actions = wake_up here t ∷ [];
      acted = refl;
      unspawned = ground arith;
      roused = record { task = t; alive = q.alive; queued = q.queued };
    }

module _ {Cell Fut : Type 0} (aw : AtomicWaker Cell)
    (poll_future : Fut → List (Action Fut) × Outcome Fut) (rank : Fut → ℕ)
    (spends : (f : Fut) → Spends rank f (poll_future f).0 (poll_future f).1)
    (park : TaskList Cell Fut → Result (TaskList Cell Fut))
    (wakes : (s : TaskList Cell Fut)
      → IsPool s
      → s.poll_list ≡ []
      → s.local_all ≢ []
      → Wakes aw rank s (park s)) where
  -- The pool is the whole state.
  pool_seat : Seat aw poll_future (λ _. Unit) (poll_pool aw poll_future)
  pool_seat = record {
    view = λ s. s;
    put = λ p _. p;
    view_put = λ _ _. refl;
    put_kept = λ _ _ _. tt;
    turn_finished = λ _ _ e. e;
    turn_waiting = λ _ _ e. e;
  }

  Wakes-Revives :
      (s : TaskList Cell Fut)
      → Wakes aw rank s (park s)
      → Revives aw rank (λ p. p) (λ _. Unit) s (park s)
  Wakes-Revives s w = record {
    back = act_all aw w.actions s;
    actions = w.actions;
    came_back = w.acted;
    acted = refl;
    unspawned = w.unspawned;
    roused = w.roused;
    kept = tt;
  }

  -- A pool whose futures come to an end does: if every poll of a future ends without a panic and
  -- takes work away, by some rank of the futures, and parking while there are tasks comes back after
  -- a live task is queued, spawning nothing: `run` on a well-formed pool, with fuel for two turns
  -- more than there is work, returns, and the pool is well formed and has no task left.
  pub run-returns :
      (fuel : ℕ) (s : TaskList Cell Fut)
      → IsPool s
      → s.poll_list ≡ []
      → work rank s + 1 < fuel
      → (after : TaskList Cell Fut) × (run aw poll_future park fuel s ≡ returned after tt)
        × IsPool after
        × (after.local_all ≡ [])
  unfolding run pool_seat
  run-returns fuel s v idle f =
      let (end, ends, v2, no_task, _) =
        loop-Returns aw poll_future (λ _. Unit) (poll_pool aw poll_future) pool_seat rank spends
          park (λ s' u v' idle' tasks. Wakes-Revives s' (wakes s' v' idle' tasks)) fuel s tt v idle
          f in
      (end, ends, v2, no_task)
