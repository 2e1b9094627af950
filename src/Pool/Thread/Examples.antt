-- ===== src/Pool/Thread/Examples.antt =====
-- A pool whose tasks wait for other threads, which wake its first task whenever it sleeps.
use rust_fumio.Prelude.{
  ℕ, zero, suc, ◌+◌, ◌*◌, ◌≡◌, ◌≢◌, refl, Bool, true, false, List, [], ◌∷◌, none, arith,
}
use rust_fumio.AtomicWaker.{one_shot}
use rust_fumio.Park.{one_token}
use rust_fumio.Pool.Task.{
  TaskList, Action, spawn, Outcome, ready, pending, ok, act_all, act, add_task, local_notify, wake,
  is_unlinked, new,
}
use rust_fumio.Pool.Invariant.{IsPool, new-IsPool}
use rust_fumio.Pool.Notify.{act_all-IsPool}
use rust_fumio.Pool.Progress.{wake_up}
use rust_fumio.Pool.Spending.{Spends}
use rust_fumio.Pool.Ending.{Wakes, wake_up-Wakes}
use rust_fumio.Pool.Exec.{returned}
use rust_fumio.Pool.Thread.{run_on_thread}
use rust_fumio.Pool.Thread.Ending.{run_on_thread-returns}

-- A future is the number of polls that it waits; while it waits it spawns one that is ready.
abbrev pub poll_future : ℕ → List (Action ℕ) × Outcome ℕ
poll_future zero = ([], ready)
poll_future (suc n) = (spawn 0 ∷ [], pending n)

abbrev pub rank : ℕ → ℕ
rank n = 2 * n + 1

pub rank-Spends : (f : ℕ) → Spends rank f (poll_future f).0 (poll_future f).1
rank-Spends zero = omega arith
rank-Spends (suc n) = omega arith

abbrev pub wake_first : List ℕ → TaskList Bool ℕ → TaskList Bool ℕ
wake_first [] s = s
wake_first (t ∷ ts) s = act_all one_shot (wake_up false t ∷ []) s

abbrev pub others : TaskList Bool ℕ → TaskList Bool ℕ
others s = wake_first s.local_all s

wake_first-Wakes :
    (l : List ℕ) (s : TaskList Bool ℕ)
    → IsPool s
    → s.poll_list ≡ []
    → s.local_all ≡ l
    → l ≢ []
    → Wakes one_shot rank s (ok (wake_first l s))
wake_first-Wakes [] s v idle e ne = absurd (ne refl)
wake_first-Wakes (t ∷ ts) s v idle e ne =
    wake_up-Wakes one_shot rank false t s v idle (ground (arith, v.listed t, e))

pub others-Wakes :
    (s : TaskList Bool ℕ)
    → IsPool s
    → s.poll_list ≡ []
    → s.local_all ≢ []
    → Wakes one_shot rank s (ok (others s))
others-Wakes s v idle ne = wake_first-Wakes s.local_all s v idle refl ne

-- Two tasks, of two polls and of one.
abbrev first_actions : List (Action ℕ)
first_actions = spawn 1 ∷ spawn 0 ∷ []

abbrev pub two_tasks : TaskList Bool ℕ
two_tasks = act_all one_shot first_actions (new one_shot)

pub two_tasks-IsPool : IsPool two_tasks
two_tasks-IsPool = act_all-IsPool one_shot first_actions (new one_shot) (new-IsPool one_shot ℕ)

pub two_tasks-idle : two_tasks.poll_list ≡ []
unfolding act_all act add_task local_notify wake new is_unlinked
two_tasks-idle = refl

no_token : (token : Bool) → one_token.available token ≡ false → one_token.park token ≡ none
no_token true e = absurd (cc)
no_token false e = refl

run_on_thread_example :
    (after : TaskList Bool ℕ × Bool) × (run_on_thread one_shot one_token poll_future others 10
        (two_tasks, false)
      ≡ returned after tt)
    × IsPool after.0
    × (after.0.local_all ≡ [])
unfolding act_all act add_task local_notify wake new is_unlinked
run_on_thread_example =
    run_on_thread-returns one_shot one_token poll_future others rank rank-Spends no_token
      (λ s v idle ne q. others-Wakes s v idle ne) 10 two_tasks false two_tasks-IsPool two_tasks-idle
      (omega arith)
