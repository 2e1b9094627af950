-- ===== src/Pool/Examples.antt =====
-- A pool with two tasks, whose futures are finished on their second poll; the first spawns a third.
use rust_fumio.Prelude.{
  List, ℕ, zero, suc, ◌≡◌, refl, Bool, true, false, List, [], ◌∷◌, is_some, has, one_if, ◌∈◌, ◌++◌,
  ◌||◌, ◌+◌,
}
use rust_fumio.AtomicWaker.{one_shot}
use rust_fumio.Pool.Task.{
  TaskList, Action, wake_local, wake_global, spawn, Outcome, ready, pending, state_of, ended, new,
  add_task, local_notify, wake, is_unlinked, act_all, act, drop_task,
}
use rust_fumio.Pool.Round.{poll_tasks, poll, drop_list, drop_assertions}
use rust_fumio.Pool.Invariant.{IsPool, new-IsPool}
use rust_fumio.Pool.Notify.{act_all-IsPool}
use rust_fumio.Pool.Rounds.{Round, poll_tasks-Round}
use rust_fumio.Pool.Drop.{drop_list-clears}
use rust_fumio.Pool.Progress.{woken-polled}
use rust_fumio.Pool.Refs.{Lived, made, acted, polled, Lived-counted}

-- A future is the number of polls that it still waits.
abbrev poll_future : ℕ → List (Action ℕ) × Outcome ℕ
poll_future zero = ([], ready)
poll_future (suc n) = (spawn 0 ∷ wake_global 0 ∷ [], pending n)

abbrev empty_pool : TaskList Bool ℕ
empty_pool = new one_shot

abbrev first_actions : List (Action ℕ)
first_actions = spawn 1 ∷ spawn 0 ∷ []

abbrev two_tasks : TaskList Bool ℕ
two_tasks = act_all one_shot first_actions empty_pool

two_tasks-IsPool : IsPool two_tasks
two_tasks-IsPool = act_all-IsPool one_shot first_actions empty_pool (new-IsPool one_shot ℕ)

two_tasks-idle : two_tasks.poll_list ≡ []
unfolding act_all act add_task local_notify wake new is_unlinked
two_tasks-idle = refl

poll_tasks_example :
    Round two_tasks.local_pending two_tasks (poll_tasks one_shot poll_future two_tasks)
poll_tasks_example = poll_tasks-Round one_shot poll_future two_tasks two_tasks-IsPool two_tasks-idle

drop_list_example :
    ((t : ℕ) → ((drop_list two_tasks).tasks t).alive ≡ false)
    × ((t : ℕ) → is_some ((drop_list two_tasks).tasks t).future ≡ false)
    × ((drop_list two_tasks).local_all ≡ [])
    × ((drop_list two_tasks).local_pending ≡ [])
    × (drop_assertions (drop_list two_tasks) ≡ true)
drop_list_example = drop_list-clears two_tasks two_tasks-IsPool

-- A pool whose only task was finished on its first poll.
abbrev finished_pool : TaskList Bool ℕ
finished_pool = state_of (poll one_shot poll_future (act one_shot (spawn 0) empty_pool))

finished_pool-Lived : Lived one_shot poll_future finished_pool
finished_pool-Lived = polled (acted made (spawn 0))

counted_example :
    (finished_pool.refs 0
      ≡ one_if (finished_pool.tasks 0).alive
        + one_if (has 0 finished_pool.global_pending)
        + finished_pool.wakers 0)
    × (finished_pool.refs 0 ≡ 0
        → ((finished_pool.tasks 0).alive ≡ false)
          × (is_some (finished_pool.tasks 0).future ≡ false)
          × ((here : Bool) → drop_task false here (finished_pool.tasks 0) ≡ true)
          × ((here : Bool) → drop_task true here (finished_pool.tasks 0) ≡ here))
counted_example = Lived-counted one_shot poll_future finished_pool 0 finished_pool-Lived

two_tasks-alive : (two_tasks.tasks 0).alive ≡ true
unfolding act_all act add_task local_notify wake new is_unlinked
two_tasks-alive = refl

woken_example :
    let r = poll one_shot poll_future (act one_shot (wake_local 0) two_tasks) in
    (done : List ℕ) × ((state_of r).polled ≡ two_tasks.polled ++ done)
    × ((ended r ≡ true → 0 ∈ done)
        × (ended r ≡ false → (has 0 done || has 0 (state_of r).local_pending) ≡ true))
woken_example =
    woken-polled one_shot poll_future 0 two_tasks two_tasks-IsPool two_tasks-idle two_tasks-alive
