-- ===== src/Pool/Batch.antt =====
-- fumio-pool/src/pool/task.rs: a batch of wake-ups, and of anything else that happens to the pool in
-- between, still queues a task that one of them is for.
use rust_fumio.Prelude.{
  ℕ, ◌+◌, ◌≡◌, refl, ◌∙◌, Bool, true, false, ◌||◌, List, [], ◌∷◌, ◌++◌, arith, has, has-append,
  ◌==◌, Bool-cases, inl, inr, eq_of_==, subst, sym,
}
use rust_fumio.AtomicWaker.{AtomicWaker}
use rust_fumio.Pool.Task.{
  TaskList, Action, wake_local, wake_global, clone_waker, drop_waker, spawn, local_notify, wake,
  global_notify, add_task, act, act_all,
}
use rust_fumio.Pool.Invariant.{IsPool}
use rust_fumio.Pool.Notify.{act_all-IsPool}
use rust_fumio.Pool.Polls.{act_all-Keeps}
use rust_fumio.Pool.Work.{spawned}
use rust_fumio.Pool.Progress.{Queued, wake_up-Queued}

-- Whether `t` is woken, on either thread, by one of the actions.
abbrev pub wakes_task : {Fut : Type 0} → ℕ → List (Action Fut) → Bool
wakes_task t [] = false
wakes_task t (wake_local x ∷ as') = x == t || wakes_task t as'
wakes_task t (wake_global x ∷ as') = x == t || wakes_task t as'
wakes_task t (clone_waker x ∷ as') = wakes_task t as'
wakes_task t (drop_waker x ∷ as') = wakes_task t as'
wakes_task t (spawn f ∷ as') = wakes_task t as'

pub wakes_task-append :
    {Fut : Type 0} (t : ℕ) (xs ys : List (Action Fut))
    → wakes_task t (xs ++ ys) ≡ (wakes_task t xs || wakes_task t ys)
wakes_task-append t [] ys = refl
wakes_task-append t (wake_local x ∷ xs) ys = ground (arith, wakes_task-append t xs ys)
wakes_task-append t (wake_global x ∷ xs) ys = ground (arith, wakes_task-append t xs ys)
wakes_task-append t (clone_waker x ∷ xs) ys = wakes_task-append t xs ys
wakes_task-append t (drop_waker x ∷ xs) ys = wakes_task-append t xs ys
wakes_task-append t (spawn f ∷ xs) ys = wakes_task-append t xs ys

pub spawned-append :
    {Fut : Type 0} (rank : Fut → ℕ) (xs ys : List (Action Fut))
    → spawned rank (xs ++ ys) ≡ spawned rank xs + spawned rank ys
spawned-append rank [] ys = omega arith
spawned-append rank (wake_local x ∷ xs) ys = spawned-append rank xs ys
spawned-append rank (wake_global x ∷ xs) ys = spawned-append rank xs ys
spawned-append rank (clone_waker x ∷ xs) ys = spawned-append rank xs ys
spawned-append rank (drop_waker x ∷ xs) ys = spawned-append rank xs ys
spawned-append rank (spawn f ∷ xs) ys = omega (arith, spawned-append rank xs ys)

module _ {Cell Fut : Type 0} (aw : AtomicWaker Cell) (t : ℕ) where
  abbrev is_queued : TaskList Cell Fut → Bool
  is_queued s = has t s.global_pending || has t s.local_pending

  local_notify-queued :
      (x : ℕ) (s : TaskList Cell Fut) → is_queued s ≡ true → is_queued (local_notify aw x s) ≡ true
  unfolding local_notify wake
  local_notify-queued x s q = ground (arith, q, has-append t s.local_pending (x ∷ []))

  global_notify-queued :
      (x : ℕ) (s : TaskList Cell Fut) → is_queued s ≡ true → is_queued (global_notify aw x s) ≡ true
  unfolding global_notify wake
  global_notify-queued x s q = ground (arith, q, has-append t s.global_pending (x ∷ []))

  act-queued :
      (a : Action Fut) (s : TaskList Cell Fut) → is_queued s ≡ true → is_queued (act aw a s) ≡ true
  unfolding act add_task
  act-queued (wake_local x) s q = ground (arith, q, local_notify-queued x s)
  act-queued (wake_global x) s q = ground (arith, q, global_notify-queued x s)
  act-queued (clone_waker x) s q = ground (arith, q)
  act-queued (drop_waker x) s q = ground (arith, q)
  act-queued (spawn f) s q = local_notify-queued s.fresh _ q

  act_all-queued :
      (as' : List (Action Fut)) (s : TaskList Cell Fut)
      → is_queued s ≡ true
      → is_queued (act_all aw as' s) ≡ true
  unfolding act_all
  act_all-queued [] s q = q
  act_all-queued (a ∷ as') s q = act_all-queued as' (act aw a s) (act-queued a s q)

  -- The wake-up itself.
  act-wakes :
      (a : Action Fut) (s : TaskList Cell Fut)
      → IsPool s
      → s.poll_list ≡ []
      → (s.tasks t).alive ≡ true
      → wakes_task t (a ∷ []) ≡ true
      → is_queued (act aw a s) ≡ true
  act-wakes (wake_local x) s v idle alive m =
      subst (λ y. is_queued (act aw (wake_local y) s) ≡ true)
        (sym (eq_of_== x t (ground (arith, m)))) (wake_up-Queued aw t s v idle alive true).queued
  act-wakes (wake_global x) s v idle alive m =
      subst (λ y. is_queued (act aw (wake_global y) s) ≡ true)
        (sym (eq_of_== x t (ground (arith, m)))) (wake_up-Queued aw t s v idle alive false).queued
  act-wakes (clone_waker x) s v idle alive m = absurd (cc)
  act-wakes (drop_waker x) s v idle alive m = absurd (cc)
  act-wakes (spawn f) s v idle alive m = absurd (cc)

  wakes_task-cons :
      (a : Action Fut) (as' : List (Action Fut))
      → wakes_task t (a ∷ as') ≡ (wakes_task t (a ∷ []) || wakes_task t as')
  wakes_task-cons (wake_local x) as' = ground arith
  wakes_task-cons (wake_global x) as' = ground arith
  wakes_task-cons (clone_waker x) as' = ground arith
  wakes_task-cons (drop_waker x) as' = ground arith
  wakes_task-cons (spawn f) as' = ground arith

  batch-queued :
      (as' : List (Action Fut)) (s : TaskList Cell Fut)
      → IsPool s
      → s.poll_list ≡ []
      → (s.tasks t).alive ≡ true
      → wakes_task t as' ≡ true
      → is_queued (act_all aw as' s) ≡ true
  unfolding act_all
  batch-queued [] s v idle alive m = absurd (cc)
  batch-queued (a ∷ as') s v idle alive m = elim (Bool-cases (wakes_task t (a ∷ []))) [
    | inl here ↦ act_all-queued as' (act aw a s) (act-wakes a s v idle alive here)
    | inr other ↦
        let k = act_all-Keeps aw (a ∷ []) s in
        batch-queued as' (act aw a s) (act_all-IsPool aw (a ∷ []) s v) (k.same_round ∙ idle)
          (k.still_alive t (ground (arith, v.bounded t, alive)) alive)
          (ground (arith, wakes_task-cons a as', other))
  ]

  pub batch-Queued :
      (as' : List (Action Fut)) (s : TaskList Cell Fut)
      → IsPool s
      → s.poll_list ≡ []
      → (s.tasks t).alive ≡ true
      → wakes_task t as' ≡ true
      → Queued aw t s (act_all aw as' s)
  unfolding act_all
  batch-Queued as' s v idle alive m =
      let k = act_all-Keeps aw as' s in
      record {
        formed = act_all-IsPool aw as' s v;
        idle = k.same_round ∙ idle;
        alive = k.still_alive t (ground (arith, v.bounded t, alive)) alive;
        same_log = k.same_log;
        queued = batch-queued as' s v idle alive m;
      }
