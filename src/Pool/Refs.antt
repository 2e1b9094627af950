-- ===== src/Pool/Refs.antt =====
-- The references of the tasks in every state that a pool of fumio-pool/src/pool/task.rs can reach.
use rust_fumio.Prelude.{
  ℕ, ◌≡◌, refl, ◌∙◌, true, false, Bool, List, [], ◌∷◌, arith, ◌+◌, has, one_if, is_some, sym, subst,
}
use rust_fumio.AtomicWaker.{AtomicWaker}
use rust_fumio.Pool.Task.{
  TaskList, Action, wake_local, wake_global, clone_waker, drop_waker, spawn, Outcome, state_of, new,
  act, act_all, drop_task, local_clear, local_notify, global_notify, add_task, wake,
}
use rust_fumio.Pool.Invariant.{IsPool, aside-IsPool, new-IsPool, clear-IsPool}
use rust_fumio.Pool.Notify.{act_all-IsPool, fetch-IsPool}
use rust_fumio.Pool.Drop.{dropped_next}
use rust_fumio.Pool.Round.{drop_next, poll}
use rust_fumio.Pool.Rounds.{poll_tasks-Round}

module _ {Cell Fut : Type 0} (aw : AtomicWaker Cell)
    (poll_future : Fut → List (Action Fut) × Outcome Fut) where
  -- The states of a pool: it is made, wakers are called, cloned and dropped and futures spawned, it is
  -- polled, to the end or until a future unwinds, and its drop takes the tasks off one by one. What the
  -- destructor of a future does to the wakers of the pool are actions after the task was cleared.
  pub data Lived : TaskList Cell Fut → Type 0 where
    made : Lived (new aw)
    acted : {s : TaskList Cell Fut} → Lived s → (a : Action Fut) → Lived (act aw a s)
    polled : {s : TaskList Cell Fut} → Lived s → Lived (state_of (poll aw poll_future s))
    dropped : {s : TaskList Cell Fut} → Lived s → Lived (drop_next (λ s'. s') s.local_all s)

  abbrev Idle : TaskList Cell Fut → Type 0
  Idle s = IsPool s × (s.poll_list ≡ [])

  act-Idle : (a : Action Fut) (s : TaskList Cell Fut) → Idle s → Idle (act aw a s)
  unfolding act_all act local_notify global_notify add_task wake
  act-Idle (wake_local t) s (v, e) = (act_all-IsPool aw (wake_local t ∷ []) s v, ground (arith, e))
  act-Idle (wake_global t) s (v, e) =
      (act_all-IsPool aw (wake_global t ∷ []) s v, ground (arith, e))
  act-Idle (clone_waker t) s (v, e) =
      (act_all-IsPool aw (clone_waker t ∷ []) s v, ground (arith, e))
  act-Idle (drop_waker t) s (v, e) = (act_all-IsPool aw (drop_waker t ∷ []) s v, ground (arith, e))
  act-Idle (spawn f) s (v, e) = (act_all-IsPool aw (spawn f ∷ []) s v, ground (arith, e))

  poll-Idle : (s : TaskList Cell Fut) → Idle s → Idle (state_of (poll aw poll_future s))
  unfolding poll
  poll-Idle s (v, e) =
      let s1 = record s { waker = aw.register s.waker; woken = false } in
      let (w, g, r, l, k) =
        fetch-IsPool s1 (aside-IsPool s v (aw.register s.waker) false s.polled) in
      let round = poll_tasks-Round aw poll_future _ w (r ∙ e) in (round.formed, round.idle)

  dropped-Idle :
      (l : List ℕ) (s : TaskList Cell Fut)
      → s.local_all ≡ l
      → Idle s
      → Idle (drop_next (λ s'. s') l s)
  unfolding drop_next local_clear
  dropped-Idle [] s e i = i
  dropped-Idle (t ∷ ts) s e (v, idle) =
      subst Idle (sym (dropped_next s t ts v e))
        (clear-IsPool s v t (rw (← v.listed t, e) (ground arith)), rw idle refl)

  Lived-Idle : {s : TaskList Cell Fut} → Lived s → Idle s
  unfolding new
  Lived-Idle made = (new-IsPool aw Fut, refl)
  Lived-Idle (acted {s} r a) = act-Idle a s (Lived-Idle r)
  Lived-Idle (polled {s} r) = poll-Idle s (Lived-Idle r)
  Lived-Idle (dropped {s} r) = dropped-Idle s.local_all s refl (Lived-Idle r)

  -- In every state that a pool reaches from `new`, by any actions on its tasks between any polls, which
  -- may unwind, and by the steps of its drop: a task has one reference if it is alive, one if it is in
  -- the global queue, and one for each of its wakers. So a task that no reference is left of is not
  -- alive and has dropped its future, and it passes the assertion of its `Drop` on any thread; the one
  -- of debug builds it passes on the pool's thread and fails on any other.
  pub Lived-counted :
      (s : TaskList Cell Fut) (t : ℕ)
      → Lived s
      → (s.refs t ≡ one_if (s.tasks t).alive + one_if (has t s.global_pending) + s.wakers t)
        × (s.refs t ≡ 0
            → ((s.tasks t).alive ≡ false)
              × (is_some (s.tasks t).future ≡ false)
              × ((here : Bool) → drop_task false here (s.tasks t) ≡ true)
              × ((here : Bool) → drop_task true here (s.tasks t) ≡ here))
  unfolding drop_task
  Lived-counted s t r =
      let (v, idle) = Lived-Idle r in
      (
        rw (← v.listed t) (v.counted t),
        λ e.
            let dead : (s.tasks t).alive ≡ false = ground (arith, v.counted t, v.listed t) in
            let gone : is_some (s.tasks t).future ≡ false = v.has_future t ∙ dead in
            (dead, gone, (λ here. rw dead refl), λ here. rw (dead, gone) (ground arith)),
      )
