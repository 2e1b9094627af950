-- ===== src/Pool/Spending.antt =====
-- What one poll of fumio-pool/src/pool/task.rs does to the work of futures that come to an end.
use rust_fumio.Prelude.{
  ℕ, zero, suc, ◌+◌, ◌≤◌, ◌<◌, ◌≡◌, refl, ap, ◌⊎◌, ◌∙◌, true, false, ◌||◌, inl, inr, List, [], ◌∷◌,
  some, arith, has, ◌∈◌, IsDistinct, length, snoc, Option-cases,
}
use rust_fumio.AtomicWaker.{AtomicWaker}
use rust_fumio.Pool.Task.{
  TaskList, Action, wake_local, wake_global, clone_waker, drop_waker, spawn, Outcome, ready,
  pending, panics, Result, ok, act, act_all, local_clear, local_notify, global_notify, add_task,
  wake, set_future, finish_poll, fetch_one, fetch_all, fetch_global_notifies,
}
use rust_fumio.Pool.Round.{poll_some, local_poll, poll_next, poll_loop, restore, poll_tasks, poll}
use rust_fumio.Pool.Invariant.{IsPool, aside-IsPool, relist-IsPool}
use rust_fumio.Pool.Notify.{act_all-IsPool, fetch-IsPool}
use rust_fumio.Pool.Rounds.{popped-IsPool, poll_tasks-Round}
use rust_fumio.Pool.Polls.{local_poll-Polled}
use rust_fumio.Pool.Progress.{fetch-collects}
use rust_fumio.Pool.Work.{
  spawned, work, work-local_clear, work-set_future, work-fetch, work-act_all,
}

length_of_mem : (t : ℕ) (xs : List ℕ) → t ∈ xs → 0 < length xs
length_of_mem t [] i = absurd (cc)
length_of_mem t (x ∷ xs) i = omega arith

-- A poll of `f` takes work away: what it spawns and what it leaves of itself is less than `f`.
abbrev pub Spends : {Fut : Type 0} → (Fut → ℕ) → Fut → List (Action Fut) → Outcome Fut → Type 0
Spends rank f as' ready = spawned rank as' < rank f
Spends rank f as' (pending f') = spawned rank as' + rank f' < rank f
Spends rank f as' panics = ⊥

List-cases : (xs : List ℕ) → (xs ≡ []) ⊎ ((y : ℕ) × (ys : List ℕ) × (xs ≡ y ∷ ys))
List-cases [] = inl refl
List-cases (y ∷ ys) = inr (y, ys, refl)

fetch_all-woken :
    {Cell Fut : Type 0} (ts : List ℕ) (s : TaskList Cell Fut) → (fetch_all ts s).woken ≡ s.woken
unfolding fetch_all fetch_one
fetch_all-woken [] s = refl
fetch_all-woken (t ∷ ts) s = ground (arith, fetch_all-woken ts (fetch_one t s))

-- A live task is queued, locally or globally.
pub record Roused {Cell Fut : Type 0} (s : TaskList Cell Fut) : Type 0 where
  pub task : ℕ
  pub alive : (s.tasks task).alive ≡ true
  pub queued : (has task s.global_pending || has task s.local_pending) ≡ true

module _ {Cell Fut : Type 0} (aw : AtomicWaker Cell) where
  -- Neither the actions of a future, nor those of others meanwhile, change the future of a task.
  act-future :
      (t : ℕ) (a : Action Fut) (s : TaskList Cell Fut)
      → t < s.fresh
      → (((act aw a s).tasks t).future ≡ (s.tasks t).future) × (t < (act aw a s).fresh)
  unfolding act local_notify global_notify add_task wake
  act-future t (wake_local c) s b = ground arith
  act-future t (wake_global c) s b = ground arith
  act-future t (clone_waker c) s b = ground arith
  act-future t (drop_waker c) s b = ground arith
  act-future t (spawn f) s b = ground arith

  act_all-future :
      (t : ℕ) (as' : List (Action Fut)) (s : TaskList Cell Fut)
      → t < s.fresh
      → ((act_all aw as' s).tasks t).future ≡ (s.tasks t).future
  unfolding act_all
  act_all-future t [] s b = refl
  act_all-future t (a ∷ as') s b =
      let (e, b') = act-future t a s b in act_all-future t as' (act aw a s) b' ∙ e

  module _ (poll_future : Fut → List (Action Fut) × Outcome Fut) (rank : Fut → ℕ)
      (spends : (f : Fut) → Spends rank f (poll_future f).0 (poll_future f).1) where
    finish-lowers :
        (t : ℕ) (f : Fut) (as' : List (Action Fut)) (o : Outcome Fut) (n : ℕ)
        (s : TaskList Cell Fut)
        → Spends rank f as' o
        → IsPool s
        → t ∈ s.local_all
        → (s.tasks t).future ≡ some f
        → work rank s ≡ n + spawned rank as'
        → (s' : TaskList Cell Fut) × (finish_poll t o s ≡ ok s') × (work rank s' < n)
    unfolding finish_poll
    finish-lowers t f as' ready n s h v i e w =
        let left = work-local_clear rank t s v i in (local_clear t s, refl, ground (arith, left, e))
    finish-lowers t f as' (pending f') n s h v i e w =
        let left = work-set_future rank t f' s v i in
        (set_future t f' s, refl, ground (arith, left, e))
    finish-lowers t f as' panics n s h v i e w = absurd h

    -- Polling a live task does not panic, and takes work away.
    local_poll-lowers :
        (t : ℕ) (s : TaskList Cell Fut)
        → IsPool s
        → (s.tasks t).alive ≡ true
        → (s' : TaskList Cell Fut) × (local_poll aw poll_future t s ≡ ok s')
          × (work rank s' < work rank s)
    unfolding local_poll
    local_poll-lowers t s v a = elim (Option-cases (s.tasks t).future) [
      | inl e ↦ absurd (ground (arith, v.has_future t))
      | inr (f, e) ↦
          let s0 = record s { polled = snoc s.polled t } in
          let v0 = aside-IsPool s v s.waker s.woken (snoc s.polled t) in
          let as' = (poll_future f).0 in
          let s1 = act_all aw as' s0 in
          let v1 : IsPool s1 = act_all-IsPool aw as' s0 v0 in
          let same : (s1.tasks t).future ≡ some f =
            act_all-future t as' s0 (ground (arith, v.bounded t)) ∙ e in
          rw (e, poll_some)
            (finish-lowers t f as' (poll_future f).1 (work rank s) s1 (spends f) v1
              (ground (arith, v1.listed t, v1.has_future t, same)) same
              (work-act_all rank aw as' s0 v0))
    ]

    next-lowers :
        (loop : TaskList Cell Fut → Result (TaskList Cell Fut)) (s : TaskList Cell Fut) (l : List ℕ)
        → s.poll_list ≡ l
        → IsPool s
        → ((s' : TaskList Cell Fut)
            → IsPool s'
            → length s'.poll_list < length l
            → (after : TaskList Cell Fut) × (loop s' ≡ ok after)
              × (work rank after + length s'.poll_list ≤ work rank s'))
        → (after : TaskList Cell Fut) × (poll_next aw poll_future loop l s ≡ ok after)
          × (work rank after + length l ≤ work rank s)
    unfolding poll_next
    next-lowers loop s [] e v rest = (s, refl, omega arith)
    next-lowers loop s (t ∷ ts) e v rest =
        let s0 = record s { poll_list = ts } in
        let v0 = popped-IsPool s t ts v e in
        let d : IsDistinct (t ∷ ts) = rw e at v.round_distinct in
        let a : (s.tasks t).alive ≡ true = v.round_alive t (rw e (ground arith)) in
        let (s1, same, less) = local_poll-lowers t s0 v0 a in
        let p = local_poll-Polled aw poll_future s0 t v0 a d.0 in
        let v1 : IsPool s1 = rw same at p.formed in
        let round : s1.poll_list ≡ ts = rw same at p.same_round in
        let (after, same', less') = rest s1 v1 (rw round (omega arith)) in
        (after, rw same same', ground (arith, less, less', round))

    poll_loop-lowers :
        (fuel : ℕ) (s : TaskList Cell Fut)
        → IsPool s
        → length s.poll_list ≤ fuel
        → (after : TaskList Cell Fut) × (poll_loop aw poll_future fuel s ≡ ok after)
          × (work rank after + length s.poll_list ≤ work rank s)
    unfolding poll_loop
    poll_loop-lowers zero s v f = (s, refl, omega arith)
    poll_loop-lowers (suc fuel) s v f =
        next-lowers (poll_loop aw poll_future fuel) s s.poll_list refl v
          (λ s' v' l. poll_loop-lowers fuel s' v' (omega arith))

    -- A round over no task.
    idle_loop :
        (s : TaskList Cell Fut)
        → s.poll_list ≡ []
        → poll_loop aw poll_future (length s.poll_list) s ≡ ok s
    unfolding poll_loop
    idle_loop s e = rw e refl

    -- One call of `LocalTaskList::poll`: each task that it polls takes work away.
    pub record Spent (s : TaskList Cell Fut) : Type 0 where
      pub after : TaskList Cell Fut
      pub polled : poll aw poll_future s ≡ ok after
      pub formed : IsPool after
      pub idle : after.poll_list ≡ []
      pub no_more : work rank after ≤ work rank s
      pub less : Roused s → work rank after < work rank s
      pub progress : (work rank after < work rank s) ⊎ (after.woken ≡ false)

    pub poll-Spent : (s : TaskList Cell Fut) → IsPool s → s.poll_list ≡ [] → Spent s
    unfolding poll poll_tasks restore fetch_global_notifies
    poll-Spent s v idle =
        let s0 = record s { waker = aw.register s.waker; woken = false } in
        let s1 = fetch_global_notifies s0 in
        let (v1, _, r, _, _) =
          fetch-IsPool s0 (aside-IsPool s v (aw.register s.waker) false s.polled) in
        let s2 = record s1 { poll_list = s1.local_pending; local_pending = [] } in
        let v2 : IsPool s2 =
          relist-IsPool s1 v1 [] s1.local_pending s1.waker s1.woken s1.polled tt v1.pending_distinct
            (λ c i. refl) (λ c i. cc) v1.pending_alive in
        let (after, same, less) = poll_loop-lowers (length s1.local_pending) s2 v2 (omega arith) in
        let round = poll_tasks-Round aw poll_future s1 v1 (r ∙ idle) in
        let same' : poll_tasks aw poll_future s1 ≡ ok after = rw same refl in
        let w = work-fetch rank s0 in
        record {
          after = after;
          polled = rw same refl;
          formed = rw same' at round.formed;
          idle = rw same' at round.idle;
          no_more = omega (arith, less, w);
          less = λ q.
              let i = fetch-collects q.task s0 idle q.alive q.queued in
              omega (arith, less, w, length_of_mem q.task s1.local_pending i);
          progress = elim (List-cases s1.local_pending) [
            | inl e ↦ inr (
                ground (
                  arith,
                  same,
                  ap length e,
                  idle_loop s2 e,
                  fetch_all-woken s0.global_pending (record s0 { global_pending = [] }),
                ))
            | inr (t, ts, e) ↦ inl (omega (arith, less, w, ap length e))
          ];
        }
