-- ===== src/Pool/Notify.antt =====
-- The notifications, the fetch of the global queue, and new tasks keep the pool well formed.
use rust_fumio.Prelude.{
  ℕ, ◌+◌, ◌-◌, ◌<◌, ◌≡◌, refl, inl, inr, true, false, ◌&&◌, List, [], ◌∷◌, snoc, arith, ◌∉◌,
  has-append, IsDistinct-snoc, ltb, Bool-cases, subst, sym,
}
use rust_fumio.AtomicWaker.{AtomicWaker}
use rust_fumio.Pool.Task.{
  TaskList, Action, wake_local, wake_global, clone_waker, drop_waker, spawn, release, is_unlinked,
  local_notify, set_queued, global_notify, fetch_one, fetch_all, fetch_global_notifies, add_task,
  act, act_all,
}
use rust_fumio.Pool.Invariant.{
  IsPool, append-IsPool, flag-IsPool, wake-IsPool, wakers-IsPool, requeue-IsPool, fresh-IsPool,
  with_fresh,
}

module _ {Cell Fut : Type 0} (aw : AtomicWaker Cell) where
  pub local_notify-IsPool :
      (s : TaskList Cell Fut) (t : ℕ) → IsPool s → IsPool (local_notify aw t s)
  unfolding local_notify
  local_notify-IsPool s t v = elim (Bool-cases ((s.tasks t).alive && is_unlinked t s)) [
    | inl e ↦
        rw e (wake-IsPool aw _ (append-IsPool s v t (ground arith) (ground arith) (ground arith)))
    | inr e ↦ rw e v
  ]

  pub global_notify-IsPool :
      (s : TaskList Cell Fut) (t : ℕ) → IsPool s → t < s.fresh → IsPool (global_notify aw t s)
  unfolding global_notify
  global_notify-IsPool s t v b = elim (Bool-cases (s.tasks t).queued) [
    | inl e ↦ rw e (requeue-IsPool s v t e)
    | inr e ↦
        let new : t ∉ s.global_pending = ground (arith, v.global_queued t) in
        rw e (
          wake-IsPool aw _ (
            flag-IsPool s v t true (snoc s.global_pending t) (s.refs t + 1)
              (IsDistinct-snoc s.global_pending t v.global_distinct new)
              (λ c ne. ground (arith, has-append c s.global_pending (t ∷ []))) (λ i. refl)
              (λ a q. ground (arith, has-append t s.global_pending (t ∷ []))) b
              (ground (arith, v.counted t, new, has-append t s.global_pending (t ∷ [])))))
  ]

  pub add_task-IsPool : (s : TaskList Cell Fut) (f : Fut) → IsPool s → IsPool (add_task aw f s)
  unfolding add_task
  add_task-IsPool s f v = local_notify-IsPool (with_fresh f s) s.fresh (fresh-IsPool s v f)

  -- Only an allocated task has references.
  live-below : (s : TaskList Cell Fut) (t : ℕ) → IsPool s → ltb 0 (s.refs t) ≡ true → t < s.fresh
  live-below s t v e =
      ground (arith, v.bounded t, v.unborn t, v.counted t, v.listed t, v.global_queued t)

  -- Whatever a future does while it is polled, the pool stays well formed.
  pub act_all-IsPool :
      (as' : List (Action Fut)) (s : TaskList Cell Fut) → IsPool s → IsPool (act_all aw as' s)
  unfolding act_all act
  act_all-IsPool [] s v = v
  act_all-IsPool (wake_local t ∷ as') s v =
      act_all-IsPool as' _ (elim (Bool-cases (ltb t s.fresh)) [
        | inl e ↦ rw e (local_notify-IsPool s t v)
        | inr e ↦ rw e v
      ])
  act_all-IsPool (wake_global t ∷ as') s v =
      act_all-IsPool as' _ (elim (Bool-cases (ltb t s.fresh)) [
        | inl e ↦ rw e (global_notify-IsPool s t v (ground arith))
        | inr e ↦ rw e v
      ])
  act_all-IsPool (clone_waker t ∷ as') s v =
      act_all-IsPool as' _ (elim (Bool-cases (ltb 0 (s.refs t))) [
        | inl e ↦
            rw e (
              wakers-IsPool s v t (s.refs t + 1) (s.wakers t + 1) (live-below s t v e)
                (omega arith))
        | inr e ↦ rw e v
      ])
  act_all-IsPool (drop_waker t ∷ as') s v =
      act_all-IsPool as' _ (elim (Bool-cases (ltb 0 (s.wakers t))) [
        | inl e ↦ rw e (
            wakers-IsPool s v t (s.refs t - 1) (s.wakers t - 1) (ground (arith, v.unborn t))
              (ground (arith, v.counted t)))
        | inr e ↦ rw e v
      ])
  act_all-IsPool (spawn f ∷ as') s v = act_all-IsPool as' _ (add_task-IsPool s f v)

module _ {Cell Fut : Type 0} where
  fetch_one-IsPool :
      (s : TaskList Cell Fut) (t : ℕ) (ts : List ℕ)
      → IsPool (record s { global_pending = t ∷ ts })
      → IsPool (record (fetch_one t s) { global_pending = ts })
  unfolding fetch_one
  fetch_one-IsPool s t ts v =
      let s' = set_queued t false s in
      let w : IsPool (record (release t s') { global_pending = ts }) =
        flag-IsPool (record s { global_pending = t ∷ ts }) v t false ts (s.refs t - 1)
          v.global_distinct.1 (λ c ne. ground arith) (λ i. ground (arith, v.global_distinct.0))
          (λ a q. cc) (ground (arith, v.bounded t, v.global_queued t))
          (ground (arith, v.counted t, v.global_distinct.0)) in
      elim (Bool-cases ((s'.tasks t).alive && is_unlinked t s')) [
        | inl e ↦ rw e (
            append-IsPool (record (release t s') { global_pending = ts }) w t (ground arith)
              (ground arith) (ground arith))
        | inr e ↦ rw e w
      ]

  fetch_all-IsPool :
      (s : TaskList Cell Fut) (ts : List ℕ)
      → IsPool (record s { global_pending = ts })
      → IsPool (record (fetch_all ts s) { global_pending = [] })
  unfolding fetch_all
  fetch_all-IsPool s [] v = v
  fetch_all-IsPool s (t ∷ ts) v = fetch_all-IsPool (fetch_one t s) ts (fetch_one-IsPool s t ts v)

  fetch_all-global :
      (ts : List ℕ) (s : TaskList Cell Fut) → (fetch_all ts s).global_pending ≡ s.global_pending
  unfolding fetch_all fetch_one
  fetch_all-global [] s = refl
  fetch_all-global (t ∷ ts) s = ground (arith, fetch_all-global ts (fetch_one t s))

  fetch_all-keeps :
      (ts : List ℕ) (s : TaskList Cell Fut)
      → ((fetch_all ts s).poll_list ≡ s.poll_list)
        × ((fetch_all ts s).polled ≡ s.polled)
        × ((fetch_all ts s).waker ≡ s.waker)
  unfolding fetch_all fetch_one
  fetch_all-keeps [] s = (refl, refl, refl)
  fetch_all-keeps (t ∷ ts) s = ground (arith, fetch_all-keeps ts (fetch_one t s))

  -- The fetch empties the global queue, keeps the round's list, the log and the waker, and keeps the
  -- pool well formed.
  pub fetch-IsPool :
      (s : TaskList Cell Fut)
      → IsPool s
      → IsPool (fetch_global_notifies s)
        × ((fetch_global_notifies s).global_pending ≡ [])
        × ((fetch_global_notifies s).poll_list ≡ s.poll_list)
        × ((fetch_global_notifies s).polled ≡ s.polled)
        × ((fetch_global_notifies s).waker ≡ s.waker)
  unfolding fetch_global_notifies
  fetch-IsPool s v =
      let s0 = record s { global_pending = [] } in
      let r = fetch_all s.global_pending s0 in
      let e : r.global_pending ≡ [] = fetch_all-global s.global_pending s0 in
      let (a, b, c) = fetch_all-keeps s.global_pending s0 in
      let w = fetch_all-IsPool s0 s.global_pending v in
      (subst (λ g. IsPool (record r { global_pending = g })) (sym e) w, e, a, b, c)
