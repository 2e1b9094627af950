-- ===== src/Pool/Work.antt =====
-- The work that the tasks of a pool have left, by a rank of their futures, and what the operations of
-- fumio-pool/src/pool/task.rs do to it.
use rust_fumio.Prelude.{
  ℕ, ◌+◌, ◌≡◌, refl, ◌∙◌, true, false, List, [], ◌∷◌, ◌++◌, Option, none, some, arith, ◌∈◌, ◌∉◌,
  IsDistinct, erase, has-erase, update,
}
use rust_fumio.AtomicWaker.{AtomicWaker}
use rust_fumio.Pool.Task.{
  Task, TaskList, Action, wake_local, wake_global, clone_waker, drop_waker, spawn, wake,
  local_notify, global_notify, add_task, act, act_all, fetch_one, fetch_all, fetch_global_notifies,
  local_clear, set_future,
}
use rust_fumio.Pool.Invariant.{IsPool}
use rust_fumio.Pool.Notify.{act_all-IsPool}

module _ {Fut : Type 0} (rank : Fut → ℕ) where
  abbrev pub work_of : Option Fut → ℕ
  work_of none = 0
  work_of (some f) = rank f

  abbrev pub total : (ℕ → Task Fut) → List ℕ → ℕ
  total tasks [] = 0
  total tasks (t ∷ ts) = work_of (tasks t).future + total tasks ts

  -- The work that actions add: that of the futures that they spawn.
  abbrev pub spawned : List (Action Fut) → ℕ
  spawned [] = 0
  spawned (spawn f ∷ as') = rank f + spawned as'
  spawned (_ ∷ as') = spawned as'

  total-append :
      (tasks : ℕ → Task Fut) (xs ys : List ℕ)
      → total tasks (xs ++ ys) ≡ total tasks xs + total tasks ys
  total-append tasks [] ys = omega arith
  total-append tasks (x ∷ xs) ys = omega (arith, total-append tasks xs ys)

  total-update_out :
      (tasks : ℕ → Task Fut) (t : ℕ) (x : Task Fut) (ts : List ℕ)
      → t ∉ ts
      → total (update tasks t x) ts ≡ total tasks ts
  total-update_out tasks t x [] o = refl
  total-update_out tasks t x (c ∷ ts) o = ground (arith, total-update_out tasks t x ts)

  total-update :
      (tasks : ℕ → Task Fut) (t : ℕ) (x : Task Fut) (ts : List ℕ)
      → IsDistinct ts
      → t ∈ ts
      → total (update tasks t x) ts + work_of (tasks t).future ≡ total tasks ts + work_of x.future
  total-update tasks t x [] d i = absurd (cc)
  total-update tasks t x (c ∷ ts) d i =
      ground (arith, d.0, total-update tasks t x ts d.1, total-update_out tasks t x ts)

  -- A change of a task that leaves its future alone.
  total-same :
      (tasks : ℕ → Task Fut) (t : ℕ) (x : Task Fut) (ts : List ℕ)
      → x.future ≡ (tasks t).future
      → total (update tasks t x) ts ≡ total tasks ts
  total-same tasks t x [] e = refl
  total-same tasks t x (c ∷ ts) e = ground (arith, total-same tasks t x ts e)

  total-erase :
      (tasks : ℕ → Task Fut) (t : ℕ) (ts : List ℕ)
      → t ∈ ts
      → total tasks (erase t ts) + work_of (tasks t).future ≡ total tasks ts
  total-erase tasks t [] i = absurd (cc)
  total-erase tasks t (c ∷ ts) i = ground (arith, total-erase tasks t ts)

  module _ {Cell : Type 0} where
    abbrev pub work : TaskList Cell Fut → ℕ
    work s = total s.tasks s.local_all

    -- `local_clear` takes the work of the task away.
    pub work-local_clear :
        (t : ℕ) (s : TaskList Cell Fut)
        → IsPool s
        → t ∈ s.local_all
        → work (local_clear t s) + work_of (s.tasks t).future ≡ work s
    unfolding local_clear
    work-local_clear t s v i = omega (
      arith,
      total-update_out s.tasks t (record { queued = true; alive = false; future = none })
          (erase t s.local_all) (ground (arith, has-erase t t s.local_all v.all_distinct)),
      total-erase s.tasks t s.local_all i,
    )

    pub work-set_future :
        (t : ℕ) (f : Fut) (s : TaskList Cell Fut)
        → IsPool s
        → t ∈ s.local_all
        → work (set_future t f s) + work_of (s.tasks t).future ≡ work s + rank f
    work-set_future t f s v i =
        total-update s.tasks t (record (s.tasks t) { future = some f }) s.local_all v.all_distinct i

    work-fetch_one : (t : ℕ) (s : TaskList Cell Fut) → work (fetch_one t s) ≡ work s
    unfolding fetch_one
    work-fetch_one t s =
        ground
          (arith, total-same s.tasks t (record (s.tasks t) { queued = false }) s.local_all refl)

    work-fetch_all : (ts : List ℕ) (s : TaskList Cell Fut) → work (fetch_all ts s) ≡ work s
    unfolding fetch_all
    work-fetch_all [] s = refl
    work-fetch_all (t ∷ ts) s = work-fetch_all ts (fetch_one t s) ∙ work-fetch_one t s

    -- Fetching the global queue changes no work.
    pub work-fetch : (s : TaskList Cell Fut) → work (fetch_global_notifies s) ≡ work s
    unfolding fetch_global_notifies
    work-fetch s = work-fetch_all s.global_pending (record s { global_pending = [] })

    module _ (aw : AtomicWaker Cell) where
      work-local_notify : (t : ℕ) (s : TaskList Cell Fut) → work (local_notify aw t s) ≡ work s
      unfolding local_notify wake
      work-local_notify t s = ground arith

      work-global_notify : (t : ℕ) (s : TaskList Cell Fut) → work (global_notify aw t s) ≡ work s
      unfolding global_notify wake
      work-global_notify t s =
          ground
            (arith, total-same s.tasks t (record (s.tasks t) { queued = true }) s.local_all refl)

      work-add_task :
          (f : Fut) (s : TaskList Cell Fut) → IsPool s → work (add_task aw f s) ≡ work s + rank f
      unfolding add_task
      work-add_task f s v =
          let x : Task Fut = record { queued = false; alive = true; future = some f } in
          work-local_notify s.fresh _
          ∙ ground (
            arith,
            total-append (update s.tasks s.fresh x) s.local_all (s.fresh ∷ []),
            total-update_out s.tasks s.fresh x s.local_all
                (ground (arith, v.bounded s.fresh, v.listed s.fresh)),
          )

      work-act :
          (a : Action Fut) (s : TaskList Cell Fut)
          → IsPool s
          → work (act aw a s) ≡ work s + spawned (a ∷ [])
      unfolding act
      work-act (wake_local t) s v = ground (arith, work-local_notify t s)
      work-act (wake_global t) s v = ground (arith, work-global_notify t s)
      work-act (clone_waker t) s v = ground arith
      work-act (drop_waker t) s v = ground arith
      work-act (spawn f) s v = omega (arith, work-add_task f s v)

      spawned-cons :
          (a : Action Fut) (as' : List (Action Fut))
          → spawned (a ∷ as') ≡ spawned (a ∷ []) + spawned as'
      spawned-cons (wake_local t) as' = omega arith
      spawned-cons (wake_global t) as' = omega arith
      spawned-cons (clone_waker t) as' = omega arith
      spawned-cons (drop_waker t) as' = omega arith
      spawned-cons (spawn f) as' = omega arith

      -- What a future does while it is polled adds the work that it spawns.
      pub work-act_all :
          (as' : List (Action Fut)) (s : TaskList Cell Fut)
          → IsPool s
          → work (act_all aw as' s) ≡ work s + spawned as'
      unfolding act_all
      work-act_all [] s v = omega arith
      work-act_all (a ∷ as') s v =
          let v' : IsPool (act aw a s) = act_all-IsPool aw (a ∷ []) s v in
          omega (arith, work-act a s v, work-act_all as' (act aw a s) v', spawned-cons a as')
