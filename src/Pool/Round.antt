-- ===== src/Pool/Round.antt =====
-- fumio-pool/src/pool/task.rs: one round of polls, what its destructor does when a poll unwinds, and
-- the end of the pool.
use rust_fumio.Prelude.{
  ℕ, zero, suc, Bool, false, ◌&&◌, List, [], ◌∷◌, Option, none, some, if◌then◌else◌, snoc, length,
  is_empty,
}
use rust_fumio.AtomicWaker.{AtomicWaker}
use rust_fumio.Pool.Task.{
  TaskList, Action, Outcome, Result, ok, panicked, then_do, is_unlinked, act_all, finish_poll,
  local_clear, fetch_global_notifies,
}

module _ {Cell Fut : Type 0} where
  -- `LocalTaskList::drop`, without what the destructors of the futures do to the wakers that these own.
  unfoldable pub drop_next :
      (TaskList Cell Fut → TaskList Cell Fut) → List ℕ → TaskList Cell Fut → TaskList Cell Fut
  drop_next rest [] s = s
  drop_next rest (t ∷ ts) s = rest (local_clear t (record s { local_all = ts }))

  unfoldable pub drop_all : ℕ → TaskList Cell Fut → TaskList Cell Fut
  unfolding drop_next
  drop_all zero s = s
  drop_all (suc fuel) s = drop_next (drop_all fuel) s.local_all s

  unfoldable pub drop_list : TaskList Cell Fut → TaskList Cell Fut
  drop_list s = drop_all (length s.local_all) s

  -- The assertions of `Drop for TaskList`.
  unfoldable pub drop_assertions : TaskList Cell Fut → Bool
  drop_assertions s = is_empty s.local_all && is_empty s.local_pending

  -- `PollList::drop`: what is left is put back in front, from the back.
  unfoldable pub readd : ℕ → TaskList Cell Fut → TaskList Cell Fut
  unfolding is_unlinked
  readd t s =
      if (s.tasks t).alive && is_unlinked t s
      then record s { local_pending = t ∷ s.local_pending }
      else s

  unfoldable pub readd_all : List ℕ → TaskList Cell Fut → TaskList Cell Fut
  readd_all [] s = s
  readd_all (t ∷ ts) s = readd t (readd_all ts s)

  -- The destructor of `PollList`, when the round unwinds.
  unfoldable pub restore : Result (TaskList Cell Fut) → Result (TaskList Cell Fut)
  restore (ok s) = ok s
  restore (panicked s) = panicked (readd_all s.poll_list (record s { poll_list = [] }))

  -- Whether `TaskList::poll` answers `Poll::Ready`.
  unfoldable pub is_ready : TaskList Cell Fut → Bool
  is_ready s = is_empty s.local_all

module _ {Cell Fut : Type 0} (aw : AtomicWaker Cell)
    (poll_future : Fut → List (Action Fut) × Outcome Fut) where
  unfoldable pub poll_some : ℕ → Option Fut → TaskList Cell Fut → Result (TaskList Cell Fut)
  poll_some t none s = panicked s
  poll_some t (some f) s =
      finish_poll t (poll_future f).1
        (act_all aw (poll_future f).0 (record s { polled = snoc s.polled t }))

  unfoldable pub local_poll : ℕ → TaskList Cell Fut → Result (TaskList Cell Fut)
  unfolding poll_some
  local_poll t s = poll_some t (s.tasks t).future s

  unfoldable pub poll_next :
      (TaskList Cell Fut → Result (TaskList Cell Fut))
      → List ℕ
      → TaskList Cell Fut
      → Result (TaskList Cell Fut)
  poll_next rest [] s = ok s
  poll_next rest (t ∷ ts) s = then_do (local_poll t (record s { poll_list = ts })) rest

  -- `while let Some(task) = poll_list.pending.pop_front()`
  unfoldable pub poll_loop : ℕ → TaskList Cell Fut → Result (TaskList Cell Fut)
  unfolding poll_next
  poll_loop zero s = ok s
  poll_loop (suc fuel) s = poll_next (poll_loop fuel) s.poll_list s

  -- `TaskList::poll`
  unfoldable pub poll_tasks : TaskList Cell Fut → Result (TaskList Cell Fut)
  unfolding restore
  poll_tasks s = restore (
      poll_loop (length s.local_pending)
        (record s { poll_list = s.local_pending; local_pending = [] }))

  -- `LocalTaskList::poll`
  unfoldable pub poll : TaskList Cell Fut → Result (TaskList Cell Fut)
  poll s =
      poll_tasks (fetch_global_notifies (record s { waker = aw.register s.waker; woken = false }))
