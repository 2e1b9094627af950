-- ===== src/Pool/Task.antt =====
-- fumio-pool/src/pool/task.rs: the list of tasks, its local and global queues, and one round of
-- polls. The intrusive lists stand as the lists of tasks that DlList and Mpsc prove them to be: a
-- link is unlinked if its task is on no list of that kind, and `unlink` erases the task.
use rust_fumio.Prelude.{
  ℕ, suc, ◌+◌, ◌-◌, Bool, true, false, not, ◌&&◌, ◌||◌, List, [], ◌∷◌, Option, none, some,
  if◌then◌else◌, update, ltb, is_some, has, erase, snoc,
}
use rust_fumio.AtomicWaker.{AtomicWaker}

-- A task is an address. Its links are on the lists below.
pub record Task (Fut : Type 0) : Type 0 where
  pub queued : Bool
  pub alive : Bool
  pub future : Option Fut

-- `poll_list` is the list that `poll` keeps on its stack. `fresh` is the address that the next
-- allocation returns, `refs` the counts of the `Arc`s of the tasks, and `wakers` says how many of the
-- references to a task are wakers, which may be anywhere. Two fields record what happens: `woken`, whether the waker that was registered
-- last has been called, and `polled`, the tasks polled so far.
pub record TaskList (Cell Fut : Type 0) : Type 0 where
  pub local_all : List ℕ
  pub local_pending : List ℕ
  pub poll_list : List ℕ
  pub global_pending : List ℕ
  pub tasks : ℕ → Task Fut
  pub fresh : ℕ
  pub waker : Cell
  pub refs : ℕ → ℕ
  pub wakers : ℕ → ℕ
  pub woken : Bool
  pub polled : List ℕ

-- What a future does to the pool while it is polled: it calls, clones and drops wakers, on this thread
-- or on another that runs meanwhile, and it spawns.
pub data Action (Fut : Type 0) : Type 0 where
  wake_local : ℕ → Action Fut
  wake_global : ℕ → Action Fut
  clone_waker : ℕ → Action Fut
  drop_waker : ℕ → Action Fut
  spawn : Fut → Action Fut

-- How the poll of a future ends, with what is left of the future.
pub data Outcome (Fut : Type 0) : Type 0 where
  ready : Outcome Fut
  pending : Fut → Outcome Fut
  panics : Outcome Fut

pub data Result (A : Type 0) : Type 0 where
  ok : A → Result A
  panicked : A → Result A

abbrev pub state_of : {A : Type 0} → Result A → A
state_of (ok s) = s
state_of (panicked s) = s

-- No panic.
abbrev pub ended : {A : Type 0} → Result A → Bool
ended (ok s) = true
ended (panicked s) = false

abbrev pub then_do : {A : Type 0} → Result A → (A → Result A) → Result A
then_do (ok s) f = f s
then_do (panicked s) f = panicked s

module _ {Cell Fut : Type 0} where
  unfoldable pub is_unlinked : ℕ → TaskList Cell Fut → Bool
  is_unlinked t s = not (has t s.local_pending || has t s.poll_list)

  abbrev pub set_queued : ℕ → Bool → TaskList Cell Fut → TaskList Cell Fut
  set_queued t b s = record s { tasks = update s.tasks t (record (s.tasks t) { queued = b }) }

  -- Dropping an `Arc`.
  abbrev pub release : ℕ → TaskList Cell Fut → TaskList Cell Fut
  release t s = record s { refs = update s.refs t (s.refs t - 1) }

  -- The body of the loop in `fetch_global_notifies`, which owns the reference that the queue had.
  unfoldable pub fetch_one : ℕ → TaskList Cell Fut → TaskList Cell Fut
  unfolding is_unlinked
  fetch_one t s =
      let s' = set_queued t false s in
      release t (
        if (s'.tasks t).alive && is_unlinked t s'
        then record s' { local_pending = snoc s'.local_pending t }
        else s')

  unfoldable pub fetch_all : List ℕ → TaskList Cell Fut → TaskList Cell Fut
  fetch_all [] s = s
  fetch_all (t ∷ ts) s = fetch_all ts (fetch_one t s)

  -- The fetch when no push is in progress, which is when it takes the whole queue; Pool/Global has it
  -- with pushes in progress.
  unfoldable pub fetch_global_notifies : TaskList Cell Fut → TaskList Cell Fut
  fetch_global_notifies s = fetch_all s.global_pending (record s { global_pending = [] })

  -- The destructor of the future is no part of this: what it does to the wakers of the pool are actions
  -- that come after, and it does not unwind.
  unfoldable pub local_clear : ℕ → TaskList Cell Fut → TaskList Cell Fut
  local_clear t s = record s {
    tasks = update s.tasks t (record { queued = true; alive = false; future = none });
    local_pending = erase t s.local_pending;
    poll_list = erase t s.poll_list;
    local_all = erase t s.local_all;
    refs = update s.refs t (s.refs t - 1);
  }

  -- `ClearOnPanic`, when the poll of `t` unwinds.
  unfoldable pub clear_on_panic : ℕ → TaskList Cell Fut → TaskList Cell Fut
  clear_on_panic t s = if (s.tasks t).alive then local_clear t s else s

  abbrev pub set_future : ℕ → Fut → TaskList Cell Fut → TaskList Cell Fut
  set_future t f s = record s { tasks = update s.tasks t (record (s.tasks t) { future = some f }) }

  unfoldable pub finish_poll : ℕ → Outcome Fut → TaskList Cell Fut → Result (TaskList Cell Fut)
  finish_poll t ready s = ok (local_clear t s)
  finish_poll t (pending f) s = ok (set_future t f s)
  finish_poll t panics s = panicked (clear_on_panic t s)

module _ {Cell Fut : Type 0} (aw : AtomicWaker Cell) where
  unfoldable pub new : TaskList Cell Fut
  new = record {
    local_all = [];
    local_pending = [];
    poll_list = [];
    global_pending = [];
    tasks = λ _. record { queued = false; alive = false; future = none };
    fresh = 0;
    waker = aw.new;
    refs = λ _. 0;
    wakers = λ _. 0;
    woken = false;
    polled = [];
  }

  -- `self.waker.wake()`
  unfoldable pub wake : TaskList Cell Fut → TaskList Cell Fut
  wake s = record s { waker = (aw.wake s.waker).0; woken = s.woken || (aw.wake s.waker).1 }

  unfoldable pub local_notify : ℕ → TaskList Cell Fut → TaskList Cell Fut
  unfolding is_unlinked
  local_notify t s =
      if (s.tasks t).alive && is_unlinked t s
      then wake (record s { local_pending = snoc s.local_pending t })
      else s

  -- A call that no other one interleaves with: the swap of the mark, the push and the wake-up are one
  -- step here. Pool/Global has them as steps of any number of threads.
  unfoldable pub global_notify : ℕ → TaskList Cell Fut → TaskList Cell Fut
  global_notify t s =
      let s' = set_queued t true s in
      let pushed = wake (record s' {
        global_pending = snoc s'.global_pending t;
        refs = update s'.refs t (s'.refs t + 1);
      }) in
      if not (s.tasks t).queued then pushed else s'

  -- `Task::new` and what `LocalTaskList::add_task` does with it.
  unfoldable pub add_task : Fut → TaskList Cell Fut → TaskList Cell Fut
  add_task future s =
      let t = s.fresh in
      local_notify t (record s {
        fresh = suc s.fresh;
        tasks = update s.tasks t (record { queued = false; alive = true; future = some future });
        local_all = snoc s.local_all t;
        refs = update s.refs t 1;
      })

  -- `wake_by_ref` on either thread, and what `ArcWake` makes of a clone and a drop. Only a task that was
  -- allocated has wakers, and one that has been freed has none to clone.
  unfoldable pub act : Action Fut → TaskList Cell Fut → TaskList Cell Fut
  act (wake_local t) s = if ltb t s.fresh then local_notify t s else s
  act (wake_global t) s = if ltb t s.fresh then global_notify t s else s
  act (clone_waker t) s =
      let cloned = record s {
        refs = update s.refs t (s.refs t + 1);
        wakers = update s.wakers t (s.wakers t + 1);
      } in
      if ltb 0 (s.refs t) then cloned else s
  act (drop_waker t) s =
      let dropped = record (release t s) { wakers = update s.wakers t (s.wakers t - 1) } in
      if ltb 0 (s.wakers t) then dropped else s
  act (spawn future) s = add_task future s

  unfoldable pub act_all : List (Action Fut) → TaskList Cell Fut → TaskList Cell Fut
  act_all [] s = s
  act_all (a ∷ as') s = act_all as' (act a s)

-- The assertions of `Drop for Task`, with those of debug builds: `debug`, and `here`, whether it runs on
-- the pool's thread, which `local_future` asserts.
unfoldable pub drop_task : {Fut : Type 0} → (debug here : Bool) → Task Fut → Bool
drop_task debug here t = not t.alive && (if debug then here && not (is_some t.future) else true)
