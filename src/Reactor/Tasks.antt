-- ===== src/Reactor/Tasks.antt =====
-- fumio-reactor/src/reactor/task.rs: `Tasks`, which keeps the registered tasks alive, and the state
-- word and reference count of each task.
pub mod Laws
pub mod Cleanup
pub mod Drop
pub mod Cells
use rust_fumio.Prelude.{
  ℕ, zero, suc, ◌+◌, ◌-◌, Bool, true, false, not, List, [], ◌∷◌, Option, none, some, if◌then◌else◌,
  ◌==◌, update, has, erase, snoc,
}
use rust_fumio.Prelude.Flags.{or_mask, and_not, any_bit}

abbrev pub state_deregistered : ℕ
state_deregistered = 1

abbrev pub state_queued : ℕ
state_queued = 2

-- `list` is the queue of mpsc.rs and `local_list` the list of local_dl_list.rs; each owns one
-- reference to every task on it. `state` and `refs` are fields of the tasks, by address.
pub record Tasks : Type 0 where
  pub list : List ℕ
  pub local_list : List ℕ
  pub state : ℕ → ℕ
  pub refs : ℕ → ℕ

-- Dropping an `Arc`.
abbrev pub release : ℕ → Tasks → Tasks
release t s = record s { refs = update s.refs t (s.refs t - 1) }

-- Both take the caller's reference: it goes to the queue, or it is dropped.
unfoldable pub add_task : ℕ → Tasks → Tasks
add_task t s =
    let prev = s.state t in
    let queued = record s { state = update s.state t state_queued; list = snoc s.list t } in
    if not (prev == 0) then release t s else queued

unfoldable pub deregister_task : ℕ → Tasks → Tasks
deregister_task t s =
    let prev = s.state t in
    let s' = record s { state = update s.state t (or_mask state_queued state_deregistered) } in
    if not (prev == 0) then release t s' else record s' { list = snoc s'.list t }

pub local_add : ℕ → Tasks → Tasks
local_add t s =
    if not (has t s.local_list) then record s { local_list = snoc s.local_list t } else release t s

-- With the reference that the list holds the caller's goes too.
unfoldable pub local_remove : ℕ → Tasks → Tasks
local_remove t s =
    if has t s.local_list
    then release t (release t (record s { local_list = erase t s.local_list }))
    else release t s

-- The body of the loop in `cleanup_tasks`; `none` is the failed assertion.
unfoldable pub cleanup_one : ℕ → Tasks → Option Tasks
cleanup_one t s =
    let prev = s.state t in
    let s' = record s { state = update s.state t (and_not prev state_queued) } in
    if any_bit prev state_queued
    then some (if any_bit prev state_deregistered then local_remove t s' else local_add t s')
    else none

unfoldable pub cleanup_all : List ℕ → Option Tasks → Option Tasks
cleanup_all ts none = none
cleanup_all [] (some s) = some s
cleanup_all (t ∷ ts) (some s) = cleanup_all ts (cleanup_one t s)

unfoldable pub cleanup_tasks : Tasks → Option Tasks
cleanup_tasks s = cleanup_all s.list (some (record s { list = [] }))

pub release_all : List ℕ → Tasks → Tasks
release_all [] s = record s { local_list = [] }
release_all (t ∷ ts) s = release_all ts (release t s)

-- `Drop for Tasks`
pub drop_tasks : Tasks → Option Tasks
unfolding release_all
drop_tasks s = elim (cleanup_tasks s) [
  | none ↦ none
  | some s' ↦ some (release_all s'.local_list s')
]
