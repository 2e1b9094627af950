-- ===== src/Reactor/Tasks/Cells/Ops.antt =====
-- `Tasks` of fumio-reactor/src/reactor/task.rs as its owners use it: sequences of calls, on the cells and
-- on the lists, and what the one stands for.
use rust_fumio.Prelude.{
  ℕ, ◌+◌, ◌<◌, ◌≡◌, ◌≢◌, List, [], ◌∷◌, Option, none, some, update, length, ◌>>=◌,
}
use rust_fumio.Mpsc.Refine.{IsFifo}
use rust_fumio.DlList.{null}
use rust_fumio.DlList.Deque.{IsDeque}
use rust_fumio.Reactor.Tasks.{
  Tasks, state_deregistered, release, add_task, deregister_task, cleanup_tasks,
}
use rust_fumio.Reactor.Tasks.Laws.{IsTasks, held}
use rust_fumio.Reactor.Tasks.Cells.{
  Cells, drop_ref, cells_add_task, cells_deregister_task, cells_cleanup_tasks,
}
use rust_fumio.Reactor.Tasks.Cells.Cleanup.{seen}
use rust_fumio.Reactor.Tasks.Cells.Loop.{IsNamed}

-- The calls of `add_task`, `deregister_task` and `cleanup_tasks`, with the clones and drops of
-- references between them. `fuel` bounds the rounds of the loop.
pub data Op : Type 0 where
  cloning : (task : ℕ) → Op
  dropping : (task : ℕ) → Op
  adding : (task : ℕ) → Op
  deregistering : (task : ℕ) → Op
  cleaning : (fuel : ℕ) → Op

abbrev pub retained : ℕ → Tasks → Tasks
retained t s = record s { refs = update s.refs t (s.refs t + 1) }

unfoldable pub tasks_step : Op → Tasks → Option Tasks
tasks_step (cloning t) s = some (retained t s)
tasks_step (dropping t) s = some (release t s)
tasks_step (adding t) s = some (add_task t s)
tasks_step (deregistering t) s = some (deregister_task t s)
tasks_step (cleaning fuel) s = cleanup_tasks s

unfoldable pub cells_op : Op → Cells → Option Cells
cells_op (cloning t) c = some (record c { refs = update c.refs t (c.refs t + 1) })
cells_op (dropping t) c = some (drop_ref t c)
cells_op (adding t) c = some (cells_add_task t c)
cells_op (deregistering t) c = some (cells_deregister_task t c)
cells_op (cleaning fuel) c = cells_cleanup_tasks fuel c

unfoldable pub tasks_run : List Op → Tasks → Option Tasks
unfolding tasks_step
tasks_run [] s = some s
tasks_run (op ∷ ops) s = do s' ← tasks_step op s; tasks_run ops s'

unfoldable pub cells_run : List Op → Cells → Option Cells
unfolding cells_op
cells_run [] c = some c
cells_run (op ∷ ops) c = do c' ← cells_op op c; cells_run ops c'

-- Who passes a task, or drops it, owns a reference to it besides those of the lists; a task is not
-- deregistered again after its cleanup; and there is fuel for every queued task.
abbrev pub IsAllowed : (head stub : ℕ) → Op → Tasks → Type 0
IsAllowed head stub (cloning t) s = Unit
IsAllowed head stub (dropping t) s = held t s < s.refs t
IsAllowed head stub (adding t) s = ((t ≢ null) × (t ≢ head) × (t ≢ stub)) × (held t s < s.refs t)
IsAllowed head stub (deregistering t) s =
    ((t ≢ null) × (t ≢ head) × (t ≢ stub))
    × (held t s < s.refs t)
    × (s.state t ≢ state_deregistered)
IsAllowed head stub (cleaning fuel) s = length s.list < fuel

-- Every operation is allowed on the lists as the operations before it leave them.
abbrev pub IsLegal : (head stub : ℕ) → List Op → Tasks → Type 0
IsLegal head stub [] s = Unit
IsLegal head stub (op ∷ ops) s =
    IsAllowed head stub op s
    × (elim (tasks_step op s) [ none ↦ Unit | some s' ↦ IsLegal head stub ops s' ])

-- The cells stand for tasks that agree, with `ys` in the queue and `xs` on the ring.
pub record Stands (head stub : ℕ) (c : Cells) (ys xs : List ℕ) : Type 0 where
  pub same_head : c.local_head ≡ head
  pub same_stub : c.queue.stub ≡ stub
  pub queue : IsFifo c.queue ys
  pub links : IsDeque c.links head xs
  pub named : IsNamed head ys
  pub agree : IsTasks (seen c ys xs)

-- The cells after an operation, which stand for what the lists are after it.
pub record Refines (head stub : ℕ) (s : Option Tasks) (r : Option Cells) : Type 0 where
  pub after : Cells
  pub result : r ≡ some after
  pub queued : List ℕ
  pub on_ring : List ℕ
  pub same : s ≡ some (seen after queued on_ring)
  pub stands : Stands head stub after queued on_ring
