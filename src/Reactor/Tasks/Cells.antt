-- ===== src/Reactor/Tasks/Cells.antt =====
-- fumio-reactor/src/reactor/task.rs: `Tasks` on the cells that its two lists are made of, the queue of
-- fumio-utils/src/mpsc.rs and the ring of fumio-utils/src/local_dl_list.rs. The links of a task go by the
-- task's address.
pub mod Cleanup
pub mod Loop
pub mod Ops
pub mod Refine
mod Examples
use rust_fumio.Prelude.{
  ℕ, zero, suc, ◌-◌, Bool, true, false, not, List, [], ◌∷◌, Option, none, some, if◌then◌else◌, ◌==◌,
  update,
}
use rust_fumio.Prelude.Flags.{or_mask, and_not, any_bit}
use rust_fumio.Mpsc.{
  Head, PopAll, Next, null, new, item, finished, out_of_fuel, push, start_pop, end_pop, next_item,
}
use rust_fumio.DlList.{Heap, Run, ok, panic, fault, pop_front}
use rust_fumio.DlList.Guarded.{append_unlinked, unlink_linked}
use rust_fumio.Reactor.Tasks.{Tasks, state_deregistered, state_queued}

-- `local_head` is the address of the ring's head.
pub record Cells : Type 0 where
  pub queue : Head
  pub local_head : ℕ
  pub links : Heap
  pub state : ℕ → ℕ
  pub refs : ℕ → ℕ

-- `Tasks::new`, among links that were never used; `stub` is the address of the boxed stub of the queue.
pub cells_new : (head stub : ℕ) → (ℕ → ℕ) → Cells
cells_new head stub refs = record {
  queue = new stub (λ _. null);
  local_head = head;
  links = record { prev = λ _. null; next = λ _. null };
  state = λ _. 0;
  refs = refs;
}

-- Dropping an `Arc`.
abbrev pub drop_ref : ℕ → Cells → Cells
drop_ref t c = record c { refs = update c.refs t (c.refs t - 1) }

-- What follows an operation on the links; `none` is a failed assertion or a null pointer.
abbrev pub then_links : {A : Type 0} → Run A → (A → Heap → Cells) → Option Cells
then_links (ok a h) f = some (f a h)
then_links panic f = none
then_links fault f = none

pub cells_add_task : ℕ → Cells → Cells
cells_add_task t c =
    if not (c.state t == 0)
    then drop_ref t c
    else record c { state = update c.state t state_queued; queue = push t c.queue }

pub cells_deregister_task : ℕ → Cells → Cells
cells_deregister_task t c =
    let c' = record c { state = update c.state t (or_mask state_queued state_deregistered) } in
    if not (c.state t == 0) then drop_ref t c' else record c' { queue = push t c'.queue }

pub cells_local_add : ℕ → Cells → Option Cells
cells_local_add t c =
    then_links (append_unlinked c.local_head t c.links)
      (λ added h. if added then record c { links = h } else drop_ref t (record c { links = h }))

pub cells_local_remove : ℕ → Cells → Option Cells
cells_local_remove t c = then_links (unlink_linked t c.links) (λ removed h.
    if removed
    then drop_ref t (drop_ref t (record c { links = h }))
    else drop_ref t (record c { links = h }))

-- The body of the loop in `cleanup_tasks`.
pub cells_cleanup_one : ℕ → Cells → Option Cells
cells_cleanup_one t c =
    let prev = c.state t in
    let c' = record c { state = update c.state t (and_not prev state_queued) } in
    if any_bit prev state_queued
    then (if any_bit prev state_deregistered then cells_local_remove t c' else cells_local_add t c')
    else none

-- The loop in `cleanup_tasks` over the iterator of the queue, which drops it at the end.
pub cells_step : (PopAll → Cells → Option Cells) → Next → Cells → Option Cells
unfolding cells_cleanup_one
cells_step rest (item t it queue) c = elim (cells_cleanup_one t (record c { queue = queue })) [
  | none ↦ none
  | some c' ↦ rest it c'
]
cells_step rest (finished it queue) c = some (record c { queue = end_pop it queue })
cells_step rest out_of_fuel c = none

pub cells_loop : ℕ → PopAll → Cells → Option Cells
unfolding cells_step
cells_loop zero it c = none
cells_loop (suc fuel) it c = cells_step (cells_loop fuel) (next_item 3 it c.queue) c

pub cells_cleanup_tasks : ℕ → Cells → Option Cells
unfolding cells_loop
cells_cleanup_tasks fuel c = cells_loop fuel (start_pop c.queue) c
