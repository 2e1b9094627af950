-- ===== src/Mpsc.antt =====
-- fumio-utils/src/mpsc.rs: `Head`, `Link` and `PopAll`, the queue with many pushing threads and one
-- popping thread, run by one thread at a time.
pub mod Chain
pub mod Threads
pub mod Fifo
pub mod Rounds
pub mod Drain
pub mod Refine
pub mod Pass
mod Examples
pub mod Nodes
use rust_fumio.Prelude.{
  ℕ, zero, suc, Bool, true, false, List, [], ◌∷◌, Option, none, some, ◌==◌, if◌then◌else◌, update,
}

-- A link is an address, `null` is 0, and the `next` cells of all links are one function.
abbrev pub null : ℕ
null = 0

pub record Head : Type 0 where
  pub tail : ℕ
  pub head : ℕ
  pub stub : ℕ
  pub next : ℕ → ℕ

-- `Head::new`, where `stub` is the address of the boxed stub, whose cell `Link::new` clears.
unfoldable pub new : ℕ → (ℕ → ℕ) → Head
new stub next = record { tail = stub; head = stub; stub = stub; next = update next stub null }

-- The two atomic accesses of `_push`, and the whole of it.
unfoldable pub swap_tail : ℕ → Head → ℕ × Head
swap_tail link h = (h.tail, record h { tail = link })

unfoldable pub store_next : ℕ → ℕ → Head → Head
store_next prev link h = record h { next = update h.next prev link }

pub push : ℕ → Head → Head
unfolding swap_tail store_next
push link h = let (prev, h') = swap_tail link h in store_next prev link h'

pub record PopAll : Type 0 where
  pub pos : ℕ
  pub repushed_stub : Bool

unfoldable pub start_pop : Head → PopAll
start_pop h = record { pos = h.head; repushed_stub = false }

-- `Drop for PopAll`
unfoldable pub end_pop : PopAll → Head → Head
end_pop it h = record h { head = it.pos }

-- The result of one call of `next`, with the state that it leaves.
pub data Next : Type 0 where
  item : ℕ → PopAll → Head → Next
  finished : PopAll → Head → Next
  out_of_fuel : Next

-- `self.pos.next.swap(null)`
unfoldable pub swap_next : PopAll → Head → ℕ × Head
unfolding store_next
swap_next it h = (h.next it.pos, store_next it.pos null h)

pub next_item : ℕ → PopAll → Head → Next
unfolding swap_next push
next_item zero it h = out_of_fuel
next_item (suc fuel) it h =
    let (next, h') = swap_next it h in
    let again = next_item fuel (record { pos = next; repushed_stub = true }) (push it.pos h') in
    let broken = finished (record { pos = next; repushed_stub = true }) (push it.pos h') in
    let popped = item it.pos (record it { pos = next }) h' in
    if next == null
    then finished it h'
    else if it.pos == h.stub
    then if it.repushed_stub then broken else again
    else popped

-- A `for` loop over `start_pop`, from the iterator on: the links in order, and the queue after the
-- iterator is dropped. Each call of `next` has fuel for three rounds of its loop.
abbrev pub prepend : ℕ → Option (List ℕ × Head) → Option (List ℕ × Head)
prepend x none = none
prepend x (some (xs, h)) = some (x ∷ xs, h)

collect_from : (PopAll → Head → Option (List ℕ × Head)) → Next → Option (List ℕ × Head)
unfolding end_pop
collect_from rest (item x it h) = prepend x (rest it h)
collect_from rest (finished it h) = some ([], end_pop it h)
collect_from rest out_of_fuel = none

pub collect : ℕ → PopAll → Head → Option (List ℕ × Head)
unfolding collect_from
collect zero it h = none
collect (suc fuel) it h = collect_from (collect fuel) (next_item 3 it h)

pub pop_all : ℕ → Head → Option (List ℕ × Head)
unfolding start_pop collect
pop_all fuel h = collect fuel (start_pop h) h

-- The assertion of `Drop for Head`.
pub drop_assertion : Head → Bool
drop_assertion h = h.tail == h.stub
