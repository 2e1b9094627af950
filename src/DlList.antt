-- ===== src/DlList.antt =====
-- fumio-utils/src/local_dl_list.rs: `LocalDLHead`, the intrusive doubly linked ring.
mod Cells
pub mod Deque
pub mod Pair
pub mod Guarded
mod Examples
pub mod Nodes
mod Insert
mod Pop
mod Unlink
pub mod Ring
use rust_fumio.Prelude.{
  ℕ, Bool, true, false, Option, none, some, ◌||◌, not, ◌==◌, if◌then◌else◌, update,
}

-- A node is an address; `null` is 0. Each node has its two cells in the heap.
abbrev pub null : ℕ
null = 0

pub record Heap : Type 0 where
  pub prev : ℕ → ℕ
  pub next : ℕ → ℕ

-- `panic` is a failed assertion, `fault` a read through a null pointer.
pub data Run (A : Type 0) : Type 0 where
  ok : A → Heap → Run A
  panic : Run A
  fault : Run A

abbrev pub M : Type 0 → Type 0
M A = Heap → Run A

abbrev pub pure : {A : Type 0} → A → M A
pure a h = ok a h

abbrev pub and_then : {A B : Type 0} → Run A → (A → M B) → Run B
and_then (ok a h) f = f a h
and_then panic f = panic
and_then fault f = fault

infixl 5 ◌>>=◌ ◌>>◌
abbrev pub ◌>>=◌ : {A B : Type 0} → M A → (A → M B) → M B
◌>>=◌ m f h = and_then (m h) f

abbrev pub ◌>>◌ : {B : Type 0} → M (Unit {0}) → M B → M B
◌>>◌ m k h = and_then (m h) (λ _. k)

abbrev pub assert : Bool → M (Unit {0})
assert true h = ok tt h
assert false h = panic

abbrev pub when : Bool → M (Unit {0}) → M (Unit {0})
when true m h = m h
when false m h = ok tt h

abbrev pub branch : {A : Type 0} → Bool → M A → M A → M A
branch true m k h = m h
branch false m k h = k h

pub get_next : ℕ → M ℕ
get_next p h = if p == null then fault else ok (h.next p) h

pub get_prev : ℕ → M ℕ
get_prev p h = if p == null then fault else ok (h.prev p) h

pub set_next : ℕ → ℕ → M (Unit {0})
set_next p v h = if p == null then fault else ok tt (record h { next = update h.next p v })

pub set_prev : ℕ → ℕ → M (Unit {0})
set_prev p v h = if p == null then fault else ok tt (record h { prev = update h.prev p v })

unfoldable pub init : ℕ → M (Unit {0})
init self = do n ← get_next self; when (n == null) (set_next self self >> set_prev self self)

unfoldable pub is_unlinked : ℕ → M Bool
is_unlinked self = do n ← get_next self; pure (n == null || n == self)

-- The relinking of the neighbours, in the order of the source.
pub bridge : ℕ → M (Unit {0})
bridge self = do
  p ← get_prev self
  n ← get_next self
  set_next p n
  n ← get_next self
  p ← get_prev self
  set_prev n p

pub unlink : ℕ → M (Unit {0})
unfolding is_unlinked bridge
unlink self = do
  alone ← is_unlinked self
  when (not alone) (bridge self)
  set_next self null
  set_prev self null

pub insert_after : ℕ → ℕ → M (Unit {0})
unfolding is_unlinked
insert_after self node = do
  alone ← is_unlinked node
  assert alone
  assert (not (self == node))
  init self
  n ← get_next self
  set_next node n
  set_prev node self
  n ← get_next node
  set_prev n node
  set_next self node

pub insert_before : ℕ → ℕ → M (Unit {0})
unfolding is_unlinked
insert_before self node = do
  alone ← is_unlinked node
  assert alone
  assert (not (self == node))
  init self
  set_next node self
  p ← get_prev self
  set_prev node p
  p ← get_prev node
  set_next p node
  set_prev self node

pop_at : ℕ → M (Option ℕ)
pop_at node = do unlink node; pure (some node)

pub pop_front : ℕ → M (Option ℕ)
unfolding pop_at
pop_front self = do
  alone ← is_unlinked self
  branch alone (pure none) (do node ← get_next self; pop_at node)

pub pop_back : ℕ → M (Option ℕ)
unfolding pop_at
pop_back self = do
  alone ← is_unlinked self
  branch alone (pure none) (do node ← get_prev self; pop_at node)

pub take_from : ℕ → ℕ → M (Unit {0})
take_from self other = do
  alone ← is_unlinked self
  assert alone
  empty ← is_unlinked other
  when (not empty) (insert_after other self >> unlink other)

-- `impl Drop`
pub drop_head : ℕ → M (Unit {0})
drop_head self = do alone ← is_unlinked self; assert alone
