-- ===== src/DlList/Pair.antt =====
-- Two lists whose nodes have the same kind of link, as the pool's pending tasks and those of a round
-- have it (fumio-pool/src/pool/task.rs): a sequence of the pool's operations on them, against two
-- lists of numbers.
pub mod Moves
pub mod Refine
use rust_fumio.Prelude.{
  ℕ, ◌≡◌, refl, ap, ◌≢◌, inl, inr, List, [], ◌∷◌, ◌++◌, arith, ◌==◌, ◌∈◌, ◌∉◌, has, has-append,
  erase, Option, none, some, snoc, subst, ◌⊎◌, Bool, true, false, Bool-cases, ◌||◌, if◌then◌else◌,
  not, sym,
}
use rust_fumio.DlList.{
  Heap, M, ok, null, insert_after, insert_before, pop_front, pop_back, unlink, take_from,
  is_unlinked, pure, when, ◌>>=◌, ◌>>◌,
}
use rust_fumio.DlList.Cells.{cells}
use rust_fumio.DlList.Ring.{IsList, IsAlone, IsBlank, SameOutside, IsList-frame}
use rust_fumio.DlList.Insert.{insert_after-cons, insert_before-snoc}
use rust_fumio.DlList.Pop.{pop-nil, pop_front-cons, pop_back-snoc, take_from-nil, take_from-cons}
use rust_fumio.DlList.Unlink.{unlink_lem, unlink-alone, blanked, member-linked}
use rust_fumio.DlList.Deque.{
  last_of, front_of, last_of-snoc, front_of-snoc, snoc-cases, erase-split,
}

-- Where a task is queued unless it is linked: at the back by the notifications, at the front by the
-- destructor of a round. A round takes the pending tasks, and pops them at the front, its
-- destructor at the back. A task that is cleared is unlinked, whether it is on a list or not.
pub data Op : Type 0 where
  append : (node : ℕ) → Op
  prepend : (node : ℕ) → Op
  take_all : Op
  next_task : Op
  last_task : Op
  clear : (node : ℕ) → Op

-- What an operation returns, and the tasks that are pending and in the round after it.
abbrev pub pair_step : Op → List ℕ → List ℕ → Option ℕ × List ℕ × List ℕ
pair_step (append node) ps qs =
    if has node ps || has node qs then (none, ps, qs) else (some node, snoc ps node, qs)
pair_step (prepend node) ps qs =
    if has node ps || has node qs then (none, ps, qs) else (some node, node ∷ ps, qs)
pair_step take_all ps qs = (none, [], ps)
pair_step next_task ps [] = (none, ps, [])
pair_step next_task ps (q ∷ qs) = (some q, ps, qs)
pair_step last_task ps qs = (last_of qs, ps, front_of qs)
pair_step (clear node) ps qs = (none, erase node ps, erase node qs)

-- The operations on the heads `pending` and `round`.
queue_at : ℕ → Bool → M (Unit {0}) → M (Option ℕ)
queue_at node true m = do m; pure (some node)
queue_at node false m = pure none

pub links_step : ℕ → ℕ → Op → M (Option ℕ)
unfolding queue_at
links_step pending round (append node) = do
  alone ← is_unlinked node
  queue_at node alone (insert_before pending node)
links_step pending round (prepend node) = do
  alone ← is_unlinked node
  queue_at node alone (insert_after pending node)
links_step pending round take_all = do take_from round pending; pure none
links_step pending round next_task = pop_front round
links_step pending round last_task = pop_back round
links_step pending round (clear node) = do unlink node; pure none

pub record IsPair (h : Heap) (l m : ℕ) (xs zs : List ℕ) : Type 0 where
  pub first : IsList h l xs
  pub second : IsList h m zs
  pub apart : (c : ℕ) → c ∈ (l ∷ xs) → c ∉ (m ∷ zs)
  pub others : (c : ℕ) → c ≢ null → c ∉ (l ∷ xs) → c ∉ (m ∷ zs) → IsAlone h c

pub IsPair-apart :
    {h : Heap} {l m : ℕ} {xs zs : List ℕ}
    → IsPair h l m xs zs
    → (c : ℕ) → c ∈ (m ∷ zs)
    → c ∉ (l ∷ xs)
IsPair-apart {l} {xs} v c i = ground (arith, v.apart c, Bool-cases (has c (l ∷ xs)))

pub IsPair-swap : {h : Heap} {l m : ℕ} {xs zs : List ℕ} → IsPair h l m xs zs → IsPair h m l zs xs
IsPair-swap v = record {
  first = v.second;
  second = v.first;
  apart = IsPair-apart v;
  others = λ c ne o o'. v.others c ne o' o;
}

-- A step that changes the first list, writes nothing of the second, and takes no node off but with
-- null cells.
pub IsPair-step :
    (h g : Heap) (l m : ℕ) (xs ys zs ws : List ℕ)
    → IsPair h l m xs zs
    → IsList g l ys
    → SameOutside ws h g
    → ((c : ℕ) → c ∈ (m ∷ zs) → c ∉ ws)
    → ((c : ℕ) → c ∈ (l ∷ ys) → c ∉ (m ∷ zs))
    → ((c : ℕ) → c ∉ (l ∷ ys) → c ∈ ws → IsBlank g c)
    → ((c : ℕ) → c ∉ (l ∷ ys) → c ∉ ws → c ∉ (l ∷ xs))
    → IsPair g l m ys zs
IsPair-step h g l m xs ys zs ws v list same out ap' blank off = record {
  first = list;
  second = IsList-frame h g m zs ws v.second same out;
  apart = ap';
  others = λ c ne o o'. elim (Bool-cases (has c ws)) [
    | inl i ↦ ground (arith, blank c o i)
    | inr i ↦ ground (arith, same c i, v.others c ne (off c o i) o')
  ];
}
