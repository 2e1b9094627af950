-- ===== src/DlList/Deque.antt =====
-- A list as what its owner sees of it: a sequence of operations, against a list of nodes.
use rust_fumio.Prelude.{
  ℕ, ◌≡◌, refl, ap, ◌≢◌, inl, inr, List, [], ◌∷◌, ◌++◌, arith, ◌==◌, ◌∈◌, ◌∉◌, has, has-append,
  erase, Option, none, some, snoc, subst, ◌⊎◌, Bool-cases,
}
use rust_fumio.DlList.{
  Heap, M, ok, null, insert_after, insert_before, pop_front, pop_back, unlink, pure, ◌>>=◌, ◌>>◌,
}
use rust_fumio.DlList.Ring.{IsList, IsAlone, IsBlank, SameOutside}
use rust_fumio.DlList.Insert.{insert_after-cons, insert_before-snoc}
use rust_fumio.DlList.Pop.{pop-nil, pop_front-cons, pop_back-snoc}
use rust_fumio.DlList.Unlink.{unlink_lem}

pub data Op : Type 0 where
  push_front : (node : ℕ) → Op
  push_back : (node : ℕ) → Op
  take_front : Op
  take_back : Op
  remove : (node : ℕ) → Op

abbrev pub last_of : List ℕ → Option ℕ
last_of [] = none
last_of (x ∷ xs) = elim (last_of xs) [ none ↦ some x | some y ↦ some y ]

abbrev pub front_of : List ℕ → List ℕ
front_of [] = []
front_of (x ∷ xs) = elim xs [ [] ↦ [] | _ ∷ _ ↦ x ∷ front_of xs ]

-- What an operation returns, and the nodes that are on the list after it.
abbrev pub deque_step : Op → List ℕ → Option ℕ × List ℕ
deque_step (push_front node) xs = (none, node ∷ xs)
deque_step (push_back node) xs = (none, snoc xs node)
deque_step take_front [] = (none, [])
deque_step take_front (x ∷ xs) = (some x, xs)
deque_step take_back xs = (last_of xs, front_of xs)
deque_step (remove node) xs = (none, erase node xs)

pub list_step : ℕ → Op → M (Option ℕ)
list_step l (push_front node) = do insert_after l node; pure none
list_step l (push_back node) = do insert_before l node; pure none
list_step l take_front = pop_front l
list_step l take_back = pop_back l
list_step l (remove node) = do unlink node; pure none

pub deque_run : List Op → List ℕ → List (Option ℕ) × List ℕ
deque_run [] xs = ([], xs)
deque_run (op ∷ ops) xs =
    let (reply, xs') = deque_step op xs in
    let (replies, end) = deque_run ops xs' in (reply ∷ replies, end)

pub list_run : ℕ → List Op → M (List (Option ℕ))
unfolding list_step
list_run l [] = pure []
list_run l (op ∷ ops) = do reply ← list_step l op; replies ← list_run l ops; pure (reply ∷ replies)

-- A node is put on the list only while it is off it, and removed only while it is on it.
abbrev pub IsAllowed : ℕ → Op → List ℕ → Type 0
IsAllowed l (push_front node) xs = (node ≢ null) × (node ∉ (l ∷ xs))
IsAllowed l (push_back node) xs = (node ≢ null) × (node ∉ (l ∷ xs))
IsAllowed l take_front xs = Unit
IsAllowed l take_back xs = Unit
IsAllowed l (remove node) xs = node ∈ xs

abbrev pub IsLegal : ℕ → List Op → List ℕ → Type 0
IsLegal l [] xs = Unit
IsLegal l (op ∷ ops) xs = IsAllowed l op xs × IsLegal l ops (deque_step op xs).1

-- The nodes `xs` are on the list, in order, and every other node is on none.
pub record IsDeque (h : Heap) (l : ℕ) (xs : List ℕ) : Type 0 where
  pub list : IsList h l xs
  pub others : (c : ℕ) → c ≢ null → c ∉ (l ∷ xs) → IsAlone h c

pub last_of-snoc : (xs : List ℕ) (y : ℕ) → last_of (snoc xs y) ≡ some y
last_of-snoc [] y = refl
last_of-snoc (x ∷ xs) y = rw (last_of-snoc xs y) refl

pub front_of-snoc : (xs : List ℕ) (y : ℕ) → front_of (snoc xs y) ≡ xs
front_of-snoc [] y = refl
front_of-snoc (x ∷ []) y = refl
front_of-snoc (x ∷ z ∷ xs) y = ap (λ l. x ∷ l) (front_of-snoc (z ∷ xs) y)

pub snoc-cases : (xs : List ℕ) → (xs ≡ []) ⊎ ((ys : List ℕ) × (y : ℕ) × (xs ≡ snoc ys y))
snoc-cases [] = inl refl
snoc-cases (x ∷ xs) = elim (snoc-cases xs) [
  | inl e ↦ inr ([], x, ap (λ l. x ∷ l) e)
  | inr (ys, y, e) ↦ inr (x ∷ ys, y, ap (λ l. x ∷ l) e)
]

pub erase-split :
    (a : ℕ) (xs : List ℕ)
    → a ∈ xs
    → (ys : List ℕ) × (zs : List ℕ) × (xs ≡ ys ++ a ∷ zs) × (erase a xs ≡ ys ++ zs)
erase-split a [] i = absurd (cc)
erase-split a (x ∷ xs) i = elim (Bool-cases (a == x)) [
  | inl e ↦ ([], xs, ap (λ y. y ∷ xs) (ground (arith, e)), ground (arith, e))
  | inr e ↦
      let (ys, zs, here, gone) = erase-split a xs (ground (arith, e)) in
      (x ∷ ys, zs, ap (λ l. x ∷ l) here, rw e (ap (λ l. x ∷ l) gone))
]

-- A step that writes only to nodes that are on the list before or after it, and takes none off but
-- with null cells.
IsDeque-step :
    (h g : Heap) (l : ℕ) (xs ys ws : List ℕ)
    → IsDeque h l xs
    → IsList g l ys
    → SameOutside ws h g
    → ((c : ℕ) → c ∉ (l ∷ ys) → c ∈ ws → IsBlank g c)
    → ((c : ℕ) → c ∉ (l ∷ ys) → c ∉ ws → c ∉ (l ∷ xs))
    → IsDeque g l ys
IsDeque-step h g l xs ys ws v list same blank off = record {
  list = list;
  others = λ c ne o. elim (Bool-cases (has c ws)) [
    | inl i ↦ ground (arith, blank c o i)
    | inr i ↦ ground (arith, same c i, v.others c ne (off c o i))
  ];
}

pub insert_before-IsDeque :
    (h : Heap) (l node : ℕ) (xs : List ℕ)
    → IsDeque h l xs
    → node ≢ null
    → node ∉ (l ∷ xs)
    → (g : Heap) × (insert_before l node h ≡ ok tt g) × IsDeque g l (snoc xs node)
insert_before-IsDeque h l node xs v ne o =
    let (g, runs, list, same) = insert_before-snoc h l node xs v.list (v.others node ne o) o in
    (
      g,
      runs,
      IsDeque-step h g l xs (snoc xs node) (node ∷ l ∷ xs) v list same
          (λ c o i. absurd (ground (arith, has-append c xs (node ∷ [])))) (λ c o o'. ground arith),
    )

pub unlink-IsDeque :
    (h : Heap) (l node : ℕ) (xs : List ℕ)
    → IsDeque h l xs
    → node ∈ xs
    → (g : Heap) × (unlink node h ≡ ok tt g) × IsDeque g l (erase node xs)
unlink-IsDeque h l node xs v i =
    let (ys, zs, here, gone) = erase-split node xs i in
    let (g, runs, list, blank, same) = unlink_lem h l ys node zs (subst (IsList h l) here v.list) in
    (
      g,
      runs,
      rw gone (
          IsDeque-step h g l xs (ys ++ zs) (l ∷ ys ++ node ∷ zs) v list same
            (λ c o i.
              subst (IsBlank g) (ground (arith, has-append c ys (node ∷ zs), has-append c ys zs))
                blank)
            (λ c o o'. rw here o')),
    )

list-step :
    (op : Op) (h : Heap) (l : ℕ) (xs : List ℕ)
    → IsDeque h l xs
    → IsAllowed l op xs
    → (g : Heap) × (list_step l op h ≡ ok (deque_step op xs).0 g) × IsDeque g l (deque_step op xs).1
unfolding list_step
list-step (push_front node) h l xs v a =
    let (g, runs, list, same) = insert_after-cons h l node xs v.list (v.others node a.0 a.1) a.1 in
    (
      g,
      rw runs refl,
      IsDeque-step h g l xs (node ∷ xs) (node ∷ l ∷ xs) v list same (λ c o i. absurd (ground arith))
          (λ c o o'. ground arith),
    )
list-step (push_back node) h l xs v a =
    let (g, runs, w) = insert_before-IsDeque h l node xs v a.0 a.1 in (g, rw runs refl, w)
list-step take_front h l [] v a = (h, (pop-nil h l v.list).0, v)
list-step take_front h l (x ∷ xs) v a =
    let (g, runs, list, blank, same) = pop_front-cons h l x xs v.list in
    (
      g,
      runs,
      IsDeque-step h g l (x ∷ xs) xs (l ∷ x ∷ xs) v list same
          (λ c o i. subst (IsBlank g) (ground arith) blank) (λ c o o'. ground arith),
    )
list-step take_back h l xs v a = elim (snoc-cases xs) [
  | inl e ↦ (h, rw e (pop-nil h l (subst (IsList h l) e v.list)).1, rw e (subst (IsDeque h l) e v))
  | inr (ys, y, e) ↦
      let (g, runs, list, blank, same) = pop_back-snoc h l y ys (subst (IsList h l) e v.list) in
      (
        g,
        rw (e, last_of-snoc ys y) runs,
        rw (e, front_of-snoc ys y)
            (IsDeque-step h g l xs ys (l ∷ snoc ys y) v list same
              (λ c o i. subst (IsBlank g) (ground (arith, has-append c ys (y ∷ []))) blank)
              (λ c o o'. rw e o')),
      )
]
list-step (remove node) h l xs v a =
    let (g, runs, w) = unlink-IsDeque h l node xs v a in (g, rw runs refl, w)

-- A list whose nodes are `xs`, with every other node alone, gives the replies of a list of numbers, and
-- is one again: for any sequence of insertions at both ends, pops at both ends and removals anywhere,
-- where no node is inserted while it is on the list, and none removed while it is not. No assertion
-- fails, and no null pointer is read.
pub list_run-refines :
    (ops : List Op) (h : Heap) (l : ℕ) (xs : List ℕ)
    → IsDeque h l xs
    → IsLegal l ops xs
    → (g : Heap) × (list_run l ops h ≡ ok (deque_run ops xs).0 g) × IsDeque g l (deque_run ops xs).1
unfolding list_run deque_run
list_run-refines [] h l xs v legal = (h, refl, v)
list_run-refines (op ∷ ops) h l xs v legal =
    let (h1, runs, v1) = list-step op h l xs v legal.0 in
    let (g, runs', v') = list_run-refines ops h1 l (deque_step op xs).1 v1 legal.1 in
    (g, rw (runs, runs') refl, v')
