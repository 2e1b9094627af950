-- ===== src/DlList/Pop.antt =====
-- `pop_front`, `pop_back`, `take_from` and the assertion of `drop`, on lists.
use rust_fumio.Prelude.{
  ℕ, ◌≡◌, refl, ◌≢◌, inl, inr, true, false, ◌||◌, List, [], ◌∷◌, arith, ◌==◌, ◌∉◌, none, some,
  has-append, IsDistinct-rotate, snoc, append-nil, if◌then◌else◌, is_empty,
}
use rust_fumio.DlList.{
  Heap, ok, panic, null, is_unlinked, pop_at, pop_front, pop_back, take_from, drop_head,
}
use rust_fumio.DlList.Cells.{cells}
use rust_fumio.DlList.Insert.{insert_after-cons}
use rust_fumio.DlList.Unlink.{unlink_lem, ring, before-y, after-y}
use rust_fumio.DlList.Ring.{IsRing, IsList, IsBlank, IsAlone, SameOutside, Seg-append}

-- `is_unlinked` of a head answers whether its list is empty.
pub is_unlinked-is_empty :
    (h : Heap) (l : ℕ) (xs : List ℕ) → IsList h l xs → is_unlinked l h ≡ ok (is_empty xs) h
unfolding is_unlinked
is_unlinked-is_empty h l [] (inl r) =
    let e : (l == null) ≡ false = ground (arith, r.real) in
    let f : ◌||◌ (h.next l == null) (h.next l == l) ≡ true = ground (arith, r.seg) in
    simp (cells, e, f)
is_unlinked-is_empty h l (x ∷ xs) (inl r) =
    let e : (l == null) ≡ false = ground (arith, r.real) in
    let f : ◌||◌ (h.next l == null) (h.next l == l) ≡ false =
      ground (arith, r.seg, r.real, r.distinct) in
    simp (cells, e, f)
is_unlinked-is_empty h l [] (inr b) =
    let e : (l == null) ≡ false = ground (arith) in
    let f : ◌||◌ (h.next l == null) (h.next l == l) ≡ true = ground (arith) in simp (cells, e, f)
is_unlinked-is_empty h l (x ∷ xs) (inr b) = absurd (cc)

IsList-real : (h : Heap) (l : ℕ) (xs : List ℕ) → IsList h l xs → (l == null) ≡ false
IsList-real h l xs (inl r) = ground (arith, r.real)
IsList-real h l xs (inr b) = ground arith

nil-IsAlone : (h : Heap) (l : ℕ) → IsList h l [] → IsAlone h l
nil-IsAlone h l (inl r) = ground (arith, r.real, r.seg)
nil-IsAlone h l (inr b) = ground arith

-- On an empty list both pops return nothing and change nothing.
pub pop-nil :
    (h : Heap) (l : ℕ) → IsList h l [] → (pop_front l h ≡ ok none h) × (pop_back l h ≡ ok none h)
unfolding pop_front pop_back
pop-nil h l is = (simp (is_unlinked-is_empty h l [] is), simp (is_unlinked-is_empty h l [] is))

is_empty-snoc : (xs : List ℕ) (y : ℕ) → is_empty (snoc xs y) ≡ false
is_empty-snoc [] y = refl
is_empty-snoc (x ∷ xs) y = refl

module _ (h : Heap) (l y : ℕ) (xs : List ℕ) where
  -- `pop_front` returns the first node of the list, unlinked, and keeps the rest in order.
  pub pop_front-cons :
      IsList h l (y ∷ xs)
      → (g : Heap) × (pop_front l h ≡ ok (some y) g)
        × IsList g l xs
        × IsBlank g y
        × SameOutside (l ∷ y ∷ xs) h g
  unfolding pop_front pop_at
  pop_front-cons is =
      let (g, runs, list, blank, same) = unlink_lem h l [] y xs is in
      let e : h.next l ≡ y = (before-y h l [] y xs is).0 in
      (
        g,
        simp (cells, is_unlinked-is_empty h l (y ∷ xs) is, IsList-real h l (y ∷ xs) is, e, runs),
        list,
        blank,
        same,
      )

  -- `pop_back` returns the last node of the list, unlinked, and keeps the others in order.
  pub pop_back-snoc :
      IsList h l (snoc xs y)
      → (g : Heap) × (pop_back l h ≡ ok (some y) g)
        × IsList g l xs
        × IsBlank g y
        × SameOutside (l ∷ snoc xs y) h g
  unfolding pop_back pop_at
  pop_back-snoc is =
      let (g, runs, list, blank, same) = unlink_lem h l xs y [] is in
      let e : h.prev l ≡ y = (after-y h l xs y [] is).1 in
      (
        g,
        simp (
          cells,
          is_unlinked-is_empty h l (snoc xs y) is,
          is_empty-snoc xs y,
          IsList-real h l (snoc xs y) is,
          e,
          runs,
        ),
        rw append-nil at list,
        blank,
        same,
      )

-- A ring may be entered at any of its nodes.
rotate : (h : Heap) (l x : ℕ) (xs : List ℕ) → IsRing h l (x ∷ xs) → IsRing h x (snoc xs l)
rotate h l x xs r = record {
  seg = Seg-append h x xs l [] x r.seg.2 (r.seg.0, r.seg.1);
  distinct = (
    ground (arith, r.distinct, has-append x xs (l ∷ [])),
    IsDistinct-rotate l xs (ground (arith, r.distinct), r.distinct.1.1),
  );
  real = ground (arith, r.real, has-append null xs (l ∷ []));
}

module _ (h : Heap) (self other : ℕ) (ne : self ≢ other) where
  -- `take_from` of an empty list: nothing happens.
  pub take_from-nil : IsList h self [] → IsList h other [] → take_from self other h ≡ ok tt h
  unfolding take_from
  take_from-nil mine theirs =
      simp (is_unlinked-is_empty h self [] mine, is_unlinked-is_empty h other [] theirs)

  -- `take_from` into an empty head, from another head's list that this head is not on, moves the whole
  -- list, in order, leaves the other head blank, and writes to no other node.
  pub take_from-cons :
      (x : ℕ) (xs : List ℕ)
      → IsList h self []
      → IsList h other (x ∷ xs)
      → self ∉ (x ∷ xs)
      → (g : Heap) × (take_from self other h ≡ ok tt g)
        × IsList g self (x ∷ xs)
        × IsBlank g other
        × SameOutside (self ∷ other ∷ x ∷ xs) h g
  unfolding take_from
  take_from-cons x xs mine theirs out =
      let (g, runs, list, same) =
        insert_after-cons h other self (x ∷ xs) theirs (nil-IsAlone h self mine) (ground arith) in
      let turned : IsList g self (snoc (x ∷ xs) other) =
        inl (rotate g other self (x ∷ xs) (ring g other [] self (x ∷ xs) list)) in
      let (g', runs', list', blank', same') = unlink_lem g self (x ∷ xs) other [] turned in
      (
        g',
        simp (
          is_unlinked-is_empty h self [] mine,
          is_unlinked-is_empty h other (x ∷ xs) theirs,
          runs,
          runs',
        ),
        rw append-nil at list',
        blank',
        λ c o. ground (arith, same c, same' c, has-append c xs (other ∷ [])),
      )

-- Dropping a head asserts that its list is empty.
pub drop_head-is_empty :
    (h : Heap) (l : ℕ) (xs : List ℕ)
    → IsList h l xs
    → drop_head l h ≡ (if is_empty xs then ok tt h else panic)
unfolding drop_head
drop_head-is_empty h l [] is = simp (is_unlinked-is_empty h l [] is)
drop_head-is_empty h l (x ∷ xs) is = simp (is_unlinked-is_empty h l (x ∷ xs) is)
