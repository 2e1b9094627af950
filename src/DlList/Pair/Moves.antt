-- ===== src/DlList/Pair/Moves.antt =====
-- The single operations of fumio-utils/src/local_dl_list.rs on two lists over one kind of link.
use rust_fumio.Prelude.{
  ℕ, ◌≡◌, refl, ◌≢◌, inl, inr, List, [], ◌∷◌, ◌++◌, arith, ◌==◌, ◌∈◌, ◌∉◌, has, has-append, erase,
  some, snoc, subst, false, Bool-cases, ◌||◌, not, sym,
}
use rust_fumio.DlList.{
  Heap, ok, null, insert_after, insert_before, pop_front, pop_back, unlink, take_from, is_unlinked,
}
use rust_fumio.DlList.Cells.{cells}
use rust_fumio.DlList.Ring.{IsList, IsBlank, SameOutside, IsList-frame}
use rust_fumio.DlList.Insert.{insert_after-cons, insert_before-snoc}
use rust_fumio.DlList.Pop.{pop_front-cons, pop_back-snoc, take_from-nil, take_from-cons}
use rust_fumio.DlList.Unlink.{unlink_lem, unlink-alone, blanked, member-linked, ring}
use rust_fumio.DlList.Deque.{erase-split}
use rust_fumio.DlList.Pair.{IsPair, IsPair-apart, IsPair-swap, IsPair-step}

pub mem-linked :
    (h : Heap) (l c : ℕ) (xs : List ℕ)
    → IsList h l xs
    → c ∈ xs
    → (h.next c == null || h.next c == c) ≡ false
mem-linked h l c xs is i =
    let (ys, zs, here, gone) = erase-split c xs i in
    let (real, other) = member-linked h l ys c zs (subst (IsList h l) here is) in
    ground (arith, real, other)

-- `is_unlinked` answers whether a node is on neither list.
pub is_unlinked-pair :
    (h : Heap) (l m c : ℕ) (xs zs : List ℕ)
    → IsPair h l m xs zs
    → c ≢ null
    → c ∉ (l ∷ m ∷ [])
    → is_unlinked c h ≡ ok (not (has c xs || has c zs)) h
unfolding is_unlinked
is_unlinked-pair h l m c xs zs v ne o =
    let real : (c == null) ≡ false = ground arith in
    let e : (h.next c == null || h.next c == c) ≡ not (has c xs || has c zs) =
      elim (Bool-cases (has c xs)) [
        | inl i ↦ ground (arith, i, mem-linked h l c xs v.first i)
        | inr i ↦ elim (Bool-cases (has c zs)) [
          | inl j ↦ ground (arith, i, j, mem-linked h m c zs v.second j)
          | inr j ↦ ground (arith, i, j, v.others c ne (ground arith) (ground arith))
        ]
      ] in
    simp (cells, real, e)

-- Insertion of a node that is on neither list, at either end of the first.
pub append-IsPair :
    (h : Heap) (l m c : ℕ) (xs zs : List ℕ)
    → IsPair h l m xs zs
    → c ≢ null
    → c ∉ (l ∷ xs)
    → c ∉ (m ∷ zs)
    → (g : Heap) × (insert_before l c h ≡ ok tt g) × IsPair g l m (snoc xs c) zs
append-IsPair h l m c xs zs v ne o o' =
    let (g, runs, list, same) = insert_before-snoc h l c xs v.first (v.others c ne o o') o in
    (
      g,
      runs,
      IsPair-step h g l m xs (snoc xs c) zs (c ∷ l ∷ xs) v list same
          (λ d i. ground (arith, IsPair-apart v d i))
          (λ d i. ground (arith, v.apart d, has-append d xs (c ∷ [])))
          (λ d p i. absurd (ground (arith, has-append d xs (c ∷ [])))) (λ d p q. ground arith),
    )

pub prepend-IsPair :
    (h : Heap) (l m c : ℕ) (xs zs : List ℕ)
    → IsPair h l m xs zs
    → c ≢ null
    → c ∉ (l ∷ xs)
    → c ∉ (m ∷ zs)
    → (g : Heap) × (insert_after l c h ≡ ok tt g) × IsPair g l m (c ∷ xs) zs
prepend-IsPair h l m c xs zs v ne o o' =
    let (g, runs, list, same) = insert_after-cons h l c xs v.first (v.others c ne o o') o in
    (
      g,
      runs,
      IsPair-step h g l m xs (c ∷ xs) zs (c ∷ l ∷ xs) v list same
          (λ d i. ground (arith, IsPair-apart v d i)) (λ d i. ground (arith, v.apart d))
          (λ d p i. absurd (ground arith)) (λ d p q. ground arith),
    )

-- `unlink` of a node that is on the first list.
pub unlink-IsPair :
    (h : Heap) (l m c : ℕ) (xs zs : List ℕ)
    → IsPair h l m xs zs
    → c ∈ xs
    → (g : Heap) × (unlink c h ≡ ok tt g) × IsPair g l m (erase c xs) zs
unlink-IsPair h l m c xs zs v i =
    let (ys, ts, here, gone) = erase-split c xs i in
    let (g, runs, list, blank, same) = unlink_lem h l ys c ts (subst (IsList h l) here v.first) in
    let on = λ (d : ℕ). has-append d ys (c ∷ ts) in
    let off = λ (d : ℕ). has-append d ys ts in
    (
      g,
      runs,
      rw gone (
          IsPair-step h g l m xs (ys ++ ts) zs (l ∷ ys ++ c ∷ ts) v list same
            (λ d j. subst (λ e. d ∉ (l ∷ e)) here (IsPair-apart v d j))
            (λ d j. v.apart d (subst (λ e. d ∈ (l ∷ e)) (sym here) (ground (arith, on d, off d))))
            (λ d p j. subst (IsBlank g) (ground (arith, on d, off d)) blank)
            (λ d p q. subst (λ e. d ∉ (l ∷ e)) (sym here) q)),
    )

-- `unlink` of a node that is on neither list: it stays alone.
pub unlink-alone-IsPair :
    (h : Heap) (l m c : ℕ) (xs zs : List ℕ)
    → IsPair h l m xs zs
    → c ≢ null
    → c ∉ (l ∷ xs)
    → c ∉ (m ∷ zs)
    → (g : Heap) × (unlink c h ≡ ok tt g) × IsPair g l m xs zs
unlink-alone-IsPair h l m c xs zs v ne o o' =
    let g = blanked h c in
    let same : SameOutside (c ∷ []) h g = λ d p. ground arith in
    (
      g,
      unlink-alone h c (ground arith) (v.others c ne o o').1,
      IsPair-step h g l m xs xs zs (c ∷ []) v
          (IsList-frame h g l xs (c ∷ []) v.first same (λ d i. ground (arith, o))) same
          (λ d i. ground (arith, o')) v.apart (λ d p i. ground arith) (λ d p q. p),
    )

-- The pops of the second list.
pub pop_front-IsPair :
    (h : Heap) (l m z : ℕ) (xs zs : List ℕ)
    → IsPair h l m xs (z ∷ zs)
    → (g : Heap) × (pop_front m h ≡ ok (some z) g) × IsPair g l m xs zs
pop_front-IsPair h l m z xs zs v =
    let (g, runs, list, blank, same) = pop_front-cons h m z zs v.second in
    let w = IsPair-swap v in
    (
      g,
      runs,
      IsPair-swap (
          IsPair-step h g m l (z ∷ zs) zs xs (m ∷ z ∷ zs) w list same (IsPair-apart w)
            (λ d i. w.apart d (ground arith)) (λ d p i. subst (IsBlank g) (ground arith) blank)
            (λ d p q. q)),
    )

pub pop_back-IsPair :
    (h : Heap) (l m z : ℕ) (xs zs : List ℕ)
    → IsPair h l m xs (snoc zs z)
    → (g : Heap) × (pop_back m h ≡ ok (some z) g) × IsPair g l m xs zs
pop_back-IsPair h l m z xs zs v =
    let (g, runs, list, blank, same) = pop_back-snoc h m z zs v.second in
    let w = IsPair-swap v in
    let on = λ (d : ℕ). has-append d zs (z ∷ []) in
    (
      g,
      runs,
      IsPair-swap (
          IsPair-step h g m l (snoc zs z) zs xs (m ∷ snoc zs z) w list same (IsPair-apart w)
            (λ d i. w.apart d (ground (arith, on d)))
            (λ d p i. subst (IsBlank g) (ground (arith, on d)) blank) (λ d p q. q)),
    )

-- `take_from` into the second list, which is empty.
pub take_from-IsPair :
    (h : Heap) (l m : ℕ) (xs : List ℕ)
    → IsPair h l m xs []
    → (g : Heap) × (take_from m l h ≡ ok tt g) × IsPair g l m [] xs
take_from-IsPair h l m [] v =
    (h, take_from-nil h m l (λ e. absurd (ground (arith, v.apart l))) v.second v.first, v)
take_from-IsPair h l m (x ∷ xs) v =
    let ne : m ≢ l = λ e. absurd (ground (arith, v.apart l)) in
    let (g, runs, list, blank, same) =
      take_from-cons h m l ne x xs v.second v.first (ground (arith, IsPair-apart v m)) in
    let d = (ring h l [] x xs v.first).distinct.0 in
    (
      g,
      runs,
      record {
        first = inr (refl, blank);
        second = list;
        apart = λ c i. ground (arith, d, ne);
        others = λ c real o o'. ground (arith, same c, v.others c real);
      },
    )
