-- ===== src/DlList/Unlink.antt =====
-- `unlink`: a node leaves the list that it is on, wherever it stands, and is blank afterwards.
use rust_fumio.Prelude.{
  ℕ, ◌≡◌, inl, inr, true, false, ◌||◌, List, [], ◌∷◌, ◌++◌, arith, ◌==◌, ◌∈◌, ◌∉◌, has-append,
  IsDistinct, IsDistinct-append, IsDistinct-left, IsDistinct-right, IsDistinct-apart, snoc, update,
  append-nil, Bool-cases, has,
}
use rust_fumio.DlList.{Heap, ok, null, bridge, unlink}
use rust_fumio.DlList.Cells.{cells}
use rust_fumio.DlList.Ring.{
  Seg, IsRing, IsList, IsBlank, SameOutside, Seg-frame, Seg-redirect, Seg-append, Seg-split,
  prev-mem, next-mem,
}

abbrev pub blanked : Heap → ℕ → Heap
blanked h y = record { prev = update h.prev y null; next = update h.next y null }

abbrev bridged : Heap → ℕ → Heap
bridged h y = record {
  prev = update h.prev (h.next y) (h.prev y);
  next = update h.next (h.prev y) (h.next y);
}

module _ (h : Heap) (y : ℕ) (real : (y == null) ≡ false) where
  pub unlink-alone :
      (◌||◌ (h.next y == null) (h.next y == y)) ≡ true → unlink y h ≡ ok tt (blanked h y)
  unfolding unlink
  unlink-alone alone = simp (cells, real, alone)

  unlink-linked :
      (h.next y == null) ≡ false
      → (h.next y == y) ≡ false
      → (h.prev y == null) ≡ false
      → (h.prev y == y) ≡ false
      → unlink y h ≡ ok tt (blanked (bridged h y) y)
  unfolding unlink bridge
  unlink-linked e1 e2 e3 e4 = simp (cells, real, e1, e2, e3, e4)

-- What the ring `l`, `xs`, `y`, `ys` says of its parts.
module _ (l y : ℕ) (xs ys : List ℕ) (d : IsDistinct (l ∷ xs ++ y ∷ ys)) where
  apart-left : y ∉ (l ∷ xs)
  apart-left = ground (
    arith,
    d.0,
    has-append l xs (y ∷ ys),
    IsDistinct-apart xs (y ∷ ys) d.1 y,
    Bool-cases (has y xs),
  )

  apart-right : y ∉ ys
  apart-right = (IsDistinct-right xs (y ∷ ys) d.1).0

  left-IsDistinct : IsDistinct (l ∷ xs)
  left-IsDistinct = (ground (arith, d.0, has-append l xs (y ∷ ys)), IsDistinct-left xs (y ∷ ys) d.1)

  head-apart : l ∉ ys
  head-apart = ground (arith, d.0, has-append l xs (y ∷ ys))

  parts-apart : (c : ℕ) → c ∈ xs → c ∉ ys
  parts-apart c i = ground (arith, IsDistinct-apart xs (y ∷ ys) d.1 c)

  rest-IsDistinct : IsDistinct (l ∷ xs ++ ys)
  rest-IsDistinct = (
    ground (arith, has-append l xs ys, left-IsDistinct.0, head-apart),
    IsDistinct-append xs ys left-IsDistinct.1 (IsDistinct-right xs (y ∷ ys) d.1).1 parts-apart,
  )

-- The ring without `y`.
without-Seg :
    (h : Heap) (l y : ℕ) (xs ys : List ℕ)
    → Seg h l xs y
    → Seg h y ys l
    → IsDistinct (l ∷ xs ++ y ∷ ys)
    → Seg (blanked (bridged h y) y) l (xs ++ ys) l
without-Seg h l y xs [] s t d =
    let last = prev-mem h l xs y s in
    let out = apart-left l y xs [] d in
    let own = left-IsDistinct l y xs [] d in
    rw append-nil (
      Seg-redirect h (blanked (bridged h y) y) l xs y l s own (λ c i ne. ground arith)
        (λ c i. ground (arith, own.0)) (ground arith) (ground arith))
without-Seg h l y xs (z ∷ zs) s t d =
    let last = prev-mem h l xs y s in
    let out = apart-left l y xs (z ∷ zs) d in
    let out' = apart-right l y xs (z ∷ zs) d in
    let own = left-IsDistinct l y xs (z ∷ zs) d in
    let top = head-apart l y xs (z ∷ zs) d in
    let own' = (IsDistinct-right xs (y ∷ z ∷ zs) d.1).1 in
    let g : Heap = blanked (bridged h y) y in
    Seg-append g l xs z zs l
      (Seg-redirect h g l xs y z s own (λ c i ne. ground arith)
        (λ c i. ground (arith, parts-apart l y xs (z ∷ zs) d c)) (ground arith) (ground arith))
      (Seg-frame h g z zs l t.2 (λ c i. ground (arith, parts-apart l y xs (z ∷ zs) d c))
        (λ c i. ground (arith, has-append c zs (l ∷ []))))

-- A list with a node on it is a ring.
IsList-IsRing :
    (h : Heap) (l : ℕ) (xs : List ℕ) (y : ℕ) (ys : List ℕ)
    → IsList h l (xs ++ y ∷ ys)
    → IsRing h l (xs ++ y ∷ ys)
IsList-IsRing h l xs y ys (inl r) = r
IsList-IsRing h l [] y ys (inr b) = absurd (cc)
IsList-IsRing h l (x ∷ xs) y ys (inr b) = absurd (cc)

module _ (h : Heap) (l : ℕ) (xs : List ℕ) (y : ℕ) (ys : List ℕ)
    (is : IsList h l (xs ++ y ∷ ys)) where
  pub ring : IsRing h l (xs ++ y ∷ ys)
  ring = IsList-IsRing h l xs y ys is

  pub before-y : Seg h l xs y
  before-y = (Seg-split h l xs y ys l ring.seg).0

  pub after-y : Seg h y ys l
  after-y = (Seg-split h l xs y ys l ring.seg).1

  pub real-all : (null ∉ (l ∷ xs)) × (null ∉ ys) × ((y == null) ≡ false)
  real-all = ground (arith, ring.real, has-append null xs (y ∷ ys))

  next-in : h.next y ∈ snoc ys l
  next-in = next-mem h y ys l after-y

  prev-in : h.prev y ∈ (l ∷ xs)
  prev-in = prev-mem h l xs y before-y

  -- `is_unlinked` is false of a node that is on a list.
  pub member-linked : ((h.next y == null) ≡ false) × ((h.next y == y) ≡ false)
  member-linked =
      let out = apart-left l y xs ys ring.distinct in
      let out' = apart-right l y xs ys ring.distinct in
      (
        ground (arith, next-in, real-all, has-append (h.next y) ys (l ∷ [])),
        ground (arith, next-in, has-append (h.next y) ys (l ∷ [])),
      )

  unlink-runs : unlink y h ≡ ok tt (blanked (bridged h y) y)
  unlink-runs =
      let out = apart-left l y xs ys ring.distinct in
      unlink-linked h y real-all.2 member-linked.0 member-linked.1
        (ground (arith, prev-in, real-all)) (ground (arith, prev-in))

  -- `unlink` of a node of a list succeeds wherever the node stands. It takes that node and no other
  -- off the list, leaves its cells null, and writes only to the list.
  pub unlink_lem :
      (g : Heap) × (unlink y h ≡ ok tt g)
      × IsList g l (xs ++ ys)
      × IsBlank g y
      × SameOutside (l ∷ xs ++ y ∷ ys) h g
  unlink_lem = (
    blanked (bridged h y) y,
    unlink-runs,
    inl (record {
      seg = without-Seg h l y xs ys before-y after-y ring.distinct;
      distinct = rest-IsDistinct l y xs ys ring.distinct;
      real = ground (arith, real-all, has-append null xs ys);
    }),
    ground (arith, real-all),
    λ c o.
        ground
          (arith, prev-in, next-in, has-append c xs (y ∷ ys), has-append (h.next y) ys (l ∷ [])),
  )
