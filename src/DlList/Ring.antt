-- ===== src/DlList/Ring.antt =====
-- What a list of local_dl_list.rs stands for: segments of nodes, rings, lists behind a head, and
-- how a segment survives writes elsewhere or is led to another end.
use rust_fumio.Prelude.{
  ℕ, ◌≡◌, ◌≢◌, ◌⊎◌, inl, inr, true, false, ◌||◌, List, [], ◌∷◌, ◌++◌, arith, ◌==◌, ◌∈◌, ◌∉◌,
  has-append, IsDistinct, snoc, ==_of_mem,
}
use rust_fumio.DlList.{Heap, null}

-- From `a` the `next` cells lead through `xs` to `b`, and the `prev` cells lead back.
abbrev pub Seg : Heap → ℕ → List ℕ → ℕ → Type 0
Seg h a [] b = (h.next a ≡ b) × (h.prev b ≡ a)
Seg h a (x ∷ xs) b = (h.next a ≡ x) × (h.prev x ≡ a) × Seg h x xs b

pub record IsRing (h : Heap) (l : ℕ) (xs : List ℕ) : Type 0 where
  pub seg : Seg h l xs l
  pub distinct : IsDistinct (l ∷ xs)
  pub real : null ∉ (l ∷ xs)

-- A head that was never used, or that was unlinked, has null cells.
abbrev pub IsBlank : Heap → ℕ → Type 0
IsBlank h a = (a ≢ null) × (h.next a ≡ null) × (h.prev a ≡ null)

abbrev pub IsList : Heap → ℕ → List ℕ → Type 0
IsList h l xs = IsRing h l xs ⊎ (xs ≡ []) × IsBlank h l

-- What `is_unlinked` tests.
abbrev pub IsAlone : Heap → ℕ → Type 0
IsAlone h a = (a ≢ null) × ((h.next a == null || h.next a == a) ≡ true)

-- `g` differs from `h` at most at the addresses of `xs`.
abbrev pub SameOutside : List ℕ → Heap → Heap → Type 0
SameOutside xs h g = (c : ℕ) → c ∉ xs → (g.next c ≡ h.next c) × (g.prev c ≡ h.prev c)

module _ (h : Heap) where
  pub Seg-frame :
      (g : Heap) (a : ℕ) (xs : List ℕ) (b : ℕ)
      → Seg h a xs b
      → ((c : ℕ) → c ∈ (a ∷ xs) → g.next c ≡ h.next c)
      → ((c : ℕ) → c ∈ snoc xs b → g.prev c ≡ h.prev c)
      → Seg g a xs b
  Seg-frame g a [] b s n p = ground (arith, n a, p b)
  Seg-frame g a (x ∷ xs) b s n p = (
    ground (arith, n a),
    ground (arith, p x),
    Seg-frame g x xs b s.2 (λ c i. n c (ground arith)) (λ c i. p c (ground arith)),
  )

  pub Seg-append :
      (a : ℕ) (xs : List ℕ) (y : ℕ) (ys : List ℕ) (b : ℕ)
      → Seg h a xs y
      → Seg h y ys b
      → Seg h a (xs ++ y ∷ ys) b
  Seg-append a [] y ys b s t = (s.0, s.1, t)
  Seg-append a (x ∷ xs) y ys b s t = (s.0, s.1, Seg-append x xs y ys b s.2 t)

  pub Seg-split :
      (a : ℕ) (xs : List ℕ) (y : ℕ) (ys : List ℕ) (b : ℕ)
      → Seg h a (xs ++ y ∷ ys) b
      → Seg h a xs y × Seg h y ys b
  Seg-split a [] y ys b s = ((s.0, s.1), s.2)
  Seg-split a (x ∷ xs) y ys b s =
      let (front, back) = Seg-split x xs y ys b s.2 in ((s.0, s.1, front), back)

  -- The node before the end of a segment is its start or one of its nodes.
  pub prev-mem : (a : ℕ) (xs : List ℕ) (b : ℕ) → Seg h a xs b → h.prev b ∈ (a ∷ xs)
  prev-mem a [] b s = ground arith
  prev-mem a (x ∷ xs) b s = ground (arith, prev-mem x xs b s.2)

  pub next-mem : (a : ℕ) (xs : List ℕ) (b : ℕ) → Seg h a xs b → h.next a ∈ snoc xs b
  next-mem a [] b s = ground arith
  next-mem a (x ∷ xs) b s = ground arith

  -- In `g` the last node of the segment leads to `z` instead, and `z` leads back to it.
  pub Seg-redirect :
      (g : Heap) (a : ℕ) (xs : List ℕ) (b z : ℕ)
      → Seg h a xs b
      → IsDistinct (a ∷ xs)
      → ((c : ℕ) → c ∈ (a ∷ xs) → c ≢ h.prev b → g.next c ≡ h.next c)
      → ((c : ℕ) → c ∈ xs → g.prev c ≡ h.prev c)
      → g.next (h.prev b) ≡ z
      → g.prev z ≡ h.prev b
      → Seg g a xs z
  Seg-redirect g a [] b z s d n p e f = ground arith
  Seg-redirect g a (x ∷ xs) b z s d n p e f =
      let last : h.prev b ∈ (x ∷ xs) = prev-mem x xs b s.2 in
      (
        ground (arith, n a),
        ground (arith, p x),
        Seg-redirect g x xs b z s.2 d.1 (λ c i ne. n c (ground arith) ne)
            (λ c i. p c (ground arith)) e f,
      )

  -- A list is not touched by writes elsewhere.
  pub IsList-frame :
      (g : Heap) (l : ℕ) (xs ws : List ℕ)
      → IsList h l xs
      → SameOutside ws h g
      → ((c : ℕ) → c ∈ (l ∷ xs) → c ∉ ws)
      → IsList g l xs
  IsList-frame g l xs ws (inl r) same apart = inl (record {
    seg =
        Seg-frame g l xs l r.seg (λ c i. (same c (apart c i)).0)
          (λ c i. (same c (apart c (ground (arith, has-append c xs (l ∷ []))))).1);
    distinct = r.distinct;
    real = r.real;
  })
  IsList-frame g l xs ws (inr b) same apart =
      inr (b.0, (b.1.0, ground (arith, same l, apart l), ground (arith, same l, apart l)))

  -- In a ring the neighbours of the start are real nodes of it.
  pub ring-next : (l : ℕ) (xs : List ℕ) → IsRing h l xs → h.next l ∈ (l ∷ xs)
  ring-next l xs r = ground (arith, next-mem l xs l r.seg, has-append (h.next l) xs (l ∷ []))

  pub ring-prev : (l : ℕ) (xs : List ℕ) → IsRing h l xs → h.prev l ∈ (l ∷ xs)
  ring-prev l xs r = prev-mem l xs l r.seg

  pub ring-next_real : (l : ℕ) (xs : List ℕ) → IsRing h l xs → (h.next l == null) ≡ false
  ring-next_real l xs r = ==_of_mem (h.next l) null (l ∷ xs) (ring-next l xs r) r.real

  pub ring-prev_real : (l : ℕ) (xs : List ℕ) → IsRing h l xs → (h.prev l == null) ≡ false
  ring-prev_real l xs r = ==_of_mem (h.prev l) null (l ∷ xs) (ring-prev l xs r) r.real

  pub ring-real : (l : ℕ) (xs : List ℕ) → IsRing h l xs → (l == null) ≡ false
  ring-real l xs r = ground (arith, r.real)
