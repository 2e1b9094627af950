-- ===== src/DlList/Insert.antt =====
-- `insert_after` and `insert_before`: a lone node enters a list at its front or its back.
use rust_fumio.Prelude.{
  ℕ, ◌≡◌, refl, ◌≢◌, inl, inr, true, false, List, [], ◌∷◌, arith, ◌==◌, ◌∉◌, has-append, IsDistinct,
  IsDistinct-append, snoc, update, ==_refl, ==_ne,
}
use rust_fumio.DlList.{Heap, ok, null, init, insert_after, insert_before}
use rust_fumio.DlList.Cells.{cells}
use rust_fumio.DlList.Ring.{
  Seg, IsRing, IsList, IsAlone, SameOutside, Seg-frame, Seg-redirect, Seg-append, ring-next,
  ring-prev, ring-real, ring-next_real, ring-prev_real,
}

-- The heaps that the operations leave behind.
abbrev selfed : Heap → ℕ → Heap
selfed h l = record { prev = update h.prev l l; next = update h.next l l }

abbrev before : Heap → ℕ → ℕ → Heap
before h l node = record {
  prev = update (update h.prev node (h.prev l)) l node;
  next = update (update h.next node l) (h.prev l) node;
}

abbrev after : Heap → ℕ → ℕ → Heap
after h l node = record {
  prev = update (update h.prev node l) (h.next l) node;
  next = update (update h.next node (h.next l)) l node;
}

-- Before it links a node, the head is made a ring of its own if it has no cells yet.
record Started (h : Heap) (l : ℕ) (xs : List ℕ) : Type 0 where
  heap : Heap
  runs : init l h ≡ ok tt heap
  ring : IsRing heap l xs
  same : SameOutside (l ∷ []) h heap

init-ring : (h : Heap) (l : ℕ) (xs : List ℕ) → IsRing h l xs → init l h ≡ ok tt h
unfolding init
init-ring h l xs r = simp (cells, ring-real h l xs r, ring-next_real h l xs r)

init-blank :
    (h : Heap) (l : ℕ)
    → (l == null) ≡ false
    → (h.next l == null) ≡ true
    → init l h ≡ ok tt (selfed h l)
unfolding init
init-blank h l e f = simp (cells, e, f)

start : (h : Heap) (l : ℕ) (xs : List ℕ) → IsList h l xs → Started h l xs
start h l xs (inl r) = record {
  heap = h;
  runs = init-ring h l xs r;
  ring = r;
  same = λ c o. (refl, refl);
}
start h l [] (inr b) = record {
  heap = selfed h l;
  runs = init-blank h l (==_ne l null b.1.0) (ground arith);
  ring = record { seg = ground arith; distinct = (refl, tt); real = ground arith };
  same = λ c o. ground arith;
}
start h l (x ∷ xs) (inr b) = absurd (cc)

module _ (h g : Heap) (l node : ℕ) (xs : List ℕ) (runs : init l h ≡ ok tt g) (r : IsRing g l xs)
    (alone : IsAlone h node) (out : node ∉ (l ∷ xs)) where
  insert_before-ok : insert_before l node h ≡ ok tt (before g l node)
  unfolding insert_before
  insert_before-ok =
      let e1 : (node == null) ≡ false = ground arith in
      let e2 = ring-real g l xs r in
      let e4 = ring-prev_real g l xs r in
      let e6 : (l == node) ≡ false = ground arith in
      simp (cells, e1, alone.1, e2, runs, e4, e6, ==_refl node)

  insert_after-ok : insert_after l node h ≡ ok tt (after g l node)
  unfolding insert_after
  insert_after-ok =
      let e1 : (node == null) ≡ false = ground arith in
      let e2 = ring-real g l xs r in
      let e3 = ring-next_real g l xs r in
      let e6 : (l == node) ≡ false = ground arith in
      simp (cells, e1, alone.1, e2, runs, e3, e6, ==_refl node)

after-Seg :
    (h : Heap) (l node : ℕ) (xs : List ℕ)
    → Seg h l xs l
    → IsDistinct (l ∷ xs)
    → node ∉ (l ∷ xs)
    → Seg (after h l node) l (node ∷ xs) l
after-Seg h l node [] s d out = ground arith
after-Seg h l node (x ∷ xs) s d out = (
  ground arith,
  ground arith,
  (
    ground arith,
    ground arith,
    Seg-frame h (after h l node) x xs l s.2 (λ c i. ground (arith, d.0))
        (λ c i. ground (arith, has-append c xs (l ∷ []), d.0, d.1.0)),
  ),
)

module _ (h : Heap) (l node : ℕ) (xs : List ℕ) (r : IsRing h l xs) (real : node ≢ null)
    (out : node ∉ (l ∷ xs)) where
  before-IsRing : IsRing (before h l node) l (snoc xs node)
  before-IsRing = record {
    seg =
        Seg-append (before h l node) l xs node [] l
          (Seg-redirect h (before h l node) l xs l node r.seg r.distinct (λ c i ne. ground arith)
            (λ c i. ground (arith, r.distinct.0)) (ground arith) (ground arith))
          (ground (arith, ring-prev h l xs r));
    distinct = (
      ground (arith, has-append l xs (node ∷ []), r.distinct.0),
      IsDistinct-append xs (node ∷ []) r.distinct.1 (refl, tt) (λ a i. ground arith),
    );
    real = ground (arith, has-append null xs (node ∷ []), r.real);
  }

  after-IsRing : IsRing (after h l node) l (node ∷ xs)
  after-IsRing = record {
    seg = after-Seg h l node xs r.seg r.distinct out;
    distinct = ground (arith, r.distinct.0, r.distinct.1);
    real = ground (arith, r.real);
  }

module _ (h : Heap) (l node : ℕ) (xs : List ℕ) (is : IsList h l xs) (alone : IsAlone h node)
    (out : node ∉ (l ∷ xs)) where
  -- On a list, `insert_before` at the head succeeds, puts a lone node at the back, and writes only
  -- to the node and the list.
  pub insert_before-snoc :
      (g : Heap) × (insert_before l node h ≡ ok tt g)
      × IsList g l (snoc xs node)
      × SameOutside (node ∷ l ∷ xs) h g
  insert_before-snoc =
      let s = start h l xs is in
      (
        before s.heap l node,
        insert_before-ok h s.heap l node xs s.runs s.ring alone out,
        inl (before-IsRing s.heap l node xs s.ring alone.0 out),
        λ c o. ground (arith, s.same c, ring-prev s.heap l xs s.ring),
      )

  -- On a list, `insert_after` at the head succeeds, puts a lone node at the front, and writes only
  -- to the node and the list.
  pub insert_after-cons :
      (g : Heap) × (insert_after l node h ≡ ok tt g)
      × IsList g l (node ∷ xs)
      × SameOutside (node ∷ l ∷ xs) h g
  insert_after-cons =
      let s = start h l xs is in
      (
        after s.heap l node,
        insert_after-ok h s.heap l node xs s.runs s.ring alone out,
        inl (after-IsRing s.heap l node xs s.ring alone.0 out),
        λ c o. ground (arith, s.same c, ring-next s.heap l xs s.ring),
      )
