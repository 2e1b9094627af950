-- ===== src/Mpsc/Pass.antt =====
-- One iterator over the queue, while links are pushed between its calls: how many links it returns.
use rust_fumio.Prelude.{
  ℕ, suc, ◌≡◌, refl, sym, ◌∙◌, ◌≢◌, true, List, [], ◌∷◌, ◌++◌, arith, ◌∉◌, snoc, append_assoc,
  subst,
}
use rust_fumio.Mpsc.{null, Head, PopAll, Next, push, item, finished, out_of_fuel, next_item}
use rust_fumio.Mpsc.Rounds.{Holds, round_last, round_break, pop-Holds, append_cons-ne, head-other}
use rust_fumio.Mpsc.Chain.{Chain}
use rust_fumio.Mpsc.Refine.{push-Holds}

-- Calls of `next` and pushes in any order, from `it` and `h` on; the links are those that the calls
-- returned. What is pushed is not queued: its cell is empty, and it is not the tail.
pub data Pass (it : PopAll) (h : Head) : List ℕ → PopAll → Head → Type 0 where
  begin : Pass it h [] it h
  pushed :
      {items : List ℕ} {it' : PopAll} {h' : Head} (link : ℕ)
      → Pass it h items it' h'
      → link ≢ null
      → h'.next link ≡ null
      → link ≢ h'.tail
      → Pass it h items it' (push link h')
  called :
      {items : List ℕ} {it' it2 : PopAll} {h' h2 : Head} (x : ℕ)
      → Pass it h items it' h'
      → next_item 2 it' h' ≡ item x it2 h2
      → Pass it h (snoc items x) it2 h2

-- The loop in `next` takes at most two rounds, from any state.
pub next_item-ends :
    (more : ℕ) (it : PopAll) (h : Head)
    → (next_item 2 it h ≢ out_of_fuel) × (next_item (suc (suc more)) it h ≡ next_item 2 it h)
unfolding next_item
next_item-ends more it h = ((λ e. ground (arith, e)), refl)

-- What is left of the pass: the links before the stub, which is not pushed a second time.
record IsLate (items front : List ℕ) (it : PopAll) (h : Head) : Type 0 where
  rest : List ℕ
  back : List ℕ
  holds : Holds h it.pos (rest ++ h.stub ∷ back)
  late : it.repushed_stub ≡ true
  so_far : items ++ rest ≡ front

at_stub :
    (it : PopAll) (h : Head) (back : List ℕ)
    → Holds h it.pos (h.stub ∷ back)
    → it.repushed_stub ≡ true
    → (it' : PopAll) × (h' : Head) × (next_item 2 it h ≡ finished it' h')
at_stub it h [] q late = (it, h, round_last h it 1 q.1)
at_stub it h (z ∷ zs) q late = (_, _, round_break h it 1 z zs q.1 (ground (arith, q.0)) late)

abbrev IsLateItem : List ℕ → List ℕ → Next → Type 0
IsLateItem items front (item x it h) = IsLate (snoc items x) front it h
IsLateItem items front (finished it h) = Unit
IsLateItem items front out_of_fuel = Unit

IsLate-item :
    (items front : List ℕ) (it it2 : PopAll) (h h2 : Head) (x : ℕ)
    → IsLate items front it h
    → next_item 2 it h ≡ item x it2 h2
    → IsLate (snoc items x) front it2 h2
IsLate-item items front it it2 h h2 x l e = next_link l.rest l.so_far l.holds
  where
    next_link :
        (rest : List ℕ)
        → items ++ rest ≡ front
        → Holds h it.pos (rest ++ h.stub ∷ l.back)
        → IsLate (snoc items x) front it2 h2
    next_link [] so_far q =
        let (it', h', ends) = at_stub it h l.back q l.late in absurd (ground (arith, ends, e))
    next_link (y ∷ rest) so_far q =
        let p =
          pop-Holds 1 h it y (rest ++ h.stub ∷ l.back) q (append_cons-ne rest h.stub l.back)
            (head-other h it.pos y rest l.back q) in
        let then : IsLate (snoc items y) front p.it p.queue = record {
          rest = rest;
          back = l.back;
          holds = rw p.same_stub p.holds;
          late = p.same_flag ∙ l.late;
          so_far = append_assoc items (y ∷ []) rest ∙ so_far;
        } in
        subst (IsLateItem items front) (sym p.result ∙ e) then

chain-out :
    (next : ℕ → ℕ) (a : ℕ) (xs : List ℕ) (tail link : ℕ)
    → Chain next (λ _. null) a xs tail
    → null ∉ (a ∷ xs)
    → next link ≡ null
    → link ≢ tail
    → link ∉ (a ∷ xs)
chain-out next a [] tail link c real clear last = ground arith
chain-out next a (x ∷ xs) tail link c real clear last =
    ground (arith, c.0, chain-out next x xs tail link c.1 (ground arith) clear last)

-- A link with an empty cell that is not the tail is not queued.
Holds-out :
    (h : Head) (pos : ℕ) (xs : List ℕ) (link : ℕ)
    → Holds h pos xs
    → h.next link ≡ null
    → link ≢ h.tail
    → link ∉ xs
Holds-out h pos [] link q clear last = refl
Holds-out h pos (x ∷ xs) link q clear last =
    subst (λ y. link ∉ (y ∷ xs)) q.0
      (chain-out h.next pos xs h.tail link q.1.chain q.1.real clear last)

IsLate-Pass :
    (front back : List ℕ) {it : PopAll} {h : Head} {items : List ℕ} {it' : PopAll} {h' : Head}
    → Pass it h items it' h'
    → it.repushed_stub ≡ true
    → Holds h it.pos (front ++ h.stub ∷ back)
    → IsLate items front it' h'
unfolding push
IsLate-Pass front back begin late q = record {
  rest = _;
  back = _;
  holds = q;
  late = late;
  so_far = refl;
}
IsLate-Pass front back (pushed {it' = it1} {h' = h1} link p ne clear last) late q =
    let l = IsLate-Pass front back p late q in
    record {
      rest = l.rest;
      back = snoc l.back link;
      holds =
          push-Holds h1 it1.pos l.rest l.back link l.holds ne
            (Holds-out h1 it1.pos (l.rest ++ h1.stub ∷ l.back) link l.holds clear last);
      late = l.late;
      so_far = l.so_far;
    }
IsLate-Pass front back (called x p e) late q =
    IsLate-item _ _ _ _ _ _ x (IsLate-Pass front back p late q) e

-- However many links are pushed meanwhile, an iterator that has pushed the stub again returns the
-- links that stand before the stub, in order, and no other: what it has returned is a first part of
-- them, and when it has returned them all, the next call ends it.
pub Pass-bounded :
    (front back : List ℕ) {it : PopAll} {h : Head} {items : List ℕ} {it' : PopAll} {h' : Head}
    → Pass it h items it' h'
    → it.repushed_stub ≡ true
    → Holds h it.pos (front ++ h.stub ∷ back)
    → (rest : List ℕ) × (items ++ rest ≡ front)
      × (rest ≡ [] → (it2 : PopAll) × (h2 : Head) × (next_item 2 it' h' ≡ finished it2 h2))
Pass-bounded front back {it' = it'} {h' = h'} p late q =
    let l = IsLate-Pass front back p late q in
    (
      l.rest,
      l.so_far,
      λ e.
          at_stub it' h' l.back (subst (λ r. Holds h' it'.pos (r ++ h'.stub ∷ l.back)) e l.holds)
            l.late,
    )
