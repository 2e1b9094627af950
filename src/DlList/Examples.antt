-- ===== src/DlList/Examples.antt =====
-- Operations on a concrete ring.
use rust_fumio.Prelude.{◌≡◌, refl, inl, inr, List, [], ◌∷◌, update, arith}
use rust_fumio.DlList.{Heap, ok}
use rust_fumio.DlList.Ring.{IsList}
use rust_fumio.DlList.Deque.{
  Op, push_front, push_back, take_front, take_back, remove, IsDeque, IsLegal, deque_run, list_run,
  list_run-refines,
}
use rust_fumio.DlList.Pair as Pair
use rust_fumio.DlList.Pair.{IsPair}
use rust_fumio.DlList.Pair.Refine as Refine
use rust_fumio.DlList.Pair.Refine.{pair_run, links_run, links_run-refines}

-- The head 1 with the nodes 2 and 3 on it; all other nodes are blank.
abbrev ring_heap : Heap
ring_heap = record {
  next = update (update (update (λ _. 0) 1 2) 2 3) 3 1;
  prev = update (update (update (λ _. 0) 1 3) 2 1) 3 2;
}

ring_heap-IsList : IsList ring_heap 1 (2 ∷ 3 ∷ [])
ring_heap-IsList = inl (record {
  seg = (refl, refl, (refl, refl, (refl, refl)));
  distinct = (refl, (refl, (refl, tt)));
  real = refl;
})

abbrev blank_heap : Heap
blank_heap = record { next = λ _. 0; prev = λ _. 0 }

ring_heap-IsDeque : IsDeque ring_heap 1 (2 ∷ 3 ∷ [])
ring_heap-IsDeque = record { list = ring_heap-IsList; others = λ c ne o. ground arith }

abbrev operations : List Op
operations = push_front 4 ∷ remove 2 ∷ take_back ∷ push_back 2 ∷ take_front ∷ []

operations-IsLegal : IsLegal 1 operations (2 ∷ 3 ∷ [])
operations-IsLegal = ((ground arith, refl), (refl, (tt, ((ground arith, refl), (tt, tt)))))

list_run_example :
    (g : Heap) × (list_run 1 operations ring_heap ≡ ok (deque_run operations (2 ∷ 3 ∷ [])).0 g)
    × IsDeque g 1 (deque_run operations (2 ∷ 3 ∷ [])).1
list_run_example =
    list_run-refines operations ring_heap 1 (2 ∷ 3 ∷ []) ring_heap-IsDeque operations-IsLegal

blank-IsPair : IsPair blank_heap 1 2 [] []
blank-IsPair = record {
  first = inr (refl, (ground arith, refl, refl));
  second = inr (refl, (ground arith, refl, refl));
  apart = λ c i. ground arith;
  others = λ c ne o o'. (ne, refl);
}

-- Two notifications, a round that ends in a panic after its first task, and what follows.
abbrev round_trip : List Pair.Op
round_trip =
    Pair.append 3
    ∷ Pair.append 4
    ∷ Pair.append 3
    ∷ Pair.take_all
    ∷ Pair.next_task
    ∷ Pair.append 3
    ∷ Pair.clear 3
    ∷ Pair.last_task
    ∷ Pair.prepend 4
    ∷ []

round_trip-IsLegal : Refine.IsLegal 1 2 round_trip [] []
round_trip-IsLegal = (
  (ground arith, refl),
  (
    (ground arith, refl),
    (
      (ground arith, refl),
      (
        refl,
        (tt, ((ground arith, refl), ((ground arith, refl), (tt, ((ground arith, refl), tt))))),
      ),
    ),
  ),
)

links_run_example :
    let (replies, ps, qs) = pair_run round_trip [] [] in
    (g : Heap) × (links_run 1 2 round_trip blank_heap ≡ ok replies g) × IsPair g 1 2 ps qs
links_run_example =
    links_run-refines round_trip blank_heap 1 2 [] [] blank-IsPair round_trip-IsLegal
