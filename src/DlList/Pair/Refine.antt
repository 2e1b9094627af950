-- ===== src/DlList/Pair/Refine.antt =====
-- Sequences of the pool's operations on its two lists, against two lists of numbers.
use rust_fumio.Prelude.{
  ℕ, ◌≡◌, refl, ◌≢◌, inl, inr, List, [], ◌∷◌, arith, ◌∉◌, has, erase, Option, subst, Bool-cases,
  ◌||◌, erase_out,
}
use rust_fumio.DlList.{Heap, M, ok, null, unlink, pure, ◌>>=◌}
use rust_fumio.DlList.Pop.{pop-nil}
use rust_fumio.DlList.Deque.{last_of-snoc, front_of-snoc, snoc-cases}
use rust_fumio.DlList.Pair.{
  Op, append, prepend, take_all, next_task, last_task, clear, pair_step, queue_at, links_step,
  IsPair, IsPair-swap,
}
use rust_fumio.DlList.Pair.Moves.{
  is_unlinked-pair, append-IsPair, prepend-IsPair, unlink-IsPair, unlink-alone-IsPair,
  pop_front-IsPair, pop_back-IsPair, take_from-IsPair,
}

pub pair_run : List Op → List ℕ → List ℕ → List (Option ℕ) × List ℕ × List ℕ
pair_run [] ps qs = ([], ps, qs)
pair_run (op ∷ ops) ps qs =
    let (reply, ps', qs') = pair_step op ps qs in
    let (replies, end, end') = pair_run ops ps' qs' in (reply ∷ replies, end, end')

pub links_run : ℕ → ℕ → List Op → M (List (Option ℕ))
unfolding links_step
links_run l m [] = pure []
links_run l m (op ∷ ops) = do
  reply ← links_step l m op
  replies ← links_run l m ops
  pure (reply ∷ replies)

-- A task is at an address of its own, and a round takes the pending tasks when the last has ended.
abbrev pub IsAllowed : ℕ → ℕ → Op → List ℕ → Type 0
IsAllowed l m (append node) qs = (node ≢ null) × (node ∉ (l ∷ m ∷ []))
IsAllowed l m (prepend node) qs = (node ≢ null) × (node ∉ (l ∷ m ∷ []))
IsAllowed l m take_all qs = qs ≡ []
IsAllowed l m next_task qs = Unit
IsAllowed l m last_task qs = Unit
IsAllowed l m (clear node) qs = (node ≢ null) × (node ∉ (l ∷ m ∷ []))

abbrev pub IsLegal : ℕ → ℕ → List Op → List ℕ → List ℕ → Type 0
IsLegal l m [] ps qs = Unit
IsLegal l m (op ∷ ops) ps qs =
    IsAllowed l m op qs × IsLegal l m ops (pair_step op ps qs).1 (pair_step op ps qs).2

-- The outcome of `run`: a reply, and a heap that holds the two lists.
abbrev Gives : {A : Type 0} → ℕ → ℕ → M A → Heap → A → List ℕ → List ℕ → Type 0
Gives l m run h reply ps qs = (g : Heap) × (run h ≡ ok reply g) × IsPair g l m ps qs

links-append :
    (h : Heap) (l m node : ℕ) (ps qs : List ℕ)
    → IsPair h l m ps qs
    → IsAllowed l m (append node) qs
    → let (reply, ps', qs') = pair_step (append node) ps qs in
      Gives l m (links_step l m (append node)) h reply ps' qs'
unfolding links_step queue_at
links-append h l m node ps qs v a =
    let tests = is_unlinked-pair h l m node ps qs v a.0 a.1 in
    elim (Bool-cases (has node ps || has node qs)) [
      | inl i ↦ rw i (h, simp (tests, i), v)
      | inr i ↦
          let (g, runs, w) = append-IsPair h l m node ps qs v a.0 (ground arith) (ground arith) in
          rw i (g, simp (tests, i, runs), w)
    ]

links-prepend :
    (h : Heap) (l m node : ℕ) (ps qs : List ℕ)
    → IsPair h l m ps qs
    → IsAllowed l m (prepend node) qs
    → let (reply, ps', qs') = pair_step (prepend node) ps qs in
      Gives l m (links_step l m (prepend node)) h reply ps' qs'
unfolding links_step queue_at
links-prepend h l m node ps qs v a =
    let tests = is_unlinked-pair h l m node ps qs v a.0 a.1 in
    elim (Bool-cases (has node ps || has node qs)) [
      | inl i ↦ rw i (h, simp (tests, i), v)
      | inr i ↦
          let (g, runs, w) = prepend-IsPair h l m node ps qs v a.0 (ground arith) (ground arith) in
          rw i (g, simp (tests, i, runs), w)
    ]

unlink-both :
    (h : Heap) (l m node : ℕ) (ps qs : List ℕ)
    → IsPair h l m ps qs
    → IsAllowed l m (clear node) qs
    → Gives l m (unlink node) h tt (erase node ps) (erase node qs)
unlink-both h l m node ps qs v a = elim (Bool-cases (has node ps)) [
  | inl i ↦
      rw (erase_out node qs (ground (arith, v.apart node))) (unlink-IsPair h l m node ps qs v i)
  | inr o ↦ elim (Bool-cases (has node qs)) [
    | inl i ↦
        let (g, runs, w) = unlink-IsPair h m l node qs ps (IsPair-swap v) i in
        rw (erase_out node ps o) (g, runs, IsPair-swap w)
    | inr o' ↦
        rw (erase_out node ps o, erase_out node qs o')
          (unlink-alone-IsPair h l m node ps qs v a.0 (ground arith) (ground arith))
  ]
]

links-step :
    (op : Op) (h : Heap) (l m : ℕ) (ps qs : List ℕ)
    → IsPair h l m ps qs
    → IsAllowed l m op qs
    → let (reply, ps', qs') = pair_step op ps qs in Gives l m (links_step l m op) h reply ps' qs'
unfolding links_step
links-step (append node) h l m ps qs v a = links-append h l m node ps qs v a
links-step (prepend node) h l m ps qs v a = links-prepend h l m node ps qs v a
links-step take_all h l m ps qs v a =
    let (g, runs, w) = take_from-IsPair h l m ps (subst (λ q. IsPair h l m ps q) a v) in
    (g, rw runs refl, w)
links-step next_task h l m ps [] v a = (h, (pop-nil h m v.second).0, v)
links-step next_task h l m ps (q ∷ qs) v a = pop_front-IsPair h l m q ps qs v
links-step last_task h l m ps qs v a = elim (snoc-cases qs) [
  | inl e ↦ let w = subst (λ q. IsPair h l m ps q) e v in rw e (h, (pop-nil h m w.second).1, w)
  | inr (rs, q, e) ↦
      rw (e, last_of-snoc rs q, front_of-snoc rs q)
        (pop_back-IsPair h l m q ps rs (subst (λ q. IsPair h l m ps q) e v))
]
links-step (clear node) h l m ps qs v a =
    let (g, runs, w) = unlink-both h l m node ps qs v a in (g, rw runs refl, w)

-- Two heads over one kind of link, whose nodes are `ps` and `qs`, with every other node alone, give the
-- replies of two lists of numbers, and hold them again: for any sequence of insertions into the
-- first unless the node is on either list, at both ends, of moving the first list into the empty
-- second, of pops from the second at both ends, and of unlinking a node wherever it is. No
-- assertion fails, and no null pointer is read.
pub links_run-refines :
    (ops : List Op) (h : Heap) (l m : ℕ) (ps qs : List ℕ)
    → IsPair h l m ps qs
    → IsLegal l m ops ps qs
    → let (replies, ps', qs') = pair_run ops ps qs in
      (g : Heap) × (links_run l m ops h ≡ ok replies g) × IsPair g l m ps' qs'
unfolding links_run pair_run
links_run-refines [] h l m ps qs v legal = (h, refl, v)
links_run-refines (op ∷ ops) h l m ps qs v legal =
    let (h1, runs, v1) = links-step op h l m ps qs v legal.0 in
    let (g, runs', v') =
      links_run-refines ops h1 l m (pair_step op ps qs).1 (pair_step op ps qs).2 v1 legal.1 in
    (g, rw (runs, runs') refl, v')
