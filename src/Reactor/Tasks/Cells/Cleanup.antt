-- ===== src/Reactor/Tasks/Cells/Cleanup.antt =====
-- `cleanup_tasks` on the cells of the two lists does what it does on the lists.
use rust_fumio.Prelude.{
  ℕ, ◌≡◌, ◌≢◌, refl, ap, subst, List, Option, none, some, update, has, snoc, erase, arith,
  Bool-cases, inl, inr,
}
use rust_fumio.Prelude.Flags.{and_not, any_bit}
use rust_fumio.Mpsc.{Head}
use rust_fumio.DlList.{null}
use rust_fumio.DlList.Deque.{IsDeque}
use rust_fumio.DlList.Guarded.{append_unlinked-IsDeque, unlink_linked-IsDeque}
use rust_fumio.Reactor.Tasks.{
  Tasks, state_deregistered, state_queued, local_add, local_remove, cleanup_one,
}
use rust_fumio.Reactor.Tasks.Cells.{
  Cells, drop_ref, cells_local_add, cells_local_remove, cells_cleanup_one,
}

-- The tasks that the cells stand for, with `ys` in the queue and `xs` on the ring.
abbrev pub seen : Cells → List ℕ → List ℕ → Tasks
seen c ys xs = record { list = ys; local_list = xs; state = c.state; refs = c.refs }

-- The cells `r` after an operation on the ring, which stand for `s`, with the same queue.
pub record Moved (head : ℕ) (queue : Head) (ys : List ℕ) (s : Tasks) (r : Option Cells)
    : Type 0 where
  pub after : Cells
  pub result : r ≡ some after
  pub on_ring : List ℕ
  pub stands : seen after ys on_ring ≡ s
  pub links : IsDeque after.links head on_ring
  pub same_queue : after.queue ≡ queue
  pub same_head : after.local_head ≡ head

module _ (c : Cells) (t : ℕ) (ys xs : List ℕ) (v : IsDeque c.links c.local_head xs) (ne : t ≢ null)
    (other : t ≢ c.local_head) where
  local_add-Moved : Moved c.local_head c.queue ys (local_add t (seen c ys xs)) (cells_local_add t c)
  unfolding local_add cells_local_add
  local_add-Moved =
      let (g, runs, w) = append_unlinked-IsDeque c.links c.local_head t xs v ne other in
      elim (Bool-cases (has t xs)) [
        | inl i ↦ rw i (record {
          after = drop_ref t (record c { links = g });
          result = rw (runs, i) refl;
          on_ring = xs;
          stands = refl;
          links = rw i at w;
          same_queue = refl;
          same_head = refl;
        })
        | inr i ↦ rw i (record {
          after = record c { links = g };
          result = rw (runs, i) refl;
          on_ring = snoc xs t;
          stands = refl;
          links = rw i at w;
          same_queue = refl;
          same_head = refl;
        })
      ]

  local_remove-Moved :
      Moved c.local_head c.queue ys (local_remove t (seen c ys xs)) (cells_local_remove t c)
  unfolding local_remove cells_local_remove
  local_remove-Moved =
      let (g, runs, w) = unlink_linked-IsDeque c.links c.local_head t xs v ne other in
      elim (Bool-cases (has t xs)) [
        | inl i ↦ rw i (record {
          after = drop_ref t (drop_ref t (record c { links = g }));
          result = rw (runs, i) refl;
          on_ring = erase t xs;
          stands = refl;
          links = rw i at w;
          same_queue = refl;
          same_head = refl;
        })
        | inr i ↦ rw i (record {
          after = drop_ref t (record c { links = g });
          result = rw (runs, i) refl;
          on_ring = xs;
          stands = refl;
          links = rw i at w;
          same_queue = refl;
          same_head = refl;
        })
      ]

pub some-same : {x y : Tasks} → some x ≡ some y → x ≡ y
some-same {x} e = ap (λ o. elim o [ none ↦ x | some z ↦ z ]) e

-- The word of `t` without the flag of the queue.
abbrev unqueued : ℕ → Cells → Cells
unqueued t c = record c { state = update c.state t (and_not (c.state t) state_queued) }

pub cleanup_one-Moved :
    (c : Cells) (t : ℕ) (ys xs : List ℕ) (s : Tasks)
    → IsDeque c.links c.local_head xs
    → t ≢ null
    → t ≢ c.local_head
    → cleanup_one t (seen c ys xs) ≡ some s
    → Moved c.local_head c.queue ys s (cells_cleanup_one t c)
unfolding cleanup_one cells_cleanup_one
cleanup_one-Moved c t ys xs s v ne other e = elim (Bool-cases (any_bit (c.state t) state_queued)) [
  | inr q ↦ absurd (ground (arith, e, q))
  | inl q ↦ elim (Bool-cases (any_bit (c.state t) state_deregistered)) [
    | inl d ↦
        let e' = rw (q, d) at e in
        rw (q, d)
          (subst (λ z. Moved c.local_head c.queue ys z (cells_local_remove t (unqueued t c)))
            (some-same e') (local_remove-Moved (unqueued t c) t ys xs v ne other))
    | inr d ↦
        let e' = rw (q, d) at e in
        rw (q, d)
          (subst (λ z. Moved c.local_head c.queue ys z (cells_local_add t (unqueued t c)))
            (some-same e') (local_add-Moved (unqueued t c) t ys xs v ne other))
  ]
]
