-- ===== src/DlList/Guarded.antt =====
-- Insertion and removal behind the test `is_unlinked`, as the reactor's tasks use the list of
-- fumio-utils/src/local_dl_list.rs.
use rust_fumio.Prelude.{
  ℕ, ◌≡◌, ◌≢◌, false, ◌||◌, not, List, arith, ◌==◌, has, erase, snoc, Bool, Bool-cases, inl, inr,
  if◌then◌else◌,
}
use rust_fumio.DlList.{
  Heap, M, ok, null, insert_before, unlink, is_unlinked, pure, when, ◌>>=◌, ◌>>◌,
}
use rust_fumio.DlList.Cells.{cells}
use rust_fumio.DlList.Deque.{IsDeque, insert_before-IsDeque, unlink-IsDeque}
use rust_fumio.DlList.Pair.Moves.{mem-linked}

-- Whether the node was put on the list behind the head `l`.
pub append_unlinked : ℕ → ℕ → M Bool
append_unlinked l node = do alone ← is_unlinked node; when alone (insert_before l node); pure alone

-- Whether the node was taken off its list.
pub unlink_linked : ℕ → M Bool
unlink_linked node = do alone ← is_unlinked node; when (not alone) (unlink node); pure (not alone)

module _ (h : Heap) (l node : ℕ) (xs : List ℕ) (v : IsDeque h l xs) (ne : node ≢ null)
    (other : node ≢ l) where
  is_unlinked-deque : is_unlinked node h ≡ ok (not (has node xs)) h
  unfolding is_unlinked
  is_unlinked-deque =
      let real : (node == null) ≡ false = ground (arith, ne) in
      let e : (h.next node == null || h.next node == node) ≡ not (has node xs) =
        elim (Bool-cases (has node xs)) [
          | inl i ↦ ground (arith, i, mem-linked h l node xs v.list i)
          | inr i ↦ ground (arith, i, v.others node ne (ground (arith, i, other)))
        ] in
      simp (cells, real, e)

  pub append_unlinked-IsDeque :
      (g : Heap) × (append_unlinked l node h ≡ ok (not (has node xs)) g)
      × IsDeque g l (if has node xs then xs else snoc xs node)
  unfolding append_unlinked
  append_unlinked-IsDeque = elim (Bool-cases (has node xs)) [
    | inl i ↦ rw i (h, simp (is_unlinked-deque, i), v)
    | inr i ↦
        let (g, runs, w) = insert_before-IsDeque h l node xs v ne (ground (arith, other, i)) in
        rw i (g, simp (is_unlinked-deque, i, runs), w)
  ]

  pub unlink_linked-IsDeque :
      (g : Heap) × (unlink_linked node h ≡ ok (has node xs) g)
      × IsDeque g l (if has node xs then erase node xs else xs)
  unfolding unlink_linked
  unlink_linked-IsDeque = elim (Bool-cases (has node xs)) [
    | inl i ↦
        let (g, runs, w) = unlink-IsDeque h l node xs v i in
        rw i (g, simp (is_unlinked-deque, i, runs), w)
    | inr i ↦ rw i (h, simp (is_unlinked-deque, i), v)
  ]
