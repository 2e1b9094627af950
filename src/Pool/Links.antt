-- ===== src/Pool/Links.antt =====
-- What fumio-pool/src/pool/task.rs does to its two lists of pending tasks are the operations that
-- DlList/Pair shows two rings over one kind of link to have.
use rust_fumio.Prelude.{ℕ, ◌≡◌, refl, true, false, ◌||◌, arith, has, Bool-cases, inl, inr}
use rust_fumio.AtomicWaker.{AtomicWaker}
use rust_fumio.DlList.Pair.{Op, append, prepend, clear, pair_step}
use rust_fumio.Pool.Task.{TaskList, is_unlinked, local_notify, wake, fetch_one, local_clear}
use rust_fumio.Pool.Round.{readd}

-- From `s` to `s'` the two lists change as the operation changes them.
abbrev pub Follows : {Cell Fut : Type 0} → Op → TaskList Cell Fut → TaskList Cell Fut → Type 0
Follows op s s' =
    let (_, ps, qs) = pair_step op s.local_pending s.poll_list in
    (s'.local_pending ≡ ps) × (s'.poll_list ≡ qs)

module _ {Cell Fut : Type 0} (aw : AtomicWaker Cell) where
  -- A notification or a fetch of a live task appends it, and the destructor of a round prepends it,
  -- unless it is on either list; on a dead task they leave the lists as they are. Clearing a task
  -- unlinks it from both.
  pub lists-Follows :
      (t : ℕ) (s : TaskList Cell Fut)
      → ((s.tasks t).alive ≡ true
          → Follows (append t) s (local_notify aw t s)
            × Follows (append t) s (fetch_one t s)
            × Follows (prepend t) s (readd t s))
        × ((s.tasks t).alive ≡ false
            → (local_notify aw t s ≡ s)
              × (readd t s ≡ s)
              × ((fetch_one t s).local_pending ≡ s.local_pending)
              × ((fetch_one t s).poll_list ≡ s.poll_list))
        × Follows (clear t) s (local_clear t s)
  unfolding local_notify wake fetch_one readd local_clear is_unlinked
  lists-Follows t s = (
    λ a. elim (Bool-cases (has t s.local_pending || has t s.poll_list)) [
      | inl i ↦ ground (arith, a, i)
      | inr o ↦ ground (arith, a, o)
    ],
    λ d. ground (arith, d),
    (refl, refl),
  )
