-- ===== src/Pool/Drop.antt =====
-- When the pool is ready, and what the end of a pool leaves.
use rust_fumio.Prelude.{
  ℕ, zero, suc, ◌≤◌, ◌<◌, ◌≡◌, ◌↔◌, ap, refl, sym, ◌∙◌, subst, true, false, List, [], ◌∷◌, is_some,
  arith, ◌∉◌, has, erase_out, IsDistinct, erase, length,
}
use rust_fumio.Pool.Task.{TaskList, local_clear}
use rust_fumio.Pool.Invariant.{IsPool, clear-IsPool}
use rust_fumio.Pool.Round.{is_ready, drop_next, drop_all, drop_list, drop_assertions}

nil_of_out : (xs : List ℕ) → ((t : ℕ) → t ∉ xs) → xs ≡ []
nil_of_out [] o = refl
nil_of_out (x ∷ xs) o = absurd (ground (arith, o x))

nil_of_length : (xs : List ℕ) → length xs ≤ 0 → xs ≡ []
nil_of_length [] h = refl
nil_of_length (x ∷ xs) h = absurd (omega arith)

module _ {Cell Fut : Type 0} where
  ready_alive :
      (l : List ℕ) (s : TaskList Cell Fut)
      → s.local_all ≡ l
      → IsPool s
      → (is_ready s ≡ true) ↔ ((t : ℕ) → (s.tasks t).alive ≡ false)
  unfolding is_ready
  ready_alive [] s e v = (λ r t. ground (arith, v.listed t), λ a. rw e)
  ready_alive (x ∷ l) s e v =
      (λ r. absurd (ground (arith, r, e)), λ a. absurd (ground (arith, v.listed x, a x)))

  -- In a well-formed pool `poll` answers `Ready` exactly if no task is alive.
  pub is_ready_iff :
      (s : TaskList Cell Fut)
      → IsPool s
      → (is_ready s ≡ true) ↔ ((t : ℕ) → (s.tasks t).alive ≡ false)
  is_ready_iff s v = ready_alive s.local_all s refl v

  pub dropped_next :
      (s : TaskList Cell Fut) (t : ℕ) (ts : List ℕ)
      → IsPool s
      → s.local_all ≡ t ∷ ts
      → local_clear t (record s { local_all = ts }) ≡ local_clear t s
  unfolding local_clear
  dropped_next s t ts v e =
      let d : IsDistinct (t ∷ ts) = rw e at v.all_distinct in
      let same : erase t ts ≡ erase t s.local_all = ground (arith, erase_out t ts, d.0) in
      ap (λ l. record (local_clear t s) { local_all = l }) same

  shorter :
      (s : TaskList Cell Fut) (t : ℕ) (ts : List ℕ)
      → IsPool s
      → s.local_all ≡ t ∷ ts
      → length (local_clear t s).local_all < length (t ∷ ts)
  unfolding local_clear
  shorter s t ts v e = rw e (ground arith)

  next-IsPool :
      (loop : TaskList Cell Fut → TaskList Cell Fut) (s : TaskList Cell Fut) (l : List ℕ)
      → s.local_all ≡ l
      → IsPool s
      → ((s' : TaskList Cell Fut)
          → IsPool s'
          → length s'.local_all < length l
          → IsPool (loop s') × ((loop s').local_all ≡ []))
      → IsPool (drop_next loop l s) × ((drop_next loop l s).local_all ≡ [])
  unfolding drop_next
  next-IsPool loop s [] e v rest = (v, e)
  next-IsPool loop s (t ∷ ts) e v rest =
      subst (λ z. IsPool (loop z) × ((loop z).local_all ≡ [])) (sym (dropped_next s t ts v e))
        (rest (local_clear t s) (clear-IsPool s v t (rw (← v.listed t, e) (ground arith)))
          (shorter s t ts v e))

  drop_all-IsPool :
      (fuel : ℕ) (s : TaskList Cell Fut)
      → IsPool s
      → length s.local_all ≤ fuel
      → IsPool (drop_all fuel s) × ((drop_all fuel s).local_all ≡ [])
  unfolding drop_all
  drop_all-IsPool zero s v f = (v, nil_of_length s.local_all f)
  drop_all-IsPool (suc fuel) s v f =
      next-IsPool (drop_all fuel) s s.local_all refl v
        (λ s' v' l. drop_all-IsPool fuel s' v' (omega arith))

  pub drop_list-IsPool :
      (s : TaskList Cell Fut) → IsPool s → IsPool (drop_list s) × ((drop_list s).local_all ≡ [])
  unfolding drop_list
  drop_list-IsPool s v = drop_all-IsPool (length s.local_all) s v (omega arith)

  -- The end of a well-formed pool clears every task: none is alive, each has dropped its future, and
  -- the assertions of `Drop for TaskList` hold, that no list of tasks has anything on it.
  pub drop_list-clears :
      (s : TaskList Cell Fut)
      → IsPool s
      → ((t : ℕ) → ((drop_list s).tasks t).alive ≡ false)
        × ((t : ℕ) → is_some ((drop_list s).tasks t).future ≡ false)
        × ((drop_list s).local_all ≡ [])
        × ((drop_list s).local_pending ≡ [])
        × (drop_assertions (drop_list s) ≡ true)
  unfolding drop_assertions
  drop_list-clears s v =
      let (w, e) = drop_list-IsPool s v in
      let dead : (t : ℕ) → ((drop_list s).tasks t).alive ≡ false =
        λ t. sym (w.listed t) ∙ ap (has t) e in
      let nothing : (drop_list s).local_pending ≡ [] =
        nil_of_out _ (λ t. ground (arith, w.pending_alive t, dead t)) in
      (dead, λ t. w.has_future t ∙ dead t, e, nothing, ground (arith, e, nothing))
