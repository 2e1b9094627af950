-- ===== src/Reactor/Tasks/Cleanup.antt =====
-- `cleanup_tasks`: where the tasks of the queue go.
use rust_fumio.Prelude.{
  ℕ, ◌+◌, ◌%◌, ◌≡◌, refl, inl, inr, Bool, true, false, not, ◌&&◌, ◌||◌, List, [], ◌∷◌, Option, some,
  if◌then◌else◌, subst, sym, ap, ◌∙◌, ◌==◌, update, has, arith, has-append, has-erase,
  IsDistinct-snoc, IsDistinct-erase, Bool-cases, eq_of_==,
}
use rust_fumio.Prelude.Flags.{Flags, flags}
use rust_fumio.Reactor.Tasks.Laws.{IsTasks, held}
use rust_fumio.Reactor.Tasks.{
  Tasks, local_add, local_remove, cleanup_one, cleanup_all, cleanup_tasks,
}

-- What a cleanup does to the tasks in `ts`: those that were deregistered are on no list, the others
-- are on the local list, and no other task moves.
pub record Cleaned (ts : List ℕ) (s : Tasks) (r : Option Tasks) : Type 0 where
  pub after : Tasks
  pub result : r ≡ some after
  pub agree : IsTasks after
  pub local :
      (c : ℕ)
      → has c after.local_list ≡ (if has c ts then s.state c % 2 == 0 else has c s.local_list)
  pub kept : (c : ℕ) → after.state c % 2 ≡ s.state c % 2
  pub emptied : after.list ≡ []
  pub balance : (c : ℕ) → after.refs c + held c (record s { list = ts }) ≡ s.refs c + held c after

module _ (s : Tasks) (t : ℕ) (ts : List ℕ) (v : IsTasks (record s { list = t ∷ ts })) where
  bits : Flags (s.state t)
  bits = flags (s.state t) (v.small t)

  popped : Tasks
  popped = record s { list = ts; state = update s.state t (s.state t % 2) }

  local_remove-IsTasks : IsTasks (local_remove t popped)
  unfolding local_remove popped
  local_remove-IsTasks = elim (Bool-cases (has t s.local_list)) [
    | inl e ↦ rw e (record {
      list_distinct = v.list_distinct.1;
      local_distinct = IsDistinct-erase t s.local_list v.local_distinct;
      small = λ c. ground (arith, v.small c);
      queued = λ c. ground (arith, v.queued c, v.list_distinct.0);
      owned = λ c.
          ground (arith, v.owned c, v.list_distinct.0, has-erase t c s.local_list v.local_distinct);
    })
    | inr e ↦ rw e (record {
      list_distinct = v.list_distinct.1;
      local_distinct = v.local_distinct;
      small = λ c. ground (arith, v.small c);
      queued = λ c. ground (arith, v.queued c, v.list_distinct.0);
      owned = λ c. ground (arith, v.owned c, v.list_distinct.0);
    })
  ]

  local_remove-local :
      (c : ℕ) → has c (local_remove t popped).local_list ≡ (has c s.local_list && not (t == c))
  unfolding local_remove popped
  local_remove-local c = elim (Bool-cases (has t s.local_list)) [
    | inl e ↦ rw e (has-erase t c s.local_list v.local_distinct)
    | inr e ↦ rw e (ground arith)
  ]

  local_add-IsTasks : IsTasks (local_add t popped)
  unfolding local_add popped
  local_add-IsTasks = elim (Bool-cases (has t s.local_list)) [
    | inl e ↦ rw e (record {
      list_distinct = v.list_distinct.1;
      local_distinct = v.local_distinct;
      small = λ c. ground (arith, v.small c);
      queued = λ c. ground (arith, v.queued c, v.list_distinct.0);
      owned = λ c. ground (arith, v.owned c, v.list_distinct.0);
    })
    | inr e ↦ rw e (record {
      list_distinct = v.list_distinct.1;
      local_distinct = IsDistinct-snoc s.local_list t v.local_distinct e;
      small = λ c. ground (arith, v.small c);
      queued = λ c. ground (arith, v.queued c, v.list_distinct.0);
      owned = λ c. ground (arith, v.owned c, v.list_distinct.0, has-append c s.local_list (t ∷ []));
    })
  ]

  local_add-local :
      (c : ℕ) → has c (local_add t popped).local_list ≡ (has c s.local_list || (t == c))
  unfolding local_add popped
  local_add-local c = elim (Bool-cases (has t s.local_list)) [
    | inl e ↦ rw e (ground arith)
    | inr e ↦ rw e (ground (arith, has-append c s.local_list (t ∷ [])))
  ]

  next : Tasks
  next = if s.state t % 2 == 0 then local_add t popped else local_remove t popped

  next-IsTasks : IsTasks next
  unfolding next
  next-IsTasks = elim (Bool-cases (s.state t % 2 == 0)) [
    | inl e ↦ rw e local_add-IsTasks
    | inr e ↦ rw e local_remove-IsTasks
  ]

  next-lists :
      (next.list ≡ ts) × ((c : ℕ) → next.state c ≡ (if t == c then s.state t % 2 else s.state c))
  unfolding next popped local_add local_remove
  next-lists = (ground arith, λ c. ground arith)

  next-local :
      (c : ℕ) → has c next.local_list ≡ (if t == c then s.state t % 2 == 0 else has c s.local_list)
  unfolding next
  next-local c = elim (Bool-cases (s.state t % 2 == 0)) [
    | inl e ↦ rw e (ground (arith, local_add-local c))
    | inr e ↦ rw e (ground (arith, local_remove-local c))
  ]

  -- What the lists do not hold of the references stays as it is.
  next-balance :
      (c : ℕ)
      → next.refs c + held c (record s { list = t ∷ ts })
        ≡ s.refs c + held c (record next { list = ts })
  unfolding next popped local_add local_remove
  next-balance c = ground (
    arith,
    v.owned c,
    v.owned t,
    v.list_distinct.0,
    has-append c s.local_list (t ∷ []),
    has-erase t c s.local_list v.local_distinct,
  )

  -- The same with the queue that is left in place.
  stepped : Tasks
  stepped = record next { list = s.list }

  stepped-IsTasks : IsTasks (record stepped { list = ts })
  unfolding stepped
  stepped-IsTasks = subst (λ l. IsTasks (record next { list = l })) next-lists.0 next-IsTasks

  stepped_fields :
      (stepped.list ≡ s.list)
      × (stepped.local_list ≡ next.local_list)
      × (stepped.state ≡ next.state)
      × (stepped.refs ≡ next.refs)
  unfolding stepped
  stepped_fields = (refl, refl, refl, refl)

  -- The assertion holds, since the task was queued.
  cleanup_one-some : cleanup_one t s ≡ some stepped
  unfolding cleanup_one stepped popped next local_add local_remove
  cleanup_one-some = ground (arith, bits, v.queued t, v.small t)

-- One task of the queue and the rest of it, as conditions on whether `c` is on the local list.
local_step :
    (t c : ℕ) (ts : List ℕ) (here seen moved : Bool) (old first new : ℕ)
    → has t ts ≡ false
    → here ≡ (if has c ts then new % 2 == 0 else moved)
    → new ≡ (if t == c then first % 2 else old)
    → moved ≡ (if t == c then first % 2 == 0 else seen)
    → (t == c ≡ true → first ≡ old)
    → here ≡ (if has c (t ∷ ts) then old % 2 == 0 else seen)
local_step t c ts here seen moved old first new out a b d e = ground arith

cleanup_all-Cleaned :
    (ts : List ℕ) (s : Tasks)
    → s.list ≡ []
    → IsTasks (record s { list = ts })
    → Cleaned ts s (cleanup_all ts (some s))
unfolding cleanup_all
cleanup_all-Cleaned [] s e v = record {
  after = s;
  result = refl;
  agree = subst (λ l. IsTasks (record s { list = l })) (sym e) v;
  local = λ c. refl;
  kept = λ c. refl;
  emptied = e;
  balance = λ c. ap (λ l. s.refs c + held c (record s { list = l })) (sym e);
}
cleanup_all-Cleaned (t ∷ ts) s e v =
    let n = stepped s t ts v in
    let (f, g, h, r) = stepped_fields s t ts v in
    let rest = cleanup_all-Cleaned ts n (f ∙ e) (stepped-IsTasks s t ts v) in
    let moved = next-lists s t ts v in
    let state : (c : ℕ) → n.state c ≡ (if t == c then s.state t % 2 else s.state c) =
      λ c. ap (λ (st : ℕ → ℕ). st c) h ∙ moved.1 c in
    let local : (c : ℕ)
        → has c n.local_list ≡ (if t == c then s.state t % 2 == 0 else has c s.local_list) =
      λ c. ap (has c) g ∙ next-local s t ts v c in
    record {
      after = rest.after;
      result = ap (cleanup_all ts) (cleanup_one-some s t ts v) ∙ rest.result;
      agree = rest.agree;
      local = λ c.
          local_step t c ts (has c rest.after.local_list) (has c s.local_list) (has c n.local_list)
            (s.state c) (s.state t) (n.state c) v.list_distinct.0 (rest.local c) (state c) (local c)
            (λ e. ap s.state (eq_of_== t c e));
      kept = λ c. ground (arith, rest.kept c, state c);
      emptied = rest.emptied;
      balance = λ c.
          ground (arith, rest.balance c, next-balance s t ts v c, ap (has c) g, ap (λ x. x c) r);
    }

-- `cleanup_tasks` on lists that agree fails no assertion and keeps the agreement. Every task that was
-- queued and not deregistered is then on the local list, every one that was deregistered is not, and
-- the tasks that were not queued stay where they were.
pub cleanup_tasks-Cleaned : (s : Tasks) → IsTasks s → Cleaned s.list s (cleanup_tasks s)
unfolding cleanup_tasks
cleanup_tasks-Cleaned s v =
    let r = cleanup_all-Cleaned s.list (record s { list = [] }) refl v in
    record {
      after = r.after;
      result = r.result;
      agree = r.agree;
      local = r.local;
      kept = r.kept;
      emptied = r.emptied;
      balance = r.balance;
    }
