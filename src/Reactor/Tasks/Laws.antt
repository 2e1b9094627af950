-- ===== src/Reactor/Tasks/Laws.antt =====
-- The registered tasks: state words, lists and references agree, and no assertion fails.
use rust_fumio.Prelude.{
  ℕ, ◌+◌, ◌/◌, ◌≤◌, ◌<◌, ◌≡◌, ◌≢◌, inl, inr, [], ◌∷◌, if◌then◌else◌, ◌==◌, has, arith, has-append,
  IsDistinct, IsDistinct-snoc, Bool-cases,
}
use rust_fumio.Reactor.Tasks.{Tasks, state_deregistered, add_task, deregister_task}

-- How many references the two lists hold.
abbrev pub held : ℕ → Tasks → ℕ
held t s = (if has t s.list then 1 else 0) + (if has t s.local_list then 1 else 0)

pub record IsTasks (s : Tasks) : Type 0 where
  pub list_distinct : IsDistinct s.list
  pub local_distinct : IsDistinct s.local_list
  pub small : (t : ℕ) → s.state t < 4
  pub queued : (t : ℕ) → has t s.list ≡ (s.state t / 2 == 1)
  pub owned : (t : ℕ) → held t s ≤ s.refs t

module _ (s : Tasks) (v : IsTasks s) (t : ℕ) (mine : held t s < s.refs t) where
  -- `add_task`, called with a reference that the lists do not hold, keeps the agreement.
  pub add_task-IsTasks : IsTasks (add_task t s)
  unfolding add_task
  add_task-IsTasks = elim (Bool-cases (s.state t == 0)) [
    | inl e ↦ rw e (record {
      list_distinct = IsDistinct-snoc s.list t v.list_distinct (ground (arith, v.queued t));
      local_distinct = v.local_distinct;
      small = λ c. ground (arith, v.small c);
      queued = λ c. ground (arith, v.queued c, has-append c s.list (t ∷ []));
      owned = λ c. ground (arith, v.owned c, has-append c s.list (t ∷ []), v.queued t);
    })
    | inr e ↦ rw e (record {
      list_distinct = v.list_distinct;
      local_distinct = v.local_distinct;
      small = v.small;
      queued = v.queued;
      owned = λ c. ground (arith, v.owned c);
    })
  ]

  -- `deregister_task`, called with a reference that the lists do not hold, keeps the agreement if the
  -- task is not one that was deregistered and cleaned up before.
  pub deregister_task-IsTasks : s.state t ≢ state_deregistered → IsTasks (deregister_task t s)
  unfolding deregister_task
  deregister_task-IsTasks known = elim (Bool-cases (s.state t == 0)) [
    | inl e ↦ rw e (record {
      list_distinct = IsDistinct-snoc s.list t v.list_distinct (ground (arith, v.queued t));
      local_distinct = v.local_distinct;
      small = λ c. ground (arith, v.small c);
      queued = λ c. ground (arith, v.queued c, has-append c s.list (t ∷ []));
      owned = λ c. ground (arith, v.owned c, has-append c s.list (t ∷ []), v.queued t);
    })
    | inr e ↦ rw e (record {
      list_distinct = v.list_distinct;
      local_distinct = v.local_distinct;
      small = λ c. ground (arith, v.small c);
      queued = λ c. ground (arith, v.queued c, v.small t);
      owned = λ c. ground (arith, v.owned c);
    })
  ]
