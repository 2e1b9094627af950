-- ===== src/Pool/Rounds.antt =====
-- One round of polls: who is polled, in which order, and what a panic leaves.
use rust_fumio.Prelude.{
  ℕ, zero, suc, ◌≤◌, ◌<◌, ◌≡◌, refl, sym, true, false, ◌&&◌, List, [], ◌∷◌, ◌++◌, append_assoc,
  append-nil, arith, ◌∈◌, ◌∉◌, has-append, IsDistinct, length,
}
use rust_fumio.AtomicWaker.{AtomicWaker}
use rust_fumio.Pool.Task.{
  TaskList, Action, Outcome, Result, ok, panicked, state_of, ended, then_do, is_unlinked,
}
use rust_fumio.Pool.Round.{local_poll, poll_next, poll_loop, readd, readd_all, restore, poll_tasks}
use rust_fumio.Pool.Invariant.{IsPool, prepend-IsPool, relist-IsPool}
use rust_fumio.Pool.Polls.{Polled, local_poll-Polled}

nil_of_length : (xs : List ℕ) → length xs ≤ 0 → xs ≡ []
nil_of_length [] h = refl
nil_of_length (x ∷ xs) h = absurd (omega arith)

-- The first task leaves the round's list.
pub popped-IsPool :
    {Cell Fut : Type 0} (s : TaskList Cell Fut) (t : ℕ) (ts : List ℕ)
    → IsPool s
    → s.poll_list ≡ t ∷ ts
    → IsPool (record s { poll_list = ts })
popped-IsPool s t ts v e =
    let d : IsDistinct (t ∷ ts) = rw e at v.round_distinct in
    relist-IsPool s v s.local_pending ts s.waker s.woken s.polled v.pending_distinct d.1
      (λ c i. v.apart c (rw e (ground arith))) v.pending_alive
      (λ c i. v.round_alive c (rw e (ground arith)))

-- A list of tasks was polled in order, and the rest of the round's list is left.
record Rounds {Cell Fut : Type 0} (s : TaskList Cell Fut) (r : Result (TaskList Cell Fut))
    : Type 0 where
  pub done : List ℕ
  pub formed : IsPool (state_of r)
  pub split : s.poll_list ≡ done ++ (state_of r).poll_list
  pub logged : (state_of r).polled ≡ s.polled ++ done
  pub complete : ended r ≡ true → (state_of r).poll_list ≡ []

module _ {Cell Fut : Type 0} (aw : AtomicWaker Cell)
    (poll_future : Fut → List (Action Fut) × Outcome Fut) where
  -- One task, then the rest of the round unless it panicked.
  then-Rounds :
      (loop : TaskList Cell Fut → Result (TaskList Cell Fut)) (s : TaskList Cell Fut) (t : ℕ)
      (ts : List ℕ)
      → s.poll_list ≡ t ∷ ts
      → (r : Result (TaskList Cell Fut)) → Polled (record s { poll_list = ts }) t (state_of r)
      → ((s' : TaskList Cell Fut) → IsPool s' → s'.poll_list ≡ ts → Rounds s' (loop s'))
      → Rounds s (then_do r loop)
  then-Rounds loop s t ts e (ok s1) p rest =
      let rs = rest s1 p.formed p.same_round in
      record {
        done = t ∷ rs.done;
        formed = rs.formed;
        split = cc (e, sym p.same_round, rs.split);
        logged = rw (rs.logged, p.logged) (append_assoc s.polled (t ∷ []) rs.done);
        complete = rs.complete;
      }
  then-Rounds loop s t ts e (panicked s1) p rest = record {
    done = t ∷ [];
    formed = p.formed;
    split = cc (e, p.same_round);
    logged = p.logged;
    complete = λ c. absurd (cc);
  }

  next-Rounds :
      (loop : TaskList Cell Fut → Result (TaskList Cell Fut)) (s : TaskList Cell Fut) (l : List ℕ)
      → s.poll_list ≡ l
      → IsPool s
      → ((s' : TaskList Cell Fut)
          → IsPool s'
          → length s'.poll_list < length l
          → Rounds s' (loop s'))
      → Rounds s (poll_next aw poll_future loop l s)
  unfolding poll_next
  next-Rounds loop s [] e v rest = record {
    done = [];
    formed = v;
    split = refl;
    logged = sym (append-nil s.polled);
    complete = λ c. e;
  }
  next-Rounds loop s (t ∷ ts) e v rest =
      let d : IsDistinct (t ∷ ts) = rw e at v.round_distinct in
      let s0 = record s { poll_list = ts } in
      let v0 : IsPool s0 = popped-IsPool s t ts v e in
      then-Rounds loop s t ts e (local_poll aw poll_future t s0)
        (local_poll-Polled aw poll_future s0 t v0 (v.round_alive t (rw e (ground arith))) d.0)
        (λ s' v' e'. rest s' v' (rw e' (omega arith)))

  poll_loop-Rounds :
      (fuel : ℕ) (s : TaskList Cell Fut)
      → IsPool s
      → length s.poll_list ≤ fuel
      → Rounds s (poll_loop aw poll_future fuel s)
  unfolding poll_loop
  poll_loop-Rounds zero s v f = record {
    done = [];
    formed = v;
    split = refl;
    logged = sym (append-nil s.polled);
    complete = λ c. nil_of_length s.poll_list f;
  }
  poll_loop-Rounds (suc fuel) s v f =
      next-Rounds (poll_loop aw poll_future fuel) s s.poll_list refl v
        (λ s' v' l. poll_loop-Rounds fuel s' v' (omega arith))

module _ {Cell Fut : Type 0} where
  readd_front :
      (t : ℕ) (s : TaskList Cell Fut)
      → ((s.tasks t).alive && is_unlinked t s) ≡ true
      → readd t s ≡ record s { local_pending = t ∷ s.local_pending }
  unfolding readd
  readd_front t s e = rw e

  -- The tasks that a round did not reach go back in front of the queue, in their order.
  readd_all-append :
      (ts : List ℕ) (s : TaskList Cell Fut)
      → IsPool s
      → s.poll_list ≡ []
      → IsDistinct ts
      → ((c : ℕ) → c ∈ ts → (s.tasks c).alive ≡ true)
      → ((c : ℕ) → c ∈ ts → c ∉ s.local_pending)
      → (readd_all ts s ≡ record s { local_pending = ts ++ s.local_pending })
        × IsPool (record s { local_pending = ts ++ s.local_pending })
  unfolding readd_all is_unlinked
  readd_all-append [] s v e d a o = (refl, v)
  readd_all-append (t ∷ ts) s v e d a o =
      let (same, w) =
        readd_all-append ts s v e d.1 (λ c i. a c (ground arith)) (λ c i. o c (ground arith)) in
      let s' = record s { local_pending = ts ++ s.local_pending } in
      let linked = has-append t ts s.local_pending in
      let yes' : ((s'.tasks t).alive && is_unlinked t s') ≡ true =
        ground (arith, linked, a t, o t, d.0, e) in
      (
        rw same (readd_front t s' yes'),
        prepend-IsPool s' w t (ground (arith, a t)) (ground (arith, linked, o t, d.0))
            (ground (arith, e)),
      )

  restored :
      (s : TaskList Cell Fut)
      → IsPool s
      → (readd_all s.poll_list (record s { poll_list = [] })
          ≡ record s { local_pending = s.poll_list ++ s.local_pending; poll_list = [] })
        × IsPool (record s { local_pending = s.poll_list ++ s.local_pending; poll_list = [] })
  restored s v =
      readd_all-append s.poll_list (record s { poll_list = [] })
        (relist-IsPool s v s.local_pending [] s.waker s.woken s.polled v.pending_distinct tt
          (λ c i. cc) v.pending_alive (λ c i. cc))
        refl v.round_distinct v.round_alive v.apart

-- A round over the tasks `queue`: `done` were polled, each once and in order, and `left` were not.
-- Without a panic nothing is left. After a panic what is left is at the front of the queue again.
pub record Round {Cell Fut : Type 0} (queue : List ℕ) (s : TaskList Cell Fut)
    (r : Result (TaskList Cell Fut)) : Type 0 where
  pub done : List ℕ
  pub left : List ℕ
  pub formed : IsPool (state_of r)
  pub idle : (state_of r).poll_list ≡ []
  pub split : queue ≡ done ++ left
  pub logged : (state_of r).polled ≡ s.polled ++ done
  pub complete : ended r ≡ true → left ≡ []
  pub requeued : ended r ≡ false → (new : List ℕ) × ((state_of r).local_pending ≡ left ++ new)

module _ {Cell Fut : Type 0} where
  restore-Round :
      (s : TaskList Cell Fut) (r : Result (TaskList Cell Fut))
      → Rounds s r
      → Round s.poll_list s (restore r)
  unfolding restore
  restore-Round s (ok s1) rs = record {
    done = rs.done;
    left = s1.poll_list;
    formed = rs.formed;
    idle = rs.complete refl;
    split = rs.split;
    logged = rs.logged;
    complete = rs.complete;
    requeued = λ c. absurd (cc);
  }
  restore-Round s (panicked s1) rs =
      let (same, formed) = restored s1 rs.formed in
      record {
        done = rs.done;
        left = s1.poll_list;
        formed = rw same formed;
        idle = rw same;
        split = rs.split;
        logged = rw same rs.logged;
        complete = λ c. absurd (cc);
        requeued = λ c. (s1.local_pending, rw same);
      }

module _ {Cell Fut : Type 0} (aw : AtomicWaker Cell)
    (poll_future : Fut → List (Action Fut) × Outcome Fut) where
  -- `TaskList::poll` on a well-formed pool polls the pending tasks, each once and in their order,
  -- keeps the pool well formed, and leaves no task on the round's list. Without a panic it reaches
  -- all of them. After a panic it has put the tasks that it did not reach back in front.
  pub poll_tasks-Round :
      (s : TaskList Cell Fut)
      → IsPool s
      → s.poll_list ≡ []
      → Round s.local_pending s (poll_tasks aw poll_future s)
  unfolding poll_tasks
  poll_tasks-Round s v e =
      let s0 = record s { poll_list = s.local_pending; local_pending = [] } in
      let v0 : IsPool s0 =
        relist-IsPool s v [] s.local_pending s.waker s.woken s.polled tt v.pending_distinct
          (λ c i. refl) (λ c i. cc) v.pending_alive in
      let r =
        restore-Round s0 (poll_loop aw poll_future (length s.local_pending) s0)
          (poll_loop-Rounds aw poll_future (length s.local_pending) s0 v0 (omega arith)) in
      record {
        done = r.done;
        left = r.left;
        formed = r.formed;
        idle = r.idle;
        split = r.split;
        logged = r.logged;
        complete = r.complete;
        requeued = r.requeued;
      }
