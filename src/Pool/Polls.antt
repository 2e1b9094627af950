-- ===== src/Pool/Polls.antt =====
-- The poll of one task keeps the pool well formed, logs the task and leaves the round's list alone.
use rust_fumio.Prelude.{
  ℕ, ◌≤◌, ◌<◌, ◌≡◌, refl, ◌∙◌, inl, inr, true, List, [], ◌∷◌, snoc, arith, ◌∉◌, erase_out,
  Option-cases,
}
use rust_fumio.AtomicWaker.{AtomicWaker}
use rust_fumio.Pool.Task.{
  TaskList, Action, wake_local, wake_global, clone_waker, drop_waker, spawn, Outcome, ready,
  pending, panics, state_of, wake, local_notify, global_notify, add_task, act, act_all, finish_poll,
  local_clear, clear_on_panic,
}
use rust_fumio.Pool.Round.{poll_some, local_poll}
use rust_fumio.Pool.Invariant.{IsPool, clear-IsPool, future-IsPool, aside-IsPool}
use rust_fumio.Pool.Notify.{act_all-IsPool}

-- What the actions of a future cannot change.
pub record Keeps {Cell Fut : Type 0} (s s' : TaskList Cell Fut) : Type 0 where
  pub same_round : s'.poll_list ≡ s.poll_list
  pub same_log : s'.polled ≡ s.polled
  pub still_alive : (t : ℕ) → t < s.fresh → (s.tasks t).alive ≡ true → (s'.tasks t).alive ≡ true
  pub grown : s.fresh ≤ s'.fresh

module _ {Cell Fut : Type 0} (aw : AtomicWaker Cell) where
  act-Keeps : (a : Action Fut) (s : TaskList Cell Fut) → Keeps s (act aw a s)
  unfolding act local_notify global_notify add_task wake
  act-Keeps (wake_local t) s = record {
    same_round = ground arith;
    same_log = ground arith;
    still_alive = λ c b a. ground arith;
    grown = ground arith;
  }
  act-Keeps (wake_global t) s = record {
    same_round = ground arith;
    same_log = ground arith;
    still_alive = λ c b a. ground arith;
    grown = ground arith;
  }
  act-Keeps (clone_waker t) s = record {
    same_round = ground arith;
    same_log = ground arith;
    still_alive = λ c b a. ground arith;
    grown = ground arith;
  }
  act-Keeps (drop_waker t) s = record {
    same_round = ground arith;
    same_log = ground arith;
    still_alive = λ c b a. ground arith;
    grown = ground arith;
  }
  act-Keeps (spawn f) s = record {
    same_round = ground arith;
    same_log = ground arith;
    still_alive = λ c b a. ground arith;
    grown = ground arith;
  }

  pub act_all-Keeps : (as' : List (Action Fut)) (s : TaskList Cell Fut) → Keeps s (act_all aw as' s)
  unfolding act_all
  act_all-Keeps [] s = record {
    same_round = refl;
    same_log = refl;
    still_alive = λ t b a. a;
    grown = omega arith;
  }
  act_all-Keeps (a ∷ as') s =
      let k = act-Keeps a s in
      let k' = act_all-Keeps as' (act aw a s) in
      record {
        same_round = k'.same_round ∙ k.same_round;
        same_log = k'.same_log ∙ k.same_log;
        still_alive = λ t b a. k'.still_alive t (omega (arith, k.grown)) (k.still_alive t b a);
        grown = omega (arith, k.grown, k'.grown);
      }

-- The outcome of the poll of `t`: the task is logged, and the round goes on with the same list.
pub record Polled {Cell Fut : Type 0} (s : TaskList Cell Fut) (t : ℕ) (s' : TaskList Cell Fut)
    : Type 0 where
  pub formed : IsPool s'
  pub same_round : s'.poll_list ≡ s.poll_list
  pub logged : s'.polled ≡ snoc s.polled t

module _ {Cell Fut : Type 0} (aw : AtomicWaker Cell)
    (poll_future : Fut → List (Action Fut) × Outcome Fut) where
  clear-Polled :
      (s s1 : TaskList Cell Fut) (t : ℕ)
      → IsPool s1
      → s1.poll_list ≡ s.poll_list
      → s1.polled ≡ snoc s.polled t
      → (s1.tasks t).alive ≡ true
      → t ∉ s.poll_list
      → Polled s t (local_clear t s1)
  unfolding local_clear
  clear-Polled s s1 t v e f a out = record {
    formed = clear-IsPool s1 v t a;
    same_round = rw e (erase_out t s.poll_list out);
    logged = f;
  }

  finish-Polled :
      (s s1 : TaskList Cell Fut) (t : ℕ) (o : Outcome Fut)
      → IsPool s1
      → s1.poll_list ≡ s.poll_list
      → s1.polled ≡ snoc s.polled t
      → (s1.tasks t).alive ≡ true
      → t ∉ s.poll_list
      → Polled s t (state_of (finish_poll t o s1))
  unfolding finish_poll clear_on_panic
  finish-Polled s s1 t ready v e f a out = clear-Polled s s1 t v e f a out
  finish-Polled s s1 t (pending fut) v e f a out = record {
    formed = future-IsPool s1 v t fut a;
    same_round = e;
    logged = f;
  }
  finish-Polled s s1 t panics v e f a out = rw a (clear-Polled s s1 t v e f a out)

  pub local_poll-Polled :
      (s : TaskList Cell Fut) (t : ℕ)
      → IsPool s
      → (s.tasks t).alive ≡ true
      → t ∉ s.poll_list
      → Polled s t (state_of (local_poll aw poll_future t s))
  unfolding local_poll
  local_poll-Polled s t v a out = elim (Option-cases (s.tasks t).future) [
    | inl e ↦ absurd (ground (arith, v.has_future t))
    | inr (f, e) ↦
        let s0 = record s { polled = snoc s.polled t } in
        let s1 = act_all aw (poll_future f).0 s0 in
        let k = act_all-Keeps aw (poll_future f).0 s0 in
        rw (e, poll_some)
          (finish-Polled s s1 t (poll_future f).1
            (act_all-IsPool aw (poll_future f).0 s0 (aside-IsPool s v s.waker s.woken _))
            k.same_round k.same_log (k.still_alive t (ground (arith, v.bounded t)) a) out)
  ]
