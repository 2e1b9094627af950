-- ===== src/Pool/Turns.antt =====
-- fumio-pool/src/pool.rs: the turns of `run_executor` on a pool whose futures come to an end, and on any
-- state that such a pool is a part of.
use rust_fumio.Prelude.{
  ℕ, zero, suc, ◌+◌, ◌≤◌, ◌<◌, ◌≡◌, ◌≢◌, sym, subst, ◌∙◌, true, false, inl, inr, List, [], arith,
  Bool-cases,
}
use rust_fumio.AtomicWaker.{AtomicWaker}
use rust_fumio.Pool.Task.{TaskList, Action, Outcome, Result, ok, act_all}
use rust_fumio.Pool.Round.{poll, is_ready}
use rust_fumio.Pool.Invariant.{IsPool}
use rust_fumio.Pool.Notify.{act_all-IsPool}
use rust_fumio.Pool.Polls.{act_all-Keeps}
use rust_fumio.Pool.Work.{spawned, work, work-act_all}
use rust_fumio.Pool.Spending.{Spends, Roused, poll-Spent}
use rust_fumio.Pool.Exec.{Turn, finished, waiting, returned, run_executor, poll_pool}
use rust_fumio.Pool.Exec.Laws.{one_turn, last_turn}

-- A state `S` that the pool is a part of, and the turn of the executor on it, which is that of the pool;
-- `Inv` is what the turn keeps.
pub record Seat {Cell Fut S : Type 0} (aw : AtomicWaker Cell)
    (poll_future : Fut → List (Action Fut) × Outcome Fut) (Inv : S → Type 0)
    (turn : S → Turn S Unit) : Type 0 where
  pub view : S → TaskList Cell Fut
  pub put : TaskList Cell Fut → S → S
  pub view_put : (p : TaskList Cell Fut) (s : S) → view (put p s) ≡ p
  pub put_kept : (p : TaskList Cell Fut) (s : S) → Inv s → Inv (put p s)
  pub turn_finished :
      (p : TaskList Cell Fut) (s : S)
      → poll_pool aw poll_future (view s) ≡ finished p tt
      → turn s ≡ finished (put p s) tt
  pub turn_waiting :
      (p : TaskList Cell Fut) (s : S)
      → poll_pool aw poll_future (view s) ≡ waiting p
      → turn s ≡ waiting (put p s)

-- What parking is to do while there are tasks: it comes back with `Inv`, after actions on the pool that
-- spawn nothing, with a live task queued.
pub record Revives {Cell Fut S : Type 0} (aw : AtomicWaker Cell) (rank : Fut → ℕ)
    (view : S → TaskList Cell Fut) (Inv : S → Type 0) (s : S) (r : Result S) : Type 0 where
  pub back : S
  pub actions : List (Action Fut)
  pub came_back : r ≡ ok back
  pub acted : view back ≡ act_all aw actions (view s)
  pub unspawned : spawned rank actions ≡ 0
  pub roused : Roused (act_all aw actions (view s))
  pub kept : Inv back

module _ {Cell Fut : Type 0} (aw : AtomicWaker Cell)
    (poll_future : Fut → List (Action Fut) × Outcome Fut) where
  pub poll_pool-finished :
      (s s' : TaskList Cell Fut)
      → poll aw poll_future s ≡ ok s'
      → is_ready s' ≡ true
      → (poll_pool aw poll_future s ≡ finished s' tt) × (s'.local_all ≡ [])
  unfolding poll_pool is_ready
  poll_pool-finished s s' e r = (ground (arith, e, r), ground (arith, r))

  pub poll_pool-waiting :
      (s s' : TaskList Cell Fut)
      → poll aw poll_future s ≡ ok s'
      → is_ready s' ≡ false
      → (poll_pool aw poll_future s ≡ waiting s') × (s'.local_all ≢ [])
  unfolding poll_pool is_ready
  poll_pool-waiting s s' e r = (ground (arith, e, r), λ n. ground (arith, r, n))

module _ {Cell Fut S : Type 0} (aw : AtomicWaker Cell)
    (poll_future : Fut → List (Action Fut) × Outcome Fut) (Inv : S → Type 0)
    (turn : S → Turn S Unit) (seat : Seat aw poll_future Inv turn) (rank : Fut → ℕ)
    (spends : (f : Fut) → Spends rank f (poll_future f).0 (poll_future f).1) (park : S → Result S)
    (revives : (s : S)
      → Inv s
      → IsPool (seat.view s)
      → (seat.view s).poll_list ≡ []
      → (seat.view s).local_all ≢ []
      → Revives aw rank seat.view Inv s (park s)) where
  -- The loop returns from `s`, with no task left.
  abbrev Returns : ℕ → S → Type 0
  Returns fuel s =
      (end : S) × (run_executor park turn fuel s ≡ returned end tt)
      × IsPool (seat.view end)
      × ((seat.view end).local_all ≡ [])
      × Inv end

  -- A state to go on from, with at most `n` work.
  record Ahead (n : ℕ) (s : S) : Type 0 where
    kept : Inv s
    formed : IsPool (seat.view s)
    idle : (seat.view s).poll_list ≡ []
    roused : Roused (seat.view s)
    at_most : work rank (seat.view s) ≤ n

  back-Ahead :
      (n : ℕ) (s : S) (p : TaskList Cell Fut)
      → IsPool p
      → p.poll_list ≡ []
      → work rank p ≤ n
      → seat.view s ≡ p
      → (r : Revives aw rank seat.view Inv s (park s)) → Ahead n r.back
  back-Ahead n s p v idle le same r =
      let acted = sym (subst (λ q. seat.view r.back ≡ act_all aw r.actions q) same r.acted) in
      record {
        kept = r.kept;
        formed = subst IsPool acted (act_all-IsPool aw r.actions p v);
        idle =
            subst (λ (q : TaskList Cell Fut). q.poll_list ≡ []) acted
              ((act_all-Keeps aw r.actions p).same_round ∙ idle);
        roused = subst Roused (sym r.acted) r.roused;
        at_most =
            subst (λ q. work rank q ≤ n) acted
              (omega (arith, work-act_all rank aw r.actions p v, r.unspawned, le));
      }

  -- One turn, and what follows it if there are tasks left.
  turn-Returns :
      (fuel n : ℕ) (s : S) (p : TaskList Cell Fut)
      → Inv s
      → poll aw poll_future (seat.view s) ≡ ok p
      → IsPool p
      → p.poll_list ≡ []
      → work rank p ≤ n
      → ((s2 : S) → Ahead n s2 → Returns fuel s2)
      → Returns (suc fuel) s
  turn-Returns fuel n s p i e v idle le rest =
      let put = seat.put p s in
      let same = seat.view_put p s in
      let kept = seat.put_kept p s i in
      elim (Bool-cases (is_ready p)) [
        | inl r ↦
            let (done, no_task) = poll_pool-finished aw poll_future (seat.view s) p e r in
            (
              put,
              last_turn park turn fuel s put tt (seat.turn_finished p s done),
              subst IsPool (sym same) v,
              subst (λ (q : TaskList Cell Fut). q.local_all ≡ []) (sym same) no_task,
              kept,
            )
        | inr r ↦
            let (waits, tasks) = poll_pool-waiting aw poll_future (seat.view s) p e r in
            let back =
              revives put kept (subst IsPool (sym same) v)
                (subst (λ (q : TaskList Cell Fut). q.poll_list ≡ []) (sym same) idle)
                (subst (λ (q : TaskList Cell Fut). q.local_all ≢ []) (sym same) tasks) in
            let (end, ends, v2, no_task, i2) =
              rest back.back (back-Ahead n put p v idle le same back) in
            (
              end,
              one_turn park turn fuel s put back.back (seat.turn_waiting p s waits) back.came_back
                  ∙ ends,
              v2,
              no_task,
              i2,
            )
      ]

  Ahead-Returns : (fuel n : ℕ) (s : S) → Ahead n s → n < fuel → Returns fuel s
  Ahead-Returns zero n s a f = absurd (omega arith)
  Ahead-Returns (suc fuel) n s a f =
      let p = poll-Spent aw poll_future rank spends (seat.view s) a.formed a.idle in
      turn-Returns fuel (work rank p.after) s p.after a.kept p.polled p.formed p.idle (omega arith)
        (λ s2 a2.
          Ahead-Returns fuel (work rank p.after) s2 a2
            (omega (arith, p.less a.roused, a.at_most, f)))

  -- From a well-formed pool, fuel for two turns more than there is work is enough.
  pub loop-Returns :
      (fuel : ℕ) (s : S)
      → Inv s
      → IsPool (seat.view s)
      → (seat.view s).poll_list ≡ []
      → work rank (seat.view s) + 1 < fuel
      → Returns fuel s
  loop-Returns zero s i v idle f = absurd (omega arith)
  loop-Returns (suc fuel) s i v idle f =
      let p = poll-Spent aw poll_future rank spends (seat.view s) v idle in
      turn-Returns fuel (work rank p.after) s p.after i p.polled p.formed p.idle (omega arith)
        (λ s2 a2. Ahead-Returns fuel (work rank p.after) s2 a2 (omega (arith, p.no_more, f)))
