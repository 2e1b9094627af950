-- ===== src/Runtime/Keeping.antt =====
-- src/runtime.rs: the handles that the runtime enters stay set while the pool is run under them, and so
-- does what is kept by all that runs there.
use rust_fumio.Prelude.{ℕ, ◌+◌, ◌<◌, ◌≡◌, ◌≢◌, refl, ap, sym, subst, ◌∙◌, List, [], Option, some}
use rust_fumio.AtomicWaker.{AtomicWaker}
use rust_fumio.Current.{on_exit, returned, can_write}
use rust_fumio.Current.Laws.{after, cleared}
use rust_fumio.Pool.Task as PoolTask
use rust_fumio.Pool.Task.{TaskList, Action, Result}
use rust_fumio.Pool.Invariant.{IsPool}
use rust_fumio.Pool.Work.{work}
use rust_fumio.Pool.Spending.{Spends}
use rust_fumio.Pool.Exec as Exec
use rust_fumio.Pool.Exec.{Turn, finished, waiting, run_executor, poll_pool}
use rust_fumio.Runtime.{
  Locals, Handle, ended, pool_turn, enter_run, run, runtime_enter, handle_enter,
}
use rust_fumio.Runtime.Laws.{
  IsFree, IsEntered, IsLeft, IsWritable, leave, handle_enter_at, guarded-on_exit,
}
use rust_fumio.Pool.Turns.{Seat, Revives, loop-Returns}

-- The current handles of a thread are apart from the pool.
pub record IsApart {M RH TH SH Cell Fut : Type 0} (k : Locals (M × TaskList Cell Fut) RH TH SH)
    : Type 0 where
  pub reactor :
      (m : M) (s s' : TaskList Cell Fut) → (k.reactor).get (m, s) ≡ (k.reactor).get (m, s')
  pub timer : (m : M) (s s' : TaskList Cell Fut) → k.default_timer (m, s) ≡ k.default_timer (m, s')
  pub spawner :
      (m : M) (s s' : TaskList Cell Fut) → (k.spawner).get (m, s) ≡ (k.spawner).get (m, s')
  pub put_reactor : (c : _) (w : M × TaskList Cell Fut) → ((k.reactor).put c w).1 ≡ w.1
  pub put_spawner : (c : _) (w : M × TaskList Cell Fut) → ((k.spawner).put c w).1 ≡ w.1
  pub set_timer : (t : TH) (w w' : M × TaskList Cell Fut) → k.set_default t w ≡ some w' → w'.1 ≡ w.1
  pub drop_timer : (w : M × TaskList Cell Fut) → (k.drop_default w).1 ≡ w.1

-- What setting the handles keeps of the rest of the state.
pub record Steady {M RH TH SH Cell Fut : Type 0} (k : Locals (M × TaskList Cell Fut) RH TH SH)
    (J : M → Type 0) : Type 0 where
  pub put_reactor : (c : _) (w : M × TaskList Cell Fut) → J w.0 → J ((k.reactor).put c w).0
  pub put_spawner : (c : _) (w : M × TaskList Cell Fut) → J w.0 → J ((k.spawner).put c w).0
  pub set_timer :
      (t : TH) (w w' : M × TaskList Cell Fut) → k.set_default t w ≡ some w' → J w.0 → J w'.0

-- The handles are set, and `J` holds.
abbrev pub Inside :
    {M RH TH SH Cell Fut : Type 0}
    → Locals (M × TaskList Cell Fut) RH TH SH
    → Handle RH TH SH
    → (M → Type 0)
    → M × TaskList Cell Fut
    → Type 0
Inside k h J w = IsEntered k h w × J w.0

module _ {M RH TH SH Cell Fut : Type 0} (k : Locals (M × TaskList Cell Fut) RH TH SH)
    (apart : IsApart k) (J : M → Type 0) (steady : Steady k J) where
  -- The end of the guards leaves the pool as it is.
  leave-same : (w : M × TaskList Cell Fut) → (leave k w).1 ≡ w.1
  leave-same w =
      apart.put_reactor _ (k.drop_default (cleared k.spawner w))
      ∙ apart.drop_timer (cleared k.spawner w)
      ∙ apart.put_spawner _ w

  IsEntered-IsWritable :
      (h : Handle RH TH SH) (w : M × TaskList Cell Fut) → IsEntered k h w → IsWritable k w
  IsEntered-IsWritable h w i = (ap can_write i.reactor, ap can_write i.spawner)

  module _ (h : Handle RH TH SH) (aw : AtomicWaker Cell)
      (poll_future : Fut → List (Action Fut) × PoolTask.Outcome Fut)
      (take_enter : M × TaskList Cell Fut → Option (M × TaskList Cell Fut))
      (drop_enter : M × TaskList Cell Fut → M × TaskList Cell Fut) (rank : Fut → ℕ)
      (spends : (f : Fut) → Spends rank f (poll_future f).0 (poll_future f).1)
      (park : M × TaskList Cell Fut → Result (M × TaskList Cell Fut))
      (revives : (w : M × TaskList Cell Fut)
        → Inside k h J w
        → IsPool w.1
        → w.1.poll_list ≡ []
        → w.1.local_all ≢ []
        → Revives aw rank (λ (w' : M × TaskList Cell Fut). w'.1) (Inside k h J) w (park w)) where
    -- The closure of `run`.
    abbrev turn : M × TaskList Cell Fut → Turn (M × TaskList Cell Fut) Unit
    turn = pool_turn k h aw poll_future take_enter drop_enter

    turn-finished :
        (p : TaskList Cell Fut) (w : M × TaskList Cell Fut)
        → poll_pool aw poll_future w.1 ≡ finished p tt
        → turn w ≡ finished (w.0, p) tt
    unfolding pool_turn
    turn-finished p w e = rw (e, pool_turn) refl

    turn-waiting :
        (p : TaskList Cell Fut) (w : M × TaskList Cell Fut)
        → poll_pool aw poll_future w.1 ≡ waiting p
        → turn w ≡ waiting (w.0, p)
    unfolding pool_turn
    turn-waiting p w e = rw (e, pool_turn) refl

    -- A turn of the pool leaves the handles as they are.
    runtime_seat : Seat aw poll_future (Inside k h J) turn
    runtime_seat = record {
      view = λ w. w.1;
      put = λ p w. (w.0, p);
      view_put = λ _ _. refl;
      put_kept = λ p w i. (
        record {
          reactor = apart.reactor w.0 p w.1 ∙ i.0.reactor;
          timer = apart.timer w.0 p w.1 ∙ i.0.timer;
          spawner = apart.spawner w.0 p w.1 ∙ i.0.spawner;
        },
        i.1,
      );
      turn_finished = turn-finished;
      turn_waiting = turn-waiting;
    }

    -- What is left when the loop has returned under the handles.
    abbrev Done : ℕ → M × TaskList Cell Fut → Type 0
    Done fuel w =
        (end : M × TaskList Cell Fut) × (run k h aw poll_future take_enter drop_enter park fuel w
          ≡ returned (drop_enter end) (some tt))
        × IsPool end.1
        × (end.1.local_all ≡ [])
        × IsLeft k end

    after_loop :
        (fuel : ℕ) (w w1 inside last : M × TaskList Cell Fut)
        → take_enter w ≡ some w1
        → enter_run k h aw poll_future take_enter drop_enter park fuel w1
          ≡ on_exit (leave k) (ended (run_executor park turn fuel inside))
        → run_executor park turn fuel inside ≡ Exec.returned last tt
        → IsPool last.1
        → last.1.local_all ≡ []
        → IsLeft k (leave k last)
        → Done fuel w
    unfolding run
    after_loop fuel w w1 inside last e runs ends v no_task left =
        let kept = sym (leave-same last) in
        (
          leave k last,
          guarded-on_exit k take_enter drop_enter
                (enter_run k h aw poll_future take_enter drop_enter park fuel) w w1 e
              ∙ ap (on_exit drop_enter) (runs ∙ ap (λ r. on_exit (leave k) (ended r)) ends),
          subst IsPool kept v,
          subst (λ (s : TaskList Cell Fut). s.local_all ≡ []) kept no_task,
          left,
        )

    -- The run of a well-formed pool under the handles returns, with no task left.
    pub run_keeping-returns :
        (fuel : ℕ) (w w1 : M × TaskList Cell Fut)
        → take_enter w ≡ some w1
        → IsFree k w1
        → J w1.0
        → IsPool w1.1
        → w1.1.poll_list ≡ []
        → work rank w1.1 + 1 < fuel
        → (end : M × TaskList Cell Fut) × (run k h aw poll_future take_enter drop_enter park fuel w
            ≡ returned (drop_enter end) (some tt))
          × IsPool end.1
          × (end.1.local_all ≡ [])
          × IsLeft k end
    unfolding run enter_run runtime_enter handle_enter runtime_seat
    run_keeping-returns fuel w w1 e free j v idle enough =
        let f = λ (w' : M × TaskList Cell Fut). ended (run_executor park turn fuel w') in
        let loop =
          λ (w' : M × TaskList Cell Fut) (i : IsEntered k h w') (same : J w'.0 × (w'.1 ≡ w1.1)).
            loop-Returns aw poll_future (Inside k h J) turn runtime_seat rank spends park revives
              fuel w' (i, same.0) (subst IsPool (sym same.1) v)
              (subst (λ (s : TaskList Cell Fut). s.poll_list ≡ []) (sym same.1) idle)
              (subst (λ s. work rank s + 1 < fuel) (sym same.1) enough) in
        let (inside, (entered, (same, (runs, left)))) =
          handle_enter_at k (λ w'. J w'.0 × (w'.1 ≡ w1.1))
            (λ c w' p. (steady.put_reactor c w' p.0, apart.put_reactor c w' ∙ p.1))
            (λ t w' w2 set p. (steady.set_timer t w' w2 set p.0, apart.set_timer t w' w2 set ∙ p.1))
            (λ c w' p. (steady.put_spawner c w' p.0, apart.put_spawner c w' ∙ p.1)) h f w1 (j, refl)
            free
            (λ w' i same.
              let (last, ends, _, _, i2) = loop w' i same in
              subst (λ r. IsWritable k (after (ended r))) (sym ends)
                (IsEntered-IsWritable h last i2.0)) in
        let (last, ends, v2, no_task, _) = loop inside entered same in
        after_loop fuel w w1 inside last e runs ends v2 no_task (left last)
