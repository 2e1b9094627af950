-- ===== src/Runtime/Io/Ending.antt =====
-- src/runtime.rs: `Runtime::run` on the timer and the reactor of src/timer_reactor.rs.
use rust_fumio.Prelude.{
  ℕ, ◌+◌, ◌<◌, ◌≡◌, ◌≢◌, refl, ap, sym, subst, ◌∙◌, Bool, true, List, [], ◌++◌, ◌∷◌, Option, none,
  some, arith, inl, inr, Option-cases,
}
use rust_fumio.AtomicWaker.{AtomicWaker}
use rust_fumio.Current.{returned}
use rust_fumio.Pool.Task as PoolTask
use rust_fumio.Pool.Task.{TaskList, Action, Result, ok, act_all, wake_local}
use rust_fumio.Pool.Invariant.{IsPool}
use rust_fumio.Pool.Work.{work, spawned}
use rust_fumio.Pool.Spending.{Spends}
use rust_fumio.Pool.Batch.{batch-Queued, spawned-append}
use rust_fumio.Pool.Turns.{Revives}
use rust_fumio.Reactor.Readiness.{Woken}
use rust_fumio.Reactor.Tasks.Laws.{IsTasks}
use rust_fumio.Reactor.Poll.{Timeout}
use rust_fumio.Reactor.Registration.{State}
use rust_fumio.Reactor.Poll.Calls.{Slot}
use rust_fumio.TimerReactor.{left, ParkReactor, Call, timer_park}
use rust_fumio.TimerReactor.Laws.{IsRefused, timer_park_lem}
use rust_fumio.Runtime.{Locals, Handle, run}
use rust_fumio.Runtime.Laws.{IsFree, IsLeft}
use rust_fumio.Runtime.Sleep.{signalled, signalled-tasks}
use rust_fumio.Runtime.Io.{fired, park_woken, parked, runtime_park, Arrives, Arrives-wakes}
use rust_fumio.Runtime.Keeping.{IsApart, Steady, Inside, run_keeping-returns}

-- What the world gives to one park: what the futures polled before it did with their registrations, the
-- turn of the timer, with what mio reports, whose wakers the registered tasks hold, and what other
-- threads and the timer do to the pool.
pub record Outside (RCell Fut : Type 0) : Type 0 where
  pub polled : State RCell → State RCell
  pub turn : Timeout → List Call × Bool
  pub owner : ℕ → Woken → Option ℕ
  pub others : List (Action Fut)

-- The current handles of a thread are apart from the timer and from the pool.
pub record IsSeparate {N P RH TH SH Cell Fut : Type 0}
    (k : Locals ((N × P) × TaskList Cell Fut) RH TH SH) : Type 0 where
  pub reactor :
      (n : N) (p p' : P) (s s' : TaskList Cell Fut)
      → (k.reactor).get ((n, p), s) ≡ (k.reactor).get ((n, p'), s')
  pub timer :
      (n : N) (p p' : P) (s s' : TaskList Cell Fut)
      → k.default_timer ((n, p), s) ≡ k.default_timer ((n, p'), s')
  pub spawner :
      (n : N) (p p' : P) (s s' : TaskList Cell Fut)
      → (k.spawner).get ((n, p), s) ≡ (k.spawner).get ((n, p'), s')
  pub put_reactor :
      (c : _) (w : (N × P) × TaskList Cell Fut)
      → (((k.reactor).put c w).0.1 ≡ w.0.1) × (((k.reactor).put c w).1 ≡ w.1)
  pub put_spawner :
      (c : _) (w : (N × P) × TaskList Cell Fut)
      → (((k.spawner).put c w).0.1 ≡ w.0.1) × (((k.spawner).put c w).1 ≡ w.1)
  pub set_timer :
      (t : TH) (w w' : (N × P) × TaskList Cell Fut)
      → k.set_default t w ≡ some w'
      → (w'.0.1 ≡ w.0.1) × (w'.1 ≡ w.1)
  pub drop_timer : (w : (N × P) × TaskList Cell Fut) → (k.drop_default w).1 ≡ w.1

fired-spawned :
    {Fut : Type 0} (rank : Fut → ℕ) (owner : ℕ → Woken → Option ℕ) (cs : List Slot)
    → spawned rank (fired owner cs) ≡ 0
unfolding fired
fired-spawned rank owner [] = refl
fired-spawned rank owner (c ∷ cs) = elim (Option-cases (owner c.token c.side)) [
  | inl e ↦ rw (e, fired) (fired-spawned rank owner cs)
  | inr (t, e) ↦ rw (e, fired) (fired-spawned rank owner cs)
]

module _ {N RH TH SH Cell RCell Fut Enter : Type 0}
    (k : Locals ((N × ParkReactor RCell Enter) × TaskList Cell Fut) RH TH SH) (h : Handle RH TH SH)
    (separate : IsSeparate k) (aw : AtomicWaker Cell) (rw' : AtomicWaker RCell) (en : Enter)
    (rank : Fut → ℕ)
    (outside : (N × ParkReactor RCell Enter) × TaskList Cell Fut → Outside RCell Fut) where
  abbrev pub W : Type 0
  W = (N × ParkReactor RCell Enter) × TaskList Cell Fut

  -- The tasks of the reactor agree with their lists.
  abbrev pub Agrees : N × ParkReactor RCell Enter → Type 0
  Agrees m = IsTasks m.1.reactor.tasks

  -- The timer after the polls before the park.
  abbrev pub prepared : W → ParkReactor RCell Enter
  prepared w = record w.0.1 { reactor = (outside w).polled w.0.1.reactor }

  abbrev pub ready : W → ParkReactor RCell Enter
  ready w = signalled w.1 (prepared w)

  abbrev pub io_park : W → Result W
  io_park w =
      runtime_park aw rw' (outside w).turn en (outside w).owner (outside w).others
        ((w.0.0, prepared w), w.1)

  -- The park from `w` is served: mio refuses no call, the turn of the timer succeeds, what others do
  -- spawns nothing, and an event arrives for a live task.
  pub record IsServed (w : W) : Type 0 where
    pub accepted : IsRefused rw' ((outside w).turn none).0 (ready w).reactor → ⊥
    pub succeeds : ((outside w).turn none).1 ≡ true
    pub unspawned : spawned rank (outside w).others ≡ 0
    pub agrees : IsTasks (prepared w).reactor.tasks
    pub task : ℕ
    pub alive : (w.1.tasks task).alive ≡ true
    pub arrives : Arrives rw' (outside w).turn (outside w).owner (ready w) task

  pub separate-IsApart : IsApart k
  separate-IsApart = record {
    reactor = λ m s s'. separate.reactor m.0 m.1 m.1 s s';
    timer = λ m s s'. separate.timer m.0 m.1 m.1 s s';
    spawner = λ m s s'. separate.spawner m.0 m.1 m.1 s s';
    put_reactor = λ c w. (separate.put_reactor c w).1;
    put_spawner = λ c w. (separate.put_spawner c w).1;
    set_timer = λ t w w' e. (separate.set_timer t w w' e).1;
    drop_timer = separate.drop_timer;
  }

  abbrev Agreeing : ParkReactor RCell Enter → Type 0
  Agreeing p = IsTasks p.reactor.tasks

  pub separate-Steady : Steady k Agrees
  separate-Steady = record {
    put_reactor = λ c w. subst Agreeing (sym (separate.put_reactor c w).0);
    put_spawner = λ c w. subst Agreeing (sym (separate.put_spawner c w).0);
    set_timer = λ t w w' e. subst Agreeing (sym (separate.set_timer t w w' e).0);
  }

  -- A park that is served leaves the timer with its tasks in agreement.
  served-left :
      (w : W)
      → (s : IsServed w)
      → (p : ParkReactor RCell Enter) × (Agreeing p
          × (timer_park rw' (outside w).turn en none (ready w) ≡ left p))
  served-left w s =
      elim (timer_park_lem rw' (outside w).turn en none (ready w)
        (subst IsTasks (sym (signalled-tasks w.1 (prepared w))) s.agrees)) [
          | inl (refused, _) ↦ absurd (s.accepted refused)
          | inr (_, (r, (v, e))) ↦ (_, (v, rw s.succeeds at e))
        ]

  pub served-Revives :
      (w : W)
      → Inside k h Agrees w
      → IsPool w.1
      → w.1.poll_list ≡ []
      → IsServed w
      → Revives aw rank (λ (w' : W). w'.1) (Inside k h Agrees) w (io_park w)
  unfolding runtime_park parked
  served-Revives w i v idle s =
      let (p, (agreeing, e)) = served-left w s in
      let o = outside w in
      let woken = park_woken rw' (o.turn none).0 (record (ready w) { enter = some en }) in
      let batch = o.others ++ fired o.owner woken in
      let q =
        batch-Queued aw s.task batch w.1 v idle s.alive
          (Arrives-wakes rw' o.turn en o.owner o.others (ready w) s.task s.arrives) in
      let after = act_all aw batch w.1 in
      record {
        back = ((w.0.0, p), after);
        actions = batch;
        came_back = ap (parked w.0.0 after) e;
        acted = refl;
        unspawned = omega (
          arith,
          spawned-append rank o.others (fired o.owner woken),
          s.unspawned,
          fired-spawned rank o.owner woken,
        );
        roused = record { task = s.task; alive = q.alive; queued = q.queued };
        kept = (
          record {
            reactor = separate.reactor w.0.0 p w.0.1 after w.1 ∙ i.0.reactor;
            timer = separate.timer w.0.0 p w.0.1 after w.1 ∙ i.0.timer;
            spawner = separate.spawner w.0.0 p w.0.1 after w.1 ∙ i.0.spawner;
          },
          agreeing,
        );
      }

  module _ (poll_future : Fut → List (Action Fut) × PoolTask.Outcome Fut)
      (take_enter : W → Option W) (drop_enter : W → W)
      (spends : (f : Fut) → Spends rank f (poll_future f).0 (poll_future f).1)
      (serves : (w : W) → Inside k h Agrees w → IsPool w.1 → w.1.local_all ≢ [] → IsServed w) where
    -- If every poll of a future ends without a panic and takes work away, by some rank of the futures,
    -- and every park while there are tasks is served, that is, the tasks of the reactor agree with their lists after the polls before it, mio and the timer do not fail, and mio
    -- reports an event of interest for a registered task of which a side has the waker of a live task of
    -- the pool in place, while others spawn nothing; on a thread that runs no executor and has no handle
    -- set, and whose handles are apart from the timer and the pool, with the tasks of the reactor in
    -- agreement with their lists: `Runtime::run` over the timer and the reactor, on a well-formed pool
    -- and with fuel for two turns more than there is work, returns, the pool is well formed and has no
    -- task left, and no handle is set afterwards.
    pub run_on_io-returns :
        (fuel : ℕ) (w w1 : W)
        → take_enter w ≡ some w1
        → IsFree k w1
        → Agrees w1.0
        → IsPool w1.1
        → w1.1.poll_list ≡ []
        → work rank w1.1 + 1 < fuel
        → (end : W) × (run k h aw poll_future take_enter drop_enter io_park fuel w
            ≡ returned (drop_enter end) (some tt))
          × IsPool end.1
          × (end.1.local_all ≡ [])
          × IsLeft k end
    run_on_io-returns fuel w w1 e free agrees v idle enough =
        run_keeping-returns k separate-IsApart Agrees separate-Steady h aw poll_future take_enter
          drop_enter rank spends io_park
          (λ w' i v' idle' tasks. served-Revives w' i v' idle' (serves w' i v' tasks)) fuel w w1 e
          free agrees v idle enough
