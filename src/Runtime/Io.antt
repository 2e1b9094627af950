-- ===== src/Runtime/Io.antt =====
-- src/timer_reactor.rs under src/runtime.rs: parking the runtime, with what the reactor's turns do to the
-- tasks of the pool whose wakers they call.
pub mod Ending
pub mod Source
mod Examples
use rust_fumio.Prelude.{
  ℕ, ◌≡◌, ◌≢◌, refl, ◌∙◌, ap, sym, subst, Bool, true, false, ◌||◌, Option, none, some, List, [],
  ◌∷◌, ◌++◌, ◌∈◌, has, arith, ◌==◌, if◌then◌else◌, eq_of_==, Bool-cases, Option-cases, ◌&&◌, inl,
  inr,
}
use rust_fumio.AtomicWaker.{AtomicWaker}
use rust_fumio.Pool.Task.{
  TaskList, Action, wake_local, wake_global, clone_waker, drop_waker, spawn, Outcome, Result, ok,
  panicked, state_of, ended, act_all,
}
use rust_fumio.Pool.Round.{poll}
use rust_fumio.Pool.Invariant.{IsPool}
use rust_fumio.Pool.Progress.{Queued, Queued-poll}
use rust_fumio.Pool.Batch.{wakes_task, wakes_task-append, batch-Queued}
use rust_fumio.Reactor.Readiness.{Woken}
use rust_fumio.Reactor.Poll.{Event, Timeout, poll_timeout}
use rust_fumio.Reactor.Poll.Calls.{
  Slot, at_side, same_side, calls, calls-append, brings, events_woken, turn_woken, turn_woken-some,
  eq_of_same_side, events_woken-calls,
}
use rust_fumio.TimerReactor.{
  Parked, left, unwound, ParkReactor, Call, park_reactor, timer_park, timer_unpark,
}
use rust_fumio.Runtime.Sleep.{signalled}

-- The tasks of the pool that the called wakers wake, on the pool's thread; `owner` says whose waker a
-- side of a registered task holds, if it is one of the pool's.
pub fired : {Fut : Type 0} → (ℕ → Woken → Option ℕ) → List Slot → List (Action Fut)
fired owner [] = []
fired owner (c ∷ cs) = elim (owner c.token c.side) [
  | none ↦ fired owner cs
  | some t ↦ wake_local t ∷ fired owner cs
]

module _ {RCell Enter : Type 0} (w : AtomicWaker RCell) where
  -- The wakers that the calls of the timer's turn call.
  pub park_woken : List Call → ParkReactor RCell Enter → List Slot
  unfolding turn_woken
  park_woken [] p = []
  park_woken (c ∷ cs) p = elim p.enter [
    | none ↦ []
    | some _ ↦
        turn_woken w c.mio c.duration p.reactor
        ++ elim (park_reactor w c p) [ left p' ↦ park_woken cs p' | unwound why p' ↦ [] ]
  ]

-- The timer, and with it the pool, as a park leaves them.
pub parked : {N P S : Type 0} → N → S → Parked P → Result ((N × P) × S)
parked n s (left p) = ok ((n, p), s)
parked n s (unwound why p) = panicked ((n, p), s)

module _ {N Cell RCell Fut Enter : Type 0} (aw : AtomicWaker Cell) (w : AtomicWaker RCell) where
  -- `TimerReactor::park` as `run_executor` calls it, without a duration. `others` is what other threads
  -- and the timer do to the pool meanwhile.
  pub runtime_park :
      (Timeout → List Call × Bool)
      → Enter
      → (ℕ → Woken → Option ℕ)
      → List (Action Fut)
      → (N × ParkReactor RCell Enter) × TaskList Cell Fut
      → Result ((N × ParkReactor RCell Enter) × TaskList Cell Fut)
  unfolding park_woken fired parked
  runtime_park turn en owner others ((n, p), s) =
      let p1 = signalled s p in
      let woken = park_woken w (turn none).0 (record p1 { enter = some en }) in
      parked n (act_all aw (others ++ fired owner woken) s) (timer_park w turn en none p1)

module _ (Fut : Type 0) (owner : ℕ → Woken → Option ℕ) (k : ℕ) (side : Woken) (t : ℕ) where
  fired_here :
      (x : Slot) (xs : List Slot)
      → owner x.token x.side ≡ some t
      → wakes_task t (fired {Fut = Fut} owner (x ∷ xs)) ≡ true
  unfolding fired
  fired_here x xs e = rw (e, fired) (ground arith)

  fired_later :
      (x : Slot) (xs : List Slot)
      → wakes_task t (fired {Fut = Fut} owner xs) ≡ true
      → wakes_task t (fired {Fut = Fut} owner (x ∷ xs)) ≡ true
  unfolding fired
  fired_later x xs m = elim (Option-cases (owner x.token x.side)) [
    | inl e ↦ rw (e, fired) m
    | inr (y, e) ↦ rw (e, fired) (ground (arith, m))
  ]

  -- A task is woken by the waker that a side holds of it.
  fired-wakes :
      (cs : List Slot)
      → owner k side ≡ some t
      → calls k side cs ≡ true
      → wakes_task t (fired {Fut = Fut} owner cs) ≡ true
  fired-wakes [] e c = absurd (cc)
  fired-wakes (x ∷ xs) e c = elim (Bool-cases (x.token == k && same_side side x.side)) [
    | inl h ↦
        let token : x.token ≡ k = eq_of_== x.token k (ground (arith, h)) in
        let same : x.side ≡ side = eq_of_same_side side x.side (ground (arith, h)) in
        fired_here x xs (cc (token, same, e))
    | inr h ↦ fired_later x xs (fired-wakes xs e (ground (arith, c, h)))
  ]

parked-pool : {N P S : Type 0} (n : N) (s : S) (r : Parked P) → (state_of (parked n s r)).1 ≡ s
unfolding parked
parked-pool n s (left p) = refl
parked-pool n s (unwound why p) = refl

module _ {RCell Enter : Type 0} (w : AtomicWaker RCell) where
  -- The first call of the turn calls the waker of a side that one of its events is for.
  park_woken-calls :
      (k : ℕ) (side : Woken) (c : Call) (cs : List Call) (es : List Event) (en : Enter)
      (p : ParkReactor RCell Enter)
      → c.mio (poll_timeout w c.duration p.reactor) ≡ some es
      → k ≢ 0
      → w.armed (at_side side (p.reactor.readiness k)).waker ≡ true
      → brings (at_side side (p.reactor.readiness k)).mask k es ≡ true
      → calls k side (park_woken w (c ∷ cs) (record p { enter = some en })) ≡ true
  unfolding park_woken
  park_woken-calls k side c cs es en p e ne a b =
      let called : calls k side (turn_woken w c.mio c.duration p.reactor) ≡ true =
        ap (calls k side) (turn_woken-some w c.mio c.duration p.reactor es e)
        ∙ events_woken-calls w k side es p.reactor ne a b in
      calls-append k side (turn_woken w c.mio c.duration p.reactor) _ ∙ ground (arith, called)

-- What queues `t` while the runtime parks: `token` is a registered task of the reactor of which a side
-- has the waker of `t` in place, and mio gives an event for it in the first call of the timer's turn.
pub record Arrives {RCell Enter : Type 0} (w : AtomicWaker RCell)
    (turn : Timeout → List Call × Bool) (owner : ℕ → Woken → Option ℕ) (p : ParkReactor RCell Enter)
    (t : ℕ) : Type 0 where
  pub token : ℕ
  pub side : Woken
  pub call : Call
  pub later : List Call
  pub events : List Event
  pub turns : (turn none).0 ≡ call ∷ later
  pub given : call.mio (poll_timeout w call.duration p.reactor) ≡ some events
  pub full : token ≢ 0
  pub armed : w.armed (at_side side (p.reactor.readiness token)).waker ≡ true
  pub wanted : brings (at_side side (p.reactor.readiness token)).mask token events ≡ true
  pub owned : owner token side ≡ some t

module _ {RCell Fut Enter : Type 0} (w : AtomicWaker RCell) (turn : Timeout → List Call × Bool)
    (en : Enter) (owner : ℕ → Woken → Option ℕ) (others : List (Action Fut)) where
  -- What a park does to the pool wakes a task for which an event arrives.
  pub Arrives-wakes :
      (p : ParkReactor RCell Enter) (t : ℕ)
      → Arrives w turn owner p t
      → wakes_task t
          (others ++ fired owner (park_woken w (turn none).0 (record p { enter = some en })))
        ≡ true
  Arrives-wakes p t h =
      let called =
        subst (λ cs. calls h.token h.side (park_woken w cs (record p { enter = some en })) ≡ true)
          (sym h.turns)
          (park_woken-calls w h.token h.side h.call h.later h.events en p h.given h.full h.armed
            h.wanted) in
      wakes_task-append t others _
      ∙ ap (λ x. wakes_task t others || x) (fired-wakes _ owner h.token h.side t _ h.owned called)
      ∙ ground arith

module _ {N Cell RCell Fut Enter : Type 0} (aw : AtomicWaker Cell) (w : AtomicWaker RCell)
    (turn : Timeout → List Call × Bool) (en : Enter) (owner : ℕ → Woken → Option ℕ)
    (others : List (Action Fut)) where
  runtime_park-Queued :
      (n : N) (p : ParkReactor RCell Enter) (s : TaskList Cell Fut) (t : ℕ)
      → IsPool s
      → s.poll_list ≡ []
      → (s.tasks t).alive ≡ true
      → Arrives w turn owner (signalled s p) t
      → Queued aw t s (state_of (runtime_park aw w turn en owner others ((n, p), s))).1
  unfolding runtime_park
  runtime_park-Queued n p s t v idle alive h =
      subst (Queued aw t s) (sym (parked-pool n _ (timer_park w turn en none (signalled s p)))) (
        batch-Queued aw t _ s v idle alive
          (Arrives-wakes w turn en owner others (signalled s p) t h))

  -- If mio reports, in the first call of the timer's turn, an event of interest for a registered task of
  -- the reactor of which one side has the waker of a live task of the pool in place, that task is polled
  -- by the next poll of the pool after the park, whatever other threads do meanwhile and however the
  -- park ends; if that poll unwinds, the task has been polled or is pending.
  pub io-polled :
      (poll_future : Fut → List (Action Fut) × Outcome Fut) (n : N) (p : ParkReactor RCell Enter)
      (s : TaskList Cell Fut) (t : ℕ)
      → IsPool s
      → s.poll_list ≡ []
      → (s.tasks t).alive ≡ true
      → Arrives w turn owner (signalled s p) t
      → let r =
          poll aw poll_future (state_of (runtime_park aw w turn en owner others ((n, p), s))).1 in
        (done : List ℕ) × ((state_of r).polled ≡ s.polled ++ done)
        × ((ended r ≡ true → t ∈ done)
            × (ended r ≡ false → (has t done || has t (state_of r).local_pending) ≡ true))
  io-polled poll_future n p s t v idle alive h =
      Queued-poll aw poll_future t s _ (runtime_park-Queued n p s t v idle alive h)
