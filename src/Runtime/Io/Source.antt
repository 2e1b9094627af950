-- ===== src/Runtime/Io/Source.antt =====
-- From a poll of a registration that is pending to the next poll of the task that made it.
use rust_fumio.Prelude.{
  ℕ, ◌%◌, ◌≡◌, ◌≢◌, ◌∙◌, ap, Bool, true, false, ◌||◌, Option, none, some, List, [], ◌∷◌, ◌++◌, ◌∈◌,
  has, subst, sym,
}
use rust_fumio.AtomicWaker.{AtomicWaker}
use rust_fumio.Pool.Task.{TaskList, Action, Outcome, state_of, ended}
use rust_fumio.Pool.Round.{poll}
use rust_fumio.Pool.Invariant.{IsPool}
use rust_fumio.Reactor.Readiness.{Woken, pending}
use rust_fumio.Reactor.Registration.{State, done}
use rust_fumio.Reactor.Poll.{Event, Timeout, poll_timeout}
use rust_fumio.Reactor.Poll.Calls.{at_side, brings}
use rust_fumio.Reactor.Poll.Waiting.{poll_side, poll_side-armed}
use rust_fumio.TimerReactor.{ParkReactor, Call}
use rust_fumio.Runtime.Sleep.{signalled, signalled-readiness}
use rust_fumio.Runtime.Io.{runtime_park, Arrives, io-polled}

-- A side of the task at `token` was polled in the state `r`, was pending, and is as that poll left it when
-- the runtime parks; then mio gives an event of interest for it in the first call of the timer's turn.
pub record Waited {RCell Enter : Type 0} (w : AtomicWaker RCell) (turn : Timeout → List Call × Bool)
    (p ready : ParkReactor RCell Enter) (token : ℕ) (side : Woken) : Type 0 where
  pub r : State RCell
  pub registered : r.word ≡ token
  pub even : token % 2 ≡ 0
  pub full : token ≢ 0
  pub waits : (poll_side w side r).1 ≡ done pending
  pub untouched :
      at_side side (p.reactor.readiness token)
      ≡ at_side side ((poll_side w side r).0.readiness token)
  pub call : Call
  pub later : List Call
  pub events : List Event
  pub turns : (turn none).0 ≡ call ∷ later
  pub given : call.mio (poll_timeout w call.duration ready.reactor) ≡ some events
  pub wanted : brings (at_side side (p.reactor.readiness token)).mask token events ≡ true

Waited-Arrives :
    {Cell RCell Fut Enter : Type 0} (w : AtomicWaker RCell) (turn : Timeout → List Call × Bool)
    (owner : ℕ → Woken → Option ℕ) (p : ParkReactor RCell Enter) (s : TaskList Cell Fut)
    (t token : ℕ) (side : Woken)
    → Waited w turn p (signalled s p) token side
    → owner token side ≡ some t
    → Arrives w turn owner (signalled s p) t
Waited-Arrives w turn owner p s t token side h e =
    let same = sym (signalled-readiness s p) in
    record {
      token = token;
      side = side;
      call = h.call;
      later = h.later;
      events = h.events;
      turns = h.turns;
      given = h.given;
      full = h.full;
      armed =
          subst (λ f. w.armed (at_side side (f token)).waker ≡ true) same
            (ap (λ x. w.armed x.waker) h.untouched
              ∙ poll_side-armed w h.r token h.registered h.even h.full side h.waits);
      wanted =
          subst (λ f. brings (at_side side (f token)).mask token h.events ≡ true) same h.wanted;
      owned = e;
    }

module _ {N Cell RCell Fut Enter : Type 0} (aw : AtomicWaker Cell) (w : AtomicWaker RCell)
    (turn : Timeout → List Call × Bool) (en : Enter) (owner : ℕ → Woken → Option ℕ)
    (others : List (Action Fut)) where
  -- If a live task of the pool polled a registered source for reading or writing and found it pending,
  -- nothing else polled that side before the runtime parks, and mio then reports an event of interest for
  -- it in the first call of the timer's turn: the task is polled again by the next poll of the pool
  -- after the park, whatever other threads do meanwhile and however the park ends; if that poll unwinds,
  -- the task has been polled or is pending.
  pub source-polled :
      (poll_future : Fut → List (Action Fut) × Outcome Fut) (n : N) (p : ParkReactor RCell Enter)
      (s : TaskList Cell Fut) (t token : ℕ) (side : Woken)
      → IsPool s
      → s.poll_list ≡ []
      → (s.tasks t).alive ≡ true
      → Waited w turn p (signalled s p) token side
      → owner token side ≡ some t
      → let r =
          poll aw poll_future (state_of (runtime_park aw w turn en owner others ((n, p), s))).1 in
        (done : List ℕ) × ((state_of r).polled ≡ s.polled ++ done)
        × ((ended r ≡ true → t ∈ done)
            × (ended r ≡ false → (has t done || has t (state_of r).local_pending) ≡ true))
  source-polled poll_future n p s t token side v idle alive h e =
      io-polled aw w turn en owner others poll_future n p s t v idle alive
        (Waited-Arrives w turn owner p s t token side h e)
