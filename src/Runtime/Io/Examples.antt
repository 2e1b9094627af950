-- ===== src/Runtime/Io/Examples.antt =====
-- A runtime with two tasks that wait for one source, on which mio reports an event in every park.
mod Thread
use rust_fumio.Prelude.{
  ℕ, ◌≡◌, ◌≢◌, refl, ap, Bool, true, false, ◌||◌, Option, none, some, List, [], ◌∷◌, ◌++◌, ◌∈◌, has,
  arith, update, inl, inr, if◌then◌else◌,
}
use rust_fumio.AtomicWaker.{one_shot}
use rust_fumio.Current.{returned}
use rust_fumio.Pool.Task as PoolTask
use rust_fumio.Pool.Task.{
  TaskList, Action, state_of, ended, act_all, act, add_task, local_notify, wake, is_unlinked,
}
use rust_fumio.Pool.Round.{poll}
use rust_fumio.Pool.Invariant.{IsPool}
use rust_fumio.Pool.Thread.Examples.{
  poll_future, rank, rank-Spends, two_tasks, two_tasks-IsPool, two_tasks-idle,
}
use rust_fumio.Reactor.Readiness as Readiness
use rust_fumio.Reactor.Readiness.{
  Woken, ReactorTask, reader, writer, poll_read_ready, poll_ready, take_ready,
}
use rust_fumio.Reactor.Registration.{
  State, registration_poll_read, with_task, lock, unlock, task_from_state,
}
use rust_fumio.Reactor.Tasks.Laws.{IsTasks}
use rust_fumio.Reactor.Poll.{Timeout}
use rust_fumio.Reactor.Poll.Calls.{brings}
use rust_fumio.TimerReactor.{ParkReactor, Call}
use rust_fumio.TimerReactor.Laws.{IsRefused}
use rust_fumio.Runtime.{Locals, run}
use rust_fumio.Runtime.Laws.{IsLeft}
use rust_fumio.Runtime.Keeping.{Inside}
use rust_fumio.Runtime.Sleep.{signalled, signalled-readiness}
use rust_fumio.Runtime.Io.{runtime_park, Arrives, fired}
use rust_fumio.Runtime.Io.Source.{Waited, source-polled}
use rust_fumio.Reactor.Poll.Waiting.{poll_side}
use rust_fumio.Runtime.Io.Examples.Thread.{W, locals, locals-IsSeparate}
use rust_fumio.Runtime.Io.Ending.{Outside, IsSeparate, IsServed, Agrees, io_park, run_on_io-returns}
use rust_fumio.Runtime.Examples.{handles, outside, timer}

-- A source at the address 2 that was polled for reading, without any events yet.
abbrev waiting : ReactorTask Bool
waiting = (poll_read_ready one_shot true (Readiness.new one_shot 1 2)).0

abbrev polled : State Bool → State Bool
polled r = record r { readiness = update r.readiness 2 waiting }

abbrev call : Call
call = record { duration = none; mio = λ _. some (record { token = 2; readiness = 1 } ∷ []) }

abbrev turn : Timeout → List Call × Bool
turn _ = (call ∷ [], true)

-- The source has the waker of the first task of the pool.
abbrev owner : List ℕ → ℕ → Woken → Option ℕ
owner [] token side = none
owner (t ∷ ts) token side = some t

abbrev world : W → Outside Bool ℕ
world w = record { polled = polled; turn = turn; owner = owner w.1.local_all; others = [] }

turn-accepted : (s : State Bool) → IsRefused one_shot (call ∷ []) s → ⊥
unfolding IsRefused
turn-accepted s (inl e) = absurd (cc)
turn-accepted s (inr h) = h

-- The reading side has a waker in place, and the event is of interest to it.
waiting-Arrives :
    (l : List ℕ) (t : ℕ) (ts : List ℕ) (p : ParkReactor Bool ℕ)
    → l ≡ t ∷ ts
    → p.reactor.readiness 2 ≡ waiting
    → Arrives one_shot turn (owner l) p t
unfolding poll_read_ready poll_ready take_ready Readiness.new
waiting-Arrives l t ts p e here = record {
  token = 2;
  side = reader;
  call = call;
  later = [];
  events = record { token = 2; readiness = 1 } ∷ [];
  turns = refl;
  given = refl;
  full = omega arith;
  armed = ap (λ x. x.read.waker) here;
  wanted = ap (λ x. brings x.read.mask 2 (record { token = 2; readiness = 1 } ∷ [])) here;
  owned = ap (λ x. owner x 2 reader) e;
}

first-IsServed :
    (w : W) (l : List ℕ)
    → w.1.local_all ≡ l
    → Inside locals handles
        (Agrees locals handles locals-IsSeparate one_shot one_shot 0 rank world)
        w
    → IsPool w.1
    → l ≢ []
    → IsServed locals handles locals-IsSeparate one_shot one_shot 0 rank world w
first-IsServed w [] e i v ne = absurd (ne refl)
first-IsServed w (t ∷ ts) e i v ne = record {
  accepted = turn-accepted _;
  succeeds = refl;
  unspawned = refl;
  agrees = i.1;
  task = t;
  alive = ground (arith, v.listed t, e);
  arrives =
      waiting-Arrives w.1.local_all t ts _ e
        (ap (λ f. f 2) (signalled-readiness w.1 (record w.0.1 { reactor = polled w.0.1.reactor })));
}

abbrev take_enter : W → Option W
take_enter w = if w.0.0.entered then none else some ((record w.0.0 { entered = true }, w.0.1), w.1)

abbrev drop_enter : W → W
drop_enter w = ((record w.0.0 { entered = false }, w.0.1), w.1)

abbrev before : W
before = ((outside.0, timer), two_tasks)

abbrev entering : W
entering = ((record outside.0 { entered = true }, timer), two_tasks)

timer-IsTasks : IsTasks timer.reactor.tasks
timer-IsTasks = record {
  list_distinct = tt;
  local_distinct = tt;
  small = λ t. omega arith;
  queued = λ t. refl;
  owned = λ t. omega arith;
}

run_on_io_example :
    (end : W) × (run locals handles one_shot poll_future take_enter drop_enter
        (io_park locals handles locals-IsSeparate one_shot one_shot 0 rank world)
        6
        before
      ≡ returned (drop_enter end) (some tt))
    × IsPool end.1
    × (end.1.local_all ≡ [])
    × IsLeft locals end
unfolding act_all act add_task local_notify wake PoolTask.new is_unlinked
run_on_io_example =
    run_on_io-returns locals handles locals-IsSeparate one_shot one_shot 0 rank world poll_future
      take_enter drop_enter rank-Spends (λ w i v ne. first-IsServed w w.1.local_all refl i v ne) 6
      before entering refl (record { reactor = refl; timer = refl; spawner = refl }) timer-IsTasks
      two_tasks-IsPool two_tasks-idle (omega arith)

-- The source at 2 is registered, and was polled for reading.
abbrev registered : State Bool
registered = record timer.reactor { word = 2 }

abbrev polled_timer : ParkReactor Bool ℕ
polled_timer = record timer { reactor = (poll_side one_shot reader registered).0 }

polled_timer-Waited : Waited one_shot turn polled_timer (signalled two_tasks polled_timer) 2 reader
unfolding registration_poll_read with_task lock unlock task_from_state poll_read_ready poll_ready
    take_ready Readiness.new
polled_timer-Waited = record {
  r = registered;
  registered = refl;
  even = refl;
  full = omega arith;
  waits = refl;
  untouched = refl;
  call = call;
  later = [];
  events = record { token = 2; readiness = 1 } ∷ [];
  turns = refl;
  given = refl;
  wanted = refl;
}

source-polled_example :
    let r =
      poll one_shot poll_future
        (state_of (
          runtime_park one_shot one_shot turn 0
            (owner (0 ∷ 1 ∷ []))
            []
            ((outside.0, polled_timer), two_tasks))).1 in
    (done : List ℕ) × ((state_of r).polled ≡ two_tasks.polled ++ done)
    × ((ended r ≡ true → 0 ∈ done)
        × (ended r ≡ false → (has 0 done || has 0 (state_of r).local_pending) ≡ true))
unfolding act_all act add_task local_notify wake PoolTask.new is_unlinked
source-polled_example =
    source-polled one_shot one_shot turn 0 (owner (0 ∷ 1 ∷ [])) [] poll_future outside.0
      polled_timer two_tasks 0 2 reader two_tasks-IsPool two_tasks-idle refl polled_timer-Waited
      refl
