-- ===== src/TimerReactor/Examples.antt =====
-- A reactor with no tasks, and a timer that parks twice in a turn.
use rust_fumio.Prelude.{
  ℕ, ◌≡◌, refl, ◌⊎◌, arith, Bool, true, if◌then◌else◌, none, some, List, [], ◌∷◌,
}
use rust_fumio.AtomicWaker.{one_shot}
use rust_fumio.Reactor.Tasks.{Tasks}
use rust_fumio.Reactor.Tasks.Laws.{IsTasks}
use rust_fumio.Reactor.Readiness.{new}
use rust_fumio.Reactor.Registration.{State}
use rust_fumio.Reactor.Poll.{Timeout}
use rust_fumio.TimerReactor.{ParkReactor, Call, poll_failed, turn_failed, left, unwound, timer_park}
use rust_fumio.TimerReactor.Laws.{IsRefused, timer_park_lem}

abbrev no_tasks : Tasks
no_tasks = record { list = []; local_list = []; state = λ _. 0; refs = λ _. 1 }

no_tasks-IsTasks : IsTasks no_tasks
no_tasks-IsTasks = record {
  list_distinct = tt;
  local_distinct = tt;
  small = λ t. omega arith;
  queued = λ t. refl;
  owned = λ t. omega arith;
}

abbrev idle : ParkReactor Bool ℕ
idle = record {
  reactor = record {
    tasks = no_tasks;
    readiness = λ _. new one_shot 1 2;
    waker = 0;
    signals = 0;
    alive = true;
    word = 0;
    io = true;
    read_mask = 1;
    write_mask = 2;
  };
  enter = none;
}

-- The second call is refused by mio.
abbrev turn : Timeout → List Call × Bool
turn timeout = (
  record { duration = timeout; mio = λ _. some (record { token = 0; readiness = 1 } ∷ []) }
      ∷ record { duration = some 0; mio = λ _. none }
      ∷ [],
  true,
)

timer_park_example :
    (IsRefused one_shot (turn (some 5)).0 idle.reactor
      × ((p : ParkReactor Bool ℕ) × (timer_park one_shot turn 8 (some 5) idle
            ≡ unwound poll_failed p)))
    ⊎ ((IsRefused one_shot (turn (some 5)).0 idle.reactor → ⊥)
        × ((s : State Bool) × (IsTasks s.tasks
              × (timer_park one_shot turn 8 (some 5) idle ≡ (
                  let idle' : ParkReactor Bool ℕ = record { reactor = s; enter = none } in
                  if (turn (some 5)).1 then left idle' else unwound turn_failed idle')))))
timer_park_example = timer_park_lem one_shot turn 8 (some 5) idle no_tasks-IsTasks
