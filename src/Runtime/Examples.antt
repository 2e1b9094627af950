-- ===== src/Runtime/Examples.antt =====
-- A thread whose current handles are numbers, and a main future that reads one of them.
use rust_fumio.Prelude.{
  ℕ, ◌≡◌, refl, ap, arith, if◌then◌else◌, Bool, true, false, Option, none, some, List, [], ◌∷◌,
}
use rust_fumio.AtomicWaker.{one_shot}
use rust_fumio.Current.{Current, Outcome, returned, on_exit, new, can_write}
use rust_fumio.Pool.Task.{
  TaskList, Action, wake_global, spawn, act_all, act, add_task, local_notify, global_notify, wake,
  is_unlinked, fetch_global_notifies, fetch_all, fetch_one, finish_poll, local_clear,
}
use rust_fumio.Pool.Round.{poll, poll_tasks, poll_loop, poll_next, local_poll, poll_some, restore}
use rust_fumio.Pool.Invariant.{IsPool, new-IsPool}
use rust_fumio.Pool.Notify.{act_all-IsPool}
use rust_fumio.Reactor.Readiness as Readiness
use rust_fumio.Reactor.Poll.{poll_timeout}
use rust_fumio.TimerReactor.{ParkReactor}
use rust_fumio.Runtime.Sleep.{signalled, signalled-timeout}
use rust_fumio.Pool.Task as PoolTask
use rust_fumio.Pool.Exec.{Turn, finished}
use rust_fumio.Pool.Exec.Laws.{at_once, until_turn-finished}
use rust_fumio.Runtime.{Locals, Handle, handle_enter, run_until_end}
use rust_fumio.Runtime.Laws.{
  IsFree, IsEntered, IsLeft, leave, Completes, handle_enter_lem, run_until_end_lem,
}

pub record Thread : Type 0 where
  pub reactor_cell : Current ℕ
  pub spawner_cell : Current ℕ
  pub timer : Option ℕ
  pub entered : Bool

abbrev pub W : Type 0
W = Thread × TaskList Bool ℕ

abbrev pub set_timer : ℕ → W → Option W
set_timer t w = elim w.0.timer [ none ↦ some (record w.0 { timer = some t }, w.1) | some _ ↦ none ]

pub set_timer-some :
    (t : ℕ) (w : W) → w.0.timer ≡ none → set_timer t w ≡ some (record w.0 { timer = some t }, w.1)
set_timer-some t w e = ground (arith, e)

abbrev pub locals : Locals W ℕ ℕ ℕ
locals = record {
  reactor = record {
    get = λ w. w.0.reactor_cell;
    put = λ c w. (record w.0 { reactor_cell = c }, w.1);
    get_put = λ _ _. refl;
    put_get = λ _. refl;
    put_put = λ _ _ _. refl;
  };
  spawner = record {
    get = λ w. w.0.spawner_cell;
    put = λ c w. (record w.0 { spawner_cell = c }, w.1);
    get_put = λ _ _. refl;
    put_get = λ _. refl;
    put_put = λ _ _ _. refl;
  };
  default_timer = λ w. w.0.timer;
  set_default = set_timer;
  drop_default = λ w. (record w.0 { timer = none }, w.1);
  set_when_free =
      λ t w e. ((record w.0 { timer = some t }, w.1), set_timer-some t w e, (refl, (refl, refl)));
  drop_clears = λ _. refl;
  reactor-drop = λ _. refl;
  spawner-drop = λ _. refl;
  timer-reactor = λ _ _. refl;
  timer-spawner = λ _ _. refl;
  reactor-spawner = λ _ _. refl;
  spawner-reactor = λ _ _. refl;
}

abbrev pub handles : Handle ℕ ℕ ℕ
handles = record { reactor_handle = 1; timer_handle = 2; local_spawner = 3 }

abbrev pub outside : W
outside = (
  record { reactor_cell = new; spawner_cell = new; timer = none; entered = false },
  PoolTask.new one_shot,
)

outside-IsFree : IsFree locals outside
outside-IsFree = record { reactor = refl; timer = refl; spawner = refl }

abbrev reads : W → Outcome W (Option ℕ)
reads w = returned w w.0.reactor_cell.value

handle_enter_example :
    (inside : W) × (IsEntered locals handles inside
      × ((handle_enter locals handles reads outside ≡ on_exit (leave locals) (reads inside))
          × ((w' : W) → IsLeft locals (leave locals w'))))
handle_enter_example =
    handle_enter_lem locals handles reads outside outside-IsFree
      (λ w i. (ground (arith, i.reactor), ground (arith, i.spawner)))

abbrev never_polled : ℕ → List (Action ℕ) × PoolTask.Outcome ℕ
never_polled n = ([], PoolTask.pending n)

abbrev poll_main : W → Turn W (Option ℕ)
poll_main w = finished w w.0.reactor_cell.value

abbrev pub take_enter : W → Option W
take_enter w = if w.0.entered then none else some (record w.0 { entered = true }, w.1)

abbrev pub drop_enter : W → W
drop_enter w = (record w.0 { entered = false }, w.1)

abbrev pub in_executor : W
in_executor = (record outside.0 { entered = true }, outside.1)

in_executor-IsFree : IsFree locals in_executor
in_executor-IsFree = record { reactor = refl; timer = refl; spawner = refl }

abbrev completes :
    (w : W)
    → IsEntered locals handles w
    → Completes locals handles one_shot never_polled take_enter drop_enter PoolTask.ok poll_main 0 w
completes w i = record {
  before = w;
  last = w;
  t = w.0.reactor_cell.value;
  turns = at_once;
  gives = until_turn-finished one_shot never_polled poll_main w w (w.0.reactor_cell.value) refl;
  writable = (ap can_write i.reactor, ap can_write i.spawner);
}

run_until_end_example :
    (inside : W) × ((i : IsEntered locals handles inside) × ((run_until_end locals handles one_shot
            never_polled take_enter drop_enter PoolTask.ok poll_main 1 outside
          ≡ returned
              (drop_enter (leave locals (completes inside i).last))
              (some (completes inside i).t))
        × IsLeft locals (leave locals (completes inside i).last)))
run_until_end_example =
    run_until_end_lem locals handles one_shot never_polled take_enter drop_enter PoolTask.ok
      poll_main 0 1 outside in_executor refl in_executor-IsFree (omega arith) completes

-- A pool with one task, and a reactor that lives and is not in a turn.
abbrev one_task : TaskList Bool ℕ
one_task = act_all one_shot (spawn 1 ∷ []) (PoolTask.new one_shot)

one_task-IsPool : IsPool one_task
one_task-IsPool =
    act_all-IsPool one_shot (spawn 1 ∷ []) (PoolTask.new one_shot) (new-IsPool one_shot ℕ)

one_task-ended : PoolTask.ended (poll one_shot never_polled one_task) ≡ true
unfolding poll poll_tasks poll_loop poll_next local_poll poll_some restore fetch_global_notifies
    fetch_all fetch_one finish_poll local_clear global_notify act_all act add_task local_notify wake
    PoolTask.new is_unlinked
one_task-ended = refl

abbrev pub timer : ParkReactor Bool ℕ
timer = record {
  reactor = record {
    tasks = record { list = []; local_list = []; state = λ _. 0; refs = λ _. 0 };
    readiness = λ _. Readiness.new one_shot 1 2;
    waker = 0;
    signals = 0;
    alive = true;
    word = 0;
    io = true;
    read_mask = 1;
    write_mask = 2;
  };
  enter = none;
}

abbrev after_turn : TaskList Bool ℕ
after_turn =
    act_all one_shot (wake_global 0 ∷ []) (PoolTask.state_of (poll one_shot never_polled one_task))

signalled-timeout_example :
    (after_turn.woken ≡ true
      → poll_timeout one_shot none (signalled after_turn timer).reactor ≡ some 0)
    × (after_turn.woken ≡ false
        → timer.reactor.waker ≡ 0
        → poll_timeout one_shot none (signalled after_turn timer).reactor ≡ none)
signalled-timeout_example = signalled-timeout one_shot none after_turn timer (omega arith)
