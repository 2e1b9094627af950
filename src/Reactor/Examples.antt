-- ===== src/Reactor/Examples.antt =====
-- A reactor with concrete tasks and a registration.
use rust_fumio.Prelude.{
  List, some, none, Option, ℕ, zero, suc, ◌<◌, ◌+◌, ◌%◌, ◌≡◌, ◌≢◌, refl, ◌⊎◌, Bool, true, false, [],
  ◌∷◌, arith,
}
use Prim.Native.Nat.{bit_or}
use rust_fumio.AtomicWaker.{one_shot}
use rust_fumio.Reactor.Waker.{
  polling, World, woken, wake, waking, load_clear, enter_clear, load_pending, enter_poll, Reach,
  start, later,
}
use rust_fumio.Reactor.Waker.Safety.{IsPending, no_lost_wakeup}
use rust_fumio.Reactor.Tasks.Drop.{drop_tasks-refs}
use rust_fumio.Reactor.Tasks.{Tasks, drop_tasks, add_task, cleanup_tasks}
use rust_fumio.Reactor.Tasks.Laws.{IsTasks, held, add_task-IsTasks}
use rust_fumio.Reactor.Tasks.Cleanup.{Cleaned, cleanup_tasks-Cleaned}
use rust_fumio.Reactor.Readiness.{new, poll_ready, poll_read_ready, take_ready}
use rust_fumio.Reactor.Readiness.Threads
use rust_fumio.Reactor.Registration.{
  State, error, panic, register, deregister, into_inner, registration_poll_read, with_task, lock,
  unlock, task_from_state, set_low,
}
use rust_fumio.Reactor.Registration.Laws.{
  register_lem, into_inner-panics, polls, polls_leak, cycle_leak,
}
use rust_fumio.Reactor.Registration.Lock
use rust_fumio.Reactor.Registration.Unlock.{Op, registering, polling_read, polling_write}
use rust_fumio.Reactor.Evented.{
  IoResult, ok, interrupted, async_io, ready_ok, PollEvented, incomplete, complete, not_registered,
  come_back, panicked, try_mut_read, try_mut_write, try_mut, register_once,
}
use rust_fumio.Reactor.Evented.Laws.{
  none_yet, one_more, async_io_lem, refused-try_mut, come_back-woken,
}
use rust_fumio.Reactor.Poll.{Event, Timeout, poll, poll_timeout}
use rust_fumio.Reactor.Poll.Laws.{Turned, poll-Turned}

-- The polling thread has entered its poll, and then a thread wakes it.
abbrev in_poll : World
in_poll = record { state = (enter_poll 0).0; poller = polling false; signals = 0; ready = false }

in_poll-Reach : Reach (woken in_poll)
unfolding load_pending enter_poll wake
in_poll-Reach = later (later (later start (load_clear refl refl)) (enter_clear refl refl)) waking

in_poll-IsPending : IsPending (woken in_poll).state
unfolding enter_poll wake
in_poll-IsPending = refl

no_lost_wakeup_example : ((woken in_poll).ready ≡ true) ⊎ (0 < (woken in_poll).signals)
no_lost_wakeup_example = no_lost_wakeup in_poll-Reach refl in_poll-IsPending

-- No task is registered; each has one reference.
abbrev no_tasks : Tasks
no_tasks = record { list = []; local_list = []; state = λ _. 0; refs = λ _. 1 }

no_tasks-IsTasks : IsTasks no_tasks
no_tasks-IsTasks = record {
  list_distinct = tt;
  local_distinct = tt;
  small = λ t. omega arith;
  queued = λ t. refl;
  owned = λ t. omega arith;
}

one_task-IsTasks : IsTasks (add_task 4 no_tasks)
one_task-IsTasks = add_task-IsTasks no_tasks no_tasks-IsTasks 4 (omega arith)

cleanup_tasks_example :
    Cleaned (add_task 4 no_tasks).list (add_task 4 no_tasks) (cleanup_tasks (add_task 4 no_tasks))
cleanup_tasks_example = cleanup_tasks-Cleaned (add_task 4 no_tasks) one_task-IsTasks

-- A poll has returned `Pending`, and then an event is noted.
abbrev noted : Threads.World Bool
noted = record {
  readiness = bit_or 0 4;
  waker = true;
  waking = 1;
  called = false;
  stage = Threads.waiting;
}

noted-Reach : Threads.Reach one_shot noted
noted-Reach =
    Threads.later
      (Threads.later
        (Threads.later (Threads.later Threads.start (Threads.first_empty refl refl))
          (Threads.register refl))
        (Threads.second_empty refl refl))
      (Threads.set_bits 4)

no_lost_readiness_example :
    ((one_shot.armed noted.waker ≡ true) ⊎ (noted.called ≡ true))
    × (noted.readiness ≢ 0 → (noted.waking ≢ 0) ⊎ (noted.called ≡ true))
no_lost_readiness_example = Threads.no_lost_readiness one_shot noted-Reach refl

-- A source that is not registered, with a reactor that lives.
abbrev unregistered : State Bool
unregistered = record {
  tasks = no_tasks;
  readiness = λ _. new one_shot 1 2;
  waker = 0;
  signals = 0;
  alive = true;
  word = 0;
  io = true;
  read_mask = 1;
  write_mask = 2;
}

register_example :
    let (s', r) = register true false 4 one_shot unregistered in
    (r ≡ error) × ((s'.word ≡ 0) × ((s'.tasks.list ≡ 4 ∷ []) × (s'.tasks.refs 4 ≡ 1)))
register_example = register_lem one_shot false 4 unregistered refl refl refl refl

into_inner_example : (into_inner true true unregistered).1 ≡ panic
into_inner_example = into_inner-panics one_shot true true unregistered refl

-- The same source, registered at 4.
abbrev registered : State Bool
registered = record unregistered { word = 4 }

polls_example :
    ((polls one_shot 3 registered).word ≡ 4) × ((polls one_shot 3 registered).tasks.refs 4 ≡ 1 + 3)
polls_example = polls_leak one_shot 3 registered 4 refl refl (ground arith)

cycle_example :
    (after : Tasks) × ((cleanup_tasks
          (deregister true (register true true 4 one_shot unregistered).0).0.tasks
        ≡ some after)
      × ((after.list ≡ []) × ((after.local_list ≡ []) × (after.refs 4 ≡ 1))))
cycle_example = cycle_leak one_shot 4 unregistered refl refl refl refl refl refl (ground arith)

-- The lock of a word, held by one thread.
abbrev locked : Lock.World
locked = record { word = set_low 0; holders = 1 }

lock_example : locked.holders ≡ locked.word % 2
lock_example = Lock.one_holder (Lock.later Lock.start (Lock.locking refl))

-- A read that is interrupted until its count is down.
abbrev read_count : ℕ → ℕ × IoResult ℕ
read_count zero = (0, ok 8)
read_count (suc n) = (n, interrupted)

async_io_example : async_io 3 read_count 2 ≡ (0, ready_ok 8)
async_io_example =
    async_io_lem read_count 2 3 2 0 (one_more refl (one_more refl none_yet)) (λ e. absurd (cc))
      (omega arith)

-- An operation that never has a result.
abbrev never : ℕ → ℕ × Option ℕ
never n = (suc n, none)

abbrev first_use : PollEvented Bool ℕ
first_use = record {
  registration = unregistered;
  registered = incomplete;
  bound = true;
  io = 0;
  woken = false;
}

refused_example :
    ((try_mut_read one_shot false 4 never first_use).1 ≡ not_registered)
    × ((try_mut_write one_shot false 4 never first_use).1 ≡ panicked)
refused_example = refused-try_mut one_shot 4 never first_use refl refl refl refl refl refl refl

abbrev later_use : PollEvented Bool ℕ
later_use = record first_use { registration = registered; registered = complete }

later_use-back : (try_mut_read one_shot true 6 never later_use).1 ≡ come_back
unfolding try_mut_read try_mut register_once registration_poll_read with_task lock unlock
    task_from_state poll_read_ready poll_ready take_ready new
later_use-back = refl

come_back_example :
    ((try_mut_read one_shot true 6 never later_use).0.woken ≡ true)
    ⊎ (one_shot.armed
          ((try_mut_read one_shot true 6 never later_use).0.registration.readiness 4).read.waker
        ≡ true)
come_back_example =
    come_back-woken one_shot true 6 4 never later_use refl refl refl (ground arith) later_use-back

-- A turn with one event for the task 4, and one for the waker.
abbrev events : Timeout → Option (List Event)
events timeout =
    some (record { token = 0; readiness = 1 } ∷ record { token = 4; readiness = 1 } ∷ [])

poll_turn_example :
    (events (poll_timeout one_shot none registered) ≡ none
      → (poll one_shot events none registered).1 ≡ error)
    × ((es : List Event)
        → events (poll_timeout one_shot none registered) ≡ some es
        → Turned one_shot registered.tasks (poll one_shot events none registered))
poll_turn_example = poll-Turned one_shot events none registered no_tasks-IsTasks

-- A registration that is polled, refused once, and polled again.
abbrev operations : List Op
operations = registering true true 4 ∷ polling_read ∷ registering true false 6 ∷ polling_write ∷ []

drop_tasks_example :
    (after : Tasks) × (drop_tasks (add_task 4 no_tasks) ≡ some after)
    × ((after.list ≡ [])
        × ((after.local_list ≡ [])
            × ((c : ℕ)
                → after.refs c + held c (add_task 4 no_tasks) ≡ (add_task 4 no_tasks).refs c)))
drop_tasks_example = drop_tasks-refs (add_task 4 no_tasks) one_task-IsTasks
