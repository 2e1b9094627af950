-- ===== src/Reactor/Create.antt =====
-- Making a reactor: `Reactor::new` of fumio-reactor/src/reactor.rs, and the parts that it makes, of
-- fumio-reactor/src/reactor/{task.rs, waker.rs}. What mio answers is an argument.
use rust_fumio.Prelude.{ℕ, ◌<◌, ◌≡◌, refl, Bool, true, [], arith, if◌then◌else◌}
use rust_fumio.AtomicWaker.{AtomicWaker}
use rust_fumio.Reactor.Tasks.{Tasks}
use rust_fumio.Reactor.Tasks.Laws.{IsTasks}
use rust_fumio.Reactor.Registration.{State, Io, done, error}
use rust_fumio.Reactor.Poll.{Timeout, poll_timeout}
use rust_fumio.Reactor.Poll.Laws.{poll_timeout-clear}
use rust_fumio.Reactor.Waker.{start_poll-clear}

-- `Tasks::new`; the fields of the tasks are memory that is there before.
pub tasks_new : Tasks → Tasks
tasks_new memory = record memory { list = []; local_list = [] }

-- The word of `ReactorWaker::new`.
pub waker_new : ℕ
waker_new = 0

-- `Reactor::new`; `polls` and `registers` are the outcomes of mio's `Poll::new`, and of the registration
-- of the wake target with it.
pub reactor_new : {Cell : Type 0} → (polls registers : Bool) → State Cell → Io (State Cell)
unfolding tasks_new waker_new
reactor_new polls registers memory =
    if polls
    then (if registers
        then done (record memory {
          tasks = tasks_new memory.tasks;
          waker = waker_new;
          signals = 0;
          alive = true;
        })
        else error)
    else error

-- If mio gives a poll and registers the wake target, and no task in memory is marked as queued, the new
-- reactor has tasks that agree, and its first turn waits for as long as it is asked to.
pub reactor_new-IsTasks :
    {Cell : Type 0} (w : AtomicWaker Cell) (memory : State Cell) (timeout : Timeout)
    → ((t : ℕ) → (memory.tasks).state t < 2)
    → (s : State Cell) × (reactor_new true true memory ≡ done s)
      × (IsTasks s.tasks × (poll_timeout w timeout s ≡ timeout))
unfolding reactor_new tasks_new waker_new
reactor_new-IsTasks w memory timeout clear = (
  _,
  refl,
  (
    record {
      list_distinct = tt;
      local_distinct = tt;
      small = λ t. ground (arith, clear t);
      queued = λ t. ground (arith, clear t);
      owned = λ t. omega arith;
    },
    poll_timeout-clear w timeout _ start_poll-clear,
  ),
)
