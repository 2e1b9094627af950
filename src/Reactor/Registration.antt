-- ===== src/Reactor/Registration.antt =====
-- fumio-reactor/src/reactor/registration.rs, with the `HandlePriv` operations of reactor.rs that it
-- calls: the locked word that points to the registered task, and registering and deregistering.
pub mod Laws
pub mod Lock
pub mod Unlock
pub mod Source
use rust_fumio.Prelude.{
  ℕ, ◌+◌, ◌-◌, ◌*◌, ◌/◌, ◌%◌, Bool, true, false, not, Option, none, some, if◌then◌else◌, ◌==◌,
  update,
}
use rust_fumio.Reactor.Waker.{wake}
use rust_fumio.Reactor.Tasks.{Tasks, release, add_task, deregister_task}
use rust_fumio.AtomicWaker.{AtomicWaker}
use rust_fumio.Reactor.Readiness.{
  PollReady, ReactorTask, new, poll_read_ready, poll_write_ready, clear_read_ready,
  clear_write_ready,
}

-- A result of the source; `spinning` is a `lock` that another thread holds.
pub data Io (A : Type 0) : Type 0 where
  done : (a : A) → Io A
  error : Io A
  panic : Io A
  spinning : Io A

-- A result of which the error is ignored.
abbrev pub ignored : Io Unit → Io Unit
ignored (done _) = done tt
ignored error = done tt
ignored panic = panic
ignored spinning = spinning

-- The reactor, and one `Registration`. `word` is `TaskState::task`: the address of the task, which
-- is even, with the lock bit. `alive` says that the reactor has not been dropped.
pub record State (Cell : Type 0) : Type 0 where
  pub tasks : Tasks
  pub readiness : ℕ → ReactorTask Cell
  pub waker : ℕ
  pub signals : ℕ
  pub alive : Bool
  pub word : ℕ
  pub io : Bool
  pub read_mask : ℕ
  pub write_mask : ℕ

-- `fetch_or(1)`, `& !1` and `& 1` on the word.
abbrev pub set_low : ℕ → ℕ
set_low word = word / 2 * 2 + 1

abbrev pub clear_low : ℕ → ℕ
clear_low word = word / 2 * 2

module _ {Cell : Type 0} where
  -- `ReactorTask::clone`, and `from_token`, which adds a reference in the same way.
  abbrev pub retain : ℕ → State Cell → State Cell
  retain t s = record s {
    tasks = record s.tasks { refs = update s.tasks.refs t (s.tasks.refs t + 1) };
  }

  abbrev pub drop_task : ℕ → State Cell → State Cell
  drop_task t s = record s { tasks = release t s.tasks }

  -- `ReactorTask::new` at the address `t`.
  abbrev pub allocate : ℕ → AtomicWaker Cell → State Cell → State Cell
  allocate t w s = record s {
    tasks = record s.tasks { refs = update s.tasks.refs t 1; state = update s.tasks.state t 0 };
    readiness = update s.readiness t (new w s.read_mask s.write_mask);
  }

  -- `_task_from_state`, with the reference that `from_token` adds.
  unfoldable pub task_from_state : ℕ → State Cell → State Cell × Option ℕ
  task_from_state word s =
      let task = clear_low word in if not (task == 0) then (retain task s, some task) else (s, none)

  -- One turn of the loop of `lock`: `none` if the lock bit was set, else the task it holds.
  unfoldable pub lock : State Cell → State Cell × Option (Option ℕ)
  unfolding task_from_state
  lock s =
      let state = s.word in
      let s' = record s { word = set_low state } in
      let (locked, task) = task_from_state state s' in
      if state % 2 == 0 then (locked, some task) else (s', none)

  -- `Drop for TaskStateLock`; the `ManuallyDrop` in it is not dropped.
  unfoldable pub unlock : State Cell → State Cell
  unlock s = record s { word = clear_low s.word }

  -- `take` when a task is set, and `set` when none is.
  pub take : State Cell → State Cell
  take s = record s { word = 1 }

  pub set : ℕ → State Cell → State Cell
  set t s = record s { word = set_low t }

  -- `Drop for TaskState`
  pub drop_state : State Cell → State Cell
  unfolding task_from_state
  drop_state s =
      let (s', task) = task_from_state s.word s in elim task [ none ↦ s' | some t ↦ drop_task t s' ]

  -- `waker.wake_by_ref()`
  abbrev pub wake_reactor : State Cell → State Cell
  wake_reactor s =
      let (word, signal) = wake s.waker in
      record s { waker = word; signals = s.signals + (if signal then 1 else 0) }

  -- The `HandlePriv` operations; `mio` is the outcome of the call of mio's poll.
  pub handle_register : Bool → ℕ → State Cell → State Cell × Io Unit
  handle_register mio t s =
      let s' = record s { tasks = add_task t s.tasks } in
      if mio then (wake_reactor s', done tt) else (s', error)

  pub handle_reregister : Bool → ℕ → State Cell → State Cell × Io Unit
  handle_reregister mio t s = if mio then (s, done tt) else (s, error)

  pub handle_deregister : Bool → ℕ → State Cell → State Cell × Io Unit
  handle_deregister mio t s =
      if mio
      then (wake_reactor (record s { tasks = deregister_task t s.tasks }), done tt)
      else (drop_task t s, error)

  -- `Registration::deregister`
  pub deregister : Bool → State Cell → State Cell × Io Unit
  unfolding lock unlock take handle_deregister
  deregister mio s =
      if not s.io
      then (s, panic)
      else let (s', held) = lock s in
        elim held [
          | none ↦ (s', spinning)
          | some none ↦ (unlock s', done tt)
          | some (some t) ↦
              if s.alive
              then (let (s2, r) = handle_deregister mio t (take s') in (unlock s2, r))
              else (unlock (drop_task t (take s')), done tt)
        ]

  -- `Registration::register`; `left` and `mio` are the outcomes of mio's `deregister` and `register`,
  -- and `t` is the address of the new task.
  unfoldable pub register :
      (left mio : Bool) → ℕ → AtomicWaker Cell → State Cell → State Cell × Io Unit
  unfolding deregister lock unlock set handle_register
  register left mio t w s =
      let (s1, before) = deregister left s in
      elim before [
        | error ↦ (s1, error)
        | panic ↦ (s1, panic)
        | spinning ↦ (s1, spinning)
        | done _ ↦
            let (s2, held) = lock s1 in
            elim held [
              | none ↦ (s2, spinning)
              | some _ ↦
                  if s2.alive
                  then (let (s3, r) = handle_register mio t (retain t (allocate t w s2)) in
                      elim r [
                        | done _ ↦ (unlock (set t s3), done tt)
                        | _ ↦ (unlock (drop_task t s3), error)
                      ])
                  else (unlock s2, error)
            ]
      ]

  -- `Registration::reregister`
  pub reregister : Bool → State Cell → State Cell × Io Unit
  unfolding lock unlock handle_reregister
  reregister mio s =
      if not s.io
      then (s, panic)
      else let (s', held) = lock s in
        elim held [
          | none ↦ (s', spinning)
          | some none ↦ (unlock s', panic)
          | some (some t) ↦
              if s.alive
              then (let (s2, r) = handle_reregister mio t s' in (unlock s2, r))
              else (unlock s', error)
        ]

  -- The operations that lock the word for one call on the task; `missing` is what they do when no
  -- task is registered.
  unfoldable pub with_task :
      {A : Type 0}
      → Io A
      → (ReactorTask Cell → ReactorTask Cell × A)
      → State Cell
      → State Cell × Io A
  unfolding lock unlock
  with_task missing f s =
      let (s', held) = lock s in
      elim held [
        | none ↦ (s', spinning)
        | some none ↦ (unlock s', missing)
        | some (some t) ↦
            let (task, a) = f (s'.readiness t) in
            (unlock (record s' { readiness = update s'.readiness t task }), done a)
      ]

  -- `Registration::{clear_read_ready, poll_read_ready, clear_write_ready, poll_write_ready}`: only the
  -- last unwraps the error of a source that is not registered.
  pub registration_clear_read : AtomicWaker Cell → State Cell → State Cell × Io ℕ
  unfolding with_task
  registration_clear_read w s = with_task error (clear_read_ready w) s

  unfoldable pub registration_poll_read : AtomicWaker Cell → State Cell → State Cell × Io PollReady
  unfolding with_task
  registration_poll_read w s = with_task error (poll_read_ready w s.alive) s

  pub registration_clear_write : AtomicWaker Cell → State Cell → State Cell × Io ℕ
  unfolding with_task
  registration_clear_write w s = with_task error (clear_write_ready w) s

  unfoldable pub registration_poll_write : AtomicWaker Cell → State Cell → State Cell × Io PollReady
  unfolding with_task
  registration_poll_write w s = with_task panic (poll_write_ready w s.alive) s

  -- `Drop for Registration`, and the drop of its `TaskState` that follows.
  pub drop_registration : Bool → State Cell → State Cell × Io Unit
  unfolding deregister drop_state
  drop_registration mio s = let (s', r) = deregister mio s in (drop_state s', ignored r)

  -- `Registration::into_inner`, at the end of which `self` is dropped; `mio` and `again` are the
  -- outcomes of mio's `deregister`.
  pub into_inner : (mio again : Bool) → State Cell → State Cell × Io Unit
  unfolding deregister drop_registration
  into_inner mio again s =
      let (s', r) = deregister mio s in
      if s'.io
      then drop_registration again (record s' { io = false })
      else ((drop_registration again s').0, panic)

-- `Registration::{io_ref, io_mut}` with the source `io`; `none` is the panic with `missing io`.
unfoldable pub registration_io_ref : {Cell S : Type 0} → S → State Cell → Option S
registration_io_ref io s = if s.io then some io else none

unfoldable pub registration_io_mut : {Cell S : Type 0} → (S → S) → S → State Cell → Option S
registration_io_mut change io s = if s.io then some (change io) else none
