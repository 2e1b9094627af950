-- ===== src/Reactor/Registration/Source.antt =====
-- The source that a registration keeps, and that only `into_inner` takes out.
use rust_fumio.Prelude.{ℕ, ◌≡◌, refl, ◌∙◌, Bool, List, [], ◌∷◌, arith}
use rust_fumio.AtomicWaker.{AtomicWaker}
use rust_fumio.Reactor.Readiness.{
  ReactorTask, clear_read_ready, clear_write_ready, poll_read_ready, poll_write_ready,
}
use rust_fumio.Reactor.Registration.{
  State, Io, lock, unlock, task_from_state, with_task, deregister, register, reregister, take, set,
  handle_register, handle_reregister, handle_deregister, registration_clear_read,
  registration_clear_write, registration_poll_read, registration_poll_write,
}
use rust_fumio.Reactor.Registration.Unlock.{
  Op, registering, reregistering, deregistering, clearing_read, clearing_write, polling_read,
  polling_write, step, run,
}

module _ {Cell : Type 0} where
  with_task-io :
      {A : Type 0} (missing : Io A) (f : ReactorTask Cell → ReactorTask Cell × A) (s : State Cell)
      → (with_task missing f s).0.io ≡ s.io
  unfolding with_task lock unlock task_from_state
  with_task-io missing f s = ground arith

  deregister-io : (mio : Bool) (s : State Cell) → (deregister mio s).0.io ≡ s.io
  unfolding deregister lock unlock task_from_state handle_deregister take
  deregister-io mio s = ground arith

  reregister-io : (mio : Bool) (s : State Cell) → (reregister mio s).0.io ≡ s.io
  unfolding reregister lock unlock task_from_state handle_reregister
  reregister-io mio s = ground arith

  register-io :
      (left mio : Bool) (t : ℕ) (w : AtomicWaker Cell) (s : State Cell)
      → (register left mio t w s).0.io ≡ s.io
  unfolding register lock unlock task_from_state handle_register set
  register-io left mio t w s = ground (arith, deregister-io left s)

module _ {Cell : Type 0} (w : AtomicWaker Cell) where
  step-io : (op : Op) (s : State Cell) → (step w op s).0.io ≡ s.io
  unfolding step registration_clear_read registration_clear_write registration_poll_read
      registration_poll_write
  step-io (registering left mio t) s = register-io left mio t w s
  step-io (reregistering mio) s = reregister-io mio s
  step-io (deregistering mio) s = deregister-io mio s
  step-io clearing_read s = with_task-io _ (clear_read_ready w) s
  step-io clearing_write s = with_task-io _ (clear_write_ready w) s
  step-io polling_read s = with_task-io _ (poll_read_ready w s.alive) s
  step-io polling_write s = with_task-io _ (poll_write_ready w s.alive) s

  pub run-io : (ops : List Op) (s : State Cell) → (run w ops s).0.io ≡ s.io
  unfolding run
  run-io [] s = refl
  run-io (op ∷ ops) s = run-io ops (step w op s).0 ∙ step-io op s
