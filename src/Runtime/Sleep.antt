-- ===== src/Runtime/Sleep.antt =====
-- The pool of fumio-pool/src/pool.rs on the timer and the reactor of src/timer_reactor.rs: the waker of
-- the pool's turns is the reactor's, so a call of it before the park keeps mio from blocking.
use rust_fumio.Prelude.{refl, Bool-cases, ◌<◌, ◌≡◌, inl, inr, true, false, some, if◌then◌else◌}
use rust_fumio.AtomicWaker.{AtomicWaker}
use rust_fumio.Pool.Task.{TaskList}
use rust_fumio.Reactor.Poll.{Timeout, poll_timeout}
use rust_fumio.Reactor.Poll.Wake.{wake_reactor-timeout, clear-timeout}
use rust_fumio.TimerReactor.{ParkReactor, timer_unpark}

-- `TimerReactor::waker`, which is the waker of the executor's context: the reactor after a turn of the
-- pool in which it was called or was not.
pub signalled :
    {Cell RCell Fut Enter : Type 0}
    → TaskList Cell Fut
    → ParkReactor RCell Enter
    → ParkReactor RCell Enter
unfolding timer_unpark
signalled s p = if s.woken then timer_unpark p else p

pub signalled-readiness :
    {Cell RCell Fut Enter : Type 0} (s : TaskList Cell Fut) (p : ParkReactor RCell Enter)
    → (signalled s p).reactor.readiness ≡ p.reactor.readiness
unfolding signalled timer_unpark
signalled-readiness s p = elim (Bool-cases s.woken) [ inl h ↦ rw h refl | inr h ↦ rw h refl ]

pub signalled-tasks :
    {Cell RCell Fut Enter : Type 0} (s : TaskList Cell Fut) (p : ParkReactor RCell Enter)
    → (signalled s p).reactor.tasks ≡ p.reactor.tasks
unfolding signalled timer_unpark
signalled-tasks s p = elim (Bool-cases s.woken) [ inl h ↦ rw h refl | inr h ↦ rw h refl ]

module _ {Cell RCell Fut Enter : Type 0} (w : AtomicWaker RCell) where
  -- If the waker of the pool's turn was called before the executor parks, the reactor hands mio a
  -- timeout of zero, whatever timeout it is given. If it was not called, and the reactor's word is
  -- clear, the reactor hands mio the timeout that it is given.
  pub signalled-timeout :
      (timeout : Timeout) (s : TaskList Cell Fut) (p : ParkReactor RCell Enter)
      → p.reactor.waker < 4
      → (s.woken ≡ true → poll_timeout w timeout (signalled s p).reactor ≡ some 0)
        × (s.woken ≡ false
            → p.reactor.waker ≡ 0
            → poll_timeout w timeout (signalled s p).reactor ≡ timeout)
  unfolding signalled timer_unpark
  signalled-timeout timeout s p b = (
    λ h. rw h (wake_reactor-timeout w timeout p.reactor b),
    λ quiet clear. rw quiet (clear-timeout w timeout p.reactor clear),
  )
