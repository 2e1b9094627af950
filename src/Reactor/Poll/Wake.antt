-- ===== src/Reactor/Poll/Wake.antt =====
-- What a wake-up does to the turns of fumio-reactor/src/reactor.rs that follow it.
use rust_fumio.Prelude.{ℕ, ◌/◌, ◌<◌, ◌≡◌, refl, true, Option, none, some, List, arith}
use rust_fumio.Prelude.Flags.{flags}
use rust_fumio.AtomicWaker.{AtomicWaker}
use rust_fumio.Reactor.Waker.{start_poll, start_poll-clear, end_poll, wake, load_pending}
use rust_fumio.Reactor.Tasks.{Tasks}
use rust_fumio.Reactor.Registration.{State, wake_reactor}
use rust_fumio.Reactor.Poll.{
  Event, Timeout, upgrade, handle_wake, handle_events, poll_timeout, after_cleanup, after_mio, poll,
}

-- A word with the pending flag keeps a poll from blocking.
start_poll-pending : (n : ℕ) → n < 4 → n / 2 ≡ 1 → (start_poll n).1 ≡ true
unfolding start_poll load_pending
start_poll-pending n b h = let f = flags n b in ground (arith, f.and_high)

wake-pending : (n : ℕ) → n < 4 → ((wake n).0 < 4) × ((wake n).0 / 2 ≡ 1)
unfolding wake
wake-pending n b = let f = flags n b in ground (arith, f.or_high)

module _ {Cell : Type 0} (w : AtomicWaker Cell) where
  after_cleanup-waker :
      (tasks : Option Tasks) (s : State Cell) → (after_cleanup w tasks s).0.waker ≡ 0
  unfolding after_cleanup end_poll
  after_cleanup-waker none s = refl
  after_cleanup-waker (some tasks) s = refl

  after_mio-waker : (mio : Option (List Event)) (s : State Cell) → (after_mio w mio s).0.waker ≡ 0
  unfolding after_mio end_poll
  after_mio-waker none s = refl
  after_mio-waker (some events) s = after_cleanup-waker _ (handle_events w events s)

  pub wake_reactor-timeout :
      (timeout : Timeout) (s : State Cell)
      → s.waker < 4
      → poll_timeout w timeout (wake_reactor s) ≡ some 0
  unfolding poll_timeout
  wake_reactor-timeout timeout s b =
      let (low, set) = wake-pending s.waker b in
      let waits = start_poll-pending (wake s.waker).0 low set in ground (arith, waits)

  pub clear-timeout :
      (timeout : Timeout) (s : State Cell) → s.waker ≡ 0 → poll_timeout w timeout s ≡ timeout
  unfolding poll_timeout
  clear-timeout timeout s e = rw (e, start_poll-clear) refl

  -- A wake-up of a reactor that lives and is not in a turn, in whichever state its word is: the next
  -- turn hands mio a timeout of zero, and the turn after it, if no other wake-up comes, the timeout
  -- that it is given, however the first ends.
  pub wake-poll :
      (mio : Timeout → Option (List Event)) (timeout later : Timeout) (s : State Cell)
      → s.alive ≡ true
      → s.waker < 4
      → (poll_timeout w timeout (handle_wake w s) ≡ some 0)
        × (poll_timeout w later (poll w mio timeout (handle_wake w s)).0 ≡ later)
  unfolding poll handle_wake upgrade
  wake-poll mio timeout later s alive b = (
    simp (alive, wake_reactor-timeout timeout s b),
    clear-timeout later (poll w mio timeout (handle_wake w s)).0 (after_mio-waker _ _),
  )
