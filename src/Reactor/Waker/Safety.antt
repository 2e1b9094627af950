-- ===== src/Reactor/Waker/Safety.antt =====
-- What holds of every interleaving of wakers and the polling thread.
use rust_fumio.Prelude.{
  ℕ, ◌+◌, ◌*◌, ◌/◌, ◌%◌, ◌<◌, ◌≡◌, ◌≢◌, refl, ◌⊎◌, true, false, arith, if◌then◌else◌, ◌==◌,
}
use rust_fumio.Prelude.Flags.{flags}
use rust_fumio.Reactor.Waker.{
  wake, load_pending, enter_poll, leave_polling, start_poll, end_poll, Poller, outside, loaded,
  undoing, polling, returned, World, Step, waking, signal, load_set, load_clear, enter_set,
  enter_clear, undo, mio_return, finish, Reach, start, later,
}

-- The flag `STATE_PENDING` is set.
abbrev pub IsPending : ℕ → Type 0
IsPending s = s / 2 ≡ 1

-- The polling flag of the word follows the position of the polling thread.
abbrev Expected : Poller → ℕ → Type 0
Expected outside s = s % 2 ≡ 0
Expected loaded s = s % 2 ≡ 0
Expected undoing s = (s % 2 ≡ 1) × IsPending s
Expected (polling true) s = (s % 2 ≡ 0) × IsPending s
Expected (polling false) s = s % 2 ≡ 1
Expected returned s = Unit

-- A poll that may block has been told of a pending wake-up, or is about to be.
abbrev Told : World → Type 0
Told w = (w.poller ≡ polling false) → IsPending w.state → (w.ready ≡ true) ⊎ (0 < w.signals)

record Inv (w : World) : Type 0 where
  small : w.state < 4
  flag : Expected w.poller w.state
  told : Told w

wake-bits : (s : ℕ) → s < 4 → ((wake s).0 ≡ s % 2 + 2) × ((wake s).1 ≡ (s == 1))
unfolding wake
wake-bits s h = ground (arith, flags s h)

load_pending-bits : (s : ℕ) → s < 4 → load_pending s ≡ (s / 2 == 1)
unfolding load_pending
load_pending-bits s h = ground (arith, flags s h)

enter_poll-bits :
    (s : ℕ) → s < 4 → ((enter_poll s).0 ≡ s / 2 * 2 + 1) × ((enter_poll s).1 ≡ (s / 2 == 1))
unfolding enter_poll
enter_poll-bits s h = ground (arith, flags s h)

leave_polling-bits : (s : ℕ) → s < 4 → leave_polling s ≡ s / 2 * 2
unfolding leave_polling
leave_polling-bits s h = ground (arith, flags s h)

Step-Inv : {w w' : World} → Step w w' → Inv w → Inv w'
Step-Inv {w} waking inv = ground (arith, wake-bits w.state inv.small)
Step-Inv {w} (signal n e) inv = ground arith
Step-Inv {w} (load_set e b) inv = ground (arith, load_pending-bits w.state inv.small)
Step-Inv {w} (load_clear e b) inv = ground (arith, load_pending-bits w.state inv.small)
Step-Inv {w} (enter_set e b) inv = ground (arith, enter_poll-bits w.state inv.small)
Step-Inv {w} (enter_clear e b) inv = ground (arith, enter_poll-bits w.state inv.small)
Step-Inv {w} (undo e) inv = ground (arith, leave_polling-bits w.state inv.small)
Step-Inv {w} (mio_return z r e) inv = ground arith
Step-Inv {w} (finish e) inv = let z : end_poll w.state ≡ 0 = unfold end_poll in refl in ground arith

Reach-Inv : {w : World} → Reach w → Inv w
Reach-Inv start = record {
  small = omega arith;
  flag = omega arith;
  told = λ e p. absurd (omega arith);
}
Reach-Inv (later r st) = Step-Inv st (Reach-Inv r)

-- No wake-up is lost: in every reachable state, if the polling thread is in a poll that may block
-- and the pending flag is set, the wake target is ready or a waking thread is about to make it so.
pub no_lost_wakeup :
    {w : World}
    → Reach w
    → w.poller ≡ polling false
    → IsPending w.state
    → (w.ready ≡ true) ⊎ (0 < w.signals)
no_lost_wakeup r = (Reach-Inv r).told

-- From every reachable state in which the pending flag is set, a step either keeps it set, and does
-- not enter a poll that may block, or is the drop of the polling thread's guard, which clears the
-- word.
pub IsPending-until_finish :
    {w w' : World}
    → Reach w
    → Step w w'
    → IsPending w.state
    → (IsPending w'.state × ((w.poller ≢ polling false) → w'.poller ≢ polling false))
      ⊎ ((w.poller ≡ returned) × (w'.poller ≡ outside) × (w'.state ≡ 0))
IsPending-until_finish {w} r waking p = ground (arith, wake-bits w.state (Reach-Inv r).small)
IsPending-until_finish {w} r (signal n e) p = ground arith
IsPending-until_finish {w} r (load_set e b) p = ground arith
IsPending-until_finish {w} r (load_clear e b) p = ground arith
IsPending-until_finish {w} r (enter_set e b) p =
    ground (arith, enter_poll-bits w.state (Reach-Inv r).small)
IsPending-until_finish {w} r (enter_clear e b) p =
    ground (arith, enter_poll-bits w.state (Reach-Inv r).small)
IsPending-until_finish {w} r (undo e) p =
    ground (arith, leave_polling-bits w.state (Reach-Inv r).small)
IsPending-until_finish {w} r (mio_return z b e) p = ground arith
IsPending-until_finish {w} r (finish e) p =
    let z : end_poll w.state ≡ 0 = unfold end_poll in refl in ground arith

-- With no other thread in between, a poll is told not to block exactly if the pending flag was set.
pub start_poll_lem :
    (s : ℕ) → s < 4 → s % 2 ≡ 0 → start_poll s ≡ (if s / 2 == 1 then (s, true) else (1, false))
unfolding start_poll
start_poll_lem s h e = ground (arith, flags s h)
