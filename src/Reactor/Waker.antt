-- ===== src/Reactor/Waker.antt =====
-- fumio-reactor/src/reactor/waker.rs: the two-flag word through which other threads interrupt the
-- reactor's poll, and the interleavings of wakers with the one polling thread.
pub mod Safety
use rust_fumio.Prelude.{ℕ, zero, suc, ◌≡◌, refl, Bool, true, false, not, ◌&&◌, ◌||◌, if◌then◌else◌}
use rust_fumio.Prelude.Flags.{or_mask, and_not, any_bit}

abbrev pub state_polling : ℕ
state_polling = 1

abbrev pub state_pending : ℕ
state_pending = 2

-- `wake_by_ref` up to its early returns: the new word, and whether `set_readiness` follows.
unfoldable pub wake : ℕ → ℕ × Bool
wake state =
    let prev = state in
    let next = or_mask state state_pending in
    if any_bit prev state_pending
    then (next, false)
    else if not (any_bit prev state_polling)
    then (next, false)
    else (next, true)

-- The two halves of `start_poll`: the load, and the `fetch_or` with what follows it.
unfoldable pub load_pending : ℕ → Bool
load_pending state = any_bit state state_pending

unfoldable pub enter_poll : ℕ → ℕ × Bool
enter_poll state = (or_mask state state_polling, any_bit state state_pending)

pub leave_polling : ℕ → ℕ
leave_polling state = and_not state state_polling

-- `start_poll` with no other thread in between: the new word, and whether the poll must not block.
unfoldable pub start_poll : ℕ → ℕ × Bool
unfolding load_pending enter_poll leave_polling
start_poll state =
    if load_pending state
    then (state, true)
    else let (next, pending) = enter_poll state in
      if pending then (leave_polling next, true) else (next, false)

-- Without a wake-up a poll may block.
pub start_poll-clear : (start_poll 0).1 ≡ false
unfolding start_poll load_pending enter_poll
start_poll-clear = refl

-- `Drop for ReactorWakerPollling` swaps 0 in.
unfoldable pub end_poll : ℕ → ℕ
end_poll state = 0

-- Where the polling thread stands.
pub data Poller : Type 0 where
  outside : Poller
  loaded : Poller  -- the load saw no pending flag
  undoing : Poller  -- the `fetch_or` saw the pending flag
  polling : (no_wait : Bool) → Poller  -- in `mio::Poll::poll`
  returned : Poller  -- mio has returned, the guard is not dropped yet

-- `signals` counts the waking threads between their `fetch_or` and their `set_readiness`; `ready`
-- is the readiness of `wake_target` that mio has not reported yet.
pub record World : Type 0 where
  pub state : ℕ
  pub poller : Poller
  pub signals : ℕ
  pub ready : Bool

abbrev pub init : World
init = record { state = 0; poller = outside; signals = 0; ready = false }

abbrev count : ℕ → Bool → ℕ
count n true = suc n
count n false = n

abbrev pub woken : World → World
woken w = record w { state = (wake w.state).0; signals = count w.signals (wake w.state).1 }

-- Atomic steps, in any order. A blocked poll returns when the wake target is ready, or for reasons
-- of its own (an IO event, a timeout): it may then leave the wake target unreported.
pub data Step (w : World) : World → Type 0 where
  waking : Step w (woken w)
  signal : (n : ℕ) → w.signals ≡ suc n → Step w (record w { signals = n; ready = true })
  load_set :
      w.poller ≡ outside → load_pending w.state ≡ true → Step w (record w { poller = polling true })
  load_clear :
      w.poller ≡ outside → load_pending w.state ≡ false → Step w (record w { poller = loaded })
  enter_set :
      w.poller ≡ loaded
      → (enter_poll w.state).1 ≡ true
      → Step w (record w { state = (enter_poll w.state).0; poller = undoing })
  enter_clear :
      w.poller ≡ loaded
      → (enter_poll w.state).1 ≡ false
      → Step w (record w { state = (enter_poll w.state).0; poller = polling false })
  undo :
      w.poller ≡ undoing
      → Step w (record w { state = leave_polling w.state; poller = polling true })
  mio_return :
      (no_wait reported : Bool)
      → w.poller ≡ polling no_wait
      → Step w (record w { poller = returned; ready = if reported then false else w.ready })
  finish : w.poller ≡ returned → Step w (record w { state = end_poll w.state; poller = outside })

pub data Reach : World → Type 0 where
  start : Reach init
  later : {w w' : World} → Reach w → Step w w' → Reach w'
