-- ===== src/Park/Laws.antt =====
-- What a wake-up before parking does.
use rust_fumio.Prelude.{ℕ, zero, suc, ◌≡◌, refl, Bool, true, false, Option, none, some}
use rust_fumio.Park.{Thread, park_thread, wake_thread}

-- A duration of zero.
abbrev pub is_zero : Option ℕ → Bool
is_zero (some zero) = true
is_zero _ = false

module _ {Token : Type 0} (thread : Thread Token) where
  -- After a wake-up parking does not suspend the thread, whatever the duration. It takes the wake-up,
  -- except with a duration of zero, which leaves it for the next park.
  pub park_thread-wake_thread :
      (duration : Option ℕ) (token : Token)
      → (after : Token) × (park_thread thread duration (wake_thread thread token) ≡ some after)
        × (thread.available after ≡ is_zero duration)
  unfolding park_thread wake_thread
  park_thread-wake_thread none token =
      thread.park_takes (thread.unpark token) (thread.unpark_makes token)
  park_thread-wake_thread (some zero) token = (thread.unpark token, refl, thread.unpark_makes token)
  park_thread-wake_thread (some (suc d)) token =
      (thread.park_timeout (suc d) (thread.unpark token), refl, thread.timeout_takes _ _)
