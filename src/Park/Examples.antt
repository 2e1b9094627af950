-- ===== src/Park/Examples.antt =====
-- A thread whose token is a Boolean.
use rust_fumio.Prelude.{◌≡◌, Bool, false, some}
use rust_fumio.Park.{park_thread, wake_thread, one_token}
use rust_fumio.Park.Laws.{is_zero, park_thread-wake_thread}

park_example :
    (after : Bool) × (park_thread one_token (some 0) (wake_thread one_token false) ≡ some after)
    × (after ≡ is_zero (some 0))
park_example = park_thread-wake_thread one_token (some 0) false
