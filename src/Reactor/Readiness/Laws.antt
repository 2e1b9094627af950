-- ===== src/Reactor/Readiness/Laws.antt =====
-- A side of a reactor task that was polled, and the events that arrive for it.
use Prim.Native.Nat.{bit_and, bit_or-bitwise}
use rust_fumio.Prelude.{ℕ, ◌≡◌, ◌≢◌, Bool, true, if◌then◌else◌, arith}
use rust_fumio.AtomicWaker.{AtomicWaker}
use rust_fumio.Reactor.Readiness.{ready, pending, failed, Side, take_ready, poll_ready, update_side}

module _ {Cell : Type 0} (w : AtomicWaker Cell) where
  -- A poll reports the events there were and takes them; when there were none it leaves the waker of
  -- its context in place, whether or not the reactor is gone.
  pub poll_ready_lem :
      (alive : Bool) (s : Side Cell)
      → ((poll_ready w alive s).0.readiness ≡ 0)
        × ((s.readiness ≢ 0 → (poll_ready w alive s).1 ≡ ready s.readiness)
            × (s.readiness ≡ 0
                → (w.armed (poll_ready w alive s).0.waker ≡ true)
                  × ((poll_ready w alive s).1 ≡ (if alive then pending else failed))))
  unfolding poll_ready take_ready
  poll_ready_lem alive s = (
    ground arith,
    (λ h. ground arith, λ h. (ground (arith, w.register_arms s.waker), ground arith)),
  )

  -- Events of interest that arrive after a poll left the side without any: the waker is called, and
  -- the next poll reports exactly these events.
  pub pending-update_side :
      (alive : Bool) (s : Side Cell) (events : ℕ)
      → s.readiness ≡ 0
      → bit_and s.mask events ≢ 0
      → let polled = (poll_ready w alive s).0 in
        let updated = update_side w events polled in
        (updated.1 ≡ true) × ((poll_ready w alive updated.0).1 ≡ ready (bit_and s.mask events))
  unfolding poll_ready take_ready update_side
  pending-update_side alive s events none_yet wanted = (
    ground (arith, w.register_arms s.waker, w.wake_calls (w.register s.waker)),
    ground (arith, bit_or-bitwise 0 (bit_and s.mask events)),
  )
