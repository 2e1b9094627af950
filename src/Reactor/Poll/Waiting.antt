-- ===== src/Reactor/Poll/Waiting.antt =====
-- A poll of a registration of fumio-reactor/src/reactor/registration.rs that is pending leaves the waker
-- of its context with the side that it polled.
use rust_fumio.Prelude.{
  ℕ, ◌%◌, ◌≡◌, ◌≢◌, ◌∙◌, ap, sym, Bool, true, ◌==◌, arith, Bool-cases, inl, inr,
}
use rust_fumio.AtomicWaker.{AtomicWaker}
use rust_fumio.Reactor.Readiness.{
  PollReady, ready, pending, Side, Woken, reader, writer, poll_ready, poll_read_ready,
  poll_write_ready,
}
use rust_fumio.Reactor.Readiness.Laws.{poll_ready_lem}
use rust_fumio.Reactor.Registration.{
  State, Io, done, error, panic, spinning, with_task, lock, unlock, task_from_state,
  registration_poll_read, registration_poll_write,
}
use rust_fumio.Reactor.Poll.Delivery.{registration-sides}
use rust_fumio.Reactor.Poll.Calls.{at_side}

not_pending : (bits : ℕ) → ready bits ≡ pending → ⊥
not_pending bits e = cc

done-same : {x y : PollReady} → done x ≡ done y → x ≡ y
done-same {x} e = ap (λ o. elim o [ done z ↦ z | error ↦ x | panic ↦ x | spinning ↦ x ]) e

module _ {Cell : Type 0} (w : AtomicWaker Cell) where
  -- `poll_read_ready` or `poll_write_ready` of a registration.
  abbrev pub poll_side : Woken → State Cell → State Cell × Io PollReady
  poll_side reader s = registration_poll_read w s
  poll_side writer s = registration_poll_write w s

  -- A side that a poll found pending had no readiness, and has the waker in place.
  pending-armed :
      (alive : Bool) (s : Side Cell)
      → (poll_ready w alive s).1 ≡ pending
      → w.armed (poll_ready w alive s).0.waker ≡ true
  pending-armed alive s e =
      let (_, (some_bits, no_bits)) = poll_ready_lem w alive s in
      elim (Bool-cases (s.readiness == 0)) [
        | inl z ↦ (no_bits (ground (arith, z))).0
        | inr nz ↦ absurd (not_pending s.readiness (sym (some_bits (ground (arith, nz))) ∙ e))
      ]

  module _ (s : State Cell) (t : ℕ) (word : s.word ≡ t) (even : t % 2 ≡ 0) (full : t ≢ 0) where
    polled_side :
        (side : Woken)
        → at_side side ((poll_side side s).0.readiness t)
          ≡ (poll_ready w s.alive (at_side side (s.readiness t))).0
    unfolding registration_poll_read registration_poll_write with_task lock unlock task_from_state
        poll_read_ready poll_write_ready
    polled_side reader = ground arith
    polled_side writer = ground arith

    answered :
        (side : Woken)
        → (poll_side side s).1 ≡ done (poll_ready w s.alive (at_side side (s.readiness t))).1
    answered reader = (registration-sides w s t word even full).0
    answered writer = (registration-sides w s t word even full).1

    pub poll_side-armed :
        (side : Woken)
        → (poll_side side s).1 ≡ done pending
        → w.armed (at_side side ((poll_side side s).0.readiness t)).waker ≡ true
    poll_side-armed side e =
        ap (λ x. w.armed x.waker) (polled_side side)
        ∙ pending-armed s.alive (at_side side (s.readiness t)) (done-same (sym (answered side) ∙ e))
