-- ===== src/Reactor/Readiness/Threads.antt =====
-- One side of a reactor task, polled by the thread that runs the future while the thread of the
-- reactor updates it, in any interleaving of their atomic steps.
use Prim.Native.Nat.{bit_or}
use rust_fumio.Prelude.{ℕ, suc, ◌≡◌, ◌≢◌, refl, ap, Bool, true, false, ◌||◌, arith, ◌⊎◌, inl, inr}
use rust_fumio.AtomicWaker.{AtomicWaker}

-- Where a poll stands: between polls, after its first take, after `register`, and after it has
-- returned `Pending`.
pub data Stage : Type 0 where
  idle : Stage
  registering : Stage
  registered : Stage
  waiting : Stage

-- `waking` counts the updates between their `fetch_or` and their `wake`; `called` says that a waker
-- was called since the last `register`.
pub record World (Cell : Type 0) : Type 0 where
  pub readiness : ℕ
  pub waker : Cell
  pub waking : ℕ
  pub called : Bool
  pub stage : Stage

module _ {Cell : Type 0} (w : AtomicWaker Cell) where
  abbrev pub fresh : World Cell
  fresh = record { readiness = 0; waker = w.new; waking = 0; called = false; stage = idle }

  pub data Step (s : World Cell) : World Cell → Type 0 where
    set_bits :
        (bits : ℕ)
        → Step s (record s { readiness = bit_or s.readiness bits; waking = suc s.waking })
    wake :
        (n : ℕ)
        → s.waking ≡ suc n
        → Step s (record s {
          waking = n;
          waker = (w.wake s.waker).0;
          called = s.called || (w.wake s.waker).1;
        })
    first_ready : s.stage ≡ idle → s.readiness ≢ 0 → Step s (record s { readiness = 0 })
    first_empty :
        s.stage ≡ idle → s.readiness ≡ 0 → Step s (record s { readiness = 0; stage = registering })
    register :
        s.stage ≡ registering
        → Step s (record s { waker = w.register s.waker; called = false; stage = registered })
    second_ready :
        s.stage ≡ registered → s.readiness ≢ 0 → Step s (record s { readiness = 0; stage = idle })
    second_empty :
        s.stage ≡ registered
        → s.readiness ≡ 0
        → Step s (record s { readiness = 0; stage = waiting })
    poll_again : s.stage ≡ waiting → Step s (record s { stage = idle })

  pub data Reach : World Cell → Type 0 where
    start : Reach fresh
    later : {s s' : World Cell} → Reach s → Step s s' → Reach s'

  abbrev is_registered : Stage → Bool
  is_registered idle = false
  is_registered registering = false
  is_registered registered = true
  is_registered waiting = true

  record IsHeard (s : World Cell) : Type 0 where
    reachable : is_registered s.stage ≡ true → (w.armed s.waker ≡ true) ⊎ (s.called ≡ true)
    seen : s.stage ≡ waiting → s.readiness ≢ 0 → (s.waking ≢ 0) ⊎ (s.called ≡ true)

  wake_called :
      (s : World Cell)
      → IsHeard s
      → is_registered s.stage ≡ true
      → (s.called || (w.wake s.waker).1) ≡ true
  wake_called s v f = elim (v.reachable f) [
    | inl armed ↦ ground (arith, w.wake_calls s.waker armed)
    | inr called ↦ ground (arith, called)
  ]

  Step-IsHeard : {s s' : World Cell} → IsHeard s → Step s s' → IsHeard s'
  Step-IsHeard v (set_bits bits) = record {
    reachable = v.reachable;
    seen = λ e h. inl (ground arith);
  }
  Step-IsHeard {s} v (wake n e) = record {
    reachable = λ f. inr (wake_called s v f);
    seen = λ f h. inr (wake_called s v (ap is_registered f));
  }
  Step-IsHeard v (first_ready e h) = record {
    reachable = v.reachable;
    seen = λ f h. absurd (h refl);
  }
  Step-IsHeard v (first_empty e h) = record {
    reachable = λ f. absurd (ground arith);
    seen = λ f h. absurd (h refl);
  }
  Step-IsHeard {s} v (register e) = record {
    reachable = λ f. inl (w.register_arms s.waker);
    seen = λ f. absurd (ground arith);
  }
  Step-IsHeard v (second_ready e h) = record {
    reachable = λ f. absurd (ground arith);
    seen = λ f. absurd (ground arith);
  }
  Step-IsHeard v (second_empty e h) = record {
    reachable = λ f. v.reachable (ap is_registered e);
    seen = λ f h. absurd (h refl);
  }
  Step-IsHeard v (poll_again e) = record {
    reachable = λ f. absurd (ground arith);
    seen = λ f. absurd (ground arith);
  }

  Reach-IsHeard : {s : World Cell} → Reach s → IsHeard s
  Reach-IsHeard start = record {
    reachable = λ f. absurd (ground arith);
    seen = λ f. absurd (ground arith);
  }
  Reach-IsHeard (later r step) = Step-IsHeard (Reach-IsHeard r) step

  -- After a poll returned `Pending`, its waker is in place or was called; and if there are events that
  -- the poll did not take, an update is about to wake or the waker was called.
  pub no_lost_readiness :
      {s : World Cell}
      → Reach s
      → s.stage ≡ waiting
      → ((w.armed s.waker ≡ true) ⊎ (s.called ≡ true))
        × (s.readiness ≢ 0 → (s.waking ≢ 0) ⊎ (s.called ≡ true))
  no_lost_readiness r e = let v = Reach-IsHeard r in (v.reachable (ap is_registered e), v.seen e)
