-- ===== src/Reactor/Registration/Unlock.antt =====
-- Every operation of a registration gives the lock of its word back.
use rust_fumio.Prelude.{ℕ, ◌%◌, ◌≡◌, ◌≢◌, Bool, true, false, List, [], ◌∷◌, ◌||◌}
use rust_fumio.AtomicWaker.{AtomicWaker}
use rust_fumio.Reactor.Registration.{
  State, Io, done, error, panic, spinning, deregister, register, reregister,
  registration_clear_read, registration_clear_write, registration_poll_read,
  registration_poll_write,
}

-- The operation has ended, with the lock bit clear.
pub record IsUnlocked {Cell A : Type 0} (r : State Cell × Io A) : Type 0 where
  pub unlocked : r.0.word % 2 ≡ 0
  pub ended : r.1 ≢ spinning

pub data Op : Type 0 where
  registering : (left mio : Bool) (t : ℕ) → Op
  reregistering : (mio : Bool) → Op
  deregistering : (mio : Bool) → Op
  clearing_read : Op
  clearing_write : Op
  polling_read : Op
  polling_write : Op

-- Whether an operation found the lock taken.
abbrev pub spun : {A : Type 0} → Io A → Bool
spun spinning = true
spun (done _) = false
spun error = false
spun panic = false

abbrev seen : {Cell A : Type 0} → State Cell × Io A → State Cell × Bool
seen r = (r.0, spun r.1)

module _ {Cell : Type 0} (w : AtomicWaker Cell) where
  unfoldable pub step : Op → State Cell → State Cell × Bool
  step (registering left mio t) s = seen (register left mio t w s)
  step (reregistering mio) s = seen (reregister mio s)
  step (deregistering mio) s = seen (deregister mio s)
  step clearing_read s = seen (registration_clear_read w s)
  step clearing_write s = seen (registration_clear_write w s)
  step polling_read s = seen (registration_poll_read w s)
  step polling_write s = seen (registration_poll_write w s)

  -- A sequence of operations, and whether one of them found the lock taken.
  unfoldable pub run : List Op → State Cell → State Cell × Bool
  unfolding step
  run [] s = (s, false)
  run (op ∷ ops) s =
      let (s1, here) = step op s in let (s2, later) = run ops s1 in (s2, here || later)

  -- Tasks are allocated at even addresses.
  abbrev pub IsAligned : List Op → Type 0
  IsAligned [] = Unit
  IsAligned (registering left mio t ∷ ops) = (t % 2 ≡ 0) × IsAligned ops
  IsAligned (_ ∷ ops) = IsAligned ops
