-- ===== src/Reactor/Registration/Lock.antt =====
-- The lock bit of `TaskState`, taken and given back by any number of threads.
use rust_fumio.Prelude.{ℕ, suc, ◌%◌, ◌≡◌, refl, arith}
use rust_fumio.Reactor.Registration.{set_low, clear_low}

-- `holders` counts the threads that have a `TaskStateLock`.
pub record World : Type 0 where
  pub word : ℕ
  pub holders : ℕ

-- `locking` is the `fetch_or` of one turn of the loop of `lock`; `taking` and `setting` are the stores
-- of `take` and `set`, and `unlocking` is the `fetch_and` of a lock that is dropped.
pub data Step (s : World) : World → Type 0 where
  locking : s.word % 2 ≡ 0 → Step s (record s { word = set_low s.word; holders = suc s.holders })
  spinning : s.word % 2 ≡ 1 → Step s (record s { word = set_low s.word })
  taking : (n : ℕ) → s.holders ≡ suc n → Step s (record s { word = 1 })
  setting : (n t : ℕ) → s.holders ≡ suc n → Step s (record s { word = set_low t })
  unlocking :
      (n : ℕ) → s.holders ≡ suc n → Step s (record s { word = clear_low s.word; holders = n })

pub data Reach : World → Type 0 where
  start : Reach (record { word = 0; holders = 0 })
  later : {s s' : World} → Reach s → Step s s' → Reach s'

-- The lock bit counts the threads that hold the lock, so at most one does.
pub one_holder : {s : World} → Reach s → s.holders ≡ s.word % 2
one_holder start = refl
one_holder (later r (locking e)) = omega (arith, one_holder r)
one_holder (later r (spinning e)) = omega (arith, one_holder r)
one_holder (later r (taking n e)) = omega (arith, one_holder r)
one_holder (later r (setting n t e)) = omega (arith, one_holder r)
one_holder (later r (unlocking n e)) = omega (arith, one_holder r)
