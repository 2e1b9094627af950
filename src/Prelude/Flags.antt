-- ===== src/Prelude/Flags.antt =====
-- A machine word that holds two flags, bit 0 and bit 1: the atomic read-modify-write operations on
-- it, and what they do to each bit.
use Prim.Native.Nat.{ℕ, zero, suc, ◌+◌, ◌-◌, ◌*◌, ◌/◌, ◌%◌, ◌^◌, ◌<◌, bit_and, bit_or}
use mathlib.Core.Path.{◌≡◌, refl}
use mathlib.Core.Bool.{Bool, not}
use native.Mathlib.Omega.{arith}
use rust_fumio.Prelude.Tests.{◌==◌}

-- `usize`; a narrower word keeps the same two bits.
abbrev pub word_mask : ℕ
word_mask = 2 ^ 64 - 1

-- `fetch_or`, `fetch_and(!m)`, and the test `0 != s & m`.
abbrev pub or_mask : ℕ → ℕ → ℕ
or_mask s m = bit_or s m

abbrev pub and_not : ℕ → ℕ → ℕ
and_not s m = bit_and s (word_mask - m)

abbrev pub any_bit : ℕ → ℕ → Bool
any_bit s m = not (bit_and s m == 0)

-- The operations in terms of the bits `s % 2` and `s / 2`.
pub record Flags (s : ℕ) : Type 0 where
  pub or_low : bit_or s 1 ≡ s / 2 * 2 + 1
  pub or_high : bit_or s 2 ≡ s % 2 + 2
  pub and_low : bit_and s 1 ≡ s % 2
  pub and_high : bit_and s 2 ≡ s / 2 * 2
  pub clear_low : bit_and s (word_mask - 1) ≡ s / 2 * 2
  pub clear_high : bit_and s (word_mask - 2) ≡ s % 2

pub flags : (s : ℕ) → s < 4 → Flags s
flags zero h = record {
  or_low = refl;
  or_high = refl;
  and_low = refl;
  and_high = refl;
  clear_low = refl;
  clear_high = refl;
}
flags (suc zero) h = record {
  or_low = refl;
  or_high = refl;
  and_low = refl;
  and_high = refl;
  clear_low = refl;
  clear_high = refl;
}
flags (suc (suc zero)) h = record {
  or_low = refl;
  or_high = refl;
  and_low = refl;
  and_high = refl;
  clear_low = refl;
  clear_high = refl;
}
flags (suc (suc (suc zero))) h = record {
  or_low = refl;
  or_high = refl;
  and_low = refl;
  and_high = refl;
  clear_low = refl;
  clear_high = refl;
}
flags (suc (suc (suc (suc n)))) h = absurd (omega arith)
