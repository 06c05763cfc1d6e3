-- ===== src/Fastsync/Atomic.antt =====
-- src/fastsync/fastsync.h: the atomic operations on a 32-bit word, as functions from the word's
-- value to the value that the macro returns and the value that it leaves behind.
mod Arithmetic
use reeact_v.Prelude.{
  ℕ, ◌+◌, ◌-◌, ◌%◌, ◌^◌, ◌<◌, ◌*◌, ◌/◌, zero, suc, bit_and, bit_or, ◌≡◌, refl, arith, ◌==◌,
  if◌then◌else◌,
}

-- Atomic add, returning the new value.
unfoldable pub atomic_addf : (v x : ℕ) → ℕ × ℕ
atomic_addf v x = ((x + v) % 2 ^ 32, (x + v) % 2 ^ 32)

-- Atomic add, returning the old value.
unfoldable pub atomic_fadd : (v x : ℕ) → ℕ × ℕ
atomic_fadd v x = (x, (x + v) % 2 ^ 32)

-- Atomic sub, returning the new value. `v` is a word.
unfoldable pub atomic_subf : (v x : ℕ) → ℕ × ℕ
atomic_subf v x = ((x + (2 ^ 32 - v)) % 2 ^ 32, (x + (2 ^ 32 - v)) % 2 ^ 32)

-- Atomic sub, returning the old value.
unfoldable pub atomic_fsub : (v x : ℕ) → ℕ × ℕ
atomic_fsub v x = (x, (x + (2 ^ 32 - v)) % 2 ^ 32)

-- `atomic_addf` on a 64-bit word.
unfoldable pub atomic_addf_64 : (v x : ℕ) → ℕ × ℕ
atomic_addf_64 v x = ((x + v) % 2 ^ 64, (x + v) % 2 ^ 64)

-- Atomic or, returning the new value.
unfoldable pub atomic_orf : (v x : ℕ) → ℕ × ℕ
atomic_orf v x = (bit_or x v, bit_or x v)

-- Atomic or, returning the old value.
unfoldable pub atomic_for : (v x : ℕ) → ℕ × ℕ
atomic_for v x = (x, bit_or x v)

-- Atomic and, returning the new value.
unfoldable pub atomic_andf : (v x : ℕ) → ℕ × ℕ
atomic_andf v x = (bit_and x v, bit_and x v)

-- Atomic and, returning the old value.
unfoldable pub atomic_fand : (v x : ℕ) → ℕ × ℕ
atomic_fand v x = (x, bit_and x v)

-- Atomic exchange, returning the old value.
unfoldable pub atomic_xchg : (v x : ℕ) → ℕ × ℕ
atomic_xchg v x = (x, v)

-- Atomic compare and exchange, returning the old value.
unfoldable pub atomic_cmpxchg : (old new x : ℕ) → ℕ × ℕ
atomic_cmpxchg old new x = (x, if x == old then new else x)

-- Atomic compare and exchange, returning whether it has exchanged: 1 or 0.
unfoldable pub atomic_bool_cmpxchg : (old new x : ℕ) → ℕ × ℕ
atomic_bool_cmpxchg old new x = (if x == old then 1 else 0, if x == old then new else x)

-- The masks that the mutex uses, on the four states that its word can have.
module _ where
  pub low_bit : (x : ℕ) → x < 4 → bit_and x 1 ≡ x % 2
  low_bit zero h = refl
  low_bit (suc zero) h = refl
  low_bit (suc (suc zero)) h = refl
  low_bit (suc (suc (suc zero))) h = refl
  low_bit (suc (suc (suc (suc x)))) h = absurd (omega arith)

  pub set_low : (x : ℕ) → x < 4 → bit_or x 1 ≡ x / 2 * 2 + 1
  set_low zero h = refl
  set_low (suc zero) h = refl
  set_low (suc (suc zero)) h = refl
  set_low (suc (suc (suc zero))) h = refl
  set_low (suc (suc (suc (suc x)))) h = absurd (omega arith)

  pub clear_low : (x : ℕ) → x < 4 → bit_and x 0xffff_fffe ≡ x / 2 * 2
  clear_low zero h = refl
  clear_low (suc zero) h = refl
  clear_low (suc (suc zero)) h = refl
  clear_low (suc (suc (suc zero))) h = refl
  clear_low (suc (suc (suc (suc x)))) h = absurd (omega arith)

  pub clear_high : (x : ℕ) → x < 4 → bit_and x 0xffff_fffd ≡ x % 2
  clear_high zero h = refl
  clear_high (suc zero) h = refl
  clear_high (suc (suc zero)) h = refl
  clear_high (suc (suc (suc zero))) h = refl
  clear_high (suc (suc (suc (suc x)))) h = absurd (omega arith)
