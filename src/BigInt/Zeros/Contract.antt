-- ===== src/BigInt/Zeros/Contract.antt =====
-- What stripping the decimal zeros promises, and the interface of `bigint_strip_decimal_zeros_inverse` of
-- src/core/bigint/normalization.c.
use num_forge.Base.{ℕ, ◌*◌, ◌%◌, ◌^◌, ◌<◌, ◌≤◌, ◌≡◌, uint64_max}
use num_forge.Runtime.Budget.{World}
use num_forge.BigInt.Types.{BigInt, IsValid, Out}
use num_forge.BigInt.Contract.{IfOk}
use num_forge.BigInt.Magnitude.Value.{value}

-- The number without its decimal zeros, and how many they were; the sign stays.
pub record Stripped (b : BigInt) (r : BigInt × ℕ) : Type 0 where
  pub valid : IsValid r.0
  pub whole : value r.0.limbs * 10 ^ r.1 ≡ value b.limbs
  pub last_digit : 0 < value r.0.limbs % 10
  pub sign : r.0.is_negative ≡ b.is_negative
  pub word : r.1 ≤ uint64_max

pub record InverseStripping : Type 0 where
  pub strip : BigInt → ℕ → World → Out (BigInt × ℕ)
  pub strip-Stripped :
      (b : BigInt) (block : ℕ) (w : World)
      → IsValid b
      → 0 < value b.limbs
      → IfOk (Stripped b) (strip b block w)
