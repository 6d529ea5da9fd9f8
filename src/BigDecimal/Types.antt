-- ===== src/BigDecimal/Types.antt =====
-- `struct BigDecimal` of src/core/bigdecimal/bigdecimal_internal.h. Its status, BigDecimalStatus, has the
-- members of BigRationalStatus, and the type of that one serves for both.
use num_forge.Base.{ℕ, ◌-◌, ◌^◌, ◌%◌, ◌<◌, ◌≤◌, ◌≡◌}
use num_forge.Base.Int.{ℤ, pos, pos_part, neg_part}
use num_forge.BigInt.Types.{BigInt, IsValid}
use num_forge.BigInt.Magnitude.Value.{value}

pub record BigDecimal : Type 0 where
  pub coefficient : BigInt
  pub scale : ℤ

-- INT64_MAX.
abbrev pub int64_max : ℕ
int64_max = 2 ^ 63 - 1

pub record IsInt64 (s : ℤ) : Type 0 where
  pub above : pos_part s ≤ int64_max
  pub below : neg_part s ≤ 2 ^ 63

-- The representation invariants of bigdecimal_internal.h.
pub record IsCanonical (d : BigDecimal) : Type 0 where
  pub coefficient : IsValid d.coefficient
  pub scale : IsInt64 d.scale
  pub zero_scale : value d.coefficient.limbs ≡ 0 → d.scale ≡ pos 0
  pub last_digit : 0 < value d.coefficient.limbs → 0 < value d.coefficient.limbs % 10
