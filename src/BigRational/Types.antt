-- ===== src/BigRational/Types.antt =====
-- `struct BigRational` and `BigRationalStatus` of include/numforge/bigrational.h, and the shape of a call
-- on rationals, whose steps are calls on integers.
use num_forge.Base.{◌≡◌, ◌<◌, Bool, true, false, if◌then◌else◌}
use num_forge.Base.Int.{ℤ, pos, ◌*ℤ◌}
use num_forge.Runtime.Budget.{World}
use num_forge.BigInt.Types
use num_forge.BigInt.Types.{BigInt, IsValid, Out, to_ℤ}
use num_forge.BigInt.Magnitude.Value.{value}
use num_forge.BigInt.NumberTheory.Divisors.{IsGcd}

pub data Status : Type 0 where
  ok null_argument out_of_memory invalid_argument : Status
  division_by_zero value_too_large scale_overflow : Status

abbrev pub is_ok : Status → Bool
is_ok ok = true
is_ok _ = false

abbrev pub is_division_by_zero : Status → Bool
is_division_by_zero division_by_zero = true
is_division_by_zero _ = false

abbrev pub is_scale_overflow : Status → Bool
is_scale_overflow scale_overflow = true
is_scale_overflow _ = false

-- `rational_from_integer_status`.
unfoldable pub from_integer_status : Types.Status → Status
from_integer_status Types.ok = ok
from_integer_status Types.null_argument = null_argument
from_integer_status Types.out_of_memory = out_of_memory
from_integer_status Types.division_by_zero = division_by_zero
from_integer_status Types.value_too_large = value_too_large
from_integer_status Types.invalid_argument = invalid_argument
from_integer_status Types.negative_argument = invalid_argument

pub record BigRational : Type 0 where
  pub numerator : BigInt
  pub denominator : BigInt

-- A reduced fraction with a positive denominator. The greatest common divisor of 0 and the denominator is
-- the denominator, so 0 is 0/1.
pub record IsReduced (r : BigRational) : Type 0 where
  pub numerator : IsValid r.numerator
  pub denominator : IsValid r.denominator
  pub not_negative : r.denominator.is_negative ≡ false
  pub nonzero : 0 < value r.denominator.limbs
  pub coprime : IsGcd 1 (value r.numerator.limbs) (value r.denominator.limbs)

-- The reduced fraction of two integers, by cross-multiplication.
pub record Reduces (n d : ℤ) (r : BigRational) : Type 0 where
  pub reduced : IsReduced r
  pub cross : to_ℤ r.numerator *ℤ d ≡ n *ℤ pos (value r.denominator.limbs)

-- What a call leaves: its status, the object that it may write, and the runtime's state.
pub record Result (A : Type 0) : Type 0 where
  pub status : Status
  pub object : A
  pub world : World

abbrev pub gives : {A : Type 0} → Status → A → World → Result A
gives s a w = record { status = s; object = a; world = w }

-- `status = rational_from_integer_status(m)`, and the rest of the call if that is BIGRATIONAL_OK.
unfoldable pub step : {A B : Type 0} → Out A → B → (A → World → Result B) → Result B
step m lost next =
    if is_ok (from_integer_status m.status)
    then next m.object m.world
    else gives (from_integer_status m.status) lost m.world

-- The rest of a call if the objects that it needs were created.
unfoldable pub created : {B : Type 0} → Bool × World → B → (World → Result B) → Result B
created c lost next = if c.0 then next c.1 else gives out_of_memory lost c.1

-- The rest of a call after a call on rationals that returned BIGRATIONAL_OK.
unfoldable pub after : {A B : Type 0} → Result A → B → (A → World → Result B) → Result B
after m lost next = if is_ok m.status then next m.object m.world else gives m.status lost m.world
