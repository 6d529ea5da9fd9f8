-- ===== src/Tests/Decimal.antt =====
-- The operations on decimals at concrete inputs.
use num_forge.Base.{refl, true, false, arith}
use num_forge.Base.Int.{pos, negsuc}
use num_forge.BigInt.Contract.{IfOk}
use num_forge.BigInt.Zeros.Contract.{InverseStripping, Stripped}
use num_forge.BigInt.Zeros.{strip_classic, strip_decimal_zeros}
use num_forge.BigInt.Zeros.Stripping.{strip_classic-Stripped, strip_decimal_zeros-Stripped}
use num_forge.BigRational.Contract.{Ensures}
use num_forge.BigRational.Fractions.{◌+ℚ◌, ◌*ℚ◌}
use num_forge.BigRational.Sums.{Refines}
use num_forge.BigDecimal.Types.{BigDecimal, IsCanonical}
use num_forge.BigDecimal.Operations.{add, mul, normalize}
use num_forge.BigDecimal.Value.{decimal, Stands}
use num_forge.BigDecimal.Normal.{Normalizes, normalize-Stands}
use num_forge.BigDecimal.Sums.{add-Stands}
use num_forge.BigDecimal.Products.{mul-Stands}
use num_forge.BigDecimal.Conversion.{from_bigdecimal, from_bigdecimal-Refines}
use num_forge.Tests.Data.{calm, full, full-IsValid, minus, minus-IsValid}
use num_forge.Tests.Arithmetic.{school}
use num_forge.Tests.Bits.{three, three-IsValid}
use num_forge.Tests.Rational.{three_halves}

-- The loop for short coefficients may stand in for the routine for long ones.
abbrev classic : InverseStripping
classic = record {
  strip = λ b block w. strip_classic b w;
  strip-Stripped = λ b block w v some. strip_classic-Stripped b w v some;
}

-- 3 * 10 ^ 2
abbrev three_hundred : BigDecimal
three_hundred = record { coefficient = three; scale = negsuc 1 }

three_hundred-IsCanonical : IsCanonical three_hundred
three_hundred-IsCanonical = record {
  coefficient = three-IsValid;
  scale = record { above = omega arith; below = omega arith };
  zero_scale = λ z. absurd (omega (arith, z));
  last_digit = λ p. omega arith;
}

-- -(2 ^ 64 + 5) / 10 ^ 4
abbrev small_digits : BigDecimal
small_digits = record { coefficient = minus; scale = pos 4 }

small_digits-IsCanonical : IsCanonical small_digits
small_digits-IsCanonical = record {
  coefficient = minus-IsValid;
  scale = record { above = omega arith; below = omega arith };
  zero_scale = λ z. absurd (omega (arith, z));
  last_digit = λ p. omega arith;
}

strip_decimal_zeros-Stripped_example : IfOk (Stripped full) (strip_decimal_zeros classic full calm)
strip_decimal_zeros-Stripped_example =
    strip_decimal_zeros-Stripped classic full calm full-IsValid (omega arith)

add-Stands_example :
    Ensures
      (Stands (decimal three_hundred +ℚ decimal small_digits))
      three_hundred
      (add school classic true false three_hundred three_hundred small_digits calm)
add-Stands_example =
    add-Stands school classic true false three_hundred three_hundred small_digits calm (λ e. refl)
      (λ e. cc) three_hundred-IsCanonical small_digits-IsCanonical

mul-Stands_example :
    Ensures
      (Stands (decimal three_hundred *ℚ decimal small_digits))
      three_hundred
      (mul school classic three_hundred three_hundred small_digits calm)
mul-Stands_example =
    mul-Stands school classic three_hundred three_hundred small_digits calm
      three_hundred-IsCanonical small_digits-IsCanonical

normalize-Stands_example : Normalizes three_hundred (normalize school classic three_hundred calm)
normalize-Stands_example =
    normalize-Stands school classic three_hundred calm three-IsValid three_hundred-IsCanonical.scale

from_bigdecimal-Refines_example :
    Ensures
      (Refines (decimal small_digits))
      three_halves
      (from_bigdecimal school three_halves small_digits calm)
from_bigdecimal-Refines_example =
    from_bigdecimal-Refines school three_halves small_digits calm small_digits-IsCanonical
