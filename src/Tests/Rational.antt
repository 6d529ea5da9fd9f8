-- ===== src/Tests/Rational.antt =====
-- The operations on rationals at concrete inputs.
use Prim.Native.Nat.Ordering.{eq}
use num_forge.Base.{◌≡◌, ◌↔◌, refl, false, ◌&&◌, not, ◌==◌, [], ◌∷◌, arith}
use num_forge.BigInt.Types.{BigInt, IsValid, to_ℤ}
use num_forge.BigInt.Magnitude.Value.{value}
use num_forge.BigInt.NumberTheory.Divisors.{one-IsGcd, division-IsGcd}
use num_forge.BigRational.{set_fraction, to_string}
use num_forge.BigRational.Types.{BigRational, IsReduced, Reduces, is_division_by_zero}
use num_forge.BigRational.Contract.{Ensures}
use num_forge.BigRational.Operations.{add, sub, mul, div, compare}
use num_forge.BigRational.Fractions.{rational, ◌+ℚ◌, ◌-ℚ◌, ◌*ℚ◌}
use num_forge.BigRational.Reduction.{set_fraction_lem}
use num_forge.BigRational.Sums.{Refines, add-Refines, sub-Refines}
use num_forge.BigRational.Products.{mul-Refines, div-Refines}
use num_forge.BigRational.Order.{order, compare-Ordered}
use num_forge.BigRational.Writing.{Writes, to_string-Writes}
use num_forge.BigRational.Canonical.{Same, compare-Same}
use num_forge.Tests.Data.{calm, full, full-IsValid, minus, minus-IsValid}
use num_forge.Tests.Arithmetic.{school}
use num_forge.Tests.Bits.{three, three-IsValid}

abbrev pub two : BigInt
two = record { limbs = 2 ∷ []; capacity = 1; is_negative = false }

two-IsValid : IsValid two
two-IsValid = record {
  magnitude = record { words = omega arith; trimmed = omega arith };
  signed_nonzero = λ h. cc;
  fits = omega arith;
  bounded = omega arith;
}

-- 3/2
abbrev pub three_halves : BigRational
three_halves = record { numerator = three; denominator = two }

three_halves-IsReduced : IsReduced three_halves
three_halves-IsReduced = record {
  numerator = three-IsValid;
  denominator = two-IsValid;
  not_negative = refl;
  nonzero = omega arith;
  coprime = division-IsGcd 1 1 3 2 1 refl (one-IsGcd 2);
}

-- -(2 ^ 64 + 5) / 2
abbrev minus_half : BigRational
minus_half = record { numerator = minus; denominator = two }

minus_half-IsReduced : IsReduced minus_half
minus_half-IsReduced = record {
  numerator = minus-IsValid;
  denominator = two-IsValid;
  not_negative = refl;
  nonzero = omega arith;
  coprime = division-IsGcd 1 9223372036854775810 18446744073709551621 2 1 refl (one-IsGcd 2);
}

set_fraction_lem_example :
    Ensures
      (Reduces (to_ℤ full) (to_ℤ minus))
      three_halves
      (set_fraction three_halves full minus calm)
    × (((value minus.limbs == 0)
          && not (is_division_by_zero (set_fraction three_halves full minus calm).status))
        ≡ false)
set_fraction_lem_example = set_fraction_lem three_halves full minus calm full-IsValid minus-IsValid

add-Refines_example :
    Ensures
      (Refines
        (rational three_halves three_halves-IsReduced +ℚ rational minus_half minus_half-IsReduced))
      three_halves
      (add school three_halves three_halves minus_half calm)
add-Refines_example =
    add-Refines school three_halves three_halves minus_half calm three_halves-IsReduced
      minus_half-IsReduced

sub-Refines_example :
    Ensures
      (Refines
        (rational three_halves three_halves-IsReduced -ℚ rational minus_half minus_half-IsReduced))
      three_halves
      (sub school three_halves three_halves minus_half calm)
sub-Refines_example =
    sub-Refines school three_halves three_halves minus_half calm three_halves-IsReduced
      minus_half-IsReduced

mul-Refines_example :
    Ensures
      (Refines
        (rational three_halves three_halves-IsReduced *ℚ rational minus_half minus_half-IsReduced))
      minus_half
      (mul school minus_half three_halves minus_half calm)
mul-Refines_example =
    mul-Refines school minus_half three_halves minus_half calm three_halves-IsReduced
      minus_half-IsReduced

div-Refines_example :
    Ensures
      (λ r.
        (h : IsReduced r) × (rational r h *ℚ rational minus_half minus_half-IsReduced
          ≡ rational three_halves three_halves-IsReduced))
      minus_half
      (div school minus_half three_halves minus_half calm)
    × (((value minus_half.numerator.limbs == 0)
          && not (is_division_by_zero (div school minus_half three_halves minus_half calm).status))
        ≡ false)
div-Refines_example =
    div-Refines school minus_half three_halves minus_half calm three_halves-IsReduced
      minus_half-IsReduced

compare-Ordered_example :
    Ensures
      (λ o.
        (o ≡ order three_halves minus_half)
        × ((o ≡ eq) ↔ (
            rational three_halves three_halves-IsReduced
            ≡ rational minus_half minus_half-IsReduced)))
      eq
      (compare school eq three_halves minus_half calm)
compare-Ordered_example =
    compare-Ordered school eq three_halves minus_half calm three_halves-IsReduced
      minus_half-IsReduced

to_string-Writes_example : Ensures (Writes minus_half) [] (to_string [] minus_half calm)
to_string-Writes_example = to_string-Writes [] minus_half calm minus_half-IsReduced

-- 3/2 in larger buffers.
abbrev roomy : BigRational
roomy = record {
  numerator = record three { capacity = 7 };
  denominator = record two { capacity = 9 };
}

roomy-IsReduced : IsReduced roomy
roomy-IsReduced = record {
  numerator = record {
    magnitude = three-IsValid.magnitude;
    signed_nonzero = λ h. cc;
    fits = omega arith;
    bounded = omega arith;
  };
  denominator = record {
    magnitude = two-IsValid.magnitude;
    signed_nonzero = λ h. cc;
    fits = omega arith;
    bounded = omega arith;
  };
  not_negative = refl;
  nonzero = omega arith;
  coprime = three_halves-IsReduced.coprime;
}

compare-Same_example :
    Ensures (λ o. (o ≡ eq) ↔ Same three_halves roomy) eq (compare school eq three_halves roomy calm)
compare-Same_example =
    compare-Same school eq three_halves roomy calm three_halves-IsReduced roomy-IsReduced
