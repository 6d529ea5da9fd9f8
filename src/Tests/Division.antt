-- ===== src/Tests/Division.antt =====
-- The long division and Euclid's algorithm at concrete inputs.
use num_forge.Base.{◌-◌, ◌^◌, ◌≡◌, refl, true, false, [], ◌∷◌, arith, radix}
use num_forge.BigInt.Types.{Gives, empty}
use num_forge.BigInt.Contract.{IfOk}
use num_forge.BigInt.Storage.Holding.{IsValid-Holds}
use num_forge.BigInt.LongDivision.{divmod_abs}
use num_forge.BigInt.LongDivision.Kernel.{Divides}
use num_forge.BigInt.LongDivision.Contract.{divmod_abs-Divides}
use num_forge.BigInt.Quotient.{fresh, div_mod}
use num_forge.BigInt.Quotient.Signed.{Truncated, div_mod-Truncated, fresh-Bounded}
use num_forge.BigInt.Magnitude.Value.{value}
use num_forge.BigInt.Magnitude.Long.{window_estimate}
use num_forge.BigInt.Magnitude.Long.Round.{Near, window-Near}
use num_forge.BigInt.NumberTheory.{gcd_loop, gcd, lcm}
use num_forge.BigInt.NumberTheory.Euclid.{ComputesGcd, gcd-ComputesGcd, gcd_loop-enough}
use num_forge.BigInt.NumberTheory.Multiples.{ComputesLcm, lcm-ComputesLcm}
use num_forge.Tests.Data.{calm, full, full-IsValid, minus, minus-IsValid}
use num_forge.Tests.Arithmetic.{school}
use num_forge.Tests.Bits.{three, three-IsValid}

divmod_abs-Divides_example :
    IfOk (Divides true full.limbs minus.limbs) (divmod_abs true false fresh full minus calm)
divmod_abs-Divides_example =
    divmod_abs-Divides true false fresh full minus calm full-IsValid.magnitude
      minus-IsValid.magnitude fresh-Bounded (omega arith) (omega arith)

div_mod-Truncated_example :
    Gives (Truncated minus full) (empty, three) (div_mod (empty, three) minus full calm)
div_mod-Truncated_example =
    div_mod-Truncated minus full calm minus-IsValid full-IsValid (empty, three)

gcd-ComputesGcd_example : Gives (ComputesGcd full minus) three (gcd three full minus calm)
gcd-ComputesGcd_example =
    gcd-ComputesGcd three full minus calm (omega arith) full-IsValid minus-IsValid

gcd_loop-enough_example : gcd_loop 4 full three fresh calm ≡ gcd_loop 9 full three fresh calm
gcd_loop-enough_example =
    gcd_loop-enough 4 9 full three fresh calm (IsValid-Holds full full-IsValid)
      (IsValid-Holds three three-IsValid) fresh-Bounded (omega arith) (omega arith)

lcm-ComputesLcm_example : Gives (ComputesLcm full minus) empty (lcm school empty full minus calm)
lcm-ComputesLcm_example =
    lcm-ComputesLcm school empty full minus calm (omega arith) full-IsValid minus-IsValid

window-Near_example :
    Near
      (value (7 ∷ 5 ∷ 2 ^ 62 ∷ []))
      (value ((radix - 1) ∷ 2 ^ 63 ∷ []))
      (window_estimate ((radix - 1) ∷ 2 ^ 63 ∷ []) (7 ∷ 5 ∷ 2 ^ 62 ∷ []))
window-Near_example =
    window-Near 0 ((radix - 1) ∷ 2 ^ 63 ∷ []) (7 ∷ 5 ∷ 2 ^ 62 ∷ []) (omega arith) (omega arith) refl
      refl (omega arith) (omega arith)
