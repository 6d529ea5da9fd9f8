-- ===== src/BigRational/Steps.antt =====
-- The steps of the operations on rationals: greatest common divisors and the quotients by them.
use native.Mathlib.Nat
use num_forge.Base.{ℕ, ◌/◌, ◌<◌, ◌≡◌, Bool, false, differ, arith, ap, ◌∙◌}
use num_forge.Base.Int.{pos, signed}
use num_forge.Runtime.Budget.{World}
use num_forge.BigInt.Types.{BigInt, IsValid, Represents, Computes, Gives, empty}
use num_forge.BigInt.Arithmetic.Signed.{Computes-eq}
use num_forge.BigInt.Magnitude.Value.{value}
use num_forge.BigInt.Quotient
use num_forge.BigInt.Quotient.Signed.{div-Computes}
use num_forge.BigInt.NumberTheory.{gcd}
use num_forge.BigInt.NumberTheory.Divisors.{IsGcd}
use num_forge.BigInt.NumberTheory.Euclid.{ComputesGcd, gcd-ComputesGcd}
use num_forge.BigRational.Create.{sign_of}
use num_forge.BigRational.Reduction.{differ-false}
use num_forge.BigRational.Types.{BigRational, IsReduced}

-- A greatest common divisor of two magnitudes that are not both 0, as an object.
pub record Divisor (m n : ℕ) (g : BigInt) : Type 0 where
  pub valid : IsValid g
  pub not_negative : g.is_negative ≡ false
  pub positive : 0 < value g.limbs
  pub greatest : IsGcd (value g.limbs) m n

pub ComputesGcd-Divisor :
    (a b g : BigInt)
    → ComputesGcd a b g
    → 0 < value b.limbs
    → Divisor (value a.limbs) (value b.limbs) g
ComputesGcd-Divisor a b g c p =
    let gp = Nat.pos_of_dvd_of_pos c.divisor.right p in
    record {
      valid = c.represents.valid;
      not_negative = (sign_of false (value g.limbs) g gp c.represents.integer).0;
      positive = gp;
      greatest = c.divisor;
    }

-- A quotient by it.
pub div-Divisor :
    (m n : ℕ) (result a g : BigInt) (w : World)
    → IsValid a
    → Divisor m n g
    → Computes result
        (signed a.is_negative (value a.limbs / value g.limbs))
        (Quotient.div result a g w)
div-Divisor m n result a g w va d =
    Computes-eq
      (ap (λ (s : Bool). signed s (value a.limbs / value g.limbs))
        (ap (differ a.is_negative) d.not_negative ∙ differ-false a.is_negative))
      (div-Computes a g w va d.valid result)

pub gcd-Divisor :
    (a b : BigInt) (w : World)
    → IsValid a
    → IsValid b
    → 0 < value b.limbs
    → Gives (Divisor (value a.limbs) (value b.limbs)) empty (gcd empty a b w)
gcd-Divisor a b w va vb p =
    let h = gcd-ComputesGcd empty a b w (omega arith) va vb in
    record { success = λ e. ComputesGcd-Divisor a b _ (h.success e) p; untouched = h.untouched }

pub denominator-Represents :
    (r : BigRational) → IsReduced r → Represents (pos (value r.denominator.limbs)) r.denominator
denominator-Represents r h = record {
  valid = h.denominator;
  integer = ap (λ (s : Bool). signed s (value r.denominator.limbs)) h.not_negative;
}

pub div_denominator :
    {m n : ℕ} (result : BigInt) (r : BigRational)
    → IsReduced r
    → (g : BigInt) (w : World) → Divisor m n g
    → Computes result
        (pos (value r.denominator.limbs / value g.limbs))
        (Quotient.div result r.denominator g w)
div_denominator {m} {n} result r h g w d =
    Computes-eq
      (ap (λ (s : Bool). signed s (value r.denominator.limbs / value g.limbs)) h.not_negative)
      (div-Divisor m n result r.denominator g w h.denominator d)
