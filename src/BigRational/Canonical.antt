-- ===== src/BigRational/Canonical.antt =====
-- Fractions in lowest terms are canonical, and `bigrational_compare` tells whether two are the same.
use Prim.Native.Nat.{◌∣◌, Ordering}
use Prim.Native.Nat.Ordering.{eq}
use native.Mathlib.Nat
use num_forge.Base.{ℕ, ◌*◌, ◌≡◌, ◌↔◌, arith, ap, ap₂, subst, sym, ◌∙◌}
use num_forge.Base.Int.{ℤ, pos, nat_abs, ◌*ℤ◌}
use num_forge.Base.Int.Ring.{*ℤ_cancel, nat_abs-product}
use num_forge.BigInt.Types.{to_ℤ}
use num_forge.BigInt.Storage.Holding.{nat_abs-signed}
use num_forge.BigInt.Magnitude.Value.{value}
use num_forge.BigInt.NumberTheory.Divisors.{IsGcd}
use num_forge.BigRational.Fractions.{fraction, rational, cross_of_equal, equal_of_cross, ◌≃◌}
use num_forge.Runtime.Budget.{World}
use num_forge.BigInt.Multiplication.{Karatsuba}
use num_forge.BigRational.Operations.{compare}
use num_forge.BigRational.Order.{compare-Ordered}
use num_forge.BigRational.Contract.{Ensures, Ensures-map}
use num_forge.BigRational.Types.{BigRational, IsReduced}

magnitudes : (x y : ℤ) (d e : ℕ) → x *ℤ pos e ≡ y *ℤ pos d → nat_abs x * e ≡ nat_abs y * d
magnitudes x y d e h =
    omega (arith, sym (nat_abs-product x (pos e)) ∙ ap nat_abs h ∙ nat_abs-product y (pos d))

-- A denominator in lowest terms divides the other one.
denominator_dvd : (m n d e : ℕ) → IsGcd 1 m d → m * e ≡ n * d → d ∣ e
denominator_dvd m n d e g h =
    subst (◌∣◌ d) (omega arith)
      (g.greatest d e (subst (◌∣◌ d) (sym h) (Nat.dvd-mul_left d n)) (Nat.dvd-mul_right d e))

-- Two fractions in lowest terms that stand for the same rational number have the same numerator and the
-- same denominator.
pub rational_unique :
    (a b : BigRational) (ra : IsReduced a) (rb : IsReduced b)
    → rational a ra ≡ rational b rb
    → (to_ℤ a.numerator ≡ to_ℤ b.numerator)
      × (value a.denominator.limbs ≡ value b.denominator.limbs)
rational_unique a b ra rb e = (
  *ℤ_cancel _ _ (value a.denominator.limbs) ra.nonzero
      (ap (λ (t : ℕ). to_ℤ a.numerator *ℤ pos t) same ∙ cross),
  same,
)
  where
    cross : fraction a ra ≃ fraction b rb
    cross = cross_of_equal (fraction a ra) (fraction b rb) e

    crossed :
        value a.numerator.limbs * value b.denominator.limbs
        ≡ value b.numerator.limbs * value a.denominator.limbs
    crossed = omega (
      arith,
      magnitudes _ _ _ _ cross,
      ap (λ (t : ℕ). t * value b.denominator.limbs)
          (nat_abs-signed a.numerator.is_negative (value a.numerator.limbs)),
      ap (λ (t : ℕ). t * value a.denominator.limbs)
          (nat_abs-signed b.numerator.is_negative (value b.numerator.limbs)),
    )

    same : value a.denominator.limbs ≡ value b.denominator.limbs
    same =
        Nat.dvd_antisymm (denominator_dvd _ _ _ _ ra.coprime crossed)
          (denominator_dvd _ _ _ _ rb.coprime (sym crossed))

-- The integers that two fractions hold are the same.
abbrev pub Same : BigRational → BigRational → Type 0
Same a b =
    (to_ℤ a.numerator ≡ to_ℤ b.numerator) × (value a.denominator.limbs ≡ value b.denominator.limbs)

-- `bigrational_compare` of two fractions in lowest terms stores, with BIGRATIONAL_OK, equality exactly if
-- their numerators are the same integer and their denominators the same number. Without BIGRATIONAL_OK
-- it stores nothing. The Karatsuba routine is taken to multiply.
pub compare-Same :
    (karatsuba : Karatsuba) (before : Ordering) (a b : BigRational) (w : World)
    → IsReduced a
    → IsReduced b
    → Ensures (λ o. (o ≡ eq) ↔ Same a b) before (compare karatsuba before a b w)
compare-Same k before a b w ra rb =
    Ensures-map
      (λ o h. (
        λ e. rational_unique a b ra rb (h.1.0 e),
        λ same. h.1.1 (
            equal_of_cross (fraction a ra) (fraction b rb)
              (ap₂ (λ (n : ℤ) (m : ℕ). n *ℤ pos m) same.0 (sym same.1))),
      ))
      (compare-Ordered k before a b w ra rb)
