-- ===== src/BigDecimal/Conversion.antt =====
-- `bigrational_from_bigdecimal` of src/core/bigrational/bigrational.c: a decimal as a fraction in lowest terms.
use native.Mathlib.Nat.{one-le-pow, pow-zero}
use num_forge.Base.{
  ℕ, ◌^◌, ◌≡◌, true, false, if◌then◌else◌, arith, ap, ap₂, sym, ◌∙◌, inl, inr, Bool-cases,
}
use num_forge.Base.Int.{ℤ, pos, pos_part, neg_part, ◌*ℤ◌}
use num_forge.Base.Int.Ring.{times_one}
use num_forge.Runtime.Budget.{World}
use num_forge.BigInt.Types.{to_ℤ}
use num_forge.BigInt.Storage
use num_forge.BigInt.Storage.Normal.{copy-Computes}
use num_forge.BigInt.Magnitude.Value.{value}
use num_forge.BigInt.Multiplication.{Karatsuba}
use num_forge.BigRational.{create, obtained, set_fraction}
use num_forge.BigRational.Create.{create-IsZero, IsZero-room, Ensures-obtained}
use num_forge.BigRational.Reduction.{set_fraction-Reduces}
use num_forge.BigRational.Sums.{Refines}
use num_forge.BigRational.Types.{BigRational, Reduces, Result, step, after}
use num_forge.BigRational.Contract.{Ensures, Ensures-map, Ensures-step, Ensures-after}
use num_forge.BigRational.Fractions.{Fraction, as_ℚ, fraction, equal_of_cross}
use num_forge.BigDecimal.Types.{BigDecimal, IsCanonical}
use num_forge.BigDecimal.Scales.{less, abs_i64}
use num_forge.BigDecimal.Powers.{
  set_power_of_ten, set_power_of_ten-Represents, multiply_power_of_ten,
  multiply_power_of_ten-Represents,
}
use num_forge.BigDecimal.Value.{decimal_fraction, decimal}

module _ (karatsuba : Karatsuba) where
  unfoldable pub from_bigdecimal : BigRational → BigDecimal → World → Result BigRational
  from_bigdecimal result d w = obtained (create w) result λ temporary w1.
      step (Storage.copy temporary.numerator d.coefficient w1) result λ numerator w2.
        if less (pos 0) d.scale
        then (after (set_power_of_ten temporary.denominator (pos_part d.scale) w2) result
            λ denominator w3. set_fraction result numerator denominator w3)
        else if less d.scale (pos 0)
        then (after (multiply_power_of_ten karatsuba numerator numerator (abs_i64 d.scale) w2)
            result λ scaled w3. set_fraction result scaled temporary.denominator w3)
        else set_fraction result numerator temporary.denominator w2

-- A fraction of integers whose denominator is a power of 10.
power_fraction : ℤ → ℕ → Fraction
power_fraction n p = record {
  num = n;
  den = 10 ^ p;
  den_pos = omega (arith, one-le-pow p 10 (omega arith));
}

Reduces-Refines :
    (n m v s : ℤ)
    → n ≡ v *ℤ pos (10 ^ neg_part s)
    → m ≡ pos (10 ^ pos_part s)
    → (r : BigRational) → Reduces n m r
    → Refines (as_ℚ (decimal_fraction v s)) r
Reduces-Refines n m v s en em r h = record {
  reduced = h.reduced;
  number = equal_of_cross (fraction r h.reduced) (decimal_fraction v s) (
      ap (λ (t : ℤ). to_ℤ r.numerator *ℤ t) (sym em)
      ∙ h.cross
      ∙ ap (λ (t : ℤ). t *ℤ pos (value r.denominator.limbs)) en);
}

no_power : (v : ℤ) (p : ℕ) → p ≡ 0 → v ≡ v *ℤ pos (10 ^ p)
no_power v p e =
    sym (times_one v)
    ∙ ap (λ (t : ℕ). v *ℤ pos t) (sym (pow-zero 10) ∙ ap (λ (t : ℕ). 10 ^ t) (sym e))

one_power : (p : ℕ) → p ≡ 0 → pos 1 ≡ pos (10 ^ p)
one_power p e = ap pos (sym (pow-zero 10) ∙ ap (λ (t : ℕ). 10 ^ t) (sym e))

-- `bigrational_from_bigdecimal` of a decimal in canonical form gives, with BIGRATIONAL_OK, the fraction in
-- lowest terms of the same number, and otherwise leaves the destination untouched. The Karatsuba routine is
-- taken to compute products.
pub from_bigdecimal-Refines :
    (karatsuba : Karatsuba) (result : BigRational) (d : BigDecimal) (w : World)
    → IsCanonical d
    → Ensures (Refines (decimal d)) result (from_bigdecimal karatsuba result d w)
unfolding from_bigdecimal
from_bigdecimal-Refines k result d w h = Ensures-obtained (create w) λ t w1 et.
    let z = create-IsZero w t et in
    Ensures-step _ (copy-Computes t.numerator d.coefficient w1 (IsZero-room t z).0 h.coefficient)
      λ n w2 hn. elim (Bool-cases (less (pos 0) d.scale)) [
        | inl above ↦ rw above (
            Ensures-after _ (set_power_of_ten-Represents t.denominator (pos_part d.scale) w2)
              λ p w3 hp.
                Ensures-map
                  (Reduces-Refines (to_ℤ n) (to_ℤ p) (to_ℤ d.coefficient) d.scale
                    (hn.integer
                      ∙ no_power (to_ℤ d.coefficient) (neg_part d.scale) (none_below d.scale above))
                    hp.integer)
                  (set_fraction-Reduces result n p w3 hn.valid hp.valid))
        | inr rest ↦ rw rest (elim (Bool-cases (less d.scale (pos 0))) [
          | inl below ↦ rw below (
              Ensures-after _
                (multiply_power_of_ten-Represents k n n (abs_i64 d.scale) w2 hn.valid.bounded
                  hn.valid)
                λ c w3 hc.
                  Ensures-map
                    (Reduces-Refines (to_ℤ c) (to_ℤ t.denominator) (to_ℤ d.coefficient) d.scale
                      (hc.integer
                        ∙ ap₂ (λ (v : ℤ) (p : ℕ). v *ℤ pos (10 ^ p)) hn.integer
                            (only_below d.scale below))
                      (z.denominator.integer
                        ∙ one_power (pos_part d.scale) (none_above d.scale below)))
                    (set_fraction-Reduces result c t.denominator w3 hc.valid z.denominator.valid))
          | inr other ↦ rw other (
              Ensures-map
                (Reduces-Refines (to_ℤ n) (to_ℤ t.denominator) (to_ℤ d.coefficient) d.scale
                  (hn.integer
                    ∙ no_power (to_ℤ d.coefficient) (neg_part d.scale)
                        (neither d.scale rest other).0)
                  (z.denominator.integer
                    ∙ one_power (pos_part d.scale) (neither d.scale rest other).1))
                (set_fraction-Reduces result n t.denominator w2 hn.valid z.denominator.valid))
        ])
      ]
  where
    none_below : (s : ℤ) → less (pos 0) s ≡ true → neg_part s ≡ 0
    none_below s e = ground (arith, e)

    none_above : (s : ℤ) → less s (pos 0) ≡ true → pos_part s ≡ 0
    none_above s e = ground (arith, e)

    only_below : (s : ℤ) → less s (pos 0) ≡ true → abs_i64 s ≡ neg_part s
    only_below s e = ground (arith, e)

    neither :
        (s : ℤ)
        → less (pos 0) s ≡ false
        → less s (pos 0) ≡ false
        → (neg_part s ≡ 0) × (pos_part s ≡ 0)
    neither s e f = (ground (arith, e, f), ground (arith, e, f))
