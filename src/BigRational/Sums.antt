-- ===== src/BigRational/Sums.antt =====
-- `bigrational_add` and `bigrational_sub` compute sums and differences of rational numbers.
use native.Mathlib.Nat.{div-mul_cancel, mul-pos}
use num_forge.Base.{
  ℕ, ◌*◌, ◌/◌, ◌<◌, ◌≤◌, ◌≡◌, Bool, true, false, if◌then◌else◌, arith, ap, ap₂, sym, ◌∙◌,
}
use num_forge.Base.Int.{ℤ, pos, ◌+ℤ◌, ◌-ℤ◌, ◌*ℤ◌}
use num_forge.Base.Int.Ring.{pos_product, regroup, sum_scaled, difference_scaled}
use num_forge.Runtime.Budget.{World}
use num_forge.BigInt.Types.{BigInt, IsValid, Computes, to_ℤ, empty, max_limbs}
use num_forge.BigInt.Magnitude.Value.{value}
use num_forge.BigInt.Arithmetic
use num_forge.BigInt.Arithmetic.Signed.{add-Computes, sub-Computes}
use num_forge.BigInt.Multiplication.{Karatsuba}
use num_forge.BigInt.Multiplication.Product.{mul-Computes}
use num_forge.BigRational.{create_all}
use num_forge.BigRational.Operations.{sum, add, sub}
use num_forge.BigRational.Reduction.{quotient_pos, set_fraction-Reduces}
use num_forge.BigRational.Steps.{gcd-Divisor, div_denominator, denominator-Represents}
use num_forge.BigRational.Fractions.{
  Fraction, combined, ≃_trans, equal_of_cross, as_ℚ, ℚ, rational, fraction, ◌+ℚ◌, ◌-ℚ◌, +ℚ_mk,
  -ℚ_mk, Scales,
}
use num_forge.BigRational.Types.{BigRational, IsReduced, Reduces}
use num_forge.BigRational.Contract.{Ensures, Ensures-map, Ensures-step, Ensures-created}

-- The object is in lowest terms and stands for a rational number.
pub record Refines (q : ℚ) (r : BigRational) : Type 0 where
  pub reduced : IsReduced r
  pub number : rational r reduced ≡ q

abbrev pub integer_op : Bool → ℤ → ℤ → ℤ
integer_op is_difference a b = if is_difference then a -ℤ b else a +ℤ b

abbrev pub rational_op : Bool → ℚ → ℚ → ℚ
rational_op is_difference a b = if is_difference then a -ℚ b else a +ℚ b

pub integer_op-Scales : (d : Bool) → Scales (integer_op d)
integer_op-Scales true = difference_scaled
integer_op-Scales false = sum_scaled

pub rational_op_mk :
    (d : Bool) (x y : Fraction)
    → as_ℚ (combined (integer_op d) x y) ≡ rational_op d (as_ℚ x) (as_ℚ y)
rational_op_mk true = -ℚ_mk
rational_op_mk false = +ℚ_mk

-- The numerator over the least common denominator, and over the product of the denominators.
least_denominator :
    (d : Bool) (x y : Fraction) (g u v : ℕ)
    → u * g ≡ y.den
    → v * g ≡ x.den
    → integer_op d (x.num *ℤ pos u) (y.num *ℤ pos v) *ℤ pos (x.den * y.den)
      ≡ (combined (integer_op d) x y).num *ℤ pos (x.den * u)
least_denominator d x y g u v eu ev =
    integer_op-Scales d _ _ (x.den * y.den)
    ∙ ap₂ (integer_op d) (regroup x.num u (x.den * y.den) y.den (x.den * u) (omega arith))
        (regroup y.num v (x.den * y.den) x.den (x.den * u) across)
    ∙ sym (integer_op-Scales d _ _ (x.den * u))
  where
    across : v * (x.den * y.den) ≡ x.den * (x.den * u)
    across =
        omega (arith, ap (λ (t : ℕ). v * x.den * t) (sym eu), ap (λ (t : ℕ). t * (x.den * u)) ev)

pub op-Computes :
    (d : Bool) (result a b : BigInt) (w : World)
    → result.capacity ≤ max_limbs
    → IsValid a
    → IsValid b
    → Computes result
        (integer_op d (to_ℤ a) (to_ℤ b))
        (if d then Arithmetic.sub result a b w else Arithmetic.add result a b w)
op-Computes true result a b w c va vb = sub-Computes result a b w c va vb
op-Computes false result a b w c va vb = add-Computes result a b w c va vb

sum_number :
    (d : Bool) (x y : Fraction) (g u v : ℕ) (n m : ℤ)
    → u * g ≡ y.den
    → v * g ≡ x.den
    → 0 < u
    → n ≡ integer_op d (x.num *ℤ pos u) (y.num *ℤ pos v)
    → m ≡ pos (x.den * u)
    → (r : BigRational) → Reduces n m r
    → Refines (rational_op d (as_ℚ x) (as_ℚ y)) r
sum_number d x y g u v n m eu ev up en em r h = record {
  reduced = h.reduced;
  number =
      equal_of_cross (fraction r h.reduced) (combined (integer_op d) x y) (
        ≃_trans (fraction r h.reduced) middle (combined (integer_op d) x y)
          (ap (λ (t : ℤ). to_ℤ r.numerator *ℤ t) (sym em)
            ∙ h.cross
            ∙ ap (λ (t : ℤ). t *ℤ pos (value r.denominator.limbs)) en)
          (least_denominator d x y g u v eu ev))
      ∙ rational_op_mk d x y;
}
  where
    middle : Fraction
    middle = record {
      num = integer_op d (x.num *ℤ pos u) (y.num *ℤ pos v);
      den = x.den * u;
      den_pos = mul-pos x.den_pos up;
    }

module _ (karatsuba : Karatsuba) (result a b : BigRational) (w : World) (ra : IsReduced a)
    (rb : IsReduced b) where
  sum-Refines :
      (d : Bool)
      → Ensures
          (Refines (rational_op d (rational a ra) (rational b rb)))
          result
          (sum karatsuba d result a b w)
  unfolding sum
  sum-Refines d = Ensures-created (create_all 7 w) λ w1.
      Ensures-step _
        (gcd-Divisor a.denominator b.denominator w1 ra.denominator rb.denominator rb.nonzero)
        λ g w2 hg. Ensures-step _ (div_denominator empty b rb g w2 hg) λ u w3 hu.
          Ensures-step _ (div_denominator empty a ra g w3 hg) λ v w4 hv.
            Ensures-step _
              (mul-Computes karatsuba empty a.numerator u w4 (omega arith) ra.numerator hu.valid)
              λ left w5 hl.
                Ensures-step _
                  (mul-Computes karatsuba empty b.numerator v w5 (omega arith) rb.numerator
                    hv.valid)
                  λ right w6 hr.
                    Ensures-step _
                      (op-Computes d empty left right w6 (omega arith) hl.valid hr.valid)
                      λ n w7 hn.
                        Ensures-step _
                          (mul-Computes karatsuba empty a.denominator u w7 (omega arith)
                            ra.denominator hu.valid)
                          λ m w8 hm.
                            Ensures-map
                              (sum_number d (fraction a ra) (fraction b rb) (value g.limbs)
                                (value b.denominator.limbs / value g.limbs)
                                (value a.denominator.limbs / value g.limbs) (to_ℤ n) (to_ℤ m)
                                (div-mul_cancel _ hg.greatest.right)
                                (div-mul_cancel _ hg.greatest.left)
                                (quotient_pos (value g.limbs) (value b.denominator.limbs)
                                  hg.greatest.right hg.positive rb.nonzero)
                                (hn.integer
                                  ∙ ap₂ (integer_op d)
                                      (hl.integer
                                        ∙ ap (λ (t : ℤ). to_ℤ a.numerator *ℤ t) hu.integer)
                                      (hr.integer
                                        ∙ ap (λ (t : ℤ). to_ℤ b.numerator *ℤ t) hv.integer))
                                (hm.integer
                                  ∙ ap₂ ◌*ℤ◌ (denominator-Represents a ra).integer hu.integer
                                  ∙ sym (pos_product _ _)))
                              (set_fraction-Reduces result n m w8 hn.valid hm.valid)

  -- `bigrational_add` of two fractions in lowest terms gives, with BIGRATIONAL_OK, the sum of the two
  -- rational numbers in lowest terms, and otherwise leaves the destination untouched.
  pub add-Refines :
      Ensures (Refines (rational a ra +ℚ rational b rb)) result (add karatsuba result a b w)
  add-Refines = sum-Refines false

  -- `bigrational_sub` likewise gives the difference.
  pub sub-Refines :
      Ensures (Refines (rational a ra -ℚ rational b rb)) result (sub karatsuba result a b w)
  sub-Refines = sum-Refines true
