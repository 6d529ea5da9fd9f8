-- ===== src/BigRational/Products.antt =====
-- `bigrational_mul` and `bigrational_div` compute products and quotients of rational numbers.
use Prim.Native.Nat.{◌∣◌}
use num_forge.Base.{
  ℕ, ◌/◌, ◌<◌, ◌≡◌, refl, false, ◌&&◌, not, ◌==◌, arith, ap, ap₂, sym, ◌∙◌, Bool-cases, inl, inr,
}
use num_forge.Base.Int.{ℤ, pos, signed, ◌*ℤ◌}
use num_forge.Base.Int.Ring.{pos_product, *ℤ_exchange, *ℤ_assoc, *ℤ_swap, *ℤ_comm, signed-quotient}
use num_forge.Runtime.Budget.{World}
use num_forge.BigInt.Types.{BigInt, IsValid, Represents, to_ℤ, empty}
use num_forge.BigInt.Magnitude.Value.{value}
use num_forge.BigInt.Comparison.{is_zero}
use num_forge.BigInt.Multiplication.{Karatsuba}
use num_forge.BigInt.Multiplication.Product.{mul-Computes}
use num_forge.BigRational.{create_all}
use num_forge.BigRational.Operations.{crossed, product, mul, div}
use num_forge.BigRational.Reduction.{set_fraction-Reduces, some_value, zero_refused}
use num_forge.BigRational.Steps.{gcd-Divisor, div-Divisor, denominator-Represents}
use num_forge.BigRational.Fractions.{equal_of_cross, rational, fraction, times, ◌*ℚ◌, *ℚ_mk}
use num_forge.BigRational.Sums.{Refines}
use num_forge.BigRational.Types.{BigRational, IsReduced, division_by_zero, is_division_by_zero}
use num_forge.BigRational.Contract.{
  Ensures, Ensures-map, Ensures-step, Ensures-created, Ensures-refused,
}

-- Both sides of a fraction multiplied by the common divisors that were divided out.
cancelled :
    (p q u v x y : ℤ) (g1 g2 : ℕ)
    → x *ℤ (u *ℤ v) ≡ p *ℤ q *ℤ y
    → x *ℤ ((u *ℤ pos g2) *ℤ (v *ℤ pos g1)) ≡ (p *ℤ pos g1) *ℤ (q *ℤ pos g2) *ℤ y
cancelled p q u v x y g1 g2 h =
    ap (λ (t : ℤ). x *ℤ t) (sym (*ℤ_exchange u v (pos g2) (pos g1)))
    ∙ sym (*ℤ_assoc x (u *ℤ v) (pos g2 *ℤ pos g1))
    ∙ ap₂ ◌*ℤ◌ h (*ℤ_comm (pos g2) (pos g1))
    ∙ *ℤ_swap (p *ℤ q) y (pos g1 *ℤ pos g2)
    ∙ ap (λ (t : ℤ). t *ℤ y) (*ℤ_exchange p q (pos g1) (pos g2))

-- A quotient times the divisor.
restored :
    (b q : BigInt) (g : ℕ)
    → g ∣ value b.limbs
    → Represents (signed b.is_negative (value b.limbs / g)) q
    → to_ℤ q *ℤ pos g ≡ to_ℤ b
restored b q g h r =
    ap (λ (t : ℤ). t *ℤ pos g) r.integer ∙ signed-quotient b.is_negative (value b.limbs) g h

-- A fraction in lowest terms, equal to the one with these products above and below.
record Balanced (a : BigRational) (top bottom : BigInt) (r : BigRational) : Type 0 where
  pub reduced : IsReduced r
  pub cross :
      to_ℤ r.numerator *ℤ (to_ℤ a.denominator *ℤ to_ℤ bottom)
      ≡ to_ℤ a.numerator *ℤ to_ℤ top *ℤ pos (value r.denominator.limbs)

crossed-Balanced :
    (karatsuba : Karatsuba) (result a : BigRational) (top bottom : BigInt) (w : World)
    → IsReduced a
    → IsValid top
    → IsValid bottom
    → 0 < value bottom.limbs
    → Ensures (Balanced a top bottom) result (crossed karatsuba result a top bottom w)
unfolding crossed
crossed-Balanced k result a top bottom w ra vt vb some_bottom =
    Ensures-created (create_all 8 w) λ w1.
      Ensures-step _ (gcd-Divisor a.numerator bottom w1 ra.numerator vb some_bottom) λ g1 w2 h1.
        Ensures-step _ (gcd-Divisor top a.denominator w2 vt ra.denominator ra.nonzero) λ g2 w3 h2.
          Ensures-step _ (div-Divisor _ _ empty a.numerator g1 w3 ra.numerator h1) λ p w4 hp.
            Ensures-step _ (div-Divisor _ _ empty top g2 w4 vt h2) λ q w5 hq.
              Ensures-step _ (div-Divisor _ _ empty a.denominator g2 w5 ra.denominator h2)
                λ u w6 hu. Ensures-step _ (div-Divisor _ _ empty bottom g1 w6 vb h1) λ v w7 hv.
                  Ensures-step _ (mul-Computes k empty p q w7 (omega arith) hp.valid hq.valid)
                    λ n w8 hn.
                      Ensures-step _ (mul-Computes k empty u v w8 (omega arith) hu.valid hv.valid)
                        λ m w9 hm.
                          Ensures-map
                            (λ r h. record {
                              reduced = h.reduced;
                              cross =
                                  ap (λ (t : ℤ). to_ℤ r.numerator *ℤ t)
                                    (sym (
                                      ap₂ ◌*ℤ◌
                                        (restored a.denominator u (value g2.limbs) h2.greatest.right
                                          hu)
                                        (restored bottom v (value g1.limbs) h1.greatest.right hv)))
                                  ∙ cancelled (to_ℤ p) (to_ℤ q) (to_ℤ u) (to_ℤ v) (to_ℤ r.numerator)
                                      (pos (value r.denominator.limbs)) (value g1.limbs)
                                      (value g2.limbs)
                                      (ap (λ (t : ℤ). to_ℤ r.numerator *ℤ t) (sym hm.integer)
                                        ∙ h.cross
                                        ∙ ap (λ (t : ℤ). t *ℤ pos (value r.denominator.limbs))
                                            hn.integer)
                                  ∙ ap (λ (t : ℤ). t *ℤ pos (value r.denominator.limbs))
                                      (ap₂ ◌*ℤ◌
                                        (restored a.numerator p (value g1.limbs) h1.greatest.left
                                          hp)
                                        (restored top q (value g2.limbs) h2.greatest.left hq));
                            })
                            (set_fraction-Reduces result n m w9 hn.valid hm.valid)

module _ (karatsuba : Karatsuba) (result a b : BigRational) (w : World) (ra : IsReduced a)
    (rb : IsReduced b) where
  -- `bigrational_mul` of two fractions in lowest terms gives, with BIGRATIONAL_OK, the product of the two
  -- rational numbers in lowest terms, and otherwise leaves the destination untouched.
  pub mul-Refines :
      Ensures (Refines (rational a ra *ℚ rational b rb)) result (mul karatsuba result a b w)
  unfolding product
  mul-Refines =
      Ensures-map
        (λ r h. record {
          reduced = h.reduced;
          number =
              equal_of_cross (fraction r h.reduced) (times (fraction a ra) (fraction b rb)) (
                ap (λ (t : ℤ). to_ℤ r.numerator *ℤ t)
                  (pos_product _ _
                    ∙ sym (
                        ap₂ ◌*ℤ◌ (denominator-Represents a ra).integer
                          (denominator-Represents b rb).integer))
                ∙ h.cross)
              ∙ *ℚ_mk (fraction a ra) (fraction b rb);
        })
        (crossed-Balanced karatsuba result a b.numerator b.denominator w ra rb.numerator
          rb.denominator rb.nonzero)

  divided :
      Ensures
        (λ r. (h : IsReduced r) × (rational r h *ℚ rational b rb ≡ rational a ra))
        result
        (div karatsuba result a b w)
  unfolding product
  divided = elim (Bool-cases (is_zero b.numerator)) [
    | inl none_left ↦ rw none_left (Ensures-refused division_by_zero w refl)
    | inr more ↦ rw more (
        Ensures-map
          (λ r h. (
            h.reduced,
            sym (*ℚ_mk (fraction r h.reduced) (fraction b rb))
                ∙ equal_of_cross (times (fraction r h.reduced) (fraction b rb)) (fraction a ra) (
                    *ℤ_assoc (to_ℤ r.numerator) (to_ℤ b.numerator) (pos (value a.denominator.limbs))
                    ∙ ap (λ (t : ℤ). to_ℤ r.numerator *ℤ t)
                        (*ℤ_comm _ _
                          ∙ ap (λ (t : ℤ). t *ℤ to_ℤ b.numerator)
                              (sym (denominator-Represents a ra).integer))
                    ∙ h.cross
                    ∙ ap (λ (t : ℤ). to_ℤ a.numerator *ℤ t *ℤ pos (value r.denominator.limbs))
                        (denominator-Represents b rb).integer
                    ∙ *ℤ_assoc _ _ _
                    ∙ ap (λ (t : ℤ). to_ℤ a.numerator *ℤ t) (*ℤ_comm _ _ ∙ sym (pos_product _ _))),
          ))
          (crossed-Balanced karatsuba result a b.denominator b.numerator w ra rb.denominator
            rb.numerator (some_value b.numerator rb.numerator more)))
  ]

  -- `bigrational_div` of two fractions in lowest terms gives, with BIGRATIONAL_OK, a fraction in lowest
  -- terms whose product with the divisor is the dividend, as rational numbers, and otherwise leaves the
  -- destination untouched. For a divisor 0 it returns BIGRATIONAL_DIVISION_BY_ZERO. The Karatsuba
  -- routine is taken to compute products.
  pub div-Refines :
      Ensures
        (λ r. (h : IsReduced r) × (rational r h *ℚ rational b rb ≡ rational a ra))
        result
        (div karatsuba result a b w)
      × (((value b.numerator.limbs == 0)
            && not (is_division_by_zero (div karatsuba result a b w).status))
          ≡ false)
  unfolding product
  div-Refines = (divided, zero_refused b.numerator _ rb.numerator (λ z. rw (product, z) refl))
