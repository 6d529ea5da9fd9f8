-- ===== src/BigDecimal/Products.antt =====
-- `bigdecimal_mul` is exact.
use num_forge.Base.{◌≡◌, refl, some, arith, ap, subst, sym, ◌∙◌, inl, inr, Bool-cases}
use num_forge.Base.Int.{ℤ, pos, ◌+ℤ◌, ◌*ℤ◌, eq_of_parts, +ℤ_parts}
use num_forge.Base.Int.Ring.{+ℤ_comm}
use num_forge.Runtime.Budget.{World}
use num_forge.BigInt.Types.{BigInt, to_ℤ}
use num_forge.BigInt.Comparison.{is_zero}
use num_forge.BigInt.Multiplication.{Karatsuba}
use num_forge.BigInt.Multiplication.Product.{mul-Computes}
use num_forge.BigInt.Zeros.Contract.{InverseStripping}
use num_forge.BigRational.Create.{Ensures-obtained}
use num_forge.BigRational.Reduction.{some_value}
use num_forge.BigRational.Types.{scale_overflow}
use num_forge.BigRational.Contract.{
  Ensures, Ensures-ok, Ensures-refused, Ensures-step, Ensures-tried,
}
use num_forge.BigRational.Fractions.{as_ℚ, ◌*ℚ◌, *ℚ_mk, equal_of_cross, cross_of_equal}
use num_forge.BigDecimal.Types.{BigDecimal, IsInt64, IsCanonical}
use num_forge.BigDecimal.Scales.{i64_add, i64_add_lem, taken}
use num_forge.BigDecimal.Operations.{create, mul, product_scale, both_added}
use num_forge.BigDecimal.Exact.{create_capacity, create_scale, any_scale}
use num_forge.BigDecimal.Normal.{normalize-Stands}
use num_forge.BigDecimal.Value.{decimal_fraction, decimal, Stands, shifted, product_decimals}

both_added_lem :
    (a b c s : ℤ)
    → IsInt64 a
    → IsInt64 b
    → IsInt64 c
    → both_added a b c ≡ some s
    → (s ≡ a +ℤ b +ℤ c) × IsInt64 s
unfolding both_added
both_added_lem a b c s ha hb hc e = elim (taken (i64_add a b)) [
  | inl z ↦ absurd (cc (rw (both_added, z) at e))
  | inr (t, et) ↦
      let (first, ht) = i64_add_lem a b t ha hb et in
      let (second, hs) = i64_add_lem t c s ht hc (rw (both_added, et) at e) in
      (second ∙ ap (λ (v : ℤ). v +ℤ c) first, hs)
]

product_scale_lem :
    (a n b s : ℤ)
    → IsInt64 a
    → IsInt64 n
    → IsInt64 b
    → product_scale a n b ≡ some s
    → (s ≡ n +ℤ (a +ℤ b)) × IsInt64 s
unfolding product_scale
product_scale_lem a n b s ha hn hb e = elim (taken (both_added a n b)) [
  | inr (t, et) ↦
      let (sum, fits) = both_added_lem a n b s ha hn hb (et ∙ (rw (product_scale, et) at e)) in
      (sum ∙ first a n b, fits)
  | inl z ↦ elim (taken (both_added b n a)) [
    | inr (t, et) ↦
        let (sum, fits) = both_added_lem b n a s hb hn ha (et ∙ (rw (product_scale, z, et) at e)) in
        (sum ∙ second a n b, fits)
    | inl y ↦
        let (sum, fits) = both_added_lem a b n s ha hb hn (rw (product_scale, z, y) at e) in
        (sum ∙ +ℤ_comm (a +ℤ b) n, fits)
  ]
]
  where
    first : (a n b : ℤ) → a +ℤ n +ℤ b ≡ n +ℤ (a +ℤ b)
    first a n b =
        eq_of_parts _ _
          (omega (arith, +ℤ_parts (a +ℤ n) b, +ℤ_parts a n, +ℤ_parts n (a +ℤ b), +ℤ_parts a b))

    second : (a n b : ℤ) → b +ℤ n +ℤ a ≡ n +ℤ (a +ℤ b)
    second a n b =
        eq_of_parts _ _
          (omega (arith, +ℤ_parts (b +ℤ n) a, +ℤ_parts b n, +ℤ_parts n (a +ℤ b), +ℤ_parts a b))

-- A product of two decimals from the product of their coefficients, at scale 0.
product_number :
    (a b : BigDecimal) (c : BigInt) (p s : ℤ)
    → as_ℚ (decimal_fraction (to_ℤ c) s) ≡ as_ℚ (decimal_fraction p (pos 0))
    → p ≡ to_ℤ a.coefficient *ℤ to_ℤ b.coefficient
    → as_ℚ (decimal_fraction (to_ℤ c) (s +ℤ (a.scale +ℤ b.scale))) ≡ decimal a *ℚ decimal b
product_number a b c p s e ep =
    equal_of_cross _ _ (shifted (to_ℤ c) p s (pos 0) (a.scale +ℤ b.scale) (cross_of_equal _ _ e))
    ∙ ap (λ (v : ℤ). as_ℚ (decimal_fraction v (pos 0 +ℤ (a.scale +ℤ b.scale)))) ep
    ∙ equal_of_cross _ _ (
        product_decimals (to_ℤ a.coefficient) (to_ℤ b.coefficient) a.scale b.scale _
          (omega (arith, +ℤ_parts (pos 0) (a.scale +ℤ b.scale), +ℤ_parts a.scale b.scale)))
    ∙ *ℚ_mk _ _

module _ (karatsuba : Karatsuba) (inverse : InverseStripping) (result a b : BigDecimal) (w : World)
    (ha : IsCanonical a) (hb : IsCanonical b) where
  -- `bigdecimal_mul` of two decimals in canonical form gives, with BIGDECIMAL_OK, the product of the two
  -- numbers in canonical form, and otherwise leaves the destination untouched. The routines for long
  -- coefficients are taken to multiply and to strip zeros.
  pub mul-Stands :
      Ensures (Stands (decimal a *ℚ decimal b)) result (mul karatsuba inverse result a b w)
  unfolding mul
  mul-Stands = Ensures-obtained (create w) λ t w1 et.
      Ensures-step _
        (mul-Computes karatsuba t.coefficient a.coefficient b.coefficient w1
          (create_capacity w t et) ha.coefficient hb.coefficient)
        λ p w2 hp.
          Ensures-tried (Stands (decimal (record { coefficient = p; scale = t.scale }))) _
            (normalize-Stands karatsuba inverse (record { coefficient = p; scale = t.scale }) w2
              hp.valid
              (subst IsInt64 (sym (create_scale w t et))
                (record { above = omega arith; below = omega arith }))).success
            λ n w3 hn.
              let exact =
                product_number a b n.coefficient (to_ℤ p) n.scale
                  (hn.number
                    ∙ ap (λ (s : ℤ). as_ℚ (decimal_fraction (to_ℤ p) s)) (create_scale w t et))
                  hp.integer in
              elim (Bool-cases (is_zero n.coefficient)) [
                | inl z ↦ rw z (
                    Ensures-ok n w3 (record {
                      canonical = hn.canonical;
                      number = any_scale n.coefficient n.scale _ z ∙ exact;
                    }))
                | inr more ↦ rw more (elim (taken (product_scale a.scale n.scale b.scale)) [
                  | inl z ↦ rw z (Ensures-refused scale_overflow w3 refl)
                  | inr (s, es) ↦ rw es (
                      let (sum, fits) =
                        product_scale_lem a.scale n.scale b.scale s ha.scale hn.canonical.scale
                          hb.scale es in
                      let some_left = some_value n.coefficient hn.canonical.coefficient more in
                      Ensures-ok _ w3 (record {
                        canonical = record {
                          coefficient = hn.canonical.coefficient;
                          scale = fits;
                          zero_scale = λ z. absurd (omega (arith, z, some_left));
                          last_digit = hn.canonical.last_digit;
                        };
                        number =
                            ap (λ (v : ℤ). as_ℚ (decimal_fraction (to_ℤ n.coefficient) v)) sum
                            ∙ exact;
                      }))
                ])
              ]
