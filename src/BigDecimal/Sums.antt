-- ===== src/BigDecimal/Sums.antt =====
-- `bigdecimal_add`, `bigdecimal_sub` and `bigdecimal_mul` are exact.
use num_forge.Base.{
  ℕ, ◌≡◌, refl, Bool, true, false, Option, none, some, if◌then◌else◌, arith, ap, ap₂, subst, sym,
  ◌∙◌, ◌⊎◌, inl, inr, Bool-cases, ==→eq,
}
use num_forge.Base.Int.{ℤ, pos, ◌+ℤ◌, eq_of_parts, +ℤ_parts, -ℤ_parts}
use num_forge.Runtime.Budget.{World}
use num_forge.BigInt.Types.{BigInt, IsValid, to_ℤ, empty}
use num_forge.BigInt.Storage
use num_forge.BigInt.Comparison.{is_zero}
use num_forge.BigInt.Multiplication.{Karatsuba}
use num_forge.BigInt.Zeros.Contract.{InverseStripping}
use num_forge.BigRational.Create.{Ensures-obtained, create_room}
use num_forge.BigRational.Sums.{
  integer_op, rational_op, integer_op-Scales, rational_op_mk, op-Computes,
}
use num_forge.BigRational.Types.{invalid_argument}
use num_forge.BigRational.Contract.{
  Ensures, Ensures-ok, Ensures-refused, Ensures-step, Ensures-after, Ensures-tried,
}
use num_forge.BigRational.Fractions.{as_ℚ, ℚ, ◌+ℚ◌, ◌-ℚ◌, equal_of_cross}
use num_forge.BigDecimal.Types.{BigDecimal, IsInt64, IsCanonical}
use num_forge.BigDecimal.Scales.{less, scale_difference, scale_difference_lem}
use num_forge.BigDecimal.Powers.{multiply_power_of_ten-Represents}
use num_forge.BigDecimal.Operations.{
  create, normalize, finish, align, same_scale, add_or_subtract, add, sub,
}
use num_forge.BigDecimal.Exact.{create_capacity, copy-Stands, negate-Stands, any_scale, zero_number}
use num_forge.BigDecimal.Normal.{normalize-Stands}
use num_forge.BigDecimal.Value.{decimal_fraction, decimal, Stands, rescaled, combined_decimals}

-- A coefficient of a number at a scale.
record At (s : ℤ) (q : ℚ) (c : BigInt) : Type 0 where
  pub valid : IsValid c
  pub number : as_ℚ (decimal_fraction (to_ℤ c) s) ≡ q

abbrev dec : ℤ → ℤ → ℚ
dec c s = as_ℚ (decimal_fraction c s)

op_at_scale : (d : Bool) (x y s : ℤ) → dec (integer_op d x y) s ≡ rational_op d (dec x s) (dec y s)
op_at_scale d x y s =
    equal_of_cross _ _ (combined_decimals (integer_op d) (integer_op-Scales d) x y s)
    ∙ rational_op_mk d (decimal_fraction x s) (decimal_fraction y s)

op_right_zero : (d : Bool) (v : ℤ) → integer_op d v (pos 0) ≡ v
op_right_zero true v = eq_of_parts _ _ (omega (arith, -ℤ_parts v (pos 0)))
op_right_zero false v = eq_of_parts _ _ (omega (arith, +ℤ_parts v (pos 0)))

+ℤ_left_zero : (v : ℤ) → pos 0 +ℤ v ≡ v
+ℤ_left_zero v = eq_of_parts _ _ (omega (arith, +ℤ_parts (pos 0) v))

taken_ℕ : (o : Option ℕ) → (o ≡ none) ⊎ ((c : ℕ) × (o ≡ some c))
taken_ℕ none = inl refl
taken_ℕ (some c) = inr (c, refl)

finish-Stands :
    (karatsuba : Karatsuba) (inverse : InverseStripping) (destination d : BigDecimal) (w : World)
    → IsValid d.coefficient
    → IsInt64 d.scale
    → Ensures (Stands (decimal d)) destination (finish karatsuba inverse destination d w)
unfolding finish
finish-Stands k i destination d w v h =
    Ensures-tried (Stands (decimal d)) _ (normalize-Stands k i d w v h).success
      λ n w1 hn. Ensures-ok n w1 hn

align-At :
    (karatsuba : Karatsuba) (inverse : InverseStripping) (scale : ℤ) (d : BigDecimal) (w : World)
    → IsInt64 scale
    → IsCanonical d
    → Ensures (At scale (decimal d)) empty (align karatsuba inverse scale d w)
unfolding align
align-At k i scale d w hs h = elim (Bool-cases (same_scale d.scale scale)) [
  | inl same ↦ rw same (
      Ensures-ok _ w (record {
        valid = h.coefficient;
        number = ap (dec (to_ℤ d.coefficient)) (sym (eq_of_parts d.scale scale (==→eq _ _ same)));
      }))
  | inr other ↦ rw other (
      Ensures-obtained (Storage.create w) λ object w1 eo.
        elim (taken_ℕ (scale_difference scale d.scale)) [
          | inl z ↦ rw z (Ensures-refused invalid_argument w1 refl)
          | inr (n, en) ↦ rw en (
              Ensures-after _
                (multiply_power_of_ten-Represents k object d.coefficient n w1
                  (create_room w object eo) h.coefficient)
                λ c w2 r. Ensures-ok c w2 (record {
                  valid = r.valid;
                  number =
                      ap (λ (v : ℤ). dec v scale) r.integer
                      ∙ equal_of_cross _ _ (
                          rescaled (to_ℤ d.coefficient) d.scale scale n
                            (scale_difference_lem scale d.scale n hs h.scale en));
                }))
        ])
]

chosen_scale : (a b : ℤ) → IsInt64 a → IsInt64 b → IsInt64 (if less a b then b else a)
chosen_scale a b ha hb = pick (less a b)
  where
    pick : (t : Bool) → IsInt64 (if t then b else a)
    pick true = hb
    pick false = ha

module _ (karatsuba : Karatsuba) (inverse : InverseStripping) (is_a is_b : Bool)
    (result a b : BigDecimal) (w : World) (same_a : is_a ≡ true → result ≡ a)
    (same_b : is_b ≡ true → result ≡ b) (ha : IsCanonical a) (hb : IsCanonical b) where
  left_zero :
      (d : Bool)
      → is_zero a.coefficient ≡ true
      → dec (integer_op d (pos 0) (to_ℤ b.coefficient)) b.scale
        ≡ rational_op d (decimal a) (decimal b)
  left_zero d z =
      op_at_scale d (pos 0) (to_ℤ b.coefficient) b.scale
      ∙ ap (λ (q : ℚ). rational_op d q (decimal b))
          (ap (λ (v : ℤ). dec v b.scale) (sym (zero_number a.coefficient z).1)
            ∙ any_scale a.coefficient b.scale a.scale z)

  right_zero :
      (d : Bool) → is_zero b.coefficient ≡ true → decimal a ≡ rational_op d (decimal a) (decimal b)
  right_zero d z =
      ap (λ (v : ℤ). dec v a.scale) (sym (op_right_zero d (to_ℤ a.coefficient)))
      ∙ op_at_scale d (to_ℤ a.coefficient) (pos 0) a.scale
      ∙ ap (λ (q : ℚ). rational_op d (decimal a) q)
          (ap (λ (v : ℤ). dec v a.scale) (sym (zero_number b.coefficient z).1)
            ∙ any_scale b.coefficient a.scale b.scale z)

  add_or_subtract-Stands :
      (d : Bool)
      → Ensures
          (Stands (rational_op d (decimal a) (decimal b)))
          result
          (add_or_subtract karatsuba inverse d is_a is_b result a b w)
  unfolding add_or_subtract
  add_or_subtract-Stands d = elim (Bool-cases (is_zero a.coefficient)) [
    | inl z ↦ rw z (from_right d z)
    | inr some_a ↦ rw some_a (elim (Bool-cases (is_zero b.coefficient)) [
      | inl z ↦ rw z (
          subst
            (λ (q : ℚ).
              Ensures (Stands q) result (num_forge.BigDecimal.Operations.copy is_a result a w))
            (right_zero d z) (copy-Stands is_a result a w same_a ha))
      | inr some_b ↦ rw some_b (
          let scale = if less a.scale b.scale then b.scale else a.scale in
          let hs = chosen_scale a.scale b.scale ha.scale hb.scale in
          Ensures-obtained (create w) λ t w1 et.
            Ensures-after _ (align-At karatsuba inverse scale a w1 hs ha) λ left w2 hl.
              Ensures-after _ (align-At karatsuba inverse scale b w2 hs hb) λ right w3 hr.
                Ensures-step _
                  (op-Computes d t.coefficient left right w3 (create_capacity w t et) hl.valid
                    hr.valid)
                  λ c w4 hc.
                    subst
                      (λ (q : ℚ). Ensures (Stands q) result (
                        finish karatsuba inverse result (record { coefficient = c; scale = scale })
                          w4))
                      (ap (λ (v : ℤ). dec v scale) hc.integer
                        ∙ op_at_scale d (to_ℤ left) (to_ℤ right) scale
                        ∙ ap₂ (rational_op d) hl.number hr.number)
                      (finish-Stands karatsuba inverse result
                        (record { coefficient = c; scale = scale }) w4 hc.valid hs))
    ])
  ]
    where
      from_right :
          (d : Bool)
          → is_zero a.coefficient ≡ true
          → Ensures (Stands (rational_op d (decimal a) (decimal b))) result (
              if d
              then num_forge.BigDecimal.Operations.negate result b w
              else num_forge.BigDecimal.Operations.copy is_b result b w)
      from_right true z =
          subst
            (λ (q : ℚ).
              Ensures (Stands q) result (num_forge.BigDecimal.Operations.negate result b w))
            (left_zero true z) (negate-Stands result b w hb)
      from_right false z =
          subst
            (λ (q : ℚ).
              Ensures (Stands q) result (num_forge.BigDecimal.Operations.copy is_b result b w))
            (ap (λ (v : ℤ). dec v b.scale) (sym (+ℤ_left_zero (to_ℤ b.coefficient)))
              ∙ left_zero false z)
            (copy-Stands is_b result b w same_b hb)

  -- `bigdecimal_add` of two decimals in canonical form gives, with BIGDECIMAL_OK, the sum of the two
  -- numbers in canonical form, and otherwise leaves the destination untouched; the destination may be an
  -- operand. The routines for long coefficients are taken to multiply and to strip zeros.
  pub add-Stands :
      Ensures
        (Stands (decimal a +ℚ decimal b))
        result
        (add karatsuba inverse is_a is_b result a b w)
  add-Stands = add_or_subtract-Stands false

  -- `bigdecimal_sub` likewise gives the difference.
  pub sub-Stands :
      Ensures
        (Stands (decimal a -ℚ decimal b))
        result
        (sub karatsuba inverse is_a is_b result a b w)
  sub-Stands = add_or_subtract-Stands true
