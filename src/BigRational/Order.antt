-- ===== src/BigRational/Order.antt =====
-- `bigrational_compare` agrees with the order of the rational numbers, through the cross products.
use Prim.Native.Nat.{Ordering, ◌∣◌}
use Prim.Native.Nat.Ordering.{lt, eq, gt}
use native.Mathlib.Nat.{div-mul_cancel, mul-lt-mul_of_pos_right}
use num_forge.Base.{
  ℕ, ◌+◌, ◌*◌, ◌/◌, ◌<◌, ◌≡◌, refl, arith, ap, ap₂, subst, sym, ◌∙◌, ◌↔◌, ◌⊎◌, inl, inr,
}
use num_forge.Base.Int.{ℤ, pos, pos_part, neg_part, ◌*ℤ◌, eq_of_parts}
use num_forge.Base.Int.Ring.{*ℤ_assoc, pos_product, pos_part-*ℤ, neg_part-*ℤ}
use num_forge.Runtime.Budget.{World}
use num_forge.BigInt.Types.{to_ℤ, empty}
use num_forge.BigInt.Magnitude.Value.{value}
use num_forge.BigInt.Comparison.Order.{order_ℤ, compare_lem}
use num_forge.BigInt.Multiplication.{Karatsuba}
use num_forge.BigInt.Multiplication.Product.{mul-Computes}
use num_forge.BigRational.{create_all}
use num_forge.BigRational.Operations.{compare}
use num_forge.BigRational.Steps.{gcd-Divisor, div_denominator}
use num_forge.BigRational.Fractions.{rational, fraction, equal_of_cross, cross_of_equal}
use num_forge.BigRational.Types.{BigRational, IsReduced}
use num_forge.BigRational.Contract.{Ensures, Ensures-step, Ensures-created, Ensures-ok}

abbrev compare_ℕ : ℕ → ℕ → Ordering
compare_ℕ = Prim.Native.Nat.compare

compare_ℕ-scaled : (m n g : ℕ) → 0 < g → compare_ℕ (m * g) (n * g) ≡ compare_ℕ m n
compare_ℕ-scaled m n g p = elim (three m n) [
  | inl h ↦ ground (arith, h, mul-lt-mul_of_pos_right h p)
  | inr (inl h) ↦
      ap₂ compare_ℕ (ap (λ (t : ℕ). t * g) h) refl
      ∙ same (n * g)
      ∙ sym (same n)
      ∙ ap (λ (t : ℕ). compare_ℕ t n) (sym h)
  | inr (inr h) ↦ ground (arith, h, mul-lt-mul_of_pos_right h p)
]
  where
    three : (a b : ℕ) → (a < b) ⊎ ((a ≡ b) ⊎ (b < a))
    three a b = ground arith

    same : (a : ℕ) → compare_ℕ a a ≡ eq
    same a = ground arith

order_ℤ-scaled : (u v : ℤ) (g : ℕ) → 0 < g → order_ℤ (u *ℤ pos g) (v *ℤ pos g) ≡ order_ℤ u v
order_ℤ-scaled u v g p =
    ap₂ compare_ℕ (simp (pos_part-*ℤ, neg_part-*ℤ) (omega arith))
      (simp (pos_part-*ℤ, neg_part-*ℤ) (omega arith))
    ∙ compare_ℕ-scaled (pos_part u + neg_part v) (pos_part v + neg_part u) g p

whole : (n : ℤ) (d g : ℕ) → g ∣ d → n *ℤ pos (d / g) *ℤ pos g ≡ n *ℤ pos d
whole n d g h =
    *ℤ_assoc n (pos (d / g)) (pos g)
    ∙ ap (λ (t : ℤ). n *ℤ t) (sym (pos_product (d / g) g) ∙ ap pos (div-mul_cancel g h))

order_ℤ-equal : (u v : ℤ) → (order_ℤ u v ≡ eq) ↔ (u ≡ v)
order_ℤ-equal u v = (
  λ e. eq_of_parts u v (equal_of_eq _ _ e),
  λ e. subst (λ (t : ℤ). order_ℤ u t ≡ eq) e (eq_of_equal (pos_part u + neg_part u)),
)
  where
    equal_of_eq : (m n : ℕ) → compare_ℕ m n ≡ eq → m ≡ n
    equal_of_eq m n e = ground arith

    eq_of_equal : (m : ℕ) → compare_ℕ m m ≡ eq
    eq_of_equal m = ground arith

-- The order of two fractions with positive denominators.
abbrev pub order : BigRational → BigRational → Ordering
order a b =
    order_ℤ (to_ℤ a.numerator *ℤ pos (value b.denominator.limbs))
      (to_ℤ b.numerator *ℤ pos (value a.denominator.limbs))

module _ (karatsuba : Karatsuba) (before : Ordering) (a b : BigRational) (w : World)
    (ra : IsReduced a) (rb : IsReduced b) where
  equal_order : (order a b ≡ eq) ↔ (rational a ra ≡ rational b rb)
  equal_order = (
    λ e. equal_of_cross (fraction a ra) (fraction b rb) ((order_ℤ-equal _ _).0 e),
    λ e. (order_ℤ-equal _ _).1 (cross_of_equal (fraction a ra) (fraction b rb) e),
  )

  -- `bigrational_compare` of two fractions in lowest terms stores, with BIGRATIONAL_OK, the order of the
  -- cross products, which is equality exactly if both stand for the same rational number. Without
  -- BIGRATIONAL_OK it stores nothing.
  pub compare-Ordered :
      Ensures
        (λ o. (o ≡ order a b) × ((o ≡ eq) ↔ (rational a ra ≡ rational b rb)))
        before
        (compare karatsuba before a b w)
  unfolding compare
  compare-Ordered = Ensures-created (create_all 4 w) λ w1.
      Ensures-step _
        (gcd-Divisor a.denominator b.denominator w1 ra.denominator rb.denominator rb.nonzero)
        λ g w2 hg. Ensures-step _ (div_denominator empty b rb g w2 hg) λ u w3 hu.
          Ensures-step _
            (mul-Computes karatsuba empty a.numerator u w3 (omega arith) ra.numerator hu.valid)
            λ left w4 hl. Ensures-step _ (div_denominator u a ra g w4 hg) λ v w5 hv.
              Ensures-step _
                (mul-Computes karatsuba empty b.numerator v w5 (omega arith) rb.numerator hv.valid)
                λ right w6 hr. Ensures-ok _ w6 (
                  let same =
                    compare_lem left right hl.valid hr.valid
                    ∙ ap₂ order_ℤ (hl.integer ∙ ap (λ (t : ℤ). to_ℤ a.numerator *ℤ t) hu.integer)
                        (hr.integer ∙ ap (λ (t : ℤ). to_ℤ b.numerator *ℤ t) hv.integer)
                    ∙ sym (order_ℤ-scaled _ _ (value g.limbs) hg.positive)
                    ∙ ap₂ order_ℤ (whole (to_ℤ a.numerator) _ _ hg.greatest.right)
                        (whole (to_ℤ b.numerator) _ _ hg.greatest.left) in
                  (
                    same,
                    subst (λ (t : Ordering). (t ≡ eq) ↔ (rational a ra ≡ rational b rb)) (sym same)
                        equal_order,
                  ))
