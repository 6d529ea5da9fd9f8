-- ===== src/BigRational/Reduction.antt =====
-- `bigrational_set_fraction` reduces.
use Prim.Native.Nat.{◌∣◌}
use native.Mathlib.Nat.{div-mul_cancel}
use num_forge.Base.{
  ℕ, zero, suc, ◌*◌, ◌/◌, ◌<◌, ◌≡◌, refl, Bool, true, false, ◌&&◌, not, ◌==◌, differ, List, [], ◌∷◌,
  arith, ap, ap₂, subst, sym, ◌∙◌, Bool-cases, inl, inr,
}
use num_forge.Base.Int.{ℤ, pos, signed, nat_abs, ◌*ℤ◌, ◌-ℤ◌}
use num_forge.Base.Int.Ring.{zero_times, negated_sign}
use num_forge.Runtime.Budget.{World}
use num_forge.BigInt.Types.{BigInt, IsValid, Represents, to_ℤ}
use num_forge.BigInt.Storage.{is_empty}
use num_forge.BigInt.Storage.Holding.{nat_abs-signed}
use num_forge.BigInt.Storage.Normal.{zero_of_empty}
use num_forge.BigInt.Magnitude.Value.{value, value_pos, IsTrimmed}
use num_forge.BigInt.Arithmetic.Signed.{negate-Computes, abs-Computes}
use num_forge.BigInt.Multiplication.Product.{signed_product}
use num_forge.BigInt.Comparison.{is_zero, is_negative}
use num_forge.BigInt.Quotient.Signed.{div-Computes}
use num_forge.BigInt.NumberTheory.Divisors.{IsGcd, IsGcd-pos, quotients-IsGcd}
use num_forge.BigInt.NumberTheory.Euclid.{ComputesGcd, gcd-ComputesGcd}
use num_forge.BigRational.{create, orient, divide_out, set_fraction}
use num_forge.BigRational.Create.{
  sign_of, IsZero, create-IsZero, create_room, IsZero-IsReduced, Ensures-obtained,
}
use num_forge.BigRational.Types.{is_division_by_zero, division_by_zero, BigRational, Reduces}
use num_forge.BigRational.Contract.{Ensures, Ensures-ok, Ensures-refused, Ensures-step}

pub some_value : (b : BigInt) → IsValid b → is_zero b ≡ false → 0 < value b.limbs
unfolding is_zero
some_value b v nonempty = positive b.limbs v.magnitude.trimmed nonempty
  where
    positive : (xs : List ℕ) → IsTrimmed xs → is_empty xs ≡ false → 0 < value xs
    positive [] t p = cc
    positive (x ∷ xs) t p = value_pos x xs t

-- A call that answers a zero with a refusal.
pub zero_refused :
    (b : BigInt) (refused : Bool)
    → IsValid b
    → (is_zero b ≡ true → refused ≡ true)
    → ((value b.limbs == 0) && not refused) ≡ false
zero_refused b refused v h = elim (Bool-cases (is_zero b)) [
  | inl none_left ↦ rw (h none_left) (ground arith)
  | inr some_left ↦ ground (arith, some_value b v some_left)
]

pub differ_twice : (s t : Bool) → differ (differ s t) t ≡ s
differ_twice true true = refl
differ_twice true false = refl
differ_twice false true = refl
differ_twice false false = refl

pub quotient_pos : (g m : ℕ) → g ∣ m → 0 < g → 0 < m → 0 < m / g
quotient_pos g m h p q = factor (m / g) (div-mul_cancel g h)
  where
    factor : (n : ℕ) → n * g ≡ m → 0 < n
    factor zero e = absurd (omega (arith, e))
    factor (suc n) e = omega arith

-- Both sides of a fraction divided by a common divisor.
pub lowest-cross :
    (s t : Bool) (m d g : ℕ)
    → g ∣ m
    → g ∣ d
    → signed (differ s t) (m / g) *ℤ signed t d ≡ signed s m *ℤ pos (d / g)
lowest-cross s t m d g hm hd =
    sym (signed_product (differ s t) t (m / g) d)
    ∙ ap₂ signed (differ_twice s t) across
    ∙ differ-false s (m * (d / g))
    ∙ signed_product s false m (d / g)
  where
    across : m / g * d ≡ m * (d / g)
    across = omega (
      arith,
      ap (λ (t : ℕ). m / g * t) (sym (div-mul_cancel g hd)),
      ap (λ (t : ℕ). t * (d / g)) (div-mul_cancel g hm),
    )

    differ-false : (s : Bool) (n : ℕ) → signed s n ≡ signed (differ s false) n
    differ-false true n = refl
    differ-false false n = refl

-- The quotients, with the signs that the code gives them, are the reduced fraction.
quotients-Reduces :
    (s t : Bool) (m d g : ℕ) (top bottom : BigInt)
    → IsGcd g m d
    → 0 < g
    → 0 < d
    → Represents (signed (differ s t) (m / g)) top
    → Represents (pos (d / g)) bottom
    → Reduces (signed s m) (signed t d) (record { numerator = top; denominator = bottom })
quotients-Reduces s t m d g top bottom h gp dp rt rb =
    let quotient = quotient_pos g d h.right gp dp in
    let (sign, number) = sign_of false (d / g) bottom quotient rb.integer in
    let magnitude : value top.limbs ≡ m / g =
      sym (nat_abs-signed top.is_negative (value top.limbs))
      ∙ ap nat_abs rt.integer
      ∙ nat_abs-signed (differ s t) (m / g) in
    record {
      reduced = record {
        numerator = rt.valid;
        denominator = rb.valid;
        not_negative = sign;
        nonzero = omega (arith, number, quotient);
        coprime =
            subst (λ (n : ℕ). IsGcd 1 n (value bottom.limbs)) (sym magnitude)
              (subst (IsGcd 1 (m / g)) (sym number) (quotients-IsGcd g m d h gp));
      };
      cross =
          ap (λ (n : ℤ). n *ℤ signed t d) rt.integer
          ∙ lowest-cross s t m d g h.left h.right
          ∙ ap (λ (n : ℕ). signed s m *ℤ pos n) (sym number);
    }

zero-Reduces :
    (n d : BigInt) (r : BigRational) → is_zero n ≡ true → IsZero r → Reduces (to_ℤ n) (to_ℤ d) r
unfolding is_zero
zero-Reduces n d r e z = record {
  reduced = IsZero-IsReduced r z;
  cross =
      ap (λ (t : BigInt). to_ℤ t *ℤ to_ℤ d) z.numerator
      ∙ zero_times (to_ℤ d)
      ∙ sym (zero_times _)
      ∙ ap (λ (t : ℤ). t *ℤ pos (value r.denominator.limbs)) (zero_of_empty n e);
}

pub differ-false : (s : Bool) → differ s false ≡ s
differ-false true = refl
differ-false false = refl

opposite_sign : (s : Bool) (n : ℕ) → pos 0 -ℤ signed (differ s false) n ≡ signed (differ s true) n
opposite_sign true n = negated_sign true n
opposite_sign false n = negated_sign false n

pub Represents-eq : {v u : ℤ} (b : BigInt) → v ≡ u → Represents v b → Represents u b
Represents-eq b e h = subst (λ (t : ℤ). Represents t b) e h

is_negative_lem : (b : BigInt) → is_negative b ≡ b.is_negative
unfolding is_negative
is_negative_lem b = refl

-- The two quotients before `orient`, for a divisor that is not negative.
orient-Reduces :
    (result : BigRational) (s t : Bool) (m d g : ℕ) (top bottom : BigInt) (w : World)
    → IsGcd g m d
    → 0 < g
    → 0 < d
    → Represents (signed (differ s false) (m / g)) top
    → Represents (signed (differ t false) (d / g)) bottom
    → Ensures (Reduces (signed s m) (signed t d)) result (orient result top bottom w)
unfolding orient
orient-Reduces result s t m d g top bottom w h gp dp rt rb =
    let quotient = quotient_pos g d h.right gp dp in
    let sign : is_negative bottom ≡ t =
      is_negative_lem bottom
      ∙ (sign_of (differ t false) (d / g) bottom quotient rb.integer).0
      ∙ differ-false t in
    elim (Bool-cases (is_negative bottom)) [
      | inr positive ↦
          let same : false ≡ t = sym positive ∙ sign in
          rw positive (
            Ensures-ok _ w (
              quotients-Reduces s t m d g top bottom h gp dp
                (Represents-eq top (ap (λ (b : Bool). signed (differ s b) (m / g)) same) rt)
                (Represents-eq bottom
                  (ap (λ (b : Bool). signed (differ b false) (d / g)) (sym same)) rb)))
      | inl negative ↦
          let same : true ≡ t = sym negative ∙ sign in
          rw negative (
            Ensures-step _ (negate-Computes top top w rt.valid.bounded rt.valid) λ n w1 rn.
              Ensures-step _ (abs-Computes bottom bottom w1 rb.valid.bounded rb.valid) λ a w2 ra.
                Ensures-ok _ w2 (
                  quotients-Reduces s t m d g n a h gp dp
                    (Represents-eq n
                      (ap (λ (v : ℤ). pos 0 -ℤ v) rt.integer
                        ∙ opposite_sign s (m / g)
                        ∙ ap (λ (b : Bool). signed (differ s b) (m / g)) same)
                      rn)
                    (Represents-eq a
                      (ap (λ (v : ℤ). pos (nat_abs v)) rb.integer
                        ∙ ap pos (nat_abs-signed _ (d / g)))
                      ra)))
    ]

divide_out-Reduces :
    (result : BigRational) (n d : BigInt) (temporary : BigRational) (factor : BigInt) (w : World)
    → IsValid n
    → IsValid d
    → is_zero d ≡ false
    → IsZero temporary
    → ComputesGcd n d factor
    → Ensures (Reduces (to_ℤ n) (to_ℤ d)) result (divide_out result n d temporary factor w)
unfolding divide_out
divide_out-Reduces result n d temporary factor w vn vd some_left z c =
    elim (Bool-cases (is_zero n)) [
      | inl zero_left ↦
          rw zero_left (Ensures-ok temporary w (zero-Reduces n d temporary zero_left z))
      | inr more ↦
          let m = value n.limbs in
          let g = value factor.limbs in
          let mp = some_value n vn more in
          let gp = IsGcd-pos g m (value d.limbs) c.divisor mp in
          let (plus, _) = sign_of false g factor gp c.represents.integer in
          rw more (
            Ensures-step _ (div-Computes n factor w vn c.represents.valid temporary.numerator)
              λ top w1 rt.
                Ensures-step _
                  (div-Computes d factor w1 vd c.represents.valid temporary.denominator)
                  λ bottom w2 rb.
                    orient-Reduces result n.is_negative d.is_negative m (value d.limbs) g top bottom
                      w2 c.divisor gp (some_value d vd some_left)
                      (Represents-eq top
                        (ap (λ (b : Bool). signed (differ n.is_negative b) (m / g)) plus) rt)
                      (Represents-eq bottom
                        (ap (λ (b : Bool). signed (differ d.is_negative b) (value d.limbs / g))
                          plus)
                        rb))
    ]

module _ (result : BigRational) (n d : BigInt) (w : World) (vn : IsValid n) (vd : IsValid d) where
  pub set_fraction-Reduces : Ensures (Reduces (to_ℤ n) (to_ℤ d)) result (set_fraction result n d w)
  unfolding set_fraction
  set_fraction-Reduces = elim (Bool-cases (is_zero d)) [
    | inl none_left ↦ rw none_left (Ensures-refused division_by_zero w refl)
    | inr some_left ↦ rw some_left (
        Ensures-obtained _ λ temporary w1 et. Ensures-obtained _ λ factor w2 ef.
          Ensures-step _ (gcd-ComputesGcd factor n d w2 (create_room (create w).1 factor ef) vn vd)
            λ found w3 h.
              divide_out-Reduces result n d temporary found w3 vn vd some_left
                (create-IsZero w temporary et) h)
  ]

  -- `bigrational_set_fraction` of two valid integers leaves, with BIGRATIONAL_OK, the fraction in lowest
  -- terms with a positive denominator, and otherwise the destination untouched. For a denominator 0 it
  -- returns BIGRATIONAL_DIVISION_BY_ZERO.
  pub set_fraction_lem :
      Ensures (Reduces (to_ℤ n) (to_ℤ d)) result (set_fraction result n d w)
      × (((value d.limbs == 0) && not (is_division_by_zero (set_fraction result n d w).status))
          ≡ false)
  unfolding set_fraction
  set_fraction_lem = (set_fraction-Reduces, zero_refused d _ vd (λ z. rw (set_fraction, z) refl))
