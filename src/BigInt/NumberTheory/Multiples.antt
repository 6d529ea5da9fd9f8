-- ===== src/BigInt/NumberTheory/Multiples.antt =====
-- `bigint_lcm` leaves the least common multiple.
use num_forge.Base.{
  ℕ, ◌*◌, ◌/◌, ◌<◌, ◌≤◌, ◌≡◌, refl, Bool, true, false, ◌||◌, List, [], ◌∷◌, arith, ap, ap₂, subst,
  sym, ◌∙◌, Bool-cases, inl, inr, differ,
}
use num_forge.Base.Int.{ℤ, pos, signed, nat_abs, ◌*ℤ◌}
use num_forge.Runtime.Budget.{World}
use num_forge.BigInt.Types.{BigInt, IsValid, Represents, Gives, max_limbs, empty, to_ℤ}
use num_forge.BigInt.Contract.{Gives-ok, Gives-on_ok}
use num_forge.BigInt.Storage.{is_empty}
use num_forge.BigInt.Storage.Normal.{zeroed, empty-IsValid}
use num_forge.BigInt.Storage.Holding.{Represents-Holds, nat_abs-signed}
use num_forge.BigInt.Magnitude.Value.{value, value_pos, IsMagnitude}
use num_forge.BigInt.Arithmetic.{abs}
use num_forge.BigInt.Arithmetic.Signed.{abs-Computes}
use num_forge.BigInt.Multiplication.{Karatsuba, mul}
use num_forge.BigInt.Multiplication.Product.{mul-Computes, signed_product}
use num_forge.BigInt.Quotient.{div_mod}
use num_forge.BigInt.Quotient.Signed.{div_mod-Truncated}
use num_forge.BigInt.NumberTheory.{gcd, lcm}
use num_forge.BigInt.NumberTheory.Divisors.{IsLcm, IsGcd-pos, quotient-IsLcm, zero-IsLcm}
use num_forge.BigInt.NumberTheory.Euclid.{gcd-ComputesGcd}

-- The result of `bigint_lcm`: not negative, in canonical form, and the least common multiple of both
-- magnitudes.
pub record ComputesLcm (a b : BigInt) (r : BigInt) : Type 0 where
  pub represents : Represents (pos (value r.limbs)) r
  pub multiple : IsLcm (value r.limbs) (value a.limbs) (value b.limbs)

zero_factor : (xs ys : List ℕ) → (is_empty xs || is_empty ys) ≡ true → IsLcm 0 (value xs) (value ys)
zero_factor [] ys e = zero-IsLcm 0 (value ys) (inl refl)
zero_factor (x ∷ xs) [] e = zero-IsLcm (value (x ∷ xs)) 0 (inr refl)
zero_factor (x ∷ xs) (y ∷ ys) e = cc

some_magnitude :
    (xs ys : List ℕ) → IsMagnitude xs → (is_empty xs || is_empty ys) ≡ false → 0 < value xs
some_magnitude [] ys m e = cc
some_magnitude (x ∷ xs) ys m e = value_pos x xs m.trimmed

product_magnitude :
    (s : Bool) (m n : ℕ) (p : BigInt) (q y : ℤ)
    → q ≡ signed s m
    → y ≡ pos n
    → to_ℤ p ≡ q *ℤ y
    → value p.limbs ≡ m * n
product_magnitude s m n p q y eq ey e =
    sym (nat_abs-signed p.is_negative (value p.limbs))
    ∙ ap nat_abs (e ∙ ap₂ ◌*ℤ◌ eq ey ∙ sym (signed_product s false m n))
    ∙ nat_abs-signed (differ s false) (m * n)

module _ (karatsuba : Karatsuba) (result a b : BigInt) (w : World) (c : result.capacity ≤ max_limbs)
    (va : IsValid a) (vb : IsValid b) where
  -- `bigint_lcm` of valid objects leaves the least common multiple of their magnitudes, in canonical
  -- form and not negative, if it returns BIGINT_OK, and the destination untouched if it does not. The
  -- Karatsuba routine that the product may call is taken to multiply.
  pub lcm-ComputesLcm : Gives (ComputesLcm a b) result (lcm karatsuba result a b w)
  unfolding lcm
  lcm-ComputesLcm = elim (Bool-cases (is_empty a.limbs || is_empty b.limbs)) [
    | inl e ↦ rw e (
        Gives-ok (zeroed result) w (record {
          represents = record { valid = empty-IsValid result c; integer = refl };
          multiple = zero_factor a.limbs b.limbs e;
        }))
    | inr e ↦
        let g = gcd empty a b w in
        let x = abs empty a g.world in
        let y = abs empty b x.world in
        let q = div_mod (empty, empty) x.object g.object y.world in
        let p = mul karatsuba result q.object.0 y.object q.world in
        rw e (
          Gives-on_ok g _ _
            (λ eg.
              Gives-on_ok x _ _
                (λ ex.
                  Gives-on_ok y _ _
                    (λ ey.
                      Gives-on_ok q _ _
                        (λ eq.
                          let hg = (gcd-ComputesGcd empty a b w (omega arith) va vb).success eg in
                          let hx = (abs-Computes empty a g.world (omega arith) va).success ex in
                          let hy = (abs-Computes empty b x.world (omega arith) vb).success ey in
                          let hq =
                            (div_mod-Truncated x.object g.object y.world hx.valid
                                hg.represents.valid (empty, empty)).success
                              eq in
                          let hp =
                            mul-Computes karatsuba result q.object.0 y.object q.world c
                              hq.quotient.valid hy.valid in
                          let same_a : value x.object.limbs ≡ value a.limbs =
                            (Represents-Holds false (nat_abs (to_ℤ a)) x.object hx).number
                            ∙ nat_abs-signed a.is_negative (value a.limbs) in
                          Gives-on_ok p _ _
                            (λ ep.
                              let product = hp.success ep in
                              Gives-ok _ _ (record {
                                represents = record {
                                  valid = record {
                                    magnitude = product.valid.magnitude;
                                    signed_nonzero = λ k. cc;
                                    fits = product.valid.fits;
                                    bounded = product.valid.bounded;
                                  };
                                  integer = refl;
                                };
                                multiple =
                                    subst (λ (t : ℕ). IsLcm t (value a.limbs) (value b.limbs))
                                      (sym (
                                        product_magnitude
                                          (differ x.object.is_negative g.object.is_negative) _
                                          (value b.limbs) p.object _ _ hq.quotient.integer
                                          (hy.integer
                                            ∙ ap pos (nat_abs-signed b.is_negative (value b.limbs)))
                                          product.integer
                                        ∙ ap (λ (t : ℕ). t / value g.object.limbs * value b.limbs)
                                            same_a))
                                      (quotient-IsLcm (value g.object.limbs) (value a.limbs)
                                        (value b.limbs) hg.divisor
                                        (IsGcd-pos (value g.object.limbs) (value a.limbs)
                                          (value b.limbs) hg.divisor
                                          (some_magnitude a.limbs b.limbs va.magnitude e)));
                              }))
                            hp.untouched)
                        (λ eq. refl))
                    (λ ey. refl))
                (λ ex. refl))
            (λ eg. refl))
  ]
