-- ===== src/BigInt/Multiplication/Product.antt =====
-- `bigint_mul` computes the product of the integers.
use num_forge.Base.{
  ℕ, ◌+◌, ◌*◌, ◌/◌, ◌≤◌, ◌≡◌, refl, Bool, true, false, ◌||◌, differ, List, [], ◌∷◌, length,
  replicate, arith, ap, sym, ◌∙◌, Bool-cases, inl, inr, if◌then◌else◌, ltb, leb, ltb→le, ap₂,
  length-replicate, max, min, ◌&&◌,
}
use num_forge.Base.Int.{pos, signed, ◌*ℤ◌, pos_part, neg_part}
use num_forge.Runtime.Budget.{World, calloc}
use num_forge.BigInt.Types.{BigInt, IsValid, to_ℤ, value_too_large, max_limbs, Computes, Represents}
use num_forge.BigInt.Contract.{Gives-ok, Gives-on_ok, Gives-refused, Gives-checked}
use num_forge.BigInt.Storage.{is_empty, normalize}
use num_forge.BigInt.Storage.Normal.{
  zeroed, signed_zero, empty-IsValid, normalize-IsValid, to_ℤ-normalize,
}
use num_forge.BigInt.Magnitude.Value.{value, value-replicate_zero}
use num_forge.BigInt.Magnitude.Multiply.{rows}
use num_forge.BigInt.Magnitude.Multiply.School.{Multiplied, rows_product}
use num_forge.BigInt.Storage.Sizes.{size_add_fits}
use num_forge.BigInt.Multiplication.{Karatsuba, mul_school, mul, karatsuba_fits}

parts-signed :
    (s : Bool) (n : ℕ)
    → (pos_part (signed s n) ≡ (if s then 0 else n))
      × (neg_part (signed s n) ≡ (if s then n else 0))
parts-signed true n = (ground arith, ground arith)
parts-signed false n = (refl, refl)

-- The sign rule of products.
pub signed_product : (s t : Bool) (m n : ℕ) → signed (differ s t) (m * n) ≡ signed s m *ℤ signed t n
unfolding ◌*ℤ◌
signed_product true true m n = ground (arith, parts-signed true m, parts-signed true n)
signed_product true false m n = ground (arith, parts-signed true m, parts-signed false n)
signed_product false true m n = ground (arith, parts-signed false m, parts-signed true n)
signed_product false false m n = ground (arith, parts-signed false m, parts-signed false n)

pub empty_value : (xs : List ℕ) → is_empty xs ≡ true → value xs ≡ 0
empty_value [] h = refl
empty_value (x ∷ xs) h = cc

zero_product : (xs ys : List ℕ) → (is_empty xs || is_empty ys) ≡ true → value xs * value ys ≡ 0
zero_product [] ys h = omega arith
zero_product (x ∷ xs) ys h = rw (empty_value ys h) (omega arith)

zero_factor :
    (a b : BigInt) → (is_empty a.limbs || is_empty b.limbs) ≡ true → pos 0 ≡ to_ℤ a *ℤ to_ℤ b
zero_factor a b h =
    sym (signed_zero (differ a.is_negative b.is_negative))
    ∙ ap (signed (differ a.is_negative b.is_negative)) (sym (zero_product a.limbs b.limbs h))
    ∙ signed_product a.is_negative b.is_negative (value a.limbs) (value b.limbs)

-- A buffer with the product of the magnitudes and the product of the signs.
product-Represents :
    (a b r : BigInt)
    → r.capacity ≡ length a.limbs + length b.limbs
    → r.is_negative ≡ differ a.is_negative b.is_negative
    → Multiplied a.limbs b.limbs (replicate (length a.limbs + length b.limbs) 0) r.limbs
    → length a.limbs + length b.limbs ≤ max_limbs
    → Represents (to_ℤ a *ℤ to_ℤ b) (normalize r)
product-Represents a b r room sign p bound = record {
  valid =
      normalize-IsValid r p.words
        (omega (
          arith,
          room,
          p.same_length,
          length-replicate {A = ℕ} (length a.limbs + length b.limbs) 0,
        ))
        (omega (arith, room, bound));
  integer =
      to_ℤ-normalize r
      ∙ ap₂ signed sign
          (omega (arith, p.total, value-replicate_zero (length a.limbs + length b.limbs)))
      ∙ signed_product a.is_negative b.is_negative (value a.limbs) (value b.limbs);
}

module _ (result a b : BigInt) (w : World) (c : result.capacity ≤ max_limbs) (va : IsValid a)
    (vb : IsValid b) where
  -- The schoolbook branch, for operands of any size.
  pub mul_school-Computes : Computes result (to_ℤ a *ℤ to_ℤ b) (mul_school result a b w)
  unfolding mul_school
  mul_school-Computes =
      let size = length a.limbs + length b.limbs in
      rw (size_add_fits (length a.limbs) (length b.limbs) (omega (arith, va, vb)), mul_school)
        (elim (Bool-cases (ltb max_limbs size)) [
          | inl large ↦ rw large (Gives-refused value_too_large w refl)
          | inr fits ↦ rw fits (
              Gives-checked (calloc size 8 w) result _
                (λ _.
                  Gives-on_ok (rows a.limbs b.limbs (replicate size 0) (calloc size 8 w).1) _ _
                    (λ e.
                      let p =
                        rows_product a.limbs b.limbs (calloc size 8 w).1 va.magnitude.words
                          vb.magnitude.words e in
                      let product : BigInt = record {
                        limbs =
                            (rows a.limbs b.limbs (replicate size 0) (calloc size 8 w).1).object;
                        capacity = size;
                        is_negative = differ a.is_negative b.is_negative;
                      } in
                      Gives-ok _ _ (product-Represents a b product refl refl p (ltb→le _ _ fits)))
                    (λ _. refl))
                refl)
        ])

module _ (karatsuba : Karatsuba) (result a b : BigInt) (w : World) (c : result.capacity ≤ max_limbs)
    (va : IsValid a) (vb : IsValid b) where
  -- `bigint_mul` of two valid objects, whatever their signs and sizes, leaves the product in canonical
  -- form if it returns BIGINT_OK, and the destination untouched if it does not. The Karatsuba routine
  -- that it may call is taken to do so.
  pub mul-Computes : Computes result (to_ℤ a *ℤ to_ℤ b) (mul karatsuba result a b w)
  unfolding mul
  mul-Computes = elim (Bool-cases (is_empty a.limbs || is_empty b.limbs)) [
    | inl e ↦
        rw (e, mul)
          (Gives-ok (zeroed result) w
            (record { valid = empty-IsValid result c; integer = zero_factor a b e }))
    | inr e ↦
        rw (e, mul)
          (elim (Bool-cases (
            leb 128 (min (length a.limbs) (length b.limbs))
            && (ltb (max (length a.limbs) (length b.limbs) / 2)
                  (min (length a.limbs) (length b.limbs))
                && karatsuba_fits (length a.limbs) (length b.limbs) 32 w))) [
                  | inl large ↦ rw large (karatsuba.multiply-Computes result a b 32 w c va vb)
                  | inr small ↦ rw small (mul_school-Computes result a b w c va vb)
                ])
  ]
