-- ===== src/BigInt/Combinatorics/Rounds.antt =====
-- The steps of a round: the product, the division, and what the factorials say of them.
use native.Mathlib.Nat.{div-add-mod, mul-pos}
use num_forge.Base.{
  ℕ, zero, suc, ◌*◌, ◌/◌, ◌%◌, ◌<◌, ◌≡◌, refl, true, false, List, [], ◌∷◌, length, arith, ap, ap₂,
  subst, sym, ◌∙◌, ◌==◌, ==→eq, Bool-cases, inl, inr, radix, differ, All, IsLimb,
}
use num_forge.Base.Int.{ℤ, pos}
use num_forge.Runtime.Budget.{World, budget_check}
use num_forge.BigInt.Types.{BigInt, IsValid, Holds, Represents, empty}
use num_forge.BigInt.Contract.{IfOk, IfOk-on_ok, IfOk-checked}
use num_forge.BigInt.Storage.Holding.{Represents-Holds, value_of_empty}
use num_forge.BigInt.Magnitude.Value.{value}
use num_forge.BigInt.Magnitude.Add.{limb}
use num_forge.BigInt.Arithmetic.Scaling.{multiply_by_uint64-Holds}
use num_forge.BigInt.Division.{divide_by_uint64, divide_by_uint64_lem}
use num_forge.BigInt.Quotient.{div_mod}
use num_forge.BigInt.Quotient.Signed.{div_mod-Truncated}
use num_forge.BigInt.Multiplication.{Karatsuba, mul}
use num_forge.BigInt.Multiplication.Product.{mul-Computes, signed_product}
use num_forge.BigInt.Comparison.{is_zero}
use num_forge.BigInt.Combinatorics.{grow_product, divide_exactly}

-- A number that is not 0, held in an object.
pub record Positive (n : ℕ) (b : BigInt) : Type 0 where
  pub held : Holds n b
  pub some : 0 < n

pub Positive-IsValid : (n : ℕ) (b : BigInt) → Positive n b → IsValid b
Positive-IsValid n b h = record {
  magnitude = h.held.magnitude;
  signed_nonzero = λ _. nonempty b.limbs (omega (arith, h.some, h.held.number));
  fits = h.held.fits;
  bounded = h.held.bounded;
}
  where
    nonempty : (xs : List ℕ) → 0 < value xs → 0 < length xs
    nonempty [] p = absurd (omega (arith, p))
    nonempty (x ∷ xs) p = omega arith

one_limb : (xs : List ℕ) → (length xs == 1) ≡ true → limb xs ≡ value xs
one_limb [] e = cc
one_limb (x ∷ []) e = omega arith
one_limb (x ∷ y ∷ xs) e = absurd (ground (arith, e))

limb_word : (xs : List ℕ) → All IsLimb xs → limb xs < radix
limb_word [] w = omega arith
limb_word (x ∷ xs) w = w.0

pub grow_product-Positive :
    (karatsuba : Karatsuba) (n m : ℕ) (t f : BigInt) (w : World)
    → Positive n t
    → Represents (pos m) f
    → 0 < m
    → IfOk (Positive (n * m)) (grow_product karatsuba t f w)
unfolding grow_product
grow_product-Positive karatsuba n m t f w ht hf some e = record {
  held =
      subst (λ (j : ℕ). Holds j (grow_product karatsuba t f w).object)
        (ap₂ ◌*◌ ht.held.number number) (chosen e);
  some = mul-pos ht.some some;
}
  where
    number : value f.limbs ≡ m
    number = (Represents-Holds false m f hf).number

    same : Holds (value t.limbs) t
    same = record {
      magnitude = ht.held.magnitude;
      number = refl;
      fits = ht.held.fits;
      bounded = ht.held.bounded;
    }

    chosen : IfOk (Holds (value t.limbs * value f.limbs)) (grow_product karatsuba t f w)
    chosen = elim (Bool-cases (length f.limbs == 1)) [
      | inl single ↦
          rw (single, grow_product, one_limb f.limbs single)
            (multiply_by_uint64-Holds t (value f.limbs) w same
              (omega (arith, one_limb f.limbs single, limb_word f.limbs hf.valid.magnitude.words)))
      | inr long ↦
          rw (long, grow_product)
            (λ p.
              Represents-Holds (differ t.is_negative f.is_negative) (value t.limbs * value f.limbs)
                _
                (subst (λ (v : ℤ). Represents v (mul karatsuba t t f w).object)
                  (sym (signed_product t.is_negative f.is_negative _ _))
                  ((mul-Computes karatsuba t t f w ht.held.bounded (Positive-IsValid n t ht)
                      hf.valid).success
                    p)))
    ]

-- A quotient without remainder.
abbrev pub Exact : ℕ → ℕ → BigInt → Type 0
Exact n m q = (value q.limbs * m ≡ n) × Positive (value q.limbs) q

Positive-Exact :
    (n m : ℕ) (q : BigInt) → 0 < n → value q.limbs * m ≡ n → Holds (value q.limbs) q → Exact n m q
Positive-Exact n m q p e h = (e, record { held = h; some = factor (value q.limbs) e })
  where
    factor : (v : ℕ) → v * m ≡ n → 0 < v
    factor zero e = absurd (omega (arith, e, p))
    factor (suc v) e = omega arith

divided_room : (b : BigInt) (d : ℕ) → (divide_by_uint64 b d).0.capacity ≡ b.capacity
unfolding divide_by_uint64
divided_room b d = elim (Bool-cases (d == 0)) [
  | inl e ↦ rw (divide_by_uint64, e) refl
  | inr e ↦ rw (divide_by_uint64, e) refl
]

zero_value : (b : BigInt) → is_zero b ≡ true → 0 ≡ value b.limbs
unfolding is_zero
zero_value b e = value_of_empty b.limbs e

no_remainder : (q t c n m : ℕ) → q ≡ t / c → t % c ≡ 0 → c ≡ m → t ≡ n → q * m ≡ n
no_remainder q t c n m eq er em en = ap₂ ◌*◌ eq (sym em) ∙ omega (arith, er, div-add-mod t c) ∙ en

pub divide_exactly-Exact :
    (n m : ℕ) (t c : BigInt) (w : World)
    → Positive n t
    → Represents (pos m) c
    → 0 < m
    → IfOk (Exact n m) (divide_exactly t c w)
unfolding divide_exactly
divide_exactly-Exact n m t c w ht hc some = elim (Bool-cases (length c.limbs == 1)) [
  | inl single ↦
      let d = limb c.limbs in
      let same : d ≡ m = one_limb c.limbs single ∙ (Represents-Holds false m c hc).number in
      let (equation, below, canonical, fits) =
        divide_by_uint64_lem t d ht.held.magnitude (omega (arith, same, some)) in
      let q = (divide_by_uint64 t d).0 in
      rw (single, divide_exactly)
        (IfOk-checked (Exact n m) (budget_check w) _ _ λ _.
          elim (Bool-cases ((divide_by_uint64 t d).1 == 0)) [
            | inl none_left ↦ rw none_left (λ p.
                Positive-Exact n m q ht.some
                  (omega (
                    arith,
                    equation,
                    ==→eq _ _ none_left,
                    ht.held.number,
                    ap (λ (j : ℕ). value q.limbs * j) same,
                  ))
                  (record {
                    magnitude = canonical;
                    number = refl;
                    fits = omega (arith, fits, ht.held.fits, divided_room t d);
                    bounded = omega (arith, ht.held.bounded, divided_room t d);
                  }))
            | inr left ↦ rw left (λ p. cc)
          ])
  | inr long ↦
      rw (long, divide_exactly)
        (let o = div_mod (empty, empty) t c w in
          IfOk-on_ok (Exact n m) o _ _ λ e.
            let h =
              (div_mod-Truncated t c w (Positive-IsValid n t ht) hc.valid (empty, empty)).success
                e in
            let q = Represents-Holds (differ t.is_negative c.is_negative) _ o.object.0 h.quotient in
            let r = Represents-Holds t.is_negative _ o.object.1 h.remainder in
            let d = (Represents-Holds false m c hc).number in
            elim (Bool-cases (is_zero o.object.1)) [
              | inl z ↦ rw z (λ p.
                  Positive-Exact n m o.object.0 ht.some
                    (no_remainder (value o.object.0.limbs) (value t.limbs) (value c.limbs) n m
                      q.number (sym (zero_value o.object.1 z ∙ r.number)) d ht.held.number)
                    (record {
                      magnitude = q.magnitude;
                      number = refl;
                      fits = q.fits;
                      bounded = q.bounded;
                    }))
              | inr left ↦ rw left (λ p. cc)
            ])
]
