-- ===== src/BigInt/Bitwise/Logic.antt =====
-- The operations limb by limb are the operations on the numbers.
use num_forge.Base.{
  ℕ, zero, suc, ◌+◌, ◌*◌, ◌^◌, ◌≤◌, ◌≡◌, refl, false, ◌||◌, ◌&&◌, not, List, [], ◌∷◌, length, arith,
  radix, All, IsLimb, max, min, ap, ◌∙◌, bit_and, bit_or, bit_xor, Bool-cases, inl, inr, leb,
}
use Prim.Native.Nat.{differ, bit_and-bitwise}
use num_forge.Base.Bits.{and_zero}
use num_forge.Base.Bits.Split.{
  IsBitwise, and-IsBitwise, or-IsBitwise, xor-IsBitwise, bitwise_split, bitwise-lt,
}
use num_forge.Base.Int.{pos}
use num_forge.Runtime.Budget.{World}
use num_forge.BigInt.Types.{
  BigInt, IsValid, Computes, Out, max_limbs, negative_argument, is_negative_argument,
}
use num_forge.BigInt.Contract.{Gives-ok, Gives-checked, Gives-refused}
use num_forge.BigInt.Storage.Normal.{normalize-IsValid, to_ℤ-normalize}
use num_forge.BigInt.Magnitude.Value.{value}
use num_forge.BigInt.Magnitude.Add.{limb, rest}
use num_forge.BigInt.Magnitude.Add.Sums.{limb-IsLimb, rest-IsLimb, value-rest, length-rest_eq}
use num_forge.BigInt.Bitwise.{
  Operation, conjunction, disjunction, exclusion, on_words, zip_limbs, result_size, alloc_limbs,
  bitwise, bitwise_and, bitwise_or, bitwise_xor,
}

abbrev skip : ℕ → List ℕ → List ℕ
skip zero xs = xs
skip (suc n) xs = skip n (rest xs)

skip_all : (n : ℕ) (xs : List ℕ) → length xs ≤ n → value (skip n xs) ≡ 0
skip_all zero [] h = refl
skip_all zero (x ∷ xs) h = absurd (omega arith)
skip_all (suc n) xs h = skip_all n (rest xs) (omega (arith, length-rest_eq xs))

module _ {op f : ℕ → ℕ → ℕ} (bits : IsBitwise op f) where
  zip_limbs-words :
      (n : ℕ) (a b : List ℕ) → All IsLimb a → All IsLimb b → All IsLimb (zip_limbs op n a b)
  unfolding zip_limbs
  zip_limbs-words zero a b wa wb = tt
  zip_limbs-words (suc n) a b wa wb = (
    bitwise-lt bits 64 (limb a) (limb b) (limb-IsLimb a wa) (limb-IsLimb b wb),
    zip_limbs-words n (rest a) (rest b) (rest-IsLimb a wa) (rest-IsLimb b wb),
  )

  length-zip_limbs : (n : ℕ) (a b : List ℕ) → length (zip_limbs op n a b) ≡ n
  unfolding zip_limbs
  length-zip_limbs zero a b = refl
  length-zip_limbs (suc n) a b = ap suc (length-zip_limbs n (rest a) (rest b))

  split_value :
      (a b : List ℕ)
      → All IsLimb a
      → All IsLimb b
      → op (value a) (value b) ≡ op (limb a) (limb b) + radix * op (value (rest a)) (value (rest b))
  split_value a b wa wb =
      let e : value a ≡ limb a + value (rest a) * 2 ^ 64 = omega (arith, value-rest a) in
      let g : value b ≡ limb b + value (rest b) * 2 ^ 64 = omega (arith, value-rest b) in
      rw (e, g)
        (bitwise_split bits 64 (value (rest a)) (limb a) (value (rest b)) (limb b)
            (limb-IsLimb a wa) (limb-IsLimb b wb)
          ∙ omega arith)

  -- `n` rounds give the operation on the numbers, if it gives 0 on what they leave.
  value-zip_limbs :
      (n : ℕ) (a b : List ℕ)
      → All IsLimb a
      → All IsLimb b
      → op (value (skip n a)) (value (skip n b)) ≡ 0
      → value (zip_limbs op n a b) ≡ op (value a) (value b)
  unfolding zip_limbs
  value-zip_limbs zero a b wa wb h = omega (arith, h)
  value-zip_limbs (suc n) a b wa wb h = omega (
    arith,
    split_value a b wa wb,
    value-zip_limbs n (rest a) (rest b) (rest-IsLimb a wa) (rest-IsLimb b wb) h,
  )

and_left : (b : ℕ) → bit_and 0 b ≡ 0
and_left b = bit_and-bitwise 0 b

and_right : (a : ℕ) → bit_and a 0 ≡ 0
and_right a = and_zero a a (omega arith)

zero_rest :
    (operation : Operation) (a b : List ℕ)
    → let n = result_size operation (length a) (length b) in
      on_words operation (value (skip n a)) (value (skip n b)) ≡ 0
zero_rest conjunction a b = elim (Bool-cases (leb (length a) (length b))) [
  | inl short ↦ rw (skip_all (min (length a) (length b)) a (ground arith)) (and_left _)
  | inr long ↦ rw (skip_all (min (length a) (length b)) b (ground arith)) (and_right _)
]
zero_rest disjunction a b = rw (
  skip_all (max (length a) (length b)) a (omega arith),
  skip_all (max (length a) (length b)) b (omega arith),
)
zero_rest exclusion a b = rw (
  skip_all (max (length a) (length b)) a (omega arith),
  skip_all (max (length a) (length b)) b (omega arith),
)

abbrev on_bits : Operation → ℕ → ℕ → ℕ
on_bits conjunction = min
on_bits disjunction = max
on_bits exclusion = differ

bits_of : (operation : Operation) → IsBitwise (on_words operation) (on_bits operation)
bits_of conjunction = and-IsBitwise
bits_of disjunction = or-IsBitwise
bits_of exclusion = xor-IsBitwise

alloc_limbs_bound :
    (operation : Operation) (a b : BigInt)
    → IsValid a
    → IsValid b
    → result_size operation (length a.limbs) (length b.limbs) ≤ max_limbs
alloc_limbs_bound conjunction a b va vb = omega (arith, va, vb)
alloc_limbs_bound disjunction a b va vb = omega (arith, va, vb)
alloc_limbs_bound exclusion a b va vb = omega (arith, va, vb)

-- The call leaves the number in canonical form, or the destination as it was; with a negative operand it
-- returns BIGINT_NEGATIVE_ARGUMENT.
abbrev pub Combines : BigInt → BigInt → BigInt → ℕ → Out BigInt → Type 0
Combines result a b n o =
    Computes result (pos n) o
    × (((a.is_negative || b.is_negative) && not (is_negative_argument o.status)) ≡ false)

module _ (result a b : BigInt) (w : World) (va : IsValid a) (vb : IsValid b) where
  bitwise-Combines :
      (operation : Operation)
      → Combines result a b
          (on_words operation (value a.limbs) (value b.limbs))
          (bitwise operation result a b w)
  unfolding bitwise
  bitwise-Combines operation = (
    elim (Bool-cases (a.is_negative || b.is_negative)) [
      | inl negative ↦ simp negative (Gives-refused negative_argument w refl)
      | inr natural ↦
          let size = result_size operation (length a.limbs) (length b.limbs) in
          let limbs = zip_limbs (on_words operation) size a.limbs b.limbs in
          let r : BigInt = record { limbs = limbs; capacity = size; is_negative = false } in
          let bits = bits_of operation in
          simp natural (
            Gives-checked (alloc_limbs size w) result _
              (λ _. Gives-ok _ _ (record {
                valid =
                    normalize-IsValid r
                      (zip_limbs-words bits size a.limbs b.limbs va.magnitude.words
                        vb.magnitude.words)
                      (omega (arith, length-zip_limbs bits size a.limbs b.limbs))
                      (alloc_limbs_bound operation a b va vb);
                integer =
                    to_ℤ-normalize r
                    ∙ ap pos (
                        value-zip_limbs bits size a.limbs b.limbs va.magnitude.words
                          vb.magnitude.words (zero_rest operation a.limbs b.limbs));
              }))
              refl)
    ],
    elim (Bool-cases (a.is_negative || b.is_negative)) [
      | inl negative ↦ simp negative refl
      | inr natural ↦ simp natural refl
    ],
  )

  -- `bigint_and`, `bigint_or` and `bigint_xor` of two valid objects: for operands that are not negative the
  -- calls leave the bitwise and, the bitwise or and the bitwise exclusive or of their numbers in canonical
  -- form if they return BIGINT_OK, and the destination untouched if they do not; with a negative operand
  -- they return BIGINT_NEGATIVE_ARGUMENT.
  pub bitwise-Computes :
      Combines result a b (bit_and (value a.limbs) (value b.limbs)) (bitwise_and result a b w)
      × Combines result a b (bit_or (value a.limbs) (value b.limbs)) (bitwise_or result a b w)
      × Combines result a b (bit_xor (value a.limbs) (value b.limbs)) (bitwise_xor result a b w)
  bitwise-Computes =
      (bitwise-Combines conjunction, bitwise-Combines disjunction, bitwise-Combines exclusion)
