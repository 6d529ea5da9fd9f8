-- ===== src/BigInt/Multiplication.antt =====
-- `bigint_mul` of src/core/bigint/arithmetic.c, and the preflight of src/core/bigint/multiplication.c
-- that chooses between its schoolbook loops and the Karatsuba routine. That routine enters through an
-- interface: a call, and the contract of every product.
pub mod Product
use num_forge.Base.{
  ℕ, zero, suc, ◌+◌, ◌-◌, ◌*◌, ◌/◌, ◌≤◌, Bool, true, false, ◌&&◌, ◌||◌, not, differ, Option, none,
  some, List, length, replicate, if◌then◌else◌, ltb, leb, max, min,
}
use num_forge.Base.Int.{◌*ℤ◌}
use num_forge.Runtime.Budget.{World, calloc, budget_can_allocate_pair}
use num_forge.BigInt.Types.{
  BigInt, IsValid, to_ℤ, ok, out_of_memory, value_too_large, Out, returns, on_ok, max_limbs,
  Computes,
}
use num_forge.BigInt.Storage.{size_add, size_mul, normalize, is_empty}
use num_forge.BigInt.Storage.Normal.{zeroed}
use num_forge.BigInt.Magnitude.Multiply.{rows}

-- `scratch_size`: the loop `while (n >= threshold)` with fuel; `none` is BIGINT_VALUE_TOO_LARGE.
unfoldable pub scratch_loop : ℕ → ℕ → ℕ → ℕ → Option ℕ
scratch_loop zero n threshold total = none
scratch_loop (suc fuel) n threshold total =
    let h = n - n / 2 + 1 in
    let more = λ (sum : ℕ). scratch_loop fuel h threshold sum in
    if ltb n threshold then some total else elim (size_mul h 4) [
      | none ↦ none
      | some frame ↦ elim (size_add total frame) [ none ↦ none | some sum ↦ more sum ]
    ]

-- From `n >= threshold >= 4` on, `h` is less than `n`, so `n` rounds and one more are enough.
unfoldable pub scratch_size : ℕ → ℕ → Option ℕ
unfolding scratch_loop
scratch_size n threshold = scratch_loop (n + 1) n threshold 0

-- `bigint_karatsuba_fits`.
unfoldable pub karatsuba_fits : ℕ → ℕ → ℕ → World → Bool
karatsuba_fits na nb threshold w = elim (scratch_size (max na nb) threshold) [
  | none ↦ false
  | some count ↦ elim (size_add na nb) [
    | none ↦ false
    | some size ↦ if ltb max_limbs size then false else elim (size_mul size 8) [
      | none ↦ false
      | some result_bytes ↦ elim (size_mul count 8) [
        | none ↦ false
        | some scratch_bytes ↦ budget_can_allocate_pair result_bytes scratch_bytes w
      ]
    ]
  ]
]

-- The Karatsuba routine, `bigint_mul_karatsuba(result, a, b, threshold)`.
pub record Karatsuba : Type 0 where
  pub multiply : BigInt → BigInt → BigInt → ℕ → World → Out BigInt
  pub multiply-Computes :
      (result a b : BigInt) (threshold : ℕ) (w : World)
      → result.capacity ≤ max_limbs
      → IsValid a
      → IsValid b
      → Computes result (to_ℤ a *ℤ to_ℤ b) (multiply result a b threshold w)

-- The schoolbook branch of `bigint_mul`.
unfoldable pub mul_school : BigInt → BigInt → BigInt → World → Out BigInt
mul_school result a b w = elim (size_add (length a.limbs) (length b.limbs)) [
  | none ↦ returns value_too_large result w
  | some size ↦
      if ltb max_limbs size
      then returns value_too_large result w
      else let (granted, w') = calloc size 8 w in
        if granted
        then on_ok (rows a.limbs b.limbs (replicate size 0) w') (λ _. result)
            (λ product w''.
              returns ok
                (normalize (record {
                  limbs = product;
                  capacity = size;
                  is_negative = differ a.is_negative b.is_negative;
                }))
                w'')
        else returns out_of_memory result w'
]

module _ (karatsuba : Karatsuba) where
  -- `bigint_mul`.
  unfoldable pub mul : BigInt → BigInt → BigInt → World → Out BigInt
  unfolding mul_school
  mul result a b w =
      let larger = max (length a.limbs) (length b.limbs) in
      let smaller = min (length a.limbs) (length b.limbs) in
      if is_empty a.limbs || is_empty b.limbs
      then returns ok (zeroed result) w
      else if leb 128 smaller
          && (ltb (larger / 2) smaller && karatsuba_fits (length a.limbs) (length b.limbs) 32 w)
      then karatsuba.multiply result a b 32 w
      else mul_school result a b w
