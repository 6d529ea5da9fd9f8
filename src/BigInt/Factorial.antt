-- ===== src/BigInt/Factorial.antt =====
-- `bigint_factorial_grouped` and `bigint_factorial` of src/core/bigint/number_theory.c. The routine on
-- product trees of src/core/bigint/factorial.c is an interface.
pub mod Grouped
use num_forge.Base.{
  ℕ, zero, suc, ◌+◌, ◌-◌, ◌*◌, ◌/◌, ◌<◌, ◌≤◌, Bool, true, false, ◌&&◌, not, length, if◌then◌else◌,
  ltb, leb, u64, uint64_max, radix,
}
use num_forge.Base.Int.{pos}
use num_forge.Runtime.Budget.{World, budget_check}
use num_forge.BigInt.Types.{
  BigInt, ok, negative_argument, value_too_large, Out, returns, on_ok, checked, empty, Computes,
  max_limbs,
}
use num_forge.BigInt.Storage.{set_uint64}
use num_forge.BigInt.Magnitude.Add.{limb}
use num_forge.BigInt.Arithmetic.{multiply_by_uint64}

abbrev pub product_to : ℕ → ℕ
product_to zero = 1
product_to (suc n) = suc n * product_to n

-- The loop from factor `i` on, for so many factors: the accumulator and the group. The group is multiplied
-- into the accumulator when the next factor does not fit beside it in a word.
unfoldable pub factorial_loop : ℕ → ℕ → ℕ → BigInt → World → Out (BigInt × ℕ)
factorial_loop zero i group temporary w = returns ok (temporary, group) w
factorial_loop (suc rounds) i group temporary w =
    checked (budget_check w) (temporary, group)
      λ w1.
        let grouped = factorial_loop rounds (i + 1) (u64 (group * i)) temporary w1 in
        if not (ltb (uint64_max / i) group)
        then grouped
        else on_ok (multiply_by_uint64 temporary group w1) (λ t. (t, group))
            λ t w2. factorial_loop rounds (i + 1) i t w2

unfoldable pub factorial_grouped : BigInt → ℕ → World → Out BigInt
unfolding factorial_loop
factorial_grouped result n w =
    on_ok (set_uint64 empty 1 w) (λ _. result)
      λ one w1.
        let product =
          if ltb n 2
          then returns ok one w1
          else on_ok (factorial_loop (n - 1) 2 1 one w1) (λ r. r.0)
              λ r w2. multiply_by_uint64 r.0 r.1 w2 in
        on_ok product (λ _. result)
          λ temporary w2.
            checked (budget_check w2) result
              λ w3. returns ok (record temporary { is_negative = false }) w3

-- `bigint_factorial_tree_fits` and `bigint_factorial_tree`.
pub record FactorialTree : Type 0 where
  pub fits : ℕ → World → Bool
  pub product : BigInt → ℕ → World → Out BigInt
  pub product-Computes :
      (result : BigInt) (n : ℕ) (w : World)
      → result.capacity ≤ max_limbs
      → n < radix
      → Computes result (pos (product_to n)) (product result n w)

module _ (tree : FactorialTree) where
  unfoldable pub factorial : BigInt → BigInt → World → Out BigInt
  unfolding factorial_grouped
  factorial result b w =
      let n = limb b.limbs in
      if b.is_negative
      then returns negative_argument result w
      else if ltb 1 (length b.limbs)
      then returns value_too_large result w
      else if leb 8192 n && tree.fits n w
      then tree.product result n w
      else factorial_grouped result n w
