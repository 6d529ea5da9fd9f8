-- ===== src/BigInt/Combinatorics.antt =====
-- `bigint_combinatorial`, `bigint_permutation` and `bigint_combination` of
-- src/core/bigint/number_theory.c. The quotient's buffer that the source swaps in is a fresh one here.
pub mod Rounds
pub mod Counting
pub mod Selection
use Prim.Native.Nat.{Ordering}
use Prim.Native.Nat.Ordering.{lt, eq, gt}
use num_forge.Base.{ℕ, zero, suc, Bool, true, false, ◌&&◌, ◌||◌, not, length, if◌then◌else◌, ◌==◌}
use num_forge.Runtime.Budget.{World, budget_check}
use num_forge.BigInt.Types.{
  BigInt, ok, negative_argument, invalid_argument, Out, returns, on_ok, checked, empty,
}
use num_forge.BigInt.Storage.{set_uint64, copy}
use num_forge.BigInt.Magnitude.Value.{value}
use num_forge.BigInt.Magnitude.Add.{limb}
use num_forge.BigInt.Arithmetic.{add, sub, multiply_by_uint64}
use num_forge.BigInt.Division.{divide_by_uint64}
use num_forge.BigInt.Quotient.{div_mod}
use num_forge.BigInt.Multiplication.{Karatsuba, mul}
use num_forge.BigInt.Comparison.{compare, is_zero}

abbrev pub is_lt : Ordering → Bool
is_lt lt = true
is_lt _ = false

abbrev pub is_gt : Ordering → Bool
is_gt gt = true
is_gt _ = false

-- The division of a round, for combinations.
unfoldable pub divide_exactly : BigInt → BigInt → World → Out BigInt
divide_exactly temporary counter w =
    let divided = divide_by_uint64 temporary (limb counter.limbs) in
    if not (length counter.limbs == 1)
    then on_ok (div_mod (empty, empty) temporary counter w) (λ _. temporary)
        (λ d w1. if is_zero d.1 then returns ok d.0 w1 else returns invalid_argument temporary w1)
    else checked (budget_check w) divided.0 λ w1.
      if divided.1 == 0 then returns ok divided.0 w1 else returns invalid_argument divided.0 w1

module _ (karatsuba : Karatsuba) where
  -- The product of a round.
  unfoldable pub grow_product : BigInt → BigInt → World → Out BigInt
  grow_product temporary factor w =
      if length factor.limbs == 1
      then multiply_by_uint64 temporary (limb factor.limbs) w
      else mul karatsuba temporary temporary factor w

  -- The loop, with fuel: one round more than the number of factors.
  unfoldable pub product_loop :
      ℕ → Bool → BigInt → BigInt → BigInt → BigInt → BigInt → World → Out BigInt
  unfolding grow_product divide_exactly
  product_loop zero combination one effective temporary factor counter w = returns ok temporary w
  product_loop (suc fuel) combination one effective temporary factor counter w =
      if not (is_lt (compare counter effective))
      then returns ok temporary w
      else checked (budget_check w) temporary λ w1.
        on_ok (add factor factor one w1) (λ _. temporary)
          λ f w2.
            on_ok (add counter counter one w2) (λ _. temporary)
              λ c w3.
                on_ok (grow_product temporary f w3) (λ t. t)
                  λ g w4.
                    on_ok (if combination then divide_exactly g c w4 else returns ok g w4) (λ t. t)
                      λ t w5. product_loop fuel combination one effective t f c w5

  unfoldable pub combinatorial : Bool → BigInt → BigInt → BigInt → World → Out BigInt
  unfolding product_loop
  combinatorial combination result n r w =
      if n.is_negative || r.is_negative
      then returns negative_argument result w
      else if is_gt (compare r n)
      then returns invalid_argument result w
      else on_ok (set_uint64 empty 1 w) (λ _. result)
          λ temporary w1.
            on_ok (set_uint64 empty 1 w1) (λ _. result)
              λ one w2.
                on_ok (sub empty n r w2) (λ _. result)
                  λ difference w3.
                    on_ok
                      (copy empty
                        (if combination && is_gt (compare r difference) then difference else r) w3)
                      (λ _. result)
                      λ effective w4.
                        on_ok (sub empty n effective w4) (λ _. result)
                          λ factor w5.
                            on_ok
                              (product_loop (suc (value effective.limbs)) combination one effective
                                temporary factor empty w5)
                              (λ _. result) λ t w6. returns ok (record t { is_negative = false }) w6

  abbrev pub permutation : BigInt → BigInt → BigInt → World → Out BigInt
  permutation = combinatorial false

  abbrev pub combination : BigInt → BigInt → BigInt → World → Out BigInt
  combination = combinatorial true
