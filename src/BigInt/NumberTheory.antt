-- ===== src/BigInt/NumberTheory.antt =====
-- `bigint_gcd` and `bigint_lcm` of src/core/bigint/number_theory.c.
-- `result` may be an operand: both operands are copied before the loop.
pub mod Divisors
pub mod Euclid
pub mod Multiples
use num_forge.Base.{ℕ, zero, suc, Bool, true, false, ◌||◌, length, if◌then◌else◌}
use num_forge.Runtime.Budget.{World, budget_check}
use num_forge.BigInt.Types.{BigInt, ok, Out, returns, on_ok, checked, empty}
use num_forge.BigInt.Storage.{copy, is_empty}
use num_forge.BigInt.Storage.Normal.{zeroed}
use num_forge.BigInt.Magnitude.Value.{value}
use num_forge.BigInt.Arithmetic.{abs}
use num_forge.BigInt.LongDivision.{Division, divmod_abs}
use num_forge.BigInt.Quotient.{fresh, div_mod}
use num_forge.BigInt.Multiplication.{Karatsuba, mul}

-- `while (status == BIGINT_OK && y.size != 0)`, with fuel: the remainder is less than `y`, so more fuel than
-- `y` is enough. The buffers rotate: `x` becomes `y`, `y` the remainder, and the remainder's buffer is that
-- of the old `x`.
unfoldable pub gcd_loop : ℕ → BigInt → BigInt → Division → World → Out BigInt
gcd_loop zero x y d w = returns ok x w
gcd_loop (suc fuel) x y d w =
    if is_empty y.limbs
    then returns ok x w
    else on_ok (divmod_abs false true d x y w) (λ _. x)
        λ d1 w1. gcd_loop fuel y d1.remainder (record d1 { remainder = x }) w1

unfoldable pub gcd : BigInt → BigInt → BigInt → World → Out BigInt
unfolding gcd_loop
gcd result a b w = checked (budget_check w) result λ w1.
    on_ok (abs empty a w1) (λ _. result)
      λ x w2.
        on_ok (abs empty b w2) (λ _. result)
          λ y w3.
            on_ok (gcd_loop (suc (value y.limbs)) x y fresh w3) (λ _. result)
              λ g w4.
                on_ok (copy result g w4) (λ r. r)
                  λ r w5. returns ok (record r { is_negative = false }) w5

module _ (karatsuba : Karatsuba) where
  unfoldable pub lcm : BigInt → BigInt → BigInt → World → Out BigInt
  lcm result a b w =
      if is_empty a.limbs || is_empty b.limbs
      then returns ok (zeroed result) w
      else on_ok (gcd empty a b w) (λ _. result)
          λ g w1.
            on_ok (abs empty a w1) (λ _. result)
              λ abs_a w2.
                on_ok (abs empty b w2) (λ _. result)
                  λ abs_b w3.
                    on_ok (div_mod (empty, empty) abs_a g w3) (λ _. result)
                      λ divided w4.
                        on_ok (mul karatsuba result divided.0 abs_b w4) (λ r. r)
                          λ r w5. returns ok (record r { is_negative = false }) w5
