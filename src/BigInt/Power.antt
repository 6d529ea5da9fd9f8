-- ===== src/BigInt/Power.antt =====
-- `bigint_pow` of src/core/bigint/arithmetic.c: powers by repeated squaring.
pub mod Contract
pub mod Squaring
use num_forge.Base.{ℕ, zero, suc, ◌+◌, Bool, true, false, ◌&&◌, not, if◌then◌else◌, ◌==◌}
use num_forge.Runtime.Budget.{World}
use num_forge.BigInt.Types.{BigInt, ok, negative_argument, Out, returns, on_ok, empty}
use num_forge.BigInt.Storage.{set_uint64, normalize, copy, is_empty}
use num_forge.BigInt.Storage.Normal.{zeroed}
use num_forge.BigInt.Comparison.{get_bit, bit_length}
use num_forge.BigInt.Arithmetic.{abs}
use num_forge.BigInt.Multiplication.{Karatsuba, mul}

module _ (karatsuba : Karatsuba) where
  -- `x = x * y`, left out if `skip`.
  unfoldable pub multiply_unless : Bool → BigInt → BigInt → World → Out BigInt
  multiply_unless skip x y w = if skip then returns ok x w else mul karatsuba x x y w

  -- The loop over the bits of the exponent from bit `i` on, `rounds` of them; the last round does not
  -- square the base.
  unfoldable pub pow_loop : ℕ → ℕ → BigInt → BigInt → BigInt → World → Out BigInt
  pow_loop zero i exponent accumulator base_power w = returns ok accumulator w
  pow_loop (suc rounds) i exponent accumulator base_power w =
      on_ok (multiply_unless (get_bit exponent i == 0) accumulator base_power w) (λ x. x)
        λ multiplied w'.
          on_ok (multiply_unless (rounds == 0) base_power base_power w') (λ _. multiplied)
            λ squared w''. pow_loop rounds (i + 1) exponent multiplied squared w''

  unfoldable pub pow : BigInt → BigInt → BigInt → World → Out BigInt
  pow result base exponent w =
      if exponent.is_negative
      then returns negative_argument result w
      else if is_empty exponent.limbs
      then set_uint64 result 1 w
      else if is_empty base.limbs
      then returns ok (zeroed result) w
      else on_ok (set_uint64 empty 1 w) (λ _. result)
          λ one w1.
            on_ok (abs empty base w1) (λ _. result)
              λ base_power w2.
                on_ok (pow_loop (bit_length exponent) 0 exponent one base_power w2) (λ _. result)
                  λ accumulator w3.
                    on_ok (copy result accumulator w3) (λ r. r)
                      λ r w4.
                        returns ok
                          (normalize (record r {
                            is_negative = base.is_negative && not (get_bit exponent 0 == 0);
                          }))
                          w4
