-- ===== src/BigInt/Modular.antt =====
-- `bigint_modular_multiply` and `bigint_modular_pow` of src/core/bigint/primality.c.
pub mod Powers
pub mod Remainders
use num_forge.Base.{ℕ, zero, suc, if◌then◌else◌, true, false}
use num_forge.Runtime.Budget.{World}
use num_forge.BigInt.Types.{BigInt, ok, Out, returns, on_ok, empty}
use num_forge.BigInt.Storage.{set_uint64, copy, is_empty}
use num_forge.BigInt.Multiplication.{Karatsuba, mul}
use num_forge.BigInt.Quotient.{modulo}
use num_forge.BigInt.Bitwise.{shift_right}
use num_forge.BigInt.Comparison.{is_odd, limbs_bit_length}

module _ (karatsuba : Karatsuba) where
  unfoldable pub modular_multiply : BigInt → BigInt → BigInt → BigInt → World → Out BigInt
  modular_multiply result a b modulus w =
      on_ok (mul karatsuba empty a b w) (λ _. result) λ product w1. modulo result product modulus w1

  -- `while (status == BIGINT_OK && remaining.size != 0)`, with fuel; each round halves `remaining`.
  unfoldable pub modular_pow_loop : ℕ → BigInt → BigInt → BigInt → BigInt → World → Out BigInt
  modular_pow_loop zero modulus accumulator factor remaining w = returns ok accumulator w
  modular_pow_loop (suc fuel) modulus accumulator factor remaining w =
      if is_empty remaining.limbs
      then returns ok accumulator w
      else on_ok
          (if is_odd remaining
            then modular_multiply accumulator accumulator factor modulus w
            else returns ok accumulator w)
          (λ a. a)
          λ multiplied w1.
            on_ok (shift_right remaining remaining 1 w1) (λ _. multiplied)
              λ halved w2.
                on_ok
                  (if is_empty halved.limbs
                    then returns ok factor w2
                    else modular_multiply factor factor factor modulus w2)
                  (λ _. multiplied)
                  λ squared w3. modular_pow_loop fuel modulus multiplied squared halved w3

  unfoldable pub modular_pow : BigInt → BigInt → BigInt → BigInt → World → Out BigInt
  unfolding modular_pow_loop
  modular_pow result base exponent modulus w =
      on_ok (set_uint64 empty 1 w) (λ _. result)
        λ one w1.
          on_ok (modulo one one modulus w1) (λ _. result)
            λ accumulator w2.
              on_ok (modulo empty base modulus w2) (λ _. result)
                λ factor w3.
                  on_ok (copy empty exponent w3) (λ _. result)
                    λ remaining w4.
                      on_ok
                        (modular_pow_loop (limbs_bit_length exponent.limbs) modulus accumulator
                          factor remaining w4)
                        (λ _. result) λ power w5. copy result power w5
