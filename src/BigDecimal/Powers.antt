-- ===== src/BigDecimal/Powers.antt =====
-- Powers of 10 in src/core/bigdecimal/bigdecimal.c: `bigdecimal_set_power_of_ten`, which reads a text, and
-- `bigdecimal_multiply_power_of_ten`.
use native.Mathlib.Nat.{pow-zero, pow-succ'}
use num_forge.Base.{
  ℕ, zero, suc, ◌+◌, ◌-◌, ◌*◌, ◌^◌, ◌≤◌, ◌≡◌, refl, List, ◌∷◌, replicate, if◌then◌else◌, arith, ap,
  subst, sym, ◌∙◌, ltb, ◌==◌, size_max, Bool-cases, inl, inr, ==→eq,
}
use num_forge.Base.Int.{ℤ, pos, ◌*ℤ◌}
use num_forge.Base.Int.Ring.{times_one}
use num_forge.Runtime.Budget.{World, alloc}
use num_forge.BigInt.Types.{BigInt, IsValid, Represents, to_ℤ, max_limbs}
use num_forge.BigInt.Storage
use num_forge.BigInt.Storage.Normal.{copy-Computes}
use num_forge.BigInt.Multiplication.{Karatsuba, mul}
use num_forge.BigInt.Multiplication.Product.{mul-Computes}
use num_forge.BigInt.Text.{set_string}
use num_forge.BigInt.Text.Numerals.{decimal}
use num_forge.BigInt.Text.Parsing.{set_string-Splits}
use num_forge.BigRational.{obtained}
use num_forge.BigRational.Create.{Ensures-obtained}
use num_forge.BigRational.Types.{ok, value_too_large, Result, gives, step, after, created}
use num_forge.BigRational.Contract.{
  Ensures, Ensures-ok, Ensures-refused, Ensures-step, Ensures-after, Ensures-created,
}

-- '1' and zeros.
abbrev pub power_text : ℕ → List ℕ
power_text exponent = 49 ∷ replicate exponent 48

unfoldable pub set_power_of_ten : BigInt → ℕ → World → Result BigInt
set_power_of_ten b exponent w =
    if ltb (size_max - 2) exponent
    then gives value_too_large b w
    else created (alloc (exponent + 2) w) b
        λ w1. step (set_string b (power_text exponent) w1) b (gives ok)

module _ (karatsuba : Karatsuba) where
  unfoldable pub multiply_power_of_ten : BigInt → BigInt → ℕ → World → Result BigInt
  multiply_power_of_ten result b exponent w =
      if exponent == 0
      then step (Storage.copy result b w) result (gives ok)
      else obtained (Storage.create w) result λ object w1.
        after (set_power_of_ten object exponent w1) result
          λ power w2. step (mul karatsuba result b power w2) result (gives ok)

zeros_decimal : (n before : ℕ) → decimal before (replicate n 48) ≡ before * 10 ^ n
zeros_decimal zero before = omega (arith, ap (λ (t : ℕ). before * t) (pow-zero 10))
zeros_decimal (suc n) before =
    zeros_decimal n (before * 10 + 0) ∙ omega (arith, ap (λ (t : ℕ). before * t) (pow-succ' 10 n))

-- `bigdecimal_set_power_of_ten` gives the power of 10 or leaves the object untouched.
pub set_power_of_ten-Represents :
    (b : BigInt) (exponent : ℕ) (w : World)
    → Ensures (Represents (pos (10 ^ exponent))) b (set_power_of_ten b exponent w)
unfolding set_power_of_ten
set_power_of_ten-Represents b n w = elim (Bool-cases (ltb (size_max - 2) n)) [
  | inl over ↦ rw over (Ensures-refused value_too_large w refl)
  | inr fits ↦ rw fits (
      Ensures-created (alloc (n + 2) w) λ w1.
        Ensures-step _ (set_string-Splits b (power_text n) w1) λ p w2 h.
          Ensures-ok p w2 (
            subst (λ (k : ℕ). Represents (pos k) p) (zeros_decimal n 1 ∙ omega arith) h.represents))
]

-- `bigdecimal_multiply_power_of_ten` gives the product or leaves the destination untouched.
pub multiply_power_of_ten-Represents :
    (karatsuba : Karatsuba) (result b : BigInt) (exponent : ℕ) (w : World)
    → result.capacity ≤ max_limbs
    → IsValid b
    → Ensures
        (Represents (to_ℤ b *ℤ pos (10 ^ exponent)))
        result
        (multiply_power_of_ten karatsuba result b exponent w)
unfolding multiply_power_of_ten
multiply_power_of_ten-Represents k result b n w c v = elim (Bool-cases (n == 0)) [
  | inl none_left ↦ rw none_left (
      Ensures-step _ (copy-Computes result b w c v) λ r w1 h. Ensures-ok r w1 (
        subst (λ (t : ℤ). Represents t r)
          (sym (times_one (to_ℤ b))
            ∙ ap (λ (t : ℕ). to_ℤ b *ℤ pos t)
                (sym (pow-zero 10) ∙ ap (λ (t : ℕ). 10 ^ t) (sym (==→eq n 0 none_left))))
          h))
  | inr some_left ↦ rw some_left (
      Ensures-obtained _ λ object w1 eo.
        Ensures-after _ (set_power_of_ten-Represents object n w1) λ power w2 hp.
          Ensures-step _ (mul-Computes k result b power w2 c v hp.valid)
            λ r w3 h. Ensures-ok r w3 (subst (λ (t : ℤ). Represents (to_ℤ b *ℤ t) r) hp.integer h))
]
