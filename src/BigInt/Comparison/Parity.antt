-- ===== src/BigInt/Comparison/Parity.antt =====
-- Parity and the tests for 0 and 1.
use num_forge.Base.{
  ℕ, ◌%◌, ◌≡◌, refl, true, false, not, List, [], ◌∷◌, get_or, if◌then◌else◌, ◌==◌, arith, ap, sym,
  ◌∙◌, bit_and,
}
use num_forge.Base.Bits.{bit_and-mask}
use num_forge.BigInt.Types.{BigInt}
use num_forge.BigInt.Storage.{is_empty}
use num_forge.BigInt.Magnitude.Value.{value}
use num_forge.BigInt.Comparison.{is_even, is_odd}

low_limb-parity : (xs : List ℕ) → bit_and (get_or xs 0 0) 1 ≡ value xs % 2
low_limb-parity [] = refl
low_limb-parity (x ∷ xs) = bit_and-mask 1 x ∙ omega arith

even_limbs :
    (xs : List ℕ)
    → (if is_empty xs then true else (bit_and (get_or xs 0 0) 1 == 0)) ≡ (value xs % 2 == 0)
even_limbs [] = refl
even_limbs (x ∷ xs) = ap (λ (t : ℕ). t == 0) (low_limb-parity (x ∷ xs))

odd_limbs :
    (xs : List ℕ)
    → (if is_empty xs then false else not (bit_and (get_or xs 0 0) 1 == 0))
      ≡ not (value xs % 2 == 0)
odd_limbs [] = refl
odd_limbs (x ∷ xs) = ap (λ (t : ℕ). not (t == 0)) (low_limb-parity (x ∷ xs))

-- `bigint_is_even` and `bigint_is_odd` read the parity of the magnitude, 0 included, and are opposite.
pub parity_lem :
    (b : BigInt) → (is_even b ≡ (value b.limbs % 2 == 0)) × (is_odd b ≡ not (is_even b))
unfolding is_even is_odd
parity_lem b = (even_limbs b.limbs, odd_limbs b.limbs ∙ ap not (sym (even_limbs b.limbs)))
