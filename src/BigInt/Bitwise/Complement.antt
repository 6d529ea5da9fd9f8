-- ===== src/BigInt/Bitwise/Complement.antt =====
-- `bigint_not` is the opposite of the successor.
use num_forge.Base.{
  ℕ, zero, suc, ◌≤◌, ◌<◌, ◌≡◌, refl, false, [], ◌∷◌, arith, ap, ◌∙◌, length, radix, if◌then◌else◌,
  ◌==◌,
}
use num_forge.Base.Int.{ℤ, pos, negsuc, ◌+ℤ◌, ◌-ℤ◌}
use num_forge.Runtime.Budget.{World}
use num_forge.BigInt.Types.{Represents, BigInt, IsValid, Computes, to_ℤ, max_limbs, empty}
use num_forge.BigInt.Magnitude.Value.{value, IsMagnitude}
use num_forge.BigInt.Contract.{Gives-on_ok}
use num_forge.BigInt.Arithmetic.{add}
use num_forge.BigInt.Arithmetic.Signed.{add-Computes, negate-Computes, Computes-eq}
use num_forge.BigInt.Bitwise.{wrap_uint64, bit_not}

complement_step : (v : ℤ) → pos 0 -ℤ (v +ℤ pos 1) ≡ negsuc 0 -ℤ v
unfolding ◌+ℤ◌ ◌-ℤ◌
complement_step v = ground arith

suc_nonzero : (n : ℕ) → (suc n == 0) ≡ false
suc_nonzero n = ground arith

word_limbs : (word : ℕ) → word < radix → IsMagnitude (if word == 0 then [] else (word ∷ []))
word_limbs zero h = record { words = tt; trimmed = tt }
word_limbs (suc n) h = rw (suc_nonzero n) (record { words = (h, tt); trimmed = omega arith })

word_value : (word : ℕ) → value (if word == 0 then [] else (word ∷ [])) ≡ word
word_value zero = refl
word_value (suc n) = rw (suc_nonzero n) (omega arith)

word_length : (word : ℕ) → length (if word == 0 then [] else (word ∷ [])) ≤ 1
word_length zero = omega arith
word_length (suc n) = rw (suc_nonzero n) (omega arith)

-- `bigint_wrap_uint64` wraps a word as a valid object that stands for it.
pub wrap_uint64-Represents : (word : ℕ) → word < radix → Represents (pos word) (wrap_uint64 word)
unfolding wrap_uint64
wrap_uint64-Represents word h = record {
  valid = record {
    magnitude = word_limbs word h;
    signed_nonzero = λ e. cc;
    fits = word_length word;
    bounded = omega arith;
  };
  integer = ap pos (word_value word);
}

-- `bigint_not` of a valid object leaves -1 less its integer, the complement in two's complement without
-- bound, in canonical form if it returns BIGINT_OK, and the destination untouched if it does not.
pub bit_not-Computes :
    (result a : BigInt) (w : World)
    → result.capacity ≤ max_limbs
    → IsValid a
    → Computes result (negsuc 0 -ℤ to_ℤ a) (bit_not result a w)
unfolding bit_not
bit_not-Computes result a w c va =
    let one = wrap_uint64-Represents 1 (omega arith) in
    let sum = add empty a (wrap_uint64 1) w in
    let g = add-Computes empty a (wrap_uint64 1) w (omega arith) va one.valid in
    Gives-on_ok sum _ _
      (λ e.
        Computes-eq
          (ap (λ v. pos 0 -ℤ v) ((g.success e).integer ∙ ap (λ v. to_ℤ a +ℤ v) one.integer)
            ∙ complement_step (to_ℤ a))
          (negate-Computes result sum.object sum.world c (g.success e).valid))
      (λ _. refl)
