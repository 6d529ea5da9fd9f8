-- ===== src/BigInt/Division.antt =====
-- `bigint_divide_by_uint64` of src/core/bigint/bigint.c, in place: the quotient replaces the number, and
-- the remainder is returned. The sign is not touched. For a divisor 0 nothing happens.
use num_forge.Base.{
  ℕ, ◌+◌, ◌*◌, ◌<◌, ◌≤◌, ◌≡◌, if◌then◌else◌, ◌==◌, arith, length, Bool-cases, inl, inr, ap, ◌∙◌,
}
use num_forge.BigInt.Types.{BigInt}
use num_forge.BigInt.Magnitude.Value.{value, IsMagnitude}
use num_forge.BigInt.Magnitude.Trim.{trim, value-trim, trim-IsMagnitude, length-trim}
use num_forge.BigInt.Magnitude.Divide.{divide_limbs}
use num_forge.BigInt.Magnitude.Divide.Short.{divide_limbs_lem}

unfoldable pub divide_by_uint64 : BigInt → ℕ → BigInt × ℕ
unfolding divide_limbs
divide_by_uint64 b divisor =
    let divided = divide_limbs divisor b.limbs in
    if divisor == 0 then (b, 0) else (record b { limbs = trim divided.0 }, divided.1)

-- `bigint_divide_by_uint64` of a canonical magnitude by a word that is not 0 leaves the quotient of the
-- magnitude in canonical form and within the buffer, and returns the remainder.
pub divide_by_uint64_lem :
    (b : BigInt) (divisor : ℕ)
    → IsMagnitude b.limbs
    → 0 < divisor
    → (value (divide_by_uint64 b divisor).0.limbs * divisor + (divide_by_uint64 b divisor).1
        ≡ value b.limbs)
      × ((divide_by_uint64 b divisor).1 < divisor)
      × IsMagnitude (divide_by_uint64 b divisor).0.limbs
      × (length (divide_by_uint64 b divisor).0.limbs ≤ length b.limbs)
unfolding divide_by_uint64
divide_by_uint64_lem b divisor v h = elim (Bool-cases (divisor == 0)) [
  | inl zero_divisor ↦ absurd (ground (arith, zero_divisor))
  | inr some_divisor ↦
      let d = divide_limbs_lem divisor b.limbs h v.words in
      let q = (divide_limbs divisor b.limbs).0 in
      rw some_divisor (
        ap (λ (t : ℕ). t * divisor + (divide_limbs divisor b.limbs).1) (value-trim q) ∙ d.equation,
        d.below,
        trim-IsMagnitude q d.words,
        omega (arith, length-trim q, d.same_length),
      )
]
