-- ===== src/BigInt/Magnitude/Divide.antt =====
-- The division by a word: `bigint_divide_128_by_u64` in its two builds, and the loop of
-- `bigint_divide_by_uint64`, of src/core/bigint/bigint.c.
pub mod Serial
pub mod Short
use num_forge.Base.{
  ℕ, zero, suc, ◌+◌, ◌-◌, ◌*◌, ◌/◌, ◌%◌, Bool, true, false, ◌&&◌, ◌||◌, not, List, [], ◌∷◌,
  if◌then◌else◌, leb, ◌==◌, radix, u64, sub_u64, bit_and, bit_or, ◌<<<◌, ◌>>>◌,
}

-- The build with a 128-bit type: quotient and remainder of `high << 64 | low`.
abbrev pub divide_wide : ℕ → ℕ → ℕ → ℕ × ℕ
divide_wide high low divisor = ((high * radix + low) / divisor, (high * radix + low) % divisor)

-- A round of the build without one, on the quotient, the remainder and the next bit: `divisor` goes
-- once into `remainder * 2 + input_bit`, or not at all. The products are compared without computing them.
unfoldable pub serial_round : ℕ → ℕ → ℕ → ℕ → ℕ × ℕ
serial_round divisor quotient remainder input_bit =
    let gap = sub_u64 divisor remainder in
    if leb gap remainder || (not (input_bit == 0) && (remainder == sub_u64 gap 1))
    then (bit_or (quotient <<< 1) 1, u64 (sub_u64 remainder gap + input_bit))
    else (quotient <<< 1, bit_or (remainder <<< 1) input_bit)

-- The loop from bit `rounds - 1` down to bit 0.
unfoldable pub serial_loop : ℕ → ℕ → ℕ → ℕ → ℕ → ℕ × ℕ
serial_loop zero low divisor quotient remainder = (quotient, remainder)
serial_loop (suc bit) low divisor quotient remainder =
    let next = serial_round divisor quotient remainder (bit_and (low >>> bit) 1) in
    serial_loop bit low divisor next.0 next.1

unfoldable pub divide_serial : ℕ → ℕ → ℕ → ℕ × ℕ
unfolding serial_loop serial_round
divide_serial high low divisor = serial_loop 64 low divisor 0 high

-- The loop over the limbs from the most significant one down: the quotient's limbs and the remainder.
unfoldable pub divide_limbs : ℕ → List ℕ → List ℕ × ℕ
divide_limbs divisor [] = ([], 0)
divide_limbs divisor (x ∷ xs) =
    let above = divide_limbs divisor xs in
    let here = divide_wide above.1 x divisor in (here.0 ∷ above.0, here.1)
