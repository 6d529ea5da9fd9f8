-- ===== src/BigInt/Text/Bases.antt =====
-- `bigint_radix_chunk`, `bigint_ascii_digit` and `bigint_set_string_base` of src/core/bigint/conversion.c.
pub mod Numerals
pub mod Parsing
use num_forge.Base.{
  ℕ, zero, suc, ◌+◌, ◌-◌, ◌*◌, ◌/◌, Bool, true, false, ◌&&◌, ◌||◌, not, List, [], ◌∷◌, length,
  if◌then◌else◌, ◌==◌, leb, ltb, u64, uint64_max,
}
use num_forge.Runtime.Budget.{World}
use num_forge.BigInt.Types.{BigInt, ok, invalid_argument, Out, returns, on_ok, empty}
use num_forge.BigInt.Storage.{normalize}
use num_forge.BigInt.Text.{split_sign, parse_loop, set_string}

-- The value of a digit in a base up to 36, and 36 for any other byte.
abbrev pub ascii_digit : ℕ → ℕ
ascii_digit c =
    if leb 48 c && leb c 57
    then c - 48
    else if leb 97 c && leb c 122
    then c - 97 + 10
    else if leb 65 c && leb c 90
    then c - 65 + 10
    else 36

-- `while (multiplier <= UINT64_MAX / base)`, with fuel; a base is at least 2, so 64 rounds are enough.
unfoldable pub radix_loop : ℕ → ℕ → ℕ → ℕ → ℕ × ℕ
radix_loop zero base multiplier digits = (multiplier, digits)
radix_loop (suc fuel) base multiplier digits =
    let more = radix_loop fuel base (u64 (multiplier * base)) (digits + 1) in
    if leb multiplier (uint64_max / base) then more else (multiplier, digits)

abbrev pub radix_chunk : ℕ → ℕ × ℕ
radix_chunk base = radix_loop 64 base 1 0

abbrev pub are_below : ℕ → List ℕ → Bool
are_below base [] = true
are_below base (c ∷ cs) = ltb (ascii_digit c) base && are_below base cs

unfoldable pub set_string_base : BigInt → List ℕ → ℕ → World → Out BigInt
unfolding radix_loop
set_string_base b text base w =
    let (negative, digits) = split_sign text in
    if ltb base 2 || ltb 36 base
    then returns invalid_argument b w
    else if base == 10
    then set_string b text w
    else if length digits == 0 || not (are_below base digits)
    then returns invalid_argument b w
    else on_ok (parse_loop ascii_digit base (radix_chunk base).1 (length digits) digits empty w)
        (λ _. b) λ parsed w1. returns ok (normalize (record parsed { is_negative = negative })) w1
