-- ===== src/BigInt/Text.antt =====
-- `bigint_set_string` and `bigint_to_string` of src/core/bigint/conversion.c. A text is the list of its
-- bytes, without the final 0.
pub mod Bases
pub mod Numerals
pub mod Parsing
pub mod Printing
pub mod RoundTrip
use num_forge.Base.{
  ℕ, zero, suc, ◌+◌, ◌-◌, ◌*◌, ◌/◌, ◌%◌, Bool, true, false, ◌&&◌, ◌||◌, not, Option, none, some,
  List, [], ◌∷◌, ◌++◌, length, drop, if◌then◌else◌, ◌==◌, leb, u64,
}
use num_forge.Runtime.Budget.{World, budget_check, alloc}
use num_forge.BigInt.Types.{
  BigInt, ok, invalid_argument, out_of_memory, Out, returns, on_ok, checked, empty,
}
use num_forge.BigInt.Storage.{size_add, size_mul, normalize, copy, is_empty}
use num_forge.BigInt.Division.{divide_by_uint64}
use num_forge.BigInt.Arithmetic.{add_uint64, multiply_by_uint64}

abbrev pub is_digit : ℕ → Bool
is_digit c = leb 48 c && leb c 57

abbrev pub are_digits : List ℕ → Bool
are_digits [] = true
are_digits (c ∷ cs) = is_digit c && are_digits cs

-- A leading '-' or '+', and the bytes after it.
abbrev pub split_sign : List ℕ → Bool × List ℕ
split_sign [] = (false, [])
split_sign (c ∷ cs) =
    if c == 45 then (true, cs) else if c == 43 then (false, cs) else (false, c ∷ cs)

abbrev pub decimal_digit : ℕ → ℕ
decimal_digit c = c - 48

-- At most `n` digits of a base: the chunk's number and the power of the base for it. `bigint_set_string`
-- has this loop for base 10, `bigint_set_string_base` for the others.
unfoldable pub read_chunk : (ℕ → ℕ) → ℕ → ℕ → List ℕ → ℕ → ℕ → ℕ × ℕ
read_chunk digit base zero text chunk_value multiplier = (chunk_value, multiplier)
read_chunk digit base (suc n) [] chunk_value multiplier = (chunk_value, multiplier)
read_chunk digit base (suc n) (c ∷ cs) chunk_value multiplier =
    read_chunk digit base n cs (u64 (chunk_value * base + digit c)) (u64 (multiplier * base))

-- `while (i < len)` on the bytes from index `i` on, in chunks of `size` digits, with fuel; each round
-- takes a digit or more.
unfoldable pub parse_loop : (ℕ → ℕ) → ℕ → ℕ → ℕ → List ℕ → BigInt → World → Out BigInt
unfolding read_chunk
parse_loop digit base size zero text parsed w = returns ok parsed w
parse_loop digit base size (suc fuel) [] parsed w = returns ok parsed w
parse_loop digit base size (suc fuel) (c ∷ cs) parsed w =
    let chunk = read_chunk digit base size (c ∷ cs) 0 1 in
    checked (budget_check w) parsed λ w1.
      on_ok (multiply_by_uint64 parsed chunk.1 w1) (λ b. b)
        λ scaled w2.
          on_ok (add_uint64 scaled chunk.0 w2) (λ b. b)
            λ next w3. parse_loop digit base size fuel (drop size (c ∷ cs)) next w3

unfoldable pub set_string : BigInt → List ℕ → World → Out BigInt
unfolding parse_loop
set_string b text w =
    let (negative, digits) = split_sign text in
    if length text == 0 || (length digits == 0 || not (are_digits digits))
    then returns invalid_argument b w
    else on_ok (parse_loop decimal_digit 10 19 (length digits) digits empty w) (λ _. b)
        λ parsed w1. returns ok (normalize (record parsed { is_negative = negative })) w1

-- 10 ^ 19, the largest power of 10 in a word.
abbrev pub chunk_base : ℕ
chunk_base = 10_000_000_000_000_000_000

-- `while (scratch.size > 0)`: the chunks of 19 digits, from the least significant one. The fuel is the
-- number of chunks that the array has room for.
unfoldable pub chunk_loop : ℕ → BigInt → World → Out (List ℕ)
chunk_loop zero scratch w = returns ok [] w
chunk_loop (suc fuel) scratch w =
    let divided = divide_by_uint64 scratch chunk_base in
    if is_empty scratch.limbs
    then returns ok [] w
    else checked (budget_check w) [] λ w1.
      on_ok (chunk_loop fuel divided.0 w1) (λ chunks. chunks)
        λ chunks w2. returns ok (divided.1 ∷ chunks) w2

-- The `do ... while (limb > 0)` loop, for a buffer of so many digits, in front of the digits `after`.
unfoldable pub leading_digits : ℕ → ℕ → List ℕ → List ℕ
leading_digits zero limb after = after
leading_digits (suc fuel) limb after =
    let next = (48 + limb % 10) ∷ after in
    let more = leading_digits fuel (limb / 10) next in if limb / 10 == 0 then next else more

-- So many digits with leading zeros, in front of the digits `after`.
unfoldable pub padded_digits : ℕ → ℕ → List ℕ → List ℕ
padded_digits zero limb after = after
padded_digits (suc j) limb after = padded_digits j (limb / 10) ((48 + limb % 10) ∷ after)

unfoldable pub print_chunks : List ℕ → List ℕ
unfolding leading_digits padded_digits
print_chunks [] = []
print_chunks (c ∷ []) = leading_digits 20 c []
print_chunks (c ∷ d ∷ chunks) = print_chunks (d ∷ chunks) ++ padded_digits 19 c []

-- Each division takes at least 63 bits off.
unfoldable pub chunks_room : ℕ → Option ℕ
chunks_room size = elim (size_mul size 64) [
  | none ↦ none
  | some bits ↦ elim (size_add bits 62) [ none ↦ none | some rounded ↦ size_add (rounded / 63) 1 ]
]

unfoldable pub text_room : Bool → ℕ → Option ℕ
text_room negative count = elim (size_mul count 19) [
  | none ↦ none
  | some digits ↦ elim (size_add digits 2) [
    | none ↦ none
    | some room ↦ if negative then size_add room 1 else some room
  ]
]

-- NULL is any status but BIGINT_OK.
unfoldable pub to_string : BigInt → World → Out (List ℕ)
unfolding chunk_loop print_chunks
to_string b w =
    if is_empty b.limbs
    then checked (alloc 2 w) [] (λ w1. returns ok (48 ∷ []) w1)
    else on_ok (copy empty b w) (λ _. [])
        λ scratch w1. elim (chunks_room (length b.limbs)) [
          | none ↦ returns out_of_memory [] w1
          | some room ↦ elim (size_mul room 8) [
            | none ↦ returns out_of_memory [] w1
            | some bytes ↦ checked (alloc bytes w1) [] λ w2.
                on_ok (chunk_loop room scratch w2) (λ _. [])
                  λ chunks w3. elim (text_room b.is_negative (length chunks)) [
                    | none ↦ returns out_of_memory [] w3
                    | some capacity ↦ checked (alloc capacity w3) [] λ w4.
                        returns ok ((if b.is_negative then 45 ∷ [] else []) ++ print_chunks chunks)
                          w4
                  ]
          ]
        ]
