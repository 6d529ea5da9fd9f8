-- ===== src/BigInt/Zeros.antt =====
-- `bigint_strip_decimal_zeros_classic` and `bigint_strip_decimal_zeros` of src/core/bigint/bigint.c:
-- the decimal zeros at the end of a number are divided out, and counted. A call of the first routine
-- that fails inside a division leaves the object half divided in the source, and undivided here; the
-- second one calls it for less than 128 limbs, where no division polls the budget.
pub mod Contract
pub mod Counting
pub mod Stripping
use num_forge.Base.{
  ℕ, zero, suc, ◌+◌, ◌-◌, ◌*◌, ◌/◌, ◌%◌, ◌<◌, ◌≡◌, Bool, true, false, not, List, [], ◌∷◌, length,
  if◌then◌else◌, ◌==◌, ltb, leb, u64, uint64_max,
}
use num_forge.Runtime.Budget.{World, budget_check, polls}
use num_forge.BigInt.Types.{BigInt, ok, value_too_large, Out, returns, checked, on_ok}
use num_forge.BigInt.Storage.{normalize}
use num_forge.BigInt.Magnitude.Divide.{divide_limbs}
use num_forge.BigInt.Text.{chunk_base}
use num_forge.BigInt.Magnitude.Value.{value}
use num_forge.BigInt.Zeros.Contract.{InverseStripping}

-- The remainder by 10, from the remainders of the limbs.
unfoldable pub remainder_ten : ℕ → List ℕ → ℕ
remainder_ten r [] = r
remainder_ten r (x ∷ xs) = remainder_ten ((r + 6 * (x % 10)) % 10) xs

-- `remainder`, `divisor` and `count` of a round.
pub record Round : Type 0 where
  pub remainder : ℕ
  pub divisor : ℕ
  pub count : ℕ

-- `while (remainder % 10U == 0U)`, with fuel: what is left of the remainder, the power of 10 and its
-- exponent.
unfoldable pub count_zeros : ℕ → ℕ → ℕ → ℕ → Round
count_zeros zero remainder divisor count = record {
  remainder = remainder;
  divisor = divisor;
  count = count;
}
count_zeros (suc fuel) remainder divisor count =
    let more = count_zeros fuel (remainder / 10) (u64 (divisor * 10)) (count + 1) in
    if remainder % 10 == 0
    then more
    else record { remainder = remainder; divisor = divisor; count = count }

-- What a round divides by.
unfoldable pub zeros_of : ℕ → Round
unfolding count_zeros
zeros_of remainder =
    if remainder == 0
    then record { remainder = 0; divisor = chunk_base; count = 19 }
    else count_zeros 19 remainder 1 0

-- The `for (;;)` loop, with fuel: a round that is not the last one divides by 10 ^ 19.
unfoldable pub strip_loop : ℕ → BigInt → ℕ → World → Out (BigInt × ℕ)
unfolding zeros_of
strip_loop zero b removed w = returns ok (b, removed) w
strip_loop (suc fuel) b removed w =
    checked (budget_check w) (b, removed)
      λ w1.
        checked (polls (length b.limbs) 1 w1) (b, removed)
          λ w2.
            let round = zeros_of (divide_limbs chunk_base b.limbs).1 in
            let next = normalize (record b { limbs = (divide_limbs round.divisor b.limbs).0 }) in
            if round.count == 0
            then returns ok (b, removed) w2
            else if ltb (uint64_max - round.count) removed
            then returns value_too_large (b, removed) w2
            else checked (polls (length b.limbs) 1 w2) (b, removed)
                λ w3.
                  let more = strip_loop fuel next (removed + round.count) w3 in
                  if not (round.remainder == 0)
                  then returns ok (next, removed + round.count) w3
                  else more

unfoldable pub strip_classic : BigInt → World → Out (BigInt × ℕ)
unfolding remainder_ten strip_loop
strip_classic b w = elim b.limbs [
  | [] ↦ returns ok (b, 0) w
  | x ∷ xs ↦
      checked (polls (length xs) 1 w) (b, 0)
        λ w1.
          if not (remainder_ten (x % 10) xs == 0)
          then returns ok (b, 0) w1
          else strip_loop (suc (value b.limbs)) b 0 w1
]

-- `bigint_strip_decimal_zeros`, whose routine for 128 limbs or more is an interface.
module _ (inverse : InverseStripping) where
  unfoldable pub strip_decimal_zeros : BigInt → World → Out (BigInt × ℕ)
  unfolding strip_classic
  strip_decimal_zeros b w =
      checked (budget_check w) (b, 0)
        λ w1.
          on_ok (if leb 128 (length b.limbs) then inverse.strip b 27 w1 else strip_classic b w1)
            (λ r. r) λ r w2. checked (budget_check w2) r (λ w3. returns ok r w3)
