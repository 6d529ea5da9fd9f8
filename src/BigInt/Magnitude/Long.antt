-- ===== src/BigInt/Magnitude/Long.antt =====
-- The long division of `bigint_divmod_abs_core` in src/core/bigint/bigint.c: Algorithm D in radix 2 ^ 64,
-- for a divisor of two limbs or more.
pub mod Correction
pub mod Digits
pub mod Estimate
pub mod Normalize
pub mod Round
pub mod Subtract
use num_forge.Base.{
  ℕ, zero, suc, ◌+◌, ◌-◌, ◌*◌, ◌/◌, Bool, true, false, ◌&&◌, ◌||◌, not, List, [], ◌∷◌, ◌++◌, length,
  take, get_or, if◌then◌else◌, ltb, leb, ◌==◌, bit, bit_or, u64, sub_u64, uint64_max, ◌<<<◌, ◌>>>◌,
}
use num_forge.Runtime.Budget.{World, budget_check, polls}
use num_forge.BigInt.Types.{ok, Out, returns, on_ok, checked}
use num_forge.BigInt.Magnitude.Add.{limb, rest}
use num_forge.BigInt.Magnitude.Multiply.{multiply_u64_u64}
use num_forge.BigInt.Magnitude.Divide.{divide_wide}

-- `for (top; (top >> 63) == 0; top <<= 1) shift++`, with fuel; the top limb is not 0, so 63 rounds are
-- enough.
unfoldable pub leading_shift : ℕ → ℕ → ℕ → ℕ
leading_shift zero top shift = shift
leading_shift (suc fuel) top shift =
    let more = leading_shift fuel (top <<< 1) (shift + 1) in if top >>> 63 == 0 then more else shift

-- The limbs shifted up by less than a limb, and the carry out.
unfoldable pub shift_up : ℕ → ℕ → List ℕ → List ℕ × ℕ
shift_up shift carry [] = ([], carry)
shift_up shift carry (x ∷ xs) =
    let above = shift_up shift (if shift == 0 then 0 else x >>> (64 - shift)) xs in
    (bit_or (x <<< shift) carry ∷ above.0, above.1)

-- `while (!rest_overflow)`: the estimate is lowered while its product with the divisor's second limb is
-- too large. The divisor's top limb has its top bit, so the rest overflows after two rounds.
unfoldable pub correct_loop : ℕ → ℕ → ℕ → ℕ → ℕ → ℕ → ℕ
correct_loop zero estimate remainder third v1 v2 = estimate
correct_loop (suc fuel) estimate remainder third v1 v2 =
    let (high, low) = multiply_u64_u64 estimate v2 in
    let lowered = sub_u64 estimate 1 in
    let remainder' = u64 (remainder + v1) in
    let again = correct_loop fuel lowered remainder' third v1 v2 in
    if ltb high remainder || (high == remainder && leb low third)
    then estimate
    else if ltb remainder' remainder
    then lowered
    else again

-- The estimate of a quotient digit from the three top limbs of the numerator.
unfoldable pub quotient_estimate : ℕ → ℕ → ℕ → ℕ → ℕ → ℕ
unfolding correct_loop
quotient_estimate high low third v1 v2 =
    let remainder = u64 (low + v1) in
    let (estimate, left) = divide_wide high low v1 in
    if high == v1
    then (if ltb remainder low then uint64_max else correct_loop 2 uint64_max remainder third v1 v2)
    else correct_loop 2 estimate left third v1 v2

-- The estimate for a window `u`, one limb longer than the divisor.
abbrev pub window_estimate : List ℕ → List ℕ → ℕ
window_estimate v u =
    let n = length v in
    quotient_estimate (get_or u n 0) (get_or u (n - 1) 0) (get_or u (n - 2) 0) (get_or v (n - 1) 0)
      (get_or v (n - 2) 0)

-- A round of the multiplication and subtraction: the limb, the carry and the borrow.
unfoldable pub subtract_word : ℕ → ℕ → ℕ → ℕ → ℕ → ℕ × ℕ × ℕ
subtract_word estimate u v carry borrow =
    let (high, low) = multiply_u64_u64 estimate v in
    let low' = u64 (low + carry) in
    let difference = sub_u64 u low' in
    (
      sub_u64 difference borrow,
      u64 (high + bit (ltb low' low)),
      bit (ltb u low' || ltb difference borrow),
    )

-- The limbs of the window less the estimate times the divisor, and whether the result is negative.
unfoldable pub subtract_product : ℕ → List ℕ → List ℕ → ℕ → ℕ → List ℕ × Bool
subtract_product estimate u [] carry borrow =
    let difference = sub_u64 (limb u) carry in
    (sub_u64 difference borrow ∷ [], ltb (limb u) carry || ltb difference borrow)
subtract_product estimate u (v ∷ vs) carry borrow =
    let (x, carry', borrow') = subtract_word estimate (limb u) v carry borrow in
    let more = subtract_product estimate (rest u) vs carry' borrow' in (x ∷ more.0, more.1)

-- The divisor added back.
unfoldable pub add_back : List ℕ → List ℕ → ℕ → List ℕ
add_back u [] carry = u64 (limb u + carry) ∷ []
add_back u (v ∷ vs) carry =
    let sum = u64 (limb u + v) in
    let total = u64 (sum + carry) in
    total ∷ add_back (rest u) vs (bit (ltb sum (limb u) || ltb total sum))

-- A round: the digit for the window `u`, one limb longer than the divisor, and what it leaves.
unfoldable pub long_round : List ℕ → List ℕ → World → Out (ℕ × List ℕ)
unfolding subtract_product add_back
long_round v u w =
    let n = length v in
    let estimate = window_estimate v u in
    let (difference, negative) = subtract_product estimate u v 0 0 in
    checked (budget_check w) (0, u)
      λ w1.
        checked (polls n 0 w1) (0, u)
          λ w2.
            if not negative
            then returns ok (estimate, difference) w2
            else checked (polls n 0 w2) (0, u)
                λ w3. returns ok (sub_u64 estimate 1, add_back difference v 0) w3

-- The rounds for the limbs of the numerator below `top`, from the most significant one down: the digits
-- and the last window.
unfoldable pub long_loop : List ℕ → List ℕ → List ℕ → World → Out (List ℕ × List ℕ)
long_loop v top [] w = returns ok ([], top) w
long_loop v top (x ∷ xs) w =
    on_ok (long_loop v top xs w) (λ r. r)
      λ above w'.
        on_ok (long_round v (x ∷ take (length v) above.1) w') (λ _. above)
          λ round w''. returns ok (round.0 ∷ above.0, round.1) w''
