-- ===== src/BigInt/Magnitude/Add.antt =====
-- The loops of `bigint_add_abs`, `bigint_add_uint64` and `bigint_subtract_abs`. A list stands for the
-- limbs from index `i` on; a limb past the end of an operand reads as 0.
pub mod Sums
pub mod Differences
pub mod Words
pub mod Word
use num_forge.Base.{
  ℕ, zero, suc, ◌+◌, ◌*◌, ◌<◌, ◌≤◌, ◌≡◌, refl, List, [], ◌∷◌, arith, radix, IsLimb, All, length,
  Bool, true, false, ◌&&◌, ◌||◌, if◌then◌else◌, ltb, ◌==◌, bit, not, u64, sub_u64, max,
}
use num_forge.BigInt.Magnitude.Value.{value}

abbrev pub limb : List ℕ → ℕ
limb [] = 0
limb (x ∷ xs) = x

abbrev pub rest : List ℕ → List ℕ
rest [] = []
rest (x ∷ xs) = xs

-- One round: the sum limb and the carry out.
abbrev pub add_with_carry : ℕ → ℕ → ℕ → ℕ × ℕ
add_with_carry x y carry =
    let sum = u64 (x + y) in
    let new_carry = bit (ltb sum x) in
    let final_sum = u64 (sum + carry) in (final_sum, if ltb final_sum sum then 1 else new_carry)

-- `for (i = 0; i < max_size; i++)`, and the carry that is stored above it.
unfoldable pub add_loop : ℕ → List ℕ → List ℕ → ℕ → List ℕ
add_loop zero a b carry = if carry == 0 then [] else carry ∷ []
add_loop (suc n) a b carry =
    let (s, c) = add_with_carry (limb a) (limb b) carry in s ∷ add_loop n (rest a) (rest b) c

unfoldable pub add_limbs : List ℕ → List ℕ → List ℕ
unfolding add_loop
add_limbs a b = add_loop (max (length a) (length b)) a b 0

-- `bigint_add_uint64` from `index = 1` on: 1 is carried until a limb does not wrap.
unfoldable pub increment_loop : List ℕ → List ℕ
increment_loop [] = 1 ∷ []
increment_loop (x ∷ xs) =
    let more = increment_loop xs in
    if ltb (u64 (x + 1)) x then u64 (x + 1) ∷ more else u64 (x + 1) ∷ xs

unfoldable pub add_word : List ℕ → ℕ → List ℕ
unfolding increment_loop
add_word [] amount = if amount == 0 then [] else amount ∷ []
add_word (x ∷ xs) amount =
    if amount == 0
    then x ∷ xs
    else if ltb (u64 (x + amount)) x
    then u64 (x + amount) ∷ increment_loop xs
    else u64 (x + amount) ∷ xs

-- One round of the subtraction: the difference limb and the borrow out.
abbrev pub sub_with_borrow : ℕ → ℕ → ℕ → ℕ × ℕ
sub_with_borrow x y borrow =
    (sub_u64 (sub_u64 x y) borrow, bit (ltb x y || (not (borrow == 0) && x == y)))

unfoldable pub sub_loop : List ℕ → List ℕ → ℕ → List ℕ
sub_loop [] b borrow = []
sub_loop (x ∷ a) b borrow =
    let (d, c) = sub_with_borrow x (limb b) borrow in d ∷ sub_loop a (rest b) c

unfoldable pub sub_limbs : List ℕ → List ℕ → List ℕ
unfolding sub_loop
sub_limbs a b = sub_loop a b 0
