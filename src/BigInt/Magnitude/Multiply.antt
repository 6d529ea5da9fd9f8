-- ===== src/BigInt/Magnitude/Multiply.antt =====
-- The multiplication loops: `bigint_multiply_u64_u64`, the loop of `bigint_multiply_by_uint64`, and
-- the schoolbook loops of `bigint_mul`.
pub mod WordProduct
pub mod Scale
pub mod School
use num_forge.Base.{
  ℕ, zero, suc, ◌+◌, ◌*◌, List, [], ◌∷◌, Bool, true, false, ◌&&◌, not, if◌then◌else◌, ltb, ◌==◌,
  bit, bit_and, bit_or, u32, u64, ◌<<<◌, ◌>>>◌, radix,
}
use num_forge.Runtime.Budget.{World, budget_check, poll}
use num_forge.BigInt.Types.{ok, Out, returns, checked}
use num_forge.BigInt.Magnitude.Add.{limb, rest}

-- The high and the low word of the product, from the four products of halves.
unfoldable pub multiply_u64_u64 : ℕ → ℕ → ℕ × ℕ
multiply_u64_u64 a b =
    let a0 = u32 a in
    let a1 = a >>> 32 in
    let b0 = u32 b in
    let b1 = b >>> 32 in
    let p00 = u64 (a0 * b0) in
    let p01 = u64 (a0 * b1) in
    let p10 = u64 (a1 * b0) in
    let p11 = u64 (a1 * b1) in
    let middle = u64 (u64 (p00 >>> 32 + u32 p01) + u32 p10) in
    (
      u64 (u64 (u64 (p11 + p01 >>> 32) + p10 >>> 32) + middle >>> 32),
      bit_or (bit_and p00 0xffff_ffff) (middle <<< 32),
    )

-- One round of the scaling loop: the new limb and the carry out.
unfoldable pub scale_word : ℕ → ℕ → ℕ → ℕ × ℕ
scale_word x multiplier carry =
    let (high, low) = multiply_u64_u64 x multiplier in
    let low' = u64 (low + carry) in (low', if ltb low' low then u64 (high + 1) else high)

-- `for (i = 0; i < size; i++)` from index `i` on: the limbs as the loop leaves them, and its carry.
-- The budget is asked at every 256th limb; a refusal leaves the limbs from there on as they were.
unfoldable pub scale_loop : ℕ → List ℕ → ℕ → ℕ → World → Out (List ℕ × ℕ)
scale_loop i [] multiplier carry w = returns ok ([], carry) w
scale_loop i (x ∷ xs) multiplier carry w =
    checked (poll i w) (x ∷ xs, carry)
      λ w'.
        let (low, high) = scale_word x multiplier carry in
        let more = scale_loop (i + 1) xs multiplier high w' in
        returns more.status (low ∷ more.object.0, more.object.1) more.world

-- One inner round: `product[i + j]` takes the word product and the carry.
unfoldable pub accumulate_word : ℕ → ℕ → ℕ → ℕ → ℕ × ℕ
accumulate_word x y product carry =
    let (high, low) = multiply_u64_u64 x y in
    let sum = u64 (product + low) in
    let overflow1 = bit (ltb sum low) in
    let sum2 = u64 (sum + carry) in
    let overflow2 = bit (ltb sum2 sum) in (sum2, u64 (u64 (high + overflow1) + overflow2))

-- The inner loop over `a` for one limb `y` of `b`, on the buffer from `product[i]` on; after it
-- `product[i + a->size] = carry`.
unfoldable pub row : List ℕ → ℕ → List ℕ → ℕ → List ℕ
row a y [] carry = []
row [] y (p ∷ product) carry = carry ∷ product
row (x ∷ a) y (p ∷ product) carry =
    let (s, c) = accumulate_word x y p carry in s ∷ row a y product c

-- The outer loop over `b`, with a budget check for each row.
unfoldable pub rows : List ℕ → List ℕ → List ℕ → World → Out (List ℕ)
rows a [] product w = returns ok product w
rows a (y ∷ b) product w = checked (budget_check w) product λ w'.
    let product' = row a y product 0 in
    let more = rows a b (rest product') w' in
    returns more.status (limb product' ∷ more.object) more.world
