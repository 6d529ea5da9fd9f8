-- ===== src/BigInt/Magnitude/Multiply/WordProduct.antt =====
-- The word product is exact, and the rounds built on it lose no carry.
use native.Mathlib.Nat.{mul-le-mul}
use num_forge.Base.{
  ℕ, ◌+◌, ◌-◌, ◌*◌, ◌/◌, ◌%◌, ◌^◌, ◌<◌, ◌≤◌, ◌≡◌, arith, radix, u64, bit_and, bit_or,
}
use num_forge.Base.Bits.{bit_and-mask, bit_or-field}
use num_forge.BigInt.Magnitude.Multiply.{multiply_u64_u64, scale_word, accumulate_word}

abbrev half : ℕ
half = 2 ^ 32

product_bound : (m x y : ℕ) → x ≤ m → y ≤ m → x * y ≤ m * m
product_bound m x y p q = mul-le-mul p q

split_product :
    (a b a1 a0 b1 b0 : ℕ)
    → a ≡ half * a1 + a0
    → b ≡ half * b1 + b0
    → a * b ≡ radix * (a1 * b1) + half * (a1 * b0) + half * (a0 * b1) + a0 * b0
split_product a b a1 a0 b1 b0 p q = rw (p, q) (omega arith)

-- The low word is put together from the low halves of its parts.
low_word :
    (p00 middle : ℕ)
    → bit_or (bit_and p00 0xffff_ffff) (u64 (middle * half)) ≡ p00 % half + middle % half * half
low_word p00 middle =
    let shifted : u64 (middle * half) ≡ middle % half * half = omega arith in
    rw (shifted, bit_and-mask 32 p00) (bit_or-field 32 (middle % half) (p00 % half) (omega arith))

-- The words that the four products give, if none of the sums wraps.
abbrev low_of : ℕ → ℕ → ℕ → ℕ → ℕ
low_of p00 p01 p10 p11 = p00 % half + (p00 / half + p01 % half + p10 % half) % half * half

abbrev high_of : ℕ → ℕ → ℕ → ℕ → ℕ
high_of p00 p01 p10 p11 =
    p11 + p01 / half + p10 / half + (p00 / half + p01 % half + p10 % half) / half

abbrev largest : ℕ
largest = (half - 1) * (half - 1)

multiply_words :
    (a b : ℕ)
    → a < radix
    → b < radix
    → let p00 = a % half * (b % half) in
      let p01 = a % half * (b / half) in
      let p10 = a / half * (b % half) in
      let p11 = a / half * (b / half) in
      ((multiply_u64_u64 a b).1 ≡ low_of p00 p01 p10 p11)
      × ((multiply_u64_u64 a b).0 ≡ high_of p00 p01 p10 p11)
unfolding multiply_u64_u64
multiply_words a b p q =
    let b00 = product_bound (half - 1) (a % half) (b % half) (omega arith) (omega arith) in
    let b01 = product_bound (half - 1) (a % half) (b / half) (omega arith) (omega arith) in
    let b10 = product_bound (half - 1) (a / half) (b % half) (omega arith) (omega arith) in
    let b11 = product_bound (half - 1) (a / half) (b / half) (omega arith) (omega arith) in
    (rw low_word (omega arith), omega arith)

-- `bigint_multiply_u64_u64` returns two words, and `high * 2 ^ 64 + low` is the product of the words.
pub multiply_u64_u64_lem :
    (a b : ℕ)
    → a < radix
    → b < radix
    → ((multiply_u64_u64 a b).1 + radix * (multiply_u64_u64 a b).0 ≡ a * b)
      × ((multiply_u64_u64 a b).1 < radix)
      × ((multiply_u64_u64 a b).0 < radix)
multiply_u64_u64_lem a b p q =
    let words = multiply_words a b p q in
    let product =
      split_product a b (a / half) (a % half) (b / half) (b % half) (omega arith) (omega arith) in
    let b00 = product_bound (half - 1) (a % half) (b % half) (omega arith) (omega arith) in
    let b01 = product_bound (half - 1) (a % half) (b / half) (omega arith) (omega arith) in
    let b10 = product_bound (half - 1) (a / half) (b % half) (omega arith) (omega arith) in
    let b11 = product_bound (half - 1) (a / half) (b / half) (omega arith) (omega arith) in
    rw (words.0, words.1) (omega arith, omega arith, omega arith)

pub word_bound : (x y : ℕ) → x < radix → y < radix → x * y ≤ (radix - 1) * (radix - 1)
word_bound x y p q = product_bound (radix - 1) x y (omega arith) (omega arith)

-- A scaling round: limb and carry hold the product and the carry in.
pub scale_word_lem :
    (x multiplier carry : ℕ)
    → x < radix
    → multiplier < radix
    → carry < radix
    → ((scale_word x multiplier carry).0 + radix * (scale_word x multiplier carry).1
        ≡ x * multiplier + carry)
      × ((scale_word x multiplier carry).0 < radix)
      × ((scale_word x multiplier carry).1 < radix)
unfolding scale_word
scale_word_lem x multiplier carry p q r =
    ground (arith, multiply_u64_u64_lem x multiplier p q, word_bound x multiplier p q)

-- A schoolbook round: limb and carry hold the product, the old limb and the carry in.
pub accumulate_word_lem :
    (x y product carry : ℕ)
    → x < radix
    → y < radix
    → product < radix
    → carry < radix
    → ((accumulate_word x y product carry).0 + radix * (accumulate_word x y product carry).1
        ≡ product + x * y + carry)
      × ((accumulate_word x y product carry).0 < radix)
      × ((accumulate_word x y product carry).1 < radix)
unfolding accumulate_word
accumulate_word_lem x y product carry p q r s =
    ground (arith, multiply_u64_u64_lem x y p q, word_bound x y p q)
