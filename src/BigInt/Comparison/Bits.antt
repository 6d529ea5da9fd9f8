-- ===== src/BigInt/Comparison/Bits.antt =====
-- Single bits and the number of bits of a magnitude.
use native.Mathlib.Nat.{one-le-pow, pow-succ', zero-div, add-mul-div_left, mul-le-mul_right}
use num_forge.Base.{
  ℕ, zero, suc, ◌+◌, ◌-◌, ◌*◌, ◌/◌, ◌%◌, ◌^◌, ◌<◌, ◌≤◌, ◌≡◌, refl, List, [], ◌∷◌, length, drop,
  get_or, leb, ◌==◌, arith, inl, inr, radix, ap, sym, ◌∙◌, All, IsLimb, Bool-cases, ==→eq,
}
use num_forge.Base.Bits.{bit_and-mask}
use num_forge.BigInt.Types.{BigInt, IsValid}
use num_forge.BigInt.Magnitude.Value.{value, IsTrimmed, IsMagnitude, value_pos}
use num_forge.BigInt.Bitwise.Powers.{
  two_to, pow_split, pow_complement_even, pow_add, drop-quotient, drop_from, drop_past,
}
use num_forge.BigInt.Comparison.{get_bit, count_bits, limbs_bit_length, bit_length}

-- A bit inside a limb is a bit of any number that has the limb at its low end.
low_bit : (bits x v : ℕ) → bits < 64 → (x + radix * v) / 2 ^ bits % 2 ≡ x / 2 ^ bits % 2
low_bit bits x v h =
    let e = pow_complement_even bits h in
    let spread : x + radix * v ≡ x + 2 ^ bits * (2 * 2 ^ (63 - bits) * v) =
      omega (arith, ap (λ (t : ℕ). t * v) e) in
    rw (spread, add-mul-div_left x (2 * 2 ^ (63 - bits) * v) (one-le-pow bits 2 (omega arith)))
      (omega arith)

-- `bigint_get_bit` reads bit `n` of the magnitude, and 0 beyond its limbs.
pub get_bit_lem : (b : BigInt) (n : ℕ) → IsValid b → get_bit b n ≡ value b.limbs / 2 ^ n % 2
unfolding get_bit
get_bit_lem b n v = elim (Bool-cases (leb (length b.limbs) (n / 64))) [
  | inl past ↦
      rw
        (
          past,
          sym (drop-quotient n b.limbs v.magnitude.words),
          drop_past (n / 64) b.limbs (ground (arith, past)),
        )
        (ap (λ (t : ℕ). t % 2) (sym (zero-div (2 ^ (n % 64)))))
  | inr within ↦ rw within (
      bit_and-mask 1 _
      ∙ sym (low_bit (n % 64) _ (value (drop (suc (n / 64)) b.limbs)) (omega arith))
      ∙ ap (λ (t : ℕ). t / 2 ^ (n % 64) % 2)
          (sym (drop_from (n / 64) b.limbs (ground (arith, within))))
      ∙ ap (λ (t : ℕ). t % 2) (drop-quotient n b.limbs v.magnitude.words))
]

count_bits_zero : (fuel bits : ℕ) → count_bits fuel 0 bits ≡ bits
unfolding count_bits
count_bits_zero zero bits = refl
count_bits_zero (suc fuel) bits = refl

round_up : (top bits c : ℕ) → suc (top / 2) * 2 ^ (bits + 1) ≤ c → suc top * 2 ^ bits ≤ c
round_up top bits c h =
    let halves : suc top * 2 ^ bits ≤ suc (top / 2) * 2 * 2 ^ bits =
      mul-le-mul_right (2 ^ bits) (omega arith) in
    omega (arith, halves, ap (λ (t : ℕ). suc (top / 2) * t) (pow_add bits 1))

round_down : (top bits c : ℕ) → c ≤ 2 * (top / 2 * 2 ^ (bits + 1)) → c ≤ 2 * (top * 2 ^ bits)
round_down top bits c h =
    let halves : top / 2 * 2 * 2 ^ bits ≤ top * 2 ^ bits =
      mul-le-mul_right (2 ^ bits) (omega arith) in
    omega (arith, halves, ap (λ (t : ℕ). top / 2 * t) (pow_add bits 1))

last_round : (top bits : ℕ) → 0 < top → 2 ^ (bits + 1) ≤ 2 * (top * 2 ^ bits)
last_round top bits h =
    let one : 1 * 2 ^ bits ≤ top * 2 ^ bits = mul-le-mul_right (2 ^ bits) (omega arith) in
    omega (arith, one, pow_add bits 1)

-- The loop that counts the bits of a number below `2 ^ fuel`, on top of `bits` lower ones.
count_bits_bounds :
    (fuel top bits : ℕ)
    → top < 2 ^ fuel
    → (suc top * 2 ^ bits ≤ 2 ^ count_bits fuel top bits)
      × (0 < top → 2 ^ count_bits fuel top bits ≤ 2 * (top * 2 ^ bits))
unfolding count_bits
count_bits_bounds zero top bits h =
    let e : top ≡ 0 = omega arith in rw e (omega arith, λ p. absurd (omega (arith, e, p)))
count_bits_bounds (suc fuel) top bits h = elim (Bool-cases (top == 0)) [
  | inl none_left ↦ rw (none_left, ==→eq top 0 none_left) (omega arith, λ p. absurd (omega arith))
  | inr some_left ↦
      let below =
        count_bits_bounds fuel (top / 2) (bits + 1) (omega (arith, h, pow-succ' 2 fuel)) in
      rw some_left (
        round_up top bits _ below.0,
        λ p. elim (Bool-cases (top / 2 == 0)) [
          | inl last ↦
              rw (==→eq (top / 2) 0 last, count_bits_zero fuel (bits + 1)) (last_round top bits p)
          | inr more ↦ round_down top bits _ (below.1 (ground (arith, more)))
        ],
      )
]

pub top_pos : (x : ℕ) (xs : List ℕ) → IsTrimmed (x ∷ xs) → 0 < get_or (x ∷ xs) (length xs) 0
top_pos x [] h = h
top_pos x (y ∷ xs) h = top_pos y xs h

pub top_limb-IsLimb :
    (x : ℕ) (xs : List ℕ) → All IsLimb (x ∷ xs) → get_or (x ∷ xs) (length xs) 0 < 2 ^ 64
top_limb-IsLimb x [] w = w.0
top_limb-IsLimb x (y ∷ xs) w = top_limb-IsLimb y xs w.1

-- The most significant limb bounds the number.
pub top_bounds :
    (x : ℕ) (xs : List ℕ)
    → All IsLimb (x ∷ xs)
    → (get_or (x ∷ xs) (length xs) 0 * radix ^ length xs ≤ value (x ∷ xs))
      × (value (x ∷ xs) < suc (get_or (x ∷ xs) (length xs) 0) * radix ^ length xs)
top_bounds x [] w = omega arith
top_bounds x (y ∷ xs) w =
    let below = top_bounds y xs w.1 in
    let t = get_or (y ∷ xs) (length xs) 0 in
    let more = ap (λ (n : ℕ). t * n) (pow-succ' radix (length xs)) in
    omega (arith, below, more, pow-succ' radix (length xs), w.0)

limb_power : (n : ℕ) → 2 ^ (n * 64) ≡ radix ^ n
limb_power n = two_to (omega arith) ∙ pow_split n 0 ∙ omega arith

empty_bits : limbs_bit_length [] ≡ 0
unfolding limbs_bit_length
empty_bits = refl

bit_length_step :
    (x : ℕ) (xs : List ℕ)
    → limbs_bit_length (x ∷ xs) ≡ count_bits 64 (get_or (x ∷ xs) (length xs) 0) (length xs * 64)
unfolding limbs_bit_length
bit_length_step x xs = ap (λ (n : ℕ). count_bits 64 (get_or (x ∷ xs) n 0) (n * 64)) (omega arith)

bit_length_bounds :
    (xs : List ℕ)
    → IsMagnitude xs
    → (value xs < 2 ^ limbs_bit_length xs) × (0 < value xs → 2 ^ limbs_bit_length xs ≤ 2 * value xs)
bit_length_bounds [] m = rw empty_bits (omega arith, λ p. absurd (omega arith))
bit_length_bounds (x ∷ xs) m =
    let t = get_or (x ∷ xs) (length xs) 0 in
    let counted = count_bits_bounds 64 t (length xs * 64) (top_limb-IsLimb x xs m.words) in
    let bounds = top_bounds x xs m.words in
    let low = counted.1 (top_pos x xs m.trimmed) in
    let scaled = ap (λ (n : ℕ). t * n) (limb_power (length xs)) in
    let scaled_up = ap (λ (n : ℕ). suc t * n) (limb_power (length xs)) in
    rw (bit_length_step x xs)
      (omega (arith, counted.0, bounds.1, scaled_up), λ p. omega (arith, low, bounds.0, scaled))

empty_or_counted : (xs : List ℕ) → IsMagnitude xs → 2 ^ limbs_bit_length xs ≤ 2 * value xs + 1
empty_or_counted [] m = rw empty_bits (omega arith)
empty_or_counted (x ∷ xs) m =
    omega (arith, (bit_length_bounds (x ∷ xs) m).1 (value_pos x xs m.trimmed))

-- `bigint_bit_length` returns the one `n` with `|b| < 2 ^ n <= 2 * |b| + 1`, the number of bits of the
-- magnitude: 0 for 0, and for other numbers the `n` with `2 ^ (n - 1) <= |b| < 2 ^ n`.
pub bit_length_lem :
    (b : BigInt)
    → IsValid b
    → (value b.limbs < 2 ^ bit_length b) × (2 ^ bit_length b ≤ 2 * value b.limbs + 1)
bit_length_lem b v =
    ((bit_length_bounds b.limbs v.magnitude).0, empty_or_counted b.limbs v.magnitude)
