-- ===== src/BigInt/Magnitude/Divide/Serial.antt =====
-- The bit-serial division computes the quotient and the remainder.
use native.Mathlib.Nat.{
  mul-le-mul_left, mul-le-mul_right, div-div-eq-div-mul, pow-succ', one-le-pow, div-add-mod,
  div-eq_of_lt-le,
}
use num_forge.Base.{
  ℕ, zero, suc, ◌+◌, ◌-◌, ◌*◌, ◌/◌, ◌%◌, ◌^◌, ◌<◌, ◌≤◌, ◌≡◌, ◌&&◌, ◌||◌, not, leb, ◌==◌, arith, inl,
  inr, radix, u64, sub_u64, bit_and, bit_or, ◌<<<◌, ◌>>>◌, ap, ap₂, sym, ◌∙◌, Bool-cases,
}
use num_forge.Base.Bits.{bit_or-digit, bit_and-mask}
use num_forge.BigInt.Magnitude.Divide.{divide_wide, serial_round, serial_loop, divide_serial}

-- What a round gives: a binary digit on the quotient, and a remainder below the divisor.
record Divided (divisor quotient remainder input_bit : ℕ) (next : ℕ × ℕ) : Type 0 where
  equation : next.0 * divisor + next.1 ≡ quotient * 2 * divisor + remainder * 2 + input_bit
  below : next.1 < divisor
  small : next.0 ≤ quotient * 2 + 1

gap-eq : (d r : ℕ) → d < radix → r < d → sub_u64 d r ≡ d - r
gap-eq d r hd hr = omega arith

takes-eq :
    (d r b : ℕ)
    → d < radix
    → r < d
    → b ≤ 1
    → (leb (d - r) r || (not (b == 0) && (r == sub_u64 (d - r) 1))) ≡ leb d (r * 2 + b)
takes-eq d r zero hd hr hb = ground arith
takes-eq d r (suc zero) hd hr hb = ground arith
takes-eq d r (suc (suc b)) hd hr hb = absurd (omega arith)

taken-eq :
    (d r b : ℕ)
    → d < radix
    → r < d
    → b ≤ 1
    → d ≤ r * 2 + b
    → u64 (sub_u64 r (d - r) + b) ≡ r * 2 + b - d
taken-eq d r b hd hr hb h = omega arith

digit_up : (q b : ℕ) → b ≤ 1 → q * 2 + 1 < radix → bit_or (q <<< 1) b ≡ q * 2 + b
digit_up q b h k = ap (λ (t : ℕ). bit_or t b) (omega arith) ∙ bit_or-digit q b h

serial_round-Divided :
    (divisor quotient remainder input_bit : ℕ)
    → divisor < radix
    → remainder < divisor
    → input_bit ≤ 1
    → quotient * 2 + 1 < radix
    → Divided divisor quotient remainder input_bit
        (serial_round divisor quotient remainder input_bit)
unfolding serial_round
serial_round-Divided d q r b hd hr hb hq =
    rw (gap-eq d r hd hr, takes-eq d r b hd hr hb)
      (elim (Bool-cases (leb d (r * 2 + b))) [
        | inl takes ↦
            let room : d ≤ r * 2 + b = ground (arith, takes) in
            rw (takes, digit_up q 1 (omega arith) hq, taken-eq d r b hd hr hb room)
              (record { equation = omega arith; below = omega arith; small = omega arith })
        | inr leaves ↦
            let short : r * 2 + b < d = ground (arith, leaves) in
            let twice : q <<< 1 ≡ q * 2 = omega (arith, hq) in
            rw (leaves, twice, digit_up r b hb (omega (arith, short, hd)))
              (record { equation = omega arith; below = omega (arith, short); small = omega arith })
      ])

-- The next bit of a number below the bits that are done.
bits_split : (x k : ℕ) → x % 2 ^ suc k ≡ x / 2 ^ k % 2 * 2 ^ k + x % 2 ^ k
bits_split x k =
    let halves : x / 2 ^ k / 2 ≡ x / 2 ^ suc k =
      div-div-eq-div-mul x (2 ^ k) 2 ∙ ap (λ (t : ℕ). x / t) (omega (arith, pow-succ' 2 k)) in
    let digits : x / 2 ^ k ≡ x / 2 ^ suc k * 2 + x / 2 ^ k % 2 = omega (arith, halves) in
    omega (
      arith,
      div-add-mod x (2 ^ k),
      div-add-mod x (2 ^ suc k),
      ap (λ (t : ℕ). 2 ^ k * t) digits,
      ap (λ (t : ℕ). t * (x / 2 ^ suc k)) (pow-succ' 2 k),
    )

scaled :
    (n d r q b p t : ℕ)
    → n * d + t ≡ q * 2 * d + r * 2 + b
    → n * p * d + t * p ≡ q * (2 * p) * d + r * (2 * p) + b * p
scaled n d r q b p t e = omega (arith, ap (λ (z : ℕ). z * p) e)

serial_loop_lem :
    (n low d q r : ℕ)
    → d < radix
    → r < d
    → suc q * 2 ^ n ≤ radix
    → ((serial_loop n low d q r).0 * d + (serial_loop n low d q r).1
        ≡ q * 2 ^ n * d + r * 2 ^ n + low % 2 ^ n)
      × ((serial_loop n low d q r).1 < d)
unfolding serial_loop
serial_loop_lem zero low d q r hd hr h = (omega arith, hr)
serial_loop_lem (suc k) low d q r hd hr h =
    let b = bit_and (low >>> k) 1 in
    let digit : b ≡ low / 2 ^ k % 2 = bit_and-mask 1 (low >>> k) in
    let next = serial_round d q r b in
    let room : suc q * 2 * 2 ^ k ≤ radix =
      omega (arith, h, ap (λ (t : ℕ). suc q * t) (pow-succ' 2 k)) in
    let p_pos = one-le-pow k 2 (omega arith) in
    let single : suc q * 2 * 1 ≤ suc q * 2 * 2 ^ k = mul-le-mul_left (suc q * 2) p_pos in
    let round =
      serial_round-Divided d q r b hd hr (omega (arith, digit)) (omega (arith, single, room)) in
    let fits : suc next.0 * 2 ^ k ≤ suc q * 2 * 2 ^ k =
      mul-le-mul_right (2 ^ k) (omega (arith, round.small)) in
    let below = serial_loop_lem k low d next.0 next.1 hd round.below (omega (arith, fits, room)) in
    (
      below.0
          ∙ omega (
            arith,
            scaled next.0 d r q b (2 ^ k) next.1 round.equation,
            bits_split low k,
            ap (λ (t : ℕ). t * 2 ^ k) digit,
            ap (λ (t : ℕ). q * t * d) (pow-succ' 2 k),
            ap (λ (t : ℕ). r * t) (pow-succ' 2 k),
          ),
      below.1,
    )

abbrev pair : ℕ → ℕ → ℕ × ℕ
pair x y = (x, y)

quotient_unique : (q r d n : ℕ) → q * d + r ≡ n → r < d → pair q r ≡ pair (n / d) (n % d)
quotient_unique q r d n e h =
    let quotient : n / d ≡ q = div-eq_of_lt-le d (omega (arith, e)) (omega (arith, e, h)) in
    let remainder : n % d ≡ r = omega (arith, div-add-mod n d, e, ap (λ (t : ℕ). d * t) quotient) in
    ap₂ pair (sym quotient) (sym remainder)

-- The build without a 128-bit type divides like the one with it: for a divisor that is above the high
-- word, the bit-serial loop returns the quotient and the remainder of the two words.
pub divide_serial_lem :
    (high low divisor : ℕ)
    → divisor < radix
    → high < divisor
    → low < radix
    → divide_serial high low divisor ≡ divide_wide high low divisor
unfolding divide_serial
divide_serial_lem high low d hd hh hl =
    let done = serial_loop_lem 64 low d 0 high hd hh (omega arith) in
    quotient_unique _ _ d (high * radix + low) (done.0 ∙ omega (arith, hl)) done.1
