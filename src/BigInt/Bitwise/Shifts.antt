-- ===== src/BigInt/Bitwise/Shifts.antt =====
-- The shifts multiply and divide by powers of two.
use native.Mathlib.Nat.{
  one-le-pow, div-add-mod, mod-lt, mul-le-mul_right, mul-le-mul_left, div-lt_iff_lt-mul,
  div-le_self, zero-div, mul-add-div, div-eq_of_lt,
}
use num_forge.Base.{
  ℕ, suc, ◌+◌, ◌-◌, ◌*◌, ◌/◌, ◌%◌, ◌^◌, ◌<◌, ◌≤◌, ◌≡◌, refl, List, [], ◌∷◌, arith, radix, IsLimb,
  All, length, ap, sym, ◌∙◌, bit_or, ◌<<<◌, ◌>>>◌,
}
use num_forge.Base.Bits.{bit_or-field}
use num_forge.BigInt.Magnitude.Value.{value}
use num_forge.BigInt.Bitwise.{shift_left_loop, shift_right_loop}
use num_forge.BigInt.Bitwise.Powers.{pow_complement}

-- With `p * q` the radix, `x * p` is cut into the part of `x` from `q` on, in whole limbs, and the rest.
pub cut_product : (x p q : ℕ) → p * q ≡ radix → x * p ≡ radix * (x / q) + x % q * p
cut_product x p q e =
    omega (arith, ap (λ (t : ℕ). t * p) (div-add-mod x q), ap (λ (t : ℕ). t * (x / q)) e)

wrap_product : (x p q : ℕ) → p * q ≡ radix → 0 < q → (x * p) % radix ≡ x % q * p
wrap_product x p q e h =
    let below : suc (x % q) * p ≤ q * p = mul-le-mul_right p (mod-lt x h) in
    let some_p : 0 < p = grind (arith, e) in
    rw (cut_product x p q e) (omega (arith, below, e, some_p))

-- A limb of the left shift: the bits of the limb below and the bits of `x` that stay.
pub shifted_limb :
    (bits x carry : ℕ)
    → bits ≤ 64
    → carry < 2 ^ bits
    → bit_or carry (x <<< bits) ≡ carry + x % 2 ^ (64 - bits) * 2 ^ bits
shifted_limb bits x carry h c =
    rw
      (wrap_product x (2 ^ bits) (2 ^ (64 - bits)) (pow_complement bits h)
        (one-le-pow (64 - bits) 2 (omega arith)))
      (bit_or-field bits (x % 2 ^ (64 - bits)) carry c)

pub value-shift_left_loop :
    (bits : ℕ) (xs : List ℕ) (carry : ℕ)
    → bits ≤ 64
    → carry < 2 ^ bits
    → All IsLimb xs
    → value (shift_left_loop bits xs carry) ≡ value xs * 2 ^ bits + carry
unfolding shift_left_loop
value-shift_left_loop bits [] carry h c w = omega arith
value-shift_left_loop bits (x ∷ xs) carry h c w =
    let q = 2 ^ (64 - bits) in
    let e = pow_complement bits h in
    let q_pos = one-le-pow (64 - bits) 2 (omega arith) in
    let above : x / q < 2 ^ bits = (div-lt_iff_lt-mul q_pos).1 (omega (arith, w.0, e)) in
    omega (
      arith,
      shifted_limb bits x carry h c,
      cut_product x (2 ^ bits) q e,
      value-shift_left_loop bits xs (x / q) h above w.1,
    )

-- A limb of the right shift: the high bits of `x` and the bits that fall out of the limb above.
merged_limb :
    (bits x y : ℕ)
    → bits ≤ 64
    → x < radix
    → bit_or (x >>> bits) (y <<< (64 - bits)) ≡ x / 2 ^ bits + y % 2 ^ bits * 2 ^ (64 - bits)
merged_limb bits x y h w =
    let p = 2 ^ bits in
    let q = 2 ^ (64 - bits) in
    let e : q * p ≡ radix = omega (arith, pow_complement bits h) in
    let p_pos = one-le-pow bits 2 (omega arith) in
    let low : x / p < q = (div-lt_iff_lt-mul p_pos).1 (omega (arith, w, e)) in
    rw (wrap_product y q p e p_pos) (bit_or-field (64 - bits) (y % p) (x / p) low)

shift_right_loop_step :
    (bits x y : ℕ) (xs : List ℕ)
    → shift_right_loop bits (x ∷ y ∷ xs)
      ≡ bit_or (x >>> bits) (y <<< (64 - bits)) ∷ shift_right_loop bits (y ∷ xs)
unfolding shift_right_loop
shift_right_loop_step bits x y xs = refl

shift_right_loop_one : (bits x : ℕ) → shift_right_loop bits (x ∷ []) ≡ (x >>> bits) ∷ []
unfolding shift_right_loop
shift_right_loop_one bits x = refl

join_limb :
    (bits x y v t : ℕ)
    → bits ≤ 64
    → x < radix
    → 2 ^ bits * v + y % 2 ^ bits ≡ t
    → 2 ^ bits * (bit_or (x >>> bits) (y <<< (64 - bits)) + radix * v) + x % 2 ^ bits
      ≡ x + radix * t
join_limb bits x y v t h w e = omega (
  arith,
  ap (λ (n : ℕ). 2 ^ bits * n) (merged_limb bits x y h w),
  ap (λ (n : ℕ). n * (y % 2 ^ bits)) (pow_complement bits h),
  div-add-mod x (2 ^ bits),
  e,
)

value-shift_right_loop :
    (bits x : ℕ) (xs : List ℕ)
    → bits ≤ 64
    → All IsLimb (x ∷ xs)
    → 2 ^ bits * value (shift_right_loop bits (x ∷ xs)) + x % 2 ^ bits ≡ value (x ∷ xs)
value-shift_right_loop bits x [] h w =
    rw (shift_right_loop_one bits x) (omega (arith, div-add-mod x (2 ^ bits)))
value-shift_right_loop bits x (y ∷ xs) h w = rw (shift_right_loop_step bits x y xs) (
    join_limb bits x y (value (shift_right_loop bits (y ∷ xs))) (value (y ∷ xs)) h w.0
      (value-shift_right_loop bits y xs h w.1))

-- The words of the shifts are limbs.
pub shift_left_loop-words :
    (bits : ℕ) (xs : List ℕ) (carry : ℕ)
    → bits ≤ 64
    → carry < 2 ^ bits
    → All IsLimb xs
    → All IsLimb (shift_left_loop bits xs carry)
unfolding shift_left_loop
shift_left_loop-words bits [] carry h c w = (
  omega (
    arith,
    c,
    pow_complement bits h,
    one-le-pow (64 - bits) 2 (omega arith),
    mul-le-mul_left (2 ^ bits) (one-le-pow (64 - bits) 2 (omega arith)),
  ),
  tt,
)
shift_left_loop-words bits (x ∷ xs) carry h c w =
    let q = 2 ^ (64 - bits) in
    let q_pos = one-le-pow (64 - bits) 2 (omega arith) in
    let e = pow_complement bits h in
    let above : x / q < 2 ^ bits = (div-lt_iff_lt-mul q_pos).1 (omega (arith, w.0, e)) in
    let stays : suc (x % q) * 2 ^ bits ≤ q * 2 ^ bits =
      mul-le-mul_right (2 ^ bits) (mod-lt x q_pos) in
    (
      rw (shifted_limb bits x carry h c) (omega (arith, c, stays, e)),
      shift_left_loop-words bits xs (x / q) h above w.1,
    )

pub length-shift_left_loop :
    (bits : ℕ) (xs : List ℕ) (carry : ℕ) → length (shift_left_loop bits xs carry) ≡ suc (length xs)
unfolding shift_left_loop
length-shift_left_loop bits [] carry = refl
length-shift_left_loop bits (x ∷ xs) carry =
    ap suc (length-shift_left_loop bits xs (x >>> (64 - bits)))

joined-IsLimb :
    (bits x y : ℕ) → bits ≤ 64 → x < radix → IsLimb (bit_or (x >>> bits) (y <<< (64 - bits)))
joined-IsLimb bits x y h w =
    let p = 2 ^ bits in
    let q = 2 ^ (64 - bits) in
    let e = pow_complement bits h in
    let p_pos = one-le-pow bits 2 (omega arith) in
    let low : x / p < q = (div-lt_iff_lt-mul p_pos).1 (omega (arith, w, e)) in
    let high : suc (y % p) * q ≤ p * q = mul-le-mul_right q (mod-lt y p_pos) in
    rw (merged_limb bits x y h w) (omega (arith, low, high, e))

pub shift_right_loop-words :
    (bits : ℕ) (xs : List ℕ) → bits ≤ 64 → All IsLimb xs → All IsLimb (shift_right_loop bits xs)
unfolding shift_right_loop
shift_right_loop-words bits [] h w = tt
shift_right_loop-words bits (x ∷ []) h w = (omega (arith, w.0, div-le_self x (2 ^ bits)), tt)
shift_right_loop-words bits (x ∷ y ∷ xs) h w =
    (joined-IsLimb bits x y h w.0, shift_right_loop-words bits (y ∷ xs) h w.1)

pub length-shift_right_loop :
    (bits : ℕ) (xs : List ℕ) → length (shift_right_loop bits xs) ≡ length xs
unfolding shift_right_loop
length-shift_right_loop bits [] = refl
length-shift_right_loop bits (x ∷ []) = refl
length-shift_right_loop bits (x ∷ y ∷ xs) = ap suc (length-shift_right_loop bits (y ∷ xs))

pub right_quotient :
    (bits : ℕ) (xs : List ℕ)
    → bits ≤ 64
    → All IsLimb xs
    → value (shift_right_loop bits xs) ≡ value xs / 2 ^ bits
unfolding shift_right_loop
right_quotient bits [] h w = sym (zero-div (2 ^ bits))
right_quotient bits (x ∷ xs) h w =
    let p_pos = one-le-pow bits 2 (omega arith) in
    sym (
      ap (λ (t : ℕ). t / 2 ^ bits) (sym (value-shift_right_loop bits x xs h w))
      ∙ mul-add-div p_pos _ (x % 2 ^ bits)
      ∙ omega (arith, div-eq_of_lt (mod-lt x p_pos)))
