-- ===== src/BigInt/LongDivision/Prepare.antt =====
-- The operands of the long division, shifted so that the divisor's top limb has its top bit.
use native.Mathlib.Nat.{
  one-le-pow, mul-le-mul_left, mul-le-mul_right, lt_of_mul-lt-mul_right, div-eq_of_eq-mul_left,
  le_of_mul-le-mul_right, pow-succ',
}
use num_forge.Base.{
  ℕ, zero, suc, ◌+◌, ◌-◌, ◌*◌, ◌/◌, ◌^◌, ◌<◌, ◌≤◌, ◌≡◌, refl, List, [], ◌∷◌, ◌++◌, length, get_or,
  arith, ap, subst, ◌∙◌, radix, IsLimb, All, All-append, length-append,
}
use num_forge.BigInt.Magnitude.Value.{value, IsMagnitude}
use num_forge.BigInt.Bitwise.Powers.{pow_complement, value-append_one}
use num_forge.BigInt.Comparison.Bits.{top_pos, top_bounds}
use num_forge.BigInt.Magnitude.Long.{shift_up}
use num_forge.BigInt.Magnitude.Long.Normalize.{Distance, shift_up-ShiftedUp}

-- The top limb of `k + 1` limbs bounds the number.
pub top_limb_bounds :
    (k : ℕ) (xs : List ℕ)
    → All IsLimb xs
    → length xs ≡ suc k
    → (get_or xs k 0 * radix ^ k ≤ value xs) × (value xs < suc (get_or xs k 0) * radix ^ k)
top_limb_bounds k [] w e = absurd (omega arith)
top_limb_bounds k (x ∷ xs) w e =
    let same : k ≡ length xs = omega arith in rw same (top_bounds x xs w)

pub top_limb_pos : (k : ℕ) (xs : List ℕ) → IsMagnitude xs → length xs ≡ suc k → 0 < get_or xs k 0
top_limb_pos k [] m e = absurd (omega arith)
top_limb_pos k (x ∷ xs) m e =
    let same : k ≡ length xs = omega arith in rw same (top_pos x xs m.trimmed)

-- The shift fills the top limb and loses nothing.
whole_shift : (t d v p k : ℕ) → d ≤ 63 → t * 2 ^ d < radix → v < suc t * p → v * 2 ^ d < radix * p
whole_shift t d v p k hd fits bound =
    let whole = pow_complement d (omega arith) in
    let room : t < 2 ^ (64 - d) = lt_of_mul-lt-mul_right (2 ^ d) (omega (arith, fits, whole)) in
    let up : suc t * 2 ^ d ≤ 2 ^ (64 - d) * 2 ^ d = mul-le-mul_right (2 ^ d) room in
    let down : suc v * 2 ^ d ≤ suc t * p * 2 ^ d = mul-le-mul_right (2 ^ d) bound in
    let across : suc t * 2 ^ d * p ≤ radix * p = mul-le-mul_right p (omega (arith, up, whole)) in
    omega (arith, down, across, one-le-pow d 2 (omega arith))

top_filled :
    (t d v v' top p : ℕ)
    → 2 ^ 63 ≤ t * 2 ^ d
    → t * p ≤ v
    → v' ≡ v * 2 ^ d
    → v' < suc top * p
    → 2 ^ 63 ≤ top
top_filled t d v v' top p high low same bound =
    let scaled : t * p * 2 ^ d ≤ v * 2 ^ d = mul-le-mul_right (2 ^ d) low in
    let filled : 2 ^ 63 * p ≤ t * 2 ^ d * p = mul-le-mul_right p high in
    let less : 2 ^ 63 < suc top =
      lt_of_mul-lt-mul_right p (omega (arith, scaled, filled, same, bound)) in
    omega (arith, less)

no_carry : (v p c n : ℕ) → v + p * c ≡ n → n < p → c ≡ 0
no_carry v p zero n e h = refl
no_carry v p (suc c) n e h = absurd (omega arith)

-- The scaled division gives the division.
pub unscaled :
    (q b a w p : ℕ)
    → 0 < p
    → q * (b * p) + w ≡ a * p
    → w < b * p
    → (q * b + w / p ≡ a) × (w / p < b)
unscaled q b a w p pos e h =
    let less : q * b ≤ a =
      le_of_mul-le-mul_right {m = q * b} {n = a} {k = p} (omega (arith, e)) pos in
    let r = a - q * b in
    let whole : q * b + r ≡ a = omega (arith, less) in
    let scaled : w ≡ r * p = omega (arith, e, ap (λ (t : ℕ). t * p) whole) in
    let down : w / p ≡ r = div-eq_of_eq-mul_left pos scaled in
    let below : r < b = lt_of_mul-lt-mul_right p (omega (arith, h, scaled)) in
    (omega (arith, down, whole), omega (arith, down, below))

-- The divisor as the kernel prepares it.
pub record ShiftedDivisor (bs : List ℕ) (k shift : ℕ) (v : List ℕ) : Type 0 where
  pub number : value v ≡ value bs * 2 ^ shift
  pub words : All IsLimb v
  pub same_length : length v ≡ suc k
  pub normal : 2 ^ 63 ≤ get_or v k 0

pub record ShiftedNumerator (xs : List ℕ) (shift : ℕ) (u : List ℕ) : Type 0 where
  pub number : value u ≡ value xs * 2 ^ shift
  pub words : All IsLimb u
  pub one_longer : length u ≡ suc (length xs)

module _ (k shift : ℕ) (bs : List ℕ) (mb : IsMagnitude bs) (lb : length bs ≡ suc k)
    (d : Distance 63 (get_or bs k 0) 0 shift) where
  pub shifted_divisor : ShiftedDivisor bs k shift (shift_up shift 0 bs).0
  shifted_divisor =
      let t = get_or bs k 0 in
      let same : d.distance ≡ shift = omega (arith, d.total) in
      let s =
        shift_up-ShiftedUp shift 0 bs (omega (arith, same, d.within))
          (one-le-pow shift 2 (omega arith)) mb.words in
      let v = (shift_up shift 0 bs).0 in
      let power = ap (λ (n : ℕ). radix ^ n) lb ∙ pow-succ' radix k in
      let bounds = top_limb_bounds k bs mb.words lb in
      let small =
        whole_shift t shift (value bs) (radix ^ k) k (omega (arith, same, d.within))
          (subst (λ (n : ℕ). t * 2 ^ n < radix) same d.fits) bounds.1 in
      let none_out =
        no_carry (value v) (radix ^ length bs) (shift_up shift 0 bs).1 (value bs * 2 ^ shift)
          (omega (arith, s.equation)) (omega (arith, small, power)) in
      let number : value v ≡ value bs * 2 ^ shift =
        omega (arith, s.equation, ap (λ (n : ℕ). radix ^ length bs * n) none_out) in
      let long : length v ≡ suc k = s.same_length ∙ lb in
      record {
        number = number;
        words = s.words;
        same_length = long;
        normal =
            top_filled t shift (value bs) (value v) (get_or v k 0) (radix ^ k)
              (subst (λ (n : ℕ). 2 ^ 63 ≤ t * 2 ^ n) same d.high) bounds.0 number
              (top_limb_bounds k v s.words long).1;
      }

  pub shifted_numerator :
      (xs : List ℕ)
      → All IsLimb xs
      → ShiftedNumerator xs shift ((shift_up shift 0 xs).0 ++ (shift_up shift 0 xs).1 ∷ [])
  shifted_numerator xs wx =
      let same : d.distance ≡ shift = omega (arith, d.total) in
      let small : shift ≤ 63 = omega (arith, same, d.within) in
      let s =
        shift_up-ShiftedUp shift 0 xs (omega (arith, small)) (one-le-pow shift 2 (omega arith))
          wx in
      let u = shift_up shift 0 xs in
      let carry : u.1 < radix = omega (
        arith,
        s.carry_bound,
        pow_complement shift (omega (arith, small)),
        one-le-pow (64 - shift) 2 (omega arith),
        mul-le-mul_left (2 ^ shift) (one-le-pow (64 - shift) 2 (omega arith)),
      ) in
      record {
        number =
            value-append_one u.0 u.1
            ∙ ap (λ (n : ℕ). value u.0 + radix ^ n * u.1) s.same_length
            ∙ s.equation
            ∙ omega arith;
        words = All-append IsLimb u.0 _ s.words (carry, tt);
        one_longer = omega (arith, length-append u.0 (u.1 ∷ []), s.same_length);
      }
