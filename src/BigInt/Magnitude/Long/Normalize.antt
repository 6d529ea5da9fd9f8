-- ===== src/BigInt/Magnitude/Long/Normalize.antt =====
-- The shift that gives the divisor its top bit, and the shifted limbs.
use native.Mathlib.Nat.{pow-succ', one-le-pow, mod-lt, mul-le-mul_right, div-lt_iff_lt-mul}
use num_forge.Base.{
  ℕ, zero, suc, ◌+◌, ◌-◌, ◌*◌, ◌/◌, ◌%◌, ◌^◌, ◌<◌, ◌≤◌, ◌≡◌, refl, List, [], ◌∷◌, length, arith, ap,
  ◌∙◌, radix, IsLimb, All, ◌<<<◌, ◌>>>◌, ◌==◌, if◌then◌else◌, Bool-cases, inl, inr, ==→eq,
}
use num_forge.Base.Bits.{bit_or_comm}
use num_forge.BigInt.Magnitude.Value.{value}
use num_forge.BigInt.Bitwise.Powers.{pow_complement}
use num_forge.BigInt.Bitwise.Shifts.{shifted_limb, cut_product}
use num_forge.BigInt.Magnitude.Long.{leading_shift, shift_up}

-- The distance that the loop still goes.
pub record Distance (fuel top shift s : ℕ) : Type 0 where
  pub distance : ℕ
  pub total : s ≡ shift + distance
  pub within : distance ≤ fuel
  pub high : 2 ^ 63 ≤ top * 2 ^ distance
  pub fits : top * 2 ^ distance < radix

pub leading_shift-Distance :
    (fuel top shift : ℕ)
    → top < radix
    → 2 ^ 63 ≤ top * 2 ^ fuel
    → Distance fuel top shift (leading_shift fuel top shift)
unfolding leading_shift
leading_shift-Distance zero top shift ht enough = record {
  distance = 0;
  total = omega arith;
  within = omega arith;
  high = omega arith;
  fits = omega arith;
}
leading_shift-Distance (suc fuel) top shift ht enough = elim (Bool-cases (top >>> 63 == 0)) [
  | inl low ↦
      let below : top < 2 ^ 63 = ground (arith, low) in
      let twice : top <<< 1 ≡ top * 2 = omega (arith, below) in
      let d =
        leading_shift-Distance fuel (top * 2) (shift + 1) (omega (arith, below))
          (omega (arith, enough, ap (λ (t : ℕ). top * t) (pow-succ' 2 fuel))) in
      let step = ap (λ (t : ℕ). top * t) (pow-succ' 2 d.distance) in
      rw (low, twice)
        (record {
          distance = suc d.distance;
          total = omega (arith, d.total);
          within = omega (arith, d.within);
          high = omega (arith, d.high, step);
          fits = omega (arith, d.fits, step);
        })
  | inr high ↦
      let above : 2 ^ 63 ≤ top = ground (arith, high) in
      rw high (record {
        distance = 0;
        total = omega arith;
        within = omega arith;
        high = omega (arith, above);
        fits = omega arith;
      })
]

carry_out :
    (shift x : ℕ)
    → x < radix
    → (if shift == 0 then 0 else x >>> (64 - shift)) ≡ x / 2 ^ (64 - shift)
carry_out shift x h = elim (Bool-cases (shift == 0)) [
  | inl none ↦ rw (none, ==→eq shift 0 none) (omega arith)
  | inr some ↦ rw some refl
]

pub record ShiftedUp (shift carry : ℕ) (xs : List ℕ) (r : List ℕ × ℕ) : Type 0 where
  pub equation : value r.0 + radix ^ length xs * r.1 ≡ value xs * 2 ^ shift + carry
  pub words : All IsLimb r.0
  pub same_length : length r.0 ≡ length xs
  pub carry_bound : r.1 < 2 ^ shift

join_shifted :
    (x hi lo c y p k v b carry : ℕ)
    → x * b ≡ radix * hi + lo
    → y + p * k ≡ v * b + hi
    → (carry + lo) + radix * y + radix * p * k ≡ (x + radix * v) * b + carry
join_shifted x hi lo c y p k v b carry low high = omega (arith, low, high)

pub shift_up-ShiftedUp :
    (shift carry : ℕ) (xs : List ℕ)
    → shift ≤ 64
    → carry < 2 ^ shift
    → All IsLimb xs
    → ShiftedUp shift carry xs (shift_up shift carry xs)
unfolding shift_up
shift_up-ShiftedUp shift carry [] hs hc w = record {
  equation = omega arith;
  words = tt;
  same_length = refl;
  carry_bound = hc;
}
shift_up-ShiftedUp shift carry (x ∷ xs) hs hc w =
    let b = 2 ^ shift in
    let q = 2 ^ (64 - shift) in
    let whole = pow_complement shift hs in
    let q_pos = one-le-pow (64 - shift) 2 (omega arith) in
    let hi = x / q in
    let above_bound : hi < b = (div-lt_iff_lt-mul q_pos).1 (omega (arith, w.0, whole)) in
    let stays : suc (x % q) * b ≤ q * b = mul-le-mul_right b (mod-lt x q_pos) in
    let limb_eq = bit_or_comm (x <<< shift) carry ∙ shifted_limb shift x carry hs hc in
    let above = shift_up-ShiftedUp shift hi xs hs above_bound w.1 in
    let r = shift_up shift hi xs in
    rw (carry_out shift x w.0, limb_eq)
      (record {
        equation =
            ap (λ (t : ℕ). carry + x % q * b + radix * value r.0 + t * r.1)
              (pow-succ' radix (length xs))
            ∙ join_shifted x hi (x % q * b) 0 (value r.0) (radix ^ length xs) r.1 (value xs) b carry
                (cut_product x b q whole) above.equation;
        words = (omega (arith, hc, stays, whole), above.words);
        same_length = ap suc above.same_length;
        carry_bound = above.carry_bound;
      })
