-- ===== src/BigInt/Magnitude/Long/Round.antt =====
-- A round of the long division gives a digit and what is left.
use native.Mathlib.Nat.{div-add-mod, mod-lt, one-le-pow, mul-le-mul_left}
use num_forge.Base.{
  ℕ, zero, suc, ◌+◌, ◌-◌, ◌*◌, ◌/◌, ◌%◌, ◌^◌, ◌<◌, ◌≤◌, ◌≡◌, refl, List, [], ◌∷◌, length, get_or,
  arith, ap, radix, IsLimb, All, Bool-cases, inl, inr, ltb, ltb→lt,
}
use num_forge.BigInt.Magnitude.Value.{value}
use num_forge.BigInt.Bitwise.Powers.{value-drop, drop_from, drop_past}
use num_forge.BigInt.Magnitude.Long.{quotient_estimate, window_estimate}
use num_forge.BigInt.Magnitude.Long.Estimate.{one_too_large}
use num_forge.BigInt.Magnitude.Long.Correction.{quotient_estimate-IsEstimate}

-- A digit that is right, or 1 too large.
pub record Near (u v q : ℕ) : Type 0 where
  pub enough : u < suc q * v
  pub near : (q - 1) * v ≤ u
  pub word : q < radix

pub get-lt : (i : ℕ) (xs : List ℕ) → All IsLimb xs → get_or xs i 0 < radix
get-lt i [] w = omega arith
get-lt zero (x ∷ xs) w = w.0
get-lt (suc i) (x ∷ xs) w = get-lt i xs w.1

-- The top limbs of a magnitude, from limb `k` on.
top_two :
    (k : ℕ) (xs : List ℕ)
    → All IsLimb xs
    → length xs ≡ suc (suc k)
    → value xs ≡ radix ^ k * (get_or xs k 0 + radix * get_or xs (suc k) 0) + value xs % radix ^ k
top_two k xs w e =
    let tops : value xs / radix ^ k ≡ get_or xs k 0 + radix * get_or xs (suc k) 0 = omega (
      arith,
      value-drop k xs w,
      drop_from k xs (omega arith),
      drop_from (suc k) xs (omega arith),
      drop_past (suc (suc k)) xs (omega arith),
    ) in
    omega (arith, div-add-mod (value xs) (radix ^ k), ap (λ (t : ℕ). radix ^ k * t) tops)

top_three :
    (k : ℕ) (xs : List ℕ)
    → All IsLimb xs
    → length xs ≡ suc (suc (suc k))
    → value xs
      ≡ radix ^ k
          * (get_or xs k 0 + radix * (get_or xs (suc (suc k)) 0 * radix + get_or xs (suc k) 0))
        + value xs % radix ^ k
top_three k xs w e =
    let tops : value xs / radix ^ k
        ≡ get_or xs k 0 + radix * (get_or xs (suc (suc k)) 0 * radix + get_or xs (suc k) 0) =
      omega (
        arith,
        value-drop k xs w,
        drop_from k xs (omega arith),
        drop_from (suc k) xs (omega arith),
        drop_from (suc (suc k)) xs (omega arith),
        drop_past (suc (suc (suc k))) xs (omega arith),
      ) in
    omega (arith, div-add-mod (value xs) (radix ^ k), ap (λ (t : ℕ). radix ^ k * t) tops)

-- The window is less than the divisor times the radix, so its top limb is at most the divisor's.
top-le :
    (p u v u3 ul v1 v2 vl high : ℕ)
    → u ≡ p * u3 + ul
    → v ≡ p * (v2 + radix * v1) + vl
    → vl < p
    → v2 < radix
    → radix * (high * radix) ≤ u3
    → u < radix * v
    → high ≤ v1
top-le p u v u3 ul v1 v2 vl high cut_u cut_v hv b2 tall room = elim (Bool-cases (ltb v1 high)) [
  | inr le ↦ ground (arith, le)
  | inl more ↦
      let above : p * suc v1 ≤ p * high = mul-le-mul_left p (ltb→lt v1 high more) in
      let limbs : p * suc v2 ≤ p * radix = mul-le-mul_left p (omega arith) in
      let tops : p * (radix * (high * radix)) ≤ p * u3 = mul-le-mul_left p tall in
      absurd (omega (arith, above, limbs, tops, cut_u, cut_v))
]

near_of :
    (p u ul v vl v1 v2 u3 q : ℕ)
    → u ≡ p * u3 + ul
    → v ≡ p * (v2 + radix * v1) + vl
    → ul < p
    → vl < p
    → q * (v2 + radix * v1) ≤ u3
    → q < radix
    → 0 < v1
    → (q - 1) * v ≤ u
near_of p u ul v vl v1 v2 u3 zero cut_u cut_v hu hv fits small some_top = omega arith
near_of p u ul v vl v1 v2 u3 (suc q) cut_u cut_v hu hv fits small some_top =
    let same : suc q - 1 ≡ q = omega arith in
    rw same
      (one_too_large p u u3 ul v (v2 + radix * v1) vl cut_u cut_v hu hv q fits small (omega arith))

-- For a divisor of two limbs or more with its top bit set, and a window one limb longer that is less than
-- 2 ^ 64 times the divisor, the corrected estimate of the quotient digit is a word, and is right or 1 too
-- large.
pub window-Near :
    (k : ℕ) (v u : List ℕ)
    → All IsLimb v
    → All IsLimb u
    → length v ≡ suc (suc k)
    → length u ≡ suc (length v)
    → 2 ^ 63 ≤ get_or v (suc k) 0
    → value u < radix * value v
    → Near (value u) (value v) (window_estimate v u)
window-Near k v u wv wu lv lu normal room =
    let p = radix ^ k in
    let p_pos : 0 < p = one-le-pow k radix (omega arith) in
    let cut_v = top_two k v wv lv in
    let cut_u = top_three k u wu (omega (arith, lv)) in
    let v1 = get_or v (suc k) 0 in
    let v2 = get_or v k 0 in
    let third = get_or u k 0 in
    let low = get_or u (suc k) 0 in
    let high = get_or u (suc (suc k)) 0 in
    let h2 = high * radix + low in
    let hu : value u % p < p = mod-lt (value u) p_pos in
    let hv : value v % p < p = mod-lt (value v) p_pos in
    let b1 = get-lt (suc k) v wv in
    let b2 = get-lt k v wv in
    let bound =
      top-le p (value u) (value v) (third + radix * h2) (value u % p) v1 v2 (value v % p) high cut_u
        cut_v hv b2 (omega arith) room in
    let e =
      quotient_estimate-IsEstimate p (value u) (value u % p) (value v) (value v % p) v1 v2 third h2
        cut_u cut_v hu hv normal b1 b2 (get-lt k u wu) high low refl bound (get-lt (suc k) u wu)
        room in
    let q = quotient_estimate high low third v1 v2 in
    let near : Near (value u) (value v) q = record {
      enough = e.enough;
      near =
          near_of p (value u) (value u % p) (value v) (value v % p) v1 v2 (third + radix * h2) q
            cut_u cut_v hu hv e.fits e.word (omega arith);
      word = e.word;
    } in
    let one : suc (suc k) - 1 ≡ suc k = omega arith in
    let two : suc (suc k) - 2 ≡ k = omega arith in rw (lv, one, two) near
