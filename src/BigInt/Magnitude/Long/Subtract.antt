-- ===== src/BigInt/Magnitude/Long/Subtract.antt =====
-- The subtraction of a multiple of the divisor from the window, and the divisor added back.
use native.Mathlib.Nat.{pow-succ'}
use num_forge.Base.{
  ℕ, suc, ◌+◌, ◌*◌, ◌/◌, ◌^◌, ◌<◌, ◌≤◌, ◌≡◌, refl, Bool, true, false, ◌||◌, List, [], ◌∷◌, length,
  arith, ap, sym, ◌∙◌, radix, u64, sub_u64, bit, ltb, IsLimb, All,
}
use num_forge.BigInt.Magnitude.Value.{value}
use num_forge.BigInt.Magnitude.Multiply.WordProduct.{multiply_u64_u64_lem, word_bound}
use num_forge.BigInt.Magnitude.Long.{subtract_word, subtract_product, add_back}

subtract_word_lem :
    (e u v carry borrow : ℕ)
    → e < radix
    → u < radix
    → v < radix
    → carry < radix
    → borrow ≤ 1
    → ((subtract_word e u v carry borrow).0 + (e * v + (carry + borrow))
        ≡ u + radix * ((subtract_word e u v carry borrow).1 + (subtract_word e u v carry borrow).2))
      × ((subtract_word e u v carry borrow).0 < radix)
      × ((subtract_word e u v carry borrow).1 < radix)
      × ((subtract_word e u v carry borrow).2 ≤ 1)
unfolding subtract_word
subtract_word_lem e u v carry borrow he hu hv hc hb =
    ground (arith, multiply_u64_u64_lem e v he hv, word_bound e v he hv)

subtract_top :
    (u carry borrow : ℕ)
    → u < radix
    → carry < radix
    → borrow ≤ 1
    → sub_u64 (sub_u64 u carry) borrow + (carry + borrow)
      ≡ u + radix * bit (ltb u carry || ltb (sub_u64 u carry) borrow)
subtract_top u carry borrow hu hc hb = ground arith

-- The window less the product, and `radix ^ (n + 1)` more if it is negative.
pub record Subtracted (e : ℕ) (u vs : List ℕ) (carry borrow : ℕ) (r : List ℕ × Bool) : Type 0 where
  pub equation :
      value r.0 + (e * value vs + (carry + borrow)) ≡ value u + radix ^ suc (length vs) * bit r.1
  pub words : All IsLimb r.0
  pub same_length : length r.0 ≡ suc (length vs)

join_rounds :
    (x y e v t carry borrow u w p k c b : ℕ)
    → x + (e * v + (carry + borrow)) ≡ u + radix * (c + b)
    → y + (e * t + (c + b)) ≡ w + p * k
    → (x + radix * y) + (e * (v + radix * t) + (carry + borrow)) ≡ (u + radix * w) + radix * p * k
join_rounds x y e v t carry borrow u w p k c b low high = omega (arith, low, high)

pub subtract_product-Subtracted :
    (e : ℕ) (u vs : List ℕ) (carry borrow : ℕ)
    → e < radix
    → All IsLimb u
    → All IsLimb vs
    → length u ≡ suc (length vs)
    → carry < radix
    → borrow ≤ 1
    → Subtracted e u vs carry borrow (subtract_product e u vs carry borrow)
unfolding subtract_product
subtract_product-Subtracted e [] vs carry borrow he wu wv l hc hb = absurd (omega arith)
subtract_product-Subtracted e (x ∷ []) [] carry borrow he wu wv l hc hb = record {
  equation = omega (arith, subtract_top x carry borrow wu.0 hc hb);
  words = (omega arith, tt);
  same_length = refl;
}
subtract_product-Subtracted e (x ∷ y ∷ u) [] carry borrow he wu wv l hc hb = absurd (omega arith)
subtract_product-Subtracted e (x ∷ u) (v ∷ vs) carry borrow he wu wv l hc hb =
    let here = subtract_word_lem e x v carry borrow he wu.0 wv.0 hc hb in
    let s = subtract_word e x v carry borrow in
    let above =
      subtract_product-Subtracted e u vs s.1 s.2 he wu.1 wv.1 (omega arith) here.2 here.3 in
    let r = subtract_product e u vs s.1 s.2 in
    record {
      equation =
          join_rounds s.0 (value r.0) e v (value vs) carry borrow x (value u)
            (radix ^ suc (length vs)) (bit r.1) s.1 s.2 here.0 above.equation
          ∙ ap (λ (t : ℕ). x + radix * value u + t * bit r.1)
              (sym (pow-succ' radix (suc (length vs))));
      words = (here.1, above.words);
      same_length = ap suc above.same_length;
    }

add_round :
    (u v carry : ℕ)
    → u < radix
    → v < radix
    → carry ≤ 1
    → u64 (u64 (u + v) + carry)
        + radix * bit (ltb (u64 (u + v)) u || ltb (u64 (u64 (u + v) + carry)) (u64 (u + v)))
      ≡ u + v + carry
add_round u v carry hu hv hc = ground arith

bit-le : (b : Bool) → bit b ≤ 1
bit-le true = omega arith
bit-le false = omega arith

-- The sum, but for a carry out of the top limb.
pub record AddedBack (u vs : List ℕ) (carry : ℕ) (r : List ℕ) : Type 0 where
  pub lost : ℕ
  pub equation : value r + radix ^ suc (length vs) * lost ≡ value u + value vs + carry
  pub words : All IsLimb r
  pub same_length : length r ≡ suc (length vs)

join_sums :
    (x y v t carry u w p k c : ℕ)
    → x + radix * c ≡ u + v + carry
    → y + p * k ≡ w + t + c
    → (x + radix * y) + radix * p * k ≡ (u + radix * w) + (v + radix * t) + carry
join_sums x y v t carry u w p k c low high = omega (arith, low, high)

pub add_back-AddedBack :
    (u vs : List ℕ) (carry : ℕ)
    → All IsLimb u
    → All IsLimb vs
    → length u ≡ suc (length vs)
    → carry ≤ 1
    → AddedBack u vs carry (add_back u vs carry)
unfolding add_back
add_back-AddedBack [] vs carry wu wv l hc = absurd (omega arith)
add_back-AddedBack (x ∷ []) [] carry wu wv l hc = record {
  lost = (x + carry) / radix;
  equation = omega arith;
  words = (omega arith, tt);
  same_length = refl;
}
add_back-AddedBack (x ∷ y ∷ u) [] carry wu wv l hc = absurd (omega arith)
add_back-AddedBack (x ∷ u) (v ∷ vs) carry wu wv l hc =
    let sum = u64 (x + v) in
    let total = u64 (sum + carry) in
    let c = bit (ltb sum x || ltb total sum) in
    let above = add_back-AddedBack u vs c wu.1 wv.1 (omega arith) (bit-le _) in
    record {
      lost = above.lost;
      equation =
          ap (λ (t : ℕ). total + radix * value (add_back u vs c) + t * above.lost)
            (pow-succ' radix (suc (length vs)))
          ∙ join_sums total (value (add_back u vs c)) v (value vs) carry x (value u)
              (radix ^ suc (length vs)) above.lost c (add_round x v carry wu.0 wv.0 hc)
              above.equation;
      words = (omega arith, above.words);
      same_length = ap suc above.same_length;
    }
