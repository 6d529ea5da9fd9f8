-- ===== src/BigInt/Bitwise/Scaling.antt =====
-- `bigint_shift_left` multiplies by a power of two; `bigint_shift_right` divides the magnitude by one.
use native.Mathlib.Nat.{div-one, zero-div, one-le-pow}
use num_forge.Base.{
  ℕ, zero, suc, ◌+◌, ◌-◌, ◌*◌, ◌/◌, ◌%◌, ◌^◌, ◌<◌, ◌≤◌, ◌≡◌, refl, Bool, true, ◌||◌, List, [], ◌∷◌,
  ◌++◌, arith, radix, size_max, IsLimb, All, All-append, All-drop, length, drop, replicate, ap, sym,
  subst, ◌∙◌, ◌==◌, ltb, leb, Bool-cases, inl, inr, ==→eq, ltb→le, length-append, length-replicate,
  length-drop,
}
use num_forge.Base.Int.{pos, signed}
use num_forge.Runtime.Budget.{World, calloc}
use num_forge.BigInt.Types.{
  BigInt, IsValid, Computes, max_limbs, value_too_large, ok, checked, returns,
}
use num_forge.BigInt.Contract.{Gives-ok, Gives-checked, Gives-refused}
use num_forge.BigInt.Storage.{is_empty, copy, normalize}
use num_forge.BigInt.Storage.Sizes.{size_add_fits, size_mul_fits}
use num_forge.BigInt.Storage.Normal.{
  normalize-IsValid, to_ℤ-normalize, copy-Computes, empty-IsValid, signed_zero,
}
use num_forge.BigInt.Magnitude.Value.{value}
use num_forge.BigInt.Bitwise.{
  shift_left_loop, shift_left_limbs, shift_left, shift_right_limbs, shift_right, alloc_limbs,
}
use num_forge.BigInt.Bitwise.Powers.{pow_parts, value-replicate-append, drop-quotient}
use num_forge.BigInt.Bitwise.Shifts.{
  value-shift_left_loop, shift_left_loop-words, length-shift_left_loop, right_quotient,
  shift_right_loop-words, length-shift_right_loop,
}

value-append_zero : (xs : List ℕ) → value (xs ++ 0 ∷ []) ≡ value xs
value-append_zero [] = refl
value-append_zero (x ∷ xs) = omega (arith, value-append_zero xs)

zeros-IsLimb : (n : ℕ) → All IsLimb (replicate n 0)
zeros-IsLimb zero = tt
zeros-IsLimb (suc n) = (omega arith, zeros-IsLimb n)

module _ (l bits : ℕ) (xs : List ℕ) (h : bits < 64) where
  value-shift_left_limbs :
      All IsLimb xs → value (shift_left_limbs l bits xs) ≡ value xs * (radix ^ l * 2 ^ bits)
  unfolding shift_left_limbs
  value-shift_left_limbs w = elim (Bool-cases (bits == 0)) [
    | inl whole ↦
        rw (whole, ==→eq bits 0 whole)
          (omega (
            arith,
            value-replicate-append l (xs ++ 0 ∷ []),
            ap (λ (t : ℕ). radix ^ l * t) (value-append_zero xs),
          ))
    | inr part ↦ rw part (
        omega (
          arith,
          value-replicate-append l (shift_left_loop bits xs 0),
          ap (λ (t : ℕ). radix ^ l * t)
              (value-shift_left_loop bits xs 0 (omega arith) (one-le-pow bits 2 (omega arith)) w),
        ))
  ]

  shift_left_limbs-words : All IsLimb xs → All IsLimb (shift_left_limbs l bits xs)
  unfolding shift_left_limbs
  shift_left_limbs-words w = elim (Bool-cases (bits == 0)) [
    | inl whole ↦ rw whole (
        All-append IsLimb (replicate l 0) _ (zeros-IsLimb l)
          (All-append IsLimb xs (0 ∷ []) w (omega arith, tt)))
    | inr part ↦ rw part (
        All-append IsLimb (replicate l 0) _ (zeros-IsLimb l)
          (shift_left_loop-words bits xs 0 (omega arith) (one-le-pow bits 2 (omega arith)) w))
  ]

  length-shift_left_limbs : length (shift_left_limbs l bits xs) ≡ length xs + l + 1
  unfolding shift_left_limbs
  length-shift_left_limbs = elim (Bool-cases (bits == 0)) [
    | inl whole ↦ rw whole (
        omega (
          arith,
          length-append (replicate l 0) (xs ++ 0 ∷ []),
          length-replicate {A = ℕ} l 0,
          length-append xs (0 ∷ []),
        ))
    | inr part ↦ rw part (
        omega (
          arith,
          length-append (replicate l 0) (shift_left_loop bits xs 0),
          length-replicate {A = ℕ} l 0,
          length-shift_left_loop bits xs 0,
        ))
  ]

  pub value-shift_right_limbs :
      All IsLimb xs → value (shift_right_limbs bits xs) ≡ value xs / 2 ^ bits
  unfolding shift_right_limbs
  value-shift_right_limbs w = elim (Bool-cases (bits == 0)) [
    | inl whole ↦ rw (whole, ==→eq bits 0 whole) (sym (div-one (value xs)))
    | inr part ↦ rw part (right_quotient bits xs (omega arith) w)
  ]

  pub shift_right_limbs-words : All IsLimb xs → All IsLimb (shift_right_limbs bits xs)
  unfolding shift_right_limbs
  shift_right_limbs-words w = elim (Bool-cases (bits == 0)) [
    | inl whole ↦ rw whole w
    | inr part ↦ rw part (shift_right_loop-words bits xs (omega arith) w)
  ]

  pub length-shift_right_limbs : length (shift_right_limbs bits xs) ≡ length xs
  unfolding shift_right_limbs
  length-shift_right_limbs = elim (Bool-cases (bits == 0)) [
    | inl whole ↦ rw whole refl
    | inr part ↦ rw part (length-shift_right_loop bits xs)
  ]

left_of_unshifted :
    (s : Bool) (xs : List ℕ) (n : ℕ)
    → (is_empty xs || (n == 0)) ≡ true
    → signed s (value xs) ≡ signed s (value xs * 2 ^ n)
left_of_unshifted s [] n e = ap (signed s) (omega arith)
left_of_unshifted s (x ∷ xs) n e = rw (==→eq n 0 e) (ap (signed s) (omega arith))

right_of_unshifted :
    (s : Bool) (xs : List ℕ) (n : ℕ)
    → (is_empty xs || (n == 0)) ≡ true
    → signed s (value xs) ≡ signed s (value xs / 2 ^ n)
right_of_unshifted s [] n e = ap (signed s) (sym (zero-div (2 ^ n)))
right_of_unshifted s (x ∷ xs) n e = rw (==→eq n 0 e) (ap (signed s) (sym (div-one _)))

parts-eq : (m n : ℕ) → m * (radix ^ (n / 64) * 2 ^ (n % 64)) ≡ m * 2 ^ n
parts-eq m n = ap (λ (t : ℕ). m * t) (sym (pow_parts n))

drop_all : (n : ℕ) (xs : List ℕ) → length xs ≤ n → drop n xs ≡ []
drop_all zero [] h = refl
drop_all zero (x ∷ xs) h = absurd (omega arith)
drop_all (suc n) [] h = refl
drop_all (suc n) (x ∷ xs) h = drop_all n xs (omega arith)

shifted_out_lem :
    (s : Bool) (n : ℕ) (xs : List ℕ)
    → All IsLimb xs
    → length xs ≤ n / 64
    → pos 0 ≡ signed s (value xs / 2 ^ n)
shifted_out_lem s n xs w h =
    sym (signed_zero s)
    ∙ ap (signed s) (
        sym (zero-div (2 ^ (n % 64)))
        ∙ ap (λ ys. value ys / 2 ^ (n % 64)) (sym (drop_all (n / 64) xs h))
        ∙ drop-quotient n xs w)

module _ (result a : BigInt) (n : ℕ) (w : World) (c : result.capacity ≤ max_limbs) (va : IsValid a)
    (small : n ≤ size_max) where
  shifted-Computes :
      (size : ℕ)
      → length a.limbs + n / 64 + 1 ≡ size
      → size ≤ max_limbs
      → Computes result (signed a.is_negative (value a.limbs * 2 ^ n)) (
          checked (calloc size 8 w) result λ w'.
            returns ok
              (normalize (record {
                limbs = shift_left_limbs (n / 64) (n % 64) a.limbs;
                capacity = size;
                is_negative = a.is_negative;
              }))
              w')
  shifted-Computes size e h =
      let limbs = shift_left_limbs (n / 64) (n % 64) a.limbs in
      let r : BigInt = record { limbs = limbs; capacity = size; is_negative = a.is_negative } in
      let bits : n % 64 < 64 = omega arith in
      Gives-checked (calloc size 8 w) result _
        (λ _. Gives-ok _ _ (record {
          valid =
              normalize-IsValid r
                (shift_left_limbs-words (n / 64) (n % 64) a.limbs bits va.magnitude.words)
                (omega (arith, e, length-shift_left_limbs (n / 64) (n % 64) a.limbs bits)) h;
          integer =
              to_ℤ-normalize r
              ∙ ap (signed a.is_negative) (
                  value-shift_left_limbs (n / 64) (n % 64) a.limbs bits va.magnitude.words
                  ∙ parts-eq (value a.limbs) n);
        }))
        refl

  right_part : Computes result (signed a.is_negative (value a.limbs / 2 ^ n)) (
      checked (alloc_limbs (length a.limbs - n / 64) w) result λ w'.
        returns ok
          (normalize (record {
            limbs = shift_right_limbs (n % 64) (drop (n / 64) a.limbs);
            capacity = length a.limbs - n / 64;
            is_negative = a.is_negative;
          }))
          w')
  right_part =
      let size = length a.limbs - n / 64 in
      let high = drop (n / 64) a.limbs in
      let bits : n % 64 < 64 = omega arith in
      let words = All-drop IsLimb (n / 64) a.limbs va.magnitude.words in
      let r : BigInt = record {
        limbs = shift_right_limbs (n % 64) high;
        capacity = size;
        is_negative = a.is_negative;
      } in
      Gives-checked (alloc_limbs size w) result _
        (λ _. Gives-ok _ _ (record {
          valid =
              normalize-IsValid r (shift_right_limbs-words 0 (n % 64) high bits words)
                (omega (
                  arith,
                  length-shift_right_limbs 0 (n % 64) high bits,
                  length-drop (n / 64) a.limbs,
                ))
                (omega (arith, va));
          integer =
              to_ℤ-normalize r
              ∙ ap (signed a.is_negative) (
                  value-shift_right_limbs 0 (n % 64) high bits words
                  ∙ drop-quotient n a.limbs va.magnitude.words);
        }))
        refl

  -- The left shift of a valid object by `n` bits leaves its integer times `2 ^ n` in canonical form if it
  -- returns BIGINT_OK, and the destination untouched if it does not.
  pub shift_left-Computes :
      Computes result (signed a.is_negative (value a.limbs * 2 ^ n)) (shift_left result a n w)
  unfolding shift_left
  shift_left-Computes = elim (Bool-cases (is_empty a.limbs || (n == 0))) [
    | inl e ↦ rw e (
        subst (λ v. Computes result v (copy result a w))
          (left_of_unshifted a.is_negative a.limbs n e) (copy-Computes result a w c va))
    | inr e ↦ rw e (
        rw
          (
            size_add_fits (length a.limbs) (n / 64) (omega (arith, va)),
            size_add_fits (length a.limbs + n / 64) 1 (omega (arith, va)),
          )
          (elim (Bool-cases (ltb max_limbs (length a.limbs + n / 64 + 1))) [
            | inl large ↦ rw large (Gives-refused value_too_large w refl)
            | inr fits ↦
                let size = length a.limbs + n / 64 + 1 in
                let below = ltb→le max_limbs size fits in
                rw (fits, size_mul_fits size 8 (omega (arith, below)))
                  (shifted-Computes size refl below)
          ]))
  ]

  -- The right shift of a valid object by `n` bits leaves, with its sign, its magnitude divided by `2 ^ n`
  -- (rounded towards 0) in canonical form if it returns BIGINT_OK, and the destination untouched if it
  -- does not.
  pub shift_right-Computes :
      Computes result (signed a.is_negative (value a.limbs / 2 ^ n)) (shift_right result a n w)
  unfolding shift_right
  shift_right-Computes = elim (Bool-cases (is_empty a.limbs || (n == 0))) [
    | inl e ↦ rw e (
        subst (λ v. Computes result v (copy result a w))
          (right_of_unshifted a.is_negative a.limbs n e) (copy-Computes result a w c va))
    | inr e ↦ rw e (elim (Bool-cases (leb (length a.limbs) (n / 64))) [
      | inl gone ↦ rw gone (
          Gives-ok _ w (record {
            valid = empty-IsValid result c;
            integer =
                shifted_out_lem a.is_negative n a.limbs va.magnitude.words (ground (arith, gone));
          }))
      | inr stays ↦ rw stays right_part
    ])
  ]
