-- ===== src/BigInt/Arithmetic/Scaling.antt =====
-- `bigint_multiply_by_uint64` multiplies a magnitude by a word, in place.
use native.Mathlib.Nat.{pow-succ', mul-le-mul_right, mul-le-mul_left}
use num_forge.Base.{
  ℕ, ◌+◌, ◌*◌, ◌^◌, ◌<◌, ◌≤◌, ◌≡◌, Bool, false, List, [], ◌∷◌, ◌++◌, length, arith, ap, subst, sym,
  ◌∙◌, radix, IsLimb, All, All-append, length-append, ◌==◌, Bool-cases, inl, inr, ==→eq, ==→ne,
}
use num_forge.Runtime.Budget.{World}
use num_forge.BigInt.Types.{BigInt, Holds, max_limbs}
use num_forge.BigInt.Contract.{IfOk, IfOk-on_ok}
use num_forge.BigInt.Storage.{is_empty, ensure_capacity, normalize}
use num_forge.BigInt.Storage.Sizes.{size_add_fits}
use num_forge.BigInt.Storage.Growth.{ensure_capacity-Ensured}
use num_forge.BigInt.Storage.Holding.{normalize-Holds, value_of_empty}
use num_forge.BigInt.Magnitude.Value.{value, IsMagnitude, IsTrimmed}
use num_forge.BigInt.Magnitude.Multiply.{scale_loop}
use num_forge.BigInt.Magnitude.Multiply.Scale.{Scaled, scale_loop-Scaled}
use num_forge.BigInt.Bitwise.Powers.{value-append_one}
use num_forge.BigInt.Comparison.Bits.{top_pos, top_bounds}
use num_forge.BigInt.Arithmetic.{multiply_by_uint64}

-- A number with as many digits as limbs has no zero limb on top.
large-IsTrimmed :
    (x : ℕ) (xs : List ℕ)
    → All IsLimb (x ∷ xs)
    → radix ^ length xs ≤ value (x ∷ xs)
    → IsTrimmed (x ∷ xs)
large-IsTrimmed x [] w h = omega (arith, h)
large-IsTrimmed x (y ∷ ys) w h =
    large-IsTrimmed y ys w.1 (omega (arith, h, w.0, pow-succ' radix (length ys)))

append-IsTrimmed : (xs : List ℕ) (c : ℕ) → 0 < c → IsTrimmed (xs ++ c ∷ [])
append-IsTrimmed [] c h = h
append-IsTrimmed (x ∷ []) c h = h
append-IsTrimmed (x ∷ y ∷ xs) c h = append-IsTrimmed (y ∷ xs) c h

magnitude_large : (x : ℕ) (xs : List ℕ) → IsMagnitude (x ∷ xs) → radix ^ length xs ≤ value (x ∷ xs)
magnitude_large x xs m =
    let bounds = top_bounds x xs m.words in
    let scaled = mul-le-mul_right (radix ^ length xs) (top_pos x xs m.trimmed) in
    omega (arith, bounds.0, scaled)

scaled-IsTrimmed :
    (xs ys : List ℕ) (n : ℕ)
    → IsMagnitude xs
    → is_empty xs ≡ false
    → 0 < n
    → All IsLimb ys
    → length ys ≡ length xs
    → value ys ≡ value xs * n
    → IsTrimmed ys
scaled-IsTrimmed [] ys n m some pos wy l e = cc
scaled-IsTrimmed (x ∷ xs) [] n m some pos wy l e = tt
scaled-IsTrimmed (x ∷ xs) (y ∷ ys) n m some pos wy l e =
    let same : length ys ≡ length xs = omega (arith, l) in
    let more : value (x ∷ xs) * 1 ≤ value (x ∷ xs) * n = mul-le-mul_left (value (x ∷ xs)) pos in
    large-IsTrimmed y ys wy
      (omega (arith, magnitude_large x xs m, more, e, ap (λ (t : ℕ). radix ^ t) same))

module _ (b : BigInt) (multiplier : ℕ) (w : World) (v : Holds (value b.limbs) b)
    (h : multiplier < radix) where
  without_carry :
      (r : List ℕ × ℕ)
      → is_empty b.limbs ≡ false
      → 0 < multiplier
      → Scaled b.limbs multiplier 0 r
      → r.1 ≡ 0
      → Holds (value b.limbs * multiplier) (record b { limbs = r.0 })
  without_carry r some pos s e =
      let same : value r.0 ≡ value b.limbs * multiplier =
        omega
          (arith, s.product, value-append_one r.0 r.1, ap (λ (t : ℕ). radix ^ length r.0 * t) e) in
      record {
        magnitude = record {
          words = s.words;
          trimmed =
              scaled-IsTrimmed b.limbs r.0 multiplier v.magnitude some pos s.words s.same_length
                same;
        };
        number = same;
        fits = omega (arith, s.same_length, v.fits);
        bounded = v.bounded;
      }

  with_carry :
      (r : List ℕ × ℕ) (capacity : ℕ) (s : Bool)
      → Scaled b.limbs multiplier 0 r
      → 0 < r.1
      → length r.0 + 1 ≤ capacity
      → capacity ≤ max_limbs
      → Holds
          (value b.limbs * multiplier)
          (record { limbs = r.0 ++ r.1 ∷ []; capacity = capacity; is_negative = s })
  with_carry r capacity s p pos room bound = record {
    magnitude = record {
      words = All-append IsLimb r.0 _ p.words (p.last, tt);
      trimmed = append-IsTrimmed r.0 r.1 pos;
    };
    number = omega (arith, p.product);
    fits = omega (arith, length-append r.0 (r.1 ∷ []), room);
    bounded = bound;
  }

  -- If `bigint_multiply_by_uint64` of an object with a canonical magnitude and a word returns BIGINT_OK,
  -- it leaves the product of the magnitude and the word, canonical and within the buffer.
  pub multiply_by_uint64-Holds :
      IfOk (Holds (value b.limbs * multiplier)) (multiply_by_uint64 b multiplier w)
  unfolding multiply_by_uint64
  multiply_by_uint64-Holds = elim (Bool-cases (is_empty b.limbs)) [
    | inl none ↦ rw none (λ p. record {
      magnitude = v.magnitude;
      number =
          sym (value_of_empty b.limbs none)
          ∙ omega (arith, ap (λ (t : ℕ). t * multiplier) (value_of_empty b.limbs none));
      fits = v.fits;
      bounded = v.bounded;
    })
    | inr some ↦ rw some (elim (Bool-cases (multiplier == 0)) [
      | inl by_zero ↦
          rw (by_zero, ==→eq multiplier 0 by_zero)
            (λ p.
              subst (λ (n : ℕ). Holds n (normalize (record b { limbs = [] }))) (omega arith)
                (normalize-Holds (record b { limbs = [] }) tt (omega arith) v.bounded))
      | inr nonzero ↦
          let m = scale_loop 0 b.limbs multiplier 0 w in
          let P = Holds (value b.limbs * multiplier) in
          let some_word : 0 < multiplier = ground (arith, ==→ne multiplier 0 nonzero) in
          rw nonzero (
            IfOk-on_ok P m _ _ λ e.
              let s =
                scale_loop-Scaled 0 b.limbs multiplier 0 w v.magnitude.words h (omega arith) e in
              let scaled : BigInt = record b { limbs = m.object.0 } in
              elim (Bool-cases (m.object.1 == 0)) [
                | inl done ↦
                    rw done (λ p. without_carry m.object some some_word s (==→eq m.object.1 0 done))
                | inr left ↦
                    let needed = length m.object.0 + 1 in
                    let grown = ensure_capacity scaled needed m.world in
                    let room = ensure_capacity-Ensured scaled needed m.world v.bounded in
                    rw
                      (
                        left,
                        size_add_fits (length m.object.0) 1
                            (omega (arith, s.same_length, v.fits, v.bounded)),
                      )
                      (IfOk-on_ok P grown _ _ λ f p.
                        with_carry m.object grown.object.capacity grown.object.is_negative s
                          (ground (arith, ==→ne m.object.1 0 left)) (room.room f) room.bounded)
              ])
    ])
  ]
