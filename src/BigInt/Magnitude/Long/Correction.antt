-- ===== src/BigInt/Magnitude/Long/Correction.antt =====
-- The estimate of a quotient digit is right or 1 too large.
use native.Mathlib.Nat.{mul-le-mul_right, div-add-mod, mod-lt, div-lt_iff_lt-mul}
use num_forge.Base.{
  ℕ, zero, suc, ◌+◌, ◌*◌, ◌/◌, ◌%◌, ◌^◌, ◌<◌, ◌≤◌, ◌≡◌, true, ◌&&◌, ◌||◌, arith, ap, radix, u64,
  sub_u64, uint64_max, inl, inr, Bool-cases, ==→eq, ltb, leb, ◌==◌,
}
use num_forge.BigInt.Magnitude.Multiply.{multiply_u64_u64}
use num_forge.BigInt.Magnitude.Multiply.WordProduct.{multiply_u64_u64_lem}
use num_forge.BigInt.Magnitude.Long.{correct_loop, quotient_estimate}
use num_forge.BigInt.Magnitude.Long.Estimate.{too_large}

-- The test of the loop compares the product with the remainder and the third limb.
fits_test :
    (e v2 r third : ℕ)
    → e < radix
    → v2 < radix
    → third < radix
    → (ltb (multiply_u64_u64 e v2).0 r
        || ((multiply_u64_u64 e v2).0 == r && leb (multiply_u64_u64 e v2).1 third))
      ≡ leb (e * v2) (third + radix * r)
fits_test e v2 r third he hv ht = ground (arith, multiply_u64_u64_lem e v2 he hv)

module _ (p u ul v vl v1 v2 third h2 : ℕ) (cut_u : u ≡ p * (third + radix * h2) + ul)
    (cut_v : v ≡ p * (v2 + radix * v1) + vl) (hu : ul < p) (hv : vl < p) (normal : 2 ^ 63 ≤ v1)
    (b1 : v1 < radix) (b2 : v2 < radix) (b3 : third < radix) where
  -- Not too small, and not too large for the tops.
  pub record IsEstimate (q : ℕ) : Type 0 where
    pub enough : u < suc q * v
    pub fits : q * (v2 + radix * v1) ≤ third + radix * h2
    pub word : q < radix

  accepted :
      (e r : ℕ)
      → e * v1 + r ≡ h2
      → e * v2 ≤ third + radix * r
      → e * (v2 + radix * v1) ≤ third + radix * h2
  accepted e r s h = omega (arith, ap (λ (t : ℕ). radix * t) s)

  refused : (e r : ℕ) → e * v1 + r ≡ h2 → third + radix * r < e * v2 → u < e * v
  refused e r s h =
      too_large p u (third + radix * h2) ul v (v2 + radix * v1) vl cut_u cut_v hu hv e
        (omega (arith, ap (λ (t : ℕ). radix * t) s))

  overflowed :
      (l r : ℕ)
      → l * v1 + r ≡ h2
      → l < radix
      → radix ≤ r
      → l * (v2 + radix * v1) ≤ third + radix * h2
  overflowed l r s h k =
      let small : l * v2 ≤ radix * v2 = mul-le-mul_right v2 (omega arith) in
      omega (arith, small, ap (λ (t : ℕ). radix * t) s, b2)

  pub correct_loop-IsEstimate :
      (fuel e r : ℕ)
      → e * v1 + r ≡ h2
      → r < radix
      → e < radix
      → u < suc e * v
      → radix ≤ r + fuel * 2 ^ 63
      → IsEstimate (correct_loop fuel e r third v1 v2)
  unfolding correct_loop
  correct_loop-IsEstimate zero e r s hr he enough fuel = absurd (omega arith)
  correct_loop-IsEstimate (suc f) zero r s hr he enough fuel =
      let always : leb (0 * v2) (third + radix * r) ≡ true = ground arith in
      rw (fits_test zero v2 r third he b2 b3, always)
        (record { enough = enough; fits = omega arith; word = omega arith })
  correct_loop-IsEstimate (suc f) (suc l) r s hr he enough fuel =
      let lowered : sub_u64 (suc l) 1 ≡ l = omega arith in
      rw (fits_test (suc l) v2 r third he b2 b3, lowered)
        (elim (Bool-cases (leb (suc l * v2) (third + radix * r))) [
          | inl fits ↦ rw fits (record {
            enough = enough;
            fits = accepted (suc l) r s (ground (arith, fits));
            word = he;
          })
          | inr large ↦
              let less = refused (suc l) r s (ground (arith, large)) in
              rw large (elim (Bool-cases (ltb (u64 (r + v1)) r)) [
                | inl over ↦ rw over (record {
                  enough = less;
                  fits =
                      overflowed l (r + v1) (omega (arith, s)) (omega arith) (ground (arith, over));
                  word = omega arith;
                })
                | inr under ↦
                    let same : u64 (r + v1) ≡ r + v1 = ground (arith, under) in
                    rw (under, same)
                      (correct_loop-IsEstimate f l (r + v1) (omega (arith, s))
                        (ground (arith, under)) (omega arith) less (omega (arith, fuel, normal)))
              ])
        ])

  -- The first estimate, and the corrections.
  pub quotient_estimate-IsEstimate :
      (high low : ℕ)
      → h2 ≡ high * radix + low
      → high ≤ v1
      → low < radix
      → u < radix * v
      → IsEstimate (quotient_estimate high low third v1 v2)
  unfolding quotient_estimate
  quotient_estimate-IsEstimate high low top bound hl room = elim (Bool-cases (high == v1)) [
    | inl equal ↦
        let same = ==→eq high v1 equal in
        rw equal (elim (Bool-cases (ltb (u64 (low + v1)) low)) [
          | inl over ↦ rw over (record {
            enough = room;
            fits =
                overflowed uint64_max (low + v1) (omega (arith, top, same)) (omega arith)
                  (ground (arith, over));
            word = omega arith;
          })
          | inr under ↦
              let sum : u64 (low + v1) ≡ low + v1 = ground (arith, under) in
              rw (under, sum)
                (correct_loop-IsEstimate 2 uint64_max (low + v1) (omega (arith, top, same))
                  (ground (arith, under)) (omega arith) room (omega (arith, normal)))
        ])
    | inr less ↦
        let below : high < v1 = ground (arith, less) in
        let split = div-add-mod (high * radix + low) v1 in
        let left : (high * radix + low) % v1 < v1 = mod-lt (high * radix + low) (omega arith) in
        let digit = (high * radix + low) / v1 in
        let tops : third + radix * h2 < suc digit * (v2 + radix * v1) =
          omega (arith, top, left, split) in
        rw less (
          correct_loop-IsEstimate 2 digit ((high * radix + low) % v1) (omega (arith, split, top))
            (omega (arith, left)) ((div-lt_iff_lt-mul (omega arith)).1 (omega (arith, below, hl)))
            (too_large p u (third + radix * h2) ul v (v2 + radix * v1) vl cut_u cut_v hu hv
              (suc digit) tops)
            (omega arith))
  ]
