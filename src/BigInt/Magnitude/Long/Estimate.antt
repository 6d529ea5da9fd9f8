-- ===== src/BigInt/Magnitude/Long/Estimate.antt =====
-- The numbers behind the estimate of a quotient digit.
use native.Mathlib.Nat.{mul-le-mul_left, mul-le-mul_right}
use num_forge.Base.{ℕ, suc, ◌+◌, ◌*◌, ◌<◌, ◌≤◌, ◌≡◌, arith, ap, radix}

-- `u` and `v` cut at `p`: their tops `u3` and `v2`, and what is below.
module _ (p u u3 ul v v2 vl : ℕ) (cut_u : u ≡ p * u3 + ul) (cut_v : v ≡ p * v2 + vl) (hu : ul < p)
    (hv : vl < p) where
  -- An estimate that is too large for the tops is too large.
  pub too_large : (q : ℕ) → u3 < q * v2 → u < q * v
  too_large q h =
      let tops : p * suc u3 ≤ p * (q * v2) = mul-le-mul_left p (omega arith) in
      omega (arith, tops, cut_u, hu, ap (λ (t : ℕ). q * t) cut_v)

  -- An estimate that fits the tops is at most 1 too large, if the divisor's top has two limbs.
  pub one_too_large : (q : ℕ) → suc q * v2 ≤ u3 → suc q < radix → radix ≤ v2 → q * v ≤ u
  one_too_large q h small large =
      let tops : p * (suc q * v2) ≤ p * u3 = mul-le-mul_left p h in
      let low : suc q * vl ≤ suc q * p = mul-le-mul_left (suc q) (omega arith) in
      let digit : suc q * p ≤ radix * p = mul-le-mul_right p (omega arith) in
      let top : p * radix ≤ p * v2 = mul-le-mul_left p large in
      omega (arith, tops, low, digit, top, cut_u, ap (λ (t : ℕ). q * t) cut_v)
