-- ===== src/BigInt/Power/Squaring.antt =====
-- Repeated squaring computes powers.
use native.Mathlib.Nat.{pow-zero, pow-suc, pow-succ'}
use num_forge.Base.{
  ℕ, zero, suc, ◌+◌, ◌*◌, ◌/◌, ◌%◌, ◌^◌, ◌<◌, ◌≡◌, refl, Bool, true, false, ◌&&◌, not, differ,
  arith, if◌then◌else◌, ◌==◌, ap, ap₂, sym, ◌∙◌,
}
use num_forge.Base.Int.{pos, signed, ◌*ℤ◌, pow_ℤ}
use num_forge.BigInt.Multiplication.Product.{signed_product}

regroup_factors : (k p q : ℕ) → k * (k * (p * q)) ≡ k * k * p * q
regroup_factors k p q = omega arith

-- A base to two parts of an exponent, the first one doubled.
square_parts : (k q r : ℕ) → k ^ (q * 2 + r) ≡ (k * k) ^ q * k ^ r
square_parts k zero r = ap (λ (t : ℕ). k ^ t) none ∙ rw pow-zero (omega arith)
  where
    none : 0 * 2 + r ≡ r
    none = omega arith
square_parts k (suc q) r =
    ap (λ (t : ℕ). k ^ t) two_more
    ∙ pow-succ' k (suc (q * 2 + r))
    ∙ ap (λ (t : ℕ). k * t) (pow-succ' k (q * 2 + r))
    ∙ ap (λ (t : ℕ). k * (k * t)) (square_parts k q r)
    ∙ regroup
    ∙ ap (λ (t : ℕ). t * k ^ r) (sym (pow-succ' (k * k) q))
  where
    two_more : suc q * 2 + r ≡ suc (suc (q * 2 + r))
    two_more = omega arith

    regroup : k * (k * ((k * k) ^ q * k ^ r)) ≡ k * k * (k * k) ^ q * k ^ r
    regroup = regroup_factors k ((k * k) ^ q) (k ^ r)

halves-eq : (k d : ℕ) → k ^ d ≡ (k * k) ^ (d / 2) * k ^ (d % 2)
halves-eq k d = ap (λ (t : ℕ). k ^ t) split ∙ square_parts k (d / 2) (d % 2)
  where
    split : d ≡ d / 2 * 2 + d % 2
    split = omega arith

factor_in : (r m k p : ℕ) → r < 2 → (if r == 0 then m else m * k) * p ≡ m * (p * k ^ r)
factor_in zero m k p h = rw pow-zero (omega arith)
factor_in (suc zero) m k p h = rw (pow-suc k 0, pow-zero k) (omega arith)
factor_in (suc (suc r)) m k p h = absurd (omega arith)

-- One round on the numbers: the low bit of the exponent `d` goes into `m`, and the base is squared.
pub round_power : (m k d : ℕ) → (if d % 2 == 0 then m else m * k) * (k * k) ^ (d / 2) ≡ m * k ^ d
round_power m k d =
    factor_in (d % 2) m k ((k * k) ^ (d / 2)) (omega arith)
    ∙ ap (λ (t : ℕ). m * t) (sym (halves-eq k d))

pub last_round_power :
    (m k d : ℕ) → d < 2 → (if d % 2 == 0 then m else m * k) * k ^ (d / 2) ≡ m * k ^ d
last_round_power m k zero h = rw pow-zero (omega arith)
last_round_power m k (suc zero) h = rw (pow-suc k 0, pow-zero k) (omega arith)
last_round_power m k (suc (suc d)) h = absurd (omega arith)

sign_step : (s : Bool) (n : ℕ) → differ s (s && not (n % 2 == 0)) ≡ (s && not (suc n % 2 == 0))
sign_step true n = ground arith
sign_step false n = refl

sign_zero : (s : Bool) (m : ℕ) → pos 1 ≡ signed (s && false) (m ^ 0)
sign_zero true m = ap pos (sym (pow-zero m))
sign_zero false m = ap pos (sym (pow-zero m))

pub power_sign :
    (s : Bool) (m n : ℕ) → pow_ℤ (signed s m) n ≡ signed (s && not (n % 2 == 0)) (m ^ n)
power_sign s m zero = sign_zero s m
power_sign s m (suc n) =
    ap (λ v. signed s m *ℤ v) (power_sign s m n)
    ∙ sym (signed_product s (s && not (n % 2 == 0)) m (m ^ n))
    ∙ ap₂ signed (sign_step s n) (sym (pow-succ' m n))
