-- ===== src/BigInt/Storage/Sizes.antt =====
-- The overflow checks on `size_t`.
use native.Mathlib.Nat.{le-div_iff_mul-le}
use num_forge.Base.{
  ℕ, zero, suc, ◌+◌, ◌*◌, ◌≤◌, ◌≡◌, none, some, arith, if◌then◌else◌, leb, size_max,
}
use num_forge.BigInt.Storage.{size_mul, size_add}

-- `bigint_size_add` returns the sum, unless the sum does not fit `size_t`.
pub size_add_lem :
    (a b : ℕ) → b ≤ size_max → size_add a b ≡ (if leb (a + b) size_max then some (a + b) else none)
unfolding size_add
size_add_lem a b h = ground arith

-- `bigint_size_mul` returns the product, unless the product does not fit `size_t`: its test by a
-- division never errs.
pub size_mul_lem : (a b : ℕ) → size_mul a b ≡ (if leb (a * b) size_max then some (a * b) else none)
unfolding size_mul
size_mul_lem zero b = ground arith
size_mul_lem (suc a) b =
    let exact = le-div_iff_mul-le {k = suc a} {x = b} {y = size_max} (omega arith) in
    ground (arith, exact)

pub size_mul_fits : (a b : ℕ) → a * b ≤ size_max → size_mul a b ≡ some (a * b)
size_mul_fits a b h = ground (arith, size_mul_lem a b)

pub size_add_fits : (a b : ℕ) → a + b ≤ size_max → size_add a b ≡ some (a + b)
size_add_fits a b h = ground (arith, size_add_lem a b)
