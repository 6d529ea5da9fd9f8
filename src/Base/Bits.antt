-- ===== src/Base/Bits.antt =====
-- `&` with a mask of low bits is a remainder, and `|` of disjoint fields is a sum.
pub mod Split
use Prim.Native.Nat.{ℕ, zero, suc, ◌+◌, ◌-◌, ◌*◌, ◌/◌, ◌%◌, ◌^◌, ◌≤◌, ◌<◌, min, max}
use Prim.Native.Nat.{bit_and, bit_or, digits, bit_and-bitwise, bit_or-bitwise}
use mathlib.Core.Path.{◌≡◌, refl, sym, ap, ◌∙◌}
use native.Mathlib.Nat.{pow-succ', one-le-pow, le_refl}
use native.Mathlib.Omega.{arith}

-- The fuel of `digits` does not matter once it reaches the first argument.
digits_fuel :
    (z : ℕ → ℕ) (f : ℕ → ℕ → ℕ) (n m a b : ℕ) → a ≤ n → a ≤ m → digits z f n a b ≡ digits z f m a b
digits_fuel z f zero zero a b p q = refl
digits_fuel z f (suc n) zero zero b p q = refl
digits_fuel z f zero (suc m) zero b p q = refl
digits_fuel z f (suc n) (suc m) zero b p q = refl
digits_fuel z f zero m (suc a) b p q = absurd (omega arith)
digits_fuel z f (suc n) zero (suc a) b p q = absurd (omega arith)
digits_fuel z f (suc n) (suc m) (suc a) b p q =
    rw (digits_fuel z f n m (suc a / 2) (b / 2) (omega arith) (omega arith))

and_halve : (a b : ℕ) → bit_and a b ≡ bit_and (a / 2) (b / 2) * 2 + min (a % 2) (b % 2)
and_halve zero b = rw (bit_and-bitwise, bit_and-bitwise) (omega arith)
and_halve (suc a) b = omega (
  arith,
  bit_and-bitwise (suc a) b,
  bit_and-bitwise (suc a / 2) (b / 2),
  digits_fuel (λ y. 0) min a (suc a / 2) (suc a / 2) (b / 2) (omega arith) (le_refl _),
)

or_halve : (a b : ℕ) → bit_or a b ≡ bit_or (a / 2) (b / 2) * 2 + max (a % 2) (b % 2)
or_halve zero b = rw (bit_or-bitwise, bit_or-bitwise) (omega arith)
or_halve (suc a) b = omega (
  arith,
  bit_or-bitwise (suc a) b,
  bit_or-bitwise (suc a / 2) (b / 2),
  digits_fuel (λ y. y) max a (suc a / 2) (suc a / 2) (b / 2) (omega arith) (le_refl _),
)

pub and_zero : (n a : ℕ) → a ≤ n → bit_and a 0 ≡ 0
and_zero n zero h = refl
and_zero zero (suc a) h = absurd (omega arith)
and_zero (suc n) (suc a) h =
    omega (arith, and_halve (suc a) 0, and_zero n (suc a / 2) (omega arith))

pub or_zero : (b : ℕ) → bit_or 0 b ≡ b
or_zero b = bit_or-bitwise 0 b

two-mul-pow : (q k : ℕ) → q * 2 ^ suc k ≡ 2 * (q * 2 ^ k)
two-mul-pow q k = omega (arith, ap (λ (t : ℕ). q * t) (pow-succ' 2 k))

and_low : (k q r : ℕ) → r < 2 ^ k → bit_and (q * 2 ^ k + r) (2 ^ k - 1) ≡ r
and_low zero q r h = omega (arith, and_zero (q * 1 + r) (q * 1 + r) (le_refl _))
and_low (suc k) q r h = ground (
  arith,
  and_halve (q * 2 ^ suc k + r) (2 ^ suc k - 1),
  two-mul-pow q k,
  pow-succ' 2 k,
  one-le-pow k 2,
  and_low k q (r / 2),
)

-- `x & mask` with `k` ones in the mask keeps the `k` low bits.
pub bit_and-mask : (k x : ℕ) → bit_and x (2 ^ k - 1) ≡ x % 2 ^ k
bit_and-mask k x = ground (arith, one-le-pow k 2, and_low k (x / 2 ^ k) (x % 2 ^ k))

-- `r | (q << k)` where `r` fits below bit `k`.
pub bit_or-field : (k q r : ℕ) → r < 2 ^ k → bit_or r (q * 2 ^ k) ≡ r + q * 2 ^ k
bit_or-field zero q r h = ground (arith, or_zero (q * 1))
bit_or-field (suc k) q r h =
    ground
      (arith, or_halve r (q * 2 ^ suc k), two-mul-pow q k, pow-succ' 2 k, bit_or-field k q (r / 2))

pub or_none : (n a : ℕ) → a ≤ n → bit_or a 0 ≡ a
or_none n zero h = refl
or_none zero (suc a) h = absurd (omega arith)
or_none (suc n) (suc a) h = omega (arith, or_halve (suc a) 0, or_none n (suc a / 2) (omega arith))

-- `(q << 1) | r` for a binary digit `r`.
pub bit_or-digit : (q r : ℕ) → r ≤ 1 → bit_or (q * 2) r ≡ q * 2 + r
bit_or-digit q r h =
    let halves : q * 2 / 2 ≡ q = omega arith in
    let none : r / 2 ≡ 0 = omega arith in
    or_halve (q * 2) r ∙ rw (halves, none, or_none q q (le_refl q)) (omega arith)

or_comm_fuel : (n a b : ℕ) → a ≤ n → bit_or a b ≡ bit_or b a
or_comm_fuel n zero b h = or_zero b ∙ sym (or_none b b (le_refl b))
or_comm_fuel zero (suc a) b h = absurd (omega arith)
or_comm_fuel (suc n) (suc a) b h = omega (
  arith,
  or_halve (suc a) b,
  or_halve b (suc a),
  or_comm_fuel n (suc a / 2) (b / 2) (omega arith),
)

pub bit_or_comm : (a b : ℕ) → bit_or a b ≡ bit_or b a
bit_or_comm a b = or_comm_fuel a a b (le_refl a)
