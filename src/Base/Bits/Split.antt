-- ===== src/Base/Bits/Split.antt =====
-- `&`, `|` and `^` work on the bits below and above a position separately.
use Prim.Native.Nat.{
  ℕ, zero, suc, ◌+◌, ◌*◌, ◌/◌, ◌%◌, ◌^◌, ◌≤◌, ◌<◌, min, max, differ, bit_and, bit_or, bit_xor,
  bit_xor-bitwise,
}
use mathlib.Core.Path.{◌≡◌, refl}
use native.Mathlib.Nat.{pow-succ', le_refl}
use native.Mathlib.Omega.{arith}
use num_forge.Base.Bits.{digits_fuel, and_halve, or_halve, two-mul-pow}

xor_halve : (a b : ℕ) → bit_xor a b ≡ bit_xor (a / 2) (b / 2) * 2 + differ (a % 2) (b % 2)
xor_halve zero b = rw (bit_xor-bitwise, bit_xor-bitwise) (omega arith)
xor_halve (suc a) b = omega (
  arith,
  bit_xor-bitwise (suc a) b,
  bit_xor-bitwise (suc a / 2) (b / 2),
  digits_fuel (λ y. y) differ a (suc a / 2) (suc a / 2) (b / 2) (omega arith) (le_refl _),
)

differ_bit : (x y : ℕ) → x ≤ 1 → y ≤ 1 → differ x y ≤ 1
differ_bit zero y p q = q
differ_bit (suc x) zero p q = p
differ_bit (suc zero) (suc y) p q = omega arith
differ_bit (suc (suc x)) (suc y) p q = absurd (omega arith)

-- An operation given by what it does to the lowest bits.
pub record IsBitwise (op : ℕ → ℕ → ℕ) (f : ℕ → ℕ → ℕ) : Type 0 where
  pub halve : (a b : ℕ) → op a b ≡ op (a / 2) (b / 2) * 2 + f (a % 2) (b % 2)
  pub of_zero : op 0 0 ≡ 0
  pub bit : (x y : ℕ) → x ≤ 1 → y ≤ 1 → f x y ≤ 1

pub and-IsBitwise : IsBitwise bit_and min
and-IsBitwise = record { halve = and_halve; of_zero = refl; bit = λ x y p q. omega arith }

pub or-IsBitwise : IsBitwise bit_or max
or-IsBitwise = record { halve = or_halve; of_zero = refl; bit = λ x y p q. omega arith }

pub xor-IsBitwise : IsBitwise bit_xor differ
xor-IsBitwise = record { halve = xor_halve; of_zero = refl; bit = differ_bit }

module _ {op f : ℕ → ℕ → ℕ} (bits : IsBitwise op f) where
  pub bitwise_split :
      (k q r s t : ℕ)
      → r < 2 ^ k
      → t < 2 ^ k
      → op (r + q * 2 ^ k) (t + s * 2 ^ k) ≡ op r t + op q s * 2 ^ k
  bitwise_split zero q r s t p h = ground (arith, bits.of_zero)
  bitwise_split (suc k) q r s t p h = ground (
    arith,
    bits.halve (r + q * 2 ^ suc k) (t + s * 2 ^ suc k),
    bits.halve r t,
    two-mul-pow q k,
    two-mul-pow s k,
    pow-succ' 2 k,
    two-mul-pow (op q s) k,
    bitwise_split k q (r / 2) s (t / 2),
  )

  pub bitwise-lt : (k r t : ℕ) → r < 2 ^ k → t < 2 ^ k → op r t < 2 ^ k
  bitwise-lt zero r t p h = ground (arith, bits.of_zero)
  bitwise-lt (suc k) r t p h = omega (
    arith,
    bits.halve r t,
    bits.bit (r % 2) (t % 2) (omega arith) (omega arith),
    pow-succ' 2 k,
    bitwise-lt k (r / 2) (t / 2) (omega (arith, pow-succ' 2 k)) (omega (arith, pow-succ' 2 k)),
  )
