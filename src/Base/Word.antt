-- ===== src/Base/Word.antt =====
-- 64-bit words as native numbers: arithmetic wraps by `%`, shifts are `*` and `/`.
-- `size_t` has 64 bits too.
use Prim.Native.Nat.{ℕ, ◌+◌, ◌-◌, ◌*◌, ◌/◌, ◌%◌, ◌^◌, ◌<◌}

-- 2 ^ 64, the radix of a limb.
abbrev pub radix : ℕ
radix = 2 ^ 64

abbrev pub u64 : ℕ → ℕ
u64 n = n % radix

abbrev pub u32 : ℕ → ℕ
u32 n = n % 2 ^ 32

abbrev pub size_max : ℕ
size_max = radix - 1

abbrev pub uint64_max : ℕ
uint64_max = radix - 1

-- `a - b` in `uint64_t`.
abbrev pub sub_u64 : ℕ → ℕ → ℕ
sub_u64 a b = (a + radix - b) % radix

-- `x << k` and `x >> k` in `uint64_t`.
infixl 70 ◌<<<◌ ◌>>>◌
abbrev pub ◌<<<◌ : ℕ → ℕ → ℕ
x <<< k = u64 (x * 2 ^ k)

abbrev pub ◌>>>◌ : ℕ → ℕ → ℕ
x >>> k = x / 2 ^ k

abbrev pub IsLimb : ℕ → Type 0
IsLimb x = x < radix
