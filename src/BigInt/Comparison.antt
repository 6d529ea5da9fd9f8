-- ===== src/BigInt/Comparison.antt =====
-- src/core/bigint/comparison.c on objects that are not NULL, and `bigint_get_bit`,
-- `bigint_bit_length` of bigint.c.
pub mod Bits
pub mod Order
pub mod Parity
use Prim.Native.Nat.{Ordering}
use Prim.Native.Nat.Ordering.{lt, eq, gt}
use num_forge.Base.{
  ℕ, zero, suc, ◌+◌, ◌-◌, ◌*◌, ◌/◌, ◌%◌, Bool, true, false, ◌&&◌, not, List, [], ◌∷◌, length,
  get_or, if◌then◌else◌, leb, ◌==◌, bit_and, ◌>>>◌,
}
use num_forge.BigInt.Types.{BigInt}
use num_forge.BigInt.Storage.{is_empty}
use num_forge.BigInt.Magnitude.Compare.{compare_abs}

-- `-comparison`.
abbrev pub opposite : Ordering → Ordering
opposite lt = gt
opposite eq = eq
opposite gt = lt

-- The branches of `bigint_compare`, by the signs.
unfoldable pub compare_by_signs : Bool → Bool → List ℕ → List ℕ → Ordering
compare_by_signs true false a b = lt
compare_by_signs false true a b = gt
compare_by_signs true true a b = opposite (compare_abs a b)
compare_by_signs false false a b = compare_abs a b

unfoldable pub compare : BigInt → BigInt → Ordering
unfolding compare_by_signs
compare a b = compare_by_signs a.is_negative b.is_negative a.limbs b.limbs

unfoldable pub is_zero : BigInt → Bool
is_zero b = is_empty b.limbs

unfoldable pub is_one : BigInt → Bool
is_one b = length b.limbs == 1 && (get_or b.limbs 0 0 == 1 && not b.is_negative)

unfoldable pub is_negative : BigInt → Bool
is_negative b = b.is_negative

-- `while (top != 0) { bits++; top >>= 1; }`, with fuel.
unfoldable pub count_bits : ℕ → ℕ → ℕ → ℕ
count_bits zero top bits = bits
count_bits (suc fuel) top bits =
    let more = count_bits fuel (top >>> 1) (bits + 1) in if top == 0 then bits else more

-- `bigint_bit_length`. A limb has 64 bits, so 64 rounds are enough.
unfoldable pub limbs_bit_length : List ℕ → ℕ
limbs_bit_length limbs =
    if is_empty limbs
    then 0
    else count_bits 64 (get_or limbs (length limbs - 1) 0) ((length limbs - 1) * 64)

abbrev pub bit_length : BigInt → ℕ
bit_length b = limbs_bit_length b.limbs

-- `bigint_get_bit`.
unfoldable pub get_bit : BigInt → ℕ → ℕ
get_bit b index =
    if leb (length b.limbs) (index / 64)
    then 0
    else bit_and (get_or b.limbs (index / 64) 0 >>> (index % 64)) 1

-- `bigint_is_even` and `bigint_is_odd` of src/core/bigint/primality.c.
unfoldable pub is_even : BigInt → Bool
is_even b = if is_empty b.limbs then true else (bit_and (get_or b.limbs 0 0) 1 == 0)

unfoldable pub is_odd : BigInt → Bool
is_odd b = if is_empty b.limbs then false else not (bit_and (get_or b.limbs 0 0) 1 == 0)
