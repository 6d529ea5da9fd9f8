-- ===== src/BigInt/SetBit.antt =====
-- `bigint_set_bit` of src/core/bigint/bigint.c. The sign is not touched.
use native.Mathlib.Nat.{pow-succ', mul-le-mul_left, one-le-pow}
use num_forge.Base.{
  ℕ, zero, suc, ◌+◌, ◌-◌, ◌*◌, ◌/◌, ◌%◌, ◌^◌, ◌<◌, ◌≤◌, ◌≡◌, refl, true, List, [], ◌∷◌, length,
  arith, radix, IsLimb, All, ap, ap₂, ◌∙◌, sym, bit_or, ◌<<<◌, none, some, max, size_max,
}
use num_forge.Base.Bits.{or_none, or_zero}
use num_forge.Base.Bits.Split.{or-IsBitwise, bitwise_split, bitwise-lt}
use num_forge.Runtime.Budget.{World}
use num_forge.BigInt.Types.{
  BigInt, IsValid, Out, out_of_memory, ok, returns, on_ok, is_ok, max_limbs,
}
use num_forge.BigInt.Contract.{IfOk-on_ok}
use num_forge.BigInt.Storage.{size_add, ensure_capacity}
use num_forge.BigInt.Storage.Sizes.{size_add_fits}
use num_forge.BigInt.Storage.Growth.{ensure_capacity-Ensured}
use num_forge.BigInt.Magnitude.Value.{value}
use num_forge.BigInt.Bitwise.Powers.{pow_parts, pow_complement_even}

-- The limbs with `flag` set in limb `index`; zero limbs are added up to there.
unfoldable pub set_limb : ℕ → ℕ → List ℕ → List ℕ
set_limb zero flag [] = bit_or 0 flag ∷ []
set_limb zero flag (x ∷ xs) = bit_or x flag ∷ xs
set_limb (suc index) flag [] = 0 ∷ set_limb index flag []
set_limb (suc index) flag (x ∷ xs) = x ∷ set_limb index flag xs

unfoldable pub set_bit : BigInt → ℕ → World → Out BigInt
unfolding set_limb
set_bit b index w = elim (size_add (index / 64) 1) [
  | none ↦ returns out_of_memory b w
  | some needed ↦
      on_ok (ensure_capacity b needed w) (λ b'. b')
        λ b' w'.
          returns ok (record b' { limbs = set_limb (index / 64) (1 <<< (index % 64)) b'.limbs }) w'
]

-- `|` limb by limb.
or_split :
    (a b x y v u : ℕ)
    → x < radix
    → y < radix
    → a ≡ x + radix * v
    → b ≡ y + radix * u
    → bit_or a b ≡ bit_or x y + radix * bit_or v u
or_split a b x y v u p q e f =
    let left : a ≡ x + v * 2 ^ 64 = omega (arith, e) in
    let right : b ≡ y + u * 2 ^ 64 = omega (arith, f) in
    ap₂ bit_or left right ∙ bitwise_split or-IsBitwise 64 v x u y p q ∙ omega arith

value-set_limb :
    (index flag : ℕ) (xs : List ℕ)
    → flag < radix
    → All IsLimb xs
    → value (set_limb index flag xs) ≡ bit_or (value xs) (radix ^ index * flag)
unfolding set_limb
value-set_limb zero flag [] h w = omega (arith, or_zero flag, or_zero (radix ^ 0 * flag))
value-set_limb zero flag (x ∷ xs) h w = omega (
  arith,
  or_split (value (x ∷ xs)) (radix ^ 0 * flag) x flag (value xs) 0 w.0 h refl (omega arith),
  or_none (value xs) (value xs) (omega arith),
)
value-set_limb (suc index) flag [] h w = omega (
  arith,
  or_zero (radix ^ suc index * flag),
  or_zero (radix ^ index * flag),
  value-set_limb index flag [] h w,
  ap (λ (t : ℕ). t * flag) (pow-succ' radix index),
)
value-set_limb (suc index) flag (x ∷ xs) h w = omega (
  arith,
  or_split (value (x ∷ xs)) (radix ^ suc index * flag) x 0 (value xs) (radix ^ index * flag) w.0
      (omega arith) refl (omega (arith, ap (λ (t : ℕ). t * flag) (pow-succ' radix index))),
  or_none x x (omega arith),
  value-set_limb index flag xs h w.1,
)

set_limb-words :
    (index flag : ℕ) (xs : List ℕ)
    → flag < radix
    → All IsLimb xs
    → All IsLimb (set_limb index flag xs)
unfolding set_limb
set_limb-words zero flag [] h w = (bitwise-lt or-IsBitwise 64 0 flag (omega arith) h, tt)
set_limb-words zero flag (x ∷ xs) h w = (bitwise-lt or-IsBitwise 64 x flag w.0 h, w.1)
set_limb-words (suc index) flag [] h w = (omega arith, set_limb-words index flag [] h w)
set_limb-words (suc index) flag (x ∷ xs) h w = (w.0, set_limb-words index flag xs h w.1)

length-set_limb :
    (index flag : ℕ) (xs : List ℕ) → length (set_limb index flag xs) ≡ max (length xs) (index + 1)
unfolding set_limb
length-set_limb zero flag [] = omega arith
length-set_limb zero flag (x ∷ xs) = omega arith
length-set_limb (suc index) flag [] = omega (arith, length-set_limb index flag [])
length-set_limb (suc index) flag (x ∷ xs) = omega (arith, length-set_limb index flag xs)

-- The limbs with the bit set, within the buffer.
pub record BitSet (b : BigInt) (n : ℕ) (r : BigInt) : Type 0 where
  pub number : value r.limbs ≡ bit_or (value b.limbs) (2 ^ n)
  pub words : All IsLimb r.limbs
  pub fits : length r.limbs ≤ r.capacity
  pub bounded : r.capacity ≤ max_limbs

flag-eq : (k : ℕ) → k < 64 → 1 <<< k ≡ 2 ^ k
flag-eq k h =
    let below : 2 ^ k * 2 ≤ 2 ^ k * (2 * 2 ^ (63 - k)) =
      mul-le-mul_left (2 ^ k) (omega (arith, one-le-pow (63 - k) 2 (omega arith))) in
    omega (arith, below, pow_complement_even k h, one-le-pow k 2 (omega arith))

module _ (b : BigInt) (n : ℕ) (w : World) (v : IsValid b) (small : n ≤ size_max) where
  flagged :
      (r : BigInt)
      → r.limbs ≡ b.limbs
      → n / 64 + 1 ≤ r.capacity
      → b.capacity ≤ r.capacity
      → r.capacity ≤ max_limbs
      → BitSet b n (record r { limbs = set_limb (n / 64) (1 <<< (n % 64)) r.limbs })
  flagged r e room grows bound =
      let flag = 1 <<< (n % 64) in
      let same = flag-eq (n % 64) (omega arith) in
      let below : flag < radix = omega arith in
      simp e (record {
        number =
            value-set_limb (n / 64) flag b.limbs below v.magnitude.words
            ∙ ap (bit_or (value b.limbs))
                (ap (λ (t : ℕ). radix ^ (n / 64) * t) same ∙ sym (pow_parts n));
        words = set_limb-words (n / 64) flag b.limbs below v.magnitude.words;
        fits = omega (arith, length-set_limb (n / 64) flag b.limbs, room, grows, v.fits);
        bounded = bound;
      })

  -- If `bigint_set_bit` of a valid object returns BIGINT_OK, it leaves the number with bit `n` set and
  -- all others as they were, within the buffer.
  pub set_bit-BitSet : is_ok (set_bit b n w).status ≡ true → BitSet b n (set_bit b n w).object
  unfolding set_bit
  set_bit-BitSet =
      let grown = ensure_capacity b (n / 64 + 1) w in
      let room = ensure_capacity-Ensured b (n / 64 + 1) w v.bounded in
      let flag = 1 <<< (n % 64) in
      let below : flag < radix = omega arith in
      rw (size_add_fits (n / 64) 1 (omega arith), set_bit)
        (IfOk-on_ok (BitSet b n) grown _ _ (λ e p.
          flagged grown.object room.same_limbs (omega (arith, room.room e)) room.grows
            room.bounded))
