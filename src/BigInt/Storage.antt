-- ===== src/BigInt/Storage.antt =====
-- The storage helpers of src/core/bigint/bigint.c: checked sizes, growth of the limb buffer, copies,
-- small values, normal form.
pub mod Sizes
pub mod Growth
pub mod Holding
pub mod Normal
use num_forge.Base.{
  ℕ, zero, suc, ◌+◌, ◌-◌, ◌*◌, ◌/◌, ◌≡◌, Bool, true, false, ◌&&◌, not, Option, none, some, List, [],
  ◌∷◌, length, if◌then◌else◌, ltb, leb, ◌==◌, size_max,
}
use num_forge.Runtime.Budget.{World, alloc}
use num_forge.BigInt.Types.{
  BigInt, Status, ok, out_of_memory, value_too_large, Out, returns, on_ok, max_limbs, empty,
}
use num_forge.BigInt.Magnitude.Trim.{trim}

-- `bigint_size_add` and `bigint_size_mul`; `none` is BIGINT_OUT_OF_MEMORY.
unfoldable pub size_add : ℕ → ℕ → Option ℕ
size_add a b = if ltb (size_max - b) a then none else some (a + b)

unfoldable pub size_mul : ℕ → ℕ → Option ℕ
size_mul a b = if not (a == 0) && ltb (size_max / a) b then none else some (a * b)

-- The loop `while (new_capacity < needed)` of `bigint_ensure_capacity`, with fuel.
unfoldable pub grow : ℕ → ℕ → ℕ → ℕ
unfolding size_mul
grow zero capacity needed = capacity
grow (suc fuel) capacity needed =
    let rest = grow fuel (capacity * 2) needed in
    if ltb capacity needed
    then elim (size_mul capacity 2) [
      | none ↦ needed
      | some doubled ↦ if ltb max_limbs doubled then needed else rest
    ]
    else capacity

-- Each round adds to a capacity that is not 0, so `needed` rounds are enough.
abbrev pub grown_capacity : ℕ → ℕ → ℕ
grown_capacity capacity needed = grow needed (if capacity == 0 then 1 else capacity) needed

unfoldable pub ensure_capacity : BigInt → ℕ → World → Out BigInt
ensure_capacity b needed w =
    if ltb max_limbs needed
    then returns value_too_large b w
    else if leb needed b.capacity
    then returns ok b w
    else let capacity = grown_capacity b.capacity needed in
      elim (size_mul capacity 8) [
        | none ↦ returns out_of_memory b w
        | some bytes ↦
            let (granted, w') = alloc bytes w in
            if granted
            then returns ok (record b { capacity = capacity }) w'
            else returns out_of_memory b w'
      ]

abbrev pub is_empty : List ℕ → Bool
is_empty [] = true
is_empty (x ∷ xs) = false

-- `bigint_normalize`.
unfoldable pub normalize : BigInt → BigInt
normalize b =
    let limbs = trim b.limbs in
    record b { limbs = limbs; is_negative = if is_empty limbs then false else b.is_negative }

-- `bigint_set_uint64`.
unfoldable pub set_uint64 : BigInt → ℕ → World → Out BigInt
set_uint64 b amount w =
    if amount == 0
    then returns ok (record b { limbs = []; is_negative = false }) w
    else on_ok (ensure_capacity b 1 w) (λ b'. b')
        λ b' w'. returns ok (record b' { limbs = amount ∷ []; is_negative = false }) w'

-- `bigint_create`: NULL is `none`.
unfoldable pub create : World → Option BigInt × World
create w = let (room, w1) = alloc 32 w in (if room then some empty else none, w1)

-- `bigint_copy` between two objects.
unfoldable pub copy : BigInt → BigInt → World → Out BigInt
copy destination source w =
    if is_empty source.limbs
    then returns ok (record destination { limbs = []; is_negative = false }) w
    else on_ok (ensure_capacity destination (length source.limbs) w) (λ d. d)
        λ d w'. returns ok (record d { limbs = source.limbs; is_negative = source.is_negative }) w'
