-- ===== src/BigInt/Arithmetic.antt =====
-- src/core/bigint/arithmetic.c, with the magnitude routines of src/core/bigint/bigint.c below it.
-- `result`, `a` and `b` are the objects as a call finds them; an operand may be the object that
-- `result` is, since every routine has read an operand's limb before it writes that limb.
pub mod ByWord
pub mod Magnitudes
pub mod Scaling
pub mod Signed
pub mod Total
use Prim.Native.Nat.{Ordering}
use Prim.Native.Nat.Ordering.{lt, eq, gt}
use num_forge.Base.{
  ℕ, zero, suc, ◌+◌, ◌/◌, Bool, true, false, ◌&&◌, ◌||◌, not, Option, none, some, List, [], ◌∷◌,
  ◌++◌, length, take, replicate, if◌then◌else◌, ltb, leb, ◌==◌, max, min,
}
use num_forge.Runtime.Budget.{World, calloc}
use num_forge.BigInt.Types.{
  BigInt, Status, ok, out_of_memory, value_too_large, Out, returns, on_ok, max_limbs, empty,
}
use num_forge.BigInt.Storage.{size_add, ensure_capacity, normalize, copy, is_empty}
use num_forge.BigInt.Magnitude.Compare.{compare_abs}
use num_forge.BigInt.Magnitude.Add.{add_limbs, sub_limbs, add_word}
use num_forge.BigInt.Magnitude.Multiply.{scale_loop, rows}

-- `bigint_add_uint64`. Without room for a last carry the limbs are left wrapped.
unfoldable pub add_uint64 : BigInt → ℕ → World → Out BigInt
add_uint64 b amount w =
    let limbs = add_word b.limbs amount in
    let wrapped = record b { limbs = take (length b.limbs) limbs } in
    if amount == 0
    then returns ok b w
    else if leb (length limbs) (length b.limbs)
    then returns ok wrapped w
    else elim (size_add (length b.limbs) 1) [
      | none ↦ returns out_of_memory wrapped w
      | some needed ↦
          on_ok (ensure_capacity wrapped needed w) (λ b'. b')
            λ b' w'. returns ok (record b' { limbs = limbs }) w'
    ]

-- `bigint_multiply_by_uint64`.
unfoldable pub multiply_by_uint64 : BigInt → ℕ → World → Out BigInt
multiply_by_uint64 b multiplier w =
    if is_empty b.limbs
    then returns ok b w
    else if multiplier == 0
    then returns ok (normalize (record b { limbs = [] })) w
    else on_ok (scale_loop 0 b.limbs multiplier 0 w) (λ r. record b { limbs = r.0 })
        λ r w'.
          let scaled = record b { limbs = r.0 } in
          if r.1 == 0 then returns ok scaled w' else elim (size_add (length r.0) 1) [
            | none ↦ returns out_of_memory scaled w'
            | some needed ↦
                on_ok (ensure_capacity scaled needed w') (λ b'. b')
                  λ b' w''. returns ok (record b' { limbs = r.0 ++ r.1 ∷ [] }) w''
          ]

-- `bigint_add_abs`. The sign of the object is the caller's business.
unfoldable pub add_abs : BigInt → BigInt → BigInt → World → Out BigInt
add_abs result a b w = elim (size_add (max (length a.limbs) (length b.limbs)) 1) [
  | none ↦ returns out_of_memory result w
  | some needed ↦
      on_ok (ensure_capacity result needed w) (λ r. r)
        λ r w'. returns ok (record r { limbs = add_limbs a.limbs b.limbs }) w'
]

-- `bigint_subtract_abs` once the larger magnitude stands first.
unfoldable pub subtract_ordered : BigInt → BigInt → BigInt → World → Out BigInt
subtract_ordered result a b w =
    on_ok (ensure_capacity result (length a.limbs) w) (λ r. r)
      λ r w'. returns ok (normalize (record r { limbs = sub_limbs a.limbs b.limbs })) w'

-- `bigint_subtract_abs`, which calls itself with the operands exchanged if need be.
unfoldable pub subtract_abs : BigInt → BigInt → BigInt → World → Out BigInt
unfolding subtract_ordered
subtract_abs result a b w = elim (compare_abs a.limbs b.limbs) [
  | lt ↦ subtract_ordered result b a w
  | eq ↦ subtract_ordered result a b w
  | gt ↦ subtract_ordered result a b w
]

-- `result->is_negative = negative; bigint_normalize(result);`
abbrev pub finish : Bool → Out BigInt → Out BigInt
finish negative m =
    on_ok m (λ r. r) λ r w. returns ok (normalize (record r { is_negative = negative })) w

-- The branches of `bigint_add`, by the signs of `a` and `b`.
unfoldable pub add_by_signs : Bool → Bool → BigInt → BigInt → BigInt → World → Out BigInt
add_by_signs true true result a b w = finish true (add_abs result a b w)
add_by_signs true false result a b w = elim (compare_abs a.limbs b.limbs) [
  | gt ↦ finish true (subtract_abs result a b w)
  | eq ↦ finish false (subtract_abs result b a w)
  | lt ↦ finish false (subtract_abs result b a w)
]
add_by_signs false true result a b w = elim (compare_abs a.limbs b.limbs) [
  | lt ↦ finish true (subtract_abs result b a w)
  | eq ↦ finish false (subtract_abs result a b w)
  | gt ↦ finish false (subtract_abs result a b w)
]
add_by_signs false false result a b w = finish false (add_abs result a b w)

-- `bigint_add`.
unfoldable pub add : BigInt → BigInt → BigInt → World → Out BigInt
unfolding add_by_signs
add result a b w = add_by_signs a.is_negative b.is_negative result a b w

-- `bigint_abs` and `bigint_negate`.
unfoldable pub abs : BigInt → BigInt → World → Out BigInt
abs result b w =
    on_ok (copy result b w) (λ r. r) λ r w'. returns ok (record r { is_negative = false }) w'

unfoldable pub negate : BigInt → BigInt → World → Out BigInt
negate result b w =
    on_ok (copy result b w) (λ r. r)
      λ r w'. returns ok (normalize (record r { is_negative = not b.is_negative })) w'

-- `bigint_sub`: the sum with a negated copy of `b`.
unfoldable pub sub : BigInt → BigInt → BigInt → World → Out BigInt
sub result a b w = on_ok (negate empty b w) (λ _. result) λ negated_b w'. add result a negated_b w'
