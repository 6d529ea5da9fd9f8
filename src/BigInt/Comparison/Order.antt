-- ===== src/BigInt/Comparison/Order.antt =====
-- Comparison and inspection agree with the integers.
use Prim.Native.Nat.{Ordering}
use Prim.Native.Nat.Ordering.{lt, eq, gt}
use num_forge.Base.{ℕ, ◌+◌, ◌<◌, ◌≡◌, refl, Bool, true, false, List, [], ◌∷◌, length, arith}
use num_forge.Base.Int.{ℤ, signed, pos_part, neg_part}
use num_forge.BigInt.Types.{BigInt, IsValid, to_ℤ}
use num_forge.BigInt.Magnitude.Value.{value, IsMagnitude, IsTrimmed, value_pos}
use num_forge.BigInt.Magnitude.Compare.{compare_abs-cases}
use num_forge.BigInt.Comparison.{compare_by_signs, compare}

-- The order of two integers, through their parts.
abbrev pub order_ℤ : ℤ → ℤ → Ordering
order_ℤ u v = Prim.Native.Nat.compare (pos_part u + neg_part v) (pos_part v + neg_part u)

positive_of_negative : (b : BigInt) → IsValid b → b.is_negative ≡ true → 0 < value b.limbs
positive_of_negative b v h = positive b.limbs v.magnitude.trimmed (v.signed_nonzero h)
  where
    positive : (xs : List ℕ) → IsTrimmed xs → 0 < length xs → 0 < value xs
    positive [] t p = elim p [ ]
    positive (x ∷ xs) t p = value_pos x xs t

compare_by_signs_lem :
    (s t : Bool) (xs ys : List ℕ)
    → IsMagnitude xs
    → IsMagnitude ys
    → (s ≡ true → 0 < value xs)
    → (t ≡ true → 0 < value ys)
    → compare_by_signs s t xs ys ≡ order_ℤ (signed s (value xs)) (signed t (value ys))
unfolding compare_by_signs
compare_by_signs_lem true false xs ys mx my p q = ground (arith, p refl)
compare_by_signs_lem false true xs ys mx my p q = ground (arith, q refl)
compare_by_signs_lem true true xs ys mx my p q = ground (arith, compare_abs-cases xs ys mx my)
compare_by_signs_lem false false xs ys mx my p q = ground (arith, compare_abs-cases xs ys mx my)

-- `bigint_compare` returns the order of the integers that two valid objects stand for.
pub compare_lem : (a b : BigInt) → IsValid a → IsValid b → compare a b ≡ order_ℤ (to_ℤ a) (to_ℤ b)
unfolding compare
compare_lem a b va vb =
    compare_by_signs_lem a.is_negative b.is_negative a.limbs b.limbs va.magnitude vb.magnitude
      (positive_of_negative a va) (positive_of_negative b vb)
