-- ===== src/BigInt/Magnitude/Compare.antt =====
-- `bigint_compare_abs`: sizes first, then the limbs from the top.
use Prim.Native.Nat.{compare, Ordering}
use Prim.Native.Nat.Ordering.{lt, eq, gt}
use num_forge.Base.{
  ℕ, zero, suc, ◌+◌, ◌*◌, ◌<◌, ◌≡◌, refl, List, [], ◌∷◌, arith, radix, IsLimb, All, length, get_or,
  if◌then◌else◌, ltb, ◌⊎◌,
}
use num_forge.BigInt.Magnitude.Value.{value, IsMagnitude, value-lt_of_length}

-- The loop `for (i = size; i > 0; i--)`, which stops at the first limbs that differ.
unfoldable pub compare_limbs : List ℕ → List ℕ → ℕ → Ordering
compare_limbs a b zero = eq
compare_limbs a b (suc i) =
    let rest = compare_limbs a b i in
    if ltb (get_or a i 0) (get_or b i 0)
    then lt
    else if ltb (get_or b i 0) (get_or a i 0)
    then gt
    else rest

-- -1, 0 and 1 of the source are `lt`, `eq` and `gt`.
unfoldable pub compare_abs : List ℕ → List ℕ → Ordering
compare_abs a b =
    if ltb (length a) (length b)
    then lt
    else if ltb (length b) (length a)
    then gt
    else compare_limbs a b (length a)

-- The lowest limbs decide last.
compare_limbs-cons :
    (x y : ℕ) (xs ys : List ℕ) (n : ℕ)
    → compare_limbs (x ∷ xs) (y ∷ ys) (suc n)
      ≡ elim (compare_limbs xs ys n) [ eq ↦ compare x y | lt ↦ lt | gt ↦ gt ]
unfolding compare_limbs
compare_limbs-cons x y xs ys zero = ground arith
compare_limbs-cons x y xs ys (suc n) = ground (arith, compare_limbs-cons x y xs ys n)

compare_step :
    (x y v w : ℕ) (o : Ordering)
    → x < radix
    → y < radix
    → o ≡ compare v w
    → elim o [ eq ↦ compare x y | lt ↦ lt | gt ↦ gt ] ≡ compare (x + radix * v) (y + radix * w)
compare_step x y v w o p q e = ground arith

compare_limbs-zero : (xs ys : List ℕ) → compare_limbs xs ys 0 ≡ eq
unfolding compare_limbs
compare_limbs-zero xs ys = refl

compare_limbs_lem :
    (xs ys : List ℕ)
    → All IsLimb xs
    → All IsLimb ys
    → length xs ≡ length ys
    → compare_limbs xs ys (length xs) ≡ compare (value xs) (value ys)
compare_limbs_lem [] [] wx wy e = compare_limbs-zero [] []
compare_limbs_lem [] (y ∷ ys) wx wy e = absurd (omega arith)
compare_limbs_lem (x ∷ xs) [] wx wy e = absurd (omega arith)
compare_limbs_lem (x ∷ xs) (y ∷ ys) wx wy e = rw (compare_limbs-cons x y xs ys (length xs)) (
    compare_step x y (value xs) (value ys) _ wx.0 wy.0
      (compare_limbs_lem xs ys wx.1 wy.1 (omega arith)))

-- On canonical magnitudes the result is the order of the numbers.
pub compare_abs_lem :
    (xs ys : List ℕ)
    → IsMagnitude xs
    → IsMagnitude ys
    → compare_abs xs ys ≡ compare (value xs) (value ys)
unfolding compare_abs
compare_abs_lem xs ys mx my = ground (
  arith,
  value-lt_of_length xs ys mx.words my.trimmed,
  value-lt_of_length ys xs my.words mx.trimmed,
  compare_limbs_lem xs ys mx.words my.words,
)

compare-cases :
    (m n : ℕ)
    → ((compare m n ≡ lt) × (m < n))
      ⊎ ((compare m n ≡ eq) × (m ≡ n))
      ⊎ ((compare m n ≡ gt) × (n < m))
compare-cases m n = ground arith

-- The three results, each with what it says of the numbers.
pub compare_abs-cases :
    (xs ys : List ℕ)
    → IsMagnitude xs
    → IsMagnitude ys
    → ((compare_abs xs ys ≡ lt) × (value xs < value ys))
      ⊎ ((compare_abs xs ys ≡ eq) × (value xs ≡ value ys))
      ⊎ ((compare_abs xs ys ≡ gt) × (value ys < value xs))
compare_abs-cases xs ys mx my =
    rw (compare_abs_lem xs ys mx my) (compare-cases (value xs) (value ys))
