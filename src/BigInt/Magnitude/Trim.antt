-- ===== src/BigInt/Magnitude/Trim.antt =====
-- `while (size > 0 && limbs[size - 1] == 0) size--;`, the loop of `bigint_normalize`.
use num_forge.Base.{
  ℕ, zero, suc, ◌<◌, ◌≤◌, ◌≡◌, refl, List, [], ◌∷◌, arith, IsLimb, All, ap, ◌≤◌, length-take,
  length, get_or, take, All-take, if◌then◌else◌, ◌==◌,
}
use num_forge.BigInt.Magnitude.Value.{
  value, IsTrimmed, IsTrimmed-cons, IsMagnitude, value-injective,
}

-- The size at which the loop stops, from a size.
unfoldable pub significant : List ℕ → ℕ → ℕ
significant xs zero = 0
significant xs (suc n) = let rest = significant xs n in if get_or xs n 0 == 0 then rest else suc n

unfoldable pub trim : List ℕ → List ℕ
unfolding significant
trim xs = take (significant xs (length xs)) xs

significant-cons :
    (x : ℕ) (xs : List ℕ) (n : ℕ)
    → significant (x ∷ xs) (suc n)
      ≡ (if significant xs n == 0 then (if x == 0 then 0 else 1) else suc (significant xs n))
unfolding significant
significant-cons x xs zero = refl
significant-cons x xs (suc n) = ground (arith, significant-cons x xs n)

-- What one more limb below changes in the size at which the loop stops.
abbrev size_above : ℕ → ℕ → ℕ
size_above x s = if s == 0 then (if x == 0 then 0 else 1) else suc s

size_above-suc : (x s : ℕ) → size_above x (suc s) ≡ suc (suc s)
size_above-suc x s = ground arith

trim-cons :
    (x : ℕ) (xs : List ℕ)
    → trim (x ∷ xs) ≡ take (size_above x (significant xs (length xs))) (x ∷ xs)
unfolding trim
trim-cons x xs = rw (significant-cons x xs (length xs))

value-take :
    (x : ℕ) (xs : List ℕ) (s : ℕ)
    → value (take s xs) ≡ value xs
    → value (take (size_above x s) (x ∷ xs)) ≡ value (x ∷ xs)
value-take zero xs zero h = omega (arith, h)
value-take (suc x) xs zero h = ground (arith, h)
value-take x xs (suc s) h = rw size_above-suc (omega (arith, h))

-- Trimming keeps the number.
pub value-trim : (xs : List ℕ) → value (trim xs) ≡ value xs
unfolding trim
value-trim [] = refl
value-trim (x ∷ xs) = rw (trim-cons x xs) (value-take x xs _ (value-trim xs))

take-IsTrimmed :
    (x : ℕ) (xs : List ℕ) (s : ℕ)
    → IsTrimmed (take s xs)
    → value (take s xs) ≡ value xs
    → (0 < s → 0 < value xs)
    → IsTrimmed (take (size_above x s) (x ∷ xs))
take-IsTrimmed zero xs zero h e p = tt
take-IsTrimmed (suc x) xs zero h e p = ground arith
take-IsTrimmed x xs (suc s) h e p =
    rw size_above-suc (IsTrimmed-cons x (take (suc s) xs) h (omega (arith, e, p (omega arith))))

significant_pos : (xs : List ℕ) (n : ℕ) → 0 < significant xs n → 0 < value xs
unfolding significant
significant_pos xs zero h = elim h [ ]
significant_pos [] (suc n) h = significant_pos [] n h
significant_pos (x ∷ xs) (suc n) h = ground (arith, significant-cons x xs n, significant_pos xs n)

trim-IsTrimmed : (xs : List ℕ) → IsTrimmed (trim xs)
unfolding trim
trim-IsTrimmed [] = tt
trim-IsTrimmed (x ∷ xs) =
    rw (trim-cons x xs)
      (take-IsTrimmed x xs _ (trim-IsTrimmed xs) (value-trim xs) (significant_pos xs (length xs)))

-- Whatever words a loop leaves, trimming makes them canonical.
pub trim-IsMagnitude : (xs : List ℕ) → All IsLimb xs → IsMagnitude (trim xs)
unfolding trim
trim-IsMagnitude xs h = record { words = All-take IsLimb _ xs h; trimmed = trim-IsTrimmed xs }

take_self : (xs : List ℕ) → take (length xs) xs ≡ xs
take_self [] = refl
take_self (x ∷ xs) = ap (λ r. x ∷ r) (take_self xs)

-- Canonical limbs are left alone.
pub trim_self : (xs : List ℕ) → IsMagnitude xs → trim xs ≡ xs
trim_self xs m =
    let t = trim-IsMagnitude xs m.words in
    value-injective _ _ t.words m.words t.trimmed m.trimmed (value-trim xs)

pub length-trim : (xs : List ℕ) → length (trim xs) ≤ length xs
unfolding trim
length-trim xs = omega (arith, length-take (significant xs (length xs)) xs)
