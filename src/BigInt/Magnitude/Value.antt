-- ===== src/BigInt/Magnitude/Value.antt =====
-- The number that limbs stand for, and the invariant of limbs in canonical form.
use num_forge.Base.{
  ℕ, zero, suc, ◌+◌, ◌*◌, ◌<◌, ◌≡◌, refl, ap₂, List, [], ◌∷◌, arith, radix, IsLimb, All, length,
  replicate,
}

abbrev pub value : List ℕ → ℕ
value [] = 0
value (x ∷ xs) = x + radix * value xs

-- The most significant limb, if there is one, is not zero.
abbrev pub IsTrimmed : List ℕ → Type 0
IsTrimmed [] = Unit
IsTrimmed (x ∷ []) = 0 < x
IsTrimmed (x ∷ y ∷ xs) = IsTrimmed (y ∷ xs)

-- `size` counts the significant limbs, and each fits a word.
pub record IsMagnitude (xs : List ℕ) : Type 0 where
  pub words : All IsLimb xs
  pub trimmed : IsTrimmed xs

pub IsTrimmed-tail : (x : ℕ) (xs : List ℕ) → IsTrimmed (x ∷ xs) → IsTrimmed xs
IsTrimmed-tail x [] h = tt
IsTrimmed-tail x (y ∷ xs) h = h

pub value_pos : (x : ℕ) (xs : List ℕ) → IsTrimmed (x ∷ xs) → 0 < value (x ∷ xs)
value_pos x [] h = omega arith
value_pos x (y ∷ xs) h = omega (arith, value_pos y xs h)

pub IsTrimmed-cons : (x : ℕ) (xs : List ℕ) → IsTrimmed xs → 0 < value (x ∷ xs) → IsTrimmed (x ∷ xs)
IsTrimmed-cons x [] h p = omega arith
IsTrimmed-cons x (y ∷ xs) h p = h

-- A limb below radix is the remainder, and the limbs above it are the quotient.
pub value_split :
    (x y v w : ℕ) → x < radix → y < radix → x + radix * v ≡ y + radix * w → (x ≡ y) × (v ≡ w)
value_split x y v w p q e = omega arith

-- One number has one canonical sequence of limbs.
pub value-injective :
    (xs ys : List ℕ)
    → All IsLimb xs
    → All IsLimb ys
    → IsTrimmed xs
    → IsTrimmed ys
    → value xs ≡ value ys
    → xs ≡ ys
value-injective [] [] wx wy tx ty e = refl
value-injective [] (y ∷ ys) wx wy tx ty e = absurd (omega (arith, value_pos y ys ty))
value-injective (x ∷ xs) [] wx wy tx ty e = absurd (omega (arith, value_pos x xs tx))
value-injective (x ∷ xs) (y ∷ ys) wx wy tx ty e =
    let same = value_split x y (value xs) (value ys) wx.0 wy.0 e in
    ap₂ ◌∷◌ same.0
      (value-injective xs ys wx.1 wy.1 (IsTrimmed-tail x xs tx) (IsTrimmed-tail y ys ty) same.1)

-- More limbs in canonical form make a larger number.
pub value-lt_of_length :
    (xs ys : List ℕ) → All IsLimb xs → IsTrimmed ys → length xs < length ys → value xs < value ys
value-lt_of_length xs [] wx ty h = absurd (omega arith)
value-lt_of_length [] (y ∷ ys) wx ty h = value_pos y ys ty
value-lt_of_length (x ∷ xs) (y ∷ ys) wx ty h =
    omega (arith, wx.0, value-lt_of_length xs ys wx.1 (IsTrimmed-tail y ys ty) (omega arith))

pub value-replicate_zero : (n : ℕ) → value (replicate n 0) ≡ 0
value-replicate_zero zero = refl
value-replicate_zero (suc n) = omega (arith, value-replicate_zero n)
