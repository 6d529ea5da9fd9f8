-- ===== src/BigInt/Magnitude/Divide/Short.antt =====
-- The division of a magnitude by a word.
use native.Mathlib.Nat.{div-add-mod, mod-lt, div-lt_iff_lt-mul}
use num_forge.Base.{
  ℕ, suc, ◌+◌, ◌*◌, ◌/◌, ◌<◌, ◌≡◌, refl, List, [], ◌∷◌, arith, radix, IsLimb, All, length, ap,
}
use num_forge.BigInt.Magnitude.Value.{value}
use num_forge.BigInt.Magnitude.Divide.{divide_limbs}

wide_quotient-lt : (h x d : ℕ) → h < d → x < radix → (h * radix + x) / d < radix
wide_quotient-lt h x d p w = (div-lt_iff_lt-mul (omega arith)).1 (omega arith)

-- The quotient's limbs and the remainder of the number that the limbs make.
pub record ShortDivision (divisor : ℕ) (xs : List ℕ) (r : List ℕ × ℕ) : Type 0 where
  pub equation : value r.0 * divisor + r.1 ≡ value xs
  pub below : r.1 < divisor
  pub words : All IsLimb r.0
  pub same_length : length r.0 ≡ length xs

pub divide_limbs_lem :
    (divisor : ℕ) (xs : List ℕ)
    → 0 < divisor
    → All IsLimb xs
    → ShortDivision divisor xs (divide_limbs divisor xs)
unfolding divide_limbs
divide_limbs_lem d [] h w = record {
  equation = omega arith;
  below = h;
  words = tt;
  same_length = refl;
}
divide_limbs_lem d (x ∷ xs) h w =
    let above = divide_limbs_lem d xs h w.1 in
    let rest = (divide_limbs d xs).1 in
    record {
      equation = omega (arith, above.equation, div-add-mod (rest * radix + x) d);
      below = mod-lt (rest * radix + x) h;
      words = (wide_quotient-lt rest x d above.below w.0, above.words);
      same_length = ap suc above.same_length;
    }
