-- ===== src/BigInt/Magnitude/Multiply/Scale.antt =====
-- The scaling loop multiplies a magnitude by a word.
use num_forge.Base.{
  ℕ, ◌+◌, ◌*◌, ◌<◌, ◌≡◌, refl, List, [], ◌∷◌, ◌++◌, arith, radix, IsLimb, All, length, true,
  Bool-cases, inl, inr,
}
use num_forge.Runtime.Budget.{World, poll}
use num_forge.BigInt.Types.{is_ok}
use num_forge.BigInt.Magnitude.Value.{value}
use num_forge.BigInt.Magnitude.Multiply.{scale_word, scale_loop}
use num_forge.BigInt.Magnitude.Multiply.WordProduct.{scale_word_lem}

-- The number that the limbs and the carry of an unfinished loop make.
abbrev pub carried : List ℕ × ℕ → ℕ
carried r = value (r.0 ++ r.1 ∷ [])

-- What a loop that was not stopped has computed.
pub record Scaled (xs : List ℕ) (multiplier carry : ℕ) (r : List ℕ × ℕ) : Type 0 where
  pub product : carried r ≡ value xs * multiplier + carry
  pub words : All IsLimb r.0
  pub last : r.1 < radix
  pub same_length : length r.0 ≡ length xs

-- If the budget lasts, limbs and carry hold the product.
pub scale_loop-Scaled :
    (i : ℕ) (xs : List ℕ) (multiplier carry : ℕ) (w : World)
    → All IsLimb xs
    → multiplier < radix
    → carry < radix
    → is_ok (scale_loop i xs multiplier carry w).status ≡ true
    → Scaled xs multiplier carry (scale_loop i xs multiplier carry w).object
unfolding scale_loop
scale_loop-Scaled i [] multiplier carry w wx q r h = record {
  product = omega arith;
  words = tt;
  last = r;
  same_length = refl;
}
scale_loop-Scaled i (x ∷ xs) multiplier carry w wx q r h = elim (Bool-cases (poll i w).0) [
  | inr stopped ↦ cc (rw stopped at h)
  | inl running ↦
      let round = scale_word_lem x multiplier carry wx.0 q r in
      let above =
        scale_loop-Scaled (i + 1) xs multiplier (scale_word x multiplier carry).1 (poll i w).1 wx.1
          q round.2 (rw running at h) in
      rw running (record {
        product = omega (arith, round, above.product);
        words = (round.1, above.words);
        last = above.last;
        same_length = omega (arith, above.same_length);
      })
]
