-- ===== src/BigInt/Magnitude/Long/Digits.antt =====
-- The rounds of the long division, and all of them in sequence.
use native.Mathlib.Nat.{pow-succ'}
use num_forge.Base.{
  ℕ, zero, suc, ◌+◌, ◌-◌, ◌*◌, ◌^◌, ◌<◌, ◌≤◌, ◌≡◌, refl, Bool, true, false, subst, List, [], ◌∷◌,
  length, take, get_or, arith, ap, ◌∙◌, sym, radix, sub_u64, bit, IsLimb, All, All-take,
  length-take, Bool-cases, inl, inr,
}
use num_forge.Runtime.Budget.{World, budget_check, polls}
use num_forge.BigInt.Contract.{IfOk, IfOk-on_ok, IfOk-checked}
use num_forge.BigInt.Magnitude.Value.{value}
use num_forge.BigInt.Bitwise.Powers.{value-lt, value-take}
use num_forge.BigInt.Magnitude.Long.{
  window_estimate, subtract_product, add_back, long_round, long_loop,
}
use num_forge.BigInt.Magnitude.Long.Round.{Near, window-Near}
use num_forge.BigInt.Magnitude.Long.Subtract.{
  Subtracted, subtract_product-Subtracted, add_back-AddedBack,
}

-- A digit and the window that is left.
pub record Divided (v u : List ℕ) (r : ℕ × List ℕ) : Type 0 where
  pub equation : r.0 * value v + value r.1 ≡ value u
  pub below : value r.1 < value v
  pub words : All IsLimb r.1
  pub same_length : length r.1 ≡ suc (length v)
  pub word : r.0 < radix

-- Without a borrow the estimate is the digit.
no_borrow :
    (q v u d p : ℕ) → d + (q * v + 0) ≡ u + p * 0 → u < suc q * v → (q * v + d ≡ u) × (d < v)
no_borrow q v u d p e h = omega (arith, e, h)

-- With a borrow the estimate is 1 too large, and adding the divisor back loses one carry.
lost_carry :
    (q v u d p back lost : ℕ)
    → d + (q * v + 0) ≡ u + p * 1
    → back + p * lost ≡ d + v + 0
    → d < p
    → back < p
    → v < p
    → (q - 1) * v ≤ u
    → ((q - 1) * v + back ≡ u) × (back < v)
lost_carry zero v u d p back lost e f hd hb hv near = absurd (omega (arith, e, hd))
lost_carry (suc q) v u d p back zero e f hd hb hv near =
    let same : suc q - 1 ≡ q = omega arith in absurd (omega (arith, e, f, hb, rw same at near))
lost_carry (suc q) v u d p back (suc zero) e f hd hb hv near =
    let same : suc q - 1 ≡ q = omega arith in rw same (omega (arith, e, f, hd, rw same at near))
lost_carry (suc q) v u d p back (suc (suc lost)) e f hd hb hv near =
    absurd (omega (arith, f, hd, hv))

digit_kept :
    (v u : List ℕ) (q : ℕ) (r : List ℕ × Bool)
    → Near (value u) (value v) q
    → Subtracted q u v 0 0 r
    → r.1 ≡ false
    → Divided v u (q, r.0)
digit_kept v u q r near s sign =
    let e = s.equation ∙ ap (λ b. value u + radix ^ suc (length v) * bit b) sign in
    let done = no_borrow q (value v) (value u) (value r.0) (radix ^ suc (length v)) e near.enough in
    record {
      equation = done.0;
      below = done.1;
      words = s.words;
      same_length = s.same_length;
      word = near.word;
    }

bounded :
    (xs v : List ℕ) → All IsLimb xs → length xs ≡ suc (length v) → value xs < radix ^ suc (length v)
bounded xs v w e = subst (λ (n : ℕ). value xs < radix ^ n) e (value-lt xs w)

positive_digit : (q v u d p : ℕ) → d + (q * v + 0) ≡ u + p * 1 → d < p → 0 < q
positive_digit zero v u d p e h = omega (arith, e, h)
positive_digit (suc q) v u d p e h = omega arith

digit_lowered :
    (v u : List ℕ) (q : ℕ) (r : List ℕ × Bool)
    → All IsLimb v
    → length u ≡ suc (length v)
    → Near (value u) (value v) q
    → Subtracted q u v 0 0 r
    → r.1 ≡ true
    → Divided v u (sub_u64 q 1, add_back r.0 v 0)
digit_lowered v u q r wv lu near s sign =
    let p = radix ^ suc (length v) in
    let e : value r.0 + (q * value v + 0) ≡ value u + p * 1 =
      s.equation ∙ ap (λ b. value u + p * bit b) sign in
    let back = add_back-AddedBack r.0 v 0 s.words wv s.same_length (omega arith) in
    let hd = bounded r.0 v s.words s.same_length in
    let wide : value v < p = omega (arith, value-lt v wv, pow-succ' radix (length v)) in
    let done =
      lost_carry q (value v) (value u) (value r.0) p (value (add_back r.0 v 0)) back.lost e
        back.equation hd (bounded (add_back r.0 v 0) v back.words back.same_length) wide
        near.near in
    let digit : sub_u64 q 1 ≡ q - 1 =
      omega (arith, near.word, positive_digit q (value v) (value u) (value r.0) p e hd) in
    record {
      equation = ap (λ (t : ℕ). t * value v + value (add_back r.0 v 0)) digit ∙ done.0;
      below = done.1;
      words = back.words;
      same_length = back.same_length;
      word = omega (arith, near.word);
    }

join_digits :
    (q d v r a x t p top : ℕ)
    → q * v + r ≡ x + radix * a
    → d * v + a ≡ t + p * top
    → (q + radix * d) * v + r ≡ x + radix * t + radix * p * top
join_digits q d v r a x t p top low high = omega (arith, low, high)

pub record LongDivided (v : List ℕ) (top xs : List ℕ) (r : List ℕ × List ℕ) : Type 0 where
  pub equation : value r.0 * value v + value r.1 ≡ value xs + radix ^ length xs * value top
  pub below : value r.1 < value v
  pub digits : All IsLimb r.0
  pub count : length r.0 ≡ length xs
  pub words : All IsLimb r.1
  pub lower : length v ≤ length r.1

module _ (k : ℕ) (v : List ℕ) (wv : All IsLimb v) (lv : length v ≡ suc (suc k))
    (normal : 2 ^ 63 ≤ get_or v (suc k) 0) where
  long_round-Divided :
      (u : List ℕ) (w : World)
      → All IsLimb u
      → length u ≡ suc (length v)
      → value u < radix * value v
      → IfOk (Divided v u) (long_round v u w)
  unfolding long_round
  long_round-Divided u w wu lu room =
      let q = window_estimate v u in
      let r = subtract_product q u v 0 0 in
      let near = window-Near k v u wv wu lv lu normal room in
      let s =
        subtract_product-Subtracted q u v 0 0 near.word wu wv lu (omega arith) (omega arith) in
      let w1 = (budget_check w).1 in
      let w2 = (polls (length v) 0 w1).1 in
      IfOk-checked (Divided v u) (budget_check w) _ _ λ _.
        IfOk-checked (Divided v u) (polls (length v) 0 w1) _ _ λ _. elim (Bool-cases r.1) [
          | inl negative ↦ rw negative (
              IfOk-checked (Divided v u) (polls (length v) 0 w2) _ _
                λ _ p. digit_lowered v u q r wv lu near s negative)
          | inr kept ↦ rw kept (λ p. digit_kept v u q r near s kept)
        ]

  -- The digits and the last window of a numerator with the limbs `xs` below `top`.
  next_window :
      (x : ℕ) (above : List ℕ) (w : World)
      → IsLimb x
      → All IsLimb above
      → length v ≤ length above
      → value above < value v
      → IfOk
          (λ r.
            (r.0 * value v + value r.1 ≡ x + radix * value above)
            × Divided v (x ∷ take (length v) above) r)
          (long_round v (x ∷ take (length v) above) w)
  next_window x above w wx wa la below p =
      let same : value (take (length v) above) ≡ value above =
        value-take (length v) above (omega (arith, below, value-lt v wv)) in
      let d =
        long_round-Divided (x ∷ take (length v) above) w (wx, All-take IsLimb (length v) above wa)
          (omega (arith, length-take (length v) above, la)) (omega (arith, same, below, wx)) p in
      (d.equation ∙ ap (λ (t : ℕ). x + radix * t) same, d)

  pub long_loop-LongDivided :
      (top xs : List ℕ) (w : World)
      → All IsLimb top
      → length v ≤ length top
      → value top < value v
      → All IsLimb xs
      → IfOk (LongDivided v top xs) (long_loop v top xs w)
  unfolding long_loop
  long_loop-LongDivided top [] w wt lt below wx = λ p. record {
    equation = omega arith;
    below = below;
    digits = tt;
    count = refl;
    words = wt;
    lower = lt;
  }
  long_loop-LongDivided top (x ∷ xs) w wt lt below wx =
      let above = long_loop v top xs w in
      let round = long_round v (x ∷ take (length v) above.object.1) above.world in
      IfOk-on_ok (LongDivided v top (x ∷ xs)) above _ _ λ e.
        let a = long_loop-LongDivided top xs w wt lt below wx.1 e in
        IfOk-on_ok (LongDivided v top (x ∷ xs)) round _ _ λ f p.
          let (equation, r) =
            next_window x above.object.1 above.world wx.0 a.words a.lower a.below f in
          record {
            equation =
                join_digits round.object.0 (value above.object.0) (value v) (value round.object.1)
                  (value above.object.1) x (value xs) (radix ^ length xs) (value top) equation
                  a.equation
                ∙ ap (λ (t : ℕ). x + radix * value xs + t * value top)
                    (sym (pow-succ' radix (length xs)));
            below = r.below;
            digits = (r.word, a.digits);
            count = ap suc a.count;
            words = r.words;
            lower = omega (arith, r.same_length);
          }
