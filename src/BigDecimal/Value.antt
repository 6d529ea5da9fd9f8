-- ===== src/BigDecimal/Value.antt =====
-- The rational number that a decimal stands for.
use native.Mathlib.Nat.{one-le-pow}
use num_forge.Base.{ℕ, ◌+◌, ◌^◌, ◌≡◌, arith, ap, sym, ◌∙◌}
use num_forge.Base.Int.{ℤ, pos, pos_part, neg_part, ◌*ℤ◌, ◌+ℤ◌, +ℤ_parts}
use num_forge.Base.Int.Ring.{*ℤ_cancel, zero_times, pos_product, *ℤ_assoc, *ℤ_exchange, *ℤ_swap}
use num_forge.BigInt.Types.{to_ℤ}
use num_forge.BigInt.Zeros.Counting.{power_sum}
use num_forge.BigRational.Fractions.{Fraction, ◌≃◌, combined, times, Scales, as_ℚ, ℚ}
use num_forge.BigDecimal.Types.{BigDecimal, IsCanonical}

-- `coefficient * 10^(-scale)`.
abbrev pub decimal_fraction : ℤ → ℤ → Fraction
decimal_fraction c s = record {
  num = c *ℤ pos (10 ^ neg_part s);
  den = 10 ^ pos_part s;
  den_pos = omega (arith, one-le-pow (pos_part s) 10 (omega arith));
}

abbrev pub decimal : BigDecimal → ℚ
decimal d = as_ℚ (decimal_fraction (to_ℤ d.coefficient) d.scale)

-- The decimal is in canonical form and stands for a rational number.
pub record Stands (q : ℚ) (d : BigDecimal) : Type 0 where
  pub canonical : IsCanonical d
  pub number : decimal d ≡ q

ten_join : (x : ℤ) (a b : ℕ) → x *ℤ pos (10 ^ a) *ℤ pos (10 ^ b) ≡ x *ℤ pos (10 ^ (a + b))
ten_join x a b =
    *ℤ_assoc x (pos (10 ^ a)) (pos (10 ^ b))
    ∙ ap (λ (t : ℤ). x *ℤ t) (sym (pos_product (10 ^ a) (10 ^ b)) ∙ ap pos (sym (power_sum a b)))

same_exponent : (x : ℤ) (a b : ℕ) → a ≡ b → x *ℤ pos (10 ^ a) ≡ x *ℤ pos (10 ^ b)
same_exponent x a b e = ap (λ (t : ℕ). x *ℤ pos (10 ^ t)) e

-- More zeros at the end, at a larger scale.
pub rescaled :
    (c s t : ℤ) (n : ℕ)
    → pos_part t + neg_part s ≡ pos_part s + neg_part t + n
    → decimal_fraction (c *ℤ pos (10 ^ n)) t ≃ decimal_fraction c s
rescaled c s t n e =
    ap (λ (u : ℤ). u *ℤ pos (10 ^ pos_part s)) (ten_join c n (neg_part t))
    ∙ ten_join c (n + neg_part t) (pos_part s)
    ∙ same_exponent c (n + neg_part t + pos_part s) (neg_part s + pos_part t) (omega (arith, e))
    ∙ sym (ten_join c (neg_part s) (pos_part t))

-- Coefficients at one scale.
pub combined_decimals :
    (op : ℤ → ℤ → ℤ)
    → Scales op
    → (x y s : ℤ)
    → decimal_fraction (op x y) s ≃ combined op (decimal_fraction x s) (decimal_fraction y s)
combined_decimals op scales x y s =
    ap (λ (t : ℤ). op x y *ℤ pos (10 ^ neg_part s) *ℤ t)
      (pos_product (10 ^ pos_part s) (10 ^ pos_part s))
    ∙ sym
        (*ℤ_assoc (op x y *ℤ pos (10 ^ neg_part s)) (pos (10 ^ pos_part s)) (pos (10 ^ pos_part s)))
    ∙ ap (λ (t : ℤ). t *ℤ pos (10 ^ pos_part s))
        (ap (λ (t : ℤ). t *ℤ pos (10 ^ pos_part s)) (scales x y (10 ^ neg_part s))
          ∙ scales _ _ (10 ^ pos_part s))

-- Products of decimals add the scales.
pub product_decimals :
    (x y s t u : ℤ)
    → pos_part u + neg_part s + neg_part t ≡ neg_part u + pos_part s + pos_part t
    → decimal_fraction (x *ℤ y) u ≃ times (decimal_fraction x s) (decimal_fraction y t)
product_decimals x y s t u e =
    ap (λ (v : ℕ). x *ℤ y *ℤ pos (10 ^ neg_part u) *ℤ pos v)
      (sym (power_sum (pos_part s) (pos_part t)))
    ∙ ten_join (x *ℤ y) (neg_part u) (pos_part s + pos_part t)
    ∙ same_exponent (x *ℤ y) (neg_part u + (pos_part s + pos_part t))
        (neg_part s + neg_part t + pos_part u) (omega (arith, e))
    ∙ sym (ten_join (x *ℤ y) (neg_part s + neg_part t) (pos_part u))
    ∙ ap (λ (v : ℤ). x *ℤ y *ℤ v *ℤ pos (10 ^ pos_part u))
        (ap pos (power_sum (neg_part s) (neg_part t))
          ∙ pos_product (10 ^ neg_part s) (10 ^ neg_part t))
    ∙ ap (λ (v : ℤ). v *ℤ pos (10 ^ pos_part u))
        (*ℤ_exchange x y (pos (10 ^ neg_part s)) (pos (10 ^ neg_part t)))

-- 0 at any scale.
pub zero_decimals : (s t : ℤ) → decimal_fraction (pos 0) s ≃ decimal_fraction (pos 0) t
zero_decimals s t = vanishes s t ∙ sym (vanishes t s)
  where
    vanishes : (s t : ℤ) → pos 0 *ℤ pos (10 ^ neg_part s) *ℤ pos (10 ^ pos_part t) ≡ pos 0
    vanishes s t = ap (λ (v : ℤ). v *ℤ pos (10 ^ pos_part t)) (zero_times _) ∙ zero_times _

-- Equal decimals stay equal when both scales grow alike.
pub shifted :
    (x y s t k : ℤ)
    → decimal_fraction x s ≃ decimal_fraction y t
    → decimal_fraction x (s +ℤ k) ≃ decimal_fraction y (t +ℤ k)
shifted x y s t k e =
    ten_join x (neg_part (s +ℤ k)) (pos_part (t +ℤ k))
    ∙ *ℤ_cancel _ _ (10 ^ below) (omega (arith, one-le-pow below 10 (omega arith))) grown
    ∙ sym (ten_join y (neg_part (t +ℤ k)) (pos_part (s +ℤ k)))
  where
    above : ℕ
    above = neg_part s + pos_part t

    below : ℕ
    below = neg_part t + pos_part s

    above' : ℕ
    above' = neg_part (s +ℤ k) + pos_part (t +ℤ k)

    below' : ℕ
    below' = neg_part (t +ℤ k) + pos_part (s +ℤ k)

    joined : x *ℤ pos (10 ^ above) ≡ y *ℤ pos (10 ^ below)
    joined = sym (ten_join x (neg_part s) (pos_part t)) ∙ e ∙ ten_join y (neg_part t) (pos_part s)

    grown : x *ℤ pos (10 ^ above') *ℤ pos (10 ^ below) ≡ y *ℤ pos (10 ^ below') *ℤ pos (10 ^ below)
    grown =
        ten_join x above' below
        ∙ same_exponent x (above' + below) (above + below')
            (omega (arith, +ℤ_parts s k, +ℤ_parts t k))
        ∙ sym (ten_join x above below')
        ∙ ap (λ (v : ℤ). v *ℤ pos (10 ^ below')) joined
        ∙ *ℤ_swap y (pos (10 ^ below)) (pos (10 ^ below'))
