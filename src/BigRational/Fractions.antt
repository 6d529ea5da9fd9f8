-- ===== src/BigRational/Fractions.antt =====
-- The rational numbers, which the objects of bigrational.c stand for: fractions of integers, and a
-- fraction is the same number as another one if the cross products agree.
use Prim.Native.Nat.{ℕ, ◌*◌, ◌<◌}
use mathlib.Core.Path.{◌≡◌, refl, sym, ap, ap₂, ◌∙◌}
use mathlib.Core.Quot.{Setoid, Quotient, Quotient-set}
use mathlib.Core.Quot.Quotient
use native.Mathlib.Nat.{mul-pos}
use num_forge.Base.Int.{ℤ, pos, ◌+ℤ◌, ◌-ℤ◌, ◌*ℤ◌}
use num_forge.Base.Int.Ring.{
  *ℤ_comm, *ℤ_swap, *ℤ_exchange, *ℤ_cancel, pos_product, sum_scaled, difference_scaled,
}
use num_forge.BigInt.Types.{to_ℤ}
use num_forge.BigInt.Magnitude.Value.{value}
use num_forge.BigRational.Types.{BigRational, IsReduced}

pub record Fraction : Type 0 where
  pub num : ℤ
  pub den : ℕ
  pub den_pos : 0 < den

infix 4 ◌≃◌
abbrev pub ◌≃◌ : Fraction → Fraction → Type 0
x ≃ y = x.num *ℤ pos y.den ≡ y.num *ℤ pos x.den

pub ≃_trans : (x y z : Fraction) → x ≃ y → y ≃ z → x ≃ z
≃_trans x y z p q = *ℤ_cancel _ _ y.den y.den_pos (
    *ℤ_swap x.num (pos z.den) (pos y.den)
    ∙ ap (λ (t : ℤ). t *ℤ pos z.den) p
    ∙ *ℤ_swap y.num (pos x.den) (pos z.den)
    ∙ ap (λ (t : ℤ). t *ℤ pos x.den) q
    ∙ *ℤ_swap z.num (pos y.den) (pos x.den))

abbrev cross_products : Setoid {0, 0} Fraction
cross_products = record {
  r = ◌≃◌;
  iseqv = record { refl = λ x. refl; symm = λ x y. sym; trans = ≃_trans };
}

-- The rational numbers.
abbrev pub ℚ : Type 0
ℚ = Quotient cross_products

abbrev pub as_ℚ : Fraction → ℚ
as_ℚ x = Quotient.mk cross_products x

pub equal_of_cross : (x y : Fraction) → x ≃ y → as_ℚ x ≡ as_ℚ y
equal_of_cross x y = Quotient.sound cross_products

ℤ_set : IsSet ℤ
ℤ_set = hlevel

pub cross_of_equal : (x y : Fraction) → as_ℚ x ≡ as_ℚ y → x ≃ y
cross_of_equal x y = Quotient.exact cross_products (λ a b. hlevel ℤ_set)

-- The operations on fractions.
abbrev pub combined : (ℤ → ℤ → ℤ) → Fraction → Fraction → Fraction
combined op x y = record {
  num = op (x.num *ℤ pos y.den) (y.num *ℤ pos x.den);
  den = x.den * y.den;
  den_pos = mul-pos x.den_pos y.den_pos;
}

abbrev pub times : Fraction → Fraction → Fraction
times x y = record {
  num = x.num *ℤ y.num;
  den = x.den * y.den;
  den_pos = mul-pos x.den_pos y.den_pos;
}

-- A term of a sum when its own fraction is replaced by an equal one.
replaced : (n n' a a' d d' : ℤ) → n *ℤ a' ≡ n' *ℤ a → n *ℤ d *ℤ (a' *ℤ d') ≡ n' *ℤ d' *ℤ (a *ℤ d)
replaced n n' a a' d d' p =
    *ℤ_exchange n d a' d' ∙ ap₂ ◌*ℤ◌ p (*ℤ_comm d d') ∙ *ℤ_exchange n' a d' d

-- Addition and subtraction both are such an operation.
abbrev pub Scales : (ℤ → ℤ → ℤ) → Type 0
Scales op = (a b : ℤ) (n : ℕ) → op a b *ℤ pos n ≡ op (a *ℤ pos n) (b *ℤ pos n)

combined_congr :
    (op : ℤ → ℤ → ℤ)
    → Scales op
    → (x y x' y' : Fraction) → x ≃ x'
    → y ≃ y'
    → combined op x y ≃ combined op x' y'
combined_congr op scales x y x' y' p q =
    scales _ _ (x'.den * y'.den)
    ∙ ap₂ op
        (ap (λ (t : ℤ). x.num *ℤ pos y.den *ℤ t) (pos_product x'.den y'.den)
          ∙ replaced x.num x'.num (pos x.den) (pos x'.den) (pos y.den) (pos y'.den) p
          ∙ ap (λ (t : ℤ). x'.num *ℤ pos y'.den *ℤ t) (sym (pos_product x.den y.den)))
        (ap (λ (t : ℤ). y.num *ℤ pos x.den *ℤ t)
            (pos_product x'.den y'.den ∙ *ℤ_comm (pos x'.den) (pos y'.den))
          ∙ replaced y.num y'.num (pos y.den) (pos y'.den) (pos x.den) (pos x'.den) q
          ∙ ap (λ (t : ℤ). y'.num *ℤ pos x'.den *ℤ t)
              (*ℤ_comm (pos y.den) (pos x.den) ∙ sym (pos_product x.den y.den)))
    ∙ sym (scales _ _ (x.den * y.den))

times_congr : (x y x' y' : Fraction) → x ≃ x' → y ≃ y' → times x y ≃ times x' y'
times_congr x y x' y' p q =
    ap (λ (t : ℤ). x.num *ℤ y.num *ℤ t) (pos_product x'.den y'.den)
    ∙ *ℤ_exchange x.num y.num (pos x'.den) (pos y'.den)
    ∙ ap₂ ◌*ℤ◌ p q
    ∙ *ℤ_exchange x'.num (pos x.den) y'.num (pos y.den)
    ∙ ap (λ (t : ℤ). x'.num *ℤ y'.num *ℤ t) (sym (pos_product x.den y.den))

ℚ_set : IsSet ℚ
ℚ_set = Quotient-set cross_products

infixl 65 ◌+ℚ◌ ◌-ℚ◌
infixl 70 ◌*ℚ◌
pub ◌+ℚ◌ : ℚ → ℚ → ℚ
◌+ℚ◌ =
    Quotient.lift₂ cross_products cross_products ℚ_set (λ x y. as_ℚ (combined ◌+ℤ◌ x y))
      λ x y x' y' p q. equal_of_cross _ _ (combined_congr ◌+ℤ◌ sum_scaled x y x' y' p q)

pub ◌-ℚ◌ : ℚ → ℚ → ℚ
◌-ℚ◌ =
    Quotient.lift₂ cross_products cross_products ℚ_set (λ x y. as_ℚ (combined ◌-ℤ◌ x y))
      λ x y x' y' p q. equal_of_cross _ _ (combined_congr ◌-ℤ◌ difference_scaled x y x' y' p q)

pub ◌*ℚ◌ : ℚ → ℚ → ℚ
◌*ℚ◌ =
    Quotient.lift₂ cross_products cross_products ℚ_set (λ x y. as_ℚ (times x y))
      λ x y x' y' p q. equal_of_cross _ _ (times_congr x y x' y' p q)

pub +ℚ_mk : (x y : Fraction) → as_ℚ (combined ◌+ℤ◌ x y) ≡ as_ℚ x +ℚ as_ℚ y
unfolding ◌+ℚ◌
+ℚ_mk x y = sym (Quotient.lift₂-mk cross_products cross_products ℚ_set _ _ x y)

pub -ℚ_mk : (x y : Fraction) → as_ℚ (combined ◌-ℤ◌ x y) ≡ as_ℚ x -ℚ as_ℚ y
unfolding ◌-ℚ◌
-ℚ_mk x y = sym (Quotient.lift₂-mk cross_products cross_products ℚ_set _ _ x y)

pub *ℚ_mk : (x y : Fraction) → as_ℚ (times x y) ≡ as_ℚ x *ℚ as_ℚ y
unfolding ◌*ℚ◌
*ℚ_mk x y = sym (Quotient.lift₂-mk cross_products cross_products ℚ_set _ _ x y)

-- The fraction in an object.
abbrev pub fraction : (r : BigRational) → IsReduced r → Fraction
fraction r h = record {
  num = to_ℤ r.numerator;
  den = value r.denominator.limbs;
  den_pos = h.nonzero;
}

abbrev pub rational : (r : BigRational) → IsReduced r → ℚ
rational r h = as_ℚ (fraction r h)
