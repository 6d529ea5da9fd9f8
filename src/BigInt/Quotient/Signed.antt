-- ===== src/BigInt/Quotient/Signed.antt =====
-- Division truncates towards 0: the magnitudes are divided, the quotient has the sign of a product, and
-- the remainder has the numerator's.
use native.Mathlib.Nat.{div-eq_of_lt-le, mod-eq-sub-div-mul}
use num_forge.Base.{
  ℕ, ◌+◌, ◌*◌, ◌/◌, ◌%◌, ◌<◌, ◌≡◌, refl, Bool, true, false, List, [], ◌∷◌, length, arith, ap, subst,
  sym, ◌∙◌, differ, Bool-cases, inl, inr,
}
use num_forge.Base.Int.{signed}
use num_forge.Runtime.Budget.{World}
use num_forge.BigInt.Types.{
  BigInt, IsValid, Holds, Represents, Gives, Computes, division_by_zero, Out, returns, empty,
}
use num_forge.BigInt.Contract.{Gives-ok, Gives-on_ok, Gives-refused}
use num_forge.BigInt.Storage.{is_empty}
use num_forge.BigInt.Storage.Normal.{normalize-IsValid, to_ℤ-normalize}
use num_forge.BigInt.Magnitude.Value.{value}
use num_forge.BigInt.LongDivision.{divmod_abs}
use num_forge.BigInt.LongDivision.Kernel.{Bounded}
use num_forge.BigInt.LongDivision.Contract.{divmod_abs-Divides}
use num_forge.BigInt.Quotient.{fresh, with_sign, div_mod, div, modulo}

-- Quotient and remainder are unique.
pub quotient_unique : (q b r a : ℕ) → q * b + r ≡ a → r < b → (q ≡ a / b) × (r ≡ a % b)
quotient_unique q b r a e h =
    let same : a / b ≡ q = div-eq_of_lt-le b (omega (arith, e)) (omega (arith, e, h)) in
    (sym same, omega (arith, e, mod-eq-sub-div-mul a b, ap (λ (t : ℕ). t * b) same))

with_sign-Represents :
    (s : Bool) (n : ℕ) (b : BigInt) → Holds n b → Represents (signed s n) (with_sign s b)
with_sign-Represents s n b h =
    let c : BigInt = record b { is_negative = s } in
    record {
      valid = normalize-IsValid c h.magnitude.words h.fits h.bounded;
      integer = to_ℤ-normalize c ∙ ap (signed s) h.number;
    }

Gives-at :
    {A B : Type 0} {P : A → Type 0} {Q : B → Type 0} {before : A} (f : A → B) (o : Out A)
    → ((a : A) → P a → Q (f a))
    → Gives P before o
    → Gives Q (f before) (returns o.status (f o.object) o.world)
Gives-at f o h g = record {
  success = λ e. h o.object (g.success e);
  untouched = λ e. ap f (g.untouched e);
}

-- The two outputs of a truncated division.
pub record Truncated (a b : BigInt) (outputs : BigInt × BigInt) : Type 0 where
  pub quotient :
      Represents
        (signed (differ a.is_negative b.is_negative) (value a.limbs / value b.limbs))
        outputs.0
  pub remainder : Represents (signed a.is_negative (value a.limbs % value b.limbs)) outputs.1

pub fresh-Bounded : Bounded fresh
fresh-Bounded = record {
  quotient = omega arith;
  remainder = omega arith;
  numerator = omega arith;
  divisor = omega arith;
}

pub some_limbs : (ys : List ℕ) → is_empty ys ≡ false → 0 < length ys
some_limbs [] e = cc
some_limbs (y ∷ ys) e = omega arith

module _ (a b : BigInt) (w : World) (va : IsValid a) (vb : IsValid b) where
  -- `bigint_div_mod` of valid objects leaves, in canonical form, the quotient truncated towards 0 and the
  -- remainder with the numerator's sign if it returns BIGINT_OK, and both outputs untouched if it does
  -- not.
  pub div_mod-Truncated :
      (outputs : BigInt × BigInt) → Gives (Truncated a b) outputs (div_mod outputs a b w)
  unfolding div_mod
  div_mod-Truncated outputs = elim (Bool-cases (is_empty b.limbs)) [
    | inl none ↦ rw none (Gives-refused division_by_zero w refl)
    | inr some ↦
        let o = divmod_abs true false fresh a b w in
        rw some (
          Gives-on_ok o _ _
            (λ e.
              let d =
                divmod_abs-Divides true false fresh a b w va.magnitude vb.magnitude fresh-Bounded
                  (omega (arith, va)) (some_limbs b.limbs some) e in
              let (q, r) =
                quotient_unique d.digits (value b.limbs) (value o.object.remainder.limbs)
                  (value a.limbs) d.equation d.below in
              let s = differ a.is_negative b.is_negative in
              Gives-ok _ _ (record {
                quotient =
                    subst (λ (n : ℕ). Represents (signed s n) (with_sign s o.object.quotient)) q
                      (with_sign-Represents s d.digits o.object.quotient (d.quotient_held refl));
                remainder =
                    subst
                      (λ (n : ℕ).
                        Represents (signed a.is_negative n)
                          (with_sign a.is_negative o.object.remainder))
                      r
                      (with_sign-Represents a.is_negative (value o.object.remainder.limbs)
                        o.object.remainder d.remainder_held);
              }))
            (λ e. refl))
  ]

  pub div-Computes :
      (result : BigInt)
      → Computes result
          (signed (differ a.is_negative b.is_negative) (value a.limbs / value b.limbs))
          (div result a b w)
  unfolding div
  div-Computes result =
      Gives-at (λ (o : BigInt × BigInt). o.0) (div_mod (result, empty) a b w) (λ o h. h.quotient)
        (div_mod-Truncated (result, empty))

  pub modulo-Computes :
      (result : BigInt)
      → Computes result (signed a.is_negative (value a.limbs % value b.limbs)) (modulo result a b w)
  unfolding modulo
  modulo-Computes result =
      Gives-at (λ (o : BigInt × BigInt). o.1) (div_mod (empty, result) a b w) (λ o h. h.remainder)
        (div_mod-Truncated (empty, result))
