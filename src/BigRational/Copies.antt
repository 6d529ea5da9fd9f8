-- ===== src/BigRational/Copies.antt =====
-- `bigrational_copy`, `bigrational_from_bigint`, `bigrational_negate`, `bigrational_abs` and the two
-- selectors.
use num_forge.Base.{
  ℕ, ◌≤◌, ◌<◌, ◌≡◌, refl, Bool, true, false, arith, ap, subst, sym, ◌∙◌, if◌then◌else◌,
}
use num_forge.Base.Int.{ℤ, pos, nat_abs, ◌-ℤ◌}
use num_forge.Runtime.Budget.{World}
use num_forge.BigInt.Types.{BigInt, IsValid, Represents, Computes, to_ℤ, max_limbs}
use num_forge.BigInt.Storage.Normal.{copy-Computes}
use num_forge.BigInt.Storage.Holding.{nat_abs-signed}
use num_forge.BigInt.Magnitude.Value.{value}
use num_forge.BigInt.Arithmetic
use num_forge.BigInt.Arithmetic.Signed.{negate-Computes, abs-Computes}
use num_forge.BigInt.NumberTheory.Divisors.{IsGcd, one-IsGcd}
use num_forge.BigRational.{create, copy, from_bigint, get_numerator, get_denominator}
use num_forge.BigRational.Operations.{unary, negate, abs}
use num_forge.BigRational.Create.{create-IsZero, Ensures-obtained, sign_of, IsZero-room}
use num_forge.BigRational.Steps.{denominator-Represents}
use num_forge.BigRational.Types.{BigRational, IsReduced}
use num_forge.BigRational.Contract.{Ensures, Ensures-step, Ensures-after, Ensures-ok}

-- A fraction in lowest terms with this numerator and this denominator.
pub record Stands (n : ℤ) (d : ℕ) (r : BigRational) : Type 0 where
  pub reduced : IsReduced r
  pub numerator : to_ℤ r.numerator ≡ n
  pub denominator : value r.denominator.limbs ≡ d

Stands-built :
    (n : ℤ) (d : ℕ) (top bottom : BigInt)
    → 0 < d
    → IsGcd 1 (nat_abs n) d
    → Represents n top
    → Represents (pos d) bottom
    → Stands n d (record { numerator = top; denominator = bottom })
Stands-built n d top bottom p g rt rb =
    let (sign, number) = sign_of false d bottom p rb.integer in
    let magnitude : value top.limbs ≡ nat_abs n =
      sym (nat_abs-signed top.is_negative (value top.limbs)) ∙ ap nat_abs rt.integer in
    record {
      reduced = record {
        numerator = rt.valid;
        denominator = rb.valid;
        not_negative = sign;
        nonzero = omega (arith, number, p);
        coprime =
            subst (λ (t : ℕ). IsGcd 1 t (value bottom.limbs)) (sym magnitude)
              (subst (IsGcd 1 (nat_abs n)) (sym number) g);
      };
      numerator = rt.integer;
      denominator = number;
    }

coprime_of :
    (r : BigRational)
    → IsReduced r
    → IsGcd 1 (nat_abs (to_ℤ r.numerator)) (value r.denominator.limbs)
coprime_of r h =
    subst (λ (t : ℕ). IsGcd 1 t (value r.denominator.limbs))
      (sym (nat_abs-signed r.numerator.is_negative (value r.numerator.limbs))) h.coprime

abbrev IsCopy : BigRational → BigRational → Type 0
IsCopy value r =
    Stands (to_ℤ value.numerator) (num_forge.BigInt.Magnitude.Value.value value.denominator.limbs) r

-- `bigrational_copy` gives, with BIGRATIONAL_OK, the same numerator and denominator in lowest terms, and
-- otherwise leaves the destination untouched; also if both are one object.
pub copy-Stands :
    (same : Bool) (result source : BigRational) (w : World)
    → (same ≡ true → result ≡ source)
    → IsReduced source
    → Ensures (IsCopy source) result (copy same result source w)
unfolding copy
copy-Stands true result source w one h = Ensures-ok result w (
    subst (IsCopy source) (sym (one refl))
      (record { reduced = h; numerator = refl; denominator = refl }))
copy-Stands false result source w one h = Ensures-obtained (create w) λ t w1 et.
    let (top, bottom) = IsZero-room t (create-IsZero w t et) in
    Ensures-step _ (copy-Computes t.numerator source.numerator w1 top h.numerator) λ n w2 hn.
      Ensures-step _ (copy-Computes t.denominator source.denominator w2 bottom h.denominator)
        λ d w3 hd. Ensures-ok _ w3 (
          Stands-built _ _ n d h.nonzero (coprime_of source h) hn
            (subst (λ (v : ℤ). Represents v d) (denominator-Represents source h).integer hd))

unary_value : Bool → ℤ → ℤ
unary_value is_negation n = if is_negation then pos 0 -ℤ n else pos (nat_abs n)

unary_magnitude : (s : Bool) (n : ℤ) → nat_abs (unary_value s n) ≡ nat_abs n
unfolding unary_value ◌-ℤ◌
unary_magnitude true n = ground arith
unary_magnitude false n = omega arith

unary-Computes :
    (s : Bool) (b : BigInt) (w : World)
    → IsValid b
    → Computes b
        (unary_value s (to_ℤ b))
        (if s then Arithmetic.negate b b w else Arithmetic.abs b b w)
unfolding unary_value
unary-Computes true b w v = negate-Computes b b w v.bounded v
unary-Computes false b w v = abs-Computes b b w v.bounded v

module _ (result source : BigRational) (w : World) (h : IsReduced source) where
  unary-Stands :
      (s : Bool)
      → Ensures
          (Stands (unary_value s (to_ℤ source.numerator)) (value source.denominator.limbs))
          result
          (unary s result source w)
  unfolding unary
  unary-Stands s = Ensures-obtained (create w) λ t w1 et.
      Ensures-after _ (copy-Stands false t source w1 (λ e. cc) h) λ c w2 hc.
        Ensures-step _ (unary-Computes s c.numerator w2 hc.reduced.numerator) λ n w3 hn.
          Ensures-ok _ w3 (
            Stands-built _ _ n c.denominator h.nonzero
              (subst (λ (m : ℕ). IsGcd 1 m (value source.denominator.limbs))
                (sym (unary_magnitude s (to_ℤ source.numerator))) (coprime_of source h))
              (subst (λ (v : ℤ). Represents v n) (ap (unary_value s) hc.numerator) hn)
              (subst (λ (d : ℕ). Represents (pos d) c.denominator) hc.denominator
                (denominator-Represents c hc.reduced)))

  -- `bigrational_negate` of a fraction in lowest terms gives, with BIGRATIONAL_OK, the opposite numerator
  -- over the same denominator in lowest terms, and otherwise leaves the destination untouched.
  pub negate-Stands :
      Ensures
        (Stands (pos 0 -ℤ to_ℤ source.numerator) (value source.denominator.limbs))
        result
        (negate result source w)
  unfolding unary_value
  negate-Stands = unary-Stands true

  -- `bigrational_abs` likewise gives the numerator's absolute value.
  pub abs-Stands :
      Ensures
        (Stands (pos (nat_abs (to_ℤ source.numerator))) (value source.denominator.limbs))
        result
        (abs result source w)
  unfolding unary_value
  abs-Stands = unary-Stands false

-- `bigrational_from_bigint` gives, with BIGRATIONAL_OK, the integer over 1.
pub from_bigint-Stands :
    (result : BigRational) (b : BigInt) (w : World)
    → IsValid b
    → Ensures (Stands (to_ℤ b) 1) result (from_bigint result b w)
unfolding from_bigint
from_bigint-Stands result b w v = Ensures-obtained (create w) λ t w1 et.
    let z = create-IsZero w t et in
    Ensures-step _ (copy-Computes t.numerator b w1 (IsZero-room t z).0 v) λ n w2 hn.
      Ensures-ok _ w2
        (Stands-built _ 1 n t.denominator (omega arith) (one-IsGcd _) hn z.denominator)

-- The selectors of a fraction in lowest terms copy its numerator and its denominator.
pub get_numerator-Represents :
    (result : BigInt) (r : BigRational) (w : World)
    → result.capacity ≤ max_limbs
    → IsReduced r
    → Ensures (Represents (to_ℤ r.numerator)) result (get_numerator result r w)
unfolding get_numerator
get_numerator-Represents result r w c h =
    Ensures-step _ (copy-Computes result r.numerator w c h.numerator) λ n w1 hn. Ensures-ok n w1 hn

pub get_denominator-Represents :
    (result : BigInt) (r : BigRational) (w : World)
    → result.capacity ≤ max_limbs
    → IsReduced r
    → Ensures (Represents (pos (value r.denominator.limbs))) result (get_denominator result r w)
unfolding get_denominator
get_denominator-Represents result r w c h =
    Ensures-step _ (copy-Computes result r.denominator w c h.denominator) λ d w1 hd.
      Ensures-ok d w1 (subst (λ (v : ℤ). Represents v d) (denominator-Represents r h).integer hd)
