-- ===== src/BigDecimal/Normal.antt =====
-- `bigdecimal_normalize` keeps the number and makes it canonical.
use num_forge.Base.{
  ℕ, ◌+◌, ◌≡◌, refl, Bool, true, false, arith, ap, if◌then◌else◌, subst, sym, ◌∙◌, inl, inr,
  Bool-cases,
}
use num_forge.Base.Int.{ℤ, pos, pos_part, neg_part, ◌-ℤ◌, -ℤ_parts}
use num_forge.Runtime.Budget.{World}
use num_forge.BigInt.Types.{BigInt, IsValid, Represents, to_ℤ, max_limbs}
use num_forge.BigInt.Comparison.{is_zero}
use num_forge.BigInt.Multiplication.{Karatsuba}
use num_forge.BigInt.Zeros.Contract.{InverseStripping, Stripped}
use num_forge.BigInt.Zeros.{strip_decimal_zeros}
use num_forge.BigInt.Zeros.Stripping.{strip_decimal_zeros-Stripped}
use num_forge.BigRational.Reduction.{some_value}
use num_forge.BigInt.Types
use num_forge.BigRational.Types.{
  ok, scale_overflow, is_ok, is_scale_overflow, from_integer_status, Result, gives, step,
}
use num_forge.BigRational.Contract.{from_integer_status-ok}
use num_forge.BigRational.Fractions.{as_ℚ, equal_of_cross}
use num_forge.BigDecimal.Types.{BigDecimal, IsInt64}
use num_forge.BigDecimal.Scales.{Subtracted, IsBelowInt64, subtract_count, subtract_count_lem}
use num_forge.BigDecimal.Operations.{normalize}
use num_forge.BigDecimal.Value.{decimal_fraction, decimal, Stands, rescaled}
use num_forge.BigDecimal.Exact.{restored_value, zero_number, any_scale}

difference_parts :
    (s t : ℤ) (n : ℕ) → t ≡ s -ℤ pos n → pos_part s + neg_part t ≡ pos_part t + neg_part s + n
difference_parts s t n e =
    subst (λ (u : ℤ). pos_part s + neg_part u ≡ pos_part u + neg_part s + n) (sym e)
      (omega (arith, -ℤ_parts s (pos n)))

-- The coefficient without its zeros at the end, and a scale that no `int64_t` holds.
pub record Overflows (d o : BigDecimal) : Type 0 where
  pub removed : ℕ
  pub stripped : Stripped d.coefficient (o.coefficient, removed)
  pub below : IsBelowInt64 d.scale removed

pub record Normalizes (d : BigDecimal) (o : Result BigDecimal) : Type 0 where
  pub success : is_ok o.status ≡ true → Stands (decimal d) o.object
  pub overflow : is_scale_overflow o.status ≡ true → Overflows d o.object

no_overflow : (s : Types.Status) → is_scale_overflow (from_integer_status s) ≡ false
unfolding from_integer_status
no_overflow Types.ok = refl
no_overflow Types.null_argument = refl
no_overflow Types.out_of_memory = refl
no_overflow Types.division_by_zero = refl
no_overflow Types.value_too_large = refl
no_overflow Types.invalid_argument = refl
no_overflow Types.negative_argument = refl

module _ (d : BigDecimal) (w : World) where
  is_zero-Normalizes :
      IsValid d.coefficient
      → is_zero d.coefficient ≡ true
      → Normalizes d (gives ok (record d { scale = pos 0 }) w)
  is_zero-Normalizes v z = record {
    success = λ _. record {
      canonical = record {
        coefficient = v;
        scale = record { above = omega arith; below = omega arith };
        zero_scale = λ _. refl;
        last_digit = λ p. absurd (omega (arith, p, (zero_number d.coefficient z).0));
      };
      number = any_scale d.coefficient (pos 0) d.scale z;
    };
    overflow = λ e. cc;
  }

  -- The zeros are off, and are taken from the scale.
  Stripped-Normalizes :
      (r : BigInt × ℕ) (s : Bool × ℤ)
      → Stripped d.coefficient r
      → Subtracted d.scale r.1 s
      → Normalizes d
          (gives (if s.0 then ok else scale_overflow) (record { coefficient = r.0; scale = s.1 }) w)
  Stripped-Normalizes r (false, s) h k = record {
    success = λ e. cc;
    overflow = λ e. record { removed = r.1; stripped = h; below = k.over refl };
  }
  Stripped-Normalizes r (true, s) h k = record {
    success = λ e. record {
      canonical = record {
        coefficient = h.valid;
        scale = (k.exact refl).1;
        zero_scale = λ z. absurd (omega (arith, z, h.last_digit));
        last_digit = λ _. h.last_digit;
      };
      number =
          sym (
            equal_of_cross _ _
              (rescaled (to_ℤ r.0) s d.scale r.1 (difference_parts d.scale s r.1 (k.exact refl).0)))
          ∙ ap (λ (t : ℤ). as_ℚ (decimal_fraction t d.scale)) (restored_value d.coefficient r h);
    };
    overflow = λ e. cc;
  }

module _ (karatsuba : Karatsuba) (inverse : InverseStripping) where
  -- `bigdecimal_normalize` of a valid coefficient and a scale that fits int64_t keeps the number and makes
  -- it canonical if it returns BIGDECIMAL_OK. If it returns BIGDECIMAL_SCALE_OVERFLOW, the zeros at the end of
  -- the coefficient are stripped, and the scale less their count is less than INT64_MIN. The routine for 128
  -- limbs or more is taken to strip zeros.
  pub normalize-Stands :
      (d : BigDecimal) (w : World)
      → IsValid d.coefficient
      → IsInt64 d.scale
      → Normalizes d (normalize karatsuba inverse d w)
  unfolding normalize step
  normalize-Stands d w v hs =
      let m = strip_decimal_zeros inverse d.coefficient w in
      elim (Bool-cases (is_zero d.coefficient)) [
        | inl z ↦ rw z (is_zero-Normalizes d w v z)
        | inr more ↦ rw more (elim (Bool-cases (is_ok (from_integer_status m.status))) [
          | inr failed ↦
              rw failed (record { success = λ e. cc; overflow = λ e. cc (e, no_overflow m.status) })
          | inl e ↦
              let h =
                strip_decimal_zeros-Stripped inverse d.coefficient w v
                  (some_value d.coefficient v more) (cc (e, from_integer_status-ok m.status)) in
              rw e (
                Stripped-Normalizes d m.world m.object (subtract_count 3 d.scale m.object.1) h (
                  subtract_count_lem 3 d.scale m.object.1 hs (omega arith) (omega (arith, h.word))))
        ])
      ]
