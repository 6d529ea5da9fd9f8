-- ===== src/BigDecimal/Exact.antt =====
-- Copies and opposites of decimals are exact.
use num_forge.Base.{
  ℕ, ◌^◌, ◌%◌, ◌<◌, ◌≤◌, ◌≡◌, refl, Bool, true, false, Option, none, some, arith, ap, ap₂, subst,
  sym, ◌∙◌, inl, inr, Bool-cases,
}
use mathlib.Core.Option
use num_forge.Base.Int.{ℤ, pos, signed, nat_abs, ◌-ℤ◌, ◌*ℤ◌}
use num_forge.Base.Int.Ring.{signed_scaled}
use num_forge.Runtime.Budget.{World, alloc}
use num_forge.BigInt.Types.{BigInt, Represents, to_ℤ, max_limbs}
use num_forge.BigInt.Storage
use num_forge.BigInt.Storage.Normal.{copy-Computes, zero_of_empty}
use num_forge.BigInt.Storage.Holding.{nat_abs-signed, value_of_empty}
use num_forge.BigInt.Magnitude.Value.{value}
use num_forge.BigInt.Comparison.{is_zero}
use num_forge.BigInt.Arithmetic.Signed.{negate-Computes}
use num_forge.BigInt.Zeros.Contract.{Stripped}
use num_forge.BigRational.Create.{Ensures-obtained, create_room}
use num_forge.BigRational.Contract.{Ensures, Ensures-ok, Ensures-step}
use num_forge.BigRational.Fractions.{as_ℚ, equal_of_cross}
use num_forge.BigDecimal.Types.{BigDecimal, IsCanonical}
use num_forge.BigDecimal.Operations.{zero_with, create, copy, unary, negate}
use num_forge.BigDecimal.Value.{decimal_fraction, decimal, Stands, zero_decimals}

pub create_capacity :
    (w : World) (d : BigDecimal) → (create w).0 ≡ some d → d.coefficient.capacity ≤ max_limbs
unfolding create
create_capacity w d e = elim (Bool-cases (alloc 16 w).0) [
  | inr full ↦ absurd (cc (rw (create, full) at e))
  | inl room ↦
      held (Storage.create (alloc 16 w).1).0 (create_room (alloc 16 w).1) (rw (create, room) at e)
]
  where
    same_decimal : (b : BigInt) → some (zero_with b) ≡ some d → zero_with b ≡ d
    same_decimal b e = cc

    held :
        (o : Option BigInt)
        → ((b : BigInt) → o ≡ some b → b.capacity ≤ max_limbs)
        → Option.map zero_with o ≡ some d
        → d.coefficient.capacity ≤ max_limbs
    held none h e = cc
    held (some b) h e =
        subst (λ (t : BigDecimal). t.coefficient.capacity ≤ max_limbs) (same_decimal b e) (h b refl)

-- A coefficient of the same magnitude at the same scale.
built :
    (d : BigDecimal) (c : BigInt) (v : ℤ)
    → IsCanonical d
    → Represents v c
    → nat_abs v ≡ value d.coefficient.limbs
    → Stands (as_ℚ (decimal_fraction v d.scale)) (record { coefficient = c; scale = d.scale })
built d c v h r e =
    let same : value c.limbs ≡ value d.coefficient.limbs =
      sym (nat_abs-signed c.is_negative (value c.limbs)) ∙ ap nat_abs r.integer ∙ e in
    record {
      canonical = record {
        coefficient = r.valid;
        scale = h.scale;
        zero_scale = λ z. h.zero_scale (sym same ∙ z);
        last_digit =
            λ p. subst (λ (t : ℕ). 0 < t % 10) (sym same) (h.last_digit (omega (arith, p, same)));
      };
      number = ap (λ (t : ℤ). as_ℚ (decimal_fraction t d.scale)) r.integer;
    }

-- `bigdecimal_copy` of a decimal in canonical form gives the same number, or leaves the destination
-- untouched.
pub copy-Stands :
    (same : Bool) (destination d : BigDecimal) (w : World)
    → (same ≡ true → destination ≡ d)
    → IsCanonical d
    → Ensures (Stands (decimal d)) destination (copy same destination d w)
unfolding copy
copy-Stands true destination d w one h =
    Ensures-ok destination w
      (subst (Stands (decimal d)) (sym (one refl)) (record { canonical = h; number = refl }))
copy-Stands false destination d w one h = Ensures-obtained (create w) λ t w1 et.
    Ensures-step _
      (copy-Computes t.coefficient d.coefficient w1 (create_capacity w t et) h.coefficient)
      λ c w2 r. Ensures-ok _ w2 (built d c (to_ℤ d.coefficient) h r (nat_abs-signed _ _))

magnitude_opposite : (v : ℤ) → nat_abs (pos 0 -ℤ v) ≡ nat_abs v
unfolding ◌-ℤ◌
magnitude_opposite v = ground arith

-- `bigdecimal_negate` gives the opposite coefficient at the same scale.
pub negate-Stands :
    (result d : BigDecimal) (w : World)
    → IsCanonical d
    → Ensures
        (Stands (as_ℚ (decimal_fraction (pos 0 -ℤ to_ℤ d.coefficient) d.scale)))
        result
        (negate result d w)
unfolding unary
negate-Stands result d w h = Ensures-obtained (create w) λ t w1 et.
    Ensures-step _
      (negate-Computes t.coefficient d.coefficient w1 (create_capacity w t et) h.coefficient)
      λ c w2 r.
        Ensures-ok _ w2
          (built d c _ h r (magnitude_opposite (to_ℤ d.coefficient) ∙ nat_abs-signed _ _))

pub restored_value :
    (b : BigInt) (r : BigInt × ℕ) → Stripped b r → to_ℤ r.0 *ℤ pos (10 ^ r.1) ≡ to_ℤ b
restored_value b r h =
    sym (signed_scaled r.0.is_negative (value r.0.limbs) (10 ^ r.1)) ∙ ap₂ signed h.sign h.whole

pub zero_number : (b : BigInt) → is_zero b ≡ true → (value b.limbs ≡ 0) × (to_ℤ b ≡ pos 0)
unfolding is_zero
zero_number b e = (sym (value_of_empty b.limbs e), sym (zero_of_empty b e))

pub any_scale :
    (b : BigInt) (s t : ℤ)
    → is_zero b ≡ true
    → as_ℚ (decimal_fraction (to_ℤ b) s) ≡ as_ℚ (decimal_fraction (to_ℤ b) t)
any_scale b s t e =
    subst (λ (v : ℤ). as_ℚ (decimal_fraction v s) ≡ as_ℚ (decimal_fraction v t))
      (sym (zero_number b e).1) (equal_of_cross _ _ (zero_decimals s t))

pub create_scale : (w : World) (d : BigDecimal) → (create w).0 ≡ some d → d.scale ≡ pos 0
unfolding create
create_scale w d e = elim (Bool-cases (alloc 16 w).0) [
  | inr full ↦ absurd (cc (rw (create, full) at e))
  | inl room ↦ held (Storage.create (alloc 16 w).1).0 (rw (create, room) at e)
]
  where
    same_decimal : (b : BigInt) → some (zero_with b) ≡ some d → zero_with b ≡ d
    same_decimal b e = cc

    held : (o : Option BigInt) → Option.map zero_with o ≡ some d → d.scale ≡ pos 0
    held none e = cc
    held (some b) e = sym (ap (λ (t : BigDecimal). t.scale) (same_decimal b e))
