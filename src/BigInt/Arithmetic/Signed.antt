-- ===== src/BigInt/Arithmetic/Signed.antt =====
-- The signed operations of arithmetic.c compute sums, differences, opposites and absolute values.
use num_forge.Base.{
  ℕ, ◌+◌, ◌-◌, ◌≤◌, ◌≡◌, refl, Bool, true, false, not, arith, sym, ap, ◌∙◌, inl, inr, subst,
}
use num_forge.Base.Int.{ℤ, pos, signed, ◌+ℤ◌, ◌-ℤ◌, nat_abs}
use num_forge.Runtime.Budget.{World}
use num_forge.BigInt.Types.{BigInt, IsValid, Out, Computes, max_limbs, to_ℤ, empty}
use num_forge.BigInt.Contract.{Gives-ok, Gives-on_ok}
use num_forge.BigInt.Storage.{copy}
use num_forge.BigInt.Storage.Normal.{copy-Computes, normalize-IsValid, to_ℤ-normalize}
use num_forge.BigInt.Magnitude.Value.{value}
use num_forge.BigInt.Magnitude.Compare.{compare_abs-cases}
use num_forge.BigInt.Arithmetic.{subtract_abs, finish, add_by_signs, add, abs, negate, sub}
use num_forge.BigInt.Arithmetic.Magnitudes.{add_abs-Gives, subtract_abs-Gives, finish-Computes}

abbrev distance : ℕ → ℕ → ℕ
distance m n = m - n + (n - m)

sum_same_sign : (s : Bool) (m n : ℕ) → signed s (m + n) ≡ signed s m +ℤ signed s n
unfolding ◌+ℤ◌
sum_same_sign true m n = ground arith
sum_same_sign false m n = ground arith

-- The operand with the larger magnitude gives the sign.
sum_left_sign :
    (s : Bool) (m n : ℕ) → n ≤ m → signed s (distance m n) ≡ signed s m +ℤ signed (not s) n
unfolding ◌+ℤ◌
sum_left_sign true m n h = ground arith
sum_left_sign false m n h = ground arith

sum_right_sign :
    (s : Bool) (m n : ℕ) → m ≤ n → signed (not s) (distance n m) ≡ signed s m +ℤ signed (not s) n
unfolding ◌+ℤ◌
sum_right_sign true m n h = ground arith
sum_right_sign false m n h = ground arith

pub Computes-eq :
    {before : BigInt} {v u : ℤ} {o : Out BigInt} → v ≡ u → Computes before v o → Computes before u o
Computes-eq {before} {o = o} e h = subst (λ x. Computes before x o) e h

module _ (result a b : BigInt) (w : World) (c : result.capacity ≤ max_limbs) (va : IsValid a)
    (vb : IsValid b) where
  -- The branches for operands of opposite signs.
  left_larger :
      (s : Bool)
      → value b.limbs ≤ value a.limbs
      → Computes result
          (signed s (value a.limbs) +ℤ signed (not s) (value b.limbs))
          (finish s (subtract_abs result a b w))
  left_larger s h =
      Computes-eq (sum_left_sign s (value a.limbs) (value b.limbs) h)
        (finish-Computes result s _ (subtract_abs-Gives result a b w c va vb))

  right_larger :
      (s : Bool)
      → value a.limbs ≤ value b.limbs
      → Computes result
          (signed s (value a.limbs) +ℤ signed (not s) (value b.limbs))
          (finish (not s) (subtract_abs result b a w))
  right_larger s h =
      Computes-eq (sum_right_sign s (value a.limbs) (value b.limbs) h)
        (finish-Computes result (not s) _ (subtract_abs-Gives result b a w c vb va))

  add_by_signs-Computes :
      (sa sb : Bool)
      → Computes result
          (signed sa (value a.limbs) +ℤ signed sb (value b.limbs))
          (add_by_signs sa sb result a b w)
  unfolding add_by_signs
  add_by_signs-Computes true true =
      Computes-eq (sum_same_sign true (value a.limbs) (value b.limbs))
        (finish-Computes result true _ (add_abs-Gives result a b w c va vb))
  add_by_signs-Computes false false =
      Computes-eq (sum_same_sign false (value a.limbs) (value b.limbs))
        (finish-Computes result false _ (add_abs-Gives result a b w c va vb))
  add_by_signs-Computes true false =
      elim (compare_abs-cases a.limbs b.limbs va.magnitude vb.magnitude) [
        | inl (o, less) ↦ rw (o, add_by_signs) (right_larger true (omega arith))
        | inr (inl (o, same)) ↦ rw (o, add_by_signs) (right_larger true (omega arith))
        | inr (inr (o, more)) ↦ rw (o, add_by_signs) (left_larger true (omega arith))
      ]
  add_by_signs-Computes false true =
      elim (compare_abs-cases a.limbs b.limbs va.magnitude vb.magnitude) [
        | inl (o, less) ↦ rw (o, add_by_signs) (right_larger false (omega arith))
        | inr (inl (o, same)) ↦ rw (o, add_by_signs) (left_larger false (omega arith))
        | inr (inr (o, more)) ↦ rw (o, add_by_signs) (left_larger false (omega arith))
      ]

  -- `bigint_add` of two valid objects, whatever their signs, leaves the sum in canonical form if it
  -- returns BIGINT_OK, and the destination untouched if it does not.
  pub add-Computes : Computes result (to_ℤ a +ℤ to_ℤ b) (add result a b w)
  unfolding add
  add-Computes = add_by_signs-Computes a.is_negative b.is_negative

negative_sign : (s : Bool) (n : ℕ) → signed (not s) n ≡ pos 0 -ℤ signed s n
unfolding ◌-ℤ◌
negative_sign true n = ground arith
negative_sign false n = ground arith

pub nat_abs-signed : (s : Bool) (n : ℕ) → nat_abs (signed s n) ≡ n
nat_abs-signed true n = ground arith
nat_abs-signed false n = omega arith

-- A copy has the magnitude of its source, also where the sign is not looked at.
copy-nat_abs : (source r : BigInt) → to_ℤ r ≡ to_ℤ source → value r.limbs ≡ value source.limbs
copy-nat_abs source r e =
    sym (nat_abs-signed r.is_negative (value r.limbs))
    ∙ ap nat_abs e
    ∙ nat_abs-signed source.is_negative (value source.limbs)

module _ (result b : BigInt) (w : World) (c : result.capacity ≤ max_limbs) (vb : IsValid b) where
  -- `bigint_negate` of a valid object leaves the opposite in canonical form if it returns BIGINT_OK, and
  -- the destination untouched if it does not.
  pub negate-Computes : Computes result (pos 0 -ℤ to_ℤ b) (negate result b w)
  unfolding negate
  negate-Computes =
      let g = copy-Computes result b w c vb in
      Gives-on_ok (copy result b w) _ _
        (λ e.
          let h = g.success e in
          let r = record ((copy result b w).object) { is_negative = not b.is_negative } in
          Gives-ok _ _ (record {
            valid = normalize-IsValid r h.valid.magnitude.words h.valid.fits h.valid.bounded;
            integer =
                to_ℤ-normalize r
                ∙ ap (signed (not b.is_negative))
                    (copy-nat_abs b (copy result b w).object h.integer)
                ∙ negative_sign b.is_negative (value b.limbs);
          }))
        g.untouched

  -- `bigint_abs` of a valid object leaves the absolute value in canonical form if it returns BIGINT_OK,
  -- and the destination untouched if it does not.
  pub abs-Computes : Computes result (pos (nat_abs (to_ℤ b))) (abs result b w)
  unfolding abs
  abs-Computes =
      let g = copy-Computes result b w c vb in
      Gives-on_ok (copy result b w) _ _
        (λ e.
          let h = g.success e in
          Gives-ok _ _ (record {
            valid = record {
              magnitude = h.valid.magnitude;
              signed_nonzero = λ k. cc;
              fits = h.valid.fits;
              bounded = h.valid.bounded;
            };
            integer = ap pos (
                copy-nat_abs b (copy result b w).object h.integer
                ∙ sym (nat_abs-signed b.is_negative (value b.limbs)));
          }))
        g.untouched

sum_of_opposite : (u v : ℤ) → u +ℤ (pos 0 -ℤ v) ≡ u -ℤ v
unfolding ◌+ℤ◌ ◌-ℤ◌
sum_of_opposite u v = ground arith

module _ (result a b : BigInt) (w : World) (c : result.capacity ≤ max_limbs) (va : IsValid a)
    (vb : IsValid b) where
  -- `bigint_sub` of two valid objects leaves the difference in canonical form if it returns BIGINT_OK,
  -- and the destination untouched if it does not.
  pub sub-Computes : Computes result (to_ℤ a -ℤ to_ℤ b) (sub result a b w)
  unfolding sub
  sub-Computes =
      let g = negate-Computes empty b w (omega arith) vb in
      let n = negate empty b w in
      Gives-on_ok n _ _
        (λ e.
          Computes-eq
            (ap (λ v. to_ℤ a +ℤ v) (g.success e).integer ∙ sum_of_opposite (to_ℤ a) (to_ℤ b))
            (add-Computes result a n.object n.world c va (g.success e).valid))
        (λ _. refl)
