-- ===== src/BigInt/NumberTheory/Euclid.antt =====
-- Euclid's loop of `bigint_gcd` ends and leaves the greatest common divisor.
use num_forge.Base.{
  ℕ, zero, suc, ◌<◌, ◌≤◌, ◌≡◌, refl, true, false, arith, subst, sym, ◌∙◌, Bool-cases, inl, inr,
}
use num_forge.Base.Int.{pos, nat_abs}
use num_forge.Runtime.Budget.{World, budget_check}
use num_forge.BigInt.Types.{
  BigInt, IsValid, Holds, Represents, Gives, max_limbs, is_ok, empty, to_ℤ,
}
use num_forge.BigInt.Contract.{IfOk, IfOk-on_ok, Gives-ok, Gives-on_ok, Gives-checked}
use num_forge.BigInt.Storage.{is_empty, copy}
use num_forge.BigInt.Storage.Holding.{Represents-Holds, nat_abs-signed, value_of_empty, copy-Gives}
use num_forge.BigInt.Magnitude.Value.{value}
use num_forge.BigInt.Arithmetic.{abs}
use num_forge.BigInt.Arithmetic.Signed.{abs-Computes}
use num_forge.BigInt.LongDivision.{Division, divmod_abs}
use num_forge.BigInt.LongDivision.Kernel.{Bounded, Divides}
use num_forge.BigInt.LongDivision.Contract.{divmod_abs-Divides}
use num_forge.BigInt.Quotient.{fresh}
use num_forge.BigInt.Quotient.Signed.{fresh-Bounded, some_limbs}
use num_forge.BigInt.NumberTheory.{gcd_loop, gcd}
use num_forge.BigInt.NumberTheory.Divisors.{IsGcd, zero-IsGcd, division-IsGcd}

-- The object holds the greatest common divisor of two magnitudes.
pub record HoldsGcd (m n : ℕ) (g : BigInt) : Type 0 where
  pub held : Holds (value g.limbs) g
  pub divisor : IsGcd (value g.limbs) m n

-- A round's result.
round-Divides :
    (x y : BigInt) (d : Division) (w : World)
    → Holds (value x.limbs) x
    → Holds (value y.limbs) y
    → Bounded d
    → is_empty y.limbs ≡ false
    → IfOk (Divides false x.limbs y.limbs) (divmod_abs false true d x y w)
round-Divides x y d w hx hy bounded some =
    divmod_abs-Divides false true d x y w hx.magnitude hy.magnitude bounded
      (omega (arith, hx.fits, hx.bounded)) (some_limbs y.limbs some)

next-Bounded :
    (x : BigInt) (d : Division)
    → x.capacity ≤ max_limbs
    → Bounded d
    → Bounded (record d { remainder = x })
next-Bounded x d h bounded = record {
  quotient = bounded.quotient;
  remainder = h;
  numerator = bounded.numerator;
  divisor = bounded.divisor;
}

pub gcd_loop-HoldsGcd :
    (fuel : ℕ) (x y : BigInt) (d : Division) (w : World)
    → Holds (value x.limbs) x
    → Holds (value y.limbs) y
    → Bounded d
    → value y.limbs < fuel
    → IfOk (HoldsGcd (value x.limbs) (value y.limbs)) (gcd_loop fuel x y d w)
unfolding gcd_loop
gcd_loop-HoldsGcd zero x y d w hx hy bounded enough = absurd (omega arith)
gcd_loop-HoldsGcd (suc fuel) x y d w hx hy bounded enough = elim (Bool-cases (is_empty y.limbs)) [
  | inl done ↦
      rw done
        (λ p. record { held = hx; divisor = zero-IsGcd _ _ (sym (value_of_empty y.limbs done)) })
  | inr some ↦
      let m = divmod_abs false true d x y w in
      rw some (
        IfOk-on_ok (HoldsGcd (value x.limbs) (value y.limbs)) m _ _ λ e p.
          let h = round-Divides x y d w hx hy bounded some e in
          let r = m.object.remainder in
          let g =
            gcd_loop-HoldsGcd fuel y r (record (m.object) { remainder = x }) m.world hy
              h.remainder_held (next-Bounded x m.object hx.bounded h.room)
              (omega (arith, h.below, enough)) p in
          record {
            held = g.held;
            divisor =
                division-IsGcd _ h.digits (value x.limbs) (value y.limbs) (value r.limbs) h.equation
                  g.divisor;
          })
]

-- The loop of `bigint_gcd` ends within as many rounds as its second operand says, and one more: any two
-- amounts of fuel above that operand give the same outcome, failures of the rounds included.
pub gcd_loop-enough :
    (m n : ℕ) (x y : BigInt) (d : Division) (w : World)
    → Holds (value x.limbs) x
    → Holds (value y.limbs) y
    → Bounded d
    → value y.limbs < m
    → value y.limbs < n
    → gcd_loop m x y d w ≡ gcd_loop n x y d w
unfolding gcd_loop
gcd_loop-enough zero n x y d w hx hy bounded em en = absurd (omega arith)
gcd_loop-enough (suc m) zero x y d w hx hy bounded em en = absurd (omega arith)
gcd_loop-enough (suc m) (suc n) x y d w hx hy bounded em en = elim (Bool-cases (is_empty y.limbs)) [
  | inl done ↦ rw done refl
  | inr some ↦
      let o = divmod_abs false true d x y w in
      rw some (elim (Bool-cases (is_ok o.status)) [
        | inl e ↦
            let h = round-Divides x y d w hx hy bounded some e in
            rw e (
              gcd_loop-enough m n y o.object.remainder (record (o.object) { remainder = x }) o.world
                hy h.remainder_held (next-Bounded x o.object hx.bounded h.room)
                (omega (arith, h.below, em)) (omega (arith, h.below, en)))
        | inr failed ↦ rw failed refl
      ])
]

-- The result of `bigint_gcd`: not negative, in canonical form, and the greatest common divisor of both
-- magnitudes.
pub record ComputesGcd (a b : BigInt) (r : BigInt) : Type 0 where
  pub represents : Represents (pos (value r.limbs)) r
  pub divisor : IsGcd (value r.limbs) (value a.limbs) (value b.limbs)

abs_magnitude :
    (b : BigInt) (w : World)
    → IsValid b
    → IfOk (λ r. Holds (value r.limbs) r × (value r.limbs ≡ value b.limbs)) (abs empty b w)
abs_magnitude b w v e =
    let h =
      Represents-Holds false (nat_abs (to_ℤ b)) _
        ((abs-Computes empty b w (omega arith) v).success e) in
    (
      record { magnitude = h.magnitude; number = refl; fits = h.fits; bounded = h.bounded },
      h.number ∙ nat_abs-signed b.is_negative (value b.limbs),
    )

module _ (result a b : BigInt) (w : World) (c : result.capacity ≤ max_limbs) (va : IsValid a)
    (vb : IsValid b) where
  -- `bigint_gcd` of valid objects leaves the greatest common divisor of their magnitudes, in canonical
  -- form and not negative, if it returns BIGINT_OK, and the destination untouched if it does not.
  pub gcd-ComputesGcd : Gives (ComputesGcd a b) result (gcd result a b w)
  unfolding gcd
  gcd-ComputesGcd =
      let w1 = (budget_check w).1 in
      let x = abs empty a w1 in
      let y = abs empty b x.world in
      let g = gcd_loop (suc (value y.object.limbs)) x.object y.object fresh y.world in
      Gives-checked (budget_check w) result _
        (λ _.
          Gives-on_ok x _ _
            (λ e.
              Gives-on_ok y _ _
                (λ f.
                  Gives-on_ok g _ _
                    (λ k.
                      let hx = abs_magnitude a w1 va e in
                      let hy = abs_magnitude b x.world vb f in
                      let h =
                        gcd_loop-HoldsGcd (suc (value y.object.limbs)) x.object y.object fresh
                          y.world hx.0 hy.0 fresh-Bounded (omega arith) k in
                      let copied = copy-Gives result g.object g.world c h.held.magnitude in
                      Gives-on_ok (copy result g.object g.world) _ _
                        (λ l.
                          let r = copied.success l in
                          Gives-ok _ _ (record {
                            represents = record {
                              valid = record {
                                magnitude = r.magnitude;
                                signed_nonzero = λ p. cc;
                                fits = r.fits;
                                bounded = r.bounded;
                              };
                              integer = refl;
                            };
                            divisor =
                                subst (λ (t : ℕ). IsGcd t (value a.limbs) (value b.limbs))
                                  (sym r.number)
                                  (subst (λ (t : ℕ). IsGcd (value g.object.limbs) t (value b.limbs))
                                    hx.1
                                    (subst
                                      (λ (t : ℕ).
                                        IsGcd (value g.object.limbs) (value x.object.limbs) t)
                                      hy.1 h.divisor));
                          }))
                        copied.untouched)
                    (λ k. refl))
                (λ f. refl))
            (λ e. refl))
        refl
