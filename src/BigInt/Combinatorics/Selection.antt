-- ===== src/BigInt/Combinatorics/Selection.antt =====
-- Permutations and combinations against the factorials.
use num_forge.Base.{
  ℕ, suc, ◌+◌, ◌-◌, ◌*◌, ◌≤◌, ◌≡◌, refl, Bool, true, false, ◌&&◌, ◌||◌, arith, ap, subst, sym, ◌∙◌,
  if◌then◌else◌, Bool-cases, inl, inr, ltb,
}
use num_forge.Base.Int.{ℤ, pos, signed}
use num_forge.Runtime.Budget.{World}
use num_forge.BigInt.Types.{
  BigInt, IsValid, Holds, Represents, Gives, empty, is_ok, negative_argument, invalid_argument,
}
use num_forge.BigInt.Contract.{Gives-ok, Gives-refused, Gives-on_ok}
use num_forge.BigInt.Storage.{set_uint64, copy}
use num_forge.BigInt.Storage.Normal.{set_uint64-Computes, copy-Computes, empty-IsValid}
use num_forge.BigInt.Storage.Holding.{Represents-Holds}
use num_forge.BigInt.Magnitude.Value.{value}
use num_forge.BigInt.Arithmetic.{sub}
use num_forge.BigInt.Multiplication.{Karatsuba}
use num_forge.BigInt.Comparison.{compare}
use num_forge.BigInt.Factorial.{product_to}
use num_forge.BigInt.Combinatorics.{is_gt, product_loop, combinatorial}
use num_forge.BigInt.Combinatorics.Rounds.{Positive}
use num_forge.BigInt.Combinatorics.Counting.{
  orders, Counts, integers, is_gt-order, subtracted, product_loop-Finished,
}

-- The count of selections of `r` things out of `n`, as an object.
pub record Selects (combination : Bool) (n r : ℕ) (q : BigInt) : Type 0 where
  pub number : Represents (pos (value q.limbs)) q
  pub counts : value q.limbs * orders combination r * product_to (n - r) ≡ product_to n

-- The smaller of `r` and `n - r`, for combinations.
abbrev fewer : Bool → ℕ → ℕ → ℕ
fewer c n r = if c && ltb (n - r) r then n - r else r

fewer_bound : (c : Bool) (n r : ℕ) → r ≤ n → fewer c n r ≤ n
fewer_bound true n r h = ground (arith, h)
fewer_bound false n r h = h

chosen_Counts :
    (c : Bool) (n r v : ℕ)
    → r ≤ n
    → Counts c (n - fewer c n r) (fewer c n r) v
    → v * orders c r * product_to (n - r) ≡ product_to n
chosen_Counts false n r v h e =
    let whole : n - r + r ≡ n = omega (arith, h) in e ∙ ap product_to whole
chosen_Counts true n r v h e = elim (Bool-cases (ltb (n - r) r)) [
  | inl more ↦
      let few : fewer true n r ≡ n - r = rw more refl in
      let rest : n - (n - r) ≡ r = omega (arith, h) in
      let whole : n - (n - r) + (n - r) ≡ n = omega (arith, h) in
      let counted : Counts true (n - (n - r)) (n - r) v =
        subst (λ (j : ℕ). Counts true (n - j) j v) few e in
      omega (
        arith,
        counted,
        ap product_to whole,
        ap (λ (j : ℕ). v * product_to (n - r) * product_to j) rest,
      )
  | inr less ↦
      let few : fewer true n r ≡ r = rw less refl in
      let whole : n - r + r ≡ n = omega (arith, h) in
      subst (λ (j : ℕ). Counts true (n - j) j v) few e ∙ ap product_to whole
]

natural : (b : BigInt) → IsValid b → b.is_negative ≡ false → Represents (pos (value b.limbs)) b
natural b v e = record { valid = v; integer = ap (λ (s : Bool). signed s (value b.limbs)) e }

-- The result without its sign.
unsigned :
    (c : Bool) (n r : ℕ) (t : BigInt)
    → Holds (value t.limbs) t
    → value t.limbs * orders c r * product_to (n - r) ≡ product_to n
    → Selects c n r (record t { is_negative = false })
unsigned c n r t h k = record {
  number = record {
    valid = record {
      magnitude = h.magnitude;
      signed_nonzero = λ p. cc;
      fits = h.fits;
      bounded = h.bounded;
    };
    integer = refl;
  };
  counts = k;
}

-- One, held in the fresh temporary: the count of selections of nothing.
one_Positive : (t : BigInt) → Represents (pos 1) t → Positive (value t.limbs) t
one_Positive t h =
    let held = Represents-Holds false 1 t h in
    record {
      held = record {
        magnitude = held.magnitude;
        number = refl;
        fits = held.fits;
        bounded = held.bounded;
      };
      some = omega (arith, held.number);
    }

nothing_Counts : (c : Bool) (m v : ℕ) → v ≡ 1 → Counts c m 0 v
nothing_Counts true m v e =
    let none : m ≡ m + 0 = omega arith in
    omega (arith, ap (λ (j : ℕ). j * product_to m) e, ap product_to none)
nothing_Counts false m v e =
    let none : m ≡ m + 0 = omega arith in
    omega (arith, ap (λ (j : ℕ). j * product_to m) e, ap product_to none)

-- The choice of the count, and its copy.
fewer_Represents :
    (c : Bool) (n r : ℕ) (d b : BigInt)
    → Represents (pos (n - r)) d
    → Represents (pos r) b
    → Represents (pos (fewer c n r)) (if c && is_gt (compare b d) then d else b)
fewer_Represents false n r d b hd hb = hb
fewer_Represents true n r d b hd hb =
    let test : is_gt (compare b d) ≡ ltb (n - r) r =
      ap is_gt (integers b d r (n - r) hb hd) ∙ is_gt-order r (n - r) in
    rw test (elim (Bool-cases (ltb (n - r) r)) [ inl more ↦ rw more hd | inr less ↦ rw less hb ])

copied :
    (b : BigInt) (n : ℕ) (w : World)
    → Represents (pos n) b
    → is_ok (copy empty b w).status ≡ true
    → Represents (pos n) (copy empty b w).object
copied b n w h e =
    subst (λ (v : ℤ). Represents v (copy empty b w).object) h.integer
      ((copy-Computes empty b w (omega arith) h.valid).success e)

one_Represents :
    (w : World)
    → is_ok (set_uint64 empty 1 w).status ≡ true
    → Represents (pos 1) (set_uint64 empty 1 w).object
one_Represents w = (set_uint64-Computes empty 1 w (omega arith) (omega arith)).success

zero_Represents : Represents (pos 0) empty
zero_Represents = record { valid = empty-IsValid empty (omega arith); integer = refl }

module _ (karatsuba : Karatsuba) where
  -- bigint_combinatorial of two valid objects: if it returns BIGINT_OK, it leaves in canonical form the
  -- number that times (n - r)!, and for combinations also times r!, is n!, and otherwise the
  -- destination is untouched. The Karatsuba routine meets its contract.
  pub combinatorial-Selects :
      (c : Bool) (result n r : BigInt) (w : World)
      → IsValid n
      → IsValid r
      → Gives
          (Selects c (value n.limbs) (value r.limbs))
          result
          (combinatorial karatsuba c result n r w)
  unfolding combinatorial
  combinatorial-Selects c result n r w vn vr = elim (Bool-cases (n.is_negative || r.is_negative)) [
    | inl signed_some ↦ rw signed_some (Gives-refused negative_argument w refl)
    | inr unsigned_both ↦ rw unsigned_both (
        let rn = natural n vn (ground (arith, unsigned_both)) in
        let rr = natural r vr (ground (arith, unsigned_both)) in
        let x = value n.limbs in
        let y = value r.limbs in
        let e = fewer c x y in
        let test : is_gt (compare r n) ≡ ltb x y =
          ap is_gt (integers r n y x rr rn) ∙ is_gt-order y x in
        elim (Bool-cases (is_gt (compare r n))) [
          | inl larger ↦ rw larger (Gives-refused invalid_argument w refl)
          | inr within ↦
              let below : y ≤ x = ground (arith, sym test ∙ within) in
              let t = set_uint64 empty 1 w in
              let o = set_uint64 empty 1 t.world in
              let d = sub empty n r o.world in
              let k =
                copy empty (if c && is_gt (compare r d.object) then d.object else r) d.world in
              let f = sub empty n k.object k.world in
              let q =
                product_loop karatsuba (suc (value k.object.limbs)) c o.object k.object t.object
                  f.object empty f.world in
              rw within (
                Gives-on_ok t _ _
                  (λ et.
                    Gives-on_ok o _ _
                      (λ eo.
                        Gives-on_ok d _ _
                          (λ ed.
                            Gives-on_ok k _ _
                              (λ ek.
                                Gives-on_ok f _ _
                                  (λ ef.
                                    Gives-on_ok q _ _
                                      (λ eq. Gives-ok _ _ (
                                        let ht = one_Represents w et in
                                        let hd = subtracted n r x y o.world rn rr below ed in
                                        let hk =
                                          copied _ e d.world
                                            (fewer_Represents c x y d.object r hd rr) ek in
                                        let hf =
                                          subtracted n k.object x e k.world rn hk
                                            (fewer_bound c x y below) ef in
                                        let le : value k.object.limbs ≡ e =
                                          (Represents-Holds false e k.object hk).number in
                                        let done =
                                          product_loop-Finished karatsuba
                                            (suc (value k.object.limbs)) c o.object k.object
                                            t.object f.object empty f.world (x - e) 0 e
                                            (one_Represents t.world eo) hk
                                            (one_Positive t.object ht)
                                            (subst (λ (j : ℕ). Represents (pos j) f.object)
                                              (omega arith) hf)
                                            zero_Represents
                                            (nothing_Counts c (x - e) _
                                              (Represents-Holds false 1 t.object ht).number)
                                            (omega arith) (omega (arith, le)) eq in
                                        unsigned c x y q.object done.held (
                                          chosen_Counts c x y (value q.object.limbs) below
                                            done.counts)))
                                      (λ _. refl))
                                  (λ _. refl))
                              (λ _. refl))
                          (λ _. refl))
                      (λ _. refl))
                  (λ _. refl))
        ])
  ]
