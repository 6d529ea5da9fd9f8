-- ===== src/BigInt/Factorial/Grouped.antt =====
-- The grouped loop computes the factorial.
use native.Mathlib.Nat.{le-div_iff_mul-le}
use num_forge.Base.{
  ℕ, zero, suc, ◌+◌, ◌-◌, ◌*◌, ◌/◌, ◌<◌, ◌≤◌, ◌≡◌, refl, false, not, ◌&&◌, List, [], ◌∷◌, length,
  arith, ap, subst, sym, ◌∙◌, All, IsLimb, radix, u64, uint64_max, ltb, leb, ltb→le, ltb→lt,
  Bool-cases, inl, inr, if◌then◌else◌,
}
use num_forge.Base.Int.{pos}
use num_forge.Runtime.Budget.{World, budget_check}
use num_forge.BigInt.Types.{
  BigInt, IsValid, Holds, Computes, empty, max_limbs, negative_argument, value_too_large, ok,
  returns, on_ok,
}
use num_forge.BigInt.Contract.{
  IfOk, IfOk-on_ok, IfOk-checked, Gives-ok, Gives-on_ok, Gives-checked, Gives-refused,
}
use num_forge.BigInt.Storage.{set_uint64}
use num_forge.BigInt.Storage.Holding.{set_uint64-Holds}
use num_forge.BigInt.Magnitude.Value.{value}
use num_forge.BigInt.Magnitude.Add.{limb}
use num_forge.BigInt.Arithmetic.{multiply_by_uint64}
use num_forge.BigInt.Arithmetic.Scaling.{multiply_by_uint64-Holds}
use num_forge.BigInt.Factorial.{
  product_to, factorial_loop, factorial_grouped, FactorialTree, factorial,
}

-- The accumulator times the group is the product so far.
pub record Accumulates (n : ℕ) (r : BigInt × ℕ) : Type 0 where
  pub held : Holds (value r.0.limbs) r.0
  pub word : r.1 < radix
  pub product : value r.0.limbs * r.1 ≡ product_to n

self_held : (n : ℕ) (b : BigInt) → Holds n b → Holds (value b.limbs) b
self_held n b h = record {
  magnitude = h.magnitude;
  number = refl;
  fits = h.fits;
  bounded = h.bounded;
}

next_product : (t g i j : ℕ) → i ≡ suc j → t * g ≡ product_to j → t * g * i ≡ product_to (suc j)
next_product t g i j ei e =
    ap (λ (n : ℕ). t * g * n) ei ∙ omega (arith, ap (λ (n : ℕ). n * suc j) e)

pub factorial_loop-Accumulates :
    (rounds i j n group : ℕ) (t : BigInt) (w : World)
    → i ≡ suc j
    → n ≡ j + rounds
    → n < radix
    → Accumulates j (t, group)
    → IfOk (Accumulates n) (factorial_loop rounds i group t w)
unfolding factorial_loop
factorial_loop-Accumulates zero i j n group t w ei en h a =
    λ p. subst (λ (k : ℕ). Accumulates k (t, group)) (omega (arith, en)) a
factorial_loop-Accumulates (suc rounds) i j n group t w ei en h a =
    let P = Accumulates n in
    let w1 = (budget_check w).1 in
    let next = next_product (value t.limbs) group i j ei a.product in
    IfOk-checked P (budget_check w) _ _ λ _. elim (Bool-cases (not (ltb (uint64_max / i) group))) [
      | inl room ↦
          let below : group ≤ uint64_max / i = ground (arith, room) in
          let fits : group * i ≤ uint64_max =
            (le-div_iff_mul-le {k = i} {x = group} {y = uint64_max} (omega (arith, ei))).0 below in
          let same : u64 (group * i) ≡ group * i = omega (arith, fits) in
          rw (room, same)
            (factorial_loop-Accumulates rounds (i + 1) (suc j) n (group * i) t w1
              (omega (arith, ei)) (omega (arith, en)) h
              (record { held = a.held; word = omega (arith, fits); product = omega (arith, next) }))
      | inr full ↦
          let scaled = multiply_by_uint64 t group w1 in
          rw full (
            IfOk-on_ok P scaled _ _ λ e.
              let s = multiply_by_uint64-Holds t group w1 a.held a.word e in
              factorial_loop-Accumulates rounds (i + 1) (suc j) n i scaled.object scaled.world
                (omega (arith, ei)) (omega (arith, en)) h
                (record {
                  held = self_held _ scaled.object s;
                  word = omega (arith, ei, en, h);
                  product = ap (λ (k : ℕ). k * i) s.number ∙ next;
                }))
    ]

small_product : (n : ℕ) → n < 2 → product_to n ≡ 1
small_product zero h = refl
small_product (suc zero) h = refl
small_product (suc (suc n)) h = absurd (omega arith)

-- `bigint_factorial_grouped` of a word leaves its factorial in canonical form if it returns BIGINT_OK, and
-- the destination untouched if it does not.
pub factorial_grouped-Computes :
    (result : BigInt) (n : ℕ) (w : World)
    → n < radix
    → Computes result (pos (product_to n)) (factorial_grouped result n w)
unfolding factorial_grouped
factorial_grouped-Computes result n w h =
    let one = set_uint64 empty 1 w in
    Gives-on_ok one _ _
      (λ e.
        let first = set_uint64-Holds empty 1 w (omega arith) (omega arith) e in
        let last = factorial_loop (n - 1) 2 1 one.object one.world in
        let product =
          if ltb n 2
          then returns ok one.object one.world
          else on_ok last (λ r. r.0) (λ r w2. multiply_by_uint64 r.0 r.1 w2) in
        let held : IfOk (Holds (product_to n)) product = elim (Bool-cases (ltb n 2)) [
          | inl few ↦ rw few (λ p.
              subst (λ (k : ℕ). Holds k one.object) (sym (small_product n (ltb→lt n 2 few))) first)
          | inr many ↦
              let two = ltb→le n 2 many in
              rw many (
                IfOk-on_ok (Holds (product_to n)) last _ _ λ f p.
                  let a =
                    factorial_loop-Accumulates (n - 1) 2 1 n 1 one.object one.world refl
                      (omega (arith, two)) h
                      (record {
                        held = self_held 1 one.object first;
                        word = omega arith;
                        product = omega (arith, first.number);
                      })
                      f in
                  subst
                    (λ (k : ℕ).
                      Holds k (multiply_by_uint64 last.object.0 last.object.1 last.world).object)
                    a.product
                    (multiply_by_uint64-Holds last.object.0 last.object.1 last.world a.held a.word
                      p))
        ] in
        Gives-on_ok product _ _
          (λ f.
            let r = held f in
            Gives-checked (budget_check product.world) result _
              (λ _. Gives-ok _ _ (record {
                valid = record {
                  magnitude = r.magnitude;
                  signed_nonzero = λ k. cc;
                  fits = r.fits;
                  bounded = r.bounded;
                };
                integer = ap pos r.number;
              }))
              refl)
          (λ f. refl))
      (λ e. refl)

one_limb :
    (xs : List ℕ)
    → All IsLimb xs
    → ltb 1 (length xs) ≡ false
    → (limb xs ≡ value xs) × (limb xs < radix)
one_limb [] w h = (refl, omega arith)
one_limb (x ∷ []) w h = (omega arith, w.0)
one_limb (x ∷ y ∷ xs) w h = absurd (omega (arith, ltb→le 1 (length (x ∷ y ∷ xs)) h))

module _ (tree : FactorialTree) (result b : BigInt) (w : World) (c : result.capacity ≤ max_limbs)
    (v : IsValid b) where
  -- `bigint_factorial` of a valid object leaves the factorial of its magnitude in canonical form if it
  -- returns BIGINT_OK, and the destination untouched if it does not. The routine on product trees that it
  -- may call is taken to do so.
  pub factorial-Computes :
      Computes result (pos (product_to (value b.limbs))) (factorial tree result b w)
  unfolding factorial
  factorial-Computes = elim (Bool-cases b.is_negative) [
    | inl negative ↦ rw negative (Gives-refused negative_argument w refl)
    | inr positive ↦ rw positive (elim (Bool-cases (ltb 1 (length b.limbs))) [
      | inl long ↦ rw long (Gives-refused value_too_large w refl)
      | inr short ↦
          let (same, word) = one_limb b.limbs v.magnitude.words short in
          let n = limb b.limbs in
          rw short (elim (Bool-cases (leb 8192 n && tree.fits n w)) [
            | inl large ↦ rw large (
                subst (λ (k : ℕ). Computes result (pos (product_to k)) (tree.product result n w))
                  same (tree.product-Computes result n w c word))
            | inr small ↦ rw small (
                subst
                  (λ (k : ℕ). Computes result (pos (product_to k)) (factorial_grouped result n w))
                  same (factorial_grouped-Computes result n w word))
          ])
    ])
  ]
