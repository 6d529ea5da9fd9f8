-- ===== src/BigInt/Combinatorics/Counting.antt =====
-- The loop counts: permutations and combinations through factorials.
use num_forge.Base.{
  ℕ, zero, suc, ◌+◌, ◌-◌, ◌*◌, ◌<◌, ◌≤◌, ◌≡◌, refl, Bool, true, false, arith, ap, ap₂, subst, sym,
  ◌∙◌, if◌then◌else◌, Bool-cases, inl, inr, ltb,
}
use num_forge.Base.Int.{ℤ, pos, ◌+ℤ◌, ◌-ℤ◌, eq_of_parts, +ℤ_parts, -ℤ_parts}
use num_forge.Runtime.Budget.{World, budget_check}
use num_forge.BigInt.Types.{BigInt, Holds, Represents, empty, returns, ok}
use num_forge.BigInt.Contract.{IfOk, IfOk-on_ok, IfOk-checked}
use num_forge.BigInt.Magnitude.Value.{value}
use num_forge.BigInt.Arithmetic.{add, sub}
use num_forge.BigInt.Arithmetic.Signed.{add-Computes, sub-Computes}
use num_forge.BigInt.Multiplication.{Karatsuba}
use num_forge.BigInt.Comparison.{compare}
use num_forge.BigInt.Comparison.Order.{order_ℤ, compare_lem}
use num_forge.BigInt.Factorial.{product_to}
use num_forge.BigInt.Combinatorics.{is_lt, is_gt, grow_product, divide_exactly, product_loop}
use num_forge.BigInt.Combinatorics.Rounds.{
  Positive, grow_product-Positive, Exact, divide_exactly-Exact,
}

-- Combinations are counted without order.
abbrev pub orders : Bool → ℕ → ℕ
orders combination n = if combination then product_to n else 1

-- `count` of `e` things out of `m + e`.
abbrev pub Counts : Bool → ℕ → ℕ → ℕ → Type 0
Counts combination m e count = count * orders combination e * product_to m ≡ product_to (m + e)

pub record Finished (combination : Bool) (m e : ℕ) (q : BigInt) : Type 0 where
  pub held : Holds (value q.limbs) q
  pub counts : Counts combination m e (value q.limbs)

pub integers :
    (a b : BigInt) (m n : ℕ)
    → Represents (pos m) a
    → Represents (pos n) b
    → compare a b ≡ order_ℤ (pos m) (pos n)
integers a b m n ra rb = compare_lem a b ra.valid rb.valid ∙ ap₂ order_ℤ ra.integer rb.integer

is_lt-order : (m n : ℕ) → is_lt (order_ℤ (pos m) (pos n)) ≡ ltb m n
is_lt-order m n = ground arith

pub is_gt-order : (m n : ℕ) → is_gt (order_ℤ (pos m) (pos n)) ≡ ltb n m
is_gt-order m n = ground arith

incremented :
    (b one : BigInt) (n : ℕ) (w : World)
    → Represents (pos n) b
    → Represents (pos 1) one
    → IfOk (Represents (pos (n + 1))) (add b b one w)
incremented b one n w rb ro e =
    subst (λ (v : ℤ). Represents v (add b b one w).object)
      (ap₂ ◌+ℤ◌ rb.integer ro.integer ∙ eq_of_parts _ _ (omega (arith, +ℤ_parts (pos n) (pos 1))))
      ((add-Computes b b one w rb.valid.bounded rb.valid ro.valid).success e)

pub subtracted :
    (a b : BigInt) (m n : ℕ) (w : World)
    → Represents (pos m) a
    → Represents (pos n) b
    → n ≤ m
    → IfOk (Represents (pos (m - n))) (sub empty a b w)
subtracted a b m n w ra rb h e =
    subst (λ (v : ℤ). Represents v (sub empty a b w).object)
      (ap₂ ◌-ℤ◌ ra.integer rb.integer
        ∙ eq_of_parts _ _ (omega (arith, h, -ℤ_parts (pos m) (pos n))))
      ((sub-Computes empty a b w (omega arith) ra.valid rb.valid).success e)

grows : (s t a k p q r : ℕ) → s * a ≡ t * k → t * p * q ≡ r → s * (a * p) * q ≡ k * r
grows s t a k p q r e h = omega (arith, ap (λ (j : ℕ). j * p * q) e, ap (λ (j : ℕ). k * j) h)

next_product : (n : ℕ) → product_to (n + 1) ≡ (n + 1) * product_to n
next_product n =
    let one_more : n + 1 ≡ suc n = omega arith in
    ap product_to one_more ∙ ap (λ (j : ℕ). j * product_to n) (sym one_more)

-- A round multiplies by the next factor, and divides by the next count.
next_Counts :
    (c : Bool) (m i t s : ℕ)
    → Counts c m i t
    → s * (if c then i + 1 else 1) ≡ t * (m + i + 1)
    → Counts c m (i + 1) s
next_Counts true m i t s h e =
    let regrouped : m + i + 1 ≡ m + (i + 1) = omega arith in
    ap (λ (j : ℕ). s * j * product_to m) (next_product i)
    ∙ grows s t (i + 1) (m + i + 1) (product_to i) (product_to m) (product_to (m + i)) e h
    ∙ sym (next_product (m + i))
    ∙ ap product_to regrouped
next_Counts false m i t s h e =
    let regrouped : m + i + 1 ≡ m + (i + 1) = omega arith in
    grows s t 1 (m + i + 1) 1 (product_to m) (product_to (m + i)) e h
    ∙ sym (next_product (m + i))
    ∙ ap product_to regrouped

divided-Positive :
    (c : Bool) (n i : ℕ) (g counter : BigInt) (w : World)
    → Positive n g
    → Represents (pos (i + 1)) counter
    → IfOk
        (Exact n (if c then i + 1 else 1))
        (if c then divide_exactly g counter w else returns ok g w)
divided-Positive true n i g counter w hg hc =
    divide_exactly-Exact n (i + 1) g counter w hg hc (omega arith)
divided-Positive false n i g counter w hg hc = λ p. (
  omega (arith, hg.held.number),
  record {
    held = record {
      magnitude = hg.held.magnitude;
      number = refl;
      fits = hg.held.fits;
      bounded = hg.held.bounded;
    };
    some = omega (arith, hg.some, hg.held.number);
  },
)

module _ (karatsuba : Karatsuba) where
  pub product_loop-Finished :
      (fuel : ℕ) (c : Bool) (one effective t factor counter : BigInt) (w : World) (m i e : ℕ)
      → Represents (pos 1) one
      → Represents (pos e) effective
      → Positive (value t.limbs) t
      → Represents (pos (m + i)) factor
      → Represents (pos i) counter
      → Counts c m i (value t.limbs)
      → i ≤ e
      → e < i + fuel
      → IfOk (Finished c m e) (product_loop karatsuba fuel c one effective t factor counter w)
  unfolding product_loop
  product_loop-Finished zero c one effective t factor counter w m i e ho he ht hf hc h le enough =
      absurd (omega (arith, le, enough))
  product_loop-Finished (suc fuel) c one effective t factor counter w m i e ho he ht hf hc h le
        enough =
      let test : is_lt (compare counter effective) ≡ ltb i e =
        ap is_lt (integers counter effective i e hc he) ∙ is_lt-order i e in
      let w1 = (budget_check w).1 in
      let f = add factor factor one w1 in
      let n = add counter counter one f.world in
      let g = grow_product karatsuba t f.object n.world in
      let d = if c then divide_exactly g.object n.object g.world else returns ok g.object g.world in
      rw test (elim (Bool-cases (ltb i e)) [
        | inr done ↦ rw done (λ p. record {
          held = ht.held;
          counts = subst (λ (j : ℕ). Counts c m j (value t.limbs)) (ground (arith, done, le)) h;
        })
        | inl more ↦ rw more (
            IfOk-checked (Finished c m e) (budget_check w) _ _ λ _.
              IfOk-on_ok (Finished c m e) f _ _ λ ef. IfOk-on_ok (Finished c m e) n _ _ λ en.
                IfOk-on_ok (Finished c m e) g _ _ λ eg. IfOk-on_ok (Finished c m e) d _ _ λ ed.
                  let hf' = incremented factor one (m + i) w1 hf ho ef in
                  let hn = incremented counter one i f.world hc ho en in
                  let hg =
                    grow_product-Positive karatsuba (value t.limbs) (m + i + 1) t f.object n.world
                      ht hf' (omega arith) eg in
                  let hd =
                    divided-Positive c (value t.limbs * (m + i + 1)) i g.object n.object g.world hg
                      hn ed in
                  product_loop-Finished fuel c one effective d.object f.object n.object d.world m
                    (i + 1) e ho he hd.1
                    (subst (λ (j : ℕ). Represents (pos j) f.object) (omega arith) hf') hn
                    (next_Counts c m i (value t.limbs) (value d.object.limbs) h hd.0)
                    (ground (arith, more)) (omega (arith, enough)))
      ])
