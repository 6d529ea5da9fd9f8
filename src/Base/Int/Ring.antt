-- ===== src/Base/Int/Ring.antt =====
-- The laws of sums and products of integers.
use Prim.Native.Nat.{ℕ, ◌+◌, ◌*◌, ◌/◌, ◌<◌, ◌∣◌}
use mathlib.Core.Path.{◌≡◌, sym, ap, ◌∙◌}
use mathlib.Core.Bool.{Bool, true, false, not}
use native.Mathlib.Nat.{eq_of_mul-eq-mul_right, div-mul_cancel}
use native.Mathlib.Omega.{arith}
use num_forge.Base.Int.{
  ℤ, pos, pos_part, neg_part, signed, nat_abs, ◌+ℤ◌, ◌-ℤ◌, ◌*ℤ◌, +ℤ_parts, -ℤ_parts, eq_of_parts,
}

pub pos_part-*ℤ : (a b : ℤ) → pos_part (a *ℤ b) ≡ pos_part a * pos_part b + neg_part a * neg_part b
unfolding ◌*ℤ◌
pos_part-*ℤ a b = ground arith

pub neg_part-*ℤ : (a b : ℤ) → neg_part (a *ℤ b) ≡ pos_part a * neg_part b + neg_part a * pos_part b
unfolding ◌*ℤ◌
neg_part-*ℤ a b = ground arith

ruleset products = (pos_part-*ℤ, neg_part-*ℤ)

pub *ℤ_comm : (a b : ℤ) → a *ℤ b ≡ b *ℤ a
*ℤ_comm a b = eq_of_parts _ _ (simp products (omega arith))

pub *ℤ_assoc : (a b c : ℤ) → a *ℤ b *ℤ c ≡ a *ℤ (b *ℤ c)
*ℤ_assoc a b c = eq_of_parts _ _ (simp products (omega arith))

-- The last two factors of three change places.
pub *ℤ_swap : (a b c : ℤ) → a *ℤ b *ℤ c ≡ a *ℤ c *ℤ b
*ℤ_swap a b c = eq_of_parts _ _ (simp products (omega arith))

-- The middle factors of two products change places.
pub *ℤ_exchange : (a b c d : ℤ) → (a *ℤ b) *ℤ (c *ℤ d) ≡ (a *ℤ c) *ℤ (b *ℤ d)
*ℤ_exchange a b c d = eq_of_parts _ _ (simp products (omega arith))

pub pos_product : (m n : ℕ) → pos (m * n) ≡ pos m *ℤ pos n
unfolding ◌*ℤ◌
pos_product m n = eq_of_parts _ _ (ground arith)

pub +ℤ_comm : (a b : ℤ) → a +ℤ b ≡ b +ℤ a
+ℤ_comm a b = eq_of_parts _ _ (omega (arith, +ℤ_parts))

pub sum_scaled : (a b : ℤ) (n : ℕ) → (a +ℤ b) *ℤ pos n ≡ a *ℤ pos n +ℤ b *ℤ pos n
sum_scaled a b n = eq_of_parts _ _ (
    simp products (
      omega (
        arith,
        simp products at (+ℤ_parts (a *ℤ pos n) (b *ℤ pos n)),
        ap (λ (t : ℕ). t * n) (+ℤ_parts a b),
      )))

pub difference_scaled : (a b : ℤ) (n : ℕ) → (a -ℤ b) *ℤ pos n ≡ a *ℤ pos n -ℤ b *ℤ pos n
difference_scaled a b n = eq_of_parts _ _ (
    simp products (
      omega (
        arith,
        simp products at (-ℤ_parts (a *ℤ pos n) (b *ℤ pos n)),
        ap (λ (t : ℕ). t * n) (-ℤ_parts a b),
      )))

-- A positive factor cancels.
pub *ℤ_cancel : (a b : ℤ) (n : ℕ) → 0 < n → a *ℤ pos n ≡ b *ℤ pos n → a ≡ b
*ℤ_cancel a b n h e = eq_of_parts a b (eq_of_mul-eq-mul_right n h _ _ scaled)
  where
    scaled : (pos_part a + neg_part b) * n ≡ (pos_part b + neg_part a) * n
    scaled = omega (arith, products, ap pos_part e, ap neg_part e)

pub signed_scaled : (s : Bool) (m n : ℕ) → signed s (m * n) ≡ signed s m *ℤ pos n
unfolding ◌*ℤ◌
signed_scaled true m n = eq_of_parts _ _ (ground arith)
signed_scaled false m n = eq_of_parts _ _ (ground arith)

pub negated_sign : (s : Bool) (n : ℕ) → pos 0 -ℤ signed s n ≡ signed (not s) n
unfolding ◌-ℤ◌
negated_sign true n = eq_of_parts _ _ (ground arith)
negated_sign false n = eq_of_parts _ _ (ground arith)

-- A number that a divisor divides, times the divisor.
pub signed-quotient : (s : Bool) (m g : ℕ) → g ∣ m → signed s (m / g) *ℤ pos g ≡ signed s m
signed-quotient s m g h = sym (signed_scaled s (m / g) g) ∙ ap (signed s) (div-mul_cancel g h)

pub zero_times : (a : ℤ) → pos 0 *ℤ a ≡ pos 0
zero_times a = eq_of_parts _ _ (simp products (omega arith))

pub nat_abs-product : (a b : ℤ) → nat_abs (a *ℤ b) ≡ nat_abs a * nat_abs b
nat_abs-product a b = simp products (omega arith)

-- Two positive factors in the place of two others with the same product.
pub regroup : (a : ℤ) (m n k l : ℕ) → m * n ≡ k * l → a *ℤ pos m *ℤ pos n ≡ a *ℤ pos k *ℤ pos l
regroup a m n k l e =
    *ℤ_assoc a (pos m) (pos n)
    ∙ ap (λ (t : ℤ). a *ℤ t) (sym (pos_product m n) ∙ ap pos e ∙ pos_product k l)
    ∙ sym (*ℤ_assoc a (pos k) (pos l))

pub times_one : (a : ℤ) → a *ℤ pos 1 ≡ a
times_one a = eq_of_parts _ _ (simp products (omega arith))
