-- ===== src/BigDecimal/Scales.antt =====
-- The checked arithmetic on scales, of type `int64_t`, of src/core/bigdecimal/bigdecimal.c.
use num_forge.Base.{
  ℕ, zero, suc, ◌+◌, ◌-◌, ◌*◌, ◌<◌, ◌≤◌, ◌≡◌, refl, Bool, true, false, ◌&&◌, ◌||◌, Option, none,
  some, if◌then◌else◌, arith, ltb, leb, u64, ap, subst, sym, ◌∙◌, Bool-cases, inl, inr, ◌⊎◌,
}
use num_forge.Base.Int.{
  ℤ, pos, negsuc, pos_part, neg_part, ◌+ℤ◌, ◌-ℤ◌, eq_of_parts, -ℤ_parts, nat_abs,
}
use num_forge.BigDecimal.Types.{int64_max, IsInt64}

abbrev pub less : ℤ → ℤ → Bool
less a b = ltb (pos_part a + neg_part b) (pos_part b + neg_part a)

-- INT64_MIN.
abbrev pub int64_min : ℤ
int64_min = negsuc int64_max

-- The tests of `bigdecimal_i64_add` and `bigdecimal_i64_sub`.
abbrev pub over_sum : ℤ → ℤ → Bool
over_sum a b =
    (less (pos 0) b && less (pos int64_max -ℤ b) a) || (less b (pos 0) && less a (int64_min -ℤ b))

abbrev pub over_difference : ℤ → ℤ → Bool
over_difference a b =
    (less (pos 0) b && less a (int64_min +ℤ b)) || (less b (pos 0) && less (pos int64_max +ℤ b) a)

-- `none` is false: the result does not fit.
unfoldable pub i64_add : ℤ → ℤ → Option ℤ
i64_add a b = if over_sum a b then none else some (a +ℤ b)

unfoldable pub i64_sub : ℤ → ℤ → Option ℤ
i64_sub a b = if over_difference a b then none else some (a -ℤ b)

abbrev pub abs_i64 : ℤ → ℕ
abs_i64 = nat_abs

-- The branches of `bigdecimal_scale_difference` after its guard.
abbrev pub gap : ℤ → ℤ → ℕ
gap (pos l) (pos s) = l - s
gap (negsuc l) (negsuc s) = suc s - suc l
gap (pos l) (negsuc s) = u64 (l + suc s)
gap (negsuc l) (pos s) = 0

-- `none` is BIGDECIMAL_INVALID_ARGUMENT.
unfoldable pub scale_difference : ℤ → ℤ → Option ℕ
scale_difference larger smaller = if less larger smaller then none else some (gap larger smaller)

-- The subtraction of a count of type `uint64_t` in chunks, with fuel: three rounds, since the count is
-- less than 2 ^ 64. What it leaves: whether all of the count was subtracted, with BIGDECIMAL_SCALE_OVERFLOW
-- if not, and the scale after the last chunk that was.
unfoldable pub subtract_count : ℕ → ℤ → ℕ → Bool × ℤ
unfolding i64_sub
subtract_count zero scale removed = (false, scale)
subtract_count (suc fuel) scale removed =
    if leb removed int64_max
    then elim (i64_sub scale (pos removed)) [ none ↦ (false, scale) | some s ↦ (true, s) ]
    else elim (i64_sub scale (pos int64_max)) [
      | none ↦ (false, scale)
      | some rest ↦ subtract_count fuel rest (removed - int64_max)
    ]

some_same : {a b : ℤ} → some a ≡ some b → a ≡ b
some_same e = cc

sum_fits : (a b : ℤ) → IsInt64 a → IsInt64 b → over_sum a b ≡ false → IsInt64 (a +ℤ b)
unfolding ◌+ℤ◌ ◌-ℤ◌
sum_fits (pos m) (pos n) ha hb e = record {
  above = ground (arith, e, ha.above, hb.above);
  below = ground arith;
}
sum_fits (pos m) (negsuc n) ha hb e = record {
  above = ground (arith, ha.above, hb.below);
  below = ground (arith, ha.above, hb.below);
}
sum_fits (negsuc m) (pos n) ha hb e = record {
  above = ground (arith, ha.below, hb.above);
  below = ground (arith, ha.below, hb.above);
}
sum_fits (negsuc m) (negsuc n) ha hb e = record {
  above = ground (arith, e, ha.below, hb.below);
  below = ground (arith, e, ha.below, hb.below);
}

difference_fits : (a b : ℤ) → IsInt64 a → IsInt64 b → over_difference a b ≡ false → IsInt64 (a -ℤ b)
unfolding ◌+ℤ◌ ◌-ℤ◌
difference_fits (pos m) (pos n) ha hb e = record {
  above = ground (arith, e, ha.above, hb.above);
  below = ground (arith, ha.above, hb.above);
}
difference_fits (pos m) (negsuc n) ha hb e = record {
  above = ground (arith, e, ha.above, hb.below);
  below = ground (arith, e, ha.above, hb.below);
}
difference_fits (negsuc m) (pos n) ha hb e = record {
  above = ground (arith, e, ha.below, hb.above);
  below = ground (arith, e, ha.below, hb.above);
}
difference_fits (negsuc m) (negsuc n) ha hb e = record {
  above = ground (arith, ha.below, hb.below);
  below = ground (arith, ha.below, hb.below);
}

pub i64_add_lem :
    (a b c : ℤ) → IsInt64 a → IsInt64 b → i64_add a b ≡ some c → (c ≡ a +ℤ b) × IsInt64 c
unfolding i64_add
i64_add_lem a b c ha hb e = elim (Bool-cases (over_sum a b)) [
  | inl over ↦ absurd (cc (rw (i64_add, over) at e))
  | inr fits ↦
      let same : some (a +ℤ b) ≡ some c = rw (i64_add, fits) at e in
      (sym (some_same same), subst IsInt64 (some_same same) (sum_fits a b ha hb fits))
]

pub i64_sub_lem :
    (a b c : ℤ) → IsInt64 a → IsInt64 b → i64_sub a b ≡ some c → (c ≡ a -ℤ b) × IsInt64 c
unfolding i64_sub
i64_sub_lem a b c ha hb e = elim (Bool-cases (over_difference a b)) [
  | inl over ↦ absurd (cc (rw (i64_sub, over) at e))
  | inr fits ↦
      let same : some (a -ℤ b) ≡ some c = rw (i64_sub, fits) at e in
      (sym (some_same same), subst IsInt64 (some_same same) (difference_fits a b ha hb fits))
]

pub scale_difference_lem :
    (l s : ℤ) (n : ℕ)
    → IsInt64 l
    → IsInt64 s
    → scale_difference l s ≡ some n
    → pos_part l + neg_part s ≡ pos_part s + neg_part l + n
unfolding scale_difference
scale_difference_lem (pos l) (pos s) n hl hs e = ground (arith, e)
scale_difference_lem (pos l) (negsuc s) n hl hs e = ground (arith, e, hl.above, hs.below)
scale_difference_lem (negsuc l) (pos s) n hl hs e = ground (arith, e)
scale_difference_lem (negsuc l) (negsuc s) n hl hs e = ground (arith, e)

pub taken : (o : Option ℤ) → (o ≡ none) ⊎ ((c : ℤ) × (o ≡ some c))
taken none = inl refl
taken (some c) = inr (c, refl)

-- Less than INT64_MIN, as `n` less than `s`.
abbrev pub IsBelowInt64 : ℤ → ℕ → Type 0
IsBelowInt64 s n = pos_part s + int64_max + 1 < neg_part s + n

over_below : (s : ℤ) (n : ℕ) → over_difference s (pos n) ≡ true → IsBelowInt64 s n
unfolding ◌+ℤ◌ ◌-ℤ◌
over_below (pos m) n e = ground (arith, e)
over_below (negsuc m) n e = ground (arith, e)

i64_sub_over : (s : ℤ) (n : ℕ) → i64_sub s (pos n) ≡ none → IsBelowInt64 s n
unfolding i64_sub
i64_sub_over s n e = elim (Bool-cases (over_difference s (pos n))) [
  | inl over ↦ over_below s n over
  | inr fits ↦ cc (rw (i64_sub, fits) at e)
]

-- The difference of a scale and a count, or what keeps it from being one.
pub record Subtracted (s : ℤ) (n : ℕ) (r : Bool × ℤ) : Type 0 where
  pub exact : r.0 ≡ true → (r.1 ≡ s -ℤ pos n) × IsInt64 r.1
  pub over : r.0 ≡ false → IsBelowInt64 s n

pub subtract_count_lem :
    (fuel : ℕ) (s : ℤ) (n : ℕ)
    → IsInt64 s
    → 0 < fuel
    → n ≤ fuel * int64_max
    → Subtracted s n (subtract_count fuel s n)
unfolding subtract_count
subtract_count_lem zero s n h more enough = absurd (omega (arith, more))
subtract_count_lem (suc fuel) s n h more enough = elim (Bool-cases (leb n int64_max)) [
  | inl small ↦ rw small (elim (taken (i64_sub s (pos n))) [
    | inl z ↦ rw z (record { exact = λ e. cc; over = λ e. i64_sub_over s n z })
    | inr (t, et) ↦ rw et (record {
      exact = λ e.
          i64_sub_lem s (pos n) t h (record { above = ground (arith, small); below = omega arith })
            et;
      over = λ e. cc;
    })
  ])
  | inr large ↦ rw large (elim (taken (i64_sub s (pos int64_max))) [
    | inl z ↦
        rw z (record {
          exact = λ e. cc;
          over = λ e. ground (arith, i64_sub_over s int64_max z, large);
        })
    | inr (t, et) ↦ rw et (
        later s n t
          (i64_sub_lem s (pos int64_max) t h (record { above = omega arith; below = omega arith })
            et).0
          (ground (arith, large))
          (subtract_count_lem fuel t (n - int64_max)
            (i64_sub_lem s (pos int64_max) t h (record { above = omega arith; below = omega arith })
              et).1
            (ground (arith, large, enough)) (omega (arith, enough))))
  ])
]
  where
    chunks : (s : ℤ) (n m : ℕ) → m ≤ n → s -ℤ pos m -ℤ pos (n - m) ≡ s -ℤ pos n
    chunks s n m h =
        eq_of_parts _ _ (
          omega
            (arith, -ℤ_parts (s -ℤ pos m) (pos (n - m)), -ℤ_parts s (pos m), -ℤ_parts s (pos n)))

    later :
        (s : ℤ) (n : ℕ) (t : ℤ)
        → t ≡ s -ℤ pos int64_max
        → int64_max ≤ n
        → {r : Bool × ℤ} → Subtracted t (n - int64_max) r
        → Subtracted s n r
    later s n t e h k = record {
      exact = λ p. (
        (k.exact p).0 ∙ ap (λ (u : ℤ). u -ℤ pos (n - int64_max)) e ∙ chunks s n int64_max h,
        (k.exact p).1,
      );
      over =
          λ p. omega (arith, k.over p, h, -ℤ_parts s (pos int64_max), ap pos_part e, ap neg_part e);
    }
