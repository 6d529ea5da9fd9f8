-- ===== src/BigInt/Power/Contract.antt =====
-- `bigint_pow` computes powers.
use native.Mathlib.Nat.{div-div-eq-div-mul, div-one, pow-succ', pow-zero}
use num_forge.Base.{
  ℕ, zero, suc, ◌+◌, ◌*◌, ◌/◌, ◌%◌, ◌^◌, ◌<◌, ◌≤◌, ◌≡◌, refl, Bool, true, false, ◌&&◌, not, List,
  [], ◌∷◌, arith, inl, inr, if◌then◌else◌, ◌==◌, Bool-cases, ap, sym, ◌∙◌, subst,
}
use num_forge.Base.Int.{pos, signed, ◌*ℤ◌, pow_ℤ, nat_abs}
use num_forge.Runtime.Budget.{World}
use num_forge.BigInt.Types.{
  BigInt, IsValid, is_ok, Out, Represents, Computes, to_ℤ, max_limbs, negative_argument,
  is_negative_argument, empty,
}
use num_forge.BigInt.Contract.{IfOk, IfOk-on_ok, Gives-ok, Gives-on_ok, Gives-refused}
use num_forge.BigInt.Storage.{set_uint64, is_empty, copy}
use num_forge.BigInt.Storage.Normal.{
  normalize-IsValid, to_ℤ-normalize, copy-Computes, empty-IsValid, signed_zero, set_uint64-Computes,
}
use num_forge.BigInt.Arithmetic.{abs, finish}
use num_forge.BigInt.Arithmetic.Signed.{abs-Computes, nat_abs-signed}
use num_forge.BigInt.Magnitude.Value.{value, IsMagnitude, value_pos}
use num_forge.BigInt.Bitwise.Powers.{pow_add}
use num_forge.BigInt.Comparison.{get_bit, bit_length}
use num_forge.BigInt.Comparison.Bits.{get_bit_lem, bit_length_lem}
use num_forge.BigInt.Multiplication.{Karatsuba}
use num_forge.BigInt.Multiplication.Product.{mul-Computes, signed_product, empty_value}
use num_forge.BigInt.Power.{multiply_unless, pow_loop, pow}
use num_forge.BigInt.Power.Squaring.{round_power, last_round_power, power_sign}

-- A call that, if it succeeds, leaves the number `n`.
abbrev Leaves : ℕ → Out BigInt → Type 0
Leaves n o = IfOk (Represents (pos n)) o

module _ (karatsuba : Karatsuba) where
  multiply_unless-Leaves :
      (skip : Bool) (x y : BigInt) (w : World) (m k : ℕ)
      → Represents (pos m) x
      → Represents (pos k) y
      → Leaves (if skip then m else m * k) (multiply_unless karatsuba skip x y w)
  unfolding multiply_unless
  multiply_unless-Leaves true x y w m k rx ry p = rx
  multiply_unless-Leaves false x y w m k rx ry p =
      let product = (mul-Computes karatsuba x x y w rx.valid.bounded rx.valid ry.valid).success p in
      record {
        valid = product.valid;
        integer =
            product.integer
            ∙ ap (λ v. v *ℤ to_ℤ y) rx.integer
            ∙ ap (λ v. pos m *ℤ v) ry.integer
            ∙ sym (signed_product false false m k);
      }

  next_bit : (v i : ℕ) → v / 2 ^ i / 2 ≡ v / 2 ^ (i + 1)
  next_bit v i = div-div-eq-div-mul v (2 ^ i) 2 ∙ ap (λ (t : ℕ). v / t) (sym (pow_add i 1))

  not_last : (rounds : ℕ) → (suc rounds == 0) ≡ false
  not_last rounds = ground arith

  round_lem :
      (m k d rounds : ℕ)
      → d < 2 ^ suc rounds
      → (if d % 2 == 0 then m else m * k) * (if rounds == 0 then k else k * k) ^ (d / 2) ≡ m * k ^ d
  round_lem m k d zero h = last_round_power m k d h
  round_lem m k d (suc rounds) h = rw (not_last rounds) (round_power m k d)

  finished : (m k d : ℕ) → d ≡ 0 → m ≡ m * k ^ d
  finished m k d e = rw (e, pow-zero k) (omega arith)

  -- The loop from bit `i` on multiplies the accumulator by the base's power to what is left of the
  -- exponent, if the rounds suffice for that.
  pow_loop-Leaves :
      (rounds i : ℕ) (exponent x y : BigInt) (w : World) (m k : ℕ)
      → IsValid exponent
      → Represents (pos m) x
      → Represents (pos k) y
      → value exponent.limbs / 2 ^ i < 2 ^ rounds
      → Leaves (m * k ^ (value exponent.limbs / 2 ^ i)) (pow_loop karatsuba rounds i exponent x y w)
  unfolding pow_loop
  pow_loop-Leaves zero i exponent x y w m k ve rx ry h =
      let none : value exponent.limbs / 2 ^ i ≡ 0 = omega (arith, h) in
      λ p. record { valid = rx.valid; integer = rx.integer ∙ ap pos (finished m k _ none) }
  pow_loop-Leaves (suc rounds) i exponent x y w m k ve rx ry h =
      let d = value exponent.limbs / 2 ^ i in
      let skip = get_bit exponent i == 0 in
      let last = rounds == 0 in
      let multiplied = multiply_unless karatsuba skip x y w in
      let squared = multiply_unless karatsuba last y y multiplied.world in
      let m' = if skip then m else m * k in
      let k' = if last then k else k * k in
      let power = Represents (pos (m * k ^ d)) in
      IfOk-on_ok power multiplied _ _ λ e. IfOk-on_ok power squared _ _ λ f.
        subst
          (λ (n : ℕ). Leaves n (
            pow_loop karatsuba rounds (i + 1) exponent multiplied.object squared.object
              squared.world))
          (ap (λ (t : ℕ). (if t == 0 then m else m * k) * k' ^ (value exponent.limbs / 2 ^ (i + 1)))
              (get_bit_lem exponent i ve)
            ∙ ap (λ (t : ℕ). (if d % 2 == 0 then m else m * k) * k' ^ t)
                (sym (next_bit (value exponent.limbs) i))
            ∙ round_lem m k d rounds h)
          (pow_loop-Leaves rounds (i + 1) exponent multiplied.object squared.object squared.world m'
            k' ve (multiply_unless-Leaves skip x y w m k rx ry e)
            (multiply_unless-Leaves last y y multiplied.world k k ry ry f)
            (omega (arith, h, pow-succ' 2 rounds, next_bit (value exponent.limbs) i)))

zero_pow : (n : ℕ) → 0 ^ suc n ≡ 0
zero_pow n = omega (arith, pow-succ' 0 n)

zero_power : (s : Bool) (n : ℕ) → 0 < n → pos 0 ≡ pow_ℤ (signed s 0) n
zero_power s zero h = absurd (omega arith)
zero_power s (suc n) h = sym (
    power_sign s 0 (suc n)
    ∙ ap (signed (s && not (suc n % 2 == 0))) (zero_pow n)
    ∙ signed_zero (s && not (suc n % 2 == 0)))

nonzero : (xs : List ℕ) → IsMagnitude xs → is_empty xs ≡ false → 0 < value xs
nonzero [] m e = cc
nonzero (x ∷ xs) m e = value_pos x xs m.trimmed

module _ (karatsuba : Karatsuba) (result base exponent : BigInt) (w : World)
    (c : result.capacity ≤ max_limbs) (vb : IsValid base) (ve : IsValid exponent) where
  sign : Bool
  sign = base.is_negative && not (get_bit exponent 0 == 0)

  sign-eq : sign ≡ (base.is_negative && not (value exponent.limbs % 2 == 0))
  unfolding sign
  sign-eq =
      ap (λ (t : ℕ). base.is_negative && not (t == 0))
        (get_bit_lem exponent 0 ve ∙ ap (λ (t : ℕ). t % 2) (div-one (value exponent.limbs)))

  -- The copy of the accumulator with the sign of the power.
  finished-Computes :
      (accumulator : BigInt) (w' : World)
      → Represents (pos (value base.limbs ^ value exponent.limbs)) accumulator
      → Computes result
          (pow_ℤ (to_ℤ base) (value exponent.limbs))
          (finish sign (copy result accumulator w'))
  unfolding sign
  finished-Computes accumulator w' r =
      let g = copy-Computes result accumulator w' c r.valid in
      Gives-on_ok (copy result accumulator w') _ _
        (λ e.
          let h = g.success e in
          let copied = (copy result accumulator w').object in
          let o = record copied { is_negative = sign } in
          Gives-ok _ _ (record {
            valid = normalize-IsValid o h.valid.magnitude.words h.valid.fits h.valid.bounded;
            integer =
                to_ℤ-normalize o
                ∙ ap (signed sign) (
                    sym (nat_abs-signed copied.is_negative (value copied.limbs))
                    ∙ ap nat_abs (h.integer ∙ r.integer)
                    ∙ nat_abs-signed false (value base.limbs ^ value exponent.limbs))
                ∙ ap (λ s. signed s (value base.limbs ^ value exponent.limbs)) sign-eq
                ∙ sym (power_sign base.is_negative (value base.limbs) (value exponent.limbs));
          }))
        g.untouched

  magnitude-Represents :
      (w' : World)
      → is_ok (abs empty base w').status ≡ true
      → Represents (pos (value base.limbs)) (abs empty base w').object
  magnitude-Represents w' e =
      let h = (abs-Computes empty base w' (omega arith) vb).success e in
      record {
        valid = h.valid;
        integer = h.integer ∙ ap pos (nat_abs-signed base.is_negative (value base.limbs));
      }

  loop_start :
      (one base_power : BigInt) (w' : World)
      → Represents (pos 1) one
      → Represents (pos (value base.limbs)) base_power
      → Leaves
          (value base.limbs ^ value exponent.limbs)
          (pow_loop karatsuba (bit_length exponent) 0 exponent one base_power w')
  loop_start one base_power w' r1 rb =
      subst
        (λ (n : ℕ).
          Leaves n (pow_loop karatsuba (bit_length exponent) 0 exponent one base_power w'))
        (ap (λ (t : ℕ). 1 * value base.limbs ^ t) (div-one (value exponent.limbs)) ∙ omega arith)
        (pow_loop-Leaves karatsuba (bit_length exponent) 0 exponent one base_power w' 1
          (value base.limbs) ve r1 rb
          (rw (div-one (value exponent.limbs)) (bit_length_lem exponent ve).0))

  -- `bigint_pow` of two valid objects leaves the base's integer to the exponent's number in canonical
  -- form if it returns BIGINT_OK, and the destination untouched if it does not; for a negative exponent
  -- it returns BIGINT_NEGATIVE_ARGUMENT. The Karatsuba routine below it is taken to compute products.
  pub pow-Computes :
      Computes result
        (pow_ℤ (to_ℤ base) (value exponent.limbs))
        (pow karatsuba result base exponent w)
      × ((exponent.is_negative
            && not (is_negative_argument (pow karatsuba result base exponent w).status))
          ≡ false)
  unfolding pow sign
  pow-Computes =
      let one = set_uint64 empty 1 w in
      let power = abs empty base one.world in
      let product =
        pow_loop karatsuba (bit_length exponent) 0 exponent one.object power.object power.world in
      (
        elim (Bool-cases exponent.is_negative) [
          | inl negative ↦ simp negative (Gives-refused negative_argument w refl)
          | inr natural ↦ simp natural (elim (Bool-cases (is_empty exponent.limbs)) [
            | inl zeroth ↦
                rw (zeroth, empty_value exponent.limbs zeroth)
                  (set_uint64-Computes result 1 w c (omega arith))
            | inr positive ↦ rw positive (elim (Bool-cases (is_empty base.limbs)) [
              | inl zero_base ↦
                  rw (zero_base, empty_value base.limbs zero_base)
                    (Gives-ok _ w (record {
                      valid = empty-IsValid result c;
                      integer =
                          zero_power base.is_negative (value exponent.limbs)
                            (nonzero exponent.limbs ve.magnitude positive);
                    }))
              | inr some_base ↦ rw some_base (
                  Gives-on_ok one _ _
                    (λ e1.
                      Gives-on_ok power _ _
                        (λ e2.
                          Gives-on_ok product _ _
                            (λ e3. finished-Computes product.object product.world (
                              loop_start one.object power.object power.world
                                ((set_uint64-Computes empty 1 w (omega arith) (omega arith)).success
                                  e1)
                                (magnitude-Represents one.world e2) e3))
                            (λ _. refl))
                        (λ _. refl))
                    (λ _. refl))
            ])
          ])
        ],
        elim (Bool-cases exponent.is_negative) [
          | inl negative ↦ simp negative refl
          | inr natural ↦ simp natural refl
        ],
      )
