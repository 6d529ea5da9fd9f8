-- ===== src/BigInt/Modular/Powers.antt =====
-- Modular powers by repeated squaring.
use native.Mathlib.Nat.{pow-zero, pow-succ', mod-mod}
use num_forge.Base.{
  ℕ, zero, suc, ◌*◌, ◌/◌, ◌%◌, ◌^◌, ◌<◌, ◌≤◌, ◌≡◌, refl, Bool, true, false, not, arith, ap, ap₂,
  subst, sym, ◌∙◌, if◌then◌else◌, ◌==◌, Bool-cases, inl, inr,
}
use num_forge.Base.Int.{ℤ, pos, ◌*ℤ◌}
use num_forge.Runtime.Budget.{World}
use num_forge.BigInt.Types.{
  BigInt, IsValid, Represents, Gives, Computes, max_limbs, empty, to_ℤ, ok, returns,
}
use num_forge.BigInt.Contract.{IfOk, IfOk-on_ok, Gives-on_ok}
use num_forge.BigInt.Storage.{set_uint64, copy, is_empty}
use num_forge.BigInt.Storage.Normal.{copy-Computes, set_uint64-Computes}
use num_forge.BigInt.Storage.Holding.{Represents-Holds, value_of_empty}
use num_forge.BigInt.Magnitude.Value.{value}
use num_forge.BigInt.Multiplication.{Karatsuba, mul}
use num_forge.BigInt.Multiplication.Product.{mul-Computes, signed_product}
use num_forge.BigInt.Quotient.{modulo}
use num_forge.BigInt.Quotient.Signed.{modulo-Computes}
use num_forge.BigInt.Bitwise.{shift_right}
use num_forge.BigInt.Bitwise.Scaling.{shift_right-Computes}
use num_forge.BigInt.Comparison.{is_odd, limbs_bit_length}
use num_forge.BigInt.Comparison.Bits.{bit_length_lem}
use num_forge.BigInt.Comparison.Parity.{parity_lem}
use num_forge.BigInt.Modular.{modular_multiply, modular_pow_loop, modular_pow}
use num_forge.BigInt.Modular.Remainders.{product_mod, power_mod, kept_mod, kept_half, halved_power}

double_negation : (s : Bool) → not (not s) ≡ s
double_negation true = refl
double_negation false = refl

module _ (karatsuba : Karatsuba) (modulus : BigInt) (vm : IsValid modulus) where
  modular_multiply-Represents :
      (result a b : BigInt) (m n : ℕ) (w : World)
      → result.capacity ≤ max_limbs
      → Represents (pos m) a
      → Represents (pos n) b
      → Gives
          (Represents (pos (m * n % value modulus.limbs)))
          result
          (modular_multiply karatsuba result a b modulus w)
  unfolding modular_multiply
  modular_multiply-Represents result a b m n w c ra rb =
      let product = mul karatsuba empty a b w in
      let p = mul-Computes karatsuba empty a b w (omega arith) ra.valid rb.valid in
      Gives-on_ok product _ _
        (λ e.
          let r = p.success e in
          let number : to_ℤ product.object ≡ pos (m * n) =
            r.integer ∙ ap₂ ◌*ℤ◌ ra.integer rb.integer ∙ sym (signed_product false false m n) in
          subst (λ (t : ℤ). Computes result t (modulo result product.object modulus product.world))
            (kept_mod product.object.is_negative (value product.object.limbs) (m * n)
              (value modulus.limbs) number)
            (modulo-Computes product.object modulus product.world r.valid vm result))
        (λ e. refl)

  odd_remainder : (b : BigInt) (r : ℕ) → Represents (pos r) b → is_odd b ≡ not (r % 2 == 0)
  odd_remainder b r h =
      let parity = parity_lem b in
      parity.1
      ∙ ap not (parity.0 ∙ ap (λ (t : ℕ). t % 2 == 0) (Represents-Holds false r b h).number)

  -- The multiplication of a round, if the bit is set.
  multiplied :
      (a f : ℕ) (bit : Bool) (accumulator factor : BigInt) (w : World)
      → Represents (pos a) accumulator
      → Represents (pos f) factor
      → IfOk (Represents (pos (if not bit then a else a * f % value modulus.limbs))) (
          if bit
          then modular_multiply karatsuba accumulator accumulator factor modulus w
          else returns ok accumulator w)
  multiplied a f true accumulator factor w ra rf =
      (modular_multiply-Represents accumulator accumulator factor a f w ra.valid.bounded ra
        rf).success
  multiplied a f false accumulator factor w ra rf = λ p. ra

  squared :
      (f : ℕ) (done : Bool) (factor : BigInt) (w : World)
      → Represents (pos f) factor
      → IfOk (Represents (pos (if done then f else f * f % value modulus.limbs))) (
          if done
          then returns ok factor w
          else modular_multiply karatsuba factor factor factor modulus w)
  squared f true factor w rf = λ p. rf
  squared f false factor w rf =
      (modular_multiply-Represents factor factor factor f f w rf.valid.bounded rf rf).success

  reduced :
      (a f : ℕ) (even : Bool)
      → a % value modulus.limbs ≡ a
      → (if even then a else a * f % value modulus.limbs) % value modulus.limbs
        ≡ (if even then a else a * f % value modulus.limbs)
  reduced a f true h = h
  reduced a f false h = mod-mod (a * f) (value modulus.limbs)

  -- The square that the last round leaves out is not used.
  last_square :
      (x f h : ℕ) (done : Bool)
      → (done ≡ true → h ≡ 0)
      → x * (if done then f else f * f % value modulus.limbs) ^ h
        ≡ x * (f * f % value modulus.limbs) ^ h
  last_square x f h true z =
      ap (λ (n : ℕ). x * f ^ n) (z refl)
      ∙ ap (λ (t : ℕ). x * t) (pow-zero f ∙ sym (pow-zero (f * f % value modulus.limbs)))
      ∙ ap (λ (n : ℕ). x * (f * f % value modulus.limbs) ^ n) (sym (z refl))
  last_square x f h false z = refl

  finished : (a f r : ℕ) → r ≡ 0 → a % value modulus.limbs ≡ a → a ≡ a * f ^ r % value modulus.limbs
  finished a f r e k =
      sym k
      ∙ ap (λ (t : ℕ). t % value modulus.limbs)
          (omega (arith, ap (λ (t : ℕ). a * t) (ap (λ (n : ℕ). f ^ n) e ∙ pow-zero f)))

  modular_pow_loop-Represents :
      (fuel a f r : ℕ) (accumulator factor remaining : BigInt) (w : World)
      → r < 2 ^ fuel
      → a % value modulus.limbs ≡ a
      → Represents (pos a) accumulator
      → Represents (pos f) factor
      → Represents (pos r) remaining
      → IfOk
          (Represents (pos (a * f ^ r % value modulus.limbs)))
          (modular_pow_loop karatsuba fuel modulus accumulator factor remaining w)
  unfolding modular_pow_loop
  modular_pow_loop-Represents zero a f r accumulator factor remaining w enough h ra rf rr = λ p.
      subst (λ (n : ℕ). Represents (pos n) accumulator)
        (finished a f r (omega (arith, enough, pow-zero 2)) h) ra
  modular_pow_loop-Represents (suc fuel) a f r accumulator factor remaining w enough h ra rf rr =
      let P = Represents (pos (a * f ^ r % value modulus.limbs)) in
      let number = (Represents-Holds false r remaining rr).number in
      elim (Bool-cases (is_empty remaining.limbs)) [
        | inl none ↦ rw none (λ p.
            subst (λ (n : ℕ). Represents (pos n) accumulator)
              (finished a f r (omega (arith, number, value_of_empty remaining.limbs none)) h) ra)
        | inr some ↦
            let bit = is_odd remaining in
            let even : not bit ≡ (r % 2 == 0) =
              ap not (odd_remainder remaining r rr) ∙ double_negation (r % 2 == 0) in
            let first =
              if bit
              then modular_multiply karatsuba accumulator accumulator factor modulus w
              else returns ok accumulator w in
            let halved = shift_right remaining remaining 1 first.world in
            let done = is_empty halved.object.limbs in
            let second =
              if done
              then returns ok factor halved.world
              else modular_multiply karatsuba factor factor factor modulus halved.world in
            rw some (
              IfOk-on_ok P first _ _ λ e1. IfOk-on_ok P halved _ _ λ e2.
                IfOk-on_ok P second _ _ λ e3 p.
                  let x = if not bit then a else a * f % value modulus.limbs in
                  let y = if done then f else f * f % value modulus.limbs in
                  let r1 = multiplied a f bit accumulator factor w ra rf e1 in
                  let s =
                    (shift_right-Computes remaining remaining 1 first.world rr.valid.bounded
                        rr.valid (omega arith)).success
                      e2 in
                  let r2 : Represents (pos (r / 2)) halved.object = record {
                    valid = s.valid;
                    integer =
                        s.integer
                        ∙ kept_half remaining.is_negative (value remaining.limbs) r rr.integer;
                  } in
                  let half = (Represents-Holds false (r / 2) halved.object r2).number in
                  let r3 = squared f done factor halved.world rf e3 in
                  let all =
                    modular_pow_loop-Represents fuel x y (r / 2) first.object second.object
                      halved.object second.world (omega (arith, enough, pow-succ' 2 fuel))
                      (reduced a f (not bit) h) r1 r3 r2 p in
                  let total : x * y ^ (r / 2) % value modulus.limbs
                      ≡ a * f ^ r % value modulus.limbs =
                    ap (λ (t : ℕ). t % value modulus.limbs)
                      (last_square x f (r / 2) done (λ (z : done ≡ true).
                          sym half ∙ sym (value_of_empty halved.object.limbs z))
                        ∙ ap
                            (λ (c : Bool).
                              (if c then a else a * f % value modulus.limbs)
                              * (f * f % value modulus.limbs) ^ (r / 2))
                            even)
                    ∙ halved_power (value modulus.limbs) a f r in
                  subst
                    (λ (n : ℕ).
                      Represents (pos n)
                        (modular_pow_loop karatsuba fuel modulus first.object second.object
                          halved.object second.world).object)
                    total all)
      ]

  remainder_of :
      (result a : BigInt) (n : ℕ) (w : World)
      → Represents (pos n) a
      → IfOk (Represents (pos (n % value modulus.limbs))) (modulo result a modulus w)
  remainder_of result a n w ra e =
      let r = (modulo-Computes a modulus w ra.valid vm result).success e in
      record {
        valid = r.valid;
        integer =
            r.integer ∙ kept_mod a.is_negative (value a.limbs) n (value modulus.limbs) ra.integer;
      }

  power_eq :
      (n e : ℕ)
      → (1 % value modulus.limbs) * (n % value modulus.limbs) ^ e % value modulus.limbs
        ≡ n ^ e % value modulus.limbs
  power_eq n e =
      product_mod (value modulus.limbs) 1 ((n % value modulus.limbs) ^ e)
      ∙ ap (λ (t : ℕ). t % value modulus.limbs) (omega arith)
      ∙ power_mod (value modulus.limbs) n e

  -- `bigint_modular_pow` of a base and an exponent that are not negative and a valid modulus leaves the
  -- power's remainder by the modulus in canonical form if it returns BIGINT_OK, and the destination
  -- untouched if it does not. The Karatsuba routine below it is taken to compute products.
  pub modular_pow-Computes :
      (result base exponent : BigInt) (n e : ℕ) (w : World)
      → result.capacity ≤ max_limbs
      → Represents (pos n) base
      → Represents (pos e) exponent
      → Computes result
          (pos (n ^ e % value modulus.limbs))
          (modular_pow karatsuba result base exponent modulus w)
  unfolding modular_pow
  modular_pow-Computes result base exponent n e w c rb re =
      let one = set_uint64 empty 1 w in
      let accumulator = modulo one.object one.object modulus one.world in
      let factor = modulo empty base modulus accumulator.world in
      let remaining = copy empty exponent factor.world in
      let fuel = limbs_bit_length exponent.limbs in
      let power =
        modular_pow_loop karatsuba fuel modulus accumulator.object factor.object remaining.object
          remaining.world in
      Gives-on_ok one _ _
        (λ e1.
          Gives-on_ok accumulator _ _
            (λ e2.
              Gives-on_ok factor _ _
                (λ e3.
                  Gives-on_ok remaining _ _
                    (λ e4.
                      Gives-on_ok power _ _
                        (λ e5.
                          let r1 =
                            (set_uint64-Computes empty 1 w (omega arith) (omega arith)).success
                              e1 in
                          let r4 =
                            (copy-Computes empty exponent factor.world (omega arith)
                                re.valid).success
                              e4 in
                          let rounds = (bit_length_lem exponent re.valid).0 in
                          let p =
                            modular_pow_loop-Represents fuel (1 % value modulus.limbs)
                              (n % value modulus.limbs) e accumulator.object factor.object
                              remaining.object remaining.world
                              (omega (arith, rounds, (Represents-Holds false e exponent re).number))
                              (mod-mod 1 (value modulus.limbs))
                              (remainder_of one.object one.object 1 one.world r1 e2)
                              (remainder_of empty base n accumulator.world rb e3)
                              (record { valid = r4.valid; integer = r4.integer ∙ re.integer }) e5 in
                          subst
                            (λ (t : ℤ). Computes result t (copy result power.object power.world))
                            (p.integer ∙ ap pos (power_eq n e))
                            (copy-Computes result power.object power.world c p.valid))
                        (λ e5. refl))
                    (λ e4. refl))
                (λ e3. refl))
            (λ e2. refl))
        (λ e1. refl)
