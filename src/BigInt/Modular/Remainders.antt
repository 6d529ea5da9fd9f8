-- ===== src/BigInt/Modular/Remainders.antt =====
-- Powers and products modulo a number, and what a number that is not negative keeps.
use native.Mathlib.Nat.{pow-zero, pow-succ', zero-mod, add-mul-mod_self_left, mod-add-div}
use num_forge.Base.{
  ℕ, zero, suc, ◌*◌, ◌/◌, ◌%◌, ◌^◌, ◌≡◌, Bool, true, false, arith, ap, sym, ◌∙◌, if◌then◌else◌,
  ◌==◌, Bool-cases, inl, inr,
}
use num_forge.Base.Int.{pos, signed}
use num_forge.BigInt.Power.Squaring.{round_power}

pub product_mod : (m a b : ℕ) → (a % m) * b % m ≡ a * b % m
product_mod m a b =
    sym (add-mul-mod_self_left ((a % m) * b) m (a / m * b))
    ∙ ap (λ (t : ℕ). t % m) (omega (arith, ap (λ (t : ℕ). t * b) (mod-add-div a m)))

pub products_mod : (m a b : ℕ) → a * (b % m) % m ≡ a * b % m
products_mod m a b =
    ap (λ (t : ℕ). t % m) (omega arith) ∙ product_mod m b a ∙ ap (λ (t : ℕ). t % m) (omega arith)

pub power_mod : (m a n : ℕ) → (a % m) ^ n % m ≡ a ^ n % m
power_mod m a zero = ap (λ (t : ℕ). t % m) (pow-zero (a % m) ∙ sym (pow-zero a))
power_mod m a (suc n) =
    ap (λ (t : ℕ). t % m) (pow-succ' (a % m) n)
    ∙ product_mod m a ((a % m) ^ n)
    ∙ sym (products_mod m a ((a % m) ^ n))
    ∙ ap (λ (t : ℕ). a * t % m) (power_mod m a n)
    ∙ products_mod m a (a ^ n)
    ∙ ap (λ (t : ℕ). t % m) (sym (pow-succ' a n))

nothing_negative : (v n : ℕ) → signed true v ≡ pos n → (v ≡ 0) × (n ≡ 0)
nothing_negative v n e = ground (arith, e)

same_number : (v n : ℕ) → signed false v ≡ pos n → v ≡ n
same_number v n e = ground (arith, e)

-- What a number that is not negative keeps.
pub kept_mod : (s : Bool) (v n m : ℕ) → signed s v ≡ pos n → signed s (v % m) ≡ pos (n % m)
kept_mod false v n m e = ap (λ (t : ℕ). pos (t % m)) (same_number v n e)
kept_mod true v n m e =
    let (v_zero, n_zero) = nothing_negative v n e in
    ap (λ (t : ℕ). signed true (t % m)) v_zero
    ∙ ap (signed true) (zero-mod m)
    ∙ ap pos (sym (zero-mod m) ∙ ap (λ (t : ℕ). t % m) (sym n_zero))

pub kept_half : (s : Bool) (v n : ℕ) → signed s v ≡ pos n → signed s (v / 2 ^ 1) ≡ pos (n / 2)
kept_half false v n e = ap (λ (t : ℕ). pos (t / 2)) (same_number v n e)
kept_half true v n e =
    let (v_zero, n_zero) = nothing_negative v n e in
    ap (λ (t : ℕ). signed true (t / 2)) v_zero ∙ ap (λ (t : ℕ). pos (t / 2)) (sym n_zero)

pub halved_power :
    (m a f r : ℕ)
    → (if r % 2 == 0 then a else a * f % m) * (f * f % m) ^ (r / 2) % m ≡ a * f ^ r % m
halved_power m a f r =
    let x = if r % 2 == 0 then a else a * f % m in
    sym (products_mod m x ((f * f % m) ^ (r / 2)))
    ∙ ap (λ (t : ℕ). x * t % m) (power_mod m (f * f) (r / 2))
    ∙ products_mod m x ((f * f) ^ (r / 2))
    ∙ lowered
  where
    lowered : (if r % 2 == 0 then a else a * f % m) * (f * f) ^ (r / 2) % m ≡ a * f ^ r % m
    lowered = elim (Bool-cases (r % 2 == 0)) [
      | inl even ↦ rw even (ap (λ (t : ℕ). t % m) (rw even at (round_power a f r)))
      | inr odd ↦ rw odd (
          product_mod m (a * f) ((f * f) ^ (r / 2))
          ∙ ap (λ (t : ℕ). t % m) (rw odd at (round_power a f r)))
    ]
