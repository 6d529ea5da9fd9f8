-- ===== src/BigInt/Zeros/Counting.antt =====
-- The decimal zeros of a remainder.
use native.Mathlib.Nat.{pow-succ', pow-zero, one-le-pow, mul-le-mul_left}
use num_forge.Base.{
  ℕ, zero, suc, ◌+◌, ◌*◌, ◌/◌, ◌%◌, ◌^◌, ◌<◌, ◌≤◌, ◌≡◌, List, [], ◌∷◌, ap, sym, ◌∙◌, arith, u64,
  ◌==◌, Bool-cases, inl, inr,
}
use num_forge.BigInt.Magnitude.Value.{value}
use num_forge.BigInt.Zeros.{remainder_ten, count_zeros, Round}

pub remainder_ten_lem :
    (r : ℕ) (xs : List ℕ) → r < 10 → remainder_ten r xs ≡ (r + 6 * value xs) % 10
unfolding remainder_ten
remainder_ten_lem r [] h = omega arith
remainder_ten_lem r (x ∷ xs) h =
    remainder_ten_lem ((r + 6 * (x % 10)) % 10) xs (omega arith) ∙ omega arith

same_power : (m n : ℕ) → m ≡ n → 10 ^ m ≡ 10 ^ n
same_power m n e = ap (λ (t : ℕ). 10 ^ t) e

pub power_sum : (a b : ℕ) → 10 ^ (a + b) ≡ 10 ^ a * 10 ^ b
power_sum zero b =
    same_power (0 + b) b (omega arith) ∙ omega (arith, ap (λ (t : ℕ). t * 10 ^ b) (pow-zero 10))
power_sum (suc a) b =
    same_power (suc a + b) (suc (a + b)) (omega arith)
    ∙ pow-succ' 10 (a + b)
    ∙ omega (arith, power_sum a b, ap (λ (t : ℕ). t * 10 ^ b) (pow-succ' 10 a))

-- The power of 10 that was taken off, and what is left.
pub record Counted (r : ℕ) (o : Round) : Type 0 where
  pub rest : ℕ
  pub whole : o.remainder * o.divisor ≡ r
  pub power : o.divisor ≡ 10 ^ o.count
  pub few : o.count ≤ 19
  pub last_digit : 0 < o.remainder % 10
  pub room : o.divisor * (10 * rest) ≡ 10 ^ 19

times_ten : (c : ℕ) → 10 ^ (c + 1) ≡ 10 ^ c * 10
times_ten c = same_power (c + 1) (suc c) (omega arith) ∙ pow-succ' 10 c ∙ omega arith

pub count_zeros-Counted :
    (fuel r d c n : ℕ)
    → r * d ≡ n
    → d ≡ 10 ^ c
    → d * 10 ^ fuel ≡ 10 ^ 19
    → c + fuel ≤ 19
    → 0 < r
    → r < 10 ^ fuel
    → Counted n (count_zeros fuel r d c)
unfolding count_zeros
count_zeros-Counted zero r d c n e p room few some h = absurd (omega (arith, h, pow-zero 10))
count_zeros-Counted (suc fuel) r d c n e p room few some h = elim (Bool-cases (r % 10 == 0)) [
  | inr last ↦ rw last (record {
    rest = 10 ^ fuel;
    whole = e;
    power = p;
    few = omega (arith, few);
    last_digit = ground (arith, last);
    room = ap (λ (t : ℕ). d * t) (sym (pow-succ' 10 fuel)) ∙ room;
  })
  | inl more ↦
      let tenth : r / 10 * 10 ≡ r = ground (arith, more) in
      let big : 1 ≤ 10 ^ fuel = one-le-pow fuel 10 (omega arith) in
      let split : 10 ^ suc fuel ≡ 10 * 10 ^ fuel = pow-succ' 10 fuel in
      let room' : d * 10 * 10 ^ fuel ≡ 10 ^ 19 = omega (arith, room, ap (λ (t : ℕ). d * t) split) in
      let small : d * 10 < 2 ^ 64 = omega (arith, room', mul-le-mul_left (d * 10) big) in
      let word : u64 (d * 10) ≡ d * 10 = omega (arith, small) in
      rw (more, word)
        (count_zeros-Counted fuel (r / 10) (d * 10) (c + 1) n
          (omega (arith, e, ap (λ (t : ℕ). t * d) tenth))
          (ap (λ (t : ℕ). t * 10) p ∙ sym (times_ten c)) room' (omega (arith, few))
          (omega (arith, tenth, some)) (omega (arith, h, split, tenth)))
]
