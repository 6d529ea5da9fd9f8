-- ===== src/BigInt/Zeros/Stripping.antt =====
-- `bigint_strip_decimal_zeros` takes all decimal zeros off.
use native.Mathlib.Nat.{pow-zero, one-le-pow, mul-le-mul_left}
use num_forge.Base.{
  ℕ, zero, suc, ◌+◌, ◌-◌, ◌*◌, ◌%◌, ◌^◌, ◌<◌, ◌≤◌, ◌≡◌, refl, Bool, true, false, List, [], ◌∷◌,
  length, arith, ap, sym, ◌∙◌, Bool-cases, inl, inr, ◌==◌, ==→eq, if◌then◌else◌, leb, ltb,
  uint64_max,
}
use num_forge.Runtime.Budget.{World, budget_check, polls}
use num_forge.BigInt.Types.{BigInt, IsValid}
use num_forge.BigInt.Contract.{IfOk, IfOk-on_ok, IfOk-checked}
use num_forge.BigInt.Storage.{normalize, is_empty}
use num_forge.BigInt.Storage.Normal.{normalize-IsValid}
use num_forge.BigInt.Magnitude.Value.{value}
use num_forge.BigInt.Magnitude.Trim.{trim, value-trim}
use num_forge.BigInt.Magnitude.Divide.{divide_limbs}
use num_forge.BigInt.Magnitude.Divide.Short.{divide_limbs_lem}
use num_forge.BigInt.Text.{chunk_base}
use num_forge.BigInt.Quotient.Signed.{quotient_unique}
use num_forge.BigInt.Zeros.Contract.{Stripped, InverseStripping}
use num_forge.BigInt.Zeros.{
  remainder_ten, Round, zeros_of, strip_loop, strip_classic, strip_decimal_zeros,
}
use num_forge.BigInt.Zeros.Counting.{power_sum, remainder_ten_lem, Counted, count_zeros-Counted}

-- What a round finds in a number that is not 0, with quotient `q` and remainder `m` by 10 ^ 19.
record Found (n : ℕ) (round : Round) : Type 0 where
  pub quotient : ℕ
  pub divisible : quotient * round.divisor ≡ n
  pub power : round.divisor ≡ 10 ^ round.count
  pub few : round.count ≤ 19
  pub none_left : round.count ≡ 0 → 0 < n % 10
  pub last : 0 < round.remainder → 0 < quotient % 10
  pub large : (round.remainder ≡ 0) → 2 ≤ round.divisor

Counted-Found : (n q m : ℕ) (o : Round) → q * 10 ^ 19 + m ≡ n → Counted m o → Found n o
Counted-Found n q m o e c = record {
  quotient = q * (10 * c.rest) + o.remainder;
  divisible = omega (arith, e, c.whole, ap (λ (t : ℕ). q * t) c.room);
  power = c.power;
  few = c.few;
  none_left = λ k.
      let one : o.divisor ≡ 1 = c.power ∙ ap (λ (t : ℕ). 10 ^ t) k ∙ pow-zero 10 in
      let same : o.remainder * 1 ≡ m = ap (λ (t : ℕ). o.remainder * t) (sym one) ∙ c.whole in
      omega (arith, e, same, c.last_digit);
  last = λ k. omega (arith, c.last_digit);
  large = λ k. absurd (omega (arith, k, c.last_digit));
}

zeros_of-Found : (n q m : ℕ) → q * 10 ^ 19 + m ≡ n → m < 10 ^ 19 → Found n (zeros_of m)
unfolding zeros_of
zeros_of-Found n q m e h = elim (Bool-cases (m == 0)) [
  | inl z ↦ rw z (record {
    quotient = q;
    divisible = ground (arith, z, e);
    power = refl;
    few = omega arith;
    none_left = λ k. absurd (ground (arith, k));
    last = λ k. absurd (omega (arith, k));
    large = λ k. omega arith;
  })
  | inr some ↦
      let c =
        count_zeros-Counted 19 m 1 0 m (omega arith) (sym (pow-zero 10)) (omega arith) (omega arith)
          (ground (arith, some)) h in
      rw some (Counted-Found n q m _ e c)
]

nonempty_of : (xs : List ℕ) → 0 < value xs → is_empty xs ≡ false
nonempty_of [] h = absurd (omega arith)
nonempty_of (x ∷ xs) h = refl

quotient_exact : (q d n r m : ℕ) → 0 < d → q * d + r ≡ n → r < d → m * d ≡ n → q ≡ m
quotient_exact q d n r m p e h k =
    (quotient_unique q d r n e h).0 ∙ sym (quotient_unique m d 0 n (omega (arith, k)) p).0

-- What a round leaves.
record Next (b : BigInt) (o : Round) (next : BigInt) : Type 0 where
  pub valid : IsValid next
  pub whole : value next.limbs * 10 ^ o.count ≡ value b.limbs
  pub some : 0 < value next.limbs
  pub sign : next.is_negative ≡ b.is_negative
  pub last : 0 < o.remainder → 0 < value next.limbs % 10

abbrev divided : BigInt → ℕ → BigInt
divided b d = record b { limbs = (divide_limbs d b.limbs).0 }

divided-Next :
    (b : BigInt) (o : Round)
    → IsValid b
    → 0 < value b.limbs
    → Found (value b.limbs) o
    → Next b o (normalize (divided b o.divisor))
unfolding normalize
divided-Next b o v some f =
    let dp : 0 < o.divisor = omega (arith, f.power, one-le-pow o.count 10 (omega arith)) in
    let short = divide_limbs_lem o.divisor b.limbs dp v.magnitude.words in
    let q = (divide_limbs o.divisor b.limbs).0 in
    let same : value (trim q) ≡ f.quotient =
      value-trim q
      ∙ quotient_exact (value q) o.divisor (value b.limbs) _ f.quotient dp short.equation
          short.below f.divisible in
    let positive : 0 < value (trim q) =
      factor_pos (value (trim q)) o.divisor (value b.limbs)
        (ap (λ (t : ℕ). t * o.divisor) same ∙ f.divisible) some in
    record {
      valid =
          normalize-IsValid (divided b o.divisor) short.words
            (omega (arith, short.same_length, v.fits)) v.bounded;
      whole =
          ap (λ (t : ℕ). value (trim q) * t) (sym f.power)
          ∙ ap (λ (t : ℕ). t * o.divisor) same
          ∙ f.divisible;
      some = positive;
      sign = rw (nonempty_of (trim q) positive) refl;
      last = λ h. omega (arith, f.last h, same);
    }
  where
    factor_pos : (m d n : ℕ) → m * d ≡ n → 0 < n → 0 < m
    factor_pos zero d n e h = absurd (omega (arith, e, h))
    factor_pos (suc m) d n e h = omega arith

strip_loop-Stripped :
    (fuel : ℕ) (b : BigInt) (removed : ℕ) (w : World)
    → IsValid b
    → 0 < value b.limbs
    → value b.limbs < fuel
    → removed ≤ uint64_max
    → (a : BigInt) → a.is_negative ≡ b.is_negative
    → value b.limbs * 10 ^ removed ≡ value a.limbs
    → IfOk (Stripped a) (strip_loop fuel b removed w)
unfolding strip_loop
strip_loop-Stripped zero b removed w v some enough small a sign whole = absurd (omega arith)
strip_loop-Stripped (suc fuel) b removed w v some enough small a sign whole =
    let m = (divide_limbs chunk_base b.limbs).1 in
    let round = zeros_of m in
    let short = divide_limbs_lem chunk_base b.limbs (omega arith) v.magnitude.words in
    let found = zeros_of-Found (value b.limbs) _ m short.equation short.below in
    let next = divided-Next b round v some found in
    let grown : value (normalize (divided b round.divisor)).limbs * 10 ^ (removed + round.count)
        ≡ value a.limbs =
      ap (λ (t : ℕ). value (normalize (divided b round.divisor)).limbs * t)
        (power_sum removed round.count)
      ∙ omega (arith, ap (λ (t : ℕ). t * 10 ^ removed) next.whole)
      ∙ whole in
    let room : ltb (uint64_max - round.count) removed ≡ false → removed + round.count ≤ uint64_max =
      λ fits. ground (arith, fits, found.few) in
    let smaller : round.remainder ≡ 0 → value (normalize (divided b round.divisor)).limbs < fuel =
      λ z. omega (
        arith,
        enough,
        some,
        next.whole,
        found.power,
        mul-le-mul_left (value (normalize (divided b round.divisor)).limbs) (found.large z),
        ap (λ (t : ℕ). value (normalize (divided b round.divisor)).limbs * t) found.power,
      ) in
    let w2 = (polls (length b.limbs) 1 (budget_check w).1).1 in
    IfOk-checked (Stripped a) (budget_check w) _ _ λ _.
      IfOk-checked (Stripped a) (polls (length b.limbs) 1 (budget_check w).1) _ _ λ _.
        elim (Bool-cases (round.count == 0)) [
          | inl none ↦ rw none (λ p. record {
            valid = v;
            whole = whole;
            last_digit = found.none_left (==→eq round.count 0 none);
            sign = sym sign;
            word = small;
          })
          | inr more ↦ rw more (elim (Bool-cases (ltb (uint64_max - round.count) removed)) [
            | inl over ↦ rw over (λ p. cc)
            | inr fits ↦ rw fits (
                IfOk-checked (Stripped a) (polls (length b.limbs) 1 w2) _ _ λ _.
                  elim (Bool-cases (round.remainder == 0)) [
                    | inr last ↦ rw last (λ p. record {
                      valid = next.valid;
                      whole = grown;
                      last_digit = next.last (ground (arith, last));
                      sign = next.sign ∙ sym sign;
                      word = room fits;
                    })
                    | inl go_on ↦ rw go_on (
                        strip_loop-Stripped fuel (normalize (divided b round.divisor))
                          (removed + round.count) _ next.valid next.some
                          (smaller (==→eq round.remainder 0 go_on)) (room fits) a
                          (sign ∙ sym next.sign) grown)
                  ])
          ])
        ]

untouched : (n : ℕ) → n * 10 ^ 0 ≡ n
untouched n = omega (arith, ap (λ (t : ℕ). n * t) (pow-zero 10))

pub strip_classic-Stripped :
    (b : BigInt) (w : World) → IsValid b → 0 < value b.limbs → IfOk (Stripped b) (strip_classic b w)
unfolding strip_classic
strip_classic-Stripped b w = classic b.limbs
  where
    classic :
        (xs : List ℕ)
        → IsValid (record b { limbs = xs })
        → 0 < value xs
        → IfOk (Stripped (record b { limbs = xs })) (strip_classic (record b { limbs = xs }) w)
    classic [] v some = absurd (omega (arith, some))
    classic (x ∷ xs) v some =
        let c = record b { limbs = x ∷ xs } in
        let tens = remainder_ten_lem (x % 10) xs (omega arith) in
        IfOk-checked (Stripped c) (polls (length xs) 1 w) _ _ λ _.
          elim (Bool-cases (remainder_ten (x % 10) xs == 0)) [
            | inr last ↦ rw last (λ p. record {
              valid = v;
              whole = untouched (value (x ∷ xs));
              last_digit = ground (arith, last, tens);
              sign = refl;
              word = omega arith;
            })
            | inl more ↦ rw more (
                strip_loop-Stripped (suc (value (x ∷ xs))) c 0 _ v some (omega arith) (omega arith)
                  c refl (untouched (value (x ∷ xs))))
          ]

-- If `bigint_strip_decimal_zeros` of a valid object that is not 0 returns BIGINT_OK, it leaves a number in
-- canonical form with the same sign and a last digit that is not 0, and its product with 10 to the count
-- that is returned is the number before. The routine for 128 limbs or more is taken to do so.
pub strip_decimal_zeros-Stripped :
    (inverse : InverseStripping) (b : BigInt) (w : World)
    → IsValid b
    → 0 < value b.limbs
    → IfOk (Stripped b) (strip_decimal_zeros inverse b w)
unfolding strip_decimal_zeros
strip_decimal_zeros-Stripped inverse b w v some =
    let w1 = (budget_check w).1 in
    let m = if leb 128 (length b.limbs) then inverse.strip b 27 w1 else strip_classic b w1 in
    IfOk-checked (Stripped b) (budget_check w) _ _ λ _. IfOk-on_ok (Stripped b) m _ _ λ e.
      IfOk-checked (Stripped b) (budget_check m.world) _ _
        λ _ p. chosen (leb 128 (length b.limbs)) w1 e
  where
    chosen :
        (large : Bool) (w1 : World)
        → IfOk (Stripped b) (if large then inverse.strip b 27 w1 else strip_classic b w1)
    chosen true w1 = inverse.strip-Stripped b 27 w1 v some
    chosen false w1 = strip_classic-Stripped b w1 v some
