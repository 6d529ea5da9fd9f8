-- ===== src/BigInt/Text/Printing.antt =====
-- `bigint_to_string` prints the digits of the magnitude.
use native.Mathlib.Nat.{pow-succ'}
use num_forge.Base.{
  ℕ, zero, suc, false, ◌++◌, ◌⊎◌, ◌+◌, ◌*◌, ◌/◌, ◌%◌, ◌^◌, ◌<◌, ◌≡◌, List, [], ◌∷◌, length, arith,
  ap, ◌∙◌, All, All-append, length-append, ◌==◌, Bool-cases, inl, inr, ==→eq, ==→ne,
}
use num_forge.Runtime.Budget.{World, budget_check}
use num_forge.BigInt.Types.{BigInt}
use num_forge.BigInt.Contract.{IfOk, IfOk-on_ok, IfOk-checked}
use num_forge.BigInt.Storage.{is_empty}
use num_forge.BigInt.Storage.Holding.{value_of_empty}
use num_forge.BigInt.Magnitude.Value.{value, value_pos, IsMagnitude, IsTrimmed}
use num_forge.BigInt.Bitwise.Powers.{two_to, pow_add}
use num_forge.BigInt.Division.{divide_by_uint64, divide_by_uint64_lem}
use num_forge.BigInt.Text.{
  decimal_digit, chunk_base, chunk_loop, leading_digits, padded_digits, print_chunks,
}
use num_forge.BigInt.Text.Numerals.{decimal, IsDigit, positional-append}

-- The number of chunks, the least significant one first.
abbrev pub chunks_value : List ℕ → ℕ
chunks_value [] = 0
chunks_value (c ∷ cs) = c + chunk_base * chunks_value cs

abbrev pub IsChunk : ℕ → Type 0
IsChunk c = c < chunk_base

-- What a loop that was not stopped leaves: all of the number.
pub record Chunked (n : ℕ) (chunks : List ℕ) : Type 0 where
  pub number : chunks_value chunks ≡ n
  pub small : All IsChunk chunks
  pub top : IsTrimmed chunks

-- A chunk below the others: the most significant one is not 0.
chunk_below-IsTrimmed :
    (c : ℕ) (cs : List ℕ) → 0 < c + chunk_base * chunks_value cs → IsTrimmed cs → IsTrimmed (c ∷ cs)
chunk_below-IsTrimmed c [] p h = omega (arith, p)
chunk_below-IsTrimmed c (d ∷ cs) p h = h

nonempty_value : (xs : List ℕ) → IsTrimmed xs → is_empty xs ≡ false → 0 < value xs
nonempty_value [] t e = cc
nonempty_value (x ∷ xs) t e = value_pos x xs t

pub chunk_loop-Chunked :
    (fuel : ℕ) (scratch : BigInt) (w : World)
    → IsMagnitude scratch.limbs
    → value scratch.limbs < 2 ^ (63 * fuel)
    → IfOk (Chunked (value scratch.limbs)) (chunk_loop fuel scratch w)
unfolding chunk_loop
chunk_loop-Chunked zero scratch w m enough =
    λ p. record { number = omega (arith, enough); small = tt; top = tt }
chunk_loop-Chunked (suc fuel) scratch w m enough = elim (Bool-cases (is_empty scratch.limbs)) [
  | inl none ↦
      rw none (λ p. record { number = value_of_empty scratch.limbs none; small = tt; top = tt })
  | inr some ↦
      let P = Chunked (value scratch.limbs) in
      let divided = divide_by_uint64 scratch chunk_base in
      let d = divide_by_uint64_lem scratch chunk_base m (omega arith) in
      let w1 = (budget_check w).1 in
      let smaller : value divided.0.limbs < 2 ^ (63 * fuel) = omega (
        arith,
        d.0,
        enough,
        two_to {m = 63 * suc fuel} {n = 63 + 63 * fuel} (omega arith),
        pow_add 63 (63 * fuel),
      ) in
      rw some (
        IfOk-checked P (budget_check w) _ _ λ _.
          IfOk-on_ok P (chunk_loop fuel divided.0 w1) _ _ λ e p.
            let more = chunk_loop-Chunked fuel divided.0 w1 d.2 smaller e in
            record {
              number = omega (arith, d.0, more.number);
              small = (d.1, more.small);
              top =
                  chunk_below-IsTrimmed divided.1 (chunk_loop fuel divided.0 w1).object
                    (omega (arith, nonempty_value scratch.limbs m.trimmed some, d.0, more.number))
                    more.top;
            })
]

pub padded-decimal :
    (j limb before : ℕ) (after : List ℕ)
    → limb < 10 ^ j
    → decimal before (padded_digits j limb after) ≡ decimal (before * 10 ^ j + limb) after
unfolding padded_digits
padded-decimal zero limb before after h = ap (λ (n : ℕ). decimal n after) (omega (arith, h))
padded-decimal (suc j) limb before after h =
    padded-decimal j (limb / 10) before ((48 + limb % 10) ∷ after)
      (omega (arith, h, pow-succ' 10 j))
    ∙ ap (λ (n : ℕ). decimal n after) (omega (arith, ap (λ (t : ℕ). before * t) (pow-succ' 10 j)))

low_char-IsDigit : (n : ℕ) → IsDigit (48 + n % 10)
low_char-IsDigit n = (omega arith, omega arith)

pub padded-IsDigit :
    (j limb : ℕ) (after : List ℕ) → All IsDigit after → All IsDigit (padded_digits j limb after)
unfolding padded_digits
padded-IsDigit zero limb after h = h
padded-IsDigit (suc j) limb after h =
    padded-IsDigit j (limb / 10) ((48 + limb % 10) ∷ after) (low_char-IsDigit limb, h)

-- The first digit is not '0'.
abbrev pub Starts : List ℕ → Type 0
Starts [] = ⊥
Starts (c ∷ cs) = 48 < c

Starts-append : (xs ys : List ℕ) → Starts xs → Starts (xs ++ ys)
Starts-append [] ys h = absurd h
Starts-append (x ∷ xs) ys h = h

-- The digits of a number, in front of others.
pub record Leads (limb : ℕ) (after r : List ℕ) : Type 0 where
  pub number : decimal 0 r ≡ decimal limb after
  pub digits : All IsDigit after → All IsDigit r
  pub some_digits : 0 < length r
  pub first : 0 < limb → Starts r

last_digit :
    (limb : ℕ) (after : List ℕ) → limb / 10 ≡ 0 → Leads limb after ((48 + limb % 10) ∷ after)
last_digit limb after e = record {
  number = ap (λ (n : ℕ). decimal n after) (omega (arith, e));
  digits = λ d. (low_char-IsDigit limb, d);
  some_digits = omega arith;
  first = λ p. omega (arith, e, p);
}

earlier_digits :
    (limb : ℕ) (after r : List ℕ)
    → 0 < limb / 10
    → Leads (limb / 10) ((48 + limb % 10) ∷ after) r
    → Leads limb after r
earlier_digits limb after r more h = record {
  number = h.number ∙ ap (λ (n : ℕ). decimal n after) (omega arith);
  digits = λ d. h.digits (low_char-IsDigit limb, d);
  some_digits = h.some_digits;
  first = λ _. h.first more;
}

pub leading_digits-Leads :
    (fuel limb : ℕ) (after : List ℕ)
    → limb < 10 ^ suc fuel
    → Leads limb after (leading_digits (suc fuel) limb after)
unfolding leading_digits
leading_digits-Leads zero limb after h = elim (Bool-cases (limb / 10 == 0)) [
  | inl done ↦ rw done (last_digit limb after (==→eq (limb / 10) 0 done))
  | inr left ↦ absurd (ground (arith, ==→ne (limb / 10) 0 left, h))
]
leading_digits-Leads (suc fuel) limb after h = elim (Bool-cases (limb / 10 == 0)) [
  | inl done ↦ rw done (last_digit limb after (==→eq (limb / 10) 0 done))
  | inr left ↦ rw left (
      earlier_digits limb after _ (ground (arith, ==→ne (limb / 10) 0 left)) (
        leading_digits-Leads fuel (limb / 10) ((48 + limb % 10) ∷ after)
          (omega (arith, h, pow-succ' 10 (suc fuel)))))
]

-- The text of chunks, the most significant one without leading zeros.
pub record Printed (n : ℕ) (text : List ℕ) : Type 0 where
  pub number : decimal 0 text ≡ n
  pub digits : All IsDigit text
  pub some_digits : 0 < length text
  pub no_leading_zero : (text ≡ 48 ∷ []) ⊎ Starts text

print_chunks-Starts :
    (c : ℕ) (cs : List ℕ)
    → All IsChunk (c ∷ cs)
    → IsTrimmed (c ∷ cs)
    → Starts (print_chunks (c ∷ cs))
unfolding print_chunks
print_chunks-Starts c [] h t = (leading_digits-Leads 19 c [] (omega (arith, h.0))).first t
print_chunks-Starts c (d ∷ cs) h t =
    Starts-append (print_chunks (d ∷ cs)) (padded_digits 19 c []) (print_chunks-Starts d cs h.1 t)

pub print_chunks-Printed :
    (c : ℕ) (cs : List ℕ)
    → All IsChunk (c ∷ cs)
    → IsTrimmed (c ∷ cs)
    → Printed (chunks_value (c ∷ cs)) (print_chunks (c ∷ cs))
unfolding print_chunks
print_chunks-Printed c [] h t =
    let l = leading_digits-Leads 19 c [] (omega (arith, h.0)) in
    record {
      number = l.number ∙ omega arith;
      digits = l.digits tt;
      some_digits = l.some_digits;
      no_leading_zero = inr (l.first t);
    }
print_chunks-Printed c (d ∷ cs) h t =
    let above = print_chunks-Printed d cs h.1 t in
    let text = print_chunks (d ∷ cs) in
    let here = padded_digits 19 c [] in
    record {
      number =
          positional-append decimal_digit 10 0 text here
          ∙ ap (λ (n : ℕ). decimal n here) above.number
          ∙ padded-decimal 19 c (chunks_value (d ∷ cs)) [] (omega (arith, h.0))
          ∙ omega arith;
      digits = All-append IsDigit text here above.digits (padded-IsDigit 19 c [] tt);
      some_digits = omega (arith, length-append text here, above.some_digits);
      no_leading_zero = inr (print_chunks-Starts c (d ∷ cs) h t);
    }
