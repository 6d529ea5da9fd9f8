-- ===== src/BigInt/Text/Numerals.antt =====
-- The number that decimal digits make, and the chunks of 19 digits.
use native.Mathlib.Nat.{pow-zero, pow-succ', one-le-pow, mul-le-mul_left, mul-le-mul_right}
use num_forge.Base.{
  ℕ, zero, suc, ◌+◌, ◌-◌, ◌*◌, ◌^◌, ◌<◌, ◌≤◌, ◌≡◌, refl, Bool, true, false, ◌&&◌, List, [], ◌∷◌,
  ◌++◌, ◌⊎◌, inl, inr, Bool-cases, ◌==◌, ==→eq, length, take, drop, arith, ap, ap₂, sym, ◌∙◌, radix,
  All, u64,
}
use num_forge.BigInt.Text.{is_digit, are_digits, decimal_digit, read_chunk, split_sign}

-- The digits of a base are read from the left, after a number that stands before them.
abbrev pub positional : (ℕ → ℕ) → ℕ → ℕ → List ℕ → ℕ
positional digit base before [] = before
positional digit base before (c ∷ cs) = positional digit base (before * base + digit c) cs

-- The number of a byte from '0' to '9'.
abbrev pub digit_value : ℕ → ℕ
digit_value c = c - 48

abbrev pub decimal : ℕ → List ℕ → ℕ
decimal = positional digit_value 10

-- The text is the digits after an optional sign: '-' for a negative number, and '+' or no sign for another.
abbrev pub IsSigned : Bool → List ℕ → List ℕ → Type 0
IsSigned true digits text = text ≡ 45 ∷ digits
IsSigned false digits text = (text ≡ 43 ∷ digits) ⊎ (text ≡ digits)

abbrev pub IsBelow : (ℕ → ℕ) → ℕ → ℕ → Type 0
IsBelow digit base c = digit c < base

abbrev pub IsDigit : ℕ → Type 0
IsDigit c = (48 ≤ c) × (c ≤ 57)

both : (s t : Bool) → (s && t) ≡ true → (s ≡ true) × (t ≡ true)
both true t e = (refl, e)
both false t e = cc

char_bounds : (c : ℕ) → is_digit c ≡ true → IsDigit c
char_bounds c e = ground (arith, e)

pub are_digits-IsDigit : (cs : List ℕ) → are_digits cs ≡ true → All IsDigit cs
are_digits-IsDigit [] e = tt
are_digits-IsDigit (c ∷ cs) e =
    let parts = both (is_digit c) (are_digits cs) e in
    (char_bounds c parts.0, are_digits-IsDigit cs parts.1)

pub IsDigit-IsBelow : (cs : List ℕ) → All IsDigit cs → All (IsBelow decimal_digit 10) cs
IsDigit-IsBelow [] d = tt
IsDigit-IsBelow (c ∷ cs) d = (omega (arith, d.0), IsDigit-IsBelow cs d.1)

pub split_sign-IsSigned : (text : List ℕ) → IsSigned (split_sign text).0 (split_sign text).1 text
split_sign-IsSigned [] = inr refl
split_sign-IsSigned (c ∷ cs) = elim (Bool-cases (c == 45)) [
  | inl minus ↦ rw minus (ap (λ (d : ℕ). d ∷ cs) (==→eq c 45 minus))
  | inr other ↦ rw other (elim (Bool-cases (c == 43)) [
    | inl plus ↦ rw plus (inl (ap (λ (d : ℕ). d ∷ cs) (==→eq c 43 plus)))
    | inr none_left ↦ rw none_left (inr refl)
  ])
]

module _ (digit : ℕ → ℕ) (base : ℕ) where
  power_zero : (n : ℕ) → n * base ^ 0 ≡ n
  power_zero n = omega (arith, ap (λ (t : ℕ). n * t) (pow-zero base))

  pub positional-append :
      (before : ℕ) (xs ys : List ℕ)
      → positional digit base before (xs ++ ys)
        ≡ positional digit base (positional digit base before xs) ys
  positional-append before [] ys = refl
  positional-append before (x ∷ xs) ys = positional-append (before * base + digit x) xs ys

  pub positional-before :
      (before : ℕ) (xs : List ℕ)
      → positional digit base before xs ≡ before * base ^ length xs + positional digit base 0 xs
  positional-before before [] = omega (arith, power_zero before)
  positional-before before (x ∷ xs) =
      positional-before (before * base + digit x) xs
      ∙ omega (
        arith,
        positional-before (0 * base + digit x) xs,
        ap (λ (t : ℕ). before * t) (pow-succ' base (length xs)),
      )

  pub positional-take-drop :
      (before n : ℕ) (xs : List ℕ)
      → positional digit base (positional digit base before (take n xs)) (drop n xs)
        ≡ positional digit base before xs
  positional-take-drop before zero xs = refl
  positional-take-drop before (suc n) [] = refl
  positional-take-drop before (suc n) (x ∷ xs) = positional-take-drop (before * base + digit x) n xs

  -- A chunk: its number is below its power of the base, which fits a word, and nothing wraps.
  pub read_chunk_lem :
      (n : ℕ) (text : List ℕ) (v m : ℕ)
      → 0 < base
      → All (IsBelow digit base) text
      → v < m
      → m * base ^ n < radix
      → (read_chunk digit base n text v m
          ≡ (positional digit base v (take n text), m * base ^ length (take n text)))
        × (positional digit base v (take n text) < m * base ^ length (take n text))
  unfolding read_chunk
  read_chunk_lem zero text v m pos d h fits =
      (ap₂ (λ (s t : ℕ). (s, t)) refl (sym (power_zero m)), omega (arith, h, power_zero m))
  read_chunk_lem (suc n) [] v m pos d h fits =
      (ap₂ (λ (s t : ℕ). (s, t)) refl (sym (power_zero m)), omega (arith, h, power_zero m))
  read_chunk_lem (suc n) (c ∷ cs) v m pos d h fits =
      let room : m * base * 1 ≤ m * base * base ^ n =
        mul-le-mul_left (m * base) (one-le-pow n base pos) in
      let power : m * base * base ^ n < radix =
        omega (arith, fits, ap (λ (t : ℕ). m * t) (pow-succ' base n)) in
      let scaled : suc v * base ≤ m * base = mul-le-mul_right base h in
      let below : v * base + digit c < m * base = omega (arith, scaled, d.0) in
      let same_value : u64 (v * base + digit c) ≡ v * base + digit c =
        omega (arith, room, power, below) in
      let same_power : u64 (m * base) ≡ m * base = omega (arith, room, power) in
      let next = read_chunk_lem n cs (v * base + digit c) (m * base) pos d.1 below power in
      let longer : m * base * base ^ length (take n cs) ≡ m * base ^ suc (length (take n cs)) =
        omega (arith, ap (λ (t : ℕ). m * t) (pow-succ' base (length (take n cs)))) in
      rw (same_value, same_power)
        (next.0 ∙ ap₂ (λ (s t : ℕ). (s, t)) refl longer, omega (arith, next.1, longer))
