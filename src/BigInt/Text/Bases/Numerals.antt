-- ===== src/BigInt/Text/Bases/Numerals.antt =====
-- The digits of a base, and the largest chunk of them in a word.
use native.Mathlib.Nat.{
  pow-zero, pow-suc, pow-succ', le-div_iff_mul-le, mul-le-mul_left, mul-le-mul_right,
}
use num_forge.Base.{
  ℕ, zero, suc, ◌+◌, ◌-◌, ◌*◌, ◌/◌, ◌^◌, ◌<◌, ◌≤◌, ◌≡◌, refl, Bool, true, false, ◌&&◌, List, [],
  ◌∷◌, ◌⊎◌, arith, ap, sym, ◌∙◌, radix, All, u64, uint64_max, leb, ltb, ltb→lt, Bool-cases, inl,
  inr,
}
use num_forge.BigInt.Text.{decimal_digit}
use num_forge.BigInt.Text.Numerals.{IsBelow, IsDigit, positional, decimal}
use num_forge.BigInt.Text.Bases.{ascii_digit, are_below, radix_loop, radix_chunk}

both : (s t : Bool) → (s && t) ≡ true → (s ≡ true) × (t ≡ true)
both true t e = (refl, e)
both false t e = cc

below : (c base : ℕ) → ltb (ascii_digit c) base ≡ true → ascii_digit c < base
below c base e = ltb→lt (ascii_digit c) base e

pub are_below-IsBelow :
    (base : ℕ) (cs : List ℕ) → are_below base cs ≡ true → All (IsBelow ascii_digit base) cs
are_below-IsBelow base [] e = tt
are_below-IsBelow base (c ∷ cs) e =
    let parts = both (ltb (ascii_digit c) base) (are_below base cs) e in
    (below c base parts.0, are_below-IsBelow base cs parts.1)

ascii_decimal : (c : ℕ) → IsDigit c → ascii_digit c ≡ decimal_digit c
ascii_decimal c d = ground (arith, d)

-- The decimal digits are digits of base 10.
pub decimal-positional :
    (before : ℕ) (cs : List ℕ)
    → All IsDigit cs
    → positional ascii_digit 10 before cs ≡ decimal before cs
decimal-positional before [] d = refl
decimal-positional before (c ∷ cs) d =
    ap (λ (n : ℕ). positional ascii_digit 10 (before * 10 + n) cs) (ascii_decimal c d.0)
    ∙ decimal-positional (before * 10 + (c - 48)) cs d.1

pub decimal-IsBelow : (cs : List ℕ) → All IsDigit cs → All (IsBelow ascii_digit 10) cs
decimal-IsBelow [] d = tt
decimal-IsBelow (c ∷ cs) d = (omega (arith, ascii_decimal c d.0, d.0), decimal-IsBelow cs d.1)

-- The value of a digit: '0' to '9' are 0 to 9, and 'a' to 'z', as 'A' to 'Z', are 10 to 35.
abbrev pub Denotes : ℕ → ℕ → Type 0
Denotes c v =
    ((c ≡ 48 + v) × (v < 10)) ⊎ (((c + 10 ≡ 97 + v) ⊎ (c + 10 ≡ 65 + v)) × ((10 ≤ v) × (v < 36)))

-- The number of the digits, after the number that stands before them.
abbrev pub Evaluates : ℕ → ℕ → List ℕ → ℕ → Type 0
Evaluates base before [] n = before ≡ n
Evaluates base before (c ∷ cs) n =
    (v : ℕ) × (Denotes c v × ((v < base) × Evaluates base (before * base + v) cs n))

ascii_digit-Denotes : (c : ℕ) → ascii_digit c < 36 → Denotes c (ascii_digit c)
ascii_digit-Denotes c h = elim (Bool-cases (leb 48 c && leb c 57)) [
  | inl figure ↦ rw figure (inl (ground (arith, figure), ground (arith, figure)))
  | inr other ↦ elim (Bool-cases (leb 97 c && leb c 122)) [
    | inl small ↦
        rw (other, small)
          (inr (inl (ground (arith, small)), (ground (arith, small), ground (arith, small))))
    | inr wide ↦ elim (Bool-cases (leb 65 c && leb c 90)) [
      | inl large ↦
          rw (other, wide, large)
            (inr (inr (ground (arith, large)), (ground (arith, large), ground (arith, large))))
      | inr strange ↦ absurd (omega (arith, rw (other, wide, strange) at h))
    ]
  ]
]

pub positional-Evaluates :
    (base before : ℕ) (cs : List ℕ)
    → base ≤ 36
    → All (IsBelow ascii_digit base) cs
    → Evaluates base before cs (positional ascii_digit base before cs)
positional-Evaluates base before [] high d = refl
positional-Evaluates base before (c ∷ cs) high d = (
  ascii_digit c,
  (
    ascii_digit-Denotes c (omega (arith, d.0, high)),
    (d.0, positional-Evaluates base (before * base + ascii_digit c) cs high d.1),
  ),
)

-- The power of the base that the loop ends with: it fits a word, and the next one does not.
pub record RadixChunk (base digits : ℕ) (r : ℕ × ℕ) : Type 0 where
  pub power : r.0 ≡ base ^ r.1
  pub fits : r.0 < radix
  pub largest : uint64_max / base < r.0
  pub grows : digits ≤ r.1

pub radix_loop-RadixChunk :
    (fuel base m digits : ℕ)
    → 2 ≤ base
    → m ≡ base ^ digits
    → m < radix
    → radix ≤ m * 2 ^ fuel
    → RadixChunk base digits (radix_loop fuel base m digits)
unfolding radix_loop
radix_loop-RadixChunk zero base m digits two e h enough =
    absurd (omega (arith, h, enough, pow-zero 2))
radix_loop-RadixChunk (suc fuel) base m digits two e h enough =
    elim (Bool-cases (leb m (uint64_max / base))) [
      | inl more ↦
          let room : m * base ≤ uint64_max =
            (le-div_iff_mul-le {k = base} {x = m} {y = uint64_max} (omega (arith, two))).0
              (ground (arith, more)) in
          let same : u64 (m * base) ≡ m * base = omega (arith, room) in
          let twice : m * 2 * 2 ^ fuel ≤ m * base * 2 ^ fuel =
            mul-le-mul_right (2 ^ fuel) (mul-le-mul_left m two) in
          let next =
            radix_loop-RadixChunk fuel base (m * base) (digits + 1) two
              (ap (λ (t : ℕ). t * base) e
                ∙ sym (pow-suc base digits)
                ∙ ap (λ (t : ℕ). base ^ t) (omega arith))
              (omega (arith, room))
              (omega (arith, twice, enough, ap (λ (t : ℕ). m * t) (pow-succ' 2 fuel))) in
          rw (more, same)
            (record {
              power = next.power;
              fits = next.fits;
              largest = next.largest;
              grows = omega (arith, next.grows);
            })
      | inr done ↦
          rw done
            (record { power = e; fits = h; largest = ground (arith, done); grows = omega arith })
    ]

some_digit : (base m n : ℕ) → 2 ≤ base → base ≤ 36 → m ≡ base ^ n → uint64_max / base < m → 1 ≤ n
some_digit base m zero two high e h =
    let least : 1 ≤ uint64_max / base =
      (le-div_iff_mul-le {k = base} {x = 1} {y = uint64_max} (omega (arith, two))).1
        (omega (arith, high)) in
    absurd (omega (arith, least, e, h, pow-zero base))
some_digit base m (suc n) two high e h = omega arith

-- `bigint_radix_chunk` returns the largest power of the base that fits a word, and its exponent, which is
-- not 0.
pub radix_chunk-RadixChunk :
    (base : ℕ) → 2 ≤ base → base ≤ 36 → RadixChunk base 1 (radix_chunk base)
radix_chunk-RadixChunk base two high =
    let r =
      radix_loop-RadixChunk 64 base 1 0 two (sym (pow-zero base)) (omega arith) (omega arith) in
    record {
      power = r.power;
      fits = r.fits;
      largest = r.largest;
      grows = some_digit base _ _ two high r.power r.largest;
    }
