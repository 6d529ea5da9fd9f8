-- ===== src/BigInt/Text/Parsing.antt =====
-- `bigint_set_string` reads a decimal numeral.
use native.Mathlib.Nat.{pow-le-pow_right}
use num_forge.Base.{
  ℕ, zero, suc, ◌+◌, ◌*◌, ◌^◌, ◌<◌, ◌≤◌, ◌≡◌, refl, Bool, true, false, ◌||◌, not, List, [], ◌∷◌,
  length, take, drop, arith, ap, ap₂, subst, ◌∙◌, radix, All, All-drop, length-take, length-drop,
  Bool-cases, inl, inr, ◌==◌, ==→ne,
}
use num_forge.Base.Int.{signed}
use num_forge.Runtime.Budget.{World, budget_check}
use num_forge.BigInt.Types.{BigInt, Holds, Represents, Gives, invalid_argument, empty}
use num_forge.BigInt.Contract.{IfOk, IfOk-on_ok, IfOk-checked, Gives-ok, Gives-on_ok, Gives-refused}
use num_forge.BigInt.Storage.Normal.{normalize-IsValid, to_ℤ-normalize}
use num_forge.BigInt.Storage.Holding.{empty-Holds}
use num_forge.BigInt.Magnitude.Value.{value}
use num_forge.BigInt.Arithmetic.{add_uint64, multiply_by_uint64}
use num_forge.BigInt.Arithmetic.ByWord.{add_uint64-Holds}
use num_forge.BigInt.Arithmetic.Scaling.{multiply_by_uint64-Holds}
use num_forge.BigInt.Text.{
  decimal_digit, are_digits, split_sign, read_chunk, parse_loop, set_string,
}
use num_forge.BigInt.Text.Numerals.{
  decimal, IsSigned, split_sign-IsSigned, IsDigit, are_digits-IsDigit, positional,
  positional-before, positional-take-drop, IsBelow, IsDigit-IsBelow, read_chunk_lem,
}

self_held : (n : ℕ) (b : BigInt) → Holds n b → Holds (value b.limbs) b
self_held n b h = record {
  magnitude = h.magnitude;
  number = refl;
  fits = h.fits;
  bounded = h.bounded;
}

module _ (digit : ℕ → ℕ) (base size : ℕ) (pos : 0 < base) (some_size : 0 < size)
    (small : base ^ size < radix) where
  number : ℕ → List ℕ → ℕ
  number = positional digit base

  -- The power of a chunk is 1 times a power of the base.
  chunk_number :
      (before : ℕ) (xs : List ℕ) → before * (1 * base ^ length xs) + number 0 xs ≡ number before xs
  unfolding number
  chunk_number before xs = omega (arith, positional-before digit base before xs)

  power_of_chunk : (xs : List ℕ) → 1 * base ^ length (take size xs) < radix
  power_of_chunk xs = omega (
    arith,
    small,
    pow-le-pow_right {n = base} pos {i = length (take size xs)} {j = size}
        (omega (arith, length-take size xs)),
  )

  -- The loop appends the digits to the number, if the budget and the memory last.
  pub parse_loop-Holds :
      (fuel : ℕ) (text : List ℕ) (parsed : BigInt) (w : World)
      → length text ≤ fuel
      → All (IsBelow digit base) text
      → Holds (value parsed.limbs) parsed
      → IfOk
          (Holds (positional digit base (value parsed.limbs) text))
          (parse_loop digit base size fuel text parsed w)
  unfolding parse_loop number
  parse_loop-Holds zero [] parsed w enough d h = λ p. h
  parse_loop-Holds zero (c ∷ cs) parsed w enough d h = absurd (omega arith)
  parse_loop-Holds (suc fuel) [] parsed w enough d h = λ p. h
  parse_loop-Holds (suc fuel) (c ∷ cs) parsed w enough d h =
      let text = c ∷ cs in
      let chunk = read_chunk digit base size text 0 1 in
      let read = take size text in
      let before = value parsed.limbs in
      let P = Holds (number before text) in
      let (known, below) =
        read_chunk_lem digit base size text 0 1 pos d (omega arith) (omega (arith, small)) in
      let value_eq : chunk.0 ≡ number 0 read = ap (λ (r : ℕ × ℕ). r.0) known in
      let power : chunk.1 ≡ 1 * base ^ length read = ap (λ (r : ℕ × ℕ). r.1) known in
      let fits = power_of_chunk text in
      let w1 = (budget_check w).1 in
      let scaled = multiply_by_uint64 parsed chunk.1 w1 in
      let next = add_uint64 scaled.object chunk.0 scaled.world in
      IfOk-checked P (budget_check w) _ _ λ _. IfOk-on_ok P scaled _ _ λ e.
        let s = multiply_by_uint64-Holds parsed chunk.1 w1 h (omega (arith, power, fits)) e in
        IfOk-on_ok P next _ _ λ f p.
          let a =
            add_uint64-Holds scaled.object chunk.0 scaled.world (self_held _ scaled.object s)
              (omega (arith, value_eq, below, fits)) f in
          let so_far : value next.object.limbs ≡ number before read =
            a.number
            ∙ ap₂ ◌+◌ (s.number ∙ ap (λ (t : ℕ). before * t) power) value_eq
            ∙ chunk_number before read in
          let all =
            parse_loop-Holds fuel (drop size text) next.object next.world
              (omega (arith, length-drop size text, enough, some_size))
              (All-drop (IsBelow digit base) size text d) (self_held _ next.object a) p in
          subst
            (λ (n : ℕ).
              Holds n
                (parse_loop digit base size fuel (drop size text) next.object next.world).object)
            (ap (λ (n : ℕ). number n (drop size text)) so_far
              ∙ positional-take-drop digit base before size text)
            all

-- What a text that was read stands for, through the code's own split.
pub record Splits (text : List ℕ) (b : BigInt) : Type 0 where
  pub some_digits : 0 < length (split_sign text).1
  pub digits : All IsDigit (split_sign text).1
  pub represents : Represents (signed (split_sign text).0 (decimal 0 (split_sign text).1)) b

refused_text : List ℕ → Bool
refused_text text =
    let digits = (split_sign text).1 in
    length text == 0 || (length digits == 0 || not (are_digits digits))

accepted :
    (text : List ℕ)
    → refused_text text ≡ false
    → (0 < length (split_sign text).1) × All IsDigit (split_sign text).1
unfolding refused_text
accepted text e =
    let digits = (split_sign text).1 in
    let (some, rest) = neither (length digits == 0) (not (are_digits digits)) (neither _ _ e).1 in
    (
      ground (arith, ==→ne (length digits) 0 some),
      are_digits-IsDigit digits (kept (are_digits digits) rest),
    )
  where
    neither : (s t : Bool) → (s || t) ≡ false → (s ≡ false) × (t ≡ false)
    neither true t h = cc
    neither false t h = (refl, h)

    kept : (s : Bool) → not s ≡ false → s ≡ true
    kept true h = refl
    kept false h = cc

pub set_string-Splits :
    (b : BigInt) (text : List ℕ) (w : World) → Gives (Splits text) b (set_string b text w)
unfolding set_string refused_text
set_string-Splits b text w = elim (Bool-cases (refused_text text)) [
  | inl bad ↦ rw bad (Gives-refused invalid_argument w refl)
  | inr good ↦
      let (negative, digits) = split_sign text in
      let (some, d) = accepted text good in
      let parsed = parse_loop decimal_digit 10 19 (length digits) digits empty w in
      rw good (
        Gives-on_ok parsed _ _
          (λ e.
            let h =
              parse_loop-Holds decimal_digit 10 19 (omega arith) (omega arith) (omega arith)
                (length digits) digits empty w (omega arith) (IsDigit-IsBelow digits d)
                (empty-Holds empty (omega arith)) e in
            let c : BigInt = record (parsed.object) { is_negative = negative } in
            Gives-ok _ _ (record {
              some_digits = some;
              digits = d;
              represents = record {
                valid = normalize-IsValid c h.magnitude.words h.fits h.bounded;
                integer = to_ℤ-normalize c ∙ ap (signed negative) h.number;
              };
            }))
          (λ e. refl))
]

-- A text that is an optional sign and decimal digits, and the object of its number.
pub record Reads (text : List ℕ) (b : BigInt) : Type 0 where
  pub negative : Bool
  pub digits : List ℕ
  pub sign : IsSigned negative digits text
  pub some_digits : 0 < length digits
  pub decimal_digits : All IsDigit digits
  pub represents : Represents (signed negative (decimal 0 digits)) b

-- If `bigint_set_string` returns BIGINT_OK, the text is an optional sign, '-' or '+', and one decimal digit
-- or more, and the destination holds the number of the digits, negative after '-', in canonical form; if
-- it does not return BIGINT_OK, the destination is untouched.
pub set_string-Reads :
    (b : BigInt) (text : List ℕ) (w : World) → Gives (Reads text) b (set_string b text w)
set_string-Reads b text w =
    let g = set_string-Splits b text w in
    record {
      success = λ e.
          let h = g.success e in
          record {
            negative = (split_sign text).0;
            digits = (split_sign text).1;
            sign = split_sign-IsSigned text;
            some_digits = h.some_digits;
            decimal_digits = h.digits;
            represents = h.represents;
          };
      untouched = g.untouched;
    }
