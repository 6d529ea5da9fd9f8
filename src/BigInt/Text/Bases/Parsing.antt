-- ===== src/BigInt/Text/Bases/Parsing.antt =====
-- `bigint_set_string_base` reads a numeral of a base from 2 to 36.
use num_forge.Base.{
  ℕ, ◌<◌, ◌≤◌, ◌≡◌, refl, Bool, true, false, ◌||◌, not, List, length, arith, ap, subst, sym, ◌∙◌,
  All, Bool-cases, inl, inr, ◌==◌, ==→eq, ==→ne, ltb, ltb→le,
}
use num_forge.Base.Int.{signed}
use num_forge.Runtime.Budget.{World}
use num_forge.BigInt.Types.{BigInt, Represents, Gives, invalid_argument, empty}
use num_forge.BigInt.Contract.{Gives-ok, Gives-on_ok, Gives-refused}
use num_forge.BigInt.Storage.Normal.{normalize-IsValid, to_ℤ-normalize}
use num_forge.BigInt.Storage.Holding.{empty-Holds}
use num_forge.BigInt.Text.{split_sign, parse_loop}
use num_forge.BigInt.Text.Numerals.{positional, IsBelow, IsSigned, split_sign-IsSigned}
use num_forge.BigInt.Text.Parsing.{Splits, set_string-Splits, parse_loop-Holds}
use num_forge.BigInt.Text.Bases.{ascii_digit, are_below, radix_chunk, set_string_base}
use num_forge.BigInt.Text.Bases.Numerals.{
  Evaluates, positional-Evaluates, are_below-IsBelow, decimal-positional, decimal-IsBelow,
  radix_chunk-RadixChunk,
}

-- What a text that was read in a base stands for, through the code's own split and digits.
record SplitsBase (base : ℕ) (text : List ℕ) (b : BigInt) : Type 0 where
  pub in_range : (2 ≤ base) × (base ≤ 36)
  pub some_digits : 0 < length (split_sign text).1
  pub digits : All (IsBelow ascii_digit base) (split_sign text).1
  pub represents :
      Represents (signed (split_sign text).0 (positional ascii_digit base 0 (split_sign text).1)) b

from_decimal : (text : List ℕ) (b : BigInt) → Splits text b → SplitsBase 10 text b
from_decimal text b r = record {
  in_range = (omega arith, omega arith);
  some_digits = r.some_digits;
  digits = decimal-IsBelow (split_sign text).1 r.digits;
  represents =
      subst (λ (n : ℕ). Represents (signed (split_sign text).0 n) b)
        (sym (decimal-positional 0 (split_sign text).1 r.digits)) r.represents;
}

neither : (s t : Bool) → (s || t) ≡ false → (s ≡ false) × (t ≡ false)
neither true t h = cc
neither false t h = (refl, h)

kept : (s : Bool) → not s ≡ false → s ≡ true
kept true h = refl
kept false h = cc

set_string_base-SplitsBase :
    (b : BigInt) (text : List ℕ) (base : ℕ) (w : World)
    → Gives (SplitsBase base text) b (set_string_base b text base w)
unfolding set_string_base
set_string_base-SplitsBase b text base w = elim (Bool-cases (ltb base 2 || ltb 36 base)) [
  | inl out ↦ rw out (Gives-refused invalid_argument w refl)
  | inr inside ↦ rw inside (elim (Bool-cases (base == 10)) [
    | inl ten ↦
        let g = set_string-Splits b text w in
        rw (ten, ==→eq base 10 ten)
          (record { success = λ e. from_decimal text _ (g.success e); untouched = g.untouched })
    | inr other ↦
        let (negative, digits) = split_sign text in
        rw other (elim (Bool-cases (length digits == 0 || not (are_below base digits))) [
          | inl bad ↦ rw bad (Gives-refused invalid_argument w refl)
          | inr good ↦
              let (low, high) = neither (ltb base 2) (ltb 36 base) inside in
              let two = ltb→le base 2 low in
              let most = ltb→le 36 base high in
              let (some, rest) = neither (length digits == 0) (not (are_below base digits)) good in
              let d = are_below-IsBelow base digits (kept (are_below base digits) rest) in
              let r = radix_chunk-RadixChunk base two most in
              let size = (radix_chunk base).1 in
              let parsed = parse_loop ascii_digit base size (length digits) digits empty w in
              rw good (
                Gives-on_ok parsed _ _
                  (λ e.
                    let h =
                      parse_loop-Holds ascii_digit base size (omega (arith, two)) r.grows
                        (omega (arith, r.power, r.fits)) (length digits) digits empty w
                        (omega arith) d (empty-Holds empty (omega arith)) e in
                    let c : BigInt = record (parsed.object) { is_negative = negative } in
                    Gives-ok _ _ (record {
                      in_range = (two, most);
                      some_digits = ground (arith, ==→ne (length digits) 0 some);
                      digits = d;
                      represents = record {
                        valid = normalize-IsValid c h.magnitude.words h.fits h.bounded;
                        integer = to_ℤ-normalize c ∙ ap (signed negative) h.number;
                      };
                    }))
                  (λ e. refl))
        ])
  ])
]

-- A text that is an optional sign and digits of the base, and the object of its number.
pub record ReadsBase (base : ℕ) (text : List ℕ) (b : BigInt) : Type 0 where
  pub in_range : (2 ≤ base) × (base ≤ 36)
  pub negative : Bool
  pub digits : List ℕ
  pub sign : IsSigned negative digits text
  pub some_digits : 0 < length digits
  pub number : ℕ
  pub evaluates : Evaluates base 0 digits number
  pub represents : Represents (signed negative number) b

-- If `bigint_set_string_base` returns BIGINT_OK, the base is between 2 and 36, the text is an optional sign,
-- '-' or '+', and one digit or more, each of '0' to '9', 'a' to 'z' or 'A' to 'Z' with a value below the
-- base, and the destination holds the number of the digits, negative after '-', in canonical form; if it
-- does not return BIGINT_OK, the destination is untouched.
pub set_string_base-ReadsBase :
    (b : BigInt) (text : List ℕ) (base : ℕ) (w : World)
    → Gives (ReadsBase base text) b (set_string_base b text base w)
set_string_base-ReadsBase b text base w =
    let g = set_string_base-SplitsBase b text base w in
    record {
      success = λ e.
          let h = g.success e in
          record {
            in_range = h.in_range;
            negative = (split_sign text).0;
            digits = (split_sign text).1;
            sign = split_sign-IsSigned text;
            some_digits = h.some_digits;
            number = positional ascii_digit base 0 (split_sign text).1;
            evaluates = positional-Evaluates base 0 (split_sign text).1 h.in_range.1 h.digits;
            represents = h.represents;
          };
      untouched = g.untouched;
    }
