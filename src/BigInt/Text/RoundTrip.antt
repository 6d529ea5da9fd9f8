-- ===== src/BigInt/Text/RoundTrip.antt =====
-- What `bigint_to_string` prints, `bigint_set_string` reads back.
use native.Mathlib.Nat.{pow-le-pow_right}
use num_forge.Base.{
  ℕ, ◌+◌, ◌*◌, ◌/◌, ◌^◌, ◌<◌, ◌≤◌, ◌≡◌, refl, Bool, true, false, Option, none, some, List, [], ◌∷◌,
  ◌++◌, length, arith, ap, subst, sym, ◌∙◌, if◌then◌else◌, Bool-cases, inl, inr, ◌⊎◌,
}
use num_forge.Base.Int.{signed}
use num_forge.Runtime.Budget.{World, alloc}
use num_forge.BigInt.Types.{BigInt, IsValid, Represents, Computes, is_ok, to_ℤ, empty}
use num_forge.BigInt.Contract.{IfOk, IfOk-on_ok, IfOk-checked}
use num_forge.BigInt.Storage.{size_add, size_mul, is_empty, copy}
use num_forge.BigInt.Storage.Holding.{copy-Holds, value_of_empty}
use num_forge.BigInt.Magnitude.Value.{value, IsMagnitude, value_pos}
use num_forge.BigInt.Bitwise.Powers.{pow_split, two_to, value-lt}
use num_forge.BigInt.Text.{
  split_sign, chunk_loop, print_chunks, chunks_room, text_room, to_string, set_string,
}
use num_forge.BigInt.Text.Numerals.{decimal}
use num_forge.BigInt.Text.Parsing.{set_string-Splits}
use num_forge.BigInt.Text.Printing.{Chunked, chunk_loop-Chunked, Printed, print_chunks-Printed}

-- A text with the sign and the digits of an object: '-' for a negative one, and its decimal digits.
pub record Prints (b : BigInt) (text : List ℕ) : Type 0 where
  pub digits : List ℕ
  pub written : text ≡ (if b.is_negative then 45 ∷ [] else []) ++ digits
  pub printed : Printed (value b.limbs) digits

sized : (o : Option ℕ) → (o ≡ none) ⊎ ((c : ℕ) × (o ≡ some c))
sized none = inl refl
sized (some c) = inr (c, refl)

product_of : (a b c : ℕ) → size_mul a b ≡ some c → c ≡ a * b
unfolding size_mul
product_of a b c e = ground (arith, e)

sum_of : (a b c : ℕ) → size_add a b ≡ some c → c ≡ a + b
unfolding size_add
sum_of a b c e = ground (arith, e)

room_of : (n c : ℕ) → chunks_room n ≡ some c → 64 * n ≤ 63 * c
unfolding chunks_room
room_of n c e = elim (sized (size_mul n 64)) [
  | inl z ↦ cc (rw (chunks_room, z) at e)
  | inr (bits, eb) ↦ elim (sized (size_add bits 62)) [
    | inl z ↦ cc (rw (chunks_room, eb, z) at e)
    | inr (rounded, er) ↦ omega (
      arith,
      product_of n 64 bits eb,
      sum_of bits 62 rounded er,
      sum_of (rounded / 63) 1 c (rw (chunks_room, eb, er) at e),
    )
  ]
]

-- The chunks have room for all of the number.
enough_room :
    (xs : List ℕ) (c : ℕ) → IsMagnitude xs → 64 * length xs ≤ 63 * c → value xs < 2 ^ (63 * c)
enough_room xs c m h =
    let bits = pow_split (length xs) 0 in
    let whole = two_to {m = 64 * length xs + 0} {n = 64 * length xs} (omega arith) in
    let room = pow-le-pow_right {n = 2} (omega arith) {i = 64 * length xs} {j = 63 * c} h in
    omega (arith, value-lt xs m.words, bits, whole, room)

some_chunks :
    (xs : List ℕ) (cs : List ℕ)
    → IsMagnitude xs
    → is_empty xs ≡ false
    → Chunked (value xs) cs
    → Printed (value xs) (print_chunks cs)
some_chunks [] cs m e h = cc
some_chunks (x ∷ xs) [] m e h = absurd (omega (arith, h.number, value_pos x xs m.trimmed))
some_chunks (x ∷ xs) (c ∷ cs) m e h =
    let p = print_chunks-Printed c cs h.small h.top in
    record {
      number = p.number ∙ h.number;
      digits = p.digits;
      some_digits = p.some_digits;
      no_leading_zero = p.no_leading_zero;
    }

digit_first : (n : ℕ) (digits : List ℕ) → Printed n digits → split_sign digits ≡ (false, digits)
digit_first n [] p = absurd (omega (arith, p.some_digits))
digit_first n (d ∷ ds) p = ground (arith, p.digits.0)

with_sign-split :
    (s : Bool) (n : ℕ) (digits : List ℕ)
    → Printed n digits
    → split_sign ((if s then 45 ∷ [] else []) ++ digits) ≡ (s, digits)
with_sign-split true n digits p = refl
with_sign-split false n digits p = digit_first n digits p

empty_sign : (b : BigInt) → IsValid b → is_empty b.limbs ≡ true → b.is_negative ≡ false
empty_sign b v e = elim (Bool-cases b.is_negative) [
  | inl negative ↦ absurd (omega (arith, nothing b.limbs e, v.signed_nonzero negative))
  | inr positive ↦ positive
]
  where
    nothing : (xs : List ℕ) → is_empty xs ≡ true → length xs ≡ 0
    nothing [] h = refl
    nothing (x ∷ xs) h = cc

-- If `bigint_to_string` of a valid object returns a text, it is the sign '-' of a negative integer and
-- the decimal digits of the magnitude, one or more.
pub to_string-Prints : (b : BigInt) (w : World) → IsValid b → IfOk (Prints b) (to_string b w)
unfolding to_string
to_string-Prints b w v = elim (Bool-cases (is_empty b.limbs)) [
  | inl nothing ↦ rw nothing (
      IfOk-checked (Prints b) (alloc 2 w) _ _ λ _ p. record {
        digits = 48 ∷ [];
        written =
            ap (λ (s : Bool). (if s then 45 ∷ [] else []) ++ 48 ∷ [])
              (sym (empty_sign b v nothing));
        printed = record {
          number = value_of_empty b.limbs nothing;
          digits = ((omega arith, omega arith), tt);
          some_digits = omega arith;
          no_leading_zero = inl refl;
        };
      })
  | inr more ↦
      let scratch = copy empty b w in
      rw more (
        IfOk-on_ok (Prints b) scratch _ _ λ e.
          let h = copy-Holds empty b w (omega arith) v.magnitude e in
          elim (sized (chunks_room (length b.limbs))) [
            | inl z ↦ rw z (λ p. cc)
            | inr (room, er) ↦ rw er (elim (sized (size_mul room 8)) [
              | inl z ↦ rw z (λ p. cc)
              | inr (bytes, eb) ↦
                  let granted = alloc bytes scratch.world in
                  let chunks = chunk_loop room scratch.object granted.1 in
                  let fits =
                    enough_room b.limbs room v.magnitude (room_of (length b.limbs) room er) in
                  rw eb (
                    IfOk-checked (Prints b) granted _ _ λ _. IfOk-on_ok (Prints b) chunks _ _ λ f.
                      let c =
                        chunk_loop-Chunked room scratch.object granted.1 h.magnitude
                          (omega (arith, h.number, fits)) f in
                      let cut = subst (λ (n : ℕ). Chunked n chunks.object) h.number c in
                      let printed = some_chunks b.limbs chunks.object v.magnitude more cut in
                      elim (sized (text_room b.is_negative (length chunks.object))) [
                        | inl z ↦ rw z (λ p. cc)
                        | inr (capacity, ec) ↦ rw ec (
                            IfOk-checked (Prints b) (alloc capacity chunks.world) _ _ λ _ p.
                              record {
                                digits = print_chunks chunks.object;
                                written = refl;
                                printed = printed;
                              })
                      ])
            ])
          ])
]

-- A text that `bigint_to_string` returned for a valid object is read by `bigint_set_string` as the same
-- integer, in canonical form, if that call returns BIGINT_OK; its destination is untouched if not.
pub to_string-round_trip :
    (b destination : BigInt) (w w' : World)
    → IsValid b
    → is_ok (to_string b w).status ≡ true
    → Computes destination (to_ℤ b) (set_string destination (to_string b w).object w')
to_string-round_trip b destination w w' v e =
    let text = (to_string b w).object in
    let p = to_string-Prints b w v e in
    let g = set_string-Splits destination text w' in
    let same : signed (split_sign text).0 (decimal 0 (split_sign text).1) ≡ to_ℤ b =
      ap (λ (s : Bool × List ℕ). signed s.0 (decimal 0 s.1))
        (ap split_sign p.written ∙ with_sign-split b.is_negative (value b.limbs) p.digits p.printed)
      ∙ ap (signed b.is_negative) p.printed.number in
    record {
      success = λ f.
          subst (λ v. Represents v (set_string destination text w').object) same
            (g.success f).represents;
      untouched = g.untouched;
    }
