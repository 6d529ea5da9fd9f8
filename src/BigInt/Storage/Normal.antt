-- ===== src/BigInt/Storage/Normal.antt =====
-- `bigint_normalize`, `bigint_set_uint64` and `bigint_copy` keep the number and make the form canonical.
use num_forge.Base.{
  ℕ, ◌≤◌, ◌<◌, ◌≡◌, refl, Bool, true, false, List, [], ◌∷◌, length, arith, if◌then◌else◌, ==→eq,
  ==→ne, ap, sym, ◌≢◌, Bool-cases, inl, inr, All, IsLimb, radix, ◌==◌,
}
use num_forge.Base.Int.{pos, signed}
use num_forge.Runtime.Budget.{World}
use num_forge.BigInt.Types.{BigInt, IsValid, to_ℤ, max_limbs, Computes}
use num_forge.BigInt.Contract.{Gives-ok, Gives-on_ok}
use num_forge.BigInt.Magnitude.Value.{value}
use num_forge.BigInt.Magnitude.Trim.{trim, value-trim, trim-IsMagnitude, length-trim}
use num_forge.BigInt.Storage.{normalize, set_uint64, copy, ensure_capacity, is_empty}
use num_forge.BigInt.Storage.Growth.{ensure_capacity-Ensured}

pub signed_zero : (s : Bool) → signed s 0 ≡ pos 0
signed_zero true = refl
signed_zero false = refl

normal_sign :
    (s : Bool) (xs : List ℕ)
    → signed (if is_empty xs then false else s) (value xs) ≡ signed s (value xs)
normal_sign s [] = rw (signed_zero s)
normal_sign s (x ∷ xs) = refl

nonempty : (s : Bool) (xs : List ℕ) → (if is_empty xs then false else s) ≡ true → 0 < length xs
nonempty s [] h = cc
nonempty s (x ∷ xs) h = omega arith

-- Normalizing keeps the integer.
pub to_ℤ-normalize : (b : BigInt) → to_ℤ (normalize b) ≡ to_ℤ b
unfolding normalize
to_ℤ-normalize b = rw (normal_sign b.is_negative (trim b.limbs), value-trim b.limbs)

-- Normalizing words that fit their buffer gives a value in canonical form.
pub normalize-IsValid :
    (b : BigInt)
    → All IsLimb b.limbs
    → length b.limbs ≤ b.capacity
    → b.capacity ≤ max_limbs
    → IsValid (normalize b)
unfolding normalize
normalize-IsValid b words fits bounded = record {
  magnitude = trim-IsMagnitude b.limbs words;
  signed_nonzero = nonempty b.is_negative (trim b.limbs);
  fits = omega (arith, length-trim b.limbs);
  bounded = bounded;
}

-- Zero in the buffer of `b`.
abbrev pub zeroed : BigInt → BigInt
zeroed b = record b { limbs = []; is_negative = false }

pub empty-IsValid : (b : BigInt) → b.capacity ≤ max_limbs → IsValid (zeroed b)
empty-IsValid b c = record {
  magnitude = record { words = tt; trimmed = tt };
  signed_nonzero = λ h. cc;
  fits = omega arith;
  bounded = c;
}

word-IsValid :
    (b : BigInt) (amount : ℕ)
    → amount < radix
    → amount ≢ 0
    → 1 ≤ b.capacity
    → b.capacity ≤ max_limbs
    → IsValid (record b { limbs = amount ∷ []; is_negative = false })
word-IsValid b amount h ne room c = record {
  magnitude = record { words = (h, tt); trimmed = omega arith };
  signed_nonzero = λ h. cc;
  fits = room;
  bounded = c;
}

pub zero_of_empty : (b : BigInt) → is_empty b.limbs ≡ true → pos 0 ≡ to_ℤ b
zero_of_empty b h = sym (zero_of b.limbs h)
  where
    zero_of : (xs : List ℕ) → is_empty xs ≡ true → signed b.is_negative (value xs) ≡ pos 0
    zero_of [] e = signed_zero b.is_negative
    zero_of (x ∷ xs) e = cc

-- `bigint_set_uint64` leaves the word, in canonical form, if it returns BIGINT_OK, and the destination
-- untouched if it does not.
pub set_uint64-Computes :
    (b : BigInt) (amount : ℕ) (w : World)
    → b.capacity ≤ max_limbs
    → amount < radix
    → Computes b (pos amount) (set_uint64 b amount w)
unfolding set_uint64
set_uint64-Computes b amount w c h = elim (Bool-cases (amount == 0)) [
  | inl none_left ↦ rw none_left (
      Gives-ok _ w
        (record { valid = empty-IsValid b c; integer = ap pos (sym (==→eq amount 0 none_left)) }))
  | inr some_left ↦
      let room = ensure_capacity-Ensured b 1 w c in
      rw some_left (
        Gives-on_ok (ensure_capacity b 1 w) _ _
          (λ e. Gives-ok _ _ (record {
            valid =
                word-IsValid (ensure_capacity b 1 w).object amount h (==→ne amount 0 some_left)
                  (room.room e) room.bounded;
            integer = ap pos (omega arith);
          }))
          room.unchanged)
]

-- `bigint_copy` of a valid object leaves its integer in canonical form if it returns BIGINT_OK, and the
-- destination untouched if it does not.
pub copy-Computes :
    (destination source : BigInt) (w : World)
    → destination.capacity ≤ max_limbs
    → IsValid source
    → Computes destination (to_ℤ source) (copy destination source w)
unfolding copy
copy-Computes d s w c v = elim (Bool-cases (is_empty s.limbs)) [
  | inl zero_source ↦
      rw zero_source
        (Gives-ok _ w (record { valid = empty-IsValid d c; integer = zero_of_empty s zero_source }))
  | inr more ↦
      let room = ensure_capacity-Ensured d (length s.limbs) w c in
      rw more (
        Gives-on_ok (ensure_capacity d (length s.limbs) w) _ _
          (λ e. Gives-ok _ _ (record {
            valid = record {
              magnitude = v.magnitude;
              signed_nonzero = v.signed_nonzero;
              fits = room.room e;
              bounded = room.bounded;
            };
            integer = refl;
          }))
          room.unchanged)
]
