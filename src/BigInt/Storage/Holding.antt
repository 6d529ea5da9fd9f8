-- ===== src/BigInt/Storage/Holding.antt =====
-- `bigint_normalize`, `bigint_set_uint64` and `bigint_copy` on the magnitude alone, whatever the sign.
use num_forge.Base.{
  ℕ, ◌≤◌, ◌<◌, ◌≡◌, refl, Bool, true, false, List, [], ◌∷◌, length, arith, All, IsLimb, radix, ap,
  sym, ◌∙◌, Bool-cases, inl, inr,
}
use num_forge.Base.Int.{nat_abs, signed}
use num_forge.Runtime.Budget.{World}
use num_forge.BigInt.Types.{BigInt, IsValid, Represents, Holds, Gives, max_limbs}
use num_forge.BigInt.Contract.{IfOk, Gives-ok, Gives-on_ok}
use num_forge.BigInt.Magnitude.Value.{value, IsMagnitude}
use num_forge.BigInt.Magnitude.Trim.{trim-IsMagnitude, value-trim, length-trim}
use num_forge.BigInt.Storage.{normalize, set_uint64, copy, ensure_capacity, is_empty}
use num_forge.BigInt.Storage.Growth.{ensure_capacity-Ensured}
use num_forge.BigInt.Storage.Normal.{set_uint64-Computes}

pub normalize-Holds :
    (b : BigInt)
    → All IsLimb b.limbs
    → length b.limbs ≤ b.capacity
    → b.capacity ≤ max_limbs
    → Holds (value b.limbs) (normalize b)
unfolding normalize
normalize-Holds b words fits bounded = record {
  magnitude = trim-IsMagnitude b.limbs words;
  number = value-trim b.limbs;
  fits = omega (arith, length-trim b.limbs);
  bounded = bounded;
}

pub nat_abs-signed : (s : Bool) (n : ℕ) → nat_abs (signed s n) ≡ n
nat_abs-signed true n = ground arith
nat_abs-signed false n = ground arith

pub IsValid-Holds : (b : BigInt) → IsValid b → Holds (value b.limbs) b
IsValid-Holds b v = record {
  magnitude = v.magnitude;
  number = refl;
  fits = v.fits;
  bounded = v.bounded;
}

pub Represents-Holds : (s : Bool) (n : ℕ) (b : BigInt) → Represents (signed s n) b → Holds n b
Represents-Holds s n b r = record {
  magnitude = r.valid.magnitude;
  number =
      sym (nat_abs-signed b.is_negative (value b.limbs))
      ∙ ap nat_abs r.integer
      ∙ nat_abs-signed s n;
  fits = r.valid.fits;
  bounded = r.valid.bounded;
}

pub set_uint64-Holds :
    (b : BigInt) (amount : ℕ) (w : World)
    → b.capacity ≤ max_limbs
    → amount < radix
    → IfOk (Holds amount) (set_uint64 b amount w)
set_uint64-Holds b amount w c h p =
    Represents-Holds false amount _ ((set_uint64-Computes b amount w c h).success p)

pub empty-Holds : (b : BigInt) → b.capacity ≤ max_limbs → Holds 0 (record b { limbs = [] })
empty-Holds b c = record {
  magnitude = record { words = tt; trimmed = tt };
  number = refl;
  fits = omega arith;
  bounded = c;
}

pub value_of_empty : (xs : List ℕ) → is_empty xs ≡ true → 0 ≡ value xs
value_of_empty [] e = refl
value_of_empty (x ∷ xs) e = cc

pub copy-Gives :
    (destination source : BigInt) (w : World)
    → destination.capacity ≤ max_limbs
    → IsMagnitude source.limbs
    → Gives (Holds (value source.limbs)) destination (copy destination source w)
unfolding copy
copy-Gives d s w c m = elim (Bool-cases (is_empty s.limbs)) [
  | inl zero_source ↦ rw zero_source (
      Gives-ok _ w (record {
        magnitude = record { words = tt; trimmed = tt };
        number = value_of_empty s.limbs zero_source;
        fits = omega arith;
        bounded = c;
      }))
  | inr more ↦
      let grown = ensure_capacity d (length s.limbs) w in
      let room = ensure_capacity-Ensured d (length s.limbs) w c in
      rw more (
        Gives-on_ok grown _ _
          (λ e.
            Gives-ok _ _
              (record { magnitude = m; number = refl; fits = room.room e; bounded = room.bounded }))
          room.unchanged)
]

pub copy-Holds :
    (destination source : BigInt) (w : World)
    → destination.capacity ≤ max_limbs
    → IsMagnitude source.limbs
    → IfOk (Holds (value source.limbs)) (copy destination source w)
copy-Holds d s w c m = (copy-Gives d s w c m).success
