-- ===== src/BigRational/Create.antt =====
-- `bigrational_create` gives 0/1.
use num_forge.Base.{
  ℕ, ◌<◌, ◌≤◌, ◌≡◌, refl, Bool, true, false, Option, none, some, arith, subst, sym, Bool-cases, inl,
  inr,
}
use num_forge.Base.Int.{pos, signed}
use num_forge.Runtime.Budget.{World, alloc}
use num_forge.BigInt.Types as Integer
use num_forge.BigInt.Types.{BigInt, IsValid, Represents, to_ℤ, empty, max_limbs}
use num_forge.BigInt.Storage
use num_forge.BigInt.Storage.Normal.{empty-IsValid}
use num_forge.BigInt.Magnitude.Value.{value}
use num_forge.BigInt.Text.{set_string}
use num_forge.BigInt.Text.Parsing.{set_string-Splits}
use num_forge.BigInt.NumberTheory.Divisors.{IsGcd, one-IsGcd}
use num_forge.BigRational.{create, create_all, obtained, one_text}
use num_forge.BigRational.Types.{out_of_memory, BigRational, IsReduced, Result}
use num_forge.BigRational.Contract.{Ensures, Ensures-refused}

pub sign_of :
    (s : Bool) (n : ℕ) (b : BigInt)
    → 0 < n
    → to_ℤ b ≡ signed s n
    → (b.is_negative ≡ s) × (value b.limbs ≡ n)
sign_of s n b h e = apart b.is_negative s (value b.limbs) n h e
  where
    apart : (t s : Bool) (m n : ℕ) → 0 < n → signed t m ≡ signed s n → (t ≡ s) × (m ≡ n)
    apart true true m n h e = (refl, ground (arith, e))
    apart true false m n h e = absurd (ground (arith, e))
    apart false true m n h e = absurd (ground (arith, e))
    apart false false m n h e = (refl, ground (arith, e))

abbrev zero_with : BigInt → BigRational
zero_with denominator = record { numerator = empty; denominator = denominator }

-- The fraction 0/1.
pub record IsZero (r : BigRational) : Type 0 where
  pub numerator : r.numerator ≡ empty
  pub denominator : Represents (pos 1) r.denominator

some_same : {a b : BigRational} → some a ≡ some b → a ≡ b
some_same e = cc

pub create-IsZero : (w : World) (r : BigRational) → (create w).0 ≡ some r → IsZero r
unfolding create
create-IsZero w r e = elim (Bool-cases (alloc 16 w).0) [
  | inr full ↦ absurd (cc (rw (create, full) at e))
  | inl room ↦
      let all = create_all 2 (alloc 16 w).1 in
      let one = set_string empty one_text all.1 in
      elim (Bool-cases all.0) [
        | inr full ↦ absurd (cc (rw (create, room, full) at e))
        | inl both ↦ elim (Bool-cases (Integer.is_ok one.status)) [
          | inr failed ↦ absurd (cc (rw (create, room, both, failed) at e))
          | inl read ↦
              let same : some (zero_with one.object) ≡ some r =
                rw (create, room, both, read) at e in
              subst IsZero (some_same same) (record {
                numerator = refl;
                denominator = ((set_string-Splits empty one_text all.1).success read).represents;
              })
        ]
      ]
]

pub IsZero-IsReduced : (r : BigRational) → IsZero r → IsReduced r
IsZero-IsReduced r z =
    let (sign, number) = sign_of false 1 r.denominator (omega arith) z.denominator.integer in
    record {
      numerator = subst IsValid (sym z.numerator) (empty-IsValid empty (omega arith));
      denominator = z.denominator.valid;
      not_negative = sign;
      nonzero = omega (arith, number);
      coprime = subst (λ (t : ℕ). IsGcd 1 (value r.numerator.limbs) t) (sym number) (one-IsGcd _);
    }

pub Ensures-obtained :
    {A B : Type 0} {P : B → Type 0} {before : B} (c : Option A × World)
    {next : A → World → Result B}
    → ((a : A) (w : World) → c.0 ≡ some a → Ensures P before (next a w))
    → Ensures P before (obtained c before next)
unfolding obtained
Ensures-obtained (none, w) h = Ensures-refused out_of_memory w refl
Ensures-obtained (some a, w) h = h a w refl

pub create_room : (w : World) (b : BigInt) → (Storage.create w).0 ≡ some b → b.capacity ≤ max_limbs
unfolding Storage.create
create_room w b e = elim (Bool-cases (alloc 32 w).0) [
  | inl room ↦
      let same : some empty ≡ some b = rw (Storage.create, room) at e in
      subst (λ (t : BigInt). t.capacity ≤ max_limbs) (same_object same) (omega arith)
  | inr full ↦ absurd (cc (rw (Storage.create, full) at e))
]
  where
    same_object : {a b : BigInt} → some a ≡ some b → a ≡ b
    same_object e = cc

pub IsZero-room :
    (r : BigRational)
    → IsZero r
    → (r.numerator.capacity ≤ max_limbs) × (r.denominator.capacity ≤ max_limbs)
IsZero-room r z = let h = IsZero-IsReduced r z in (h.numerator.bounded, h.denominator.bounded)
