-- ===== src/BigRational/Writing.antt =====
-- `bigrational_to_string` writes the numerator, and '/' and the denominator unless that is 1.
use num_forge.Base.{
  ℕ, ◌+◌, ◌-◌, ◌≡◌, ◌≢◌, refl, true, false, ◌||◌, List, [], ◌∷◌, ◌++◌, length, arith, ◌⊎◌, inl, inr,
  Bool-cases, ltb, size_max,
}
use num_forge.Runtime.Budget.{World, alloc}
use num_forge.BigInt.Types as Integer
use num_forge.BigInt.Types.{BigInt, IsValid, Out}
use num_forge.BigInt.Comparison.{is_one}
use num_forge.BigInt.Magnitude.Value.{value, value_pos, IsTrimmed}
use num_forge.BigInt.Text.RoundTrip.{Prints, to_string-Prints}
use num_forge.BigRational.{printed, to_string}
use num_forge.BigRational.Types.{BigRational, IsReduced, Result, out_of_memory, value_too_large}
use num_forge.BigRational.Contract.{Ensures, Ensures-ok, Ensures-refused, Ensures-created}

is_one_lem : (b : BigInt) → is_one b ≡ true → value b.limbs ≡ 1
unfolding is_one
is_one_lem b e = one b.limbs e
  where
    one : (xs : List ℕ) → is_one (record b { limbs = xs }) ≡ true → value xs ≡ 1
    one [] h = cc
    one (x ∷ []) h = ground arith
    one (x ∷ y ∷ xs) h = ground arith

not_one : (b : BigInt) → IsValid b → b.is_negative ≡ false → is_one b ≡ false → value b.limbs ≢ 1
unfolding is_one
not_one b v plus e n = more b.limbs v.magnitude.trimmed e n
  where
    more :
        (xs : List ℕ) → IsTrimmed xs → is_one (record b { limbs = xs }) ≡ false → value xs ≡ 1 → ⊥
    more [] t h n = absurd (omega (arith, n))
    more (x ∷ []) t h n = absurd (ground (arith, plus))
    more (x ∷ y ∷ xs) t h n = absurd (omega (arith, value_pos y xs t, n))

Ensures-printed :
    {A B : Type 0} {P : B → Type 0} {before : B} {Q : A → Type 0} (m : Out A)
    {next : A → World → Result B}
    → (Integer.is_ok m.status ≡ true → Q m.object)
    → ((a : A) (w : World) → Q a → Ensures P before (next a w))
    → Ensures P before (printed m before next)
unfolding printed
Ensures-printed m q h = elim (Bool-cases (Integer.is_ok m.status)) [
  | inl e ↦ rw e (h m.object m.world (q e))
  | inr e ↦ rw e (Ensures-refused out_of_memory m.world refl)
]

-- The decimal text of a fraction.
pub record WritesFraction (r : BigRational) (text : List ℕ) : Type 0 where
  pub top : List ℕ
  pub bottom : List ℕ
  pub joined : text ≡ top ++ 47 ∷ bottom
  pub fractional : value r.denominator.limbs ≢ 1
  pub numerator : Prints r.numerator top
  pub denominator : Prints r.denominator bottom

abbrev pub Writes : BigRational → List ℕ → Type 0
Writes r text = ((value r.denominator.limbs ≡ 1) × Prints r.numerator text) ⊎ WritesFraction r text

-- `bigrational_to_string` of a fraction in lowest terms gives, with BIGRATIONAL_OK, the numerator's decimal
-- text alone if the denominator is 1, or else both decimal texts with '/' between them. Without
-- BIGRATIONAL_OK, it stores nothing.
pub to_string-Writes :
    (before : List ℕ) (r : BigRational) (w : World)
    → IsReduced r
    → Ensures (Writes r) before (to_string before r w)
unfolding to_string
to_string-Writes before r w h =
    Ensures-printed {Q = Prints r.numerator} _ (to_string-Prints r.numerator w h.numerator)
      λ top w1 ht. elim (Bool-cases (is_one r.denominator)) [
        | inl e ↦ rw e (elim (Bool-cases (ltb (size_max - 2) (length top))) [
          | inl full ↦ rw full (Ensures-refused value_too_large w1 refl)
          | inr fits ↦ rw fits (
              Ensures-created (alloc (length top + 1) w1)
                λ w2. Ensures-ok top w2 (inl (is_one_lem r.denominator e, ht)))
        ])
        | inr e ↦ rw e (
            Ensures-printed {Q = Prints r.denominator} _
              (to_string-Prints r.denominator w1 h.denominator)
              λ bottom w2 hb.
                elim (Bool-cases (
                  ltb (size_max - 2) (length bottom)
                  || ltb (size_max - length bottom - 2) (length top))) [
                    | inl full ↦ rw full (Ensures-refused value_too_large w2 refl)
                    | inr fits ↦ rw fits (
                        Ensures-created (alloc (length top + length bottom + 2) w2) λ w3.
                          Ensures-ok _ w3 (
                            inr (record {
                              top = top;
                              bottom = bottom;
                              joined = refl;
                              fractional = not_one r.denominator h.denominator h.not_negative e;
                              numerator = ht;
                              denominator = hb;
                            })))
                  ])
      ]
