-- ===== src/BigInt/Contract.antt =====
-- Rules for the contract `Gives`: a direct return, a refusal, and a call that goes on after a
-- successful step or a budget check.
use num_forge.Base.{◌≡◌, refl, Bool, true, false, if◌then◌else◌, Bool-cases, inl, inr}
use num_forge.Runtime.Budget.{World}
use num_forge.BigInt.Types.{Status, ok, out_of_memory, is_ok, Out, returns, Gives}

module _ {A : Type 0} {P : A → Type 0} {before : A} where
  pub Gives-ok : (a : A) (w : World) → P a → Gives P before (returns ok a w)
  Gives-ok a w h = record { success = λ _. h; untouched = λ k. cc }

  pub Gives-refused :
      (s : Status) (w : World) → is_ok s ≡ false → Gives P before (returns s before w)
  Gives-refused s w e = record { success = λ k. cc; untouched = λ _. refl }

  -- The shape that `on_ok` computes to.
  pub Gives-on_ok :
      {B : Type 0} (m : Out B) (lost : A) (next : Out A)
      → (is_ok m.status ≡ true → Gives P before next)
      → (is_ok m.status ≡ false → lost ≡ before)
      → Gives P before (if is_ok m.status then next else returns m.status lost m.world)
  Gives-on_ok m lost next h k = elim (Bool-cases (is_ok m.status)) [
    | inl e ↦ rw e (h e)
    | inr e ↦ rw e (record { success = λ p. cc; untouched = λ p. k e })
  ]

  -- The shape that `checked` computes to.
  pub Gives-checked :
      (c : Bool × World) (lost : A) (next : Out A)
      → (c.0 ≡ true → Gives P before next)
      → lost ≡ before
      → Gives P before (if c.0 then next else returns out_of_memory lost c.1)
  Gives-checked (true, w) lost next h k = h refl
  Gives-checked (false, w) lost next h k = record { success = λ p. cc; untouched = λ p. k }

-- The weaker contract of a call that may leave a half-done object when it fails.
abbrev pub IfOk : {A : Type 0} → (A → Type 0) → Out A → Type 0
IfOk P o = is_ok o.status ≡ true → P o.object

pub IfOk-on_ok :
    {A B : Type 0} (P : A → Type 0) (m : Out B) (lost : A) (next : Out A)
    → (is_ok m.status ≡ true → IfOk P next)
    → IfOk P (if is_ok m.status then next else returns m.status lost m.world)
IfOk-on_ok P m lost next h = elim (Bool-cases (is_ok m.status)) [
  | inl e ↦ rw e (h e)
  | inr e ↦ rw e (λ p. cc)
]

pub IfOk-checked :
    {A : Type 0} (P : A → Type 0) (c : Bool × World) (lost : A) (next : Out A)
    → (c.0 ≡ true → IfOk P next)
    → IfOk P (if c.0 then next else returns out_of_memory lost c.1)
IfOk-checked P (true, w) lost next h = h refl
IfOk-checked P (false, w) lost next h = λ p. cc
