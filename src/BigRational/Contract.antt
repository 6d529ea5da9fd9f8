-- ===== src/BigRational/Contract.antt =====
-- Rules for the contract `Ensures` of calls on rationals: a direct return, a refusal, and a call that goes
-- on after a step on integers or after it created its objects.
use num_forge.Base.{◌≡◌, refl, Bool, true, false, Bool-cases, inl, inr}
use num_forge.Runtime.Budget.{World}
use num_forge.BigInt.Types
use num_forge.BigInt.Types.{Out, Gives}
use num_forge.BigInt.Contract.{IfOk}
use num_forge.BigRational.Types.{
  Status, out_of_memory, is_ok, from_integer_status, Result, gives, step, after, created,
}

-- With BIGRATIONAL_OK the object is as `P` says, and with any other status it is as it was before.
pub record Ensures {A : Type 0} (P : A → Type 0) (before : A) (o : Result A) : Type 0 where
  pub success : is_ok o.status ≡ true → P o.object
  pub untouched : is_ok o.status ≡ false → o.object ≡ before

pub from_integer_status-ok : (s : Types.Status) → is_ok (from_integer_status s) ≡ Types.is_ok s
unfolding from_integer_status
from_integer_status-ok Types.ok = refl
from_integer_status-ok Types.null_argument = refl
from_integer_status-ok Types.out_of_memory = refl
from_integer_status-ok Types.division_by_zero = refl
from_integer_status-ok Types.value_too_large = refl
from_integer_status-ok Types.invalid_argument = refl
from_integer_status-ok Types.negative_argument = refl

module _ {A : Type 0} {P : A → Type 0} {before : A} where
  pub Ensures-ok : (a : A) (w : World) → P a → Ensures P before (gives Status.ok a w)
  Ensures-ok a w h = record { success = λ _. h; untouched = λ k. cc }

  pub Ensures-refused :
      (s : Status) (w : World) → is_ok s ≡ false → Ensures P before (gives s before w)
  Ensures-refused s w e = record { success = λ k. cc; untouched = λ _. refl }

  pub Ensures-step :
      {B : Type 0} {Q : B → Type 0} {x : B} (m : Out B) {next : B → World → Result A}
      → Gives Q x m
      → ((o : B) (w : World) → Q o → Ensures P before (next o w))
      → Ensures P before (step m before next)
  unfolding step
  Ensures-step m q h = elim (Bool-cases (is_ok (from_integer_status m.status))) [
    | inl e ↦ rw e (h m.object m.world (q.success (cc (e, from_integer_status-ok m.status))))
    | inr e ↦ rw e (Ensures-refused _ m.world e)
  ]

  -- A step that may leave a half-done object when it fails.
  pub Ensures-try :
      {B : Type 0} (Q : B → Type 0) (m : Out B) {next : B → World → Result A}
      → IfOk Q m
      → ((o : B) (w : World) → Q o → Ensures P before (next o w))
      → Ensures P before (step m before next)
  unfolding step
  Ensures-try Q m q h = elim (Bool-cases (is_ok (from_integer_status m.status))) [
    | inl e ↦ rw e (h m.object m.world (q (cc (e, from_integer_status-ok m.status))))
    | inr e ↦ rw e (Ensures-refused _ m.world e)
  ]

  pub Ensures-after :
      {B : Type 0} {Q : B → Type 0} {x : B} (m : Result B) {next : B → World → Result A}
      → Ensures Q x m
      → ((o : B) (w : World) → Q o → Ensures P before (next o w))
      → Ensures P before (after m before next)
  unfolding after
  Ensures-after m q h = elim (Bool-cases (is_ok m.status)) [
    | inl e ↦ rw e (h m.object m.world (q.success e))
    | inr e ↦ rw e (Ensures-refused _ m.world e)
  ]

  -- The same after a call that may leave a half-done object when it fails.
  pub Ensures-tried :
      {B : Type 0} (Q : B → Type 0) (m : Result B) {next : B → World → Result A}
      → (is_ok m.status ≡ true → Q m.object)
      → ((o : B) (w : World) → Q o → Ensures P before (next o w))
      → Ensures P before (after m before next)
  unfolding after
  Ensures-tried Q m q h = elim (Bool-cases (is_ok m.status)) [
    | inl e ↦ rw e (h m.object m.world (q e))
    | inr e ↦ rw e (Ensures-refused _ m.world e)
  ]

  pub Ensures-created :
      (c : Bool × World) {next : World → Result A}
      → ((w : World) → Ensures P before (next w))
      → Ensures P before (created c before next)
  unfolding created
  Ensures-created c h = elim (Bool-cases c.0) [
    | inl e ↦ rw e (h c.1)
    | inr e ↦ rw e (Ensures-refused out_of_memory c.1 refl)
  ]

pub Ensures-map :
    {A : Type 0} {P Q : A → Type 0} {before : A} {o : Result A}
    → ((a : A) → P a → Q a)
    → Ensures P before o
    → Ensures Q before o
Ensures-map {o = o} f h = record {
  success = λ e. f o.object (h.success e);
  untouched = h.untouched;
}
