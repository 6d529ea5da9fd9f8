-- ===== src/BigInt/Types.antt =====
-- `struct BigInt`, `BigIntStatus` and the shape of a call that can fail.
-- `limbs` here holds the `size` significant limbs; the rest of the C buffer, up to `capacity`, holds
-- nothing that a caller may read.
use num_forge.Base.{
  ℕ, ◌/◌, ◌≤◌, ◌<◌, ◌≡◌, Bool, true, false, List, [], length, if◌then◌else◌, size_max,
}
use num_forge.Base.Int.{ℤ, signed}
use num_forge.Runtime.Budget.{World}
use num_forge.BigInt.Magnitude.Value.{value, IsMagnitude}

pub data Status : Type 0 where
  ok null_argument out_of_memory division_by_zero : Status
  invalid_argument negative_argument value_too_large : Status

abbrev pub is_ok : Status → Bool
is_ok ok = true
is_ok _ = false

abbrev pub is_negative_argument : Status → Bool
is_negative_argument negative_argument = true
is_negative_argument _ = false

pub record BigInt : Type 0 where
  pub limbs : List ℕ
  pub capacity : ℕ
  pub is_negative : Bool

-- BIGINT_MAX_LIMBS.
abbrev pub max_limbs : ℕ
max_limbs = size_max / 64

-- A fresh BigInt, as `bigint_create` and the local temporaries begin.
abbrev pub empty : BigInt
empty = record { limbs = []; capacity = 0; is_negative = false }

-- The representation invariants of bigint_internal.h.
pub record IsValid (b : BigInt) : Type 0 where
  pub magnitude : IsMagnitude b.limbs
  pub signed_nonzero : b.is_negative ≡ true → 0 < length b.limbs
  pub fits : length b.limbs ≤ b.capacity
  pub bounded : b.capacity ≤ max_limbs

-- The integer that a BigInt stands for.
abbrev pub to_ℤ : BigInt → ℤ
to_ℤ b = signed b.is_negative (value b.limbs)

-- What a call leaves: its status, the object that it may write, and the runtime's state.
pub record Out (A : Type 0) : Type 0 where
  pub status : Status
  pub object : A
  pub world : World

abbrev pub returns : {A : Type 0} → Status → A → World → Out A
returns s a w = record { status = s; object = a; world = w }

-- `status = m; if (status != BIGINT_OK) return status;`, where `lost` is the object that the caller
-- is left with then.
abbrev pub on_ok : {A B : Type 0} → Out A → (A → B) → (A → World → Out B) → Out B
on_ok m lost next =
    if is_ok m.status then next m.object m.world else returns m.status (lost m.object) m.world

-- `if (!numforge_budget_check()) return BIGINT_OUT_OF_MEMORY;`
abbrev pub checked : {A : Type 0} → Bool × World → A → (World → Out A) → Out A
checked (running, w) lost next = if running then next w else returns out_of_memory lost w

-- What a call promises: with BIGINT_OK the object is as `P` says, and with any other status it is as it
-- was before.
pub record Gives {A : Type 0} (P : A → Type 0) (before : A) (o : Out A) : Type 0 where
  pub success : is_ok o.status ≡ true → P o.object
  pub untouched : is_ok o.status ≡ false → o.object ≡ before

-- The object is in canonical form and stands for the integer `v`.
pub record Represents (v : ℤ) (b : BigInt) : Type 0 where
  pub valid : IsValid b
  pub integer : to_ℤ b ≡ v

-- The limbs are in canonical form and make the number `n`; the sign is open.
pub record Holds (n : ℕ) (b : BigInt) : Type 0 where
  pub magnitude : IsMagnitude b.limbs
  pub number : value b.limbs ≡ n
  pub fits : length b.limbs ≤ b.capacity
  pub bounded : b.capacity ≤ max_limbs

-- The contract of an operation that writes the integer `v`.
abbrev pub Computes : BigInt → ℤ → Out BigInt → Type 0
Computes before v o = Gives (Represents v) before o
