-- ===== src/Tests/Data.antt =====
-- Inputs that the tests share.
use num_forge.Base.{◌-◌, true, false, [], ◌∷◌, some, arith, radix, refl}
use num_forge.Runtime.Budget.{World, budget_ok}
use num_forge.BigInt.Types.{BigInt, IsValid}
use num_forge.BigInt.Storage.Growth.{Unlimited}

-- No budget, a clock at 0 and memory without end.
abbrev pub calm : World
calm = record {
  active = false;
  started = 0;
  duration = 0;
  remaining = 0;
  single = 0;
  failure = budget_ok;
  clock = λ k. some (k, 0);
  readings = 0;
  grants = λ k n. true;
  requests = 0;
}

pub calm-Unlimited : Unlimited calm
calm-Unlimited = record { no_budget = refl; plenty = λ k n. refl }

-- A budget of 100 bytes in all and 64 at once, for a minute.
abbrev pub limited : World
limited = record calm { active = true; duration = 60000; remaining = 100; single = 64 }

-- 2 ^ 128 - 1, and -(2 ^ 64 + 5).
abbrev pub full : BigInt
full = record { limbs = (radix - 1) ∷ (radix - 1) ∷ []; capacity = 2; is_negative = false }

pub full-IsValid : IsValid full
full-IsValid = record {
  magnitude = record { words = omega arith; trimmed = omega arith };
  signed_nonzero = λ h. cc;
  fits = omega arith;
  bounded = omega arith;
}

abbrev pub minus : BigInt
minus = record { limbs = 5 ∷ 1 ∷ []; capacity = 4; is_negative = true }

pub minus-IsValid : IsValid minus
minus-IsValid = record {
  magnitude = record { words = omega arith; trimmed = omega arith };
  signed_nonzero = λ h. omega arith;
  fits = omega arith;
  bounded = omega arith;
}
