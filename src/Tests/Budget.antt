-- ===== src/Tests/Budget.antt =====
-- Runs of the budget.
use num_forge.Base.{◌+◌, ◌≤◌, ◌≡◌, ◌≢◌, refl, [], ◌∷◌}
use num_forge.Runtime.Budget.{alloc, budget_allocate, budget_can_allocate_pair, budget_memory}
use num_forge.Runtime.Budget.Accounting.{run, run-le-remaining, run_failed, preflight_pair}
use num_forge.Tests.Data.{limited}

-- 60 bytes are granted, 50 more are not, and then nothing is.
run_fails : (run (60 ∷ 50 ∷ 8 ∷ []) limited).0 ≡ 60
unfolding run alloc
run_fails = refl

run-le-remaining_example :
    (run (60 ∷ 50 ∷ 8 ∷ []) limited).0 + (run (60 ∷ 50 ∷ 8 ∷ []) limited).1.remaining ≤ 100
run-le-remaining_example = run-le-remaining (60 ∷ 50 ∷ 8 ∷ []) limited refl

run_failed_example :
    run (8 ∷ 8 ∷ []) (record limited { failure = budget_memory })
    ≡ (0, record limited { failure = budget_memory })
run_failed_example = run_failed (8 ∷ 8 ∷ []) (record limited { failure = budget_memory }) refl refl

preflight_pair_example :
    (budget_allocate 36 (budget_allocate 64 limited).1).1.failure ≢ budget_memory
unfolding budget_can_allocate_pair
preflight_pair_example = preflight_pair 64 36 limited refl refl
