-- ===== src/Runtime/Budget/Accounting.antt =====
-- What the budget lets through: its bytes are never overspent, a failure lasts, and a preflight
-- answer is kept.
use num_forge.Base.{ℕ, ◌+◌, ◌≤◌, ◌≡◌, ◌≢◌, refl, true, false, List, [], ◌∷◌, arith, if◌then◌else◌}
use num_forge.Runtime.Budget.{
  World, budget_ok, budget_memory, budget_allocate, alloc, budget_can_allocate_pair, is_ok,
}

-- A sequence of allocations: the bytes of the blocks that were handed out, and the state after it.
unfoldable pub run : List ℕ → World → ℕ × World
run [] w = (0, w)
run (size ∷ sizes) w =
    let (granted, w') = alloc size w in
    let (total, w'') = run sizes w' in ((if granted then size else 0) + total, w'')

alloc_active : (size : ℕ) (w : World) → w.active ≡ true → (alloc size w).1.active ≡ true
unfolding alloc
alloc_active size w h = ground arith

alloc_spends :
    (size : ℕ) (w : World)
    → w.active ≡ true
    → (if (alloc size w).0 then size else 0) + (alloc size w).1.remaining ≤ w.remaining
unfolding alloc
alloc_spends size w h = ground arith

-- Under an active budget, the blocks that any sequence of requests obtains have no more bytes than
-- the budget had left, and what it has left afterwards fits beside them.
pub run-le-remaining :
    (sizes : List ℕ) (w : World)
    → w.active ≡ true
    → (run sizes w).0 + (run sizes w).1.remaining ≤ w.remaining
unfolding run
run-le-remaining [] w h = omega arith
run-le-remaining (size ∷ sizes) w h =
    omega (
      arith,
      alloc_spends size w h,
      run-le-remaining sizes (alloc size w).1 (alloc_active size w h),
    )

failed_alloc :
    (size : ℕ) (w : World) → w.active ≡ true → is_ok w.failure ≡ false → alloc size w ≡ (false, w)
unfolding alloc
failed_alloc size w h f = ground arith

-- Once an active budget has failed, by time or by memory, every later request is refused, and the
-- state does not change any more.
pub run_failed :
    (sizes : List ℕ) (w : World) → w.active ≡ true → is_ok w.failure ≡ false → run sizes w ≡ (0, w)
unfolding run
run_failed [] w h f = refl
run_failed (size ∷ sizes) w h f = rw (failed_alloc size w h f) (rw (run_failed sizes w h f) refl)

-- A pair of requests that the preflight accepts does not exhaust the budget's memory: if the two
-- allocations leave a failure behind, it is the deadline.
pub preflight_pair :
    (first second : ℕ) (w : World)
    → budget_can_allocate_pair first second w ≡ true
    → w.failure ≡ budget_ok
    → (budget_allocate second (budget_allocate first w).1).1.failure ≢ budget_memory
unfolding budget_can_allocate_pair budget_allocate
preflight_pair first second w h ok = ground arith
