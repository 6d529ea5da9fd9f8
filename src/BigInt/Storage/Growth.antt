-- ===== src/BigInt/Storage/Growth.antt =====
-- What `bigint_ensure_capacity` leaves: enough room or an untouched object.
use num_forge.Base.{
  ℕ, zero, suc, ◌+◌, ◌*◌, ◌≤◌, ◌<◌, ◌≡◌, refl, true, false, arith, ltb, tests, Bool-cases, inl, inr,
  leb,
}
use num_forge.Runtime.Budget.{World, alloc}
use num_forge.BigInt.Types.{BigInt, Out, is_ok, max_limbs}
use num_forge.BigInt.Storage.Sizes.{size_mul_fits}
use num_forge.BigInt.Storage.{grow, grown_capacity, ensure_capacity}

-- The loop ends with room for `needed` limbs and within the bound on limbs.
pub grow_bounds :
    (fuel capacity needed : ℕ)
    → 0 < capacity
    → needed ≤ fuel + capacity
    → needed ≤ max_limbs
    → capacity ≤ max_limbs
    → (needed ≤ grow fuel capacity needed)
      × (grow fuel capacity needed ≤ max_limbs)
      × (capacity ≤ grow fuel capacity needed)
unfolding grow
grow_bounds zero capacity needed p f h c = omega arith
grow_bounds (suc fuel) capacity needed p f h c =
    ground (arith, grow_bounds fuel (capacity * 2) needed)

pub grown_bounds :
    (capacity needed : ℕ)
    → needed ≤ max_limbs
    → capacity ≤ max_limbs
    → (needed ≤ grown_capacity capacity needed)
      × (grown_capacity capacity needed ≤ max_limbs)
      × (capacity ≤ grown_capacity capacity needed)
grown_bounds capacity needed h c =
    ground (arith, grow_bounds needed 1 needed, grow_bounds needed capacity needed)

-- `o` is what is left of `b` after a request for room for `needed` limbs.
pub record Ensured (b : BigInt) (needed : ℕ) (o : Out BigInt) : Type 0 where
  pub same_limbs : o.object.limbs ≡ b.limbs
  pub same_sign : o.object.is_negative ≡ b.is_negative
  pub room : is_ok o.status ≡ true → needed ≤ o.object.capacity
  pub bounded : o.object.capacity ≤ max_limbs
  pub grows : b.capacity ≤ o.object.capacity
  pub unchanged : is_ok o.status ≡ false → o.object ≡ b

-- `bigint_ensure_capacity` keeps limbs and sign, never shrinks the buffer, keeps it within the bound on
-- limbs, gives room if it returns BIGINT_OK, and leaves the object untouched if it does not.
pub ensure_capacity-Ensured :
    (b : BigInt) (needed : ℕ) (w : World)
    → b.capacity ≤ max_limbs
    → Ensured b needed (ensure_capacity b needed w)
unfolding ensure_capacity
ensure_capacity-Ensured b needed w h = ground (arith, grown_bounds b.capacity needed)

-- No budget is active and the system always has memory.
pub record Unlimited (w : World) : Type 0 where
  pub no_budget : w.active ≡ false
  pub plenty : (k n : ℕ) → w.grants k n ≡ true

alloc_inactive :
    (size : ℕ) (w : World)
    → w.active ≡ false
    → alloc size w ≡ (w.grants w.requests size, record w { requests = w.requests + 1 })
unfolding alloc
alloc_inactive size w h = ground arith

pub alloc-Unlimited :
    (size : ℕ) (w : World) → Unlimited w → ((alloc size w).0 ≡ true) × Unlimited (alloc size w).1
alloc-Unlimited size w u =
    rw (alloc_inactive size w u.no_budget)
      (u.plenty w.requests size, record { no_budget = u.no_budget; plenty = u.plenty })

-- Then room within the bound on limbs is always found.
pub ensure_capacity-Unlimited :
    (b : BigInt) (needed : ℕ) (w : World)
    → b.capacity ≤ max_limbs
    → needed ≤ max_limbs
    → Unlimited w
    → (is_ok (ensure_capacity b needed w).status ≡ true)
      × Unlimited (ensure_capacity b needed w).world
unfolding ensure_capacity
ensure_capacity-Unlimited b needed w c h u = elim (Bool-cases (ltb max_limbs needed)) [
  | inl large ↦ absurd (omega (tests, large))
  | inr small ↦ rw small (elim (Bool-cases (leb needed b.capacity)) [
    | inl roomy ↦ rw roomy (refl, u)
    | inr tight ↦ rw tight (
        let room = grown_bounds b.capacity needed h c in
        let block = alloc-Unlimited (grown_capacity b.capacity needed * 8) w u in
        rw (size_mul_fits (grown_capacity b.capacity needed) 8 (omega (arith, room.1)))
          (rw block.0 (refl, block.1)))
  ])
]
