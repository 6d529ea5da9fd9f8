-- ===== src/Runtime/Budget.antt =====
-- src/runtime/numforge_alloc.c in a production build: the thread-local budget, and `malloc`,
-- `calloc` and `realloc` behind it. The failure injection of test builds and the statistics of
-- benchmark builds are compiled out there.
pub mod Accounting
use num_forge.Base.{
  ℕ, zero, suc, ◌+◌, ◌-◌, ◌*◌, ◌/◌, Bool, true, false, ◌&&◌, ◌||◌, not, Option, none, some, ltb,
  leb, ◌==◌, if◌then◌else◌, u64, sub_u64, size_max, uint64_max, bit_and,
}

pub data BudgetFailure : Type 0 where
  budget_ok budget_time budget_memory : BudgetFailure

abbrev pub is_ok : BudgetFailure → Bool
is_ok budget_ok = true
is_ok budget_time = false
is_ok budget_memory = false

-- The static variables of the file, and what the system will answer: the seconds and nanoseconds of
-- the k-th call of `clock_gettime`, if it succeeds, and whether the k-th call of the C allocator
-- returns a block of so many bytes.
pub record World : Type 0 where
  pub active : Bool
  pub started : ℕ
  pub duration : ℕ
  pub remaining : ℕ
  pub single : ℕ
  pub failure : BudgetFailure
  pub clock : ℕ → Option (ℕ × ℕ)
  pub readings : ℕ
  pub grants : ℕ → ℕ → Bool
  pub requests : ℕ

-- `numforge_monotonic_ms`.
abbrev pub milliseconds : Option (ℕ × ℕ) → ℕ
milliseconds none = uint64_max
milliseconds (some (sec, nsec)) = u64 (u64 sec * 1000 + nsec / 1000000)

unfoldable pub monotonic_ms : World → ℕ × World
monotonic_ms w = (milliseconds (w.clock w.readings), record w { readings = w.readings + 1 })

unfoldable pub budget_begin : ℕ → ℕ → ℕ → World → Bool × World
unfolding monotonic_ms
budget_begin time_limit allocation_bytes single_allocation w =
    if w.active
    then (false, w)
    else let (now, w') = monotonic_ms w in
      (
        true,
        record w' {
          active = true;
          started = now;
          duration = time_limit;
          remaining = allocation_bytes;
          single = single_allocation;
          failure = budget_ok;
        },
      )

-- The deadline has passed, or the clock cannot tell.
abbrev pub expired : World → ℕ → Bool
expired w now =
    now == uint64_max || (w.started == uint64_max || leb w.duration (sub_u64 now w.started))

unfoldable pub budget_check : World → Bool × World
unfolding monotonic_ms
budget_check w =
    if not w.active
    then (true, w)
    else if not (is_ok w.failure)
    then (false, w)
    else let (now, w') = monotonic_ms w in
      if expired w' now then (false, record w' { failure = budget_time }) else (true, w')

-- `if (!(i & 255U) && !numforge_budget_check())`, the poll inside the loops over limbs.
unfoldable pub poll : ℕ → World → Bool × World
unfolding budget_check
poll i w = if bit_and i 255 == 0 then budget_check w else (true, w)

-- The polls of a loop of so many rounds, from index `i` on. The loops that leave no trace when they are
-- stopped (their buffers are dropped) are modelled with all their polls first.
unfoldable pub polls : ℕ → ℕ → World → Bool × World
polls zero i w = (true, w)
polls (suc rounds) i w =
    let (running, w') = poll i w in
    let more = polls rounds (i + 1) w' in if running then more else (false, w')

-- Likewise for a loop that checks the budget in every round.
unfoldable pub checks : ℕ → World → Bool × World
checks zero w = (true, w)
checks (suc rounds) w =
    let (running, w') = budget_check w in
    let more = checks rounds w' in if running then more else (false, w')

unfoldable pub budget_failure : World → BudgetFailure
budget_failure w = w.failure

unfoldable pub budget_end : World → World
budget_end w = record w { active = false; failure = budget_ok }

unfoldable pub budget_available_bytes : World → ℕ
budget_available_bytes w =
    if not w.active then size_max else if is_ok w.failure then w.remaining else 0

unfoldable pub budget_available_ms : World → ℕ × World
unfolding monotonic_ms
budget_available_ms w =
    if not w.active
    then (uint64_max, w)
    else if not (is_ok w.failure)
    then (0, w)
    else let (now, w') = monotonic_ms w in
      if now == uint64_max || (w.started == uint64_max || ltb now w.started)
      then (0, w')
      else let elapsed = now - w.started in
        (if ltb elapsed w.duration then w.duration - elapsed else 0, w')

unfoldable pub budget_can_allocate_pair : ℕ → ℕ → World → Bool
budget_can_allocate_pair first second w =
    if not w.active
    then true
    else is_ok w.failure
      && (leb first w.single
          && (leb second w.single && (leb first w.remaining && leb second (w.remaining - first))))

unfoldable pub budget_can_allocate_plan : ℕ → ℕ → World → Bool
budget_can_allocate_plan total largest w =
    not w.active || (is_ok w.failure && (leb largest w.single && leb total w.remaining))

-- `numforge_budget_allocate`, and `numforge_allocation_allowed`, which is no more in such a build.
unfoldable pub budget_allocate : ℕ → World → Bool × World
unfolding budget_check
budget_allocate size w =
    let (running, w') = budget_check w in
    if not running
    then (false, w')
    else if not w'.active
    then (true, w')
    else if ltb w'.single size || ltb w'.remaining size
    then (false, record w' { failure = budget_memory })
    else (true, record w' { remaining = w'.remaining - size })

-- `numforge_malloc` and `numforge_realloc`: whether there is a block of so many bytes.
unfoldable pub alloc : ℕ → World → Bool × World
unfolding budget_allocate
alloc size w =
    let (allowed, w') = budget_allocate size w in
    if allowed
    then (w'.grants w'.requests size, record w' { requests = w'.requests + 1 })
    else (false, w')

-- `numforge_calloc`.
unfoldable pub calloc : ℕ → ℕ → World → Bool × World
unfolding alloc
calloc count size w =
    if not (size == 0) && ltb (size_max / size) count
    then (false, w)
    else alloc (u64 (count * size)) w
