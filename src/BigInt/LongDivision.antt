-- ===== src/BigInt/LongDivision.antt =====
-- `bigint_divmod_abs_core` of src/core/bigint/bigint.c: the division of magnitudes, with its buffers.
-- `keep` says that the quotient is wanted (it is not NULL), and `own` that the caller lends a workspace.
pub mod Branches
pub mod Contract
pub mod Kernel
pub mod Prepare
use Prim.Native.Nat.Ordering.{lt, eq, gt}
use num_forge.Base.{
  ℕ, zero, suc, ◌+◌, ◌-◌, ◌*◌, Bool, true, false, ◌&&◌, not, Option, none, some, List, [], ◌∷◌,
  ◌++◌, length, take, drop, get_or, if◌then◌else◌, ◌==◌,
}
use num_forge.Runtime.Budget.{World, budget_check, polls, checks, alloc}
use num_forge.BigInt.Types.{BigInt, ok, out_of_memory, Out, returns, on_ok, checked}
use num_forge.BigInt.Storage.{
  size_add, size_mul, ensure_capacity, normalize, set_uint64, copy, is_empty,
}
use num_forge.BigInt.Magnitude.Add.{limb}
use num_forge.BigInt.Magnitude.Compare.{compare_abs}
use num_forge.BigInt.Magnitude.Divide.{divide_limbs}
use num_forge.BigInt.Magnitude.Long.{leading_shift, shift_up, long_loop}
use num_forge.BigInt.Bitwise.{shift_right_limbs}

-- The objects that a division writes: its outputs, and the workspace.
pub record Division : Type 0 where
  pub quotient : BigInt
  pub remainder : BigInt
  pub numerator : BigInt
  pub divisor : BigInt

-- `size = 0`; the sign and the buffer stay.
abbrev pub cleared : BigInt → BigInt
cleared b = record b { limbs = [] }

-- `quotient == NULL ? BIGINT_OK : bigint_ensure_capacity(quotient, needed)`.
abbrev pub quotient_room : Bool → BigInt → ℕ → World → Out BigInt
quotient_room keep quotient needed w =
    if keep then ensure_capacity quotient needed w else returns ok quotient w

-- The branch for a divisor of one limb.
unfoldable pub divide_short : Bool → Division → BigInt → BigInt → World → Out Division
divide_short keep d a b w =
    on_ok (quotient_room keep d.quotient (length a.limbs) w) (λ q. record d { quotient = q })
      λ q w1.
        let digits = divide_limbs (limb b.limbs) a.limbs in
        let d1 = record d { quotient = q } in
        checked (checks (length a.limbs) w1) d1 λ w2.
          let q' = if keep then normalize (record q { limbs = digits.0 }) else q in
          let d2 = record d { quotient = q' } in
          on_ok (set_uint64 d.remainder digits.1 w2) (λ r. record d2 { remainder = r })
            λ r w3. returns ok (record d2 { remainder = r }) w3

-- The buffers for the shifted operands: the workspace's, or two blocks that are freed at the end.
unfoldable pub long_buffers : Bool → Division → ℕ → ℕ → ℕ → ℕ → World → Out Division
long_buffers own d u_count v_count u_bytes v_bytes w =
    if not own
    then (let (u_granted, w1) = alloc u_bytes w in
        let (v_granted, w2) = alloc v_bytes w1 in
        if u_granted && v_granted then returns ok d w2 else returns out_of_memory d w2)
    else on_ok (ensure_capacity d.numerator u_count w) (λ u. record d { numerator = u })
        λ u w1.
          let d1 = record d { numerator = u } in
          on_ok (ensure_capacity d.divisor v_count w1) (λ v. record d1 { divisor = v })
            λ v w2. returns ok (record d1 { divisor = v }) w2

-- The kernel, once all buffers are there.
unfoldable pub long_kernel : Bool → Division → BigInt → BigInt → World → Out Division
unfolding leading_shift shift_up long_loop
long_kernel keep d a b w =
    let n = length b.limbs in
    let m = length a.limbs - n in
    let shift = leading_shift 63 (get_or b.limbs (n - 1) 0) 0 in
    let v = shift_up shift 0 b.limbs in
    let u = shift_up shift 0 a.limbs in
    let numerator = u.0 ++ u.1 ∷ [] in
    checked (polls n 0 w) d λ w1. checked (polls (length a.limbs) 0 w1) d λ w2.
      on_ok (long_loop v.0 (drop (m + 1) numerator) (take (m + 1) numerator) w2) (λ _. d)
        λ r w3. checked (polls n 0 w3) d λ w4.
          returns ok
            (record d {
              quotient = if keep then normalize (record d.quotient { limbs = r.0 }) else d.quotient;
              remainder =
                  normalize (record d.remainder { limbs = take n (shift_right_limbs shift r.1) });
            })
            w4

-- The branch for a divisor of more limbs.
unfoldable pub divide_long : Bool → Bool → Division → BigInt → BigInt → World → Out Division
unfolding long_buffers long_kernel
divide_long keep own d a b w =
    let n = length b.limbs in
    let m = length a.limbs - n in
    elim (size_add (length a.limbs) 1) [
      | none ↦ returns out_of_memory d w
      | some u_count ↦ elim (size_mul u_count 8) [
        | none ↦ returns out_of_memory d w
        | some u_bytes ↦ elim (size_mul n 8) [
          | none ↦ returns out_of_memory d w
          | some v_bytes ↦
              on_ok (quotient_room keep d.quotient (m + 1) w) (λ q. record d { quotient = q })
                λ q w1.
                  let d1 = record d { quotient = q } in
                  on_ok (ensure_capacity d.remainder n w1) (λ r. record d1 { remainder = r })
                    λ r w2.
                      on_ok
                        (long_buffers own (record d1 { remainder = r }) u_count n u_bytes v_bytes
                          w2)
                        (λ d2. d2) λ d2 w3. long_kernel keep d2 a b w3
        ]
      ]
    ]

-- `bigint_divmod_abs_core`, for a divisor that is not 0.
unfoldable pub divmod_abs : Bool → Bool → Division → BigInt → BigInt → World → Out Division
unfolding divide_short divide_long
divmod_abs keep own d a b w =
    let start = record d {
      quotient = if keep then cleared d.quotient else d.quotient;
      remainder = cleared d.remainder;
    } in
    checked (budget_check w) start λ w1.
      if is_empty a.limbs then returns ok start w1 else elim (compare_abs a.limbs b.limbs) [
        | lt ↦
            on_ok (copy start.remainder a w1) (λ r. record start { remainder = r })
              λ r w2. returns ok (record start { remainder = r }) w2
        | eq ↦
            if not keep
            then returns ok start w1
            else on_ok (set_uint64 start.quotient 1 w1) (λ q. record start { quotient = q })
                λ q w2. returns ok (record start { quotient = q }) w2
        | gt ↦
            if length b.limbs == 1
            then divide_short keep start a b w1
            else divide_long keep own start a b w1
      ]
