-- ===== src/BigInt/LongDivision/Kernel.antt =====
-- The kernel of the long division divides.
use native.Mathlib.Nat.{one-le-pow, div-lt_iff_lt-mul, mul-le-mul_left, mul-le-mul_right, pow-succ'}
use num_forge.Base.{
  ℕ, zero, suc, ◌+◌, ◌-◌, ◌*◌, ◌/◌, ◌^◌, ◌<◌, ◌≤◌, ◌≡◌, refl, Bool, true, false, List, [], ◌∷◌,
  ◌++◌, length, take, drop, get_or, if◌then◌else◌, arith, ap, subst, sym, ◌∙◌, radix, IsLimb, All,
  All-take, All-drop, length-take, length-drop, arith,
}
use num_forge.Runtime.Budget.{World, polls}
use num_forge.BigInt.Types.{BigInt, Holds, max_limbs}
use num_forge.BigInt.Contract.{IfOk, IfOk-on_ok, IfOk-checked}
use num_forge.BigInt.Storage.{normalize}
use num_forge.BigInt.Storage.Holding.{normalize-Holds}
use num_forge.BigInt.Magnitude.Value.{value, IsMagnitude}
use num_forge.BigInt.Bitwise.{shift_right_limbs}
use num_forge.BigInt.Bitwise.Powers.{value-drop, value-take, value-take-drop, value-lt}
use num_forge.BigInt.Bitwise.Scaling.{
  value-shift_right_limbs, shift_right_limbs-words, length-shift_right_limbs,
}
use num_forge.BigInt.Magnitude.Long.{leading_shift, shift_up, long_loop}
use num_forge.BigInt.Magnitude.Long.Round.{get-lt}
use num_forge.BigInt.Magnitude.Long.Normalize.{Distance, leading_shift-Distance}
use num_forge.BigInt.Magnitude.Long.Digits.{LongDivided, long_loop-LongDivided}
use num_forge.BigInt.LongDivision.{Division, long_kernel}
use num_forge.BigInt.LongDivision.Prepare.{
  unscaled, ShiftedDivisor, ShiftedNumerator, shifted_divisor, shifted_numerator, top_limb_bounds,
  top_limb_pos,
}

-- The buffers of a division are within the limit.
pub record Bounded (d : Division) : Type 0 where
  pub quotient : d.quotient.capacity ≤ max_limbs
  pub remainder : d.remainder.capacity ≤ max_limbs
  pub numerator : d.numerator.capacity ≤ max_limbs
  pub divisor : d.divisor.capacity ≤ max_limbs

-- The objects hold the quotient, if it is wanted, and the remainder; their signs are open.
pub record Divides (keep : Bool) (xs ys : List ℕ) (d : Division) : Type 0 where
  pub digits : ℕ
  pub equation : digits * value ys + value d.remainder.limbs ≡ value xs
  pub below : value d.remainder.limbs < value ys
  pub quotient_held : keep ≡ true → Holds digits d.quotient
  pub remainder_held : Holds (value d.remainder.limbs) d.remainder
  pub room : Bounded d

power_of : {m n : ℕ} → m ≡ n → radix ^ m ≡ radix ^ n
power_of e = ap (λ (t : ℕ). radix ^ t) e

power_sum : (m n : ℕ) → radix ^ (m + n) ≡ radix ^ m * radix ^ n
power_sum zero n = omega (arith, power_of {m = zero + n} {n = n} (omega arith))
power_sum (suc m) n = omega (
  arith,
  power_of {m = suc m + n} {n = suc (m + n)} (omega arith),
  pow-succ' radix (m + n),
  power_sum m n,
  ap (λ (t : ℕ). t * radix ^ n) (pow-succ' radix m),
)

-- The window that the rounds start with is less than the divisor.
window_below : (u x s p r b : ℕ) → u ≡ x * s → x < p * r → 0 < s → 0 < p → r ≤ b → u / p < b * s
window_below u x s p r b eu hx hs hp hb =
    let scaled : suc x * s ≤ p * r * s = mul-le-mul_right s hx in
    let wider : p * (r * s) ≤ p * (b * s) = mul-le-mul_left p (mul-le-mul_right s hb) in
    (div-lt_iff_lt-mul hp).1 (omega (arith, eu, scaled, wider, hs))

module _ (k shift : ℕ) (xs bs : List ℕ) (wx : All IsLimb xs) (mb : IsMagnitude bs)
    (lb : length bs ≡ suc (suc k)) (longer : length bs ≤ length xs)
    (d : Distance 63 (get_or bs (suc k) 0) 0 shift) where
  v : List ℕ
  v = (shift_up shift 0 bs).0

  u : List ℕ
  u = (shift_up shift 0 xs).0 ++ (shift_up shift 0 xs).1 ∷ []

  rounds : ℕ
  rounds = length xs - length bs + 1

  v_shifted : ShiftedDivisor bs (suc k) shift v
  unfolding v
  v_shifted = shifted_divisor (suc k) shift bs mb lb d

  u_shifted : ShiftedNumerator xs shift u
  unfolding u
  u_shifted = shifted_numerator (suc k) shift bs mb lb d xs wx

  split_power : radix ^ length xs ≡ radix ^ rounds * radix ^ suc k
  unfolding rounds
  split_power =
      ap (λ (n : ℕ). radix ^ n) (omega (arith, lb, longer))
      ∙ power_sum (length xs - length bs + 1) (suc k)

  start_below : value (drop rounds u) < value v
  start_below =
      let bounds = top_limb_bounds (suc k) bs mb.words lb in
      let top = top_limb_pos (suc k) bs mb lb in
      let least : radix ^ suc k ≤ value bs =
        omega (arith, bounds.0, mul-le-mul_right (radix ^ suc k) top) in
      let small : value xs < radix ^ rounds * radix ^ suc k =
        omega (arith, value-lt xs wx, split_power) in
      let divided : value (drop rounds u) ≡ value u / radix ^ rounds =
        value-drop rounds u u_shifted.words in
      let below =
        window_below (value u) (value xs) (2 ^ shift) (radix ^ rounds) (radix ^ suc k) (value bs)
          u_shifted.number small (one-le-pow shift 2 (omega arith))
          (one-le-pow rounds radix (omega arith)) least in
      omega (arith, below, divided, v_shifted.number)

  length-low : length (take rounds u) ≡ rounds
  unfolding rounds
  length-low = omega (arith, length-take rounds u, u_shifted.one_longer, longer)

  length-window : length (drop rounds u) ≡ length v
  unfolding rounds
  length-window =
      omega (arith, length-drop rounds u, u_shifted.one_longer, longer, v_shifted.same_length, lb)

  rounds_divide :
      (w : World)
      → IfOk
          (LongDivided v (drop rounds u) (take rounds u))
          (long_loop v (drop rounds u) (take rounds u) w)
  rounds_divide w =
      long_loop-LongDivided k v v_shifted.words v_shifted.same_length v_shifted.normal
        (drop rounds u) (take rounds u) w (All-drop IsLimb rounds u u_shifted.words)
        (omega (arith, length-window)) start_below (All-take IsLimb rounds u u_shifted.words)

  -- The last window, shifted down.
  left : List ℕ → List ℕ
  left window = take (length bs) (shift_right_limbs shift window)

  kernel_equation :
      (r : List ℕ × List ℕ)
      → LongDivided v (drop rounds u) (take rounds u) r
      → (value r.0 * value bs + value r.1 / 2 ^ shift ≡ value xs)
        × (value r.1 / 2 ^ shift < value bs)
  kernel_equation r h =
      let whole : value (take rounds u) + radix ^ length (take rounds u) * value (drop rounds u)
          ≡ value u =
        rw length-low (value-take-drop rounds u) in
      unscaled (value r.0) (value bs) (value xs) (value r.1) (2 ^ shift)
        (one-le-pow shift 2 (omega arith))
        (ap (λ (t : ℕ). value r.0 * t + value r.1) (sym v_shifted.number)
          ∙ h.equation
          ∙ whole
          ∙ u_shifted.number)
        (omega (arith, h.below, v_shifted.number))

  left_held :
      (r : List ℕ × List ℕ)
      → LongDivided v (drop rounds u) (take rounds u) r
      → (value (left r.1) ≡ value r.1 / 2 ^ shift)
        × All IsLimb (left r.1)
        × (length (left r.1) ≡ length bs)
  unfolding left
  left_held r h =
      let small : shift < 64 = omega (arith, d.total, d.within) in
      let down = value-shift_right_limbs 0 shift r.1 small h.words in
      let below = (kernel_equation r h).1 in
      (
        value-take (length bs) _ (omega (arith, down, below, value-lt bs mb.words)) ∙ down,
        All-take IsLimb (length bs) _ (shift_right_limbs-words 0 shift r.1 small h.words),
        omega (
          arith,
          length-take (length bs) (shift_right_limbs shift r.1),
          length-shift_right_limbs 0 shift r.1 small,
          h.lower,
          v_shifted.same_length,
          lb,
        ),
      )

  rest : Division → List ℕ → BigInt
  rest o window = normalize (record o.remainder { limbs = left window })

  kernel-Divides :
      (keep : Bool) (o : Division) (r : List ℕ × List ℕ) (q : BigInt)
      → LongDivided v (drop rounds u) (take rounds u) r
      → (keep ≡ true → Holds (value r.0) q)
      → q.capacity ≤ max_limbs
      → length bs ≤ o.remainder.capacity
      → Bounded o
      → Divides keep xs bs (record o { quotient = q; remainder = rest o r.1 })
  unfolding rest
  kernel-Divides keep o r q h held room_q room_r bounded =
      let e = kernel_equation r h in
      let (number, words, count) = left_held r h in
      let last : BigInt = record o.remainder { limbs = left r.1 } in
      let kept = normalize-Holds last words (omega (arith, count, room_r)) bounded.remainder in
      let same = kept.number ∙ number in
      record {
        digits = value r.0;
        equation = ap (λ (t : ℕ). value r.0 * value bs + t) same ∙ e.0;
        below = omega (arith, same, e.1);
        quotient_held = held;
        remainder_held = record {
          magnitude = kept.magnitude;
          number = refl;
          fits = kept.fits;
          bounded = kept.bounded;
        };
        room = record {
          quotient = room_q;
          remainder = kept.bounded;
          numerator = bounded.numerator;
          divisor = bounded.divisor;
        };
      }

pub digits_kept :
    (keep : Bool) (b : BigInt) (xs : List ℕ)
    → All IsLimb xs
    → (keep ≡ true → length xs ≤ b.capacity)
    → b.capacity ≤ max_limbs
    → let q = if keep then normalize (record b { limbs = xs }) else b in
      (keep ≡ true → Holds (value xs) q) × (q.capacity ≤ max_limbs)
digits_kept true b xs w room bounded =
    let held = normalize-Holds (record b { limbs = xs }) w (room refl) bounded in
    (λ _. held, held.bounded)
digits_kept false b xs w room bounded = (λ e. cc, bounded)

-- The kernel divides, when the buffers have room.
pub long_kernel-Divides :
    (keep : Bool) (o : Division) (a b : BigInt) (w : World)
    → All IsLimb a.limbs
    → IsMagnitude b.limbs
    → 1 < length b.limbs
    → length b.limbs ≤ length a.limbs
    → (keep ≡ true → length a.limbs - length b.limbs + 1 ≤ o.quotient.capacity)
    → length b.limbs ≤ o.remainder.capacity
    → Bounded o
    → IfOk (Divides keep a.limbs b.limbs) (long_kernel keep o a b w)
unfolding long_kernel v u rounds left rest
long_kernel-Divides keep o a b w wa mb two longer room_q room_r bounded =
    let n = length b.limbs in
    let k = n - 2 in
    let lb : n ≡ suc (suc k) = omega (arith, two) in
    let same : n - 1 ≡ suc k = omega (arith, two) in
    let top = get_or b.limbs (n - 1) 0 in
    let shift = leading_shift 63 top 0 in
    let positive : 0 < top = rw same (top_limb_pos (suc k) b.limbs mb lb) in
    let d0 : Distance 63 top 0 shift =
      leading_shift-Distance 63 top 0 (get-lt (n - 1) b.limbs mb.words) (omega (arith, positive)) in
    let d : Distance 63 (get_or b.limbs (suc k) 0) 0 shift =
      subst (λ (i : ℕ). Distance 63 (get_or b.limbs i 0) 0 shift) same d0 in
    let P = Divides keep a.limbs b.limbs in
    let (run1, w1) = polls n 0 w in
    let (run2, w2) = polls (length a.limbs) 0 w1 in
    let numerator = (shift_up shift 0 a.limbs).0 ++ (shift_up shift 0 a.limbs).1 ∷ [] in
    let size = length a.limbs - n + 1 in
    let m = long_loop (shift_up shift 0 b.limbs).0 (drop size numerator) (take size numerator) w2 in
    let divided = rounds_divide k shift a.limbs b.limbs wa mb lb longer d w2 in
    IfOk-checked P (polls n 0 w) _ _ λ _. IfOk-checked P (polls (length a.limbs) 0 w1) _ _ λ _.
      IfOk-on_ok P m _ _ λ e. IfOk-checked P (polls n 0 m.world) _ _ λ _ p.
        let h = divided e in
        let (held, room) =
          digits_kept keep o.quotient _ h.digits
            (λ (q : keep ≡ true).
              omega
                (arith, h.count, length-low k shift a.limbs b.limbs wa mb lb longer d, room_q q))
            bounded.quotient in
        kernel-Divides k shift a.limbs b.limbs wa mb lb longer d keep o _ _ h held room room_r
          bounded
