-- ===== src/BigInt/LongDivision/Branches.antt =====
-- The two branches of `bigint_divmod_abs_core` for a numerator that is larger than the divisor.
use num_forge.Base.{
  ℕ, ◌+◌, ◌-◌, ◌*◌, ◌<◌, ◌≤◌, ◌≡◌, refl, Bool, true, false, ◌&&◌, List, [], ◌∷◌, length, arith, ap,
  ◌∙◌, radix, IsLimb, All, Bool-cases, inl, inr,
}
use num_forge.Runtime.Budget.{World, checks, alloc}
use num_forge.BigInt.Types.{BigInt, max_limbs, is_ok}
use num_forge.BigInt.Contract.{IfOk, IfOk-on_ok, IfOk-checked}
use num_forge.BigInt.Storage.{ensure_capacity, set_uint64}
use num_forge.BigInt.Storage.Sizes.{size_add_fits, size_mul_fits}
use num_forge.BigInt.Storage.Growth.{ensure_capacity-Ensured}
use num_forge.BigInt.Storage.Holding.{set_uint64-Holds}
use num_forge.BigInt.Magnitude.Add.{limb}
use num_forge.BigInt.Magnitude.Value.{value, IsMagnitude}
use num_forge.BigInt.Magnitude.Divide.{divide_limbs}
use num_forge.BigInt.Magnitude.Divide.Short.{divide_limbs_lem}
use num_forge.BigInt.LongDivision.{Division, quotient_room, divide_short, long_buffers, divide_long}
use num_forge.BigInt.LongDivision.Kernel.{Bounded, Divides, digits_kept, long_kernel-Divides}

quotient_bounded :
    (keep : Bool) (q : BigInt) (needed : ℕ) (w : World)
    → q.capacity ≤ max_limbs
    → (quotient_room keep q needed w).object.capacity ≤ max_limbs
quotient_bounded true q needed w h = (ensure_capacity-Ensured q needed w h).bounded
quotient_bounded false q needed w h = h

quotient_fits :
    (keep : Bool) (q : BigInt) (needed : ℕ) (w : World)
    → q.capacity ≤ max_limbs
    → is_ok (quotient_room keep q needed w).status ≡ true
    → keep ≡ true
    → needed ≤ (quotient_room keep q needed w).object.capacity
quotient_fits true q needed w h e k = (ensure_capacity-Ensured q needed w h).room e
quotient_fits false q needed w h e k = cc

single_limb :
    (ys : List ℕ)
    → IsMagnitude ys
    → length ys ≡ 1
    → (value ys ≡ limb ys) × (0 < limb ys) × (limb ys < radix)
single_limb [] m e = absurd (omega arith)
single_limb (y ∷ []) m e = (omega arith, m.trimmed, m.words.0)
single_limb (y ∷ z ∷ ys) m e = absurd (omega arith)

module _ (keep : Bool) (d : Division) (a b : BigInt) (w : World) (wa : All IsLimb a.limbs)
    (mb : IsMagnitude b.limbs) (bounded : Bounded d) where
  pub divide_short-Divides :
      length b.limbs ≡ 1 → IfOk (Divides keep a.limbs b.limbs) (divide_short keep d a b w)
  unfolding divide_short
  divide_short-Divides one =
      let P = Divides keep a.limbs b.limbs in
      let (same, some_limb, small) = single_limb b.limbs mb one in
      let divisor = limb b.limbs in
      let digits = divide_limbs divisor a.limbs in
      let h = divide_limbs_lem divisor a.limbs some_limb wa in
      let q = quotient_room keep d.quotient (length a.limbs) w in
      let rounds = checks (length a.limbs) q.world in
      let stored = set_uint64 d.remainder digits.1 rounds.1 in
      IfOk-on_ok P q _ _ λ e. IfOk-checked P rounds _ _ λ _. IfOk-on_ok P stored _ _ λ f p.
        let (held, room) =
          digits_kept keep q.object digits.0 h.words
            (λ (k : keep ≡ true). omega (
              arith,
              h.same_length,
              quotient_fits keep d.quotient (length a.limbs) w bounded.quotient e k,
            ))
            (quotient_bounded keep d.quotient (length a.limbs) w bounded.quotient) in
        let r =
          set_uint64-Holds d.remainder digits.1 rounds.1 bounded.remainder
            (omega (arith, h.below, small)) f in
        record {
          digits = value digits.0;
          equation =
              ap (λ (t : ℕ). value digits.0 * t + value stored.object.limbs) same
              ∙ ap (λ (t : ℕ). value digits.0 * divisor + t) r.number
              ∙ h.equation;
          below = omega (arith, r.number, same, h.below);
          quotient_held = held;
          remainder_held = record {
            magnitude = r.magnitude;
            number = refl;
            fits = r.fits;
            bounded = r.bounded;
          };
          room = record {
            quotient = room;
            remainder = r.bounded;
            numerator = bounded.numerator;
            divisor = bounded.divisor;
          };
        }

-- The buffers leave the outputs alone.
record Buffered (before after : Division) : Type 0 where
  pub same_quotient : after.quotient ≡ before.quotient
  pub same_remainder : after.remainder ≡ before.remainder
  pub room : Bounded after

long_buffers-Buffered :
    (own : Bool) (d : Division) (u v u_bytes v_bytes : ℕ) (w : World)
    → Bounded d
    → IfOk (Buffered d) (long_buffers own d u v u_bytes v_bytes w)
unfolding long_buffers
long_buffers-Buffered false d u v u_bytes v_bytes w bounded =
    let (u_granted, w1) = alloc u_bytes w in
    let (v_granted, w2) = alloc v_bytes w1 in
    elim (Bool-cases (u_granted && v_granted)) [
      | inl granted ↦
          rw granted (λ p. record { same_quotient = refl; same_remainder = refl; room = bounded })
      | inr refused ↦ rw refused (λ p. cc)
    ]
long_buffers-Buffered true d u v u_bytes v_bytes w bounded =
    let first = ensure_capacity d.numerator u w in
    let room1 = ensure_capacity-Ensured d.numerator u w bounded.numerator in
    let second = ensure_capacity d.divisor v first.world in
    let room2 = ensure_capacity-Ensured d.divisor v first.world bounded.divisor in
    IfOk-on_ok (Buffered d) first _ _ λ _. IfOk-on_ok (Buffered d) second _ _ λ _ p. record {
      same_quotient = refl;
      same_remainder = refl;
      room = record {
        quotient = bounded.quotient;
        remainder = bounded.remainder;
        numerator = room1.bounded;
        divisor = room2.bounded;
      };
    }

module _ (keep own : Bool) (d : Division) (a b : BigInt) (w : World) (wa : All IsLimb a.limbs)
    (mb : IsMagnitude b.limbs) (bounded : Bounded d) (short : length a.limbs ≤ max_limbs) where
  pub divide_long-Divides :
      1 < length b.limbs
      → length b.limbs ≤ length a.limbs
      → IfOk (Divides keep a.limbs b.limbs) (divide_long keep own d a b w)
  unfolding divide_long
  divide_long-Divides two longer =
      let P = Divides keep a.limbs b.limbs in
      let n = length b.limbs in
      let size = length a.limbs - n + 1 in
      let q = quotient_room keep d.quotient size w in
      let q_bounded = quotient_bounded keep d.quotient size w bounded.quotient in
      let r = ensure_capacity d.remainder n q.world in
      let roomy = ensure_capacity-Ensured d.remainder n q.world bounded.remainder in
      let d1 : Division = record d { quotient = q.object; remainder = r.object } in
      let bounded1 : Bounded d1 = record {
        quotient = q_bounded;
        remainder = roomy.bounded;
        numerator = bounded.numerator;
        divisor = bounded.divisor;
      } in
      let total = length a.limbs + 1 in
      let buffers = long_buffers own d1 total n (total * 8) (n * 8) r.world in
      rw
        (
          divide_long,
          size_add_fits (length a.limbs) 1 (omega (arith, short)),
          size_mul_fits (length a.limbs + 1) 8 (omega (arith, short)),
          size_mul_fits (length b.limbs) 8 (omega (arith, short, longer)),
        )
        (IfOk-on_ok P q _ _ λ e. IfOk-on_ok P r _ _ λ f. IfOk-on_ok P buffers _ _ λ g.
          let kept = long_buffers-Buffered own d1 total n (total * 8) (n * 8) r.world bounded1 g in
          long_kernel-Divides keep buffers.object a b buffers.world wa mb two longer
            (λ (k : keep ≡ true).
              rw kept.same_quotient (quotient_fits keep d.quotient size w bounded.quotient e k))
            (rw kept.same_remainder (roomy.room f)) kept.room)
