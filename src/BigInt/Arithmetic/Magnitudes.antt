-- ===== src/BigInt/Arithmetic/Magnitudes.antt =====
-- The magnitude routines of bigint.c compute sums and differences of magnitudes.
use num_forge.Base.{ℕ, ◌+◌, ◌-◌, ◌≤◌, ◌≡◌, Bool, List, length, arith, max, ap, inl, inr, ◌∙◌}
use num_forge.Base.Int.{signed}
use num_forge.Runtime.Budget.{World}
use num_forge.BigInt.Types.{BigInt, IsValid, Out, Gives, Holds, Computes, max_limbs}
use num_forge.BigInt.Contract.{Gives-ok, Gives-on_ok}
use num_forge.BigInt.Storage.{ensure_capacity, normalize}
use num_forge.BigInt.Storage.Sizes.{size_add_fits}
use num_forge.BigInt.Storage.Growth.{ensure_capacity-Ensured}
use num_forge.BigInt.Storage.Normal.{normalize-IsValid, to_ℤ-normalize}
use num_forge.BigInt.Magnitude.Value.{value, IsMagnitude, value-lt_of_length}
use num_forge.BigInt.Magnitude.Trim.{trim-IsMagnitude, value-trim, length-trim}
use num_forge.BigInt.Magnitude.Compare.{compare_abs-cases}
use num_forge.BigInt.Magnitude.Add.{sub_limbs}
use num_forge.BigInt.Magnitude.Add.Sums.{value-add_limbs}
use num_forge.BigInt.Magnitude.Add.Differences.{value-sub_limbs}
use num_forge.BigInt.Magnitude.Add.Words.{
  add_limbs-IsMagnitude, length-add_limbs, sub_limbs-words, length-sub_limbs,
}
use num_forge.BigInt.Arithmetic.{add_abs, subtract_ordered, subtract_abs, finish}

-- `bigint_add_abs` of two valid objects leaves the sum of the magnitudes, canonical without any
-- trimming, if it returns BIGINT_OK, and the destination untouched if it does not.
pub add_abs-Gives :
    (result a b : BigInt) (w : World)
    → result.capacity ≤ max_limbs
    → IsValid a
    → IsValid b
    → Gives (Holds (value a.limbs + value b.limbs)) result (add_abs result a b w)
unfolding add_abs
add_abs-Gives result a b w c va vb =
    let needed = max (length a.limbs) (length b.limbs) in
    let room = ensure_capacity-Ensured result (needed + 1) w c in
    rw (size_add_fits needed 1 (omega (arith, va, vb)), add_abs)
      (Gives-on_ok (ensure_capacity result (needed + 1) w) _ _
        (λ e. Gives-ok _ _ (record {
          magnitude = add_limbs-IsMagnitude a.limbs b.limbs va.magnitude vb.magnitude;
          number = value-add_limbs a.limbs b.limbs va.magnitude.words vb.magnitude.words;
          fits = omega (arith, length-add_limbs a.limbs b.limbs, room.room e);
          bounded = room.bounded;
        }))
        room.unchanged)

length-le_of_value :
    (a b : List ℕ) → IsMagnitude a → IsMagnitude b → value b ≤ value a → length b ≤ length a
length-le_of_value a b ma mb h = ground (arith, value-lt_of_length a b ma.words mb.trimmed)

pub subtract_ordered-Gives :
    (result a b : BigInt) (w : World)
    → result.capacity ≤ max_limbs
    → IsValid a
    → IsValid b
    → value b.limbs ≤ value a.limbs
    → Gives (Holds (value a.limbs - value b.limbs)) result (subtract_ordered result a b w)
unfolding subtract_ordered normalize
subtract_ordered-Gives result a b w c va vb h =
    let room = ensure_capacity-Ensured result (length a.limbs) w c in
    let shorter = length-le_of_value a.limbs b.limbs va.magnitude vb.magnitude h in
    let difference = sub_limbs a.limbs b.limbs in
    Gives-on_ok (ensure_capacity result (length a.limbs) w) _ _
      (λ e. Gives-ok _ _ (record {
        magnitude = trim-IsMagnitude difference (sub_limbs-words a.limbs b.limbs);
        number = omega (
          arith,
          value-trim difference,
          value-sub_limbs a.limbs b.limbs va.magnitude.words vb.magnitude.words shorter h,
        );
        fits = omega (arith, length-trim difference, length-sub_limbs a.limbs b.limbs, room.room e);
        bounded = room.bounded;
      }))
      room.unchanged

-- `bigint_subtract_abs` of two valid objects leaves the distance of their magnitudes, whichever is
-- larger, if it returns BIGINT_OK, and the destination untouched if it does not.
pub subtract_abs-Gives :
    (result a b : BigInt) (w : World)
    → result.capacity ≤ max_limbs
    → IsValid a
    → IsValid b
    → Gives
        (Holds ((value a.limbs - value b.limbs) + (value b.limbs - value a.limbs)))
        result
        (subtract_abs result a b w)
unfolding subtract_abs
subtract_abs-Gives result a b w c va vb =
    elim (compare_abs-cases a.limbs b.limbs va.magnitude vb.magnitude) [
      | inl (o, less) ↦
          let e : value a.limbs - value b.limbs + (value b.limbs - value a.limbs)
              ≡ value b.limbs - value a.limbs =
            omega arith in
          rw (o, subtract_abs, e) (subtract_ordered-Gives result b a w c vb va (omega arith))
      | inr (inl (o, same)) ↦
          let e : value a.limbs - value b.limbs + (value b.limbs - value a.limbs)
              ≡ value a.limbs - value b.limbs =
            omega arith in
          rw (o, subtract_abs, e) (subtract_ordered-Gives result a b w c va vb (omega arith))
      | inr (inr (o, more)) ↦
          let e : value a.limbs - value b.limbs + (value b.limbs - value a.limbs)
              ≡ value a.limbs - value b.limbs =
            omega arith in
          rw (o, subtract_abs, e) (subtract_ordered-Gives result a b w c va vb (omega arith))
    ]

-- Setting the sign of a magnitude and normalizing gives the signed integer.
pub finish-Computes :
    {n : ℕ} (before : BigInt) (negative : Bool) (m : Out BigInt)
    → Gives (Holds n) before m
    → Computes before (signed negative n) (finish negative m)
finish-Computes before negative m g =
    Gives-on_ok m _ _
      (λ e.
        let h = g.success e in
        let b = record (m.object) { is_negative = negative } in
        Gives-ok _ _ (record {
          valid = normalize-IsValid b h.magnitude.words h.fits h.bounded;
          integer = to_ℤ-normalize b ∙ ap (signed negative) h.number;
        }))
      g.untouched
