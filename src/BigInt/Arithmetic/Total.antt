-- ===== src/BigInt/Arithmetic/Total.antt =====
-- With memory to be had and operands below the bound on limbs, the operations succeed.
use num_forge.Base.{
  ◌+◌, ◌≤◌, ◌<◌, ◌≡◌, refl, Bool, true, false, length, arith, max, inl, inr, Bool-cases,
}
use num_forge.Base.Int.{◌+ℤ◌}
use num_forge.Runtime.Budget.{World}
use num_forge.BigInt.Types.{BigInt, IsValid, is_ok, Out, Represents, max_limbs, to_ℤ}
use num_forge.BigInt.Storage.{copy, is_empty}
use num_forge.BigInt.Storage.Growth.{Unlimited, ensure_capacity-Unlimited}
use num_forge.BigInt.Magnitude.Compare.{compare_abs-cases}
use num_forge.BigInt.Arithmetic.{
  add_abs, subtract_ordered, subtract_abs, finish, add_by_signs, add, negate,
}
use num_forge.BigInt.Storage.Sizes.{size_add_fits}
use num_forge.BigInt.Arithmetic.Signed.{add-Computes}

-- A call that succeeds and leaves the memory as plentiful as it was.
pub record Succeeds {A : Type 0} (o : Out A) : Type 0 where
  pub succeeded : is_ok o.status ≡ true
  pub plentiful : Unlimited o.world

module _ (result a b : BigInt) (w : World) (c : result.capacity ≤ max_limbs) (va : IsValid a)
    (vb : IsValid b) (u : Unlimited w) where
  add_abs-Succeeds :
      max (length a.limbs) (length b.limbs) < max_limbs → Succeeds (add_abs result a b w)
  unfolding add_abs
  add_abs-Succeeds small =
      let room =
        ensure_capacity-Unlimited result (max (length a.limbs) (length b.limbs) + 1) w c
          (omega arith) u in
      rw (size_add_fits (max (length a.limbs) (length b.limbs)) 1 (omega arith), add_abs)
        (rw room.0 (record { succeeded = refl; plentiful = room.1 }))

subtract_ordered-Succeeds :
    (result a b : BigInt) (w : World)
    → result.capacity ≤ max_limbs
    → IsValid a
    → Unlimited w
    → Succeeds (subtract_ordered result a b w)
unfolding subtract_ordered
subtract_ordered-Succeeds result a b w c va u =
    let room = ensure_capacity-Unlimited result (length a.limbs) w c (omega (arith, va)) u in
    rw room.0 (record { succeeded = refl; plentiful = room.1 })

subtract_abs-Succeeds :
    (result a b : BigInt) (w : World)
    → result.capacity ≤ max_limbs
    → IsValid a
    → IsValid b
    → Unlimited w
    → Succeeds (subtract_abs result a b w)
unfolding subtract_abs
subtract_abs-Succeeds result a b w c va vb u =
    elim (compare_abs-cases a.limbs b.limbs va.magnitude vb.magnitude) [
      | inl (o, _) ↦ rw (o, subtract_abs) (subtract_ordered-Succeeds result b a w c vb u)
      | inr (inl (o, _)) ↦ rw (o, subtract_abs) (subtract_ordered-Succeeds result a b w c va u)
      | inr (inr (o, _)) ↦ rw (o, subtract_abs) (subtract_ordered-Succeeds result a b w c va u)
    ]

finish-Succeeds : (s : Bool) (m : Out BigInt) → Succeeds m → Succeeds (finish s m)
finish-Succeeds s m h = rw (h.succeeded) (record { succeeded = refl; plentiful = h.plentiful })

copy-Succeeds :
    (d source : BigInt) (w : World)
    → d.capacity ≤ max_limbs
    → IsValid source
    → Unlimited w
    → Succeeds (copy d source w)
unfolding copy
copy-Succeeds d source w c v u = elim (Bool-cases (is_empty source.limbs)) [
  | inl e ↦ rw e (record { succeeded = refl; plentiful = u })
  | inr e ↦
      let room = ensure_capacity-Unlimited d (length source.limbs) w c (omega (arith, v)) u in
      rw (e, room.0) (record { succeeded = refl; plentiful = room.1 })
]

negate-Succeeds :
    (d source : BigInt) (w : World)
    → d.capacity ≤ max_limbs
    → IsValid source
    → Unlimited w
    → Succeeds (negate d source w)
unfolding negate
negate-Succeeds d source w c v u =
    let copied = copy-Succeeds d source w c v u in
    rw (copied.succeeded) (record { succeeded = refl; plentiful = copied.plentiful })

module _ (result a b : BigInt) (w : World) (c : result.capacity ≤ max_limbs) (va : IsValid a)
    (vb : IsValid b) (u : Unlimited w)
    (small : max (length a.limbs) (length b.limbs) < max_limbs) where
  add_by_signs-Succeeds : (s t : Bool) → Succeeds (add_by_signs s t result a b w)
  unfolding add_by_signs
  add_by_signs-Succeeds true true =
      finish-Succeeds true _ (add_abs-Succeeds result a b w c va vb u small)
  add_by_signs-Succeeds false false =
      finish-Succeeds false _ (add_abs-Succeeds result a b w c va vb u small)
  add_by_signs-Succeeds true false =
      elim (compare_abs-cases a.limbs b.limbs va.magnitude vb.magnitude) [
        | inl (o, _) ↦
            rw (o, add_by_signs)
              (finish-Succeeds false _ (subtract_abs-Succeeds result b a w c vb va u))
        | inr (inl (o, _)) ↦
            rw (o, add_by_signs)
              (finish-Succeeds false _ (subtract_abs-Succeeds result b a w c vb va u))
        | inr (inr (o, _)) ↦
            rw (o, add_by_signs)
              (finish-Succeeds true _ (subtract_abs-Succeeds result a b w c va vb u))
      ]
  add_by_signs-Succeeds false true =
      elim (compare_abs-cases a.limbs b.limbs va.magnitude vb.magnitude) [
        | inl (o, _) ↦
            rw (o, add_by_signs)
              (finish-Succeeds true _ (subtract_abs-Succeeds result b a w c vb va u))
        | inr (inl (o, _)) ↦
            rw (o, add_by_signs)
              (finish-Succeeds false _ (subtract_abs-Succeeds result a b w c va vb u))
        | inr (inr (o, _)) ↦
            rw (o, add_by_signs)
              (finish-Succeeds false _ (subtract_abs-Succeeds result a b w c va vb u))
      ]

  -- Without a budget and with memory to be had, `bigint_add` of two valid objects below the bound on
  -- limbs returns BIGINT_OK and leaves their sum in canonical form.
  pub add_total :
      (is_ok (add result a b w).status ≡ true)
      × Represents (to_ℤ a +ℤ to_ℤ b) (add result a b w).object
  unfolding add
  add_total =
      let done = add_by_signs-Succeeds a.is_negative b.is_negative in
      (done.succeeded, (add-Computes result a b w c va vb).success done.succeeded)
