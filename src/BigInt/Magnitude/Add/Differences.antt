-- ===== src/BigInt/Magnitude/Add/Differences.antt =====
-- The borrow chain computes a difference.
use num_forge.Base.{ℕ, ◌+◌, ◌*◌, ◌<◌, ◌≤◌, ◌≡◌, List, [], ◌∷◌, arith, radix, IsLimb, All, length}
use num_forge.BigInt.Magnitude.Value.{value}
use num_forge.BigInt.Magnitude.Add.{limb, rest, sub_with_borrow, sub_loop, sub_limbs}
use num_forge.BigInt.Magnitude.Add.Sums.{limb-IsLimb, rest-IsLimb, value-rest, length-rest}

sub_with_borrow_lem :
    (x y borrow : ℕ)
    → x < radix
    → y < radix
    → borrow ≤ 1
    → ((sub_with_borrow x y borrow).0 + y + borrow ≡ x + radix * (sub_with_borrow x y borrow).1)
      × ((sub_with_borrow x y borrow).0 < radix)
      × ((sub_with_borrow x y borrow).1 ≤ 1)
sub_with_borrow_lem x y borrow p q c = ground arith

value-sub_loop :
    (a b : List ℕ) (borrow : ℕ)
    → All IsLimb a
    → All IsLimb b
    → length b ≤ length a
    → borrow ≤ 1
    → value b + borrow ≤ value a
    → value (sub_loop a b borrow) + value b + borrow ≡ value a
unfolding sub_loop
value-sub_loop [] [] borrow wa wb l c h = omega arith
value-sub_loop [] (y ∷ b) borrow wa wb l c h = absurd (omega arith)
value-sub_loop (x ∷ a) b borrow wa wb l c h =
    let round = sub_with_borrow_lem x (limb b) borrow wa.0 (limb-IsLimb b wb) c in
    omega (
      arith,
      round,
      value-rest b,
      value-sub_loop a (rest b) (sub_with_borrow x (limb b) borrow).1 wa.1 (rest-IsLimb b wb)
          (length-rest b (length a) l) round.2 (omega (arith, round, value-rest b)),
    )

-- The difference of the magnitudes, if the first is not the smaller one.
pub value-sub_limbs :
    (a b : List ℕ)
    → All IsLimb a
    → All IsLimb b
    → length b ≤ length a
    → value b ≤ value a
    → value (sub_limbs a b) + value b ≡ value a
unfolding sub_limbs
value-sub_limbs a b wa wb l h =
    omega (arith, value-sub_loop a b 0 wa wb l (omega arith) (omega arith))
