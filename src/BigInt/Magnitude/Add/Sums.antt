-- ===== src/BigInt/Magnitude/Add/Sums.antt =====
-- The carry chains compute sums.
use num_forge.Base.{
  ℕ, zero, suc, ◌+◌, ◌-◌, ◌*◌, ◌<◌, ◌≤◌, ◌≡◌, refl, List, [], ◌∷◌, arith, radix, IsLimb, All,
  length, max,
}
use num_forge.BigInt.Magnitude.Value.{value}
use num_forge.BigInt.Magnitude.Add.{limb, rest, add_with_carry, add_loop, add_limbs}

pub limb-IsLimb : (xs : List ℕ) → All IsLimb xs → limb xs < radix
limb-IsLimb [] h = omega arith
limb-IsLimb (x ∷ xs) h = h.0

pub rest-IsLimb : (xs : List ℕ) → All IsLimb xs → All IsLimb (rest xs)
rest-IsLimb [] h = tt
rest-IsLimb (x ∷ xs) h = h.1

pub value-rest : (xs : List ℕ) → value xs ≡ limb xs + radix * value (rest xs)
value-rest [] = refl
value-rest (x ∷ xs) = refl

pub length-rest : (xs : List ℕ) (n : ℕ) → length xs ≤ suc n → length (rest xs) ≤ n
length-rest [] n h = omega arith
length-rest (x ∷ xs) n h = omega arith

pub length-rest_eq : (xs : List ℕ) → length (rest xs) ≡ length xs - 1
length-rest_eq [] = refl
length-rest_eq (x ∷ xs) = omega arith

pub add_with_carry_lem :
    (x y carry : ℕ)
    → x < radix
    → y < radix
    → carry ≤ 1
    → ((add_with_carry x y carry).0 + radix * (add_with_carry x y carry).1 ≡ x + y + carry)
      × ((add_with_carry x y carry).0 < radix)
      × ((add_with_carry x y carry).1 ≤ 1)
add_with_carry_lem x y carry p q c = ground arith

pub value-add_loop :
    (n : ℕ) (a b : List ℕ) (carry : ℕ)
    → All IsLimb a
    → All IsLimb b
    → length a ≤ n
    → length b ≤ n
    → carry ≤ 1
    → value (add_loop n a b carry) ≡ value a + value b + carry
unfolding add_loop
value-add_loop zero [] [] zero wa wb la lb c = refl
value-add_loop zero [] [] (suc k) wa wb la lb c = ground arith
value-add_loop zero (x ∷ a) b carry wa wb la lb c = absurd (omega arith)
value-add_loop zero [] (y ∷ b) carry wa wb la lb c = absurd (omega arith)
value-add_loop (suc n) a b carry wa wb la lb c =
    let round =
      add_with_carry_lem (limb a) (limb b) carry (limb-IsLimb a wa) (limb-IsLimb b wb) c in
    omega (
      arith,
      round,
      value-rest a,
      value-rest b,
      value-add_loop n (rest a) (rest b) _ (rest-IsLimb a wa) (rest-IsLimb b wb)
          (length-rest a n la) (length-rest b n lb) round.2,
    )

-- The sum of the magnitudes.
pub value-add_limbs :
    (a b : List ℕ) → All IsLimb a → All IsLimb b → value (add_limbs a b) ≡ value a + value b
unfolding add_limbs
value-add_limbs a b wa wb = omega (
  arith,
  value-add_loop (max (length a) (length b)) a b 0 wa wb (omega arith) (omega arith) (omega arith),
)
