-- ===== src/BigInt/Magnitude/Add/Words.antt =====
-- The carry chains leave words, and a sum of canonical magnitudes is canonical as it stands.
use num_forge.Base.{
  ℕ, zero, suc, ◌+◌, ◌<◌, ◌≤◌, ◌≡◌, refl, List, [], ◌∷◌, arith, IsLimb, All, length, max,
}
use num_forge.BigInt.Magnitude.Value.{
  value, IsTrimmed, IsTrimmed-cons, IsTrimmed-tail, value_pos, IsMagnitude,
}
use num_forge.BigInt.Magnitude.Add.{
  limb, rest, add_with_carry, add_loop, add_limbs, sub_loop, sub_limbs,
}
use num_forge.BigInt.Magnitude.Add.Sums.{rest-IsLimb, value-add_loop, length-rest_eq}

add_loop-words : (n : ℕ) (a b : List ℕ) (carry : ℕ) → carry ≤ 1 → All IsLimb (add_loop n a b carry)
unfolding add_loop
add_loop-words zero a b zero c = tt
add_loop-words zero a b (suc k) c = ground arith
add_loop-words (suc n) a b carry c =
    (omega arith, add_loop-words n (rest a) (rest b) _ (ground arith))

pub add_limbs-words : (a b : List ℕ) → All IsLimb (add_limbs a b)
unfolding add_limbs
add_limbs-words a b = add_loop-words _ a b 0 (omega arith)

pub sub_loop-words : (a b : List ℕ) (borrow : ℕ) → All IsLimb (sub_loop a b borrow)
unfolding sub_loop
sub_loop-words [] b borrow = tt
sub_loop-words (x ∷ a) b borrow = (omega arith, sub_loop-words a (rest b) _)

pub sub_limbs-words : (a b : List ℕ) → All IsLimb (sub_limbs a b)
unfolding sub_limbs
sub_limbs-words a b = sub_loop-words a b 0

length-sub_loop : (a b : List ℕ) (borrow : ℕ) → length (sub_loop a b borrow) ≡ length a
unfolding sub_loop
length-sub_loop [] b borrow = refl
length-sub_loop (x ∷ a) b borrow = omega (arith, length-sub_loop a (rest b) _)

pub length-sub_limbs : (a b : List ℕ) → length (sub_limbs a b) ≡ length a
unfolding sub_limbs
length-sub_limbs a b = length-sub_loop a b 0

length-add_loop : (n : ℕ) (a b : List ℕ) (carry : ℕ) → length (add_loop n a b carry) ≤ n + 1
unfolding add_loop
length-add_loop zero a b carry = ground arith
length-add_loop (suc n) a b carry = omega (arith, length-add_loop n (rest a) (rest b) _)

pub length-add_limbs : (a b : List ℕ) → length (add_limbs a b) ≤ max (length a) (length b) + 1
unfolding add_limbs
length-add_limbs a b = length-add_loop _ a b 0

rest-IsTrimmed : (xs : List ℕ) → IsTrimmed xs → IsTrimmed (rest xs)
rest-IsTrimmed [] h = tt
rest-IsTrimmed (x ∷ xs) h = IsTrimmed-tail x xs h

value_pos_of_max :
    (a b : List ℕ) (n : ℕ)
    → IsTrimmed a
    → IsTrimmed b
    → max (length a) (length b) ≡ suc n
    → 0 < value a + value b
value_pos_of_max (x ∷ a) b n ta tb l = omega (arith, value_pos x a ta)
value_pos_of_max [] (y ∷ b) n ta tb l = omega (arith, value_pos y b tb)
value_pos_of_max [] [] n ta tb l = absurd (omega (arith, l))

add_loop-IsTrimmed :
    (n : ℕ) (a b : List ℕ) (carry : ℕ)
    → IsMagnitude a
    → IsMagnitude b
    → max (length a) (length b) ≡ n
    → carry ≤ 1
    → IsTrimmed (add_loop n a b carry)
unfolding add_loop
add_loop-IsTrimmed zero a b zero ma mb l c = tt
add_loop-IsTrimmed zero a b (suc k) ma mb l c = ground arith
add_loop-IsTrimmed (suc n) a b carry ma mb l c =
    let (s, c') = add_with_carry (limb a) (limb b) carry in
    let above : IsTrimmed (add_loop n (rest a) (rest b) c') =
      add_loop-IsTrimmed n (rest a) (rest b) c'
        (record { words = rest-IsLimb a ma.words; trimmed = rest-IsTrimmed a ma.trimmed })
        (record { words = rest-IsLimb b mb.words; trimmed = rest-IsTrimmed b mb.trimmed })
        (omega (arith, l, length-rest_eq a, length-rest_eq b)) (ground arith) in
    IsTrimmed-cons s (add_loop n (rest a) (rest b) c') above (
      omega (
        arith,
        value-add_loop (suc n) a b carry ma.words mb.words (omega (arith, l)) (omega (arith, l)) c,
        value_pos_of_max a b n ma.trimmed mb.trimmed l,
      ))

-- No limb of a sum of canonical magnitudes has to be trimmed.
pub add_limbs-IsMagnitude :
    (a b : List ℕ) → IsMagnitude a → IsMagnitude b → IsMagnitude (add_limbs a b)
unfolding add_limbs
add_limbs-IsMagnitude a b ma mb = record {
  words = add_limbs-words a b;
  trimmed = add_loop-IsTrimmed _ a b 0 ma mb refl (omega arith);
}
