-- ===== src/BigInt/Arithmetic/ByWord.antt =====
-- Adding a word to a magnitude in place.
use num_forge.Base.{
  ℕ, zero, suc, ◌+◌, ◌<◌, ◌≤◌, ◌≡◌, refl, Bool, true, List, [], ◌∷◌, arith, radix, IsLimb, All,
  length, take, ltb, leb, u64, ◌==◌, Bool-cases, inl, inr, ap, ==→eq,
}
use num_forge.Runtime.Budget.{World}
use num_forge.BigInt.Types.{BigInt, Holds, is_ok, max_limbs}
use num_forge.BigInt.Contract.{IfOk-on_ok}
use num_forge.BigInt.Storage.{ensure_capacity}
use num_forge.BigInt.Storage.Sizes.{size_add_fits}
use num_forge.BigInt.Storage.Growth.{ensure_capacity-Ensured}
use num_forge.BigInt.Magnitude.Value.{value, IsTrimmed, IsTrimmed-cons, IsTrimmed-tail}
use num_forge.BigInt.Magnitude.Add.{increment_loop, add_word}
use num_forge.BigInt.Magnitude.Add.Word.{value-add_word, add_word-words, value-increment_loop}
use num_forge.BigInt.Arithmetic.{add_uint64}

take_all : (n : ℕ) (xs : List ℕ) → length xs ≤ n → take n xs ≡ xs
take_all zero [] h = refl
take_all zero (x ∷ xs) h = absurd (omega arith)
take_all (suc n) [] h = refl
take_all (suc n) (x ∷ xs) h = ap (λ ys. x ∷ ys) (take_all n xs (omega arith))

increment_loop-IsTrimmed :
    (xs : List ℕ) → All IsLimb xs → IsTrimmed xs → IsTrimmed (increment_loop xs)
unfolding increment_loop
increment_loop-IsTrimmed [] w t = omega arith
increment_loop-IsTrimmed (x ∷ xs) w t = elim (Bool-cases (ltb (u64 (x + 1)) x)) [
  | inl wraps ↦ rw wraps (
      IsTrimmed-cons (u64 (x + 1)) (increment_loop xs)
        (increment_loop-IsTrimmed xs w.1 (IsTrimmed-tail x xs t))
        (omega (arith, value-increment_loop xs w.1)))
  | inr stays ↦
      rw stays
        (IsTrimmed-cons (u64 (x + 1)) xs (IsTrimmed-tail x xs t) (ground (arith, stays, w.0)))
]

add_word-IsTrimmed :
    (xs : List ℕ) (amount : ℕ)
    → All IsLimb xs
    → amount < radix
    → IsTrimmed xs
    → IsTrimmed (add_word xs amount)
unfolding add_word
add_word-IsTrimmed [] amount w h t = elim (Bool-cases (amount == 0)) [
  | inl none_left ↦ rw none_left tt
  | inr some_left ↦ rw some_left (ground (arith, some_left))
]
add_word-IsTrimmed (x ∷ xs) amount w h t = elim (Bool-cases (amount == 0)) [
  | inl none_left ↦ rw none_left t
  | inr some_left ↦ rw some_left (elim (Bool-cases (ltb (u64 (x + amount)) x)) [
    | inl wraps ↦ rw wraps (
        IsTrimmed-cons (u64 (x + amount)) (increment_loop xs)
          (increment_loop-IsTrimmed xs w.1 (IsTrimmed-tail x xs t))
          (omega (arith, value-increment_loop xs w.1)))
    | inr stays ↦ rw stays (
        IsTrimmed-cons (u64 (x + amount)) xs (IsTrimmed-tail x xs t)
          (ground (arith, stays, some_left, w.0)))
  ])
]

length-increment_loop : (xs : List ℕ) → length (increment_loop xs) ≤ length xs + 1
unfolding increment_loop
length-increment_loop [] = omega arith
length-increment_loop (x ∷ xs) = ground (arith, length-increment_loop xs)

length-add_word : (xs : List ℕ) (amount : ℕ) → length (add_word xs amount) ≤ length xs + 1
unfolding add_word
length-add_word [] amount = ground arith
length-add_word (x ∷ xs) amount = ground (arith, length-increment_loop xs)

add_word_zero : (xs : List ℕ) → add_word xs 0 ≡ xs
unfolding add_word
add_word_zero [] = refl
add_word_zero (x ∷ xs) = refl

module _ (b : BigInt) (amount : ℕ) (w : World) (v : Holds (value b.limbs) b)
    (h : amount < radix) where
  summed-Holds :
      (capacity : ℕ) (s : Bool)
      → length (add_word b.limbs amount) ≤ capacity
      → capacity ≤ max_limbs
      → Holds
          (value b.limbs + amount)
          (record { limbs = add_word b.limbs amount; capacity = capacity; is_negative = s })
  summed-Holds capacity s room bound = record {
    magnitude = record {
      words = add_word-words b.limbs amount v.magnitude.words h;
      trimmed = add_word-IsTrimmed b.limbs amount v.magnitude.words h v.magnitude.trimmed;
    };
    number = value-add_word b.limbs amount v.magnitude.words h;
    fits = room;
    bounded = bound;
  }

  unchanged-Holds : Holds (value b.limbs + 0) b
  unchanged-Holds = record {
    magnitude = v.magnitude;
    number = omega arith;
    fits = v.fits;
    bounded = v.bounded;
  }

  -- If `bigint_add_uint64` of an object with a canonical magnitude and a word returns BIGINT_OK, it leaves
  -- the sum of the magnitude and the word, canonical and within the buffer.
  pub add_uint64-Holds :
      is_ok (add_uint64 b amount w).status ≡ true
      → Holds (value b.limbs + amount) (add_uint64 b amount w).object
  unfolding add_uint64
  add_uint64-Holds =
      let wrapped = record b { limbs = take (length b.limbs) (add_word b.limbs amount) } in
      let grown = ensure_capacity wrapped (length b.limbs + 1) w in
      let room = ensure_capacity-Ensured wrapped (length b.limbs + 1) w v.bounded in
      elim (Bool-cases (amount == 0)) [
        | inl none_left ↦ rw (none_left, ==→eq amount 0 none_left) (λ p. unchanged-Holds)
        | inr some_left ↦
            rw some_left
              (elim (Bool-cases (leb (length (add_word b.limbs amount)) (length b.limbs))) [
                | inl inside ↦
                    let same =
                      take_all (length b.limbs) (add_word b.limbs amount)
                        (ground (arith, inside)) in
                    rw (inside, same)
                      (λ p.
                        summed-Holds b.capacity b.is_negative (ground (arith, inside, v.fits))
                          v.bounded)
                | inr beyond ↦
                    rw (beyond, size_add_fits (length b.limbs) 1 (omega (arith, v)))
                      (IfOk-on_ok (Holds (value b.limbs + amount)) grown _ _ (λ e p.
                        summed-Holds grown.object.capacity grown.object.is_negative
                          (omega (arith, room.room e, length-add_word b.limbs amount))
                          room.bounded))
              ])
      ]
