-- ===== src/BigInt/Magnitude/Add/Word.antt =====
-- `bigint_add_uint64` adds a word to a magnitude.
use num_forge.Base.{ℕ, ◌+◌, ◌<◌, ◌≡◌, refl, List, [], ◌∷◌, arith, radix, IsLimb, All}
use num_forge.BigInt.Magnitude.Value.{value}
use num_forge.BigInt.Magnitude.Add.{increment_loop, add_word}

pub value-increment_loop : (xs : List ℕ) → All IsLimb xs → value (increment_loop xs) ≡ value xs + 1
unfolding increment_loop
value-increment_loop [] w = refl
value-increment_loop (x ∷ xs) w = ground (arith, w.0, value-increment_loop xs w.1)

increment_loop-words : (xs : List ℕ) → All IsLimb xs → All IsLimb (increment_loop xs)
unfolding increment_loop
increment_loop-words [] w = omega arith
increment_loop-words (x ∷ xs) w = ground (arith, w, increment_loop-words xs w.1)

-- The number grows by the word.
pub value-add_word :
    (xs : List ℕ) (amount : ℕ)
    → All IsLimb xs
    → amount < radix
    → value (add_word xs amount) ≡ value xs + amount
unfolding add_word
value-add_word [] amount w h = ground arith
value-add_word (x ∷ xs) amount w h = ground (arith, w.0, value-increment_loop xs w.1)

pub add_word-words :
    (xs : List ℕ) (amount : ℕ) → All IsLimb xs → amount < radix → All IsLimb (add_word xs amount)
unfolding add_word
add_word-words [] amount w h = ground arith
add_word-words (x ∷ xs) amount w h = ground (arith, w, increment_loop-words xs w.1)
