-- ===== src/BigInt/Magnitude/Multiply/School.antt =====
-- The schoolbook loops compute the product of two magnitudes.
use num_forge.Base.{
  ℕ, zero, suc, ◌+◌, ◌*◌, ◌<◌, ◌≤◌, ◌≡◌, refl, List, [], ◌∷◌, arith, radix, IsLimb, All, length,
  drop, replicate, true, Bool-cases, inl, inr, length-replicate,
}
use num_forge.Runtime.Budget.{World, budget_check}
use num_forge.BigInt.Types.{is_ok}
use num_forge.BigInt.Magnitude.Value.{value, value-replicate_zero}
use num_forge.BigInt.Magnitude.Add.{rest}
use num_forge.BigInt.Magnitude.Add.Sums.{value-rest, rest-IsLimb, limb-IsLimb, length-rest_eq}
use num_forge.BigInt.Magnitude.Multiply.{accumulate_word, row, rows}
use num_forge.BigInt.Magnitude.Multiply.WordProduct.{accumulate_word_lem}

-- One row adds a multiple of `a` to a buffer that is zero from index `a->size` on.
value-row :
    (a : List ℕ) (y : ℕ) (product : List ℕ) (carry : ℕ)
    → All IsLimb a
    → y < radix
    → All IsLimb product
    → carry < radix
    → length a < length product
    → value (drop (length a) product) ≡ 0
    → value (row a y product carry) ≡ value product + value a * y + carry
unfolding row
value-row a y [] carry wa q wp r l z = elim l [ ]
value-row [] y (p ∷ product) carry wa q wp r l z = omega arith
value-row (x ∷ a) y (p ∷ product) carry wa q wp r l z =
    let round = accumulate_word_lem x y p carry wa.0 q wp.0 r in
    omega (
      arith,
      round,
      value-row a y product (accumulate_word x y p carry).1 wa.1 q wp.1 round.2 (omega arith) z,
    )

row-words :
    (a : List ℕ) (y : ℕ) (product : List ℕ) (carry : ℕ)
    → All IsLimb a
    → y < radix
    → All IsLimb product
    → carry < radix
    → All IsLimb (row a y product carry)
unfolding row
row-words a y [] carry wa q wp r = tt
row-words [] y (p ∷ product) carry wa q wp r = (r, wp.1)
row-words (x ∷ a) y (p ∷ product) carry wa q wp r =
    let round = accumulate_word_lem x y p carry wa.0 q wp.0 r in
    (round.1, row-words a y product (accumulate_word x y p carry).1 wa.1 q wp.1 round.2)

length-row :
    (a : List ℕ) (y : ℕ) (product : List ℕ) (carry : ℕ)
    → length (row a y product carry) ≡ length product
unfolding row
length-row a y [] carry = refl
length-row [] y (p ∷ product) carry = refl
length-row (x ∷ a) y (p ∷ product) carry = omega (arith, length-row a y product _)

-- A row leaves alone what lies above its last carry.
drop-row :
    (a : List ℕ) (y : ℕ) (product : List ℕ) (carry : ℕ)
    → drop (suc (length a)) (row a y product carry) ≡ drop (suc (length a)) product
unfolding row
drop-row a y [] carry = refl
drop-row [] y (p ∷ product) carry = refl
drop-row (x ∷ a) y (p ∷ product) carry = drop-row a y product _

drop-rest : (n : ℕ) (xs : List ℕ) → drop n (rest xs) ≡ drop (suc n) xs
drop-rest zero [] = refl
drop-rest (suc n) [] = refl
drop-rest n (x ∷ xs) = refl

value-drop-suc : (n : ℕ) (xs : List ℕ) → value (drop n xs) ≡ 0 → value (drop (suc n) xs) ≡ 0
value-drop-suc zero [] h = refl
value-drop-suc zero (x ∷ xs) h = omega (arith, h)
value-drop-suc (suc n) [] h = refl
value-drop-suc (suc n) (x ∷ xs) h = value-drop-suc n xs h

-- What is left of the buffer is the product, if no row was refused.
pub record Multiplied (a b product result : List ℕ) : Type 0 where
  pub total : value result ≡ value product + value a * value b
  pub words : All IsLimb result
  pub same_length : length result ≡ length product

pub rows-Multiplied :
    (a b product : List ℕ) (w : World)
    → All IsLimb a
    → All IsLimb b
    → All IsLimb product
    → length a + length b ≤ length product
    → value (drop (length a) product) ≡ 0
    → is_ok (rows a b product w).status ≡ true
    → Multiplied a b product (rows a b product w).object
unfolding rows
rows-Multiplied a [] product w wa wb wp l z h = record {
  total = omega arith;
  words = wp;
  same_length = refl;
}
rows-Multiplied a (y ∷ b) product w wa wb wp l z h = elim (Bool-cases (budget_check w).0) [
  | inr stopped ↦ cc (rw stopped at h)
  | inl running ↦
      let r = row a y product 0 in
      let left : value (drop (length a) (rest r)) ≡ 0 =
        rw (drop-rest (length a) r, drop-row a y product 0) (value-drop-suc (length a) product z) in
      let wr = row-words a y product 0 wa wb.0 wp (omega arith) in
      let above =
        rows-Multiplied a b (rest r) (budget_check w).1 wa wb.1 (rest-IsLimb r wr)
          (omega (arith, l, length-rest_eq r, length-row a y product 0)) left (rw running at h) in
      rw running (record {
        total = omega (
          arith,
          above.total,
          value-rest r,
          value-row a y product 0 wa wb.0 wp (omega arith) (omega arith) z,
        );
        words = (limb-IsLimb r wr, above.words);
        same_length =
            omega (arith, above.same_length, length-rest_eq r, length-row a y product 0, l);
      })
]

value-drop-replicate : (n m : ℕ) → value (drop n (replicate m 0)) ≡ 0
value-drop-replicate zero m = value-replicate_zero m
value-drop-replicate (suc n) zero = refl
value-drop-replicate (suc n) (suc m) = value-drop-replicate n m

replicate-words : (n : ℕ) → All IsLimb (replicate n 0)
replicate-words zero = tt
replicate-words (suc n) = (omega arith, replicate-words n)

-- On the zeroed buffer of `bigint_mul` the loops leave the product.
pub rows_product :
    (a b : List ℕ) (w : World)
    → All IsLimb a
    → All IsLimb b
    → is_ok (rows a b (replicate (length a + length b) 0) w).status ≡ true
    → Multiplied a b
        (replicate (length a + length b) 0)
        (rows a b (replicate (length a + length b) 0) w).object
rows_product a b w wa wb h =
    rows-Multiplied a b _ w wa wb (replicate-words _)
      (omega (arith, length-replicate {A = ℕ} (length a + length b) 0))
      (value-drop-replicate (length a) _) h
