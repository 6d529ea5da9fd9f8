-- ===== src/BigInt/Bitwise.antt =====
-- src/core/bigint/bitwise.c: `&`, `|`, `^` of non-negative integers, `~`, and the shifts.
pub mod Complement
pub mod Logic
pub mod Powers
pub mod Scaling
pub mod Shifts
use num_forge.Base.{
  ℕ, zero, suc, ◌+◌, ◌-◌, ◌*◌, ◌/◌, ◌%◌, Bool, true, false, ◌&&◌, ◌||◌, Option, none, some, List,
  [], ◌∷◌, ◌++◌, length, drop, replicate, if◌then◌else◌, ltb, leb, ◌==◌, max, min, bit_and, bit_or,
  bit_xor, ◌<<<◌, ◌>>>◌,
}
use num_forge.Runtime.Budget.{World, alloc, calloc}
use num_forge.BigInt.Types.{
  BigInt, Status, ok, out_of_memory, negative_argument, value_too_large, Out, returns, on_ok,
  checked, max_limbs, empty,
}
use num_forge.BigInt.Storage.{size_add, size_mul, normalize, copy, is_empty}
use num_forge.BigInt.Storage.Normal.{zeroed}
use num_forge.BigInt.Magnitude.Add.{limb, rest}
use num_forge.BigInt.Arithmetic.{add, negate}

pub data Operation : Type 0 where
  conjunction disjunction exclusion : Operation

-- The operator between two limbs.
abbrev pub on_words : Operation → ℕ → ℕ → ℕ
on_words conjunction = bit_and
on_words disjunction = bit_or
on_words exclusion = bit_xor

-- `for (i = 0; i < size; ++i)` from index `i` on; a limb past the end of an operand reads as 0.
unfoldable pub zip_limbs : (ℕ → ℕ → ℕ) → ℕ → List ℕ → List ℕ → List ℕ
zip_limbs op zero a b = []
zip_limbs op (suc n) a b = op (limb a) (limb b) ∷ zip_limbs op n (rest a) (rest b)

abbrev pub result_size : Operation → ℕ → ℕ → ℕ
result_size conjunction m n = min m n
result_size disjunction m n = max m n
result_size exclusion m n = max m n

-- The allocation of `size` limbs, which is left out for a size of 0.
unfoldable pub alloc_limbs : ℕ → World → Bool × World
alloc_limbs size w = elim (size_mul size 8) [
  | none ↦ (false, w)
  | some bytes ↦ if size == 0 then (true, w) else alloc bytes w
]

unfoldable pub bitwise : Operation → BigInt → BigInt → BigInt → World → Out BigInt
unfolding zip_limbs
bitwise operation result a b w =
    let size = result_size operation (length a.limbs) (length b.limbs) in
    if a.is_negative || b.is_negative
    then returns negative_argument result w
    else checked (alloc_limbs size w) result λ w'.
      returns ok
        (normalize (record {
          limbs = zip_limbs (on_words operation) size a.limbs b.limbs;
          capacity = size;
          is_negative = false;
        }))
        w'

abbrev pub bitwise_and : BigInt → BigInt → BigInt → World → Out BigInt
bitwise_and = bitwise conjunction

abbrev pub bitwise_or : BigInt → BigInt → BigInt → World → Out BigInt
bitwise_or = bitwise disjunction

abbrev pub bitwise_xor : BigInt → BigInt → BigInt → World → Out BigInt
bitwise_xor = bitwise exclusion

-- `bigint_wrap_uint64`, an object around one word.
unfoldable pub wrap_uint64 : ℕ → BigInt
wrap_uint64 word = record {
  limbs = if word == 0 then [] else (word ∷ []);
  capacity = 1;
  is_negative = false;
}

-- `bigint_not`, with the wrapped word 1.
unfoldable pub bit_not : BigInt → BigInt → World → Out BigInt
bit_not result a w =
    on_ok (add empty a (wrap_uint64 1) w) (λ _. result) λ sum w'. negate result sum w'

-- The limbs of the left shift above the limb shift: each takes the bits that the limb below pushed
-- out, `carry`, and the last one is stored above them.
unfoldable pub shift_left_loop : ℕ → List ℕ → ℕ → List ℕ
shift_left_loop bit_shift [] carry = carry ∷ []
shift_left_loop bit_shift (x ∷ xs) carry =
    bit_or carry (x <<< bit_shift) ∷ shift_left_loop bit_shift xs (x >>> (64 - bit_shift))

unfoldable pub shift_left_limbs : ℕ → ℕ → List ℕ → List ℕ
unfolding shift_left_loop
shift_left_limbs limb_shift bit_shift xs =
    replicate limb_shift 0
    ++ (if bit_shift == 0 then xs ++ 0 ∷ [] else shift_left_loop bit_shift xs 0)

-- `bigint_shift_left`.
unfoldable pub shift_left : BigInt → BigInt → ℕ → World → Out BigInt
shift_left result a n w =
    if is_empty a.limbs || n == 0
    then copy result a w
    else let limb_shift = n / 64 in
      elim (size_add (length a.limbs) limb_shift) [
        | none ↦ returns value_too_large result w
        | some shifted ↦ elim (size_add shifted 1) [
          | none ↦ returns value_too_large result w
          | some new_size ↦
              if ltb max_limbs new_size
              then returns value_too_large result w
              else elim (size_mul new_size 8) [
                | none ↦ returns value_too_large result w
                | some bytes ↦ checked (calloc new_size 8 w) result λ w'.
                    returns ok
                      (normalize (record {
                        limbs = shift_left_limbs limb_shift (n % 64) a.limbs;
                        capacity = new_size;
                        is_negative = a.is_negative;
                      }))
                      w'
              ]
        ]
      ]

-- The limbs of the right shift: each takes the bits that fall out of the limb above.
unfoldable pub shift_right_loop : ℕ → List ℕ → List ℕ
shift_right_loop bit_shift [] = []
shift_right_loop bit_shift (x ∷ []) = (x >>> bit_shift) ∷ []
shift_right_loop bit_shift (x ∷ y ∷ xs) =
    bit_or (x >>> bit_shift) (y <<< (64 - bit_shift)) ∷ shift_right_loop bit_shift (y ∷ xs)

unfoldable pub shift_right_limbs : ℕ → List ℕ → List ℕ
unfolding shift_right_loop
shift_right_limbs bit_shift xs = if bit_shift == 0 then xs else shift_right_loop bit_shift xs

-- `bigint_shift_right`.
unfoldable pub shift_right : BigInt → BigInt → ℕ → World → Out BigInt
shift_right result a n w =
    if is_empty a.limbs || n == 0
    then copy result a w
    else if leb (length a.limbs) (n / 64)
    then returns ok (zeroed result) w
    else let new_size = length a.limbs - n / 64 in
      checked (alloc_limbs new_size w) result λ w'.
        returns ok
          (normalize (record {
            limbs = shift_right_limbs (n % 64) (drop (n / 64) a.limbs);
            capacity = new_size;
            is_negative = a.is_negative;
          }))
          w'
