-- ===== src/BigRational.antt =====
-- src/core/bigrational/bigrational.c. Each operation builds a temporary and gives its two integers to the
-- destination at the end, so `result` may be an operand. The objects it creates on the way are freed on
-- every path.
pub mod Types
pub mod Contract
pub mod Create
pub mod Fractions
pub mod Reduction
pub mod Operations
pub mod Steps
pub mod Sums
pub mod Writing
pub mod Canonical
pub mod Copies
pub mod Order
pub mod Products
use Prim.Native.Nat.{Ordering}
use num_forge.Base.{
  ℕ, zero, suc, ◌+◌, ◌-◌, Bool, true, false, ◌&&◌, ◌||◌, not, Option, none, some, List, [], ◌∷◌,
  ◌++◌, length, if◌then◌else◌, ltb, size_max,
}
use num_forge.Runtime.Budget.{World, alloc}
use num_forge.BigInt.Types as Integer
use num_forge.BigInt.Types.{BigInt, Out, empty}
use num_forge.BigInt.Storage
use num_forge.BigInt.Comparison
use num_forge.BigInt.Comparison.{is_zero, is_one, is_negative}
use num_forge.BigInt.Arithmetic
use num_forge.BigInt.Quotient
use num_forge.BigInt.Multiplication.{Karatsuba}
use num_forge.BigInt.Multiplication
use num_forge.BigInt.NumberTheory.{gcd}
use num_forge.BigInt.Text
use num_forge.BigRational.Types.{
  Status, ok, out_of_memory, division_by_zero, value_too_large, BigRational, Result, gives, step,
  created,
}

abbrev pub is_some : {A : Type 0} → Option A → Bool
is_some none = false
is_some (some a) = true

-- The calls of `bigint_create` at the head of an operation: all of them are made, and then the results
-- are compared with NULL.
unfoldable pub create_all : ℕ → World → Bool × World
create_all zero w = (true, w)
create_all (suc n) w =
    let (object, w1) = Storage.create w in
    let (others, w2) = create_all n w1 in (is_some object && others, w2)

-- The rest of a call if the pointer is not NULL.
unfoldable pub obtained : {A B : Type 0} → Option A × World → B → (A → World → Result B) → Result B
obtained (none, w) lost next = gives out_of_memory lost w
obtained (some a, w) lost next = next a w

-- The text "1".
abbrev pub one_text : List ℕ
one_text = 49 ∷ []

unfoldable pub create : World → Option BigRational × World
create w =
    let (room, w1) = alloc 16 w in
    let one = Text.set_string empty one_text (create_all 2 w1).1 in
    if not room
    then (none, w1)
    else if (create_all 2 w1).0
    then (
      if Integer.is_ok one.status
          then some (record { numerator = empty; denominator = one.object })
          else none,
      one.world,
    )
    else (none, (create_all 2 w1).1)

-- `rational_commit`: the two objects exchange their integers, and the temporary is destroyed.
abbrev pub commit : BigRational → BigRational → World → Result BigRational
commit destination temporary w = gives ok temporary w

-- `same` says that `result` and `value` are one object.
unfoldable pub copy : Bool → BigRational → BigRational → World → Result BigRational
copy same result value w =
    if same
    then gives ok result w
    else obtained (create w) result λ temporary w1.
      step (Storage.copy temporary.numerator value.numerator w1) result λ numerator w2.
        step (Storage.copy temporary.denominator value.denominator w2) result λ denominator w3.
          commit result (record { numerator = numerator; denominator = denominator }) w3

-- The end of `bigrational_set_fraction`: the denominator becomes positive.
unfoldable pub orient : BigRational → BigInt → BigInt → World → Result BigRational
orient result top bottom w =
    if not (is_negative bottom)
    then commit result (record { numerator = top; denominator = bottom }) w
    else step (Arithmetic.negate top top w) result λ opposite w1.
      step (Arithmetic.abs bottom bottom w1) result
        λ absolute w2. commit result (record { numerator = opposite; denominator = absolute }) w2

-- Its middle: both integers are divided by `factor`, unless the numerator is 0.
unfoldable pub divide_out :
    BigRational → BigInt → BigInt → BigRational → BigInt → World → Result BigRational
unfolding orient
divide_out result numerator denominator temporary factor w =
    if is_zero numerator
    then commit result temporary w
    else step (Quotient.div temporary.numerator numerator factor w) result λ top w1.
      step (Quotient.div temporary.denominator denominator factor w1) result
        λ bottom w2. orient result top bottom w2

unfoldable pub set_fraction : BigRational → BigInt → BigInt → World → Result BigRational
unfolding divide_out
set_fraction result numerator denominator w =
    if is_zero denominator
    then gives division_by_zero result w
    else let (pointer, w1) = create w in
      let object = Storage.create w1 in
      obtained (pointer, object.1) result
        λ temporary w2. obtained object result λ factor w3.
          step (gcd factor numerator denominator w3) result
            λ factor w4. divide_out result numerator denominator temporary factor w4

unfoldable pub from_bigint : BigRational → BigInt → World → Result BigRational
from_bigint result value w = obtained (create w) result λ temporary w1.
    step (Storage.copy temporary.numerator value w1) result
      λ numerator w2. commit result (record temporary { numerator = numerator }) w2

unfoldable pub get_numerator : BigInt → BigRational → World → Result BigInt
get_numerator result value w = step (Storage.copy result value.numerator w) result (gives ok)

unfoldable pub get_denominator : BigInt → BigRational → World → Result BigInt
get_denominator result value w = step (Storage.copy result value.denominator w) result (gives ok)

-- The rest of a call after `bigint_to_string`, whose NULL is any status but BIGINT_OK.
unfoldable pub printed : {A B : Type 0} → Out A → B → (A → World → Result B) → Result B
printed m lost next =
    if Integer.is_ok m.status then next m.object m.world else gives out_of_memory lost m.world

-- The text of the first integer, and of a '/' and the second one unless that is 1. `before` stood in
-- `*result`.
unfoldable pub to_string : List ℕ → BigRational → World → Result (List ℕ)
to_string before value w = printed (Text.to_string value.numerator w) before λ top w1.
    if is_one value.denominator
    then (if ltb (size_max - 2) (length top)
        then gives value_too_large before w1
        else created (alloc (length top + 1) w1) before (λ w2. gives ok top w2))
    else printed (Text.to_string value.denominator w1) before λ bottom w2.
      if ltb (size_max - 2) (length bottom) || ltb (size_max - length bottom - 2) (length top)
      then gives value_too_large before w2
      else created (alloc (length top + length bottom + 2) w2) before
          λ w3. gives ok (top ++ 47 ∷ bottom) w3
