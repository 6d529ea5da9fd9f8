-- ===== src/BigDecimal/Operations.antt =====
-- `bigdecimal_create`, `bigdecimal_copy`, `bigdecimal_normalize` and `bigdecimal_finish` of
-- src/core/bigdecimal/bigdecimal.c, and src/core/bigdecimal/arithmetic.c.
use mathlib.Core.Option
use num_forge.Base.{◌+◌, ◌==◌, Bool, true, false, not, Option, none, some, if◌then◌else◌}
use num_forge.Base.Int.{ℤ, pos, pos_part, neg_part}
use num_forge.Runtime.Budget.{World, alloc}
use num_forge.BigInt.Types.{BigInt, empty}
use num_forge.BigInt.Storage
use num_forge.BigInt.Comparison.{is_zero}
use num_forge.BigInt.Arithmetic
use num_forge.BigInt.Multiplication.{Karatsuba}
use num_forge.BigInt.Multiplication
use num_forge.BigInt.Zeros.Contract.{InverseStripping}
use num_forge.BigInt.Zeros.{strip_decimal_zeros}
use num_forge.BigRational.{obtained}
use num_forge.BigRational.Types.{ok, invalid_argument, scale_overflow, Result, gives, step, after}
use num_forge.BigDecimal.Types.{BigDecimal}
use num_forge.BigDecimal.Scales.{less, i64_add, scale_difference, subtract_count}
use num_forge.BigDecimal.Powers.{multiply_power_of_ten}

abbrev pub zero_with : BigInt → BigDecimal
zero_with b = record { coefficient = b; scale = pos 0 }

unfoldable pub create : World → Option BigDecimal × World
create w =
    let (room, w1) = alloc 16 w in
    let object = Storage.create w1 in
    if not room then (none, w1) else (Option.map zero_with object.0, object.1)

-- `same` says that the destination and the source are one object.
unfoldable pub copy : Bool → BigDecimal → BigDecimal → World → Result BigDecimal
copy same destination source w =
    if same
    then gives ok destination w
    else obtained (create w) destination λ temporary w1.
      step (Storage.copy temporary.coefficient source.coefficient w1) destination
        λ c w2. gives ok (record { coefficient = c; scale = source.scale }) w2

unfoldable pub unary : Bool → BigDecimal → BigDecimal → World → Result BigDecimal
unary is_negation result value w = obtained (create w) result λ temporary w1.
    step
      (if is_negation
        then Arithmetic.negate temporary.coefficient value.coefficient w1
        else Arithmetic.abs temporary.coefficient value.coefficient w1)
      result λ c w2. gives ok (record { coefficient = c; scale = value.scale }) w2

abbrev pub abs : BigDecimal → BigDecimal → World → Result BigDecimal
abs = unary false

abbrev pub negate : BigDecimal → BigDecimal → World → Result BigDecimal
negate = unary true

abbrev pub same_scale : ℤ → ℤ → Bool
same_scale a b = pos_part a + neg_part b == pos_part b + neg_part a

unfoldable pub both_added : ℤ → ℤ → ℤ → Option ℤ
both_added a b c = elim (i64_add a b) [ none ↦ none | some s ↦ i64_add s c ]

-- The three orders in which `bigdecimal_mul` tries to add the scales.
unfoldable pub product_scale : ℤ → ℤ → ℤ → Option ℤ
product_scale a adjustment b = elim (both_added a adjustment b) [
  | some s ↦ some s
  | none ↦ elim (both_added b adjustment a) [ some s ↦ some s | none ↦ both_added a b adjustment ]
]

module _ (karatsuba : Karatsuba) (inverse : InverseStripping) where
  -- The zeros are stripped in place, so a call that fails may have changed the coefficient and the scale.
  unfoldable pub normalize : BigDecimal → World → Result BigDecimal
  normalize value w =
      let stripped = strip_decimal_zeros inverse value.coefficient w in
      if is_zero value.coefficient
      then gives ok (record value { scale = pos 0 }) w
      else step stripped (record value { coefficient = stripped.object.0 })
          λ r w1.
            let (fits, scale) = subtract_count 3 value.scale r.1 in
            gives (if fits then ok else scale_overflow)
              (record { coefficient = r.0; scale = scale }) w1

  unfoldable pub finish : BigDecimal → BigDecimal → World → Result BigDecimal
  finish destination temporary w = after (normalize temporary w) destination (gives ok)

  -- The coefficient of `d` at the scale of the sum.
  unfoldable pub align : ℤ → BigDecimal → World → Result BigInt
  align scale d w =
      if same_scale d.scale scale
      then gives ok d.coefficient w
      else obtained (Storage.create w) empty λ object w1. elim (scale_difference scale d.scale) [
        | none ↦ gives invalid_argument empty w1
        | some difference ↦
            after (multiply_power_of_ten karatsuba object d.coefficient difference w1) empty
              (gives ok)
      ]

  -- `is_a` and `is_b` say that the result is that operand's object.
  unfoldable pub add_or_subtract :
      Bool → Bool → Bool → BigDecimal → BigDecimal → BigDecimal → World → Result BigDecimal
  add_or_subtract is_difference is_a is_b result a b w =
      let scale = if less a.scale b.scale then b.scale else a.scale in
      if is_zero a.coefficient
      then if is_difference then negate result b w else copy is_b result b w
      else if is_zero b.coefficient
      then copy is_a result a w
      else obtained (create w) result λ temporary w1. after (align scale a w1) result λ left w2.
        after (align scale b w2) result λ right w3.
          step
            (if is_difference
              then Arithmetic.sub temporary.coefficient left right w3
              else Arithmetic.add temporary.coefficient left right w3)
            result λ c w4. finish result (record { coefficient = c; scale = scale }) w4

  unfoldable pub mul : BigDecimal → BigDecimal → BigDecimal → World → Result BigDecimal
  mul result a b w = obtained (create w) result λ temporary w1.
      step (Multiplication.mul karatsuba temporary.coefficient a.coefficient b.coefficient w1)
        result
        λ product w2.
          after (normalize (record { coefficient = product; scale = temporary.scale }) w2) result
            λ n w3.
              if is_zero n.coefficient
              then gives ok n w3
              else elim (product_scale a.scale n.scale b.scale) [
                | none ↦ gives scale_overflow result w3
                | some s ↦ gives ok (record n { scale = s }) w3
              ]

  abbrev pub add : Bool → Bool → BigDecimal → BigDecimal → BigDecimal → World → Result BigDecimal
  add = add_or_subtract false

  abbrev pub sub : Bool → Bool → BigDecimal → BigDecimal → BigDecimal → World → Result BigDecimal
  sub = add_or_subtract true
