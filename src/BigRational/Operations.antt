-- ===== src/BigRational/Operations.antt =====
-- The comparison and the arithmetic of src/core/bigrational/bigrational.c. The temporaries begin empty.
use Prim.Native.Nat.{Ordering}
use num_forge.Base.{Bool, true, false, ◌&&◌, if◌then◌else◌}
use num_forge.Runtime.Budget.{World}
use num_forge.BigInt.Types.{BigInt, empty}
use num_forge.BigInt.Comparison
use num_forge.BigInt.Comparison.{is_zero}
use num_forge.BigInt.Arithmetic
use num_forge.BigInt.Quotient
use num_forge.BigInt.Multiplication.{Karatsuba}
use num_forge.BigInt.Multiplication
use num_forge.BigInt.NumberTheory.{gcd}
use num_forge.BigRational.{create_all, obtained, create, commit, copy, set_fraction}
use num_forge.BigRational.Types.{
  ok, division_by_zero, BigRational, Result, gives, after, step, created,
}

unfoldable pub unary : Bool → BigRational → BigRational → World → Result BigRational
unary is_negation result value w = obtained (create w) result λ temporary w1.
    after (copy false temporary value w1) result λ temporary w2.
      step
        (if is_negation
          then Arithmetic.negate temporary.numerator temporary.numerator w2
          else Arithmetic.abs temporary.numerator temporary.numerator w2)
        result λ numerator w3. commit result (record temporary { numerator = numerator }) w3

abbrev pub negate : BigRational → BigRational → World → Result BigRational
negate = unary true

abbrev pub abs : BigRational → BigRational → World → Result BigRational
abs = unary false

module _ (karatsuba : Karatsuba) where
  -- The result is -1, 0 or 1, and `before` what stood there.
  unfoldable pub compare : Ordering → BigRational → BigRational → World → Result Ordering
  compare before a b w = created (create_all 4 w) before λ w1.
      step (gcd empty a.denominator b.denominator w1) before λ g w2.
        step (Quotient.div empty b.denominator g w2) before λ factor w3.
          step (Multiplication.mul karatsuba empty a.numerator factor w3) before λ left w4.
            step (Quotient.div factor a.denominator g w4) before λ factor w5.
              step (Multiplication.mul karatsuba empty b.numerator factor w5) before
                λ right w6. gives ok (Comparison.compare left right) w6

  -- `rational_sum`.
  unfoldable pub sum : Bool → BigRational → BigRational → BigRational → World → Result BigRational
  sum is_difference result a b w = created (create_all 7 w) result λ w1.
      step (gcd empty a.denominator b.denominator w1) result λ g w2.
        step (Quotient.div empty b.denominator g w2) result λ u w3.
          step (Quotient.div empty a.denominator g w3) result λ v w4.
            step (Multiplication.mul karatsuba empty a.numerator u w4) result λ left w5.
              step (Multiplication.mul karatsuba empty b.numerator v w5) result λ right w6.
                step
                  (if is_difference
                    then Arithmetic.sub empty left right w6
                    else Arithmetic.add empty left right w6)
                  result
                  λ numerator w7.
                    step (Multiplication.mul karatsuba empty a.denominator u w7) result
                      λ denominator w8. set_fraction result numerator denominator w8

  abbrev pub add : BigRational → BigRational → BigRational → World → Result BigRational
  add = sum false

  abbrev pub sub : BigRational → BigRational → BigRational → World → Result BigRational
  sub = sum true

  -- The body of `rational_product` on the two integers that it takes from `b`.
  unfoldable pub crossed : BigRational → BigRational → BigInt → BigInt → World → Result BigRational
  crossed result a top bottom w = created (create_all 8 w) result λ w1.
      step (gcd empty a.numerator bottom w1) result λ g1 w2.
        step (gcd empty top a.denominator w2) result λ g2 w3.
          step (Quotient.div empty a.numerator g1 w3) result λ p w4.
            step (Quotient.div empty top g2 w4) result λ q w5.
              step (Quotient.div empty a.denominator g2 w5) result λ u w6.
                step (Quotient.div empty bottom g1 w6) result λ v w7.
                  step (Multiplication.mul karatsuba empty p q w7) result λ numerator w8.
                    step (Multiplication.mul karatsuba empty u v w8) result
                      λ denominator w9. set_fraction result numerator denominator w9

  -- `rational_product`.
  unfoldable pub product :
      Bool → BigRational → BigRational → BigRational → World → Result BigRational
  unfolding crossed
  product is_division result a b w =
      if is_division && is_zero b.numerator
      then gives division_by_zero result w
      else crossed result a (if is_division then b.denominator else b.numerator)
          (if is_division then b.numerator else b.denominator) w

  abbrev pub mul : BigRational → BigRational → BigRational → World → Result BigRational
  mul = product false

  abbrev pub div : BigRational → BigRational → BigRational → World → Result BigRational
  div = product true
