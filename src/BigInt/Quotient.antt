-- ===== src/BigInt/Quotient.antt =====
-- `bigint_div_mod`, `bigint_div` and `bigint_mod` of src/core/bigint/arithmetic.c.
-- The outputs of `div_mod` are two objects, the quotient and the remainder; either may be an operand,
-- since both are committed after the division.
pub mod Signed
use num_forge.Base.{Bool, true, false, length, if◌then◌else◌, differ}
use num_forge.Runtime.Budget.{World}
use num_forge.BigInt.Types.{BigInt, ok, division_by_zero, Out, returns, on_ok, empty}
use num_forge.BigInt.Storage.{normalize, is_empty}
use num_forge.BigInt.LongDivision.{Division, divmod_abs}

-- Fresh temporaries, as the calls begin with them.
abbrev pub fresh : Division
fresh = record { quotient = empty; remainder = empty; numerator = empty; divisor = empty }

abbrev pub with_sign : Bool → BigInt → BigInt
with_sign negative b = normalize (record b { is_negative = negative })

unfoldable pub div_mod : BigInt × BigInt → BigInt → BigInt → World → Out (BigInt × BigInt)
div_mod outputs a b w =
    if is_empty b.limbs
    then returns division_by_zero outputs w
    else on_ok (divmod_abs true false fresh a b w) (λ _. outputs)
        λ d w1.
          returns ok
            (
              with_sign (differ a.is_negative b.is_negative) d.quotient,
              with_sign a.is_negative d.remainder,
            )
            w1

-- Each keeps one output of `div_mod` and frees the other.
unfoldable pub div : BigInt → BigInt → BigInt → World → Out BigInt
div quotient a b w = let o = div_mod (quotient, empty) a b w in returns o.status o.object.0 o.world

unfoldable pub modulo : BigInt → BigInt → BigInt → World → Out BigInt
modulo remainder a b w =
    let o = div_mod (empty, remainder) a b w in returns o.status o.object.1 o.world
