-- ===== src/Tests/Bits.antt =====
-- Runs of bit operations, powers and the division by a word.
use num_forge.Base.{
  ◌-◌, ◌*◌, ◌/◌, ◌^◌, ◌≡◌, refl, [], ◌∷◌, true, false, arith, radix, ◌&&◌, not, bit_and, bit_or,
  bit_xor,
}
use num_forge.Base.Int.{pow_ℤ, signed}
use num_forge.BigInt.Types.{BigInt, IsValid, Computes, to_ℤ, empty, is_negative_argument}
use num_forge.BigInt.Magnitude.Value.{value}
use num_forge.BigInt.Magnitude.Divide.{divide_wide, divide_serial, divide_limbs}
use num_forge.BigInt.Magnitude.Divide.Serial.{divide_serial_lem}
use num_forge.BigInt.Bitwise.{
  bitwise_and, bitwise_or, bitwise_xor, shift_left, shift_right, shift_left_limbs,
}
use num_forge.BigInt.Bitwise.Logic.{Combines, bitwise-Computes}
use num_forge.BigInt.Bitwise.Scaling.{shift_left-Computes, shift_right-Computes}
use num_forge.BigInt.SetBit.{set_bit, BitSet, set_bit-BitSet}
use num_forge.BigInt.Storage.{size_add, size_mul, grow, ensure_capacity}
use num_forge.BigInt.Types.{is_ok}
use num_forge.Runtime.Budget.{alloc}
use num_forge.BigInt.Power.{pow}
use num_forge.BigInt.Power.Contract.{pow-Computes}
use num_forge.Tests.Arithmetic.{school}
use num_forge.Tests.Data.{calm, limited, full, full-IsValid, minus, minus-IsValid}

-- 2 ^ 64 + 5 by 3 bits and a limb to the left, and by a limb to the right.
left_run : shift_left_limbs 1 3 (5 ∷ 1 ∷ []) ≡ 0 ∷ 40 ∷ 8 ∷ 0 ∷ []
unfolding shift_left_limbs
left_run = refl

division_run : divide_limbs 10 (5 ∷ 1 ∷ []) ≡ (1844674407370955162 ∷ 0 ∷ [], 1)
unfolding divide_limbs
division_run = refl

shift_left-Computes_example :
    Computes empty (signed true (value minus.limbs * 2 ^ 67)) (shift_left empty minus 67 calm)
shift_left-Computes_example =
    shift_left-Computes empty minus 67 calm (omega arith) minus-IsValid (omega arith)

shift_right-Computes_example :
    Computes empty (signed true (value minus.limbs / 2 ^ 3)) (shift_right empty minus 3 calm)
shift_right-Computes_example =
    shift_right-Computes empty minus 3 calm (omega arith) minus-IsValid (omega arith)

divide_serial_lem_example : divide_serial 3 (radix - 1) 10 ≡ divide_wide 3 (radix - 1) 10
divide_serial_lem_example =
    divide_serial_lem 3 (radix - 1) 10 (omega arith) (omega arith) (omega arith)

abbrev pub three : BigInt
three = record { limbs = 3 ∷ []; capacity = 1; is_negative = false }

pub three-IsValid : IsValid three
three-IsValid = record {
  magnitude = record { words = omega arith; trimmed = omega arith };
  signed_nonzero = λ h. cc;
  fits = omega arith;
  bounded = omega arith;
}

pow-Computes_example :
    Computes empty (pow_ℤ (to_ℤ minus) (value three.limbs)) (pow school empty minus three calm)
    × ((three.is_negative && not (is_negative_argument (pow school empty minus three calm).status))
        ≡ false)
pow-Computes_example =
    pow-Computes school empty minus three calm (omega arith) minus-IsValid three-IsValid

bit_set : is_ok (set_bit full 200 calm).status ≡ true
unfolding set_bit size_add ensure_capacity grow size_mul alloc
bit_set = refl

set_bit-BitSet_example : BitSet full 200 (set_bit full 200 calm).object
set_bit-BitSet_example = set_bit-BitSet full 200 calm full-IsValid (omega arith) bit_set

bitwise-Computes_example :
    Combines empty full three
      (bit_and (value full.limbs) (value three.limbs))
      (bitwise_and empty full three limited)
    × Combines empty full three
        (bit_or (value full.limbs) (value three.limbs))
        (bitwise_or empty full three limited)
    × Combines empty full three
        (bit_xor (value full.limbs) (value three.limbs))
        (bitwise_xor empty full three limited)
bitwise-Computes_example = bitwise-Computes empty full three limited full-IsValid three-IsValid
