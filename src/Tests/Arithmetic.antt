-- ===== src/Tests/Arithmetic.antt =====
-- Runs of the arithmetic on integers.
use num_forge.Base.{◌+◌, ◌-◌, ◌*◌, ◌<◌, ◌≡◌, refl, [], ◌∷◌, true, arith, radix}
use num_forge.Base.Int.{◌+ℤ◌, ◌*ℤ◌}
use num_forge.BigInt.Types.{Computes, Represents, to_ℤ, is_ok, empty}
use num_forge.BigInt.Magnitude.Multiply.{multiply_u64_u64}
use num_forge.BigInt.Magnitude.Multiply.WordProduct.{multiply_u64_u64_lem}
use num_forge.BigInt.Magnitude.Add.{add_word}
use num_forge.BigInt.Storage.{size_add}
use num_forge.BigInt.Arithmetic.{add_uint64, subtract_abs, add}
use num_forge.BigInt.Arithmetic.Signed.{add-Computes}
use num_forge.BigInt.Arithmetic.Total.{add_total}
use num_forge.BigInt.Multiplication.{Karatsuba, mul_school, mul}
use num_forge.BigInt.Multiplication.Product.{mul_school-Computes, mul-Computes}
use num_forge.BigInt.Comparison.{compare}
use num_forge.BigInt.Comparison.Order.{order_ℤ, compare_lem}
use num_forge.BigInt.Storage.{normalize, ensure_capacity, grow, size_mul}
use num_forge.BigInt.Magnitude.Compare.{compare_abs, compare_limbs}
use num_forge.BigInt.Magnitude.Add.{sub_limbs}
use num_forge.BigInt.Magnitude.Trim.{trim}
use num_forge.Runtime.Budget.{alloc}
use num_forge.Tests.Data.{calm, calm-Unlimited, limited, full, full-IsValid, minus, minus-IsValid}

-- The schoolbook loops may stand in for the Karatsuba routine.
abbrev pub school : Karatsuba
school = record {
  multiply = λ result a b threshold w. mul_school result a b w;
  multiply-Computes = λ result a b threshold w c va vb. mul_school-Computes result a b w c va vb;
}

-- 2 ^ 128 - 1 - (2 ^ 64 + 5)
sum_runs : (add empty full minus calm).object.limbs ≡ (radix - 6) ∷ (radix - 2) ∷ []
unfolding add compare_abs compare_limbs subtract_abs ensure_capacity grow size_mul alloc sub_limbs
    normalize trim
sum_runs = refl

add-Computes_example : Computes empty (to_ℤ full +ℤ to_ℤ minus) (add empty full minus limited)
add-Computes_example =
    add-Computes empty full minus limited (omega arith) full-IsValid minus-IsValid

add_total_example :
    (is_ok (add minus full minus calm).status ≡ true)
    × Represents (to_ℤ full +ℤ to_ℤ minus) (add minus full minus calm).object
add_total_example =
    add_total minus full minus calm (omega arith) full-IsValid minus-IsValid calm-Unlimited
      (omega arith)

mul-Computes_example : Computes full (to_ℤ full *ℤ to_ℤ minus) (mul school full full minus calm)
mul-Computes_example =
    mul-Computes school full full minus calm (omega arith) full-IsValid minus-IsValid

compare_lem_example : compare minus full ≡ order_ℤ (to_ℤ minus) (to_ℤ full)
compare_lem_example = compare_lem minus full minus-IsValid full-IsValid

multiply_u64_u64_lem_example :
    ((multiply_u64_u64 (radix - 1) 3).1 + radix * (multiply_u64_u64 (radix - 1) 3).0
      ≡ (radix - 1) * 3)
    × ((multiply_u64_u64 (radix - 1) 3).1 < radix)
    × ((multiply_u64_u64 (radix - 1) 3).0 < radix)
multiply_u64_u64_lem_example = multiply_u64_u64_lem (radix - 1) 3 (omega arith) (omega arith)

nine_added : is_ok (add_uint64 full 9 calm).status ≡ true
unfolding add_uint64 add_word ensure_capacity grow size_add size_mul alloc
nine_added = refl
