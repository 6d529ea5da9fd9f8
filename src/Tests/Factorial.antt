-- ===== src/Tests/Factorial.antt =====
-- Factorials at concrete inputs.
use num_forge.Base.{true, false, arith}
use num_forge.Base.Int.{pos}
use num_forge.BigInt.Types.{Computes, Gives}
use num_forge.BigInt.Magnitude.Value.{value}
use num_forge.BigInt.Factorial.{FactorialTree, product_to, factorial, factorial_grouped}
use num_forge.BigInt.Factorial.Grouped.{factorial-Computes, factorial_grouped-Computes}
use num_forge.BigInt.Combinatorics.{combinatorial}
use num_forge.BigInt.Combinatorics.Selection.{Selects, combinatorial-Selects}
use num_forge.Tests.Arithmetic.{school}
use num_forge.Tests.Data.{calm, full}
use num_forge.Tests.Bits.{three, three-IsValid}

-- The grouped loop in place of the product tree.
abbrev grouped_tree : FactorialTree
grouped_tree = record {
  fits = λ n w. false;
  product = factorial_grouped;
  product-Computes = λ result n w c h. factorial_grouped-Computes result n w h;
}

factorial-Computes_example :
    Computes full (pos (product_to (value three.limbs))) (factorial grouped_tree full three calm)
factorial-Computes_example =
    factorial-Computes grouped_tree full three calm (omega arith) three-IsValid

-- The selections of 3 out of 3, without order.
combinatorial-Selects_example :
    Gives
      (Selects true (value three.limbs) (value three.limbs))
      full
      (combinatorial school true full three three calm)
combinatorial-Selects_example =
    combinatorial-Selects school true full three three calm three-IsValid three-IsValid
