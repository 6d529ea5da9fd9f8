-- ===== src/Tests/Modular.antt =====
-- A modular power at concrete inputs.
use num_forge.Base.{◌%◌, ◌^◌, arith, refl}
use num_forge.Base.Int.{pos}
use num_forge.BigInt.Types.{Computes}
use num_forge.BigInt.Magnitude.Value.{value}
use num_forge.BigInt.Modular.{modular_pow}
use num_forge.BigInt.Modular.Powers.{modular_pow-Computes}
use num_forge.Tests.Data.{calm, full, full-IsValid, minus, minus-IsValid}
use num_forge.Tests.Arithmetic.{school}
use num_forge.Tests.Bits.{three, three-IsValid}

modular_pow-Computes_example :
    Computes minus
      (pos (3 ^ value full.limbs % value minus.limbs))
      (modular_pow school minus three full minus calm)
modular_pow-Computes_example =
    modular_pow-Computes school minus minus-IsValid minus three full 3 (value full.limbs) calm
      (omega arith) (record { valid = three-IsValid; integer = refl })
      (record { valid = full-IsValid; integer = refl })
