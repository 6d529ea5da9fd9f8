-- ===== src/Tests/Storage.antt =====
-- Runs of the storage layer.
use num_forge.Base.{arith}
use num_forge.BigInt.Storage.{ensure_capacity}
use num_forge.BigInt.Storage.Growth.{Ensured, ensure_capacity-Ensured}
use num_forge.Tests.Data.{limited, full}

ensure_capacity-Ensured_example : Ensured full 9 (ensure_capacity full 9 limited)
ensure_capacity-Ensured_example = ensure_capacity-Ensured full 9 limited (omega arith)
