-- ===== src/BigInt.antt =====
-- src/core/bigint: integers of any size.
pub mod Magnitude
pub mod Types
pub mod Zeros
pub mod Combinatorics
pub mod Contract
pub mod Storage
pub mod Comparison
pub mod Arithmetic
pub mod Multiplication
pub mod Bitwise
pub mod Power
pub mod Division
pub mod SetBit
pub mod LongDivision
pub mod Quotient
pub mod NumberTheory
pub mod Text
pub mod Factorial
pub mod Modular
