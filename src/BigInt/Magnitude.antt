-- ===== src/BigInt/Magnitude.antt =====
-- Magnitudes: the `limbs[0 .. size)` of a BigInt, least significant limb first, in radix 2 ^ 64,
-- and the loops of src/core/bigint/bigint.c that read or write them, one module for each.
pub mod Value
pub mod Trim
pub mod Compare
pub mod Divide
pub mod Long
pub mod Add
pub mod Multiply
