-- ===== src/BigDecimal.antt =====
-- src/core/bigdecimal: decimal numbers, a coefficient times a power of 10.
pub mod Types
pub mod Scales
pub mod Powers
pub mod Operations
pub mod Value
pub mod Exact
pub mod Normal
pub mod Sums
pub mod Conversion
pub mod Products
