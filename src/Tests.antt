-- ===== src/Tests.antt =====
-- Runs of the model at concrete inputs, and each theorem applied at one.
mod Data
mod Budget
mod Arithmetic
mod Bits
mod Division
mod Factorial
mod Modular
mod Storage
mod Rational
mod Decimal
mod Text
