-- ===== src/Lib.antt =====
-- The exact integers, fractions and decimals of NumForge, a C library for exact arithmetic.
--
-- The library keeps an integer as a sign and a magnitude, an array of 64-bit limbs with the least
-- significant one first (struct BigInt, src/core/bigint/bigint_internal.h). Its operations write their
-- result into an object of the caller and return a status. Every allocation and every long loop asks
-- the runtime (src/runtime/numforge_alloc.c), which holds a thread's budget of time and memory. A fraction
-- (struct BigRational) is two integers in lowest terms, and a decimal (struct BigDecimal) an integer and
-- a power of 10; their operations call those on integers step by step, build temporaries, and hand them
-- over at the end. The rational numbers, a quotient of fractions, are what both stand for.
--
-- Files and what they model:
-- Runtime/Budget.antt: the static state of src/runtime/numforge_alloc.c as the record World, and one
--   function for each of its functions. The readings of the system clock and the answers of the C
--   allocator are fields of World: whatever the system may say.
-- BigInt/Types.antt: struct BigInt, BigIntStatus, the outcome of a call (status, the object it may
--   write, the runtime's state), and the contracts Gives, Represents and Computes.
-- BigInt/Magnitude: the loops over limbs of src/core/bigint/bigint.c and arithmetic.c, on lists.
--   Value: the number that limbs make. Trim: bigint_normalize. Compare: bigint_compare_abs. Add: the
--   carry and borrow chains. Multiply: the word product, scaling, the schoolbook product. Divide: the
--   division of two words by one, in the two builds of the source, and of a magnitude by a word. Long:
--   the rounds of the long division, with the estimate of a digit and its corrections.
-- BigInt/Storage.antt: the checked size arithmetic, bigint_ensure_capacity, bigint_normalize,
--   bigint_set_uint64 and bigint_copy.
-- BigInt/Arithmetic.antt: bigint_add_abs, bigint_subtract_abs, bigint_add, bigint_sub, bigint_negate,
--   bigint_abs, bigint_add_uint64 and bigint_multiply_by_uint64.
-- BigInt/Multiplication.antt: bigint_mul and bigint_karatsuba_fits.
-- BigInt/SetBit.antt: bigint_set_bit. BigInt/Power.antt: bigint_pow. BigInt/Division.antt:
--   bigint_divide_by_uint64.
-- BigInt/LongDivision.antt: bigint_divmod_abs_core, on the rounds of BigInt/Magnitude/Long.antt.
-- BigInt/Quotient.antt: bigint_div_mod, bigint_div and bigint_mod.
-- BigInt/NumberTheory.antt: bigint_gcd and bigint_lcm of src/core/bigint/number_theory.c.
-- BigInt/Factorial.antt: bigint_factorial_grouped and bigint_factorial of the same file.
-- BigInt/Combinatorics.antt: bigint_combinatorial of the same file, bigint_permutation and
--   bigint_combination.
-- BigInt/Modular.antt: bigint_modular_multiply and bigint_modular_pow of src/core/bigint/primality.c.
-- BigInt/Text.antt: bigint_set_string and bigint_to_string of src/core/bigint/conversion.c; a text is the
--   list of its bytes, and NULL is a status that is not BIGINT_OK. Text/Bases: bigint_set_string_base.
--   The numerals that they read and print are described apart from the code.
-- BigInt/Zeros.antt: bigint_strip_decimal_zeros_classic and bigint_strip_decimal_zeros.
-- BigInt/Bitwise.antt: src/core/bigint/bitwise.c.
-- BigInt/Comparison.antt: src/core/bigint/comparison.c, bigint_bit_length, bigint_get_bit, and the
--   parity tests of src/core/bigint/primality.c.
-- BigRational/Types.antt: struct BigRational, BigRationalStatus (BigDecimalStatus has the same members),
--   and the shape of a call whose steps are calls on integers. BigRational/Contract.antt: the contract
--   Ensures of such calls. BigRational.antt: creation, copies, bigrational_set_fraction and the text.
--   BigRational/Operations.antt: comparison and arithmetic. BigRational/Fractions.antt: the rational
--   numbers. All of src/core/bigrational/bigrational.c but what is named below.
-- BigDecimal/Types.antt: struct BigDecimal. BigDecimal/Scales.antt: the checked arithmetic on int64_t
--   scales, as integers with the tests of the source. BigDecimal/Powers.antt and
--   BigDecimal/Operations.antt: powers of 10, copies, the normal form, sums and products, of
--   src/core/bigdecimal/bigdecimal.c and arithmetic.c. BigDecimal/Value.antt: the rational number of a
--   decimal. BigDecimal/Normal.antt: bigdecimal_normalize, which strips zeros in place, also when it
--   fails. BigDecimal/Conversion.antt: bigrational_from_bigdecimal.
-- Tests: the model at concrete inputs.
-- Base: shared helpers: lists over the native numbers, words, bits, integers, tests.
--
-- Conventions. A limb or a size is a number below 2 ^ 64, and wrap-around is written out. The list
-- `limbs` holds the `size` significant limbs; limbs between `size` and `capacity` have no meaning in
-- the source and none here. An operation takes the destination and the operands as values: that an
-- operand may be the destination's own object is left to the remark in BigInt/Arithmetic.antt. The
-- arguments are objects, not NULL. A loop that the source bounds by a size is a recursion on a list or
-- a count. In a loop whose buffer is dropped when the budget ends it, the polls of all rounds stand
-- first. These loops take fuel:
--   grow: as many rounds as limbs are needed, since each adds to the capacity;
--   count_bits: 64 rounds, one for each bit of a limb;
--   scratch_loop: one round more than limbs, since each round makes the operand smaller;
--   leading_shift: 63 rounds, since the limb is not 0;
--   correct_loop: 2 rounds, since each adds a word of at least 2 ^ 63 to a rest that must not overflow;
--   gcd_loop: one round more than its second operand, since the remainder is less;
--   parse_loop: as many rounds as digits, since each takes one or more;
--   chunk_loop: as many rounds as its array has room for, since each takes 63 bits off;
--   radix_loop: 64 rounds, since a base is at least 2;
--   product_loop: one round more than there are factors, since each round takes one;
--   count_zeros: 19 rounds, since the remainder is less than 10 ^ 19;
--   strip_loop: one round more than the number, since each round but the last divides it by 10 ^ 19;
--   subtract_count: 3 rounds, since the count is less than 2 ^ 64;
--   pow_loop and modular_pow_loop: the bit length of the exponent.
--
-- Not modelled: of the fractions, bigrational_to_bigdecimal and the sizes that the storage statistics
-- report; of the decimals, comparison, division, rounding, texts, roots, statistics and the
-- transcendental functions; the complex numbers, the expression engine, the modules and the
-- applications. Of the integers: the Karatsuba routine itself, which enters bigint_mul through an
-- interface; the product trees of src/core/bigint/factorial.c and the routine of
-- src/core/bigint/normalization.c for 128 limbs or more, which enter likewise; printing in other bases,
-- roots and primes.
pub mod Base
pub mod Runtime
pub mod BigInt
pub mod BigRational
pub mod BigDecimal
mod Tests
