-- ===== src/BigInt/Bitwise/Powers.antt =====
-- Powers of two as shifts read them.
use native.Mathlib.Nat.{pow-succ', div-div-eq-div-mul, zero-div}
use num_forge.Base.{
  ℕ, zero, suc, ◌+◌, ◌-◌, ◌*◌, ◌/◌, ◌%◌, ◌^◌, ◌<◌, ◌≤◌, ◌≡◌, refl, arith, radix, ap, sym, ◌∙◌, List,
  [], ◌∷◌, ◌++◌, replicate, take, drop, length, get_or, All, IsLimb,
}
use num_forge.BigInt.Magnitude.Value.{value}

pub two_to : {m n : ℕ} → m ≡ n → 2 ^ m ≡ 2 ^ n
two_to e = ap (λ (t : ℕ). 2 ^ t) e

pub pow_add : (m n : ℕ) → 2 ^ (m + n) ≡ 2 ^ m * 2 ^ n
pow_add zero n = omega (arith, two_to {m = 0 + n} {n = n} (omega arith))
pow_add (suc m) n = omega (
  arith,
  two_to {m = suc m + n} {n = suc (m + n)} (omega arith),
  pow-succ' 2 (m + n),
  pow_add m n,
  ap (λ (t : ℕ). t * 2 ^ n) (pow-succ' 2 m),
)

-- `limbs` whole limbs and `bits` more bits.
pub pow_split : (limbs bits : ℕ) → 2 ^ (64 * limbs + bits) ≡ radix ^ limbs * 2 ^ bits
pow_split zero bits = omega (arith, two_to {m = 64 * 0 + bits} {n = bits} (omega arith))
pow_split (suc l) bits = omega (
  arith,
  two_to {m = 64 * suc l + bits} {n = 64 + (64 * l + bits)} (omega arith),
  pow_add 64 (64 * l + bits),
  pow_split l bits,
  ap (λ (t : ℕ). t * 2 ^ bits) (pow-succ' radix l),
)

pub pow_parts : (n : ℕ) → 2 ^ n ≡ radix ^ (n / 64) * 2 ^ (n % 64)
pow_parts n = two_to (omega arith) ∙ pow_split (n / 64) (n % 64)

-- The two powers of a shift inside a limb.
pub pow_complement : (bits : ℕ) → bits ≤ 64 → 2 ^ bits * 2 ^ (64 - bits) ≡ radix
pow_complement bits h = sym (pow_add bits (64 - bits)) ∙ two_to {n = 64} (omega arith)

pub pow_complement_even : (bits : ℕ) → bits < 64 → 2 ^ bits * (2 * 2 ^ (63 - bits)) ≡ radix
pow_complement_even bits h =
    ap (λ (t : ℕ). 2 ^ bits * t) (sym (pow_add 1 (63 - bits)))
    ∙ sym (pow_add bits (1 + (63 - bits)))
    ∙ two_to {n = 64} (omega arith)

-- Zero limbs below shift by whole limbs.
pub value-replicate-append :
    (n : ℕ) (xs : List ℕ) → value (replicate n 0 ++ xs) ≡ radix ^ n * value xs
value-replicate-append zero xs = omega arith
value-replicate-append (suc n) xs =
    omega (arith, value-replicate-append n xs, ap (λ (t : ℕ). t * value xs) (pow-succ' radix n))

pub div-radix_pow : (v n : ℕ) → v / radix ^ suc n ≡ v / radix / radix ^ n
div-radix_pow v n = rw pow-succ' (sym (div-div-eq-div-mul v radix (radix ^ n)))

-- Dropping whole limbs divides.
pub value-drop : (n : ℕ) (xs : List ℕ) → All IsLimb xs → value (drop n xs) ≡ value xs / radix ^ n
value-drop zero xs w = omega arith
value-drop (suc n) [] w = sym (zero-div (radix ^ suc n))
value-drop (suc n) (x ∷ xs) w =
    value-drop n xs w.1
    ∙ ap (λ (t : ℕ). t / radix ^ n) (omega (arith, w.0))
    ∙ sym (div-radix_pow _ n)

-- Whole limbs dropped and bits shifted out: one division.
pub drop-quotient :
    (n : ℕ) (xs : List ℕ)
    → All IsLimb xs
    → value (drop (n / 64) xs) / 2 ^ (n % 64) ≡ value xs / 2 ^ n
drop-quotient n xs w =
    ap (λ (t : ℕ). t / 2 ^ (n % 64)) (value-drop (n / 64) xs w)
    ∙ div-div-eq-div-mul (value xs) (radix ^ (n / 64)) (2 ^ (n % 64))
    ∙ ap (λ (t : ℕ). value xs / t) (sym (pow_parts n))

-- The limb at an index is what the limbs from there on start with.
pub drop_from :
    (i : ℕ) (xs : List ℕ)
    → i < length xs
    → value (drop i xs) ≡ get_or xs i 0 + radix * value (drop (suc i) xs)
drop_from i [] h = absurd (omega arith)
drop_from zero (x ∷ xs) h = refl
drop_from (suc i) (x ∷ xs) h = drop_from i xs (omega arith)

pub drop_past : (i : ℕ) (xs : List ℕ) → length xs ≤ i → value (drop i xs) ≡ 0
drop_past zero [] h = refl
drop_past zero (x ∷ xs) h = absurd (omega arith)
drop_past (suc i) [] h = refl
drop_past (suc i) (x ∷ xs) h = drop_past i xs (omega arith)

pub value-lt : (xs : List ℕ) → All IsLimb xs → value xs < radix ^ length xs
value-lt [] w = omega arith
value-lt (x ∷ xs) w = omega (arith, w.0, value-lt xs w.1, pow-succ' radix (length xs))

-- What is below `radix ^ n` stands in `n` limbs.
pub value-take : (n : ℕ) (xs : List ℕ) → value xs < radix ^ n → value (take n xs) ≡ value xs
value-take zero xs h = omega arith
value-take (suc n) [] h = refl
value-take (suc n) (x ∷ xs) h = omega (arith, value-take n xs (omega (arith, h, pow-succ' radix n)))

pub value-take-drop :
    (n : ℕ) (xs : List ℕ) → value (take n xs) + radix ^ n * value (drop n xs) ≡ value xs
value-take-drop zero xs = omega arith
value-take-drop (suc n) [] = omega arith
value-take-drop (suc n) (x ∷ xs) =
    omega (arith, value-take-drop n xs, ap (λ (t : ℕ). t * value (drop n xs)) (pow-succ' radix n))

pub value-append_one :
    (xs : List ℕ) (c : ℕ) → value (xs ++ c ∷ []) ≡ value xs + radix ^ length xs * c
value-append_one [] c = omega arith
value-append_one (x ∷ xs) c =
    omega (arith, value-append_one xs c, ap (λ (t : ℕ). t * c) (pow-succ' radix (length xs)))
