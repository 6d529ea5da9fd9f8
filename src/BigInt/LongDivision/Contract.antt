-- ===== src/BigInt/LongDivision/Contract.antt =====
-- `bigint_divmod_abs_core` divides.
use num_forge.Base.{
  ℕ, ◌*◌, ◌<◌, ◌≤◌, ◌≡◌, refl, Bool, true, false, not, List, [], ◌∷◌, length, if◌then◌else◌, arith,
  ◌==◌, Bool-cases, inl, inr, ==→eq, ==→ne, ltb, ltb→lt, ltb→le,
}
use num_forge.Runtime.Budget.{World, budget_check}
use num_forge.BigInt.Types.{BigInt, Holds, max_limbs, Out, ok, returns, on_ok}
use num_forge.BigInt.Contract.{IfOk, IfOk-on_ok, IfOk-checked}
use num_forge.BigInt.Storage.{set_uint64, copy, is_empty}
use num_forge.BigInt.Storage.Holding.{set_uint64-Holds, copy-Holds, empty-Holds}
use num_forge.BigInt.Magnitude.Value.{value, IsMagnitude, value_pos, value-lt_of_length}
use num_forge.BigInt.Magnitude.Compare.{compare_abs-cases}
use num_forge.BigInt.LongDivision.{Division, divide_short, divide_long, divmod_abs}
use num_forge.BigInt.LongDivision.Kernel.{Bounded, Divides}
use num_forge.BigInt.LongDivision.Branches.{divide_short-Divides, divide_long-Divides}

-- The outputs as the call clears them.
started : Bool → Division → Division
started keep d = record d {
  quotient = if keep then record d.quotient { limbs = [] } else d.quotient;
  remainder = record d.remainder { limbs = [] };
}

started-Bounded : (keep : Bool) (d : Division) → Bounded d → Bounded (started keep d)
unfolding started
started-Bounded true d h = record {
  quotient = h.quotient;
  remainder = h.remainder;
  numerator = h.numerator;
  divisor = h.divisor;
}
started-Bounded false d h = record {
  quotient = h.quotient;
  remainder = h.remainder;
  numerator = h.numerator;
  divisor = h.divisor;
}

started_quotient :
    (keep : Bool) (d : Division) → Bounded d → keep ≡ true → Holds 0 (started keep d).quotient
unfolding started
started_quotient true d h e = empty-Holds d.quotient h.quotient
started_quotient false d h e = cc

empty_magnitude : (xs : List ℕ) → is_empty xs ≡ true → value xs ≡ 0
empty_magnitude [] e = refl
empty_magnitude (x ∷ xs) e = cc

magnitude_pos : (ys : List ℕ) → IsMagnitude ys → 0 < length ys → 0 < value ys
magnitude_pos [] m h = absurd (omega arith)
magnitude_pos (y ∷ ys) m h = value_pos y ys m.trimmed

divisor_shorter :
    (xs ys : List ℕ) → IsMagnitude xs → IsMagnitude ys → value ys < value xs → length ys ≤ length xs
divisor_shorter xs ys mx my h = elim (Bool-cases (ltb (length xs) (length ys))) [
  | inl longer ↦ absurd (
      omega (
        arith,
        h,
        value-lt_of_length xs ys mx.words my.trimmed (ltb→lt (length xs) (length ys) longer),
      ))
  | inr fits ↦ ltb→le (length xs) (length ys) fits
]

module _ (keep own : Bool) (d : Division) (a b : BigInt) (w : World) (ma : IsMagnitude a.limbs)
    (mb : IsMagnitude b.limbs) (bounded : Bounded d) (short : length a.limbs ≤ max_limbs)
    (some_divisor : 0 < length b.limbs) where
  start : Division
  start = started keep d

  P : Out Division → Type 0
  P = IfOk (Divides keep a.limbs b.limbs)

  start-Bounded : Bounded start
  unfolding start
  start-Bounded = started-Bounded keep d bounded

  start_quotient : keep ≡ true → Holds 0 start.quotient
  unfolding start
  start_quotient = started_quotient keep d bounded

  start_remainder : Holds 0 start.remainder
  unfolding start started
  start_remainder = empty-Holds d.remainder bounded.remainder

  start_divides :
      (q : BigInt) (n : ℕ) (w' : World)
      → value a.limbs ≡ n * value b.limbs
      → (keep ≡ true → Holds n q)
      → q.capacity ≤ max_limbs
      → P (returns ok (record start { quotient = q }) w')
  unfolding P
  start_divides q n w' e held room p = record {
    digits = n;
    equation = omega (arith, e, start_remainder.number);
    below = omega (arith, magnitude_pos b.limbs mb some_divisor, start_remainder.number);
    quotient_held = held;
    remainder_held = record {
      magnitude = start_remainder.magnitude;
      number = refl;
      fits = start_remainder.fits;
      bounded = start_remainder.bounded;
    };
    room = record {
      quotient = room;
      remainder = start-Bounded.remainder;
      numerator = start-Bounded.numerator;
      divisor = start-Bounded.divisor;
    };
  }

  larger :
      (w' : World)
      → value b.limbs < value a.limbs
      → P (
          if length b.limbs == 1
          then divide_short keep start a b w'
          else divide_long keep own start a b w')
  unfolding P
  larger w' h = elim (Bool-cases (length b.limbs == 1)) [
    | inl one ↦ rw one (
        divide_short-Divides keep start a b w' ma.words mb start-Bounded
          (==→eq (length b.limbs) 1 one))
    | inr more ↦ rw more (
        divide_long-Divides keep own start a b w' ma.words mb start-Bounded short
          (ground (arith, some_divisor, ==→ne (length b.limbs) 1 more))
          (divisor_shorter a.limbs b.limbs ma mb h))
  ]

  smaller :
      (w' : World)
      → value a.limbs < value b.limbs
      → P (
          on_ok
            (copy start.remainder a w')
            (λ r. record start { remainder = r })
            λ r w2. returns ok (record start { remainder = r }) w2)
  unfolding P
  smaller w' h = IfOk-on_ok (Divides keep a.limbs b.limbs) (copy start.remainder a w') _ _ λ e p.
      let r = copy-Holds start.remainder a w' start-Bounded.remainder ma e in
      record {
        digits = 0;
        equation = omega (arith, r.number);
        below = omega (arith, r.number, h);
        quotient_held = start_quotient;
        remainder_held = record {
          magnitude = r.magnitude;
          number = refl;
          fits = r.fits;
          bounded = r.bounded;
        };
        room = record {
          quotient = start-Bounded.quotient;
          remainder = r.bounded;
          numerator = start-Bounded.numerator;
          divisor = start-Bounded.divisor;
        };
      }

  same :
      (wanted : Bool) (w' : World)
      → wanted ≡ keep
      → value a.limbs ≡ value b.limbs
      → P (
          if not wanted
          then returns ok start w'
          else on_ok
              (set_uint64 start.quotient 1 w')
              (λ q. record start { quotient = q })
              λ q w2. returns ok (record start { quotient = q }) w2)
  unfolding P
  same true w' e h =
      let stored = set_uint64 start.quotient 1 w' in
      IfOk-on_ok (Divides keep a.limbs b.limbs) stored _ _ λ f.
        let q = set_uint64-Holds start.quotient 1 w' start-Bounded.quotient (omega arith) f in
        start_divides stored.object 1 stored.world (omega (arith, h)) (λ k. q) q.bounded
  same false w' e h =
      start_divides start.quotient 1 w' (omega (arith, h)) (λ k. absurd (cc (e, k)))
        start-Bounded.quotient

  -- If `bigint_divmod_abs_core`, with or without a quotient and a workspace, returns BIGINT_OK for
  -- magnitudes in canonical form and a divisor that is not 0, the remainder is below the divisor, the
  -- quotient times the divisor plus the remainder is the numerator, and both outputs are in canonical
  -- form within their buffers.
  pub divmod_abs-Divides : IfOk (Divides keep a.limbs b.limbs) (divmod_abs keep own d a b w)
  unfolding divmod_abs P start started
  divmod_abs-Divides =
      let w1 = (budget_check w).1 in
      IfOk-checked (Divides keep a.limbs b.limbs) (budget_check w) _ _ λ _.
        elim (Bool-cases (is_empty a.limbs)) [
          | inl none ↦ rw none (
              start_divides start.quotient 0 w1 (omega (arith, empty_magnitude a.limbs none))
                start_quotient start-Bounded.quotient)
          | inr more ↦ rw more (elim (compare_abs-cases a.limbs b.limbs ma mb) [
            | inl h ↦ rw h.0 (smaller w1 h.1)
            | inr (inl h) ↦ rw h.0 (same keep w1 refl h.1)
            | inr (inr h) ↦ rw h.0 (larger w1 h.1)
          ])
        ]
