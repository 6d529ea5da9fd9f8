-- ===== src/BigInt/NumberTheory/Divisors.antt =====
-- Greatest common divisors and least common multiples of natural numbers, and Euclid's step.
use Prim.Native.Nat.{◌∣◌}
use native.Mathlib.Nat
use num_forge.Base.{ℕ, ◌+◌, ◌*◌, ◌/◌, ◌<◌, ◌≡◌, arith, ap, subst, sym, ◌⊎◌, inl, inr}

-- `g` divides both numbers, and every `k` that divides both of them times `c` divides `g` times `c`; with
-- `c = 1`, every common divisor divides `g`.
pub record IsGcd (g m n : ℕ) : Type 0 where
  pub left : g ∣ m
  pub right : g ∣ n
  pub greatest : (k c : ℕ) → k ∣ m * c → k ∣ n * c → k ∣ g * c

-- Both numbers divide `l`, and `l` divides every common multiple.
pub record IsLcm (l m n : ℕ) : Type 0 where
  pub left : m ∣ l
  pub right : n ∣ l
  pub least : (c : ℕ) → m ∣ c → n ∣ c → l ∣ c

pub zero-IsGcd : (m n : ℕ) → n ≡ 0 → IsGcd m m n
zero-IsGcd m n e = record {
  left = Nat.dvd_refl m;
  right = subst (◌∣◌ m) (sym e) (Nat.dvd-zero m);
  greatest = λ k c h _. h;
}

pub one-IsGcd : (m : ℕ) → IsGcd 1 m 1
one-IsGcd m = record { left = Nat.one-dvd m; right = Nat.dvd_refl 1; greatest = λ k c _ h. h }

-- The quotients by the greatest common divisor have no common divisor but 1.
pub quotients-IsGcd : (g m n : ℕ) → IsGcd g m n → 0 < g → IsGcd 1 (m / g) (n / g)
quotients-IsGcd g m n h p = record {
  left = Nat.one-dvd _;
  right = Nat.one-dvd _;
  greatest = λ k c hm hn. subst (◌∣◌ k) (omega arith) (
      Nat.dvd_of_mul-dvd-mul_left k p
        (h.greatest (g * k) c (scaled k c m h.left hm) (scaled k c n h.right hn)));
}
  where
    scaled : (k c i : ℕ) → g ∣ i → k ∣ i / g * c → g * k ∣ i * c
    scaled k c i d e =
        subst (◌∣◌ (g * k)) (omega (arith, ap (λ (t : ℕ). t * c) (Nat.div-mul_cancel g d)))
          (Nat.mul-dvd-mul_left k g e)

-- A division's remainder has the same common divisors with the divisor as the numerator.
pub division-IsGcd : (g q m n r : ℕ) → q * n + r ≡ m → IsGcd g n r → IsGcd g m n
division-IsGcd g q m n r e h = record {
  left = subst (◌∣◌ g) e (Nat.dvd-add g (Nat.dvd-mul_left_of_dvd g h.left q) h.right);
  right = h.left;
  greatest = λ k c hm hn.
      let split : m * c ≡ q * (n * c) + r * c = omega (arith, ap (λ (t : ℕ). t * c) (sym e)) in
      h.greatest k c hn
        ((Nat.dvd-add_iff_right k (Nat.dvd-mul_left_of_dvd k hn q)).1 (subst (◌∣◌ k) split hm));
}

pub IsGcd-pos : (g m n : ℕ) → IsGcd g m n → 0 < m → 0 < g
IsGcd-pos g m n h p = Nat.pos_of_dvd_of_pos h.left p

-- One number divided by the greatest common divisor, times the other.
pub quotient-IsLcm : (g m n : ℕ) → IsGcd g m n → 0 < g → IsLcm (m / g * n) m n
quotient-IsLcm g m n h p =
    let whole_m : m / g * g ≡ m = Nat.div-mul_cancel g h.left in
    let whole_n : n / g * g ≡ n = Nat.div-mul_cancel g h.right in
    let across : m / g * n ≡ m * (n / g) =
      omega (arith, ap (λ (t : ℕ). m / g * t) (sym whole_n), ap (λ (t : ℕ). t * (n / g)) whole_m) in
    record {
      left = subst (◌∣◌ m) (sym across) (Nat.dvd-mul_right m (n / g));
      right = Nat.dvd-mul_left n (m / g);
      least = λ c hm hn.
          let product : m / g * n * g ≡ m * n = omega (arith, ap (λ (t : ℕ). t * n) whole_m) in
          let by_m : m * n ∣ m * c = Nat.mul-dvd-mul_left n m hn in
          let by_n : m * n ∣ n * c =
            subst (◌∣◌ (m * n)) (omega arith) (Nat.mul-dvd-mul_right m hm n) in
          Nat.dvd_of_mul-dvd-mul_right (m / g * n) p (
            subst (λ (t : ℕ). t ∣ c * g) (sym product)
              (subst (◌∣◌ (m * n)) (omega arith) (h.greatest (m * n) c by_m by_n)));
    }

pub zero-IsLcm : (m n : ℕ) → (m ≡ 0) ⊎ (n ≡ 0) → IsLcm 0 m n
zero-IsLcm m n e = record {
  left = Nat.dvd-zero m;
  right = Nat.dvd-zero n;
  least = λ c hm hn. elim e [
    | inl z ↦ subst (λ (t : ℕ). t ∣ c) z hm
    | inr z ↦ subst (λ (t : ℕ). t ∣ c) z hn
  ];
}
