-- ===== src/Hyperperiod/Divides.antt =====
-- Divisibility on the native numbers.
use chronos_project.Base.{ℕ, ◌+◌, ◌-◌, ◌*◌, ◌≤◌, ◌≡◌, sym, ap, ◌∙◌, arith, dec_lt}

-- `d` divides `n`.
abbrev pub Divides : ℕ → ℕ → Type 0
Divides d n = (k : ℕ) × (n ≡ k * d)

-- `d` is a greatest common divisor, also of all multiples of `m` and `n` by one number.
pub record IsGcd (d m n : ℕ) : Type 0 where
  pub left : Divides d m
  pub right : Divides d n
  pub greatest : (k e : ℕ) → Divides e (k * m) → Divides e (k * n) → Divides e (k * d)

pub Divides-refl : (n : ℕ) → Divides n n
Divides-refl n = (1, omega arith)

pub Divides-trans : (a b c : ℕ) → Divides a b → Divides b c → Divides a c
Divides-trans a b c (j, p) (k, q) = (k * j, omega (arith, q, ap (λ (x : ℕ). k * x) p))

pub Divides-mul : (d n k : ℕ) → Divides d n → Divides d (k * n)
Divides-mul d n k (j, p) = (k * j, omega (arith, ap (λ (x : ℕ). k * x) p))

pub Divides-add : (d a b : ℕ) → Divides d a → Divides d b → Divides d (a + b)
Divides-add d a b (j, p) (k, q) = (j + k, omega (arith, p, q))

multiple_sub : (d j k c : ℕ) → j * d ≡ k * d + c → c ≡ (j - k) * d
multiple_sub d j k c e = elim (dec_lt k j) [
  | yes above ↦
      let split : j ≡ k + (j - k) = omega arith in omega (arith, e, ap (λ (x : ℕ). x * d) split)
  | no below ↦
      let zero_rest : j - k ≡ 0 = omega arith in
      let le : j * d ≤ k * d = grind arith in omega (arith, e, le, ap (λ (x : ℕ). x * d) zero_rest)
]

pub Divides-sub : (d a b c : ℕ) → a ≡ b + c → Divides d a → Divides d b → Divides d c
Divides-sub d a b c e (j, p) (k, q) = (j - k, multiple_sub d j k c (sym p ∙ e ∙ ap (λ x. x + c) q))
