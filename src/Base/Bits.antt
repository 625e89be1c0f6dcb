-- ===== src/Base/Bits.antt =====
-- The lowest binary digits of `bit_and` and `bit_xor`.
use chronos_project.Base.{
  ℕ, zero, suc, ◌+◌, ◌*◌, ◌/◌, ◌%◌, ◌^◌, ◌≤◌, ◌<◌, bit_and, bit_xor, ◌≡◌, refl, arith, dec_lt,
}
use Prim.Native.Nat.{min, digits, differ, bit_and-bitwise, bit_xor-bitwise}

-- `bit_and` with `n` digits left to read.
abbrev and_upto : ℕ → ℕ → ℕ → ℕ
and_upto n a b = digits (λ _. zero) min n a b

and_upto_stable : (n m a b : ℕ) → a ≤ n → a ≤ m → and_upto n a b ≡ and_upto m a b
and_upto_stable n m zero b p q = and_upto_zero n m b
  where
    and_upto_zero : (n m b : ℕ) → and_upto n 0 b ≡ and_upto m 0 b
    and_upto_zero zero zero b = refl
    and_upto_zero zero (suc m) b = refl
    and_upto_zero (suc n) zero b = refl
    and_upto_zero (suc n) (suc m) b = refl
and_upto_stable zero m (suc a) b p q = absurd (omega arith)
and_upto_stable (suc n) zero (suc a) b p q = absurd (omega arith)
and_upto_stable (suc n) (suc m) (suc a) b p q =
    let rest = and_upto_stable n m (suc a / 2) (b / 2) (omega arith) (omega arith) in
    omega (arith, rest)

-- One digit of `bit_and`.
pub bit_and-digit : (a b : ℕ) → bit_and a b ≡ bit_and (a / 2) (b / 2) * 2 + min (a % 2) (b % 2)
bit_and-digit zero b = omega (arith, bit_and-bitwise 0 b, bit_and-bitwise 0 (b / 2))
bit_and-digit (suc a) b =
    let here = bit_and-bitwise (suc a) b in
    let there = bit_and-bitwise (suc a / 2) (b / 2) in
    let fuel = and_upto_stable a (suc a / 2) (suc a / 2) (b / 2) (omega arith) (omega arith) in
    omega (arith, here, there, fuel)

bit_and-zero_below : (n a : ℕ) → a ≤ n → bit_and a 0 ≡ 0
bit_and-zero_below zero a h = let e : a ≡ 0 = omega arith in rw e (bit_and-bitwise 0 0)
bit_and-zero_below (suc n) a h = elim (dec_lt 0 a) [
  | yes positive ↦ omega (arith, bit_and-digit a 0, bit_and-zero_below n (a / 2) (omega arith))
  | no zero_value ↦ bit_and-zero_below n a (omega arith)
]

pub bit_and-zero : (a : ℕ) → bit_and a 0 ≡ 0
bit_and-zero a = bit_and-zero_below a a (omega arith)

pub zero-bit_and : (b : ℕ) → bit_and 0 b ≡ 0
zero-bit_and b = bit_and-bitwise 0 b

pub bit_and-one : (a : ℕ) → bit_and a 1 ≡ a % 2
bit_and-one a = omega (arith, bit_and-digit a 1, bit_and-zero (a / 2))

-- `bit_xor` with `n` digits left to read.
abbrev xor_upto : ℕ → ℕ → ℕ → ℕ
xor_upto n a b = digits (λ b. b) differ n a b

xor_upto_stable : (n m a b : ℕ) → a ≤ n → a ≤ m → xor_upto n a b ≡ xor_upto m a b
xor_upto_stable zero zero zero b p q = refl
xor_upto_stable zero (suc m) zero b p q = refl
xor_upto_stable (suc n) zero zero b p q = refl
xor_upto_stable (suc n) (suc m) zero b p q = refl
xor_upto_stable zero m (suc a) b p q = absurd (omega arith)
xor_upto_stable (suc n) zero (suc a) b p q = absurd (omega arith)
xor_upto_stable (suc n) (suc m) (suc a) b p q =
    let rest = xor_upto_stable n m (suc a / 2) (b / 2) (omega arith) (omega arith) in
    omega (arith, rest)

differ_digits : (x y : ℕ) → x ≤ 1 → y ≤ 1 → differ x y ≡ (x + y) % 2
differ_digits zero zero p q = refl
differ_digits zero (suc zero) p q = refl
differ_digits (suc zero) zero p q = refl
differ_digits (suc zero) (suc zero) p q = refl
differ_digits (suc (suc x)) y p q = absurd (omega arith)
differ_digits x (suc (suc y)) p q = absurd (omega arith)

pub zero-bit_xor : (b : ℕ) → bit_xor 0 b ≡ b
zero-bit_xor b = bit_xor-bitwise 0 b

-- One digit of `bit_xor`.
pub bit_xor-digit : (a b : ℕ) → bit_xor a b ≡ bit_xor (a / 2) (b / 2) * 2 + (a % 2 + b % 2) % 2
bit_xor-digit zero b = omega (arith, zero-bit_xor b, zero-bit_xor (b / 2))
bit_xor-digit (suc a) b =
    let here = bit_xor-bitwise (suc a) b in
    let there = bit_xor-bitwise (suc a / 2) (b / 2) in
    let fuel = xor_upto_stable a (suc a / 2) (suc a / 2) (b / 2) (omega arith) (omega arith) in
    let digit = differ_digits (suc a % 2) (b % 2) (omega arith) (omega arith) in
    omega (arith, here, there, fuel, digit)

pub bit_xor-lt : (n a b : ℕ) → a < 2 ^ n → b < 2 ^ n → bit_xor a b < 2 ^ n
bit_xor-lt zero a b p q =
    let ea : a ≡ 0 = omega (arith, p) in rw ea (omega (arith, zero-bit_xor b, q))
bit_xor-lt (suc n) a b p q =
    let rest = bit_xor-lt n (a / 2) (b / 2) (omega arith) (omega arith) in
    omega (arith, bit_xor-digit a b, rest)

-- The highest digit of the second number stays where the first has none.
pub bit_xor-high : (n a b : ℕ) → a < 2 ^ n → 2 ^ n ≤ b → 2 ^ n ≤ bit_xor a b
bit_xor-high zero a b p q =
    let ea : a ≡ 0 = omega (arith, p) in rw ea (omega (arith, zero-bit_xor b, q))
bit_xor-high (suc n) a b p q =
    let rest = bit_xor-high n (a / 2) (b / 2) (omega arith) (omega arith) in
    omega (arith, bit_xor-digit a b, rest)

pub bit_xor_cancel : (n a b t : ℕ) → a ≤ n → b ≤ n → bit_xor a t ≡ bit_xor b t → a ≡ b
bit_xor_cancel zero a b t p q h = omega arith
bit_xor_cancel (suc n) a b t p q h =
    let da = bit_xor-digit a t in
    let db = bit_xor-digit b t in
    let rest =
      bit_xor_cancel n (a / 2) (b / 2) (t / 2) (omega arith) (omega arith)
        (omega (arith, h, da, db)) in
    omega (arith, rest, h, da, db)

pub bit_xor-zero : (a : ℕ) → bit_xor a 0 ≡ a
bit_xor-zero a = below a a (omega arith)
  where
    below : (n a : ℕ) → a ≤ n → bit_xor a 0 ≡ a
    below zero a h = let e : a ≡ 0 = omega (arith, h) in rw e (zero-bit_xor 0)
    below (suc n) a h = elim (dec_lt 0 a) [
      | yes positive ↦
          let rest = below n (a / 2) (omega (arith, h, positive)) in
          omega (arith, bit_xor-digit a 0, rest)
      | no is_zero ↦ below n a (omega (arith, h, is_zero))
    ]
