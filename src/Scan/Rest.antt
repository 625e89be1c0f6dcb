-- ===== src/Scan/Rest.antt =====
-- What the scanning functions leave of the file is no longer than before.
use chronos_project.Base.{
  ◌==◌, if◌then◌else◌, Bool-cases, length, ℕ, zero, suc, ◌+◌, ◌-◌, ◌*◌, ◌≤◌, ◌≡◌, refl, inl, inr,
  Bool, true, false, List, [], ◌∷◌, arith,
}
use chronos_project.Scan.{
  ◌>>=◌, skip_spaces, split_word, scan_word, scan_digits, scan_number, signed_number, scan_signed,
  scan_int,
}
use chronos_project.TaskSet.{Reading, done, exits, undefined}
use mathlib.Core.Path.{subst}

-- A property of the result, where there is one.
abbrev pub Holds {ℓ κ} : {A : Type ℓ} → (A → Type κ) → Reading A → Type κ
Holds P (done a) = P a
Holds P exits = Unit
Holds P undefined = Unit

pub Holds-done {ℓ κ} :
    {A : Type ℓ} (P : A → Type κ) (r : Reading A) (a : A) → Holds P r → r ≡ done a → P a
Holds-done P r a h e = subst (Holds P) e h

pub Holds-bind {ℓ κ ι} :
    {A : Type ℓ} {B : Type ι} (P : A → Type κ) (Q : B → Type κ) (r : Reading A) (f : A → Reading B)
    → Holds P r
    → ((a : A) → P a → Holds Q (f a))
    → Holds Q (r >>= f)
Holds-bind P Q (done a) f h k = k a h
Holds-bind P Q exits f h k = tt
Holds-bind P Q undefined f h k = tt

pub Holds-trivial {ℓ} : {A : Type ℓ} (r : Reading A) → Holds (λ a. Unit {0}) r
Holds-trivial (done a) = tt
Holds-trivial exits = tt
Holds-trivial undefined = tt

pub bind_cong {ℓ κ ι} :
    {A : Type ℓ} {B : Type ι} (P : A → Type κ) (r : Reading A) (f g : A → Reading B)
    → Holds P r
    → ((a : A) → P a → f a ≡ g a)
    → (r >>= f) ≡ (r >>= g)
bind_cong P (done a) f g h k = k a h
bind_cong P exits f g h k = refl
bind_cong P undefined f g h k = refl

-- At most `n` characters are left.
abbrev pub Leaves {ℓ} : {A : Type ℓ} → ℕ → A × List ℕ → Type 0
Leaves n p = length p.1 ≤ n

pub length-skip_spaces : (chars : List ℕ) → length (skip_spaces chars) ≤ length chars
unfolding skip_spaces
length-skip_spaces [] = omega arith
length-skip_spaces (c ∷ chars) = let rest = length-skip_spaces chars in ground arith

length-split_word : (chars : List ℕ) → length (split_word chars).1 ≤ length chars
unfolding split_word
length-split_word [] = omega arith
length-split_word (c ∷ chars) = let rest = length-split_word chars in ground arith

pub scan_word-Leaves : (n : ℕ) (chars : List ℕ) → Holds (Leaves (length chars)) (scan_word n chars)
unfolding scan_word
scan_word-Leaves n chars =
    let one = length-skip_spaces chars in
    let two = length-split_word (skip_spaces chars) in ground arith

length-scan_digits : (acc : ℕ) (chars : List ℕ) → length (scan_digits acc chars).1 ≤ length chars
unfolding scan_digits
length-scan_digits acc [] = omega arith
length-scan_digits acc (c ∷ chars) =
    let rest = length-scan_digits (acc * 10 + (c - 48)) chars in ground arith

Leaves-mono {ℓ} :
    {A : Type ℓ} {m n : ℕ} (r : Reading (A × List ℕ))
    → Holds (Leaves m) r
    → m ≤ n
    → Holds (Leaves n) r
Leaves-mono (done p) h le = omega arith
Leaves-mono exits h le = tt
Leaves-mono undefined h le = tt

-- Two steps, one after the other.
pub bind-Leaves {ℓ κ} :
    {A : Type ℓ} {B : Type κ} (n : ℕ) (r : Reading (A × List ℕ))
    (f : A × List ℕ → Reading (B × List ℕ))
    → Holds (Leaves n) r
    → ((p : A × List ℕ) → Holds (Leaves (length p.1)) (f p))
    → Holds (Leaves n) (r >>= f)
bind-Leaves n r f h k =
    Holds-bind (Leaves n) (Leaves n) r f h λ p short. Leaves-mono (f p) (k p) short

scan_number-Leaves : (chars : List ℕ) → Holds (Leaves (length chars)) (scan_number chars)
unfolding scan_number
scan_number-Leaves [] = tt
scan_number-Leaves (c ∷ chars) = let rest = length-scan_digits 0 (c ∷ chars) in ground arith

signed_number-Leaves :
    (bits : ℕ) (b : Bool) (p : ℕ × List ℕ) → Holds (Leaves (length p.1)) (signed_number bits b p)
unfolding signed_number
signed_number-Leaves bits false p = ground arith
signed_number-Leaves bits true (zero, rest) = omega arith
signed_number-Leaves bits true (suc k, rest) = ground arith

scan_signed-Leaves :
    (bits : ℕ) (chars : List ℕ) → Holds (Leaves (length chars)) (scan_signed bits chars)
unfolding scan_signed
scan_signed-Leaves bits [] = tt
scan_signed-Leaves bits (c ∷ chars) = elim (Bool-cases (c == b'-')) [
  | inl minus ↦ rw minus (
      bind-Leaves (suc (length chars)) (scan_number chars) (signed_number bits true)
        (Leaves-mono (scan_number chars) (scan_number-Leaves chars) (omega arith))
        (signed_number-Leaves bits true))
  | inr other ↦ rw other (
      bind-Leaves (suc (length chars)) (scan_number (if c == b'+' then chars else c ∷ chars))
        (signed_number bits false)
        (Leaves-mono (scan_number (if c == b'+' then chars else c ∷ chars))
          (scan_number-Leaves (if c == b'+' then chars else c ∷ chars)) (ground arith))
        (signed_number-Leaves bits false))
]

pub scan_int-Leaves :
    (bits : ℕ) (chars : List ℕ) → Holds (Leaves (length chars)) (scan_int bits chars)
unfolding scan_int
scan_int-Leaves bits chars =
    Leaves-mono (scan_int bits chars) (scan_signed-Leaves bits (skip_spaces chars))
      (length-skip_spaces chars)
