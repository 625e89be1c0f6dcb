-- ===== src/Scan.antt =====
-- Reading a file with `getc` and `fscanf`, as sched_test_app/src/tester.c and task_init.c do. A file
-- is the list of its characters still to be read.
pub mod Rest
use chronos_project.Base.{
  ltb, leb, ◌==◌, if◌then◌else◌, length, ℕ, zero, suc, ◌+◌, ◌-◌, ◌*◌, ◌^◌, Bool, true, false, ◌&&◌,
  ◌||◌, List, [], ◌∷◌,
}
use chronos_project.Base.Int.{ℤ, pos, negsuc}
use chronos_project.TaskSet.{Reading, done, exits, undefined, is_digit}

infixl 5 ◌>>=◌
abbrev pub ◌>>=◌ {ℓ κ} : {A : Type ℓ} {B : Type κ} → Reading A → (A → Reading B) → Reading B
done a >>= f = f a
exits >>= f = exits
undefined >>= f = undefined

abbrev pub is_space : ℕ → Bool
is_space c = c == 32 || (leb 9 c && leb c 13)

-- A space in a format.
unfoldable pub skip_spaces : List ℕ → List ℕ
skip_spaces [] = []
skip_spaces (c ∷ chars) = let rest = skip_spaces chars in if is_space c then rest else c ∷ chars

-- The characters up to the first space, and the rest.
unfoldable pub split_word : List ℕ → List ℕ × List ℕ
split_word [] = ([], [])
split_word (c ∷ chars) =
    let (word, rest) = split_word chars in if is_space c then ([], c ∷ chars) else (c ∷ word, rest)

-- `%s` into a buffer of `size` bytes. A directive that matches nothing ends the program, with the
-- message of its caller; a word that does not fit is written past the buffer.
unfoldable pub scan_word : (size : ℕ) → List ℕ → Reading (List ℕ × List ℕ)
scan_word n chars =
    let (word, rest) = split_word (skip_spaces chars) in
    if length word == 0 then exits else if leb n (length word) then undefined else done (word, rest)

-- The digits at the head of the file, after the digits that `acc` is the number of.
unfoldable pub scan_digits : (acc : ℕ) → List ℕ → ℕ × List ℕ
scan_digits acc [] = (acc, [])
scan_digits acc (c ∷ chars) =
    let more = scan_digits (acc * 10 + (c - 48)) chars in
    if is_digit c then more else (acc, c ∷ chars)

-- At least one digit.
unfoldable pub scan_number : List ℕ → Reading (ℕ × List ℕ)
scan_number [] = exits
scan_number (c ∷ chars) = if is_digit c then done (scan_digits 0 (c ∷ chars)) else exits

-- A number with its sign, where an integer of `bits` bits and a sign can represent it.
unfoldable pub signed_number : (bits : ℕ) (negative : Bool) → ℕ × List ℕ → Reading (ℤ × List ℕ)
signed_number bits false (n, rest) = if ltb n (2 ^ bits) then done (pos n, rest) else undefined
signed_number bits true (zero, rest) = done (pos 0, rest)
signed_number bits true (suc n, rest) =
    if ltb n (2 ^ bits) then done (negsuc n, rest) else undefined

-- A sign, or none, and a number.
unfoldable pub scan_signed : (bits : ℕ) → List ℕ → Reading (ℤ × List ℕ)
scan_signed bits [] = exits
scan_signed bits (c ∷ chars) =
    if c == b'-'
    then scan_number chars >>= signed_number bits true
    else scan_number (if c == b'+' then chars else c ∷ chars) >>= signed_number bits false

-- `%d` with 31 bits, `%ld` with 63.
unfoldable pub scan_int : (bits : ℕ) → List ℕ → Reading (ℤ × List ℕ)
scan_int bits chars = scan_signed bits (skip_spaces chars)
