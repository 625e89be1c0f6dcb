-- ===== src/TaskSet/Numbers.antt =====
-- Reading lists of numbers.
use chronos_project.Base.{
  leb, lt→ltb, length, length-append, ℕ, zero, suc, ◌+◌, ◌-◌, ◌*◌, ◌^◌, ◌≤◌, ◌<◌, ◌≡◌, refl, ap,
  ◌∙◌, true, false, some, List, [], ◌∷◌, ◌++◌, map, arith,
}
use chronos_project.TaskSet.{
  is_digit, read_number, next_number, starts_with_all, lock_loop, initialize_task_locks,
}
use mathlib.Core.List.{append_assoc}

-- The number that digits stand for, after `acc`.
unfoldable pub value_from : (acc : ℕ) → List ℕ → ℕ
value_from acc [] = acc
value_from acc (d ∷ ds) = value_from (acc * 10 + d) ds

-- Digits as characters, before the rest of a string.
unfoldable pub written : List ℕ → List ℕ → List ℕ
written [] rest = rest
written (d ∷ ds) rest = (d + 48) ∷ written ds rest

unfoldable pub AreDigits : List ℕ → Type 0
AreDigits [] = Unit
AreDigits (d ∷ ds) = (d ≤ 9) × AreDigits ds

-- Digits that the buffer holds, of a number that fits an `int`.
unfoldable pub IsNumber : List ℕ → Type 0
IsNumber ds = AreDigits ds × (length ds ≤ 30) × (value_from 0 ds < 2 ^ 31)

unfoldable pub AreNumbers : List (List ℕ) → Type 0
AreNumbers [] = Unit
AreNumbers (ds ∷ more) = IsNumber ds × AreNumbers more

-- A list of numbers with commas between them, and the end of the string.
unfoldable pub comma_list : List ℕ → List (List ℕ) → List ℕ
comma_list ds [] = written ds (0 ∷ [])
comma_list ds (es ∷ more) = written ds (b',' ∷ comma_list es more)

read_number-written :
    (acc i c : ℕ) (ds rest : List ℕ)
    → AreDigits ds
    → i + length ds ≤ 30
    → is_digit c ≡ false
    → read_number acc i (written ds (c ∷ rest)) ≡ some (value_from acc ds, c, rest)
unfolding read_number written value_from AreDigits
read_number-written acc i c [] rest k room stop =
    let short : leb 31 i ≡ false = ground (arith, room) in rw (short, stop) refl
read_number-written acc i c (d ∷ ds) rest (small, k) room stop =
    let short : leb 31 i ≡ false = ground (arith, room) in
    let digit : is_digit (d + 48) ≡ true = ground (arith, small) in
    let back : d + 48 - 48 ≡ d = omega arith in
    rw (short, digit, back)
      (read_number-written (acc * 10 + d) (i + 1) c ds rest k (omega (arith, room)) stop)

next_number-written :
    (c : ℕ) (ds rest : List ℕ)
    → IsNumber ds
    → is_digit c ≡ false
    → next_number (written ds (c ∷ rest)) ≡ some (value_from 0 ds, c, rest)
unfolding next_number IsNumber
next_number-written c ds rest (k, short, small) stop =
    let e = read_number-written 0 0 c ds rest k (omega (arith, short)) stop in
    let fits = lt→ltb (value_from 0 ds) (2 ^ 31) small in rw (next_number, e, fits) refl

lock_loop-comma_list :
    (fuel num_locks : ℕ) (mine ds : List ℕ) (more : List (List ℕ))
    → IsNumber ds
    → AreNumbers more
    → length more < fuel
    → length mine + length more < num_locks
    → lock_loop fuel num_locks mine (comma_list ds more)
      ≡ some (mine ++ value_from 0 ds ∷ map (value_from 0) more)
unfolding lock_loop comma_list AreNumbers
lock_loop-comma_list zero num_locks mine ds more k ks enough room = absurd (omega (arith, enough))
lock_loop-comma_list (suc fuel) num_locks mine ds [] k ks enough room =
    let e = next_number-written 0 ds [] k refl in
    let free : leb num_locks (length mine) ≡ false = ground (arith, room) in
    rw (lock_loop, e, free) refl
lock_loop-comma_list (suc fuel) num_locks mine ds (es ∷ more) k (k', ks) enough room =
    let e = next_number-written b',' ds (comma_list es more) k refl in
    let free : leb num_locks (length mine) ≡ false = ground (arith, room) in
    let longer = length-append mine (value_from 0 ds ∷ []) in
    let rest =
      lock_loop-comma_list fuel num_locks (mine ++ value_from 0 ds ∷ []) es more k' ks
        (omega (arith, enough)) (omega (arith, room, longer)) in
    rw (lock_loop, e, free)
      (rest ∙ ap some (append_assoc mine (value_from 0 ds ∷ []) (map (value_from 0) (es ∷ more))))

length-written : (ds rest : List ℕ) → length (written ds rest) ≡ length ds + length rest
unfolding written
length-written [] rest = omega arith
length-written (d ∷ ds) rest = omega (arith, length-written ds rest)

length-comma_list : (ds : List ℕ) (more : List (List ℕ)) → length more < length (comma_list ds more)
unfolding comma_list
length-comma_list ds [] = omega (arith, length-written ds (0 ∷ []))
length-comma_list ds (es ∷ more) =
    omega (arith, length-written ds (b',' ∷ comma_list es more), length-comma_list es more)

not_all : (c : ℕ) (rest : List ℕ) → c < b'a' → starts_with_all (c ∷ rest) ≡ false
not_all c [] h = refl
not_all c (x ∷ []) h = refl
not_all c (x ∷ y ∷ rest) h = ground (arith, h)

written-not_all :
    (c : ℕ) (ds rest : List ℕ)
    → AreDigits ds
    → c < b'a'
    → starts_with_all (written ds (c ∷ rest)) ≡ false
unfolding written AreDigits
written-not_all c [] rest k h = not_all c rest h
written-not_all c (d ∷ ds) rest (small, k) h =
    not_all (d + 48) (written ds (c ∷ rest)) (omega (arith, small))

comma_list-not_all :
    (ds : List ℕ) (more : List (List ℕ))
    → IsNumber ds
    → starts_with_all (comma_list ds more) ≡ false
unfolding comma_list IsNumber
comma_list-not_all ds [] (k, short, small) = written-not_all 0 ds [] k (omega arith)
comma_list-not_all ds (es ∷ more) (k, short, small) =
    written-not_all b',' ds (comma_list es more) k (omega arith)

-- A written list of at most as many numbers as there are locks, each of at most 30 digits and below
-- 2^31, is read as exactly these numbers, in their order.
pub locks-comma_list :
    (num_locks : ℕ) (ds : List ℕ) (more : List (List ℕ))
    → IsNumber ds
    → AreNumbers more
    → length more < num_locks
    → initialize_task_locks num_locks (comma_list ds more)
      ≡ some (value_from 0 ds ∷ map (value_from 0) more)
unfolding initialize_task_locks
locks-comma_list num_locks ds more k ks room = rw (comma_list-not_all ds more k) (
    lock_loop-comma_list (length (comma_list ds more)) num_locks [] ds more k ks
      (length-comma_list ds more) (omega (arith, room)))
