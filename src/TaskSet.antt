-- ===== src/TaskSet.antt =====
-- Reading a task's line: `initialize_task_cpus`, `initialize_task_locks` and `set_period_ts` of
-- sched_test_app/src/task_init.c. A string is the list of its characters, the final 0 included.
mod Tests
pub mod Domains
pub mod Numbers
use chronos_project.Base.{
  ltb, leb, ◌==◌, if◌then◌else◌, length, ℕ, zero, suc, ◌+◌, ◌-◌, ◌*◌, ◌/◌, ◌^◌, bit_or, Bool, false,
  ◌&&◌, Option, none, some, List, [], ◌∷◌, ◌++◌,
}
use chronos_project.Clock.{million, thousand, Timespec}

-- How reading a list can end: a result, an exit with a message, or an undefined step (a write past
-- the buffer `tmp`, or a number that `atoi` cannot represent).
pub data Reading {ℓ} (A : Type ℓ) : Type ℓ where
  done : A → Reading A
  exits : Reading A
  undefined : Reading A

abbrev pub is_digit : ℕ → Bool
is_digit c = leb 48 c && leb c 57

-- The inner loop, with `i` characters in the buffer of 32 that `acc` is the number of. The result is
-- the number, the character after it and the rest of the string.
unfoldable pub read_number : (acc i : ℕ) → List ℕ → Option (ℕ × ℕ × List ℕ)
read_number acc i [] = none
read_number acc i (c ∷ rest) =
    let more = read_number (acc * 10 + (c - 48)) (i + 1) rest in
    if leb 31 i then none else if is_digit c then more else some (acc, c, rest)

-- The next number, where `atoi` can represent it.
unfoldable pub next_number : List ℕ → Option (ℕ × ℕ × List ℕ)
next_number chars = elim (read_number 0 0 chars) [
  | none ↦ none
  | some (n, c, rest) ↦ if ltb n (2 ^ 31) then some (n, c, rest) else none
]

-- `MASK_SET`, for a processor below 64: the power is converted to an `unsigned long`.
abbrev pub mask_set : (mask cpu : ℕ) → ℕ
mask_set mask cpu = bit_or mask (2 ^ cpu)

-- The loop over the processors of the list; each round takes at least one character. The mask of a
-- processor from 64 on is a conversion out of range.
unfoldable pub cpu_loop : (fuel num_processors mask : ℕ) → List ℕ → Reading ℕ
cpu_loop zero num_processors mask chars = undefined
cpu_loop (suc fuel) num_processors mask chars = elim (next_number chars) [
  | none ↦ undefined
  | some (cpu, c, rest) ↦
      let more = cpu_loop fuel num_processors (mask_set mask cpu) rest in
      if leb num_processors cpu
      then exits
      else if leb 64 cpu
      then undefined
      else if c == b','
      then more
      else done (mask_set mask cpu)
]

-- The masks of the first processors.
unfoldable pub all_cpus : ℕ → ℕ
all_cpus zero = 0
all_cpus (suc n) = mask_set (all_cpus n) n

abbrev pub starts_with_all : List ℕ → Bool
starts_with_all (a ∷ b ∷ c ∷ rest) = a == b'a' && (b == b'l' && c == b'l')
starts_with_all _ = false

-- The search of the domain masks for the mask or a free place; `none` is the fatal error at the end.
unfoldable pub add_domain : (mask : ℕ) → List ℕ → Option (List ℕ)
add_domain mask [] = none
add_domain mask (m ∷ masks) =
    let later = add_domain mask masks in
    if m == mask
    then some (m ∷ masks)
    else if m == 0
    then some (mask ∷ masks)
    else elim later [ none ↦ none | some masks' ↦ some (m ∷ masks') ]

-- The end of `initialize_task_cpus`, from the mask on.
unfoldable pub finish_cpus : (domain_masks : List ℕ) → Reading ℕ → Reading (ℕ × List ℕ)
finish_cpus domain_masks exits = exits
finish_cpus domain_masks undefined = undefined
finish_cpus domain_masks (done mask) =
    if mask == 0
    then exits
    else elim (add_domain mask domain_masks) [ none ↦ exits | some masks ↦ done (mask, masks) ]

-- `domain_masks` has a place for each processor. The result is the task's mask and the domain masks;
-- a fatal error is an exit.
unfoldable pub initialize_task_cpus : (domain_masks chars : List ℕ) → Reading (ℕ × List ℕ)
initialize_task_cpus domain_masks chars =
    let num_processors = length domain_masks in
    finish_cpus domain_masks (
      if starts_with_all chars
      then (if leb num_processors 64 then done (all_cpus num_processors) else undefined)
      else cpu_loop (length chars) num_processors 0 chars)

-- The numbers of the locks that a task's array points to, after those that it holds already. `none`
-- is a write past the array, which has a place for each lock of the test, or another undefined
-- step; a number that is no lock's gives a pointer outside the locks, which is kept.
unfoldable pub lock_loop : (fuel num_locks : ℕ) → (my_locks chars : List ℕ) → Option (List ℕ)
lock_loop zero num_locks my_locks chars = none
lock_loop (suc fuel) num_locks my_locks chars = elim (next_number chars) [
  | none ↦ none
  | some (lock_no, c, rest) ↦
      let more = lock_loop fuel num_locks (my_locks ++ lock_no ∷ []) rest in
      if leb num_locks (length my_locks)
      then none
      else if c == b','
      then more
      else some (my_locks ++ lock_no ∷ [])
]

-- The numbers below a bound.
unfoldable pub first_numbers : ℕ → List ℕ
first_numbers zero = []
first_numbers (suc n) = first_numbers n ++ n ∷ []

-- For a task whose count of locks is 0 before.
unfoldable pub initialize_task_locks : (num_locks : ℕ) → List ℕ → Option (List ℕ)
initialize_task_locks num_locks chars =
    if starts_with_all chars
    then some (first_numbers num_locks)
    else lock_loop (length chars) num_locks [] chars

-- The period of a task, in microseconds, as a timespec.
unfoldable pub set_period_ts : (period : ℕ) → Timespec
set_period_ts period = record {
  tv_sec = period / million;
  tv_nsec = period * thousand - period / million * million * thousand;
}
