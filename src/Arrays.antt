-- ===== src/Arrays.antt =====
-- The array workloads of sched_test_app/src/workloads: array_walk.h, array_backwards.h and
-- array_random.h.
mod Tests
pub mod Bounds
pub mod Walk
use chronos_project.Base.{
  ◌==◌, if◌then◌else◌, get_elem?, set, ℕ, zero, suc, ◌+◌, ◌-◌, ◌*◌, ◌/◌, ◌%◌, ◌^◌, Option, none,
  some, List,
}
use chronos_project.Random.{lfsrandom32, init_lfsrandom32}

-- `struct array_walk_data`. The elements of the array are kept as their 32 bits.
pub record ArrayWalkData : Type 0 where
  pub array : List ℕ
  pub num_elements : ℕ
  pub next_element : ℕ
  pub rand : ℕ

-- `STRIDE`, in elements.
abbrev pub stride : ℕ
stride = 16

-- `contents` is the memory that `malloc` returns for the array, and `old_rand` what it returns for
-- the field that is not set.
unfoldable pub array_walk_init_group : (contents : List ℕ) (old_rand group_wss : ℕ) → ArrayWalkData
array_walk_init_group contents old_rand group_wss = record {
  array = contents;
  num_elements = group_wss / 4;
  next_element = 0;
  rand = old_rand;
}

-- The bytes that are asked for.
unfoldable pub array_bytes : ℕ → ℕ
array_bytes group_wss = 4 * (group_wss / 4) + 64

-- A task works on its own copy of the struct.
unfoldable pub array_walk_init_task : ArrayWalkData → ArrayWalkData
array_walk_init_task group_data = group_data

-- `seed` is the nanoseconds of the clock.
unfoldable pub array_random_init_task : (seed : ℕ) → ArrayWalkData → ArrayWalkData
array_random_init_task seed group_data = record (array_walk_init_task group_data) {
  rand = init_lfsrandom32 seed;
}

-- The next element, each for a number of elements that is not zero.
unfoldable pub next_forwards : ArrayWalkData → ArrayWalkData
next_forwards d = record d { next_element = (d.next_element + stride) % 2 ^ 64 % d.num_elements }

unfoldable pub next_backwards : ArrayWalkData → ArrayWalkData
next_backwards d = record d {
  next_element = (d.num_elements + d.next_element + (2 ^ 64 - stride)) % 2 ^ 64 % d.num_elements;
}

unfoldable pub next_random : ArrayWalkData → ArrayWalkData
next_random d = record d {
  rand = lfsrandom32 d.rand;
  next_element = lfsrandom32 d.rand % d.num_elements;
}

-- One round: the element is read and written, and the next one is found. `none` is an access out
-- of bounds or a division by zero.
unfoldable pub visit : (ArrayWalkData → ArrayWalkData) → ArrayWalkData → Option ArrayWalkData
visit next d = elim (get_elem? d.array d.next_element) [
  | none ↦ none
  | some x ↦
      if d.num_elements == 0
      then none
      else some (next (record d { array = set d.array d.next_element ((x + 1) % 2 ^ 32) }))
]

-- The loop that the three workloads write out, each with its own next element.
unfoldable pub do_work : (ArrayWalkData → ArrayWalkData) → ℕ → ArrayWalkData → Option ArrayWalkData
do_work next zero d = some d
do_work next (suc iterations) d = elim (visit next d) [
  | none ↦ none
  | some d' ↦ do_work next iterations d'
]

unfoldable pub array_walk_do_work : (iterations : ℕ) → ArrayWalkData → Option ArrayWalkData
array_walk_do_work = do_work next_forwards

unfoldable pub array_backwards_do_work : (iterations : ℕ) → ArrayWalkData → Option ArrayWalkData
array_backwards_do_work = do_work next_backwards

unfoldable pub array_random_do_work : (iterations : ℕ) → ArrayWalkData → Option ArrayWalkData
array_random_do_work = do_work next_random
