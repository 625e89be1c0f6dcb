-- ===== src/Salloc/Calls.antt =====
-- The calls of sched_test_app/src/salloc.c: `init_salloc`, `increase_heap_size`, `salloc` and
-- `sfree`. The system call `mmap` is a parameter, from the address asked for to the mapping's.
use chronos_project.Base.{
  ltb, leb, ◌==◌, if◌then◌else◌, ℕ, zero, suc, ◌+◌, ◌-◌, ◌%◌, ◌^◌, Bool, true, false, not, Option,
  none, some,
}
use chronos_project.Salloc.{
  Heap, word_sub, region_offset, region_start, alloc_size, smallest_region, is_free, block_size,
  usable_size, set_free, set_size, set_prev, set_next_free, set_prev_free, insert_block,
  insert_free, list_remove_free, coalesce,
}

abbrev pub map_failed_address : ℕ
map_failed_address = 2 ^ 64 - 1

-- The heap is one free block. The flag tells that the memory was mapped.
unfoldable pub init_salloc : (mmap : ℕ → Option ℕ) → Heap → Bool × Heap
init_salloc mmap h = elim (mmap 0) [
  | none ↦ (false, record h { head = map_failed_address })
  | some p ↦
      let h' = record h { head = p; total_size = alloc_size; free_list = p } in
      let h' = set_free (set_size h' p alloc_size) p true in
      (true, set_prev_free (set_next_free (set_prev h' p p) p p) p p)
]

unfoldable pub increase_heap_size : (mmap : ℕ → Option ℕ) → Heap → Bool × Heap
increase_heap_size mmap h = elim (mmap (h.head + h.total_size)) [
  | none ↦ (false, h)
  | some new ↦
      let h' = record h { total_size = h.total_size + alloc_size } in
      let h' = set_free (set_size h' new alloc_size) new true in
      if h.free_list == 0
      then (true, set_prev_free (set_next_free (record h' { free_list = new }) new new) new new)
      else (true, coalesce (insert_free h' (h'.region h'.free_list).prev_free new) new)
]

pub data Fit : Type 0 where
  fits : ℕ → Fit
  no_fit : Fit
  no_fuel : Fit

-- The loop over the free list, from `curr` on. `no_fuel` is a loop that has not ended.
unfoldable pub first_fit : Heap → (fuel : ℕ) → (size curr : ℕ) → Fit
first_fit h zero n curr = no_fuel
first_fit h (suc fuel) n curr =
    let following = (h.region curr).next_free in
    let rest = first_fit h fuel n following in
    if leb n (usable_size h curr)
    then fits curr
    else if following == h.free_list
    then no_fit
    else rest

-- The tail of a block with more than `size` usable bytes becomes a free block.
unfoldable pub split_block : Heap → (curr size split_size : ℕ) → Heap
split_block h curr n split_size =
    let bottom_half = region_start curr + n in
    let h' = set_size h bottom_half split_size in
    let h' = set_size h' curr (block_size h' curr - split_size) in
    let h' = set_free (set_free h' bottom_half true) curr false in
    list_remove_free (insert_free (insert_block h' curr bottom_half) curr bottom_half) curr false

-- What `_salloc` does with the block it found.
unfoldable pub take_block : Heap → (curr size : ℕ) → Heap
take_block h curr n =
    let split_size = word_sub (usable_size h curr) n in
    if ltb (word_sub split_size region_offset) smallest_region
    then list_remove_free h curr false
    else split_block h curr n split_size

-- The outcome of a call: the pointer, 0 when the memory is used up, and the heap. `none` is a
-- search that has not ended.
abbrev pub SallocResult : Type 0
SallocResult = Option (ℕ × Heap)

-- `_salloc` on a heap that is there: the two tests that lead to `otherwise`, and the block taken.
unfoldable pub attempt : (fuel size : ℕ) → Heap → (otherwise : SallocResult) → SallocResult
attempt fuel n h otherwise =
    if h.free_list == 0 then otherwise else elim (first_fit h fuel n h.free_list) [
      | fits curr ↦ some (region_start curr, take_block h curr n)
      | no_fit ↦ otherwise
      | no_fuel ↦ none
    ]

-- The recursive call: `head` is not null any more.
unfoldable pub salloc_retry : (mmap : ℕ → Option ℕ) (fuel size retry : ℕ) → Heap → SallocResult
salloc_retry mmap fuel n zero h = attempt fuel n h (some (0, h))
salloc_retry mmap fuel n (suc retry) h =
    let grown = increase_heap_size mmap h in
    let again = salloc_retry mmap fuel n retry grown.1 in
    attempt fuel n h (if grown.0 then again else some (0, grown.1))

-- `_salloc`.
unfoldable pub salloc_block : (mmap : ℕ → Option ℕ) (fuel size retry : ℕ) → Heap → SallocResult
salloc_block mmap fuel n retry h =
    let made = init_salloc mmap h in
    if not (h.head == 0)
    then salloc_retry mmap fuel n retry h
    else if made.0
    then salloc_retry mmap fuel n retry made.1
    else some (0, made.1)

-- The size that `salloc` asks for.
unfoldable pub request : (size : ℕ) → ℕ
request n =
    if ltb n smallest_region
    then smallest_region
    else if n % smallest_region == 0
    then n
    else (n + n % smallest_region) % 2 ^ 64

unfoldable pub salloc : (mmap : ℕ → Option ℕ) (fuel size : ℕ) → Heap → SallocResult
salloc mmap fuel n h = salloc_block mmap fuel (request n) 1 h

-- The loop back from the block before `block` to a free block, or to `block` itself.
unfoldable pub find_free : Heap → (fuel : ℕ) → (block curr : ℕ) → Option ℕ
find_free h zero block curr = none
find_free h (suc fuel) block curr =
    let previous = (h.region curr).prev in
    let rest = find_free h fuel block previous in
    if is_free h curr then some curr else if previous == block then some block else rest

-- The rest of `sfree`, once the loop has stopped at `curr`.
unfoldable pub free_block : Heap → (block curr : ℕ) → Heap
free_block h block curr =
    let alone = set_next_free (record h { free_list = block }) block block in
    if curr == block
    then set_free (set_prev_free alone block block) curr true
    else coalesce (insert_free h curr block) block

unfoldable pub sfree : (fuel ptr : ℕ) → Heap → Option Heap
sfree fuel ptr h =
    let block = ptr - region_offset in
    elim (find_free h fuel block (h.region block).prev) [
      | none ↦ none
      | some curr ↦ some (free_block h block curr)
    ]
