-- ===== src/Salloc.antt =====
-- The shared memory allocator, sched_test_app/src/salloc.c: the headers of the blocks, the macros
-- that read them, and the operations on the two lists. The calls are in Salloc/Calls.
pub mod Calls
pub mod Sizes
pub mod Tiles
pub mod FirstFit
pub mod Taken
pub mod Joined
pub mod Merged
pub mod Freed
pub mod Served
pub mod Begin
mod Tests
use chronos_project.Base.{
  leb, ◌==◌, if◌then◌else◌, ℕ, ◌+◌, ◌-◌, ◌%◌, ◌^◌, Bool, true, false, not, ◌&&◌,
}
use chronos_project.Totals.EndToEnd.{before, after}

-- `struct salloc_region`. The size and the free flag share `size_and_free`; 0 is the null pointer.
pub record SallocRegion : Type 0 where
  pub size_and_free : ℕ
  pub prev : ℕ
  pub next_free : ℕ
  pub prev_free : ℕ

-- The allocator's static variables, and the header at each address of the mapped memory.
pub record Heap : Type 0 where
  pub region : ℕ → SallocRegion
  pub head : ℕ
  pub total_size : ℕ
  pub free_list : ℕ

-- A header replaced.
abbrev pub put : Heap → ℕ → SallocRegion → Heap
put h p r = record h { region = λ q. if p == q then r else h.region q }

-- `a - b` in a `size_t`.
unfoldable pub word_sub : ℕ → ℕ → ℕ
word_sub a b = (a + (2 ^ 64 - b)) % 2 ^ 64

-- The header's part before `next_free`, which an allocated block keeps.
abbrev pub region_offset : ℕ
region_offset = 16

abbrev pub region_start : ℕ → ℕ
region_start r = r + region_offset

abbrev pub alloc_size : ℕ
alloc_size = 2 ^ 30

-- `_usable_size (sizeof(salloc_t))`, with 32 bytes of header.
abbrev pub smallest_region : ℕ
smallest_region = 16

unfoldable pub is_free : Heap → ℕ → Bool
is_free h r = (h.region r).size_and_free % 2 == 1

unfoldable pub block_size : Heap → ℕ → ℕ
block_size h r = (h.region r).size_and_free - (h.region r).size_and_free % 2

unfoldable pub usable_size : Heap → ℕ → ℕ
usable_size h r = word_sub (block_size h r) region_offset

unfoldable pub set_free : Heap → ℕ → Bool → Heap
set_free h r b =
    put h r (record (h.region r) { size_and_free = block_size h r + (if b then 1 else 0) })

unfoldable pub set_size : Heap → ℕ → ℕ → Heap
set_size h r n =
    put h r (record (h.region r) { size_and_free = (if is_free h r then 1 else 0) + (n - n % 2) })

unfoldable pub set_prev : Heap → ℕ → ℕ → Heap
set_prev h r p = put h r (record (h.region r) { prev = p })

unfoldable pub set_next_free : Heap → ℕ → ℕ → Heap
set_next_free h r p = put h r (record (h.region r) { next_free = p })

unfoldable pub set_prev_free : Heap → ℕ → ℕ → Heap
set_prev_free h r p = put h r (record (h.region r) { prev_free = p })

unfoldable pub past_end : Heap → ℕ → Bool
past_end h b = leb (h.head + h.total_size) b

-- The block after `r`, or the first one after the last.
unfoldable pub next_block : Heap → ℕ → ℕ
next_block h r = let after = r + block_size h r in if past_end h after then h.head else after

unfoldable pub insert_block : Heap → (list node : ℕ) → Heap
insert_block h list node = let h' = set_prev h node list in set_prev h' (next_block h' node) node

unfoldable pub list_remove : Heap → (node : ℕ) → Heap
list_remove h node = set_prev (set_prev h (next_block h node) (h.region node).prev) node 0

unfoldable pub insert_free : Heap → (list node : ℕ) → Heap
insert_free h list node =
    let h' = set_prev_free h node list in
    let h' = set_next_free h' node (h'.region list).next_free in
    let h' = set_next_free h' list node in
    set_free (set_prev_free h' (h'.region node).next_free node) node true

-- Where the free list begins once `node` has left it.
unfoldable pub next_free_list : Heap → (node : ℕ) → (combined : Bool) → ℕ
next_free_list h node combined =
    if node == h.free_list
    then if node == (h.region node).prev_free
      then 0
      else if combined
      then (h.region node).prev_free
      else (h.region node).next_free
    else h.free_list

unfoldable pub list_remove_free : Heap → (node : ℕ) → (combined : Bool) → Heap
list_remove_free h node combined =
    let h' = set_next_free h (h.region node).prev_free (h.region node).next_free in
    let h' = set_prev_free h' (h'.region node).next_free (h'.region node).prev_free in
    let h' = record h' { free_list = next_free_list h' node combined } in
    set_free (set_next_free (set_prev_free h' node 0) node 0) node false

-- `coalesce`, first half: the block after `block` joins it.
unfoldable pub coalesce_next : Heap → (block : ℕ) → Heap
coalesce_next h block =
    let after = next_block h block in
    if not (after == h.head) && is_free h after
    then list_remove_free
        (list_remove (set_size h block (block_size h block + block_size h after)) after) after true
    else h

-- The second half: `block` joins the block before it.
unfoldable pub coalesce_prev : Heap → (block : ℕ) → Heap
coalesce_prev h block =
    let before = (h.region block).prev in
    if not (block == h.head) && is_free h before
    then list_remove_free
        (list_remove (set_size h before (block_size h before + block_size h block)) block) block
        true
    else h

unfoldable pub coalesce : Heap → (block : ℕ) → Heap
coalesce h block = coalesce_prev (coalesce_next h block) block
