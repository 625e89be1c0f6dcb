-- ===== src/Salloc/Taken.antt =====
-- What `_salloc` of sched_test_app/src/salloc.c does to the blocks of the heap.
use chronos_project.Base.{
  ltb, leb, ◌==◌, if◌then◌else◌, Bool-cases, ℕ, ◌+◌, ◌-◌, ◌%◌, ◌^◌, ◌≤◌, ◌<◌, ◌≡◌, refl, sym, ◌≢◌,
  inl, inr, Bool, true, false, not, ◌&&◌, List, arith,
}
use chronos_project.Salloc.{
  Heap, word_sub, is_free, block_size, usable_size, set_free, set_size, set_prev, set_next_free,
  set_prev_free, insert_block, insert_free, list_remove_free,
}
use chronos_project.Salloc.Calls.{split_block, take_block}
use chronos_project.Salloc.Sizes.{block_size-list_remove_free, is_free-list_remove_free, lists}
use chronos_project.Salloc.Tiles.{
  has, IsTiled, insert_after, has-insert_after, Tiled-retype, block_bounds, blocks_disjoint,
  split-Tiled,
}

pub block_size_even : (h : Heap) (r : ℕ) → block_size h r % 2 ≡ 0
unfolding block_size
block_size_even h r = omega arith

-- The sizes and the flags once `curr` is cut.
pub split_block_size :
    (h : Heap) (curr n s r : ℕ)
    → s % 2 ≡ 0
    → block_size (split_block h curr n s) r ≡ (
        if r == curr + 16 + n
        then s
        else if r == curr
        then block_size h curr - s
        else block_size h r)
unfolding split_block
split_block_size h curr n s r even = let even' = block_size_even h curr in simp lists (ground arith)

pub split_block_free :
    (h : Heap) (curr n s r : ℕ)
    → is_free (split_block h curr n s) r
      ≡ (if r == curr then false else if r == curr + 16 + n then true else is_free h r)
unfolding split_block
split_block_free h curr n s r = simp lists (ground arith)

split_block_extent :
    (h : Heap) (curr n s : ℕ)
    → ((split_block h curr n s).head ≡ h.head)
      × ((split_block h curr n s).total_size ≡ h.total_size)
unfolding split_block list_remove_free insert_free insert_block set_free set_size set_prev
    set_next_free set_prev_free
split_block_extent h curr n s = (refl, refl)

list_remove_free_extent :
    (h : Heap) (node : ℕ) (b : Bool)
    → ((list_remove_free h node b).head ≡ h.head)
      × ((list_remove_free h node b).total_size ≡ h.total_size)
unfolding list_remove_free set_free set_prev_free set_next_free
list_remove_free_extent h node b = (refl, refl)

-- The blocks after a call that takes `size` bytes from block `curr`: a tail of 32 bytes is cut off.
abbrev pub blocks_after : Heap → (curr size : ℕ) → List ℕ → List ℕ
blocks_after h curr n xs =
    if leb (n + 48) (block_size h curr) then insert_after curr (curr + 16 + n) xs else xs

-- Block `curr` has room for the request, and a tail of at least 16 bytes.
pub record IsRoomy (h : Heap) (xs : List ℕ) (curr n : ℕ) : Type 0 where
  pub tiled : IsTiled h xs
  pub in_memory : h.head + h.total_size < 2 ^ 64
  pub is_block : has curr xs ≡ true
  pub even : n % 2 ≡ 0
  pub least : 16 ≤ n
  pub room : n + 32 ≤ block_size h curr

-- The heap stays tiled, block `curr` is in use and holds `n` bytes past its header, and no other
-- block changes.
pub record IsTaken (h g : Heap) (xs ys : List ℕ) (curr n : ℕ) : Type 0 where
  pub tiled_after : IsTiled g ys
  pub still_block : has curr ys ≡ true
  pub in_use : is_free g curr ≡ false
  pub holds : n + 16 ≤ block_size g curr
  pub others :
      (r : ℕ)
      → has r xs ≡ true
      → r ≢ curr
      → (has r ys ≡ true) × (block_size g r ≡ block_size h r) × (is_free g r ≡ is_free h r)

module _ {h : Heap} {xs : List ℕ} {curr n : ℕ} (roomy : IsRoomy h xs curr n) where
  slack : word_sub (usable_size h curr) n ≡ block_size h curr - 16 - n
  unfolding usable_size word_sub
  slack =
      let bounds = block_bounds curr roomy.tiled roomy.is_block in
      omega (arith, bounds.2, roomy.room, roomy.in_memory)

  -- The test of `_salloc` is the one of `blocks_after`.
  test_of_take :
      ltb (word_sub (word_sub (usable_size h curr) n) 16) 16
      ≡ not (leb (n + 48) (block_size h curr))
  unfolding word_sub
  test_of_take =
      let bounds = block_bounds curr roomy.tiled roomy.is_block in
      let room = roomy.room in let in_memory = roomy.in_memory in rw slack (ground arith)

  take_block_eq : take_block h curr n ≡ (
      if leb (n + 48) (block_size h curr)
      then split_block h curr n (block_size h curr - 16 - n)
      else list_remove_free h curr false)
  unfolding take_block
  take_block_eq = rw (test_of_take, slack) (ground arith)

  take_block_extent :
      ((take_block h curr n).head ≡ h.head) × ((take_block h curr n).total_size ≡ h.total_size)
  take_block_extent =
      let cut = split_block_extent h curr n (block_size h curr - 16 - n) in
      let whole = list_remove_free_extent h curr false in rw take_block_eq (ground arith)

  take_block_sizes :
      (r : ℕ)
      → block_size (take_block h curr n) r ≡ (
          if leb (n + 48) (block_size h curr)
          then if r == curr + 16 + n
            then block_size h curr - 16 - n
            else if r == curr
            then 16 + n
            else block_size h r
          else block_size h r)
  take_block_sizes r =
      let parity = block_size_even h curr in
      let even = roomy.even in
      let room = roomy.room in
      let cut = split_block_size h curr n (block_size h curr - 16 - n) r (omega arith) in
      let whole = block_size-list_remove_free h curr false r in rw take_block_eq (ground arith)

  take_block_frees :
      (r : ℕ)
      → is_free (take_block h curr n) r ≡ (
          if r == curr
          then false
          else if leb (n + 48) (block_size h curr) && (r == curr + 16 + n)
          then true
          else is_free h r)
  take_block_frees r =
      let cut = split_block_free h curr n (block_size h curr - 16 - n) r in
      let whole = is_free-list_remove_free h curr false r in rw take_block_eq (ground arith)

  pub take_block-IsTiled : IsTiled (take_block h curr n) (blocks_after h curr n xs)
  take_block-IsTiled =
      let room = roomy.room in
      let least = roomy.least in
      let bounds = block_bounds curr roomy.tiled roomy.is_block in
      let e = take_block_extent in
      rw (e.0, e.1)
        (elim (Bool-cases (leb (n + 48) (block_size h curr))) [
          | inl cut ↦ rw cut (
              split-Tiled curr (curr + 16 + n) (16 + n) (block_size h curr - 16 - n) roomy.tiled
                roomy.is_block (omega arith) (omega arith) (ground arith) (omega arith)
                λ r. let sizes = take_block_sizes r in ground arith)
          | inr whole ↦
              rw whole
                (Tiled-retype roomy.tiled λ r le. let sizes = take_block_sizes r in ground arith)
        ])

  -- Every other block stays.
  pub others_stay :
      (r : ℕ)
      → has r xs ≡ true
      → r ≢ curr
      → (has r (blocks_after h curr n xs) ≡ true)
        × (block_size (take_block h curr n) r ≡ block_size h r)
        × (is_free (take_block h curr n) r ≡ is_free h r)
  others_stay r mem ne =
      let sizes = take_block_sizes r in
      let frees = take_block_frees r in
      let kept = has-insert_after r curr (curr + 16 + n) xs roomy.is_block in
      let room = roomy.room in
      let apart = blocks_disjoint curr r roomy.tiled roomy.is_block mem λ e. ne (sym e) in
      let bounds = block_bounds r roomy.tiled mem in
      let here = block_bounds curr roomy.tiled roomy.is_block in
      (ground arith, ground arith, ground arith)

  pub take_block_safe : IsTaken h (take_block h curr n) xs (blocks_after h curr n xs) curr n
  take_block_safe =
      let sizes = take_block_sizes curr in
      let frees = take_block_frees curr in
      let kept = has-insert_after curr curr (curr + 16 + n) xs roomy.is_block in
      let is_block = roomy.is_block in
      let room = roomy.room in
      let least = roomy.least in
      record {
        tiled_after = take_block-IsTiled;
        still_block = ground arith;
        in_use = ground arith;
        holds = ground arith;
        others = others_stay;
      }

-- The test of `_salloc` underflows on a tail of less than 16 bytes.
short_tail_split :
    (h : Heap) (curr n : ℕ)
    → n + 16 ≤ block_size h curr
    → block_size h curr < n + 32
    → block_size h curr < 2 ^ 64
    → take_block h curr n ≡ split_block h curr n (block_size h curr - 16 - n)
unfolding take_block word_sub usable_size
short_tail_split h curr n room short in_memory =
    let tail : word_sub (usable_size h curr) n ≡ block_size h curr - 16 - n = omega arith in
    let test : ltb (word_sub (block_size h curr - 16 - n) 16) 16 ≡ false = ground arith in
    rw (tail, test)

-- When a block holds the request, with an even size, and less than 16 bytes beyond it, the test of
-- _salloc underflows: a free header with the size of the tail is written over what follows the
-- block's usable bytes, and no list of blocks with one there tiles the heap any more.
pub short_tail_breaks :
    (h : Heap) (curr n : ℕ)
    → n + 16 ≤ block_size h curr
    → block_size h curr < n + 32
    → block_size h curr < 2 ^ 64
    → n % 2 ≡ 0
    → (block_size (take_block h curr n) (curr + 16 + n) ≡ block_size h curr - 16 - n)
      × (is_free (take_block h curr n) (curr + 16 + n) ≡ true)
      × ((xs : List ℕ) → has (curr + 16 + n) xs ≡ true → ¬ IsTiled (take_block h curr n) xs)
short_tail_breaks h curr n room short in_memory even =
    let parity = block_size_even h curr in
    let tail = block_size h curr - 16 - n in
    let size_b = split_block_size h curr n tail (curr + 16 + n) (omega arith) in
    let free_b = split_block_free h curr n tail (curr + 16 + n) in
    rw (short_tail_split h curr n room short in_memory) (
      ground arith,
      ground arith,
      λ xs mem tiled. let bounds = block_bounds (curr + 16 + n) tiled mem in ground arith,
    )
