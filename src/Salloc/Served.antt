-- ===== src/Salloc/Served.antt =====
-- A whole call of `salloc`, sched_test_app/src/salloc.c, on a tiled heap.
use chronos_project.Base.{ℕ, ◌+◌, ◌^◌, ◌≤◌, ◌<◌, ◌≡◌, true, Option, some, List, arith}
use chronos_project.Salloc.{Heap, region_start, block_size}
use chronos_project.Salloc.Calls.{take_block, request, salloc}
use chronos_project.Salloc.FirstFit.{first_of, large_enough, request_bounds, IsReady, salloc-served}
use chronos_project.Salloc.Taken.{blocks_after, IsRoomy, IsTaken, take_block_safe}
use chronos_project.Salloc.Tiles.{has, IsTiled}

-- The first block of the ring that is large enough for the request is a block of the heap, and the
-- request leaves a tail of at least 16 bytes.
pub record IsServable (h : Heap) (xs frees : List ℕ) (q n : ℕ) : Type 0 where
  pub tiled : IsTiled h xs
  pub in_memory : h.head + h.total_size < 2 ^ 64
  pub first : first_of (large_enough h (request n)) frees ≡ some q
  pub is_block : has q xs ≡ true
  pub bounded : n < 2 ^ 63
  pub room : request n + 32 ≤ block_size h q

-- salloc of fewer than 2^63 bytes, on a tiled heap below 2^64 that is made, with a ring of free
-- blocks and fuel for each of them, returns the first of them that is large enough, when the
-- rounded request leaves a tail of at least 16 bytes there: the heap stays tiled, the block is
-- in use and holds the bytes asked for, and every other block keeps its place, size and flag.
pub salloc_safe :
    {fuel : ℕ} {h : Heap} {frees : List ℕ} (mmap : ℕ → Option ℕ) (xs : List ℕ) (q n : ℕ)
    → IsReady fuel h frees
    → IsServable h xs frees q n
    → (g : Heap) × (salloc mmap fuel n h ≡ some (region_start q, g))
      × IsTaken h g xs (blocks_after h q (request n) xs) q n
salloc_safe {h = h} mmap xs q n ready s =
    let bounds = request_bounds n s.bounded in
    let roomy : IsRoomy h xs q (request n) = record {
      tiled = s.tiled;
      in_memory = s.in_memory;
      is_block = s.is_block;
      even = bounds.2;
      least = bounds.1;
      room = s.room;
    } in
    let served = take_block_safe roomy in
    (
      take_block h q (request n),
      salloc-served ready mmap n q s.first,
      record {
        tiled_after = served.tiled_after;
        still_block = served.still_block;
        in_use = served.in_use;
        holds = omega (arith, served.holds, bounds.0);
        others = served.others;
      },
    )
