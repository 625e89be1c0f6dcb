-- ===== src/Salloc/Tests.antt =====
-- The allocator on small heaps.
use chronos_project.Base.{
  ◌==◌, if◌then◌else◌, ℕ, ◌-◌, ◌≡◌, refl, true, Option, none, some, List, [], ◌∷◌, arith,
}
use chronos_project.Salloc.{
  SallocRegion, Heap, word_sub, region_start, is_free, block_size, usable_size, set_free, set_size,
  set_prev, set_next_free, set_prev_free, past_end, next_block, insert_block, list_remove,
  insert_free, next_free_list, list_remove_free, coalesce_next, coalesce_prev, coalesce,
}
use chronos_project.Salloc.Begin.{made_at, IsFirstCall, first_call_safe}
use chronos_project.Salloc.Calls.{
  init_salloc, first_fit, split_block, take_block, attempt, salloc_retry, salloc_block, request,
  salloc, free_block, sfree,
}
use chronos_project.Salloc.FirstFit.{wraps, hops, first_of, large_enough, IsReady, salloc_lem}
use chronos_project.Salloc.Freed.{IsUsed, sfree_safe}
use chronos_project.Salloc.Merged.{IsFreed}
use chronos_project.Salloc.Served.{IsServable, salloc_safe}
use chronos_project.Salloc.Taken.{blocks_after, IsTaken, short_tail_breaks}
use chronos_project.Salloc.Tiles.{has, filled, tile, IsTiled}

abbrev headers_at : List (ℕ × SallocRegion) → ℕ → SallocRegion
headers_at [] p = record { size_and_free = 0; prev = 0; next_free = 0; prev_free = 0 }
headers_at (x ∷ xs) p = if x.0 == p then x.1 else headers_at xs p

-- No memory is there to add.
abbrev no_mapping : ℕ → Option ℕ
no_mapping hint = none

-- A free block of 32 bytes, one of 64 in use, and a free one of 64.
abbrev three_blocks : Heap
three_blocks = record {
  region = headers_at (
      (4096, record { size_and_free = 33; prev = 4192; next_free = 4192; prev_free = 4192 })
      ∷ (4128, record { size_and_free = 64; prev = 4096; next_free = 0; prev_free = 0 })
      ∷ (4192, record { size_and_free = 65; prev = 4128; next_free = 4096; prev_free = 4096 })
      ∷ []);
  head = 4096;
  total_size = 160;
  free_list = 4192;
}

abbrev three_places : List ℕ
three_places = 4096 ∷ 4128 ∷ 4192 ∷ []

three-IsTiled : IsTiled three_blocks three_places
unfolding block_size
three-IsTiled =
    tile refl (omega arith) refl
      (tile refl (omega arith) refl (tile refl (omega arith) refl (filled refl)))

three-IsReady : IsReady 2 three_blocks (4192 ∷ 4096 ∷ [])
three-IsReady = record {
  made = λ e. absurd (omega (arith, e));
  some_free = λ e. absurd (omega (arith, e));
  ring = hops refl (λ e. absurd (omega (arith, e))) (wraps refl);
  fuelled = omega arith;
}

three-IsServable : IsServable three_blocks three_places (4192 ∷ 4096 ∷ []) 4192 16
unfolding request usable_size block_size word_sub
three-IsServable = record {
  tiled = three-IsTiled;
  in_memory = omega arith;
  first = refl;
  is_block = refl;
  bounded = omega arith;
  room = omega arith;
}

salloc_safe_example :
    (g : Heap) × (salloc no_mapping 2 16 three_blocks ≡ some (4208, g))
    × IsTaken three_blocks g three_places
        (blocks_after three_blocks 4192 (request 16) three_places)
        4192
        16
salloc_safe_example = salloc_safe no_mapping three_places 4192 16 three-IsReady three-IsServable

salloc_lem_example :
    salloc no_mapping 2 40 three_blocks
    ≡ some (elim (first_of (large_enough three_blocks (request 40)) (4192 ∷ 4096 ∷ [])) [
      | none ↦ (0, three_blocks)
      | some q ↦ (region_start q, take_block three_blocks q (request 40))
    ])
salloc_lem_example = salloc_lem three-IsReady no_mapping 40 refl

size_of_first : block_size three_blocks 4096 ≡ 32
unfolding block_size
size_of_first = refl

short_tail_breaks_example :
    (block_size (take_block three_blocks 4096 16) 4128 ≡ block_size three_blocks 4096 - 16 - 16)
    × (is_free (take_block three_blocks 4096 16) 4128 ≡ true)
    × ((xs : List ℕ) → has 4128 xs ≡ true → ¬ IsTiled (take_block three_blocks 4096 16) xs)
short_tail_breaks_example =
    short_tail_breaks three_blocks 4096 16 (omega (arith, size_of_first))
      (omega (arith, size_of_first)) (omega (arith, size_of_first)) refl

three-IsUsed : IsUsed three_blocks three_places (4096 ∷ 4192 ∷ []) 4128
unfolding block_size is_free
three-IsUsed = record {
  tiled = three-IsTiled;
  is_block = refl;
  used = refl;
  linked_before = λ ne. refl;
  ends_at = λ ne. refl;
  links = hops refl (λ e. absurd (omega (arith, e))) (wraps refl);
}

sfree_safe_example :
    (g : Heap) × (sfree 2 4144 three_blocks ≡ some g)
    × (ys : List ℕ) × (home : ℕ) × IsFreed three_blocks g three_places ys 4128 home
sfree_safe_example = sfree_safe three-IsUsed 2 (omega arith)

-- The block freed joins both its neighbours.
sfree_size : block_size (free_block three_blocks 4128 4096) 4096 ≡ 160
unfolding free_block coalesce coalesce_next coalesce_prev next_block past_end list_remove_free
    list_remove insert_free set_size set_free set_prev set_prev_free set_next_free block_size
    is_free
sfree_size = refl

-- Before the first call.
abbrev no_heap : Heap
no_heap = record { region = headers_at []; head = 0; total_size = 0; free_list = 0 }

abbrev one_mapping : ℕ → Option ℕ
one_mapping hint = if hint == 0 then some 4096 else none

first-IsFirstCall : IsFirstCall one_mapping no_heap 4096 40
unfolding request
first-IsFirstCall = record {
  unmade = refl;
  mapped = refl;
  not_null = λ e. absurd (omega (arith, e));
  in_memory = omega arith;
  bounded = omega arith;
  fits_in = omega arith;
}

first_call_safe_example :
    (g : Heap) × (salloc one_mapping 1 40 no_heap ≡ some (4112, g))
    × IsTaken
        (made_at no_heap 4096)
        g
        (4096 ∷ [])
        (blocks_after (made_at no_heap 4096) 4096 (request 40) (4096 ∷ []))
        4096
        40
first_call_safe_example = first_call_safe no_heap 4096 one_mapping 40 first-IsFirstCall

abbrev two_sallocs : Option (ℕ × ℕ)
two_sallocs = elim (salloc one_mapping 1 40 no_heap) [
  | none ↦ none
  | some (p, h) ↦ elim (salloc one_mapping 1 40 h) [ none ↦ none | some (q, g) ↦ some (p, q) ]
]

-- Two calls in a row give blocks one after the other.
two_calls : two_sallocs ≡ some (4112, 4176)
unfolding salloc salloc_block salloc_retry attempt first_fit take_block split_block request
    init_salloc insert_block next_block past_end list_remove_free next_free_list insert_free
    set_size set_free set_prev set_prev_free set_next_free block_size is_free usable_size word_sub
two_calls = refl
