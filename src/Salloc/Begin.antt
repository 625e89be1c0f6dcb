-- ===== src/Salloc/Begin.antt =====
-- The first call of `salloc`, sched_test_app/src/salloc.c: `init_salloc` makes the heap.
use chronos_project.Base.{
  leb, ◌==◌, ℕ, ◌+◌, ◌-◌, ◌^◌, ◌≤◌, ◌<◌, ◌≡◌, refl, ◌∙◌, ◌≢◌, true, false, Option, some, [], ◌∷◌,
  arith,
}
use chronos_project.Salloc.{
  Heap, word_sub, region_start, alloc_size, block_size, usable_size, set_free, set_size, set_prev,
  set_next_free, set_prev_free,
}
use chronos_project.Salloc.Calls.{init_salloc, salloc_block, request, salloc}
use chronos_project.Salloc.FirstFit.{wraps, IsReady}
use chronos_project.Salloc.Served.{IsServable, salloc_safe}
use chronos_project.Salloc.Sizes.{headers}
use chronos_project.Salloc.Taken.{blocks_after, IsTaken}
use chronos_project.Salloc.Tiles.{filled, tile, IsTiled}

-- The heap that `init_salloc` makes of `h` at address `p`.
abbrev pub made_at : Heap → ℕ → Heap
made_at h p =
    let h' = record h { head = p; total_size = alloc_size; free_list = p } in
    let h' = set_free (set_size h' p alloc_size) p true in
    set_prev_free (set_next_free (set_prev h' p p) p p) p p

-- The first call, for `n` bytes, where the system gives memory at `p`.
pub record IsFirstCall (mmap : ℕ → Option ℕ) (h : Heap) (p n : ℕ) : Type 0 where
  pub unmade : h.head ≡ 0
  pub mapped : mmap 0 ≡ some p
  pub not_null : p ≢ 0
  pub in_memory : p + 2 ^ 30 < 2 ^ 64
  pub bounded : n < 2 ^ 63
  pub fits_in : request n + 32 ≤ 2 ^ 30

module _ (h : Heap) (p : ℕ) where
  made_size : block_size (made_at h p) p ≡ 2 ^ 30
  made_size = let same : (p == p) ≡ true = ground arith in simp (headers, same)

  made-IsTiled : IsTiled (made_at h p) (p ∷ [])
  unfolding set_size set_free set_prev set_next_free set_prev_free
  made-IsTiled = tile refl (omega (arith, made_size)) refl (filled (omega (arith, made_size)))

  made-IsReady : p ≢ 0 → IsReady 1 (made_at h p) (p ∷ [])
  unfolding set_size set_free set_prev set_next_free set_prev_free
  made-IsReady ne = record {
    made = ne;
    some_free = ne;
    ring = wraps (ground arith);
    fuelled = omega arith;
  }

  made_usable : usable_size (made_at h p) p ≡ 2 ^ 30 - 16
  unfolding usable_size word_sub
  made_usable = omega (arith, made_size)

  made-IsServable :
      (mmap : ℕ → Option ℕ) (n : ℕ)
      → IsFirstCall mmap h p n
      → IsServable (made_at h p) (p ∷ []) (p ∷ []) p n
  unfolding set_size set_free set_prev set_next_free set_prev_free
  made-IsServable mmap n call =
      let enough : leb (request n) (usable_size (made_at h p) p) ≡ true =
        ground (arith, made_usable, call.fits_in) in
      record {
        tiled = made-IsTiled;
        in_memory = call.in_memory;
        first = rw enough refl;
        is_block = ground arith;
        bounded = call.bounded;
        room = omega (arith, made_size, call.fits_in);
      }

  init_salloc-made :
      (mmap : ℕ → Option ℕ) → mmap 0 ≡ some p → init_salloc mmap h ≡ (true, made_at h p)
  unfolding init_salloc set_prev_free
  init_salloc-made mmap mapped = rw (init_salloc, mapped) refl

  salloc-made :
      (mmap : ℕ → Option ℕ) (n fuel : ℕ)
      → IsFirstCall mmap h p n
      → salloc mmap fuel n h ≡ salloc mmap fuel n (made_at h p)
  unfolding salloc salloc_block set_size set_free set_prev set_next_free set_prev_free
  salloc-made mmap n fuel call =
      let no_head : (h.head == 0) ≡ true = ground (arith, call.unmade) in
      let has_head : (p == 0) ≡ false = ground (arith, call.not_null) in
      rw (no_head, init_salloc-made mmap call.mapped, has_head) refl

  -- The first call of salloc, for fewer than 2^63 bytes, where the system maps 2^30 bytes below
  -- 2^64 that hold the rounded request and 32 bytes more: it ends with one unit of fuel and returns
  -- the first block, which is in use and holds the bytes asked for; the heap, one block when
  -- init_salloc made it, is tiled.
  pub first_call_safe :
      (mmap : ℕ → Option ℕ) (n : ℕ)
      → IsFirstCall mmap h p n
      → (g : Heap) × (salloc mmap 1 n h ≡ some (region_start p, g))
        × IsTaken (made_at h p) g (p ∷ []) (blocks_after (made_at h p) p (request n) (p ∷ [])) p n
  first_call_safe mmap n call =
      let served =
        salloc_safe mmap (p ∷ []) p n (made-IsReady call.not_null) (made-IsServable mmap n call) in
      (served.0, salloc-made mmap n 1 call ∙ served.1, served.2)
