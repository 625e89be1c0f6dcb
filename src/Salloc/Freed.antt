-- ===== src/Salloc/Freed.antt =====
-- What `sfree` of sched_test_app/src/salloc.c does to the blocks of the heap.
use chronos_project.Base.{
  ◌==◌, if◌then◌else◌, length, ℕ, ◌+◌, ◌-◌, ◌≤◌, ◌≡◌, refl, sym, ap, ◌∙◌, ◌≢◌, true, false, none,
  some, List, arith, ℕ_discrete,
}
use chronos_project.Salloc.{
  Heap, region_offset, region_start, is_free, block_size, set_free, set_next_free, set_prev_free,
  insert_free, coalesce,
}
use chronos_project.Salloc.Calls.{free_block, sfree}
use chronos_project.Salloc.FirstFit.{Links, first_of, find_free-Links}
use chronos_project.Salloc.Joined.{KeepsUsed-trans, prev-insert_free}
use chronos_project.Salloc.Merged.{IsLoose, IsFreed, coalesce_next_half, coalesce_prev_half}
use chronos_project.Salloc.Sizes.{headers, block_size-insert_free, is_free-insert_free}
use chronos_project.Salloc.Tiles.{has, IsTiled, Tiled-retype}

IsFreed-trans :
    {h g k : Heap} (xs ys zs : List ℕ) {block home : ℕ}
    → IsFreed h g xs ys block block
    → IsFreed g k ys zs block home
    → IsFreed h k xs zs block home
IsFreed-trans {h} {g} {k} xs ys zs {block} {home} one two =
    let ends = one.ends_after in
    record {
      tiled_after = two.tiled_after;
      kept = KeepsUsed-trans h g k xs ys zs block one.kept two.kept;
      home_block = two.home_block;
      home_free = two.home_free;
      starts_before = two.starts_before;
      ends_after = omega (arith, ends, two.ends_after);
    }

-- `coalesce` keeps the tiling and the used blocks.
coalesce_safe :
    (h : Heap) (xs : List ℕ) (block : ℕ)
    → IsLoose h xs block
    → (ys : List ℕ) × (home : ℕ) × IsFreed h (coalesce h block) xs ys block home
unfolding coalesce
coalesce_safe h xs block l =
    let first = coalesce_next_half l in
    let second = coalesce_prev_half first.1 in
    (second.0, second.1, IsFreed-trans xs first.0 second.0 first.2 second.2)

-- A block that `salloc` gave out, in a tiled heap; `back` are the blocks before it, from the last
-- one on around to the one after it.
pub record IsUsed (h : Heap) (xs back : List ℕ) (block : ℕ) : Type 0 where
  pub tiled : IsTiled h xs
  pub is_block : has block xs ≡ true
  pub used : is_free h block ≡ false
  pub linked_before : block ≢ h.head → has (h.region block).prev xs ≡ true
  pub ends_at : block ≢ h.head → (h.region block).prev + block_size h (h.region block).prev ≡ block
  pub links : Links (λ q. (h.region q).prev) block (h.region block).prev back

insert_free_extent :
    (h : Heap) (list node : ℕ)
    → ((insert_free h list node).head ≡ h.head)
      × ((insert_free h list node).total_size ≡ h.total_size)
unfolding insert_free set_free set_prev_free set_next_free
insert_free_extent h list node = (refl, refl)

-- The free list re-initialized with `block` alone.
abbrev restarted : Heap → (block : ℕ) → Heap
restarted h block =
    set_free
      (set_prev_free (set_next_free (record h { free_list = block }) block block) block block) block
      true

restarted_size : (h : Heap) (block q : ℕ) → block_size (restarted h block) q ≡ block_size h q
unfolding block_size
restarted_size h block q = simp headers

restarted_free :
    (h : Heap) (block q : ℕ)
    → is_free (restarted h block) q ≡ (if block == q then true else is_free h q)
unfolding is_free
restarted_free h block q = simp headers

restarted_extent :
    (h : Heap) (block : ℕ)
    → ((restarted h block).head ≡ h.head) × ((restarted h block).total_size ≡ h.total_size)
unfolding set_free set_prev_free set_next_free
restarted_extent h block = (refl, refl)

module _ {h : Heap} {xs back : List ℕ} {block : ℕ} (u : IsUsed h xs back block) where
  inserted_IsLoose : (curr : ℕ) → IsLoose (insert_free h curr block) xs block
  inserted_IsLoose curr =
      let extent = insert_free_extent h curr block in
      let sizes = block_size-insert_free h curr block in
      let link = prev-insert_free h curr block block in
      record {
        tiled = simp (extent.0, extent.1) (Tiled-retype u.tiled λ q le. sizes q);
        is_block = u.is_block;
        loose = let frees = is_free-insert_free h curr block block in ground arith;
        linked_before = λ ne. rw link (u.linked_before λ e. ne (e ∙ sym extent.0));
        ends_at =
            λ ne. rw (link, sizes (h.region block).prev) (u.ends_at λ e. ne (e ∙ sym extent.0));
      }

  inserted_IsFreed : (curr : ℕ) → IsFreed h (insert_free h curr block) xs xs block block
  inserted_IsFreed curr =
      let sizes = block_size-insert_free h curr block in
      let l = inserted_IsLoose curr in
      record {
        tiled_after = l.tiled;
        kept = λ r mem used ne.
            let frees = is_free-insert_free h curr block r in (mem, sizes r, ground arith);
        home_block = u.is_block;
        home_free = l.loose;
        starts_before = omega arith;
        ends_after = omega (arith, sizes block);
      }

  restarted-IsFreed : IsFreed h (restarted h block) xs xs block block
  restarted-IsFreed =
      let sizes = restarted_size h block in
      let extent = restarted_extent h block in
      record {
        tiled_after = simp (extent.0, extent.1) (Tiled-retype u.tiled λ q le. sizes q);
        kept =
            λ r mem used ne. let frees = restarted_free h block r in (mem, sizes r, ground arith);
        home_block = u.is_block;
        home_free = let frees = restarted_free h block block in ground arith;
        starts_before = omega arith;
        ends_after = omega (arith, sizes block);
      }

  free_block_safe :
      (curr : ℕ) → (ys : List ℕ) × (home : ℕ) × IsFreed h (free_block h block curr) xs ys block home
  unfolding free_block
  free_block_safe curr = elim (ℕ_discrete curr block) [
    | yes e ↦
        let alone : (curr == block) ≡ true = ground arith in
        (xs, block, rw (alone, e) restarted-IsFreed)
    | no ne ↦
        let other : (curr == block) ≡ false = ground arith in
        let merged = coalesce_safe (insert_free h curr block) xs block (inserted_IsLoose curr) in
        (
          merged.0,
          merged.1,
          rw other (IsFreed-trans xs xs merged.0 (inserted_IsFreed curr) merged.2),
        )
  ]

  -- For a block in use of a tiled heap, whose prev links lead to the block before it and around
  -- the heap, and fuel for each block on the way, sfree ends: the heap is tiled again, every other
  -- block in use keeps its place and size and stays in use, and the bytes of the block lie in one
  -- free block.
  pub sfree_safe :
      (fuel : ℕ)
      → length back ≤ fuel
      → (g : Heap) × (sfree fuel (region_start block) h ≡ some g)
        × (ys : List ℕ) × (home : ℕ) × IsFreed h g xs ys block home
  unfolding sfree
  sfree_safe fuel enough =
      let found_free = find_free-Links h fuel block u.links enough in
      let place : region_start block - region_offset ≡ block = omega arith in
      let curr : ℕ = elim (first_of (is_free h) back) [ none ↦ block | some q ↦ q ] in
      let freed = free_block_safe curr in
      (
        free_block h block curr,
        rw (sfree, place, found_free) (ap (λ b. some (free_block h b curr)) place),
        freed.0,
        freed.1,
        freed.2,
      )
