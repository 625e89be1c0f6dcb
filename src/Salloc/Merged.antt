-- ===== src/Salloc/Merged.antt =====
-- What `coalesce` of sched_test_app/src/salloc.c does to the blocks of the heap.
-- Block `block` of a tiled heap is free, and its `prev` link leads to the block before it.
use chronos_project.Base.{
  leb, ◌==◌, Bool-cases, ℕ, ◌+◌, ◌≤◌, ◌<◌, ◌≡◌, refl, sym, ◌∙◌, ◌≢◌, ◌⊎◌, inl, inr, true, not, ◌&&◌,
  List, arith,
}
use chronos_project.Salloc.{
  Heap, is_free, block_size, past_end, next_block, coalesce_next, coalesce_prev,
}
use chronos_project.Salloc.Joined.{
  next_tile, joined, joined-IsMerged, KeepsUsed, merged-IsTiled, merged-KeepsUsed, prev-joined,
}
use chronos_project.Salloc.Tiles.{has, IsTiled, remove, has-remove, block_bounds}

pub record IsLoose (h : Heap) (xs : List ℕ) (block : ℕ) : Type 0 where
  pub tiled : IsTiled h xs
  pub is_block : has block xs ≡ true
  pub loose : is_free h block ≡ true
  pub linked_before : block ≢ h.head → has (h.region block).prev xs ≡ true
  pub ends_at : block ≢ h.head → (h.region block).prev + block_size h (h.region block).prev ≡ block

-- The heap `g` is tiled by `ys`, keeps the used blocks of `h`, and has the bytes of `block` in the
-- free block `home`.
pub record IsFreed (h g : Heap) (xs ys : List ℕ) (block home : ℕ) : Type 0 where
  pub tiled_after : IsTiled g ys
  pub kept : KeepsUsed h g xs ys block
  pub home_block : has home ys ≡ true
  pub home_free : is_free g home ≡ true
  pub starts_before : home ≤ block
  pub ends_after : block + block_size h block ≤ home + block_size g home

module _ {h : Heap} {xs : List ℕ} {block : ℕ} (l : IsLoose h xs block) where
  -- A following block that is not the first one is the next tile.
  next_cases :
      (next_block h block ≡ h.head)
      ⊎ ((next_block h block ≡ block + block_size h block)
          × (has (block + block_size h block) xs ≡ true))
  unfolding next_block past_end
  next_cases = elim (Bool-cases (leb (h.head + h.total_size) (block + block_size h block))) [
    | inl past ↦ inl (rw past refl)
    | inr inside ↦ inr (rw inside refl, next_tile block l.tiled l.is_block (ground arith))
  ]

  not_next : (q : ℕ) → block ≢ h.head → block < q → block ≢ next_block h q
  unfolding next_block past_end
  not_next q ne below = ground arith

  module _ (q : ℕ) (place : q ≡ block + block_size h block) (mem : has q xs ≡ true)
      (free_q : is_free h q ≡ true) where
    below : block < q
    below = let bounds = block_bounds block l.tiled l.is_block in omega (arith, bounds)

    -- The link and the block it leads to are not the joined block's.
    link_kept :
        block ≢ h.head
        → (((joined h block q).region block).prev ≡ (h.region block).prev)
          × ((h.region block).prev < block)
    link_kept ne =
        let before_ends = l.ends_at ne in
        let bounds = block_bounds (h.region block).prev l.tiled (l.linked_before ne) in
        (
          prev-joined h block q block (λ e. absurd (omega (arith, e, below))) (not_next q ne below)
              (λ e. absurd (omega (arith, e, below))),
          omega (arith, bounds, before_ends),
        )

    next_IsLoose : IsLoose (joined h block q) (remove q xs) block
    next_IsLoose =
        let m = joined-IsMerged h block q in
        let not_q : block ≢ q = λ e. absurd (omega (arith, e, below)) in
        let loose = l.loose in
        record {
          tiled = merged-IsTiled m l.tiled l.is_block mem place;
          is_block = has-remove block q xs not_q ∙ l.is_block;
          loose = let frees = m.frees block in ground arith;
          linked_before = λ ne.
              let ne' : block ≢ h.head = λ e. ne (e ∙ sym m.head_same) in
              let link = link_kept ne' in
              rw link.0 (
                has-remove (h.region block).prev q xs
                  (λ e. absurd (omega (arith, e, below, link.1)))
                ∙ l.linked_before ne');
          ends_at = λ ne.
              let ne' : block ≢ h.head = λ e. ne (e ∙ sym m.head_same) in
              let link = link_kept ne' in
              let ends = l.ends_at ne' in
              let sizes = m.sizes (h.region block).prev in rw link.0 (ground (arith, link.1));
        }

    next_IsFreed : IsFreed h (joined h block q) xs (remove q xs) block block
    next_IsFreed =
        let m = joined-IsMerged h block q in
        let not_q : block ≢ q = λ e. absurd (omega (arith, e, below)) in
        let loose = l.loose in
        let frees = m.frees block in
        let sizes = m.sizes block in
        record {
          tiled_after = next_IsLoose.tiled;
          kept = merged-KeepsUsed xs block m (inr free_q) (inl refl);
          home_block = next_IsLoose.is_block;
          home_free = next_IsLoose.loose;
          starts_before = omega arith;
          ends_after = ground arith;
        }

  -- A block that joins no other.
  alone_IsFreed : IsFreed h h xs xs block block
  alone_IsFreed = record {
    tiled_after = l.tiled;
    kept = λ r mem used ne. (mem, refl, used);
    home_block = l.is_block;
    home_free = l.loose;
    starts_before = omega arith;
    ends_after = omega arith;
  }

  pub coalesce_next_half :
      (ys : List ℕ) × IsLoose (coalesce_next h block) ys block
      × IsFreed h (coalesce_next h block) xs ys block block
  unfolding coalesce_next
  coalesce_next_half =
      elim (Bool-cases (not (next_block h block == h.head) && is_free h (next_block h block))) [
        | inr stays ↦ (xs, rw stays l, rw stays alone_IsFreed)
        | inl joins ↦ elim next_cases [
          | inl first ↦ absurd (ground arith)
          | inr inside ↦
              let mem : has (next_block h block) xs ≡ true = rw inside.0 inside.1 in
              let free_next : is_free h (next_block h block) ≡ true = ground arith in
              (
                remove (next_block h block) xs,
                rw joins (next_IsLoose (next_block h block) inside.0 mem free_next),
                rw joins (next_IsFreed (next_block h block) inside.0 mem free_next),
              )
        ]
      ]

  pub coalesce_prev_half :
      (ys : List ℕ) × (home : ℕ) × IsFreed h (coalesce_prev h block) xs ys block home
  unfolding coalesce_prev
  coalesce_prev_half =
      elim (Bool-cases (not (block == h.head) && is_free h (h.region block).prev)) [
        | inr stays ↦ (xs, block, rw stays alone_IsFreed)
        | inl joins ↦
            let previous = (h.region block).prev in
            let ne : block ≢ h.head = ground arith in
            let free_before : is_free h (h.region block).prev ≡ true = ground arith in
            let mem = l.linked_before ne in
            let ends = l.ends_at ne in
            let bounds = block_bounds (h.region block).prev l.tiled mem in
            let m = joined-IsMerged h (h.region block).prev block in
            let sizes = m.sizes (h.region block).prev in
            let frees = m.frees (h.region block).prev in
            let not_block : (h.region block).prev ≢ block = λ e. absurd (omega arith) in
            (
              remove block xs,
              (h.region block).prev,
              rw joins (record {
                tiled_after = merged-IsTiled m l.tiled mem l.is_block (sym ends);
                kept = merged-KeepsUsed xs block m (inl refl) (inr free_before);
                home_block = has-remove (h.region block).prev block xs not_block ∙ mem;
                home_free = ground arith;
                starts_before = omega arith;
                ends_after = ground arith;
              }),
            )
      ]
