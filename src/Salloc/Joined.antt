-- ===== src/Salloc/Joined.antt =====
-- A block of the allocator of sched_test_app/src/salloc.c joined to the one before it.
use chronos_project.Base.{
  ◌==◌, if◌then◌else◌, Bool-cases, ℕ, ◌+◌, ◌<◌, ◌≡◌, refl, ap, ◌∙◌, ◌≢◌, ◌⊎◌, inl, inr, Bool, true,
  false, List, arith,
}
use chronos_project.Salloc.{
  Heap, is_free, block_size, set_free, set_size, set_prev, set_next_free, set_prev_free, past_end,
  next_block, list_remove, insert_free, list_remove_free,
}
use chronos_project.Salloc.Sizes.{lists}
use chronos_project.Salloc.Taken.{block_size_even}
use chronos_project.Salloc.Tiles.{
  has, Tiled, filled, tile, IsTiled, remove, has-remove, merge-Tiled,
}

-- The block after `p` is the next tile.
pub next_tile :
    {h : Heap} {end a : ℕ} {xs : List ℕ} (p : ℕ)
    → Tiled h end a xs
    → has p xs ≡ true
    → p + block_size h p < end
    → has (p + block_size h p) xs ≡ true
next_tile p (filled e) mem before_end = ground arith
next_tile {h} p (tile {x} here big follows rest) mem before_end = elim (Bool-cases (p == x)) [
  | inl same ↦
      let e : p ≡ x = ground arith in
      let e' : block_size h p ≡ block_size h x = ap (block_size h) e in
      let first = first_tile rest (omega arith) in ground arith
  | inr other ↦ let later = next_tile p rest (ground arith) before_end in ground arith
]
  where
    first_tile : {b end : ℕ} {xs : List ℕ} → Tiled h end b xs → b < end → has b xs ≡ true
    first_tile (filled e) below = absurd (omega arith)
    first_tile (tile {x} here big follows rest) below = ground arith

-- Block `gone` has joined block `p` before it, and the rest of the heap has its sizes.
pub record IsMerged (h g : Heap) (p gone : ℕ) : Type 0 where
  pub head_same : g.head ≡ h.head
  pub total_same : g.total_size ≡ h.total_size
  pub sizes :
      (r : ℕ)
      → block_size g r ≡ (if r == p then block_size h p + block_size h gone else block_size h r)
  pub frees : (r : ℕ) → is_free g r ≡ (if r == gone then false else is_free h r)

-- The steps that both halves of `coalesce` make.
abbrev pub joined : Heap → (p gone : ℕ) → Heap
joined h p gone =
    list_remove_free (list_remove (set_size h p (block_size h p + block_size h gone)) gone) gone
      true

joined_size :
    (h : Heap) (p gone r : ℕ)
    → block_size (joined h p gone) r
      ≡ (if r == p then block_size h p + block_size h gone else block_size h r)
joined_size h p gone r =
    let even = block_size_even h p in
    let even' = block_size_even h gone in simp lists (ground arith)

joined_free :
    (h : Heap) (p gone r : ℕ)
    → is_free (joined h p gone) r ≡ (if r == gone then false else is_free h r)
joined_free h p gone r = simp lists (ground arith)

joined_extent :
    (h : Heap) (p gone : ℕ)
    → ((joined h p gone).head ≡ h.head) × ((joined h p gone).total_size ≡ h.total_size)
unfolding list_remove_free list_remove set_size set_free set_prev set_prev_free set_next_free
joined_extent h p gone = (refl, refl)

pub joined-IsMerged : (h : Heap) (p gone : ℕ) → IsMerged h (joined h p gone) p gone
joined-IsMerged h p gone = record {
  head_same = (joined_extent h p gone).0;
  total_same = (joined_extent h p gone).1;
  sizes = joined_size h p gone;
  frees = joined_free h p gone;
}

-- Between two heaps the blocks that are in use, but for `block`, keep their places, sizes and flags.
abbrev pub KeepsUsed : (h g : Heap) (xs ys : List ℕ) (block : ℕ) → Type 0
KeepsUsed h g xs ys block =
    (r : ℕ)
    → has r xs ≡ true
    → is_free h r ≡ false
    → r ≢ block
    → (has r ys ≡ true) × (block_size g r ≡ block_size h r) × (is_free g r ≡ false)

pub merged-IsTiled :
    {h g : Heap} {p gone : ℕ} {xs : List ℕ}
    → IsMerged h g p gone
    → IsTiled h xs
    → has p xs ≡ true
    → has gone xs ≡ true
    → gone ≡ p + block_size h p
    → IsTiled g (remove gone xs)
merged-IsTiled {p = p} {gone = gone} m tiled mem mem' place =
    simp (m.head_same, m.total_same) (merge-Tiled p gone tiled mem mem' place m.sizes)

pub merged-KeepsUsed :
    {h g : Heap} {p gone : ℕ} (xs : List ℕ) (block : ℕ)
    → IsMerged h g p gone
    → (gone ≡ block) ⊎ (is_free h gone ≡ true)
    → (p ≡ block) ⊎ (is_free h p ≡ true)
    → KeepsUsed h g xs (remove gone xs) block
merged-KeepsUsed {h} {g} {p} {gone} xs block m is_gone is_kept r mem used ne =
    let sizes = m.sizes r in
    let frees = m.frees r in
    let not_gone : r ≢ gone =
      λ e. let e' : is_free h r ≡ is_free h gone = ap (is_free h) e in ground arith in
    let not_kept : r ≢ p =
      λ e. let e' : is_free h r ≡ is_free h p = ap (is_free h) e in ground arith in
    let kept = has-remove r gone xs not_gone in (ground arith, ground arith, ground arith)

pub KeepsUsed-trans :
    (h g k : Heap) (xs ys zs : List ℕ) (block : ℕ)
    → KeepsUsed h g xs ys block
    → KeepsUsed g k ys zs block
    → KeepsUsed h k xs zs block
KeepsUsed-trans h g k xs ys zs block first second r mem used ne =
    let one = first r mem used ne in
    let two = second r one.0 one.2 ne in (two.0, two.1 ∙ one.1, two.2)

-- The `prev` links.
prev-set_size : (h : Heap) (r n q : ℕ) → ((set_size h r n).region q).prev ≡ (h.region q).prev
unfolding set_size
prev-set_size h r n q = ground arith

prev-list_remove :
    (h : Heap) (node q : ℕ)
    → q ≢ node
    → q ≢ next_block h node
    → ((list_remove h node).region q).prev ≡ (h.region q).prev
unfolding list_remove set_prev
prev-list_remove h node q ne not_next = ground arith

prev-list_remove_free :
    (h : Heap) (node : ℕ) (b : Bool) (q : ℕ)
    → ((list_remove_free h node b).region q).prev ≡ (h.region q).prev
unfolding list_remove_free set_free set_prev_free set_next_free
prev-list_remove_free h node b q = ground arith

pub prev-insert_free :
    (h : Heap) (list node q : ℕ) → ((insert_free h list node).region q).prev ≡ (h.region q).prev
unfolding insert_free set_free set_prev_free set_next_free
prev-insert_free h list node q = ground arith

next_block-set_size :
    (h : Heap) (r n q : ℕ) → q ≢ r → next_block (set_size h r n) q ≡ next_block h q
unfolding next_block past_end set_size block_size
next_block-set_size h r n q ne = ground arith

pub prev-joined :
    (h : Heap) (p gone q : ℕ)
    → q ≢ gone
    → q ≢ next_block h gone
    → gone ≢ p
    → ((joined h p gone).region q).prev ≡ (h.region q).prev
prev-joined h p gone q ne not_next apart =
    let h' = set_size h p (block_size h p + block_size h gone) in
    let e = next_block-set_size h p (block_size h p + block_size h gone) gone apart in
    prev-list_remove_free (list_remove h' gone) gone true q
    ∙ (prev-list_remove h' gone q ne (λ e'. not_next (e' ∙ e))
        ∙ prev-set_size h p (block_size h p + block_size h gone) q)
