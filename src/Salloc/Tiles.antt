-- ===== src/Salloc/Tiles.antt =====
-- The blocks of the allocator's heap, sched_test_app/src/salloc.c, as a tiling of the memory.
use chronos_project.Base.{
  ◌==◌, if◌then◌else◌, Bool-cases, ℕ, ◌+◌, ◌≤◌, ◌<◌, ◌≡◌, refl, sym, ap, ◌≢◌, ◌⊎◌, inl, inr, Bool,
  true, false, ◌||◌, List, [], ◌∷◌, arith, ℕ_discrete,
}
use chronos_project.Salloc.{Heap, block_size}

abbrev pub has : ℕ → List ℕ → Bool
has p [] = false
has p (x ∷ xs) = p == x || has p xs

-- The blocks from `a` on, each of at least the 32 bytes of a header, fill the memory to `end`.
pub data Tiled (h : Heap) (end : ℕ) : ℕ → List ℕ → Type 0 where
  filled : {a : ℕ} → a ≡ end → Tiled h end a []
  tile :
      {a x b : ℕ} {xs : List ℕ}
      → x ≡ a
      → 32 ≤ block_size h x
      → b ≡ x + block_size h x
      → Tiled h end b xs
      → Tiled h end a (x ∷ xs)

-- The list of all blocks, from `head` on.
abbrev pub IsTiled : Heap → List ℕ → Type 0
IsTiled h xs = Tiled h (h.head + h.total_size) h.head xs

abbrev pub insert_after : (p q : ℕ) → List ℕ → List ℕ
insert_after p q [] = []
insert_after p q (x ∷ xs) = if p == x then x ∷ q ∷ xs else x ∷ insert_after p q xs

abbrev pub remove : ℕ → List ℕ → List ℕ
remove p [] = []
remove p (x ∷ xs) = if p == x then xs else x ∷ remove p xs

pub has-insert_after :
    (r p q : ℕ) (xs : List ℕ)
    → has p xs ≡ true
    → has r (insert_after p q xs) ≡ (has r xs || (r == q))
has-insert_after r p q [] mem = ground arith
has-insert_after r p q (x ∷ xs) mem = elim (Bool-cases (p == x)) [
  | inl same ↦ rw same (ground arith)
  | inr other ↦ let rest = has-insert_after r p q xs (ground arith) in rw other (ground arith)
]

pub has-remove : (r q : ℕ) (xs : List ℕ) → r ≢ q → has r (remove q xs) ≡ has r xs
has-remove r q [] ne = refl
has-remove r q (x ∷ xs) ne = let rest = has-remove r q xs ne in ground arith

-- Only the sizes from the first block on matter.
pub Tiled-retype :
    {h g : Heap} {end a : ℕ} {xs : List ℕ}
    → Tiled h end a xs
    → ((q : ℕ) → a ≤ q → block_size g q ≡ block_size h q)
    → Tiled g end a xs
Tiled-retype (filled e) same = filled e
Tiled-retype (tile {x} here big follows rest) same =
    let e = same x (omega arith) in
    tile here (omega arith) (omega arith) (Tiled-retype rest λ q le. same q (omega arith))

module _ {h : Heap} {end : ℕ} where
  pub Tiled-from : {a b : ℕ} {xs : List ℕ} → Tiled h end a xs → a ≡ b → Tiled h end b xs
  Tiled-from (filled e) origin = filled (omega arith)
  Tiled-from (tile here big follows rest) origin = tile (omega arith) big follows rest

  pub Tiled-ordered : {a : ℕ} {xs : List ℕ} → Tiled h end a xs → a ≤ end
  Tiled-ordered (filled e) = omega arith
  Tiled-ordered (tile here big follows rest) = omega (arith, Tiled-ordered rest)

  pub not-has_below : {a : ℕ} {xs : List ℕ} (p : ℕ) → Tiled h end a xs → p < a → has p xs ≡ false
  not-has_below p (filled e) below = refl
  not-has_below p (tile here big follows rest) below =
      let later = not-has_below p rest (omega arith) in ground arith

  -- A block lies between the bounds.
  pub block_bounds :
      {a : ℕ} {xs : List ℕ} (p : ℕ)
      → Tiled h end a xs
      → has p xs ≡ true
      → (a ≤ p) × (32 ≤ block_size h p) × (p + block_size h p ≤ end)
  block_bounds p (filled e) mem = ground arith
  block_bounds p (tile {x} here big follows rest) mem =
      let ordered = Tiled-ordered rest in
      elim (ℕ_discrete p x) [
        | yes same ↦
            let e' : block_size h p ≡ block_size h x = ap (block_size h) same in
            (omega arith, omega arith, omega arith)
        | no other ↦
            let later = block_bounds p rest (ground arith) in (omega arith, later.1, later.2)
      ]

  -- Two blocks do not overlap.
  pub blocks_disjoint :
      {a : ℕ} {xs : List ℕ} (p q : ℕ)
      → Tiled h end a xs
      → has p xs ≡ true
      → has q xs ≡ true
      → p ≢ q
      → (p + block_size h p ≤ q) ⊎ (q + block_size h q ≤ p)
  blocks_disjoint p q (filled e) mem_p mem_q ne = ground arith
  blocks_disjoint p q (tile {x} here big follows rest) mem_p mem_q ne = elim (ℕ_discrete p x) [
    | yes at_p ↦
        let e' : block_size h p ≡ block_size h x = ap (block_size h) at_p in
        inl (omega (arith, block_bounds q rest (ground arith)))
    | no not_p ↦ elim (ℕ_discrete q x) [
      | yes at_q ↦
          let e' : block_size h q ≡ block_size h x = ap (block_size h) at_q in
          inr (omega (arith, block_bounds p rest (ground arith)))
      | no not_q ↦ blocks_disjoint p q rest (ground arith) (ground arith) ne
    ]
  ]

-- Block `p` cut in two: its first `c` bytes, and a block `q` of the rest.
pub split-Tiled :
    {h g : Heap} {end a : ℕ} {xs : List ℕ} (p q c s : ℕ)
    → Tiled h end a xs
    → has p xs ≡ true
    → c + s ≡ block_size h p
    → 32 ≤ c
    → 32 ≤ s
    → q ≡ p + c
    → ((r : ℕ) → block_size g r ≡ (if r == q then s else if r == p then c else block_size h r))
    → Tiled g end a (insert_after p q xs)
split-Tiled p q c s (filled e) mem parts big_c big_s place sizes = ground arith
split-Tiled {h} {g} p q c s (tile {x} {b} {xs} here big follows rest) mem parts big_c big_s place
      sizes =
    let size_x = sizes x in
    let size_q = sizes q in
    elim (Bool-cases (p == x)) [
      | inl same ↦
          let e : p ≡ x = ground arith in
          let e' : block_size h p ≡ block_size h x = ap (block_size h) e in
          let x_c : block_size g x ≡ c = ground arith in
          let q_s : block_size g q ≡ s = ground arith in
          rw same (
            tile here (omega arith) refl (
              tile (omega arith) (omega arith) (omega arith)
                (Tiled-retype rest λ r le. let size_r = sizes r in ground arith)))
      | inr other ↦
          let mem' : has p xs ≡ true = ground arith in
          let bounds = block_bounds p rest mem' in
          let x_x : block_size g x ≡ block_size h x = ground arith in
          rw other (
            tile here (omega arith) (omega arith)
              (split-Tiled p q c s rest mem' parts big_c big_s place sizes))
    ]

merge_first :
    {h g : Heap} {end a : ℕ} {ys : List ℕ} (p q : ℕ)
    → Tiled h end q ys
    → p ≡ a
    → 32 ≤ block_size h p
    → q ≡ p + block_size h p
    → has q ys ≡ true
    → ((r : ℕ)
        → block_size g r ≡ (if r == p then block_size h p + block_size h q else block_size h r))
    → Tiled g end a (p ∷ remove q ys)
merge_first p q (filled e) here big place mem sizes = ground arith
merge_first {h} {g} p q (tile {x = y} {b = b} {xs = ys} e big' follows rest) here big place mem
      sizes =
    let size_p : block_size g p ≡ block_size h p + block_size h q = ground (arith, sizes p) in
    let size_y : block_size h y ≡ block_size h q = ap (block_size h) e in
    let first : (q == y) ≡ true = ground arith in
    rw first (
      tile {b = b} here (omega arith) (omega arith)
        (Tiled-retype rest λ r le. let size_r = sizes r in ground arith))

-- Block `q` joined to the block `p` before it.
pub merge-Tiled :
    {h g : Heap} {end a : ℕ} {xs : List ℕ} (p q : ℕ)
    → Tiled h end a xs
    → has p xs ≡ true
    → has q xs ≡ true
    → q ≡ p + block_size h p
    → ((r : ℕ)
        → block_size g r ≡ (if r == p then block_size h p + block_size h q else block_size h r))
    → Tiled g end a (remove q xs)
merge-Tiled p q (filled e) mem_p mem_q place sizes = ground arith
merge-Tiled {h} {g} p q (tile {x} {b} {xs} here big follows rest) mem_p mem_q place sizes =
    let size_x = sizes x in
    elim (Bool-cases (p == x)) [
      | inl same ↦
          let e : p ≡ x = ground arith in
          let e' : block_size h p ≡ block_size h x = ap (block_size h) e in
          let not_q : (q == x) ≡ false = ground arith in
          let origin : b ≡ q = omega arith in
          rw (not_q, sym e)
            (merge_first p q (Tiled-from rest origin) (omega arith) (omega arith) place
              (ground arith) sizes)
      | inr other ↦
          let mem' : has p xs ≡ true = ground arith in
          let bounds = block_bounds p rest mem' in
          let x_x : block_size g x ≡ block_size h x = ground arith in
          let q_later : (q == x) ≡ false = ground arith in
          rw q_later (
            tile {b = b} here (omega arith) (omega arith)
              (merge-Tiled p q rest mem' (ground arith) place sizes))
    ]
