-- ===== src/Salloc/FirstFit.antt =====
-- The loops of sched_test_app/src/salloc.c over its circular lists: the search of `_salloc` through
-- the free blocks and the search of `sfree` back through all blocks.
use chronos_project.Base.{
  leb, ◌==◌, if◌then◌else◌, length, ℕ, zero, suc, ◌+◌, ◌%◌, ◌^◌, ◌≤◌, ◌<◌, ◌≡◌, refl, ◌∙◌, ◌≢◌, ◌⊎◌,
  Bool, false, Option, none, some, List, [], ◌∷◌, arith,
}
use chronos_project.Salloc.{Heap, region_start, is_free, usable_size}
use chronos_project.Salloc.Calls.{
  increase_heap_size, fits, no_fit, first_fit, take_block, SallocResult, attempt, salloc_retry,
  salloc_block, request, salloc, find_free,
}

-- From `curr` the links of a circular list lead through `xs` back to `stop`.
pub data Links (f : ℕ → ℕ) (stop : ℕ) : ℕ → List ℕ → Type 0 where
  wraps : {curr : ℕ} → f curr ≡ stop → Links f stop curr (curr ∷ [])
  hops :
      {curr q : ℕ} {xs : List ℕ}
      → f curr ≡ q
      → q ≢ stop
      → Links f stop q xs
      → Links f stop curr (curr ∷ xs)

-- The first block of a list that passes a test.
abbrev pub first_of : (ℕ → Bool) → List ℕ → Option ℕ
first_of test [] = none
first_of test (x ∷ xs) = if test x then some x else first_of test xs

abbrev pub large_enough : Heap → (size block : ℕ) → Bool
large_enough h n q = leb n (usable_size h q)

pub first_fit-Links :
    {curr : ℕ} {xs : List ℕ} (h : Heap) (fuel n : ℕ)
    → Links (λ q. (h.region q).next_free) h.free_list curr xs
    → length xs ≤ fuel
    → first_fit h fuel n curr
      ≡ (elim (first_of (large_enough h n) xs) [ none ↦ no_fit | some q ↦ fits q ])
unfolding first_fit
first_fit-Links h zero n (wraps e) enough = absurd (omega arith)
first_fit-Links h zero n (hops e ne rest) enough = absurd (omega arith)
first_fit-Links h (suc fuel) n (wraps e) enough = ground arith
first_fit-Links h (suc fuel) n (hops e ne rest) enough =
    let later = first_fit-Links h fuel n rest (omega arith) in ground (arith, later)

pub find_free-Links :
    {curr : ℕ} {xs : List ℕ} (h : Heap) (fuel block : ℕ)
    → Links (λ q. (h.region q).prev) block curr xs
    → length xs ≤ fuel
    → find_free h fuel block curr
      ≡ some (elim (first_of (is_free h) xs) [ none ↦ block | some q ↦ q ])
unfolding find_free
find_free-Links h zero block (wraps e) enough = absurd (omega arith)
find_free-Links h zero block (hops e ne rest) enough = absurd (omega arith)
find_free-Links h (suc fuel) block (wraps e) enough = ground arith
find_free-Links h (suc fuel) block (hops e ne rest) enough =
    let later = find_free-Links h fuel block rest (omega arith) in ground (arith, later)

-- A request is rounded up to an even size of at least 16 bytes, by less than 16 bytes beyond that.
pub request_bounds :
    (n : ℕ)
    → n < 2 ^ 63
    → (n ≤ request n)
      × (16 ≤ request n)
      × (request n % 2 ≡ 0)
      × (request n < n + 16 ⊎ (request n ≡ 16))
unfolding request
request_bounds n small = ground arith

-- A heap that is made, with a ring of free blocks and fuel for each of them.
pub record IsReady (fuel : ℕ) (h : Heap) (frees : List ℕ) : Type 0 where
  pub made : h.head ≢ 0
  pub some_free : h.free_list ≢ 0
  pub ring : Links (λ q. (h.region q).next_free) h.free_list h.free_list frees
  pub fuelled : length frees ≤ fuel

increase_refused :
    (mmap : ℕ → Option ℕ) (h : Heap)
    → mmap (h.head + h.total_size) ≡ none
    → increase_heap_size mmap h ≡ (false, h)
unfolding increase_heap_size
increase_refused mmap h refused = rw (refused, increase_heap_size)

module _ {fuel : ℕ} {h : Heap} {frees : List ℕ} (ready : IsReady fuel h frees) where
  attempt_first :
      (n : ℕ) (otherwise : SallocResult)
      → attempt fuel n h otherwise ≡ (elim (first_of (large_enough h n) frees) [
        | none ↦ otherwise
        | some q ↦ some (region_start q, take_block h q n)
      ])
  unfolding attempt
  attempt_first n otherwise =
      let list_set : (h.free_list == 0) ≡ false = ground (arith, ready.some_free) in
      rw (list_set, first_fit-Links h fuel n ready.ring ready.fuelled) (ground arith)

  -- A call that finds a block asks the system for nothing.
  pub salloc_retry-served :
      (mmap : ℕ → Option ℕ) (n retry q : ℕ)
      → first_of (large_enough h n) frees ≡ some q
      → salloc_retry mmap fuel n retry h ≡ some (region_start q, take_block h q n)
  unfolding salloc_retry
  salloc_retry-served mmap n zero q first = attempt_first n (some (0, h)) ∙ rw first refl
  salloc_retry-served mmap n (suc retry) q first =
      let grown = increase_heap_size mmap h in
      let again = salloc_retry mmap fuel n retry grown.1 in
      attempt_first n (if grown.0 then again else some (0, grown.1)) ∙ rw first refl

  pub salloc-served :
      (mmap : ℕ → Option ℕ) (n q : ℕ)
      → first_of (large_enough h (request n)) frees ≡ some q
      → salloc mmap fuel n h ≡ some (region_start q, take_block h q (request n))
  unfolding salloc salloc_block
  salloc-served mmap n q first =
      let head_set : (h.head == 0) ≡ false = ground (arith, ready.made) in
      rw head_set (salloc_retry-served mmap (request n) 1 q first)

  -- On a heap that is made, with a ring of free blocks, fuel for each of them, and no more memory
  -- from the system, salloc returns the first block of the ring that has the usable bytes of the
  -- rounded request, as take_block leaves it; without such a block it returns the null pointer and
  -- the heap as it was.
  pub salloc_lem :
      (mmap : ℕ → Option ℕ) (n : ℕ)
      → mmap (h.head + h.total_size) ≡ none
      → salloc mmap fuel n h
        ≡ some (elim (first_of (large_enough h (request n)) frees) [
          | none ↦ (0, h)
          | some q ↦ (region_start q, take_block h q (request n))
        ])
  unfolding salloc salloc_block salloc_retry
  salloc_lem mmap n refused =
      let head_set : (h.head == 0) ≡ false = ground (arith, ready.made) in
      let same : salloc_retry mmap fuel (request n) 1 h ≡ attempt fuel (request n) h (some (0, h)) =
        rw (increase_refused mmap h refused) in
      rw head_set (same ∙ (attempt_first (request n) (some (0, h)) ∙ ground arith))
