-- ===== src/Salloc/Sizes.antt =====
-- What the operations of the allocator's lists do to the sizes and the flags of the blocks.
use chronos_project.Base.{◌==◌, if◌then◌else◌, ℕ, ◌-◌, ◌%◌, ◌≡◌, Bool, true, false, arith}
use chronos_project.Salloc.{
  Heap, is_free, block_size, set_free, set_size, set_prev, set_next_free, set_prev_free,
  insert_block, list_remove, insert_free, list_remove_free,
}

pub block_size-set_prev : (h : Heap) (r p q : ℕ) → block_size (set_prev h r p) q ≡ block_size h q
unfolding block_size set_prev
block_size-set_prev h r p q = ground arith

pub block_size-set_next_free :
    (h : Heap) (r p q : ℕ) → block_size (set_next_free h r p) q ≡ block_size h q
unfolding block_size set_next_free
block_size-set_next_free h r p q = ground arith

pub block_size-set_prev_free :
    (h : Heap) (r p q : ℕ) → block_size (set_prev_free h r p) q ≡ block_size h q
unfolding block_size set_prev_free
block_size-set_prev_free h r p q = ground arith

pub block_size-set_free :
    (h : Heap) (r : ℕ) (b : Bool) (q : ℕ) → block_size (set_free h r b) q ≡ block_size h q
unfolding block_size set_free
block_size-set_free h r b q = ground arith

pub block_size-set_size :
    (h : Heap) (r n q : ℕ)
    → block_size (set_size h r n) q ≡ (if r == q then n - n % 2 else block_size h q)
unfolding block_size set_size is_free
block_size-set_size h r n q = ground arith

pub is_free-set_prev : (h : Heap) (r p q : ℕ) → is_free (set_prev h r p) q ≡ is_free h q
unfolding is_free set_prev
is_free-set_prev h r p q = ground arith

pub is_free-set_next_free : (h : Heap) (r p q : ℕ) → is_free (set_next_free h r p) q ≡ is_free h q
unfolding is_free set_next_free
is_free-set_next_free h r p q = ground arith

pub is_free-set_prev_free : (h : Heap) (r p q : ℕ) → is_free (set_prev_free h r p) q ≡ is_free h q
unfolding is_free set_prev_free
is_free-set_prev_free h r p q = ground arith

pub is_free-set_free :
    (h : Heap) (r : ℕ) (b : Bool) (q : ℕ)
    → is_free (set_free h r b) q ≡ (if r == q then b else is_free h q)
unfolding is_free block_size set_free
is_free-set_free h r b q = ground arith

pub is_free-set_size : (h : Heap) (r n q : ℕ) → is_free (set_size h r n) q ≡ is_free h q
unfolding is_free set_size
is_free-set_size h r n q = ground arith

pub ruleset headers = (
  block_size-set_prev, block_size-set_next_free, block_size-set_prev_free, block_size-set_free,
  block_size-set_size, is_free-set_prev, is_free-set_next_free, is_free-set_prev_free,
  is_free-set_free, is_free-set_size,
)

pub block_size-insert_block :
    (h : Heap) (list node q : ℕ) → block_size (insert_block h list node) q ≡ block_size h q
unfolding insert_block
block_size-insert_block h list node q = simp headers

pub block_size-list_remove :
    (h : Heap) (node q : ℕ) → block_size (list_remove h node) q ≡ block_size h q
unfolding list_remove
block_size-list_remove h node q = simp headers

pub block_size-insert_free :
    (h : Heap) (list node q : ℕ) → block_size (insert_free h list node) q ≡ block_size h q
unfolding insert_free
block_size-insert_free h list node q = simp headers

pub block_size-list_remove_free :
    (h : Heap) (node : ℕ) (combined : Bool) (q : ℕ)
    → block_size (list_remove_free h node combined) q ≡ block_size h q
unfolding list_remove_free block_size
block_size-list_remove_free h node combined q = simp headers

pub is_free-insert_block :
    (h : Heap) (list node q : ℕ) → is_free (insert_block h list node) q ≡ is_free h q
unfolding insert_block
is_free-insert_block h list node q = simp headers

pub is_free-list_remove : (h : Heap) (node q : ℕ) → is_free (list_remove h node) q ≡ is_free h q
unfolding list_remove
is_free-list_remove h node q = simp headers

pub is_free-insert_free :
    (h : Heap) (list node q : ℕ)
    → is_free (insert_free h list node) q ≡ (if node == q then true else is_free h q)
unfolding insert_free
is_free-insert_free h list node q = simp headers

pub is_free-list_remove_free :
    (h : Heap) (node : ℕ) (combined : Bool) (q : ℕ)
    → is_free (list_remove_free h node combined) q ≡ (if node == q then false else is_free h q)
unfolding list_remove_free is_free
is_free-list_remove_free h node combined q = simp headers

pub ruleset lists = (
  headers, block_size-insert_block, block_size-list_remove, block_size-insert_free,
  block_size-list_remove_free, is_free-insert_block, is_free-list_remove, is_free-insert_free,
  is_free-list_remove_free,
)
