-- ===== src/SearchTree.antt =====
-- The search tree workload: sched_test_app/src/workloads/bst.h. A pointer to a node is the way to
-- it from the head, from the head on.
mod Tests
pub mod Order
pub mod Walk
use chronos_project.Base.{
  if◌then◌else◌, ℕ, zero, suc, ◌+◌, ◌/◌, ◌%◌, ◌^◌, Bool, true, false, Option, none, some, List, [],
  ◌∷◌, ◌++◌,
}
use chronos_project.Base.Int.{ℤ, pos, ltb_ℤ, to_int}
use chronos_project.Group.Start.{count}
use chronos_project.Options.{eq_ℤ}
use chronos_project.Random.{lfsrandom32, init_lfsrandom32}

-- `struct bst_node`, with the null pointer. The false value is kept as its 32 bits.
pub data Tree : Type 0 where
  null_tree : Tree
  bst_node : (label : ℤ) → (false_value : ℕ) → (left right : Tree) → Tree

pub data Side : Type 0 where
  to_left : Side
  to_right : Side

-- `struct bst_data`. `next_node` of an empty tree is the null pointer, which no way leads to.
pub record BstData : Type 0 where
  pub head : Tree
  pub next_node : List Side
  pub finding_value : ℤ
  pub num_elements : ℕ
  pub rand : ℕ

-- `_insert_bst_node` and `insert_bst_node`. `old` is what the new node's false value is before any
-- assignment.
unfoldable pub insert_bst_node : Tree → (label : ℤ) → (old : ℕ) → Tree
insert_bst_node null_tree n old = bst_node n old null_tree null_tree
insert_bst_node (bst_node v f l r) n old =
    let in_left = insert_bst_node l n old in
    let in_right = insert_bst_node r n old in
    if ltb_ℤ n v then bst_node v f in_left r else bst_node v f l in_right

-- The loop over `count` nodes, with the generator's state at its end.
unfoldable pub insert_bst_nodes : (count rand : ℕ) → (old : ℕ → ℕ) → Tree → Tree × ℕ
insert_bst_nodes zero rand old t = (t, rand)
insert_bst_nodes (suc count) rand old t =
    let rand' = lfsrandom32 rand in
    insert_bst_nodes count rand' old (insert_bst_node t (to_int rand') (old count))

-- A node has 24 bytes.
unfoldable pub bst_init_group : (tv_nsec group_wss : ℕ) → (old : ℕ → ℕ) → BstData
bst_init_group tv_nsec group_wss old =
    let (t, rand) = insert_bst_nodes (group_wss / 24) (init_lfsrandom32 tv_nsec) old null_tree in
    record {
      head = t;
      next_node = [];
      finding_value = to_int (lfsrandom32 rand);
      num_elements = group_wss / 24;
      rand = lfsrandom32 rand;
    }

unfoldable pub bst_init_task : (tv_nsec : ℕ) → BstData → BstData
bst_init_task tv_nsec group_data = record group_data { rand = init_lfsrandom32 tv_nsec }

-- The tree at the end of a way; the null pointer where the way leaves the tree.
unfoldable pub at : Tree → List Side → Tree
at t [] = t
at null_tree (side ∷ way) = null_tree
at (bst_node v f l r) (to_left ∷ way) = at l way
at (bst_node v f l r) (to_right ∷ way) = at r way

-- The increment of a node's false value.
unfoldable pub touch_false_value : Tree → List Side → Tree
touch_false_value null_tree way = null_tree
touch_false_value (bst_node v f l r) [] = bst_node v ((f + 1) % 2 ^ 32) l r
touch_false_value (bst_node v f l r) (to_left ∷ way) = bst_node v f (touch_false_value l way) r
touch_false_value (bst_node v f l r) (to_right ∷ way) = bst_node v f l (touch_false_value r way)

abbrev pub is_null : Tree → Bool
is_null null_tree = true
is_null (bst_node v f l r) = false

-- The way on, if there is one.
abbrev pub go_on : Bool → List Side → Side → Option (List Side)
go_on ends way side = if ends then none else some (way ++ side ∷ [])

-- One round of `bst_do_work`. `none` is a null pointer followed.
unfoldable pub bst_round : BstData → Option BstData
bst_round d =
    if eq_ℤ d.finding_value (pos 0)
    then some (record d {
      finding_value = to_int (lfsrandom32 d.rand);
      rand = lfsrandom32 d.rand;
      next_node = [];
    })
    else elim (at d.head d.next_node) [
      | null_tree ↦ none
      | bst_node v f l r ↦
          let n =
            if ltb_ℤ d.finding_value v
            then go_on (is_null l) d.next_node to_left
            else if ltb_ℤ v d.finding_value
            then go_on (is_null r) d.next_node to_right
            else none in
          elim n [
            | none ↦
                some
                  (record d { finding_value = pos 0; head = touch_false_value d.head d.next_node })
            | some way ↦ some (record d { next_node = way })
          ]
    ]

unfoldable pub bst_do_work : (iterations : ℕ) → BstData → Option BstData
bst_do_work zero d = some d
bst_do_work (suc iterations) d = elim (bst_round d) [
  | none ↦ none
  | some d' ↦ bst_do_work iterations d'
]
