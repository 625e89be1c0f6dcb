-- ===== src/SearchTree/Order.antt =====
-- The order of the tree.
use chronos_project.Base.{
  ltb→lt, Bool-cases, ℕ, zero, suc, ◌/◌, inl, inr, List, [], ◌∷◌, ◌++◌, arith,
}
use chronos_project.Base.Int.{ℤ, ◌≤ℤ◌, ◌<ℤ◌, ltb_ℤ, to_int}
use chronos_project.Group.Start.{count}
use chronos_project.NodeList.Sorted.{drawn}
use chronos_project.Random.{lfsrandom32, init_lfsrandom32}
use chronos_project.SearchTree.{
  Tree, null_tree, bst_node, insert_bst_node, insert_bst_nodes, bst_init_group,
}
use mathlib.Core.Path.{subst}
use mathlib.Core.List.{Perm, perm_middle, append-nil}
use mathlib.Core.List.Perm

-- The labels from left to right.
unfoldable pub labels : Tree → List ℤ
labels null_tree = []
labels (bst_node v f l r) = labels l ++ v ∷ labels r

unfoldable pub AllBelow : ℤ → Tree → Type 0
AllBelow bound null_tree = Unit
AllBelow bound (bst_node v f l r) = (v <ℤ bound) × AllBelow bound l × AllBelow bound r

unfoldable pub AllFrom : ℤ → Tree → Type 0
AllFrom bound null_tree = Unit
AllFrom bound (bst_node v f l r) = (bound ≤ℤ v) × AllFrom bound l × AllFrom bound r

-- Lesser labels stand on the left, and equal or greater ones on the right.
unfoldable pub IsSearchTree : Tree → Type 0
IsSearchTree null_tree = Unit
IsSearchTree (bst_node v f l r) = (AllBelow v l × AllFrom v r) × (IsSearchTree l × IsSearchTree r)

insert-AllBelow :
    (bound n : ℤ) (old : ℕ) (t : Tree)
    → n <ℤ bound
    → AllBelow bound t
    → AllBelow bound (insert_bst_node t n old)
unfolding AllBelow insert_bst_node
insert-AllBelow bound n old null_tree h k = (h, _, _)
insert-AllBelow bound n old (bst_node v f l r) h (k, kl, kr) = elim (Bool-cases (ltb_ℤ n v)) [
  | inl below ↦ rw below (k, insert-AllBelow bound n old l h kl, kr)
  | inr above ↦ rw above (k, kl, insert-AllBelow bound n old r h kr)
]

insert-AllFrom :
    (bound n : ℤ) (old : ℕ) (t : Tree)
    → bound ≤ℤ n
    → AllFrom bound t
    → AllFrom bound (insert_bst_node t n old)
unfolding AllFrom insert_bst_node
insert-AllFrom bound n old null_tree h k = (h, _, _)
insert-AllFrom bound n old (bst_node v f l r) h (k, kl, kr) = elim (Bool-cases (ltb_ℤ n v)) [
  | inl below ↦ rw below (k, insert-AllFrom bound n old l h kl, kr)
  | inr above ↦ rw above (k, kl, insert-AllFrom bound n old r h kr)
]

insert-IsSearchTree :
    (n : ℤ) (old : ℕ) (t : Tree) → IsSearchTree t → IsSearchTree (insert_bst_node t n old)
unfolding IsSearchTree insert_bst_node AllBelow AllFrom
insert-IsSearchTree n old null_tree h = ((_, _), (_, _))
insert-IsSearchTree n old (bst_node v f l r) ((kl, kr), (hl, hr)) = elim (Bool-cases (ltb_ℤ n v)) [
  | inl below ↦
      rw below (
        (insert-AllBelow v n old l (ltb→lt _ _ below) kl, kr),
        (insert-IsSearchTree n old l hl, hr),
      )
  | inr above ↦ rw above (
    (kl, insert-AllFrom v n old r (ground (arith, above)) kr),
    (hl, insert-IsSearchTree n old r hr),
  )
]

insert-labels :
    (n : ℤ) (old : ℕ) (t : Tree) → Perm (n ∷ labels t) (labels (insert_bst_node t n old))
unfolding labels insert_bst_node
insert-labels n old null_tree = Perm.rfl
insert-labels n old (bst_node v f l r) = elim (Bool-cases (ltb_ℤ n v)) [
  | inl below ↦ rw below (Perm.append_right (v ∷ labels r) (insert-labels n old l))
  | inr above ↦ rw above (
      Perm.trans (Perm.symm (perm_middle (labels l) (v ∷ labels r))) (
        Perm.append_left (labels l)
          (Perm.trans (Perm.swap v n (labels r)) (Perm.cons v (insert-labels n old r)))))
]

insert_all-lem :
    (count rand : ℕ) (old : ℕ → ℕ) (t : Tree)
    → IsSearchTree t
    → IsSearchTree (insert_bst_nodes count rand old t).0
      × Perm (drawn count rand ++ labels t) (labels (insert_bst_nodes count rand old t).0)
unfolding insert_bst_nodes drawn
insert_all-lem zero rand old t h = (h, Perm.rfl)
insert_all-lem (suc count) rand old t h =
    let rand' = lfsrandom32 rand in
    let n = to_int rand' in
    let (ordered, p) =
      insert_all-lem count rand' old (insert_bst_node t n (old count))
        (insert-IsSearchTree n (old count) t h) in
    (
      ordered,
      Perm.trans
          (Perm.trans (Perm.symm (perm_middle (drawn count rand') (labels t)))
            (Perm.append_left (drawn count rand') (insert-labels n (old count) t)))
          p,
    )

-- `bst_init_group` builds a search tree of exactly the drawn values, as many as fit the group's
-- size.
pub bst_init_group-IsSearchTree :
    (tv_nsec group_wss : ℕ) (old : ℕ → ℕ)
    → let d = bst_init_group tv_nsec group_wss old in
      IsSearchTree d.head × Perm (drawn d.num_elements (init_lfsrandom32 tv_nsec)) (labels d.head)
unfolding bst_init_group labels
bst_init_group-IsSearchTree tv_nsec group_wss old =
    let n = group_wss / 24 in
    let r = init_lfsrandom32 tv_nsec in
    let (ordered, p) = insert_all-lem n r old null_tree (unfold IsSearchTree in _) in
    (
      ordered,
      subst (λ l. Perm l (labels (insert_bst_nodes n r old null_tree).0)) (append-nil (drawn n r))
          p,
    )
