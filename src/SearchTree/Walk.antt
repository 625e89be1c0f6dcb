-- ===== src/SearchTree/Walk.antt =====
-- The search never follows a null pointer.
use chronos_project.Base.{
  if◌then◌else◌, Bool-cases, ℕ, zero, suc, ◌/◌, ◌≤◌, ◌<◌, ◌≡◌, refl, sym, ap, ◌∙◌, ◌⊎◌, inl, inr,
  false, Option, none, some, List, [], ◌∷◌, ◌++◌, arith,
}
use chronos_project.Base.Int.{ℤ, pos, ltb_ℤ, to_int}
use chronos_project.Group.Start.{count}
use chronos_project.Options.{eq_ℤ}
use chronos_project.Random.{lfsrandom32, init_lfsrandom32}
use chronos_project.SearchTree.{
  Tree, null_tree, bst_node, Side, to_left, to_right, BstData, insert_bst_node, insert_bst_nodes,
  bst_init_group, bst_init_task, at, touch_false_value, is_null, go_on, bst_round, bst_do_work,
}

-- The pointer is at a node.
abbrev pub IsAtNode : BstData → Type 0
IsAtNode d = is_null (at d.head d.next_node) ≡ false

null-at : (way : List Side) → at null_tree way ≡ null_tree
unfolding at
null-at [] = refl
null-at (side ∷ way) = refl

at-append : (t : Tree) (way more : List Side) → at t (way ++ more) ≡ at (at t way) more
unfolding at
at-append t [] more = refl
at-append null_tree (side ∷ way) more = sym (null-at more)
at-append (bst_node v f l r) (to_left ∷ way) more = at-append l way more
at-append (bst_node v f l r) (to_right ∷ way) more = at-append r way more

touch-is_null :
    (t : Tree) (way other : List Side)
    → is_null (at (touch_false_value t way) other) ≡ is_null (at t other)
unfolding at touch_false_value
touch-is_null null_tree way other = refl
touch-is_null (bst_node v f l r) [] [] = refl
touch-is_null (bst_node v f l r) [] (to_left ∷ other) = refl
touch-is_null (bst_node v f l r) [] (to_right ∷ other) = refl
touch-is_null (bst_node v f l r) (to_left ∷ way) [] = refl
touch-is_null (bst_node v f l r) (to_right ∷ way) [] = refl
touch-is_null (bst_node v f l r) (to_left ∷ way) (to_left ∷ other) = touch-is_null l way other
touch-is_null (bst_node v f l r) (to_left ∷ way) (to_right ∷ other) = refl
touch-is_null (bst_node v f l r) (to_right ∷ way) (to_left ∷ other) = refl
touch-is_null (bst_node v f l r) (to_right ∷ way) (to_right ∷ other) = touch-is_null r way other

-- The tree has a head and the pointer is at a node.
pub record IsWalking (d : BstData) : Type 0 where
  pub has_head : is_null d.head ≡ false
  pub at_node : IsAtNode d

is_node :
    (t : Tree)
    → is_null t ≡ false
    → (v : ℤ) × (f : ℕ) × (l : Tree) × (r : Tree) × (t ≡ bst_node v f l r)
is_node null_tree h = cc
is_node (bst_node v f l r) h = (v, f, l, r, refl)

-- A way on that leads to a node, or none.
abbrev LeadsOn : Tree → Option (List Side) → Type 0
LeadsOn t n = (n ≡ none) ⊎ ((way : List Side) × (n ≡ some way) × (is_null (at t way) ≡ false))

go_on-LeadsOn :
    (t child : Tree) (way : List Side) (side : Side)
    → at t (way ++ side ∷ []) ≡ child
    → LeadsOn t (go_on (is_null child) way side)
go_on-LeadsOn t null_tree way side e = inl refl
go_on-LeadsOn t (bst_node v f l r) way side e = inr (_, refl, ap is_null e)

-- The choice of the next node.
abbrev choose : ℤ → ℤ → Tree → Tree → List Side → Option (List Side)
choose x v l r way =
    if ltb_ℤ x v
    then go_on (is_null l) way to_left
    else if ltb_ℤ v x
    then go_on (is_null r) way to_right
    else none

choose-LeadsOn :
    (t l r : Tree) (x v : ℤ) (f : ℕ) (way : List Side)
    → at t way ≡ bst_node v f l r
    → LeadsOn t (choose x v l r way)
unfolding at
choose-LeadsOn t l r x v f way e = elim (Bool-cases (ltb_ℤ x v)) [
  | inl below ↦ rw below (
      go_on-LeadsOn t l way to_left
        (at-append t way (to_left ∷ []) ∙ ap (λ u. at u (to_left ∷ [])) e))
  | inr not_below ↦ elim (Bool-cases (ltb_ℤ v x)) [
    | inl above ↦
        rw (not_below, above)
          (go_on-LeadsOn t r way to_right
            (at-append t way (to_right ∷ []) ∙ ap (λ u. at u (to_right ∷ [])) e))
    | inr equal ↦ rw (not_below, equal) (inl refl)
  ]
]

restarted :
    (d : BstData)
    → IsWalking d
    → (x : ℤ) (r : ℕ) → IsWalking (record d { finding_value = x; rand = r; next_node = [] })
unfolding at
restarted d w x r = record { has_head = w.has_head; at_node = w.has_head }

touched :
    (d : BstData)
    → IsWalking d
    → IsWalking (record d { finding_value = pos 0; head = touch_false_value d.head d.next_node })
touched d w = record {
  has_head = unfold at in touch-is_null d.head d.next_node [] ∙ w.has_head;
  at_node = touch-is_null d.head d.next_node d.next_node ∙ w.at_node;
}

bst_round-IsWalking :
    (d : BstData) → IsWalking d → (d' : BstData) × (bst_round d ≡ some d') × IsWalking d'
unfolding bst_round
bst_round-IsWalking d w = elim (Bool-cases (eq_ℤ d.finding_value (pos 0))) [
  | inl again ↦ (_, rw again refl, restarted d w (to_int (lfsrandom32 d.rand)) (lfsrandom32 d.rand))
  | inr searching ↦
      let (v, f, l, r, here) = is_node (at d.head d.next_node) w.at_node in
      elim (choose-LeadsOn d.head l r d.finding_value v f d.next_node here) [
        | inl ends ↦ (_, rw (searching, bst_round, here, ends) refl, touched d w)
        | inr (way, goes, node) ↦ (
          record d { next_node = way },
          rw (searching, bst_round, here, goes) refl,
          record { has_head = w.has_head; at_node = node },
        )
      ]
]

bst_do_work-IsWalking :
    (iterations : ℕ) (d : BstData)
    → IsWalking d
    → (d' : BstData) × (bst_do_work iterations d ≡ some d') × IsWalking d'
unfolding bst_do_work
bst_do_work-IsWalking zero d w = (d, refl, w)
bst_do_work-IsWalking (suc iterations) d w =
    let (y, e, w') = bst_round-IsWalking d w in
    let (z, later, w'') = bst_do_work-IsWalking iterations y w' in
    (z, rw (bst_do_work, e) later, w'')

insert-is_node : (t : Tree) (n : ℤ) (old : ℕ) → is_null (insert_bst_node t n old) ≡ false
unfolding insert_bst_node
insert-is_node null_tree n old = refl
insert-is_node (bst_node v f l r) n old = elim (Bool-cases (ltb_ℤ n v)) [
  | inl below ↦ rw below refl
  | inr above ↦ rw above refl
]

insert_all-is_node :
    (count rand : ℕ) (old : ℕ → ℕ) (t : Tree)
    → is_null t ≡ false
    → is_null (insert_bst_nodes count rand old t).0 ≡ false
unfolding insert_bst_nodes
insert_all-is_node zero rand old t h = h
insert_all-is_node (suc count) rand old t h =
    insert_all-is_node count (lfsrandom32 rand) old _
      (insert-is_node t (to_int (lfsrandom32 rand)) (old count))

filled :
    (count rand : ℕ) (old : ℕ → ℕ)
    → 0 < count
    → is_null (insert_bst_nodes count rand old null_tree).0 ≡ false
unfolding insert_bst_nodes
filled zero rand old h = absurd (omega (arith, h))
filled (suc count) rand old h =
    insert_all-is_node count (lfsrandom32 rand) old _
      (insert-is_node null_tree (to_int (lfsrandom32 rand)) (old count))

-- A task that works on a group's tree of at least one node follows no null pointer, whatever the
-- number of iterations, the random numbers and the tree.
pub bst_do_work_safe :
    (iterations seed tv_nsec group_wss : ℕ) (old : ℕ → ℕ)
    → 24 ≤ group_wss
    → (d : BstData) × (bst_do_work iterations
          (bst_init_task tv_nsec (bst_init_group seed group_wss old))
        ≡ some d)
unfolding bst_init_task bst_init_group at
bst_do_work_safe iterations seed tv_nsec group_wss old h =
    let has_head = filled (group_wss / 24) (init_lfsrandom32 seed) old (omega (arith, h)) in
    let (d, runs, _) =
      bst_do_work-IsWalking iterations (bst_init_task tv_nsec (bst_init_group seed group_wss old))
        (record { has_head = has_head; at_node = has_head }) in
    (d, runs)
