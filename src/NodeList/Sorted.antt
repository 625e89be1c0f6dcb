-- ===== src/NodeList/Sorted.antt =====
-- The list that is built.
use chronos_project.Base.{
  ltb→lt, Bool-cases, length, ℕ, zero, suc, ◌/◌, ◌≡◌, refl, ap, inl, inr, List, [], ◌∷◌, ◌++◌,
  arith,
}
use chronos_project.Base.Int.{ℤ, ◌≤ℤ◌, ltb_ℤ, to_int}
use chronos_project.Group.Start.{count}
use chronos_project.NodeList.{insert_node, insert_nodes, linked_list_init_group}
use chronos_project.Random.{lfsrandom32, init_lfsrandom32}
use mathlib.Core.Path.{subst}
use mathlib.Core.List.{Perm, perm_middle, append-nil}
use mathlib.Core.List.Perm

-- Every value is at most `bound`.
unfoldable pub AllAtMost : ℤ → List ℤ → Type 0
AllAtMost bound [] = Unit
AllAtMost bound (v ∷ vs) = (v ≤ℤ bound) × AllAtMost bound vs

-- No value is greater than one before it.
unfoldable pub IsDescending : List ℤ → Type 0
IsDescending [] = Unit
IsDescending (v ∷ vs) = AllAtMost v vs × IsDescending vs

AllAtMost-trans : (a b : ℤ) (vs : List ℤ) → a ≤ℤ b → AllAtMost a vs → AllAtMost b vs
unfolding AllAtMost
AllAtMost-trans a b [] h k = k
AllAtMost-trans a b (v ∷ vs) h (k, ks) = (omega (arith, h, k), AllAtMost-trans a b vs h ks)

insert_node-AllAtMost :
    (bound n : ℤ) (vs : List ℤ)
    → n ≤ℤ bound
    → AllAtMost bound vs
    → AllAtMost bound (insert_node vs n)
unfolding AllAtMost insert_node
insert_node-AllAtMost bound n [] h k = (h, k)
insert_node-AllAtMost bound n (v ∷ vs) h (k, ks) = elim (Bool-cases (ltb_ℤ n v)) [
  | inl below ↦ rw below (k, insert_node-AllAtMost bound n vs h ks)
  | inr above ↦ rw above (h, (k, ks))
]

insert_node-IsDescending : (n : ℤ) (vs : List ℤ) → IsDescending vs → IsDescending (insert_node vs n)
unfolding IsDescending insert_node AllAtMost
insert_node-IsDescending n [] h = (_, _)
insert_node-IsDescending n (v ∷ vs) (k, ks) = elim (Bool-cases (ltb_ℤ n v)) [
  | inl below ↦ rw below (
    insert_node-AllAtMost v n vs (omega (arith, ltb→lt _ _ below)) k,
    insert_node-IsDescending n vs ks,
  )
  | inr above ↦
      let le : v ≤ℤ n = ground (arith, above) in
      rw above ((le, AllAtMost-trans v n vs le k), (k, ks))
]

insert_node-Perm : (n : ℤ) (vs : List ℤ) → Perm (insert_node vs n) (n ∷ vs)
unfolding insert_node
insert_node-Perm n [] = Perm.rfl
insert_node-Perm n (v ∷ vs) = elim (Bool-cases (ltb_ℤ n v)) [
  | inl below ↦ rw below (Perm.trans (Perm.cons v (insert_node-Perm n vs)) (Perm.swap n v vs))
  | inr above ↦ rw above Perm.rfl
]

-- The values drawn, in the order of the draws.
unfoldable pub drawn : (count rand : ℕ) → List ℤ
drawn zero rand = []
drawn (suc count) rand = let rand' = lfsrandom32 rand in to_int rand' ∷ drawn count rand'

insert_nodes-lem :
    (count rand : ℕ) (vs : List ℤ)
    → IsDescending vs
    → IsDescending (insert_nodes count rand vs)
      × Perm (drawn count rand ++ vs) (insert_nodes count rand vs)
unfolding insert_nodes drawn
insert_nodes-lem zero rand vs h = (h, Perm.rfl)
insert_nodes-lem (suc count) rand vs h =
    let rand' = lfsrandom32 rand in
    let n = to_int rand' in
    let (sorted, p) =
      insert_nodes-lem count rand' (insert_node vs n) (insert_node-IsDescending n vs h) in
    (
      sorted,
      Perm.trans
          (Perm.trans (Perm.symm (perm_middle (drawn count rand') vs))
            (Perm.append_left (drawn count rand') (Perm.symm (insert_node-Perm n vs))))
          p,
    )

length-drawn : (count rand : ℕ) → length (drawn count rand) ≡ count
unfolding drawn
length-drawn zero rand = refl
length-drawn (suc count) rand = ap suc (length-drawn count (lfsrandom32 rand))

-- `linked_list_init_group` builds a list of the drawn values, as many as fit the group's size, in
-- decreasing order.
pub init_group-IsDescending :
    (tv_nsec group_wss : ℕ)
    → let d = linked_list_init_group tv_nsec group_wss in
      IsDescending d.values × Perm (drawn d.num_elements (init_lfsrandom32 tv_nsec)) d.values
unfolding linked_list_init_group
init_group-IsDescending tv_nsec group_wss =
    let n = group_wss / 16 in
    let r = init_lfsrandom32 tv_nsec in
    let (sorted, p) = insert_nodes-lem n r [] (unfold IsDescending in _) in
    (sorted, subst (λ l. Perm l (insert_nodes n r [])) (append-nil (drawn n r)) p)
