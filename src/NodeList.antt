-- ===== src/NodeList.antt =====
-- The linked list workload: sched_test_app/src/workloads/linked_list.h. The list is the values of
-- its nodes from the head on, and a pointer to a node is the node's place.
mod Tests
pub mod Rounds
pub mod Sorted
use chronos_project.Base.{
  ltb, if◌then◌else◌, length, get_elem?, set, ℕ, zero, suc, ◌+◌, ◌/◌, Option, none, some, List, [],
  ◌∷◌,
}
use chronos_project.Base.Int.{ℤ, pos, ◌+ℤ◌, ltb_ℤ, as_int, to_int}
use chronos_project.Group.Start.{count}
use chronos_project.Hyperperiod.{value}
use chronos_project.Random.{lfsrandom32, init_lfsrandom32}

-- `struct linked_list_data`. `none` is the null pointer.
pub record LinkedListData : Type 0 where
  pub values : List ℤ
  pub next_node : Option ℕ
  pub num_elements : ℕ

-- The new node stands before the first node whose value is not greater.
unfoldable pub insert_node : List ℤ → (value : ℤ) → List ℤ
insert_node [] n = n ∷ []
insert_node (cur ∷ rest) n =
    let later = insert_node rest n in if ltb_ℤ n cur then cur ∷ later else n ∷ cur ∷ rest

-- The loop over `count` nodes, with the generator's state.
unfoldable pub insert_nodes : (count : ℕ) → (rand : ℕ) → List ℤ → List ℤ
insert_nodes zero rand values = values
insert_nodes (suc count) rand values =
    let rand' = lfsrandom32 rand in insert_nodes count rand' (insert_node values (to_int rand'))

-- The head of a list of nodes.
abbrev pub head_of : List ℤ → Option ℕ
head_of [] = none
head_of (v ∷ vs) = some 0

-- A node has 16 bytes. `tv_nsec` is the clock's part of the seed.
unfoldable pub linked_list_init_group : (tv_nsec group_wss : ℕ) → LinkedListData
linked_list_init_group tv_nsec group_wss =
    let values = insert_nodes (group_wss / 16) (init_lfsrandom32 tv_nsec) [] in
    record { values = values; next_node = head_of values; num_elements = group_wss / 16 }

-- A task has a copy of the struct.
unfoldable pub linked_list_init_task : LinkedListData → LinkedListData
linked_list_init_task group_data = group_data

-- One round of `linked_list_do_work`. `none` is a null pointer followed, or a value that overflows.
unfoldable pub walk_node : LinkedListData → Option LinkedListData
walk_node d = elim d.next_node [
  | none ↦ none
  | some i ↦
      let next = if ltb (i + 1) (length d.values) then i + 1 else 0 in
      elim (get_elem? d.values next) [
        | none ↦ none
        | some v ↦ elim (as_int (v +ℤ pos 1)) [
          | none ↦ none
          | some v' ↦ some (record d { values = set d.values next v'; next_node = some next })
        ]
      ]
]

unfoldable pub linked_list_do_work : (iterations : ℕ) → LinkedListData → Option LinkedListData
linked_list_do_work zero d = some d
linked_list_do_work (suc iterations) d = elim (walk_node d) [
  | none ↦ none
  | some d' ↦ linked_list_do_work iterations d'
]
