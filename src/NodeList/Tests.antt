-- ===== src/NodeList/Tests.antt =====
-- Runs of the list workload.
use chronos_project.Base.{◌≡◌, refl, some, [], ◌∷◌, arith}
use chronos_project.Base.Int.{pos, negsuc, ◌+ℤ◌}
use chronos_project.NodeList.{LinkedListData, insert_node, insert_nodes, linked_list_init_group}
use chronos_project.NodeList.Rounds.{AllFit}
use chronos_project.NodeList.Sorted.{IsDescending, drawn, init_group-IsDescending}
use chronos_project.Random.{lfsr_next, lfsrandom32, init_lfsrandom32}
use mathlib.Core.List.{Perm}

-- Three nodes.
three_nodes :
    (linked_list_init_group 5 48).values
    ≡ negsuc 0x1fc7fffd ∷ negsuc 0x3fcffffc ∷ negsuc 0x7fdffffe ∷ []
unfolding linked_list_init_group insert_nodes insert_node lfsrandom32 lfsr_next init_lfsrandom32
three_nodes = refl

init_group-IsDescending_example :
    let d = linked_list_init_group 5 64 in
    IsDescending d.values × Perm (drawn d.num_elements (init_lfsrandom32 5)) d.values
init_group-IsDescending_example = init_group-IsDescending 5 64

abbrev two_rounds : LinkedListData
two_rounds = record { values = pos 9 ∷ pos 3 ∷ negsuc 6 ∷ []; next_node = some 0; num_elements = 3 }

values_fit : AllFit 2 (pos 9 ∷ pos 3 ∷ negsuc 6 ∷ [])
unfolding AllFit ◌+ℤ◌
values_fit =
    ((omega arith, omega arith), ((omega arith, omega arith), ((omega arith, omega arith), _)))
