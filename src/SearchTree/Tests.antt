-- ===== src/SearchTree/Tests.antt =====
-- Runs of the search tree workload.
use chronos_project.Base.{ℕ, ◌≡◌, refl, some, [], ◌∷◌, arith}
use chronos_project.Base.Int.{negsuc}
use chronos_project.NodeList.Sorted.{drawn}
use chronos_project.Random.{lfsr_next, lfsrandom32, init_lfsrandom32}
use chronos_project.SearchTree.{
  BstData, insert_bst_node, insert_bst_nodes, bst_init_group, bst_init_task, bst_do_work,
}
use chronos_project.SearchTree.Order.{labels, IsSearchTree, bst_init_group-IsSearchTree}
use chronos_project.SearchTree.Walk.{bst_do_work_safe}
use mathlib.Core.List.{Perm}

abbrev memory : ℕ → ℕ
memory k = 0

bst_do_work_safe_example :
    (d : BstData) × (bst_do_work 9 (bst_init_task 3 (bst_init_group 5 72 memory)) ≡ some d)
bst_do_work_safe_example = bst_do_work_safe 9 5 3 72 memory (omega arith)

bst_init_group-IsSearchTree_example :
    let d = bst_init_group 5 72 memory in
    IsSearchTree d.head × Perm (drawn d.num_elements (init_lfsrandom32 5)) (labels d.head)
bst_init_group-IsSearchTree_example = bst_init_group-IsSearchTree 5 72 memory

-- Three nodes.
three_labels :
    labels (bst_init_group 5 72 memory).head
    ≡ negsuc 0x7fdffffe ∷ negsuc 0x3fcffffc ∷ negsuc 0x1fc7fffd ∷ []
unfolding labels bst_init_group insert_bst_nodes insert_bst_node lfsrandom32 lfsr_next
    init_lfsrandom32
three_labels = refl
