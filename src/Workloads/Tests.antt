-- ===== src/Workloads/Tests.antt =====
-- Lookups of workloads.
use chronos_project.Base.{◌≡◌, refl, ◌⊎◌, false, some}
use chronos_project.Base.Int.{pos, negsuc}
use chronos_project.Workloads.{
  Workload, linked_list_workload, workloads, workload_wss_valid_bounds, find_workload_in,
  find_workload, workload, get_workload_struct_in, get_workload_struct, get_workload_name,
}
use chronos_project.Workloads.Table.{has_name, find_workload_lem}

bst_number : find_workload "bst" ≡ pos 5
unfolding find_workload find_workload_in
bst_number = refl

list_found : get_workload_struct (pos 4) ≡ workload linked_list_workload
unfolding get_workload_struct get_workload_struct_in workload_wss_valid_bounds
list_found = refl

find_workload_lem_example :
    ((w : Workload) × (get_workload_struct (find_workload "bst") ≡ workload w)
      × (w.name ≡ "bst")
      × (get_workload_name (find_workload "bst") ≡ some "bst"))
    ⊎ ((find_workload "bst" ≡ negsuc 0) × (has_name workloads "bst" ≡ false))
find_workload_lem_example = find_workload_lem "bst"
