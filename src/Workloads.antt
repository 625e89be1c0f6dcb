-- ===== src/Workloads.antt =====
-- The table of workloads of sched_test_app/src/workload.h, with the capabilities and bounds of
-- workload_type.h and of the files of workloads/.
mod Tests
pub mod Table
use chronos_project.Base.{
  ltb, if◌then◌else◌, not_b, ℕ, ◌*◌, Bool, ◌&&◌, ◌||◌, Option, none, some, List, [], ◌∷◌,
}
use chronos_project.Base.Int.{ℤ, pos, negsuc}
use chronos_project.Job.{has_flag}
use chronos_project.Options.{eq_ℤ}
use Prim.Native.String.{String}
use text.Mathlib.Text.{◌==◌ as str_eq}

abbrev pub cap_empty : ℕ
cap_empty = 0

abbrev pub cap_task_wss : ℕ
cap_task_wss = 1

abbrev pub cap_group_wss : ℕ
cap_group_wss = 2

abbrev pub default_min_task_wss : ℕ
default_min_task_wss = 1_024 * 64

abbrev pub default_max_task_wss : ℕ
default_max_task_wss = 1_024 * 1_024 * 10

abbrev pub default_min_group_wss : ℕ
default_min_group_wss = 1_024 * 64

abbrev pub default_max_group_wss : ℕ
default_max_group_wss = 1_024 * 1_024 * 10

-- The data of `struct workload`.
pub record Workload : Type 0 where
  pub name : String
  pub capabilities : ℕ
  pub min_task_wss : ℕ
  pub max_task_wss : ℕ
  pub min_group_wss : ℕ
  pub max_group_wss : ℕ

abbrev pub burn_loop_workload : Workload
burn_loop_workload = record {
  name = "burn_loop";
  capabilities = cap_empty;
  min_task_wss = 0;
  max_task_wss = 0;
  min_group_wss = 0;
  max_group_wss = 0;
}

abbrev pub array_walk_workload : Workload
array_walk_workload = record {
  name = "array_walk";
  capabilities = cap_group_wss;
  min_task_wss = 0;
  max_task_wss = 0;
  min_group_wss = default_min_group_wss;
  max_group_wss = default_max_group_wss;
}

abbrev pub array_backwards_workload : Workload
array_backwards_workload = record {
  name = "array_backwards";
  capabilities = cap_group_wss;
  min_task_wss = 0;
  max_task_wss = 0;
  min_group_wss = default_min_group_wss;
  max_group_wss = default_max_group_wss;
}

abbrev pub array_random_workload : Workload
array_random_workload = record {
  name = "array_random";
  capabilities = cap_group_wss;
  min_task_wss = 0;
  max_task_wss = 0;
  min_group_wss = default_min_group_wss;
  max_group_wss = default_max_group_wss;
}

abbrev pub linked_list_workload : Workload
linked_list_workload = record {
  name = "linked_list";
  capabilities = cap_group_wss;
  min_task_wss = 0;
  max_task_wss = 0;
  min_group_wss = default_min_group_wss;
  max_group_wss = 1_024 * 512;
}

abbrev pub bst_workload : Workload
bst_workload = record {
  name = "bst";
  capabilities = cap_group_wss;
  min_task_wss = 0;
  max_task_wss = 0;
  min_group_wss = default_min_group_wss;
  max_group_wss = 1_024 * 512;
}

-- `struct workload_listing` and the table.
abbrev pub WorkloadListing : Type 0
WorkloadListing = ℤ × Workload

abbrev pub workloads : List WorkloadListing
workloads =
    (pos 0, burn_loop_workload)
    ∷ (pos 1, array_walk_workload)
    ∷ (pos 2, array_backwards_workload)
    ∷ (pos 3, array_random_workload)
    ∷ (pos 4, linked_list_workload)
    ∷ (pos 5, bst_workload)
    ∷ []

unfoldable pub workload_wss_valid_bounds : Workload → Bool
workload_wss_valid_bounds w =
    not_b (
      has_flag w.capabilities cap_task_wss
      && (ltb w.min_task_wss default_min_task_wss || ltb default_max_task_wss w.max_task_wss))
    && not_b (
        has_flag w.capabilities cap_group_wss
        && (ltb w.min_group_wss default_min_group_wss || ltb default_max_group_wss w.max_group_wss))

-- The loops run over the whole table, whose length is `NUM_WORKLOADS`.
unfoldable pub find_workload_in : List WorkloadListing → String → ℤ
find_workload_in [] name = negsuc 0
find_workload_in (l ∷ table) name =
    let later = find_workload_in table name in if str_eq name l.1.name then l.0 else later

unfoldable pub find_workload : String → ℤ
find_workload = find_workload_in workloads

-- `fatal` is the fatal error for bad bounds, `null` the null pointer after the loop.
pub data Lookup : Type 0 where
  workload : Workload → Lookup
  fatal : Lookup
  null : Lookup

unfoldable pub get_workload_struct_in : List WorkloadListing → ℤ → Lookup
get_workload_struct_in [] mask = null
get_workload_struct_in (l ∷ table) mask =
    let later = get_workload_struct_in table mask in
    if eq_ℤ mask l.0 then if workload_wss_valid_bounds l.1 then workload l.1 else fatal else later

unfoldable pub get_workload_struct : ℤ → Lookup
get_workload_struct = get_workload_struct_in workloads

unfoldable pub get_workload_name_in : List WorkloadListing → ℤ → Option String
get_workload_name_in [] mask = none
get_workload_name_in (l ∷ table) mask =
    let later = get_workload_name_in table mask in if eq_ℤ mask l.0 then some l.1.name else later

unfoldable pub get_workload_name : ℤ → Option String
get_workload_name = get_workload_name_in workloads
