-- ===== src/Sched/Tests.antt =====
-- Searches of the table of algorithms.
use chronos_project.Base.{ℕ, ◌≡◌, refl, ◌⊎◌, true}
use chronos_project.Base.Int.{pos}
use chronos_project.Sched.{
  algorithms, found, out_of_bounds, find_from, find_scheduler, get_sched_name, get_scheduler,
}
use chronos_project.Sched.Names.{In, find_scheduler_lem, get_sched_name-get_scheduler}
use chronos_project.Types.{Options, default_options}

edf : find_scheduler "EDF" ≡ found 0x200
unfolding find_scheduler find_from
edf = refl

unknown : find_scheduler "DASA" ≡ out_of_bounds
unfolding find_scheduler find_from
unknown = refl

find_scheduler_lem_example :
    ((mask : ℕ) × (find_scheduler "GRMA" ≡ found mask) × In mask "GRMA" algorithms)
    ⊎ (find_scheduler "GRMA" ≡ out_of_bounds)
find_scheduler_lem_example = find_scheduler_lem "GRMA"

abbrev grma_with_flags : Options
grma_with_flags = record default_options {
  scheduler = pos 0x8100;
  priority_inheritance = true;
  enable_hua = true;
}

get_sched_name-get_scheduler_example : get_sched_name (get_scheduler grma_with_flags) ≡ found "GRMA"
unfolding find_scheduler find_from
get_sched_name-get_scheduler_example =
    get_sched_name-get_scheduler grma_with_flags "GRMA" 0x8100 refl refl
