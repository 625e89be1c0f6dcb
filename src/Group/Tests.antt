-- ===== src/Group/Tests.antt =====
-- Thread groups of a small task list.
use chronos_project.Base.{length, ℕ, ◌≡◌, refl, Bool, false, some, List, [], ◌∷◌, arith}
use chronos_project.Base.Int.{pos}
use chronos_project.Group.{find_leader, add_task, create_threads, start_task_group, start_groups}
use chronos_project.Group.Leaders.{any, count_leaders, IsGrouped, add_task-IsGrouped}
use chronos_project.Group.Start.{count, addresses, start_groups-once}
use chronos_project.Types.{Task}

-- A task at an address, of a group, whose leader is not known yet.
abbrev task : ℕ → ℕ → ℕ → Task
task addr group leader = record {
  addr = addr;
  task_id = 0;
  thread_id = 0;
  num_my_locks = 0;
  my_locks = [];
  cpu_mask = 1;
  thread_group = group;
  group_leader = leader;
  period = 1_000;
  period_ts = record { tv_sec = 0; tv_nsec = 1_000_000 };
  exec_time = 10;
  utility = 1;
  hua_utility = 0;
  task_wss = pos 0;
  group_wss = pos 0;
  locked_usage = 0;
  unlocked_usage = 0;
  max_releases = 0;
  extra_release = false;
  num_releases = 0;
  num_aborted = 0;
  deadlines_met = 0;
  utility_accrued = 0;
  max_tardiness = pos 0;
}

-- Group 4 is led from address 200, group 7 from address 100.
abbrev two_groups : List Task
two_groups = task 200 4 200 ∷ task 100 7 100 ∷ []

abbrev three_tasks : List Task
three_tasks = task 300 7 100 ∷ two_groups

added : add_task (task 300 7 0) two_groups ≡ some three_tasks
unfolding add_task find_leader
added = refl

started : start_groups three_tasks three_tasks ≡ 200 ∷ 300 ∷ 100 ∷ []
unfolding start_groups start_task_group create_threads
started = refl

two_groups-IsGrouped : IsGrouped two_groups
unfolding any count_leaders
two_groups-IsGrouped = record {
  allocated = omega arith;
  led = (refl, (refl, tt));
  single = λ g. ground arith;
}

three_tasks-IsGrouped : IsGrouped three_tasks
unfolding any count_leaders
three_tasks-IsGrouped = record {
  allocated = omega arith;
  led = (refl, (refl, (refl, tt)));
  single = λ g. ground arith;
}

add_task-IsGrouped_example :
    (leader : ℕ) × (add_task (task 300 7 0) two_groups
      ≡ some (record (task 300 7 0) { group_leader = leader } ∷ two_groups))
    × IsGrouped (record (task 300 7 0) { group_leader = leader } ∷ two_groups)
add_task-IsGrouped_example =
    add_task-IsGrouped (task 300 7 0) two_groups two_groups-IsGrouped (omega arith) (omega arith)

start_groups-once_example :
    ((p : ℕ → Bool)
      → count p (start_groups three_tasks three_tasks) ≡ count p (addresses three_tasks))
    × (length (start_groups three_tasks three_tasks) ≡ 3)
start_groups-once_example = start_groups-once three_tasks three_tasks-IsGrouped
