-- ===== src/TaskFile/Tests.antt =====
-- Reading a small taskset file.
use chronos_project.Base.{
  ℕ, ◌+◌, ◌*◌, ◌≡◌, refl, Bool, true, false, Option, none, some, List, [], ◌∷◌, ◌++◌, map, arith,
}
use chronos_project.Base.Int.{ℤ, pos}
use chronos_project.Group.{find_leader, add_task, clamp_wss, set_group_wss}
use chronos_project.Group.Leaders.{All}
use chronos_project.Scan.{
  skip_spaces, split_word, scan_word, scan_digits, scan_number, signed_number, scan_signed,
  scan_int,
}
use chronos_project.TaskFile.{
  TestState, read_locks, read_hua, read_optional, read_fields, set_wss_period, put_task, init_task,
  put_group_wss, init_group, initialize_test_locks, skip_line, initial_state, check_tasks,
  read_num_locks, read_task, read_group, read_line, read_lines, init_tasks,
}
use chronos_project.TaskFile.Loaded.{IsFresh}
use chronos_project.TaskSet.{
  Reading, done, exits, undefined, read_number, next_number, cpu_loop, all_cpus, add_domain,
  finish_cpus, initialize_task_cpus, lock_loop, first_numbers, initialize_task_locks, set_period_ts,
}
use chronos_project.TaskSet.Domains.{HasMask}
use chronos_project.TestRun.{set_schedulers}
use chronos_project.TestRun.Domains.{tasks_scheduled}
use chronos_project.Types.{Task, new_task}
use chronos_project.Workloads.{burn_loop_workload}

abbrev memory : ℕ → Task
memory n = record {
  addr = 4096 + n * 256;
  task_id = 0;
  thread_id = 0;
  num_my_locks = 0;
  my_locks = [];
  cpu_mask = 0;
  thread_group = 0;
  group_leader = 0;
  period = 0;
  period_ts = record { tv_sec = 0; tv_nsec = 0 };
  exec_time = 0;
  utility = 0;
  hua_utility = 0;
  task_wss = pos 0;
  group_wss = pos 0;
  locked_usage = 0;
  unlocked_usage = 0;
  max_releases = 0;
  extra_release = false;
  num_releases = 0;
  num_aborted = 0;
  deadlines_met = 0;
  utility_accrued = 0;
  max_tardiness = pos 0;
}

memory-IsFresh : IsFresh memory
memory-IsFresh = record {
  not_null = λ n e. absurd (omega (arith, e));
  apart = λ m n ne e. ne (omega (arith, e));
}

-- "#x\nL 2\nT 0 1 0 50 9 7 1\nT 1 1 0 80 9 7 \nG1 0\n"
abbrev comment_line : List ℕ
comment_line = b'#' ∷ b'x' ∷ b'\n' ∷ []

abbrev locks_line : List ℕ
locks_line = b'L' ∷ b' ' ∷ b'2' ∷ b'\n' ∷ []

abbrev first_line : List ℕ
first_line =
    b'T' ∷ b' ' ∷ b'0' ∷ b' ' ∷ b'1' ∷ b' ' ∷ b'0' ∷ b' ' ∷ b'5' ∷ b'0' ∷ b' ' ∷ b'9' ∷ b' ' ∷ b'7'
    ∷ b' ' ∷ b'1' ∷ b'\n' ∷ []

abbrev second_line : List ℕ
second_line =
    b'T' ∷ b' ' ∷ b'1' ∷ b' ' ∷ b'1' ∷ b' ' ∷ b'0' ∷ b' ' ∷ b'8' ∷ b'0' ∷ b' ' ∷ b'9' ∷ b' ' ∷ b'7'
    ∷ b'\n' ∷ []

abbrev group_line : List ℕ
group_line = b'G' ∷ b'1' ∷ b' ' ∷ b'0' ∷ b'\n' ∷ []

abbrev small_file : List ℕ
small_file = comment_line ++ (locks_line ++ (first_line ++ (second_line ++ group_line)))

abbrev any_memory : ℤ → Bool
any_memory n = true

-- The leader, the locks and the period of the tasks read, newest first.
abbrev summary : Option (Reading TestState) → List (ℕ × List ℕ × ℕ × ℕ)
summary none = []
summary (some exits) = []
summary (some undefined) = []
summary (some (done s)) = map (λ t. (t.group_leader, t.my_locks, t.period, t.cpu_mask)) s.task_list

small_file_read :
    summary (init_tasks burn_loop_workload any_memory memory 2 1 (some small_file))
    ≡ ((4096, [], 80, 2) ∷ (4096, 1 ∷ [], 50, 1) ∷ [])
unfolding init_tasks read_lines read_line skip_line read_num_locks scan_int scan_signed skip_spaces
    scan_number signed_number scan_digits initialize_test_locks read_task init_task read_fields
    scan_word split_word initialize_task_cpus add_task clamp_wss find_leader set_group_wss
    check_tasks init_group put_group_wss put_task read_group read_hua read_locks read_optional
    set_wss_period add_domain all_cpus cpu_loop finish_cpus first_numbers initialize_task_locks
    lock_loop next_number read_number set_period_ts new_task
small_file_read = refl

abbrev state_of : Option (Reading TestState) → TestState
state_of none = initial_state 0 0
state_of (some exits) = initial_state 0 0
state_of (some undefined) = initial_state 0 0
state_of (some (done s)) = s

abbrev small_state : TestState
small_state = state_of (init_tasks burn_loop_workload any_memory memory 2 1 (some small_file))

tasks_scheduled_example :
    All
      (λ t. HasMask t.cpu_mask (set_schedulers (λ mask. true) small_state.domain_masks).0)
      small_state.task_list
unfolding init_tasks read_lines read_line skip_line read_num_locks scan_int scan_signed skip_spaces
    scan_number signed_number scan_digits initialize_test_locks read_task init_task read_fields
    scan_word split_word initialize_task_cpus add_task clamp_wss find_leader set_group_wss
    check_tasks init_group put_group_wss put_task read_group read_hua read_locks read_optional
    set_wss_period add_domain all_cpus cpu_loop finish_cpus first_numbers initialize_task_locks
    lock_loop next_number read_number set_period_ts new_task set_schedulers
tasks_scheduled_example =
    tasks_scheduled memory-IsFresh burn_loop_workload any_memory 2 1 (some small_file)
      (λ mask. true) small_state refl refl
