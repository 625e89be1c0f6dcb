-- ===== src/Types.antt =====
-- The structs that the application passes round: `struct task` and `struct test_app_opts` of
-- sched_test_app/src/tester_types.h, with `new_task` and `clear_task_stats`.
use chronos_project.Base.{ℕ, Bool, false, List, []}
use chronos_project.Base.Int.{ℤ, pos, negsuc}
use chronos_project.Clock.{Timespec}

-- `struct task`. A pointer is an address, 0 for NULL; the list links and the workload's pointers
-- stand outside. `max_releases`, an `int` that the code only compares and multiplies with unsigned
-- numbers or adds up, is kept as its 32 bits.
pub record Task : Type 0 where
  pub addr : ℕ
  pub task_id : ℕ
  pub thread_id : ℕ
  pub num_my_locks : ℕ
  pub my_locks : List ℕ
  pub cpu_mask : ℕ
  pub thread_group : ℕ
  pub group_leader : ℕ
  pub period : ℕ
  pub period_ts : Timespec
  pub exec_time : ℕ
  pub utility : ℕ
  pub hua_utility : ℕ
  pub task_wss : ℤ
  pub group_wss : ℤ
  pub locked_usage : ℕ
  pub unlocked_usage : ℕ
  pub max_releases : ℕ
  pub extra_release : Bool
  pub num_releases : ℕ
  pub num_aborted : ℕ
  pub deadlines_met : ℕ
  pub utility_accrued : ℕ
  pub max_tardiness : ℤ

-- `raw` is the memory that `salloc` returns: a field that the body does not assign keeps what
-- stood there. An empty `my_locks` is the NULL array.
unfoldable pub new_task : Task → Task
new_task raw = record raw {
  task_id = 0;
  thread_id = 0;
  my_locks = [];
  cpu_mask = 0;
  thread_group = 0;
  group_leader = 0;
  period = 0;
  exec_time = 0;
  utility = 0;
  hua_utility = 0;
  task_wss = negsuc 0;
  group_wss = negsuc 0;
  num_releases = 0;
  num_aborted = 0;
  deadlines_met = 0;
  utility_accrued = 0;
  max_tardiness = pos 0;
}

unfoldable pub clear_task_stats : Task → Task
clear_task_stats t = record t {
  num_releases = 0;
  num_aborted = 0;
  deadlines_met = 0;
  utility_accrued = 0;
  max_tardiness = pos 0;
}

-- `struct test_app_opts`. The flags that `main` sets to 0 or 1 are Booleans.
pub record Options : Type 0 where
  pub output_format : ℕ
  pub cpu_usage : ℤ
  pub run_time : ℤ
  pub scheduler : ℤ
  pub has_taskset_filename : Bool
  pub workload : ℤ
  pub timing_method : ℕ
  pub priority_inheritance : Bool
  pub enable_hua : Bool
  pub deadlock_prevention : Bool
  pub no_run : Bool
  pub locking : ℕ
  pub cs_length : ℤ
  pub batch_mode : Bool
  pub end_usage : ℤ
  pub interval : ℤ

-- The initial value of `options` in `main`.
abbrev pub default_options : Options
default_options = record {
  output_format = 0;
  cpu_usage = pos 100;
  run_time = pos 1;
  scheduler = negsuc 0;
  has_taskset_filename = false;
  workload = pos 0;
  timing_method = 0;
  priority_inheritance = false;
  enable_hua = false;
  deadlock_prevention = false;
  no_run = false;
  locking = 0;
  cs_length = pos 0;
  batch_mode = false;
  end_usage = pos 0;
  interval = pos 0;
}
