-- ===== src/Totals/Tests.antt =====
-- Totals of concrete runs.
use chronos_project.Base.{ℕ, ◌+◌, ◌≡◌, refl, true, false, none, some, List, [], ◌∷◌}
use chronos_project.Base.Int.{pos, negsuc, ◌+ℤ◌, as_int}
use chronos_project.Job.{Answers, Setting}
use chronos_project.Totals.{Totals, add_unsigned, clear_counters, add_task_stats, accumulate}
use chronos_project.Totals.EndToEnd.{Run}
use chronos_project.Types.{Task, default_options}

abbrev task : ℕ → Task
task n = record {
  addr = n;
  task_id = 0;
  thread_id = 0;
  num_my_locks = 0;
  my_locks = [];
  cpu_mask = 1;
  thread_group = 0;
  group_leader = n;
  period = 400_000;
  period_ts = record { tv_sec = 0; tv_nsec = 400_000_000 };
  exec_time = 10;
  utility = 5;
  hua_utility = 0;
  task_wss = pos 0;
  group_wss = pos 0;
  locked_usage = 0;
  unlocked_usage = 10;
  max_releases = 2;
  extra_release = false;
  num_releases = 0;
  num_aborted = 0;
  deadlines_met = 0;
  utility_accrued = 0;
  max_tardiness = pos 0;
}

abbrev setting : Setting
setting = record {
  options = default_options;
  global_start_time = record { tv_sec = 10; tv_nsec = 0 };
  lock_time = 0;
  num_locks = 0;
}

-- The first job ends in time and the second too late.
abbrev answers : ℕ → Answers
answers k = record {
  lock_ok = λ i. true;
  work_aborted = λ n. false;
  end_time = record { tv_sec = 10 + k; tv_nsec = 100_000_000 };
}

abbrev finished : Task
finished = record (task 64) {
  num_releases = 2;
  deadlines_met = 1;
  utility_accrued = 5;
  max_tardiness = negsuc 299_999;
}

abbrev old : Totals
old = record {
  sys_total_release = pos 9;
  sys_met_release = pos 9;
  sys_total_util = pos 9;
  sys_met_util = pos 9;
  sys_abort_count = pos 9;
  max_tardiness = negsuc 9;
}

abbrev runs : List Run
runs = (task 64, answers, finished) ∷ []

-- An int sum of the releases that overflows, and a counter of utility that becomes negative.
abbrev busy : ℕ → Task
busy n = record (task 64) { max_releases = 2_147_483_646; utility = n }

releases_overflow_twice : accumulate (busy 0 ∷ (busy 0 ∷ [])) (clear_counters old) ≡ none
unfolding accumulate add_task_stats clear_counters as_int ◌+ℤ◌ add_unsigned
releases_overflow_twice = refl

utility_negative :
    (elim (accumulate (busy 2 ∷ []) (clear_counters old)) [
      | none ↦ pos 0
      | some u ↦ u.sys_total_util
    ])
    ≡ negsuc 3
unfolding accumulate add_task_stats clear_counters as_int ◌+ℤ◌ add_unsigned
utility_negative = refl
