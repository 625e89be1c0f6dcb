-- ===== src/Job/Tests.antt =====
-- Jobs of concrete tasks.
use chronos_project.Base.{
  ◌==◌, ℕ, ◌+◌, ◌≤◌, ◌<◌, ◌≡◌, refl, ◌↔◌, ◌⊎◌, true, false, Option, none, some, List, [], ◌∷◌,
  arith,
}
use chronos_project.Base.Int.{pos, ◌+ℤ◌, ◌-ℤ◌, ◌*ℤ◌, as_int}
use chronos_project.Clock.{Timespec, to_ns, carried_us, timespec_subtract_us}
use chronos_project.Job.{
  calculate_releases, find_job_deadline, Event, begin_segment, lock, lock_failed, work, unlock,
  end_segment, sleep, Answers, nested_locking, has_flag, setup_hua_abort_handler, lock_all,
  unlock_down, locked_part, tabulate, Setting, instance_around, task_instance, run_jobs, extra_job,
  start_task_jobs,
}
use chronos_project.Job.Deadline.{deadlines_of_run}
use chronos_project.Job.Locking.{held, locks_released, task_instance_undefined}
use chronos_project.Job.Stats.{aborted, met, missed, count_outcome, Tallied, start_task_jobs-tally}
use chronos_project.Types.{Task, clear_task_stats, Options}

abbrev blank : Task
blank = record {
  addr = 64;
  task_id = 0;
  thread_id = 0;
  num_my_locks = 2;
  my_locks = 7 ∷ 9 ∷ [];
  cpu_mask = 1;
  thread_group = 0;
  group_leader = 64;
  period = 300_000;
  period_ts = record { tv_sec = 0; tv_nsec = 300_000_000 };
  exec_time = 1_000;
  utility = 5;
  hua_utility = 0;
  task_wss = pos 0;
  group_wss = pos 0;
  locked_usage = 100;
  unlocked_usage = 900;
  max_releases = 3;
  extra_release = true;
  num_releases = 0;
  num_aborted = 0;
  deadlines_met = 0;
  utility_accrued = 0;
  max_tardiness = pos 0;
}

abbrev options : Options
options = record {
  output_format = 0;
  cpu_usage = pos 100;
  run_time = pos 1;
  scheduler = pos 0x200;
  has_taskset_filename = true;
  workload = pos 0;
  timing_method = 2;
  priority_inheritance = false;
  enable_hua = false;
  deadlock_prevention = false;
  no_run = false;
  locking = 1;
  cs_length = pos 10;
  batch_mode = false;
  end_usage = pos 100;
  interval = pos 1;
}

abbrev start : Timespec
start = record { tv_sec = 10; tv_nsec = 500_000_000 }

abbrev setting : Setting
setting = record { options = options; global_start_time = start; lock_time = 0; num_locks = 2 }

-- Each job ends one second after the one before: the first in time, the others too late.
abbrev answers : ℕ → Answers
answers k = record {
  lock_ok = λ i. i == 0;
  work_aborted = λ n. false;
  end_time = record { tv_sec = 10 + k; tv_nsec = 700_000_000 };
}

deadlines_of_run_example :
    (to_ns (find_job_deadline start (record blank { num_releases = 2 }))
      ≡ to_ns start + 900_000_000)
    × (2 < 3
        → to_ns (find_job_deadline start (record blank { num_releases = 2 }))
          ≤ to_ns start + 1_000_000_000)
unfolding calculate_releases ◌*ℤ◌ as_int
deadlines_of_run_example =
    deadlines_of_run 1 2 blank blank start (omega arith) (omega arith) refl (omega arith)
      (omega arith) (omega arith)

-- The result of a run that is defined.
result : Option (Task × List Event) → Task × List Event
result none = (blank, [])
result (some r) = r

abbrev first_job : Task × List Event
first_job = result (task_instance setting (answers 0) true blank)

first_job_trace :
    first_job.1
    ≡ begin_segment 90 5
        (record { tv_sec = 10; tv_nsec = 800_000_000 })
        (record { tv_sec = 0; tv_nsec = 300_000_000 })
        1_000
      ∷ lock 0
      ∷ lock_failed 1
      ∷ work 100
      ∷ unlock 0
      ∷ work 900
      ∷ end_segment 92
      ∷ sleep (pos 100_000)
      ∷ []
unfolding result task_instance instance_around locked_part lock_all unlock_down tabulate
    find_job_deadline setup_hua_abort_handler timespec_subtract_us carried_us ◌+ℤ◌ ◌-ℤ◌ ◌*ℤ◌
first_job_trace = refl

locks_released_example : held first_job.1 [] ≡ some []
unfolding result task_instance instance_around locked_part lock_all unlock_down tabulate
    find_job_deadline setup_hua_abort_handler timespec_subtract_us carried_us ◌+ℤ◌ ◌-ℤ◌ ◌*ℤ◌
locks_released_example = locks_released setting (answers 0) true blank first_job.0 first_job.1 refl

task_instance_undefined_example :
    (task_instance setting (answers 0) true blank ≡ none)
    ↔ ((has_flag 1 nested_locking ≡ true) × ((◌≡◌ {A = ℕ} 2 0) ⊎ (true ≡ false)))
task_instance_undefined_example = task_instance_undefined setting (answers 0) true blank

abbrev all_jobs : Task × List Event
all_jobs = result (start_task_jobs setting answers (clear_task_stats blank))

start_task_jobs-tally_example :
    Tallied setting answers blank 3 all_jobs.0
    × (count_outcome setting answers blank aborted 3
          + count_outcome setting answers blank met 3
          + count_outcome setting answers blank missed 3
        ≡ 3)
unfolding result start_task_jobs run_jobs extra_job clear_task_stats task_instance instance_around
    locked_part lock_all unlock_down tabulate find_job_deadline setup_hua_abort_handler
    timespec_subtract_us carried_us ◌+ℤ◌ ◌-ℤ◌ ◌*ℤ◌
start_task_jobs-tally_example =
    start_task_jobs-tally setting answers blank (omega arith) (λ k. omega arith) all_jobs.0
      all_jobs.1 (omega arith) refl

-- 2148 seconds are more microseconds than an int holds.
releases_overflow : calculate_releases (pos 2_148) blank ≡ none
unfolding calculate_releases ◌*ℤ◌ as_int
releases_overflow = refl
