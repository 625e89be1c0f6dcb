-- ===== src/TestRun/Prepare.antt =====
-- What `run` of sched_test_app/src/tester.c sets in a task before the threads start, with
-- `set_lock_usage` of task.c.
use chronos_project.Base.{Option, none, some, List, [], ◌∷◌}
use chronos_project.Base.Int.{ℤ, pos}
use chronos_project.Job.{calculate_releases}
use chronos_project.Slope.{Floats}
use chronos_project.Types.{Task, clear_task_stats, Options}
use chronos_project.Work.Timer.{Doubles}

-- The operations of `double` are parameters; the two times are truncated.
unfoldable pub set_lock_usage :
    {A : Type 0} → Floats A → Doubles A → (cpu_usage cs_length : ℤ) → Task → Task
set_lock_usage fp dp cpu_usage cs_length t =
    let usage = fp.div (fp.of_long cpu_usage) (dp.decimal 100 0) in
    let cs = fp.div (fp.of_long cs_length) (dp.decimal 100 0) in
    let exec = fp.of_long (pos t.exec_time) in
    record t {
      unlocked_usage = dp.to_ulong (fp.mul exec (fp.sub usage (fp.mul usage cs)));
      locked_usage = dp.to_ulong (fp.mul (fp.mul exec usage) cs);
    }

-- `none` is a run time that overflows, or the division by a period of zero.
unfoldable pub prepare_task : {A : Type 0} → Floats A → Doubles A → Options → Task → Option Task
prepare_task fp dp options t =
    calculate_releases options.run_time
      (set_lock_usage fp dp options.cpu_usage options.cs_length (clear_task_stats t))

unfoldable pub prepare_tasks :
    {A : Type 0} → Floats A → Doubles A → Options → List Task → Option (List Task)
prepare_tasks fp dp options [] = some []
prepare_tasks fp dp options (t ∷ tasks) =
    let rest = prepare_tasks fp dp options tasks in
    elim (prepare_task fp dp options t) [
      | none ↦ none
      | some t' ↦ elim rest [ none ↦ none | some tasks' ↦ some (t' ∷ tasks') ]
    ]
