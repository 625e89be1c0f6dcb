-- ===== src/Work/Timer.antt =====
-- Doing work until a time, `do_work_timer` of sched_test_app/src/workload.c, and the choice among the
-- timing methods, `workload_init_task` and `workload_do_work`. The operations of `double` are
-- parameters. A clock that cannot be read ends the program and is left out.
use chronos_project.Base.{
  ◌==◌, if◌then◌else◌, ℕ, zero, suc, ◌+◌, Bool, not, ◌&&◌, ◌||◌, Option, none, some, List, [], ◌∷◌,
  ◌++◌,
}
use chronos_project.Base.Int.{ℤ, pos, pos_part, ltb_ℤ, to_u32}
use chronos_project.Clock.{Timespec}
use chronos_project.Job.Stats.{was_aborted}
use chronos_project.Slope.{Floats, Line, get_workload_slope}
use chronos_project.Work.{do_work_slope}
use chronos_project.Workloads.{Workload}

-- What `double` needs beside the operations of `Floats`. `decimal n k` is the constant n / 10^k.
pub record Doubles (A : Type 0) : Type 0 where
  pub equal : A → A → Bool
  pub decimal : (digits places : ℕ) → A
  pub to_ulong : A → ℕ
  pub to_int : A → ℤ

-- The variables of `do_work_timer` after its loop, with the calls made and the reads of the abort
-- pointer.
pub record TimerProgress (A : Type 0) : Type 0 where
  pub calls : List ℕ
  pub reads : ℕ
  pub now : A
  pub diff : A

-- How `workload_do_work` ends: the iterations of the calls and whether the task has been aborted,
-- or the fatal error. `unfinished` is a loop that has not ended.
pub data Worked : Type 0 where
  has_worked : List ℕ → Bool → Worked
  invalid_method : Worked
  unfinished : Worked

abbrev pub timing_average : ℕ
timing_average = 0

abbrev pub timing_wcet : ℕ
timing_wcet = 1

abbrev pub timing_timer : ℕ
timing_timer = 2

abbrev pub worked_of : Option (List ℕ × Bool) → Worked
worked_of none = unfinished
worked_of (some (calls, was_aborted)) = has_worked calls was_aborted

module _ {A : Type 0} (fp : Floats A) (dp : Doubles A) where
  abbrev pub constant : ℕ → A
  constant n = fp.of_long (pos n)

  -- `timespec_to_s`.
  unfoldable pub to_seconds : Timespec → A
  to_seconds ts =
      fp.add (fp.of_long (pos ts.tv_sec)) (fp.mul (fp.of_long (pos ts.tv_nsec)) (dp.decimal 1 9))

  -- `1.0 - UNDERESTIMATE_BY`.
  abbrev pub underestimate : A
  underestimate = fp.sub (dp.decimal 1 0) (dp.decimal 5 6)

  -- `iters_per_abort_check`.
  abbrev pub check_iters : (exec_slope : A) → ℕ
  check_iters exec_slope = dp.to_ulong (fp.mul exec_slope (constant 1))

  unfoldable pub end_of_work : (begin_time : A) → (usage : ℕ) → A
  end_of_work begin_time usage =
      fp.add begin_time (fp.mul (fp.mul (constant usage) (dp.decimal 1 6)) underestimate)

  -- The estimate of a round's time, after the clock went from `last` to `now`.
  unfoldable pub next_diff : (last now diff : A) → A
  next_diff last now diff =
      if dp.equal last (dp.decimal 0 0)
      then fp.sub now last
      else fp.div (fp.add diff (fp.mul (dp.decimal 2 0) (fp.sub now last))) (dp.decimal 3 0)

  -- The call after the loop, if there is one.
  unfoldable pub last_call : (chunk : ℕ) → (end_time now diff : A) → List ℕ
  last_call chunk end_time now diff =
      let last_iters =
        dp.to_int
          (fp.mul (fp.mul (fp.div (fp.sub end_time now) diff) (constant chunk)) underestimate) in
      if dp.equal diff (dp.decimal 0 0)
      then []
      else if ltb_ℤ (pos 0) last_iters
      then pos_part last_iters ∷ []
      else []

  -- What the outside answers: the clock at each reading, its resolution, and the abort pointer at
  -- each read.
  module _ (clock : ℕ → Timespec) (resolution : Timespec) (is_aborted : ℕ → Bool) where
    -- The loop from the read with number `n` on; the clock has been read as often, and once more.
    unfoldable pub timer_loop :
        (fuel chunk n : ℕ) → (end_time now diff : A) → Option (TimerProgress A)
    timer_loop zero chunk n end_time now diff = none
    timer_loop (suc fuel) chunk n end_time now diff =
        let next = to_seconds (clock (n + 1)) in
        let rest = timer_loop fuel chunk (n + 1) end_time next (next_diff now next diff) in
        if not (is_aborted n) && fp.less (fp.add (fp.add now diff) (to_seconds resolution)) end_time
        then elim rest [ none ↦ none | some p ↦ some (record p { calls = chunk ∷ p.calls }) ]
        else some (record { calls = []; reads = n + 1; now = now; diff = diff })

    unfoldable pub do_work_timer :
        (fuel : ℕ) → (exec_slope : A) → (usage : ℕ) → Option (List ℕ × Bool)
    do_work_timer fuel exec_slope usage =
        let begin_time = to_seconds (clock 0) in
        let end_time = end_of_work begin_time usage in
        let chunk = check_iters exec_slope in
        elim (timer_loop fuel chunk 0 end_time begin_time (dp.decimal 0 0)) [
          | none ↦ none
          | some p ↦ some (p.calls ++ last_call chunk end_time p.now p.diff, is_aborted p.reads)
        ]

    -- `do_work_average` and `do_work_wcet`.
    unfoldable pub do_work_cached :
        (fuel : ℕ) → (exec_slope : A) → (usage : ℕ) → Option (List ℕ × Bool)
    do_work_cached fuel exec_slope usage =
        do_work_slope fuel is_aborted (dp.to_ulong (fp.mul (constant usage) exec_slope))
          (check_iters exec_slope)

    unfoldable pub workload_do_work :
        (fuel timing_method : ℕ) → (exec_slope : A) → (usage : ℕ) → Worked
    workload_do_work fuel timing_method exec_slope usage =
        if timing_method == timing_average
        then worked_of (do_work_cached fuel exec_slope usage)
        else if timing_method == timing_timer
        then worked_of (do_work_timer fuel exec_slope usage)
        else if timing_method == timing_wcet
        then worked_of (do_work_cached fuel exec_slope usage)
        else invalid_method

-- A slope that is not positive is a fatal error.
abbrev pub positive_slope : {A : Type 0} → Floats A → A → Option A
positive_slope fp slope = if fp.less_equal slope (fp.of_long (pos 0)) then none else some slope

-- The slope that `workload_init_task` keeps, from the two files; `none` is a fatal error.
unfoldable pub cached_slope :
    {A : Type 0}
    → Floats A
    → (garbage : ℤ × ℤ) → Workload
    → (timing_method : ℕ) → (task_wss group_wss : ℤ) → (average wcet : Option (List (Line A)))
    → Option A
cached_slope fp garbage w timing_method task_wss group_wss average wcet =
    let slope = get_workload_slope fp garbage w (to_u32 task_wss) (to_u32 group_wss) in
    if timing_method == timing_average || timing_method == timing_timer
    then positive_slope fp (slope average)
    else if timing_method == timing_wcet
    then positive_slope fp (slope wcet)
    else none
