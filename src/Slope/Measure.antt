-- ===== src/Slope/Measure.antt =====
-- Making the slope files: sched_test_app/src/slope/slope.c. What the workload, the threads and the
-- clocks do is a trace of events or an argument.
use chronos_project.Atomic.Counter.{total}
use chronos_project.Base.{
  ltb, if◌then◌else◌, ℕ, zero, suc, ◌+◌, ◌-◌, ◌*◌, ◌/◌, ◌%◌, ◌^◌, Bool, not, ◌||◌, Option, none,
  List, [], ◌∷◌, ◌++◌,
}
use chronos_project.Base.Int.{ℤ, pos}
use chronos_project.Job.{has_flag}
use chronos_project.Slope.{
  Floats, Line, below_zero, get_workload_slope, put_workload_slope, clear_workload_slope,
}
use chronos_project.Workloads.{
  cap_task_wss, cap_group_wss, default_min_task_wss, default_min_group_wss, Workload,
}

abbrev pub wss_samples : ℕ
wss_samples = 10

abbrev pub gen_samples : ℕ
gen_samples = 10

abbrev pub avg_slope_iters : ℕ
avg_slope_iters = 10_000

abbrev pub wcet_slope_iters : ℕ
wcet_slope_iters = 1_000

abbrev pub max_invalidators : ℕ
max_invalidators = 4

-- The invalidators that are started on `num_cpus` processors, of which there is at least one.
unfoldable pub active_invalidators : (num_cpus : ℕ) → ℕ
active_invalidators num_cpus =
    if ltb max_invalidators (num_cpus - 1) then max_invalidators else num_cpus - 1

-- The processor of invalidator `i`.
unfoldable pub invalidator_cpu : (num_cpus i : ℕ) → ℕ
invalidator_cpu num_cpus i = num_cpus - 1 - i * (num_cpus - 1) / active_invalidators num_cpus

-- The working set size of sample `i`, in an `unsigned int`.
unfoldable pub sample_wss : (low high i : ℕ) → ℕ
sample_wss low high i = (low + (i * (high - low)) % 2 ^ 32 / wss_samples) % 2 ^ 32

-- What the measurement of one slope asks of the workload and the threads.
pub data Act : Type 0 where
  group_made : (group_wss : ℕ) → Act
  task_made : (task_wss : ℕ) → Act
  invalidator_started : (number cpu : ℕ) → Act
  invalidator_stopped : (number : ℕ) → Act
  polluter_started : Act
  polluter_stopped : Act
  worked : (iterations : ℕ) → Act
  task_cleaned : Act
  group_cleaned : Act

-- The invalidators from number `i` on, `left` of them, each with its own data.
unfoldable pub start_invalidators : (num_cpus task_wss left i : ℕ) → List Act
start_invalidators num_cpus task_wss zero i = []
start_invalidators num_cpus task_wss (suc left) i =
    task_made task_wss
    ∷ (invalidator_started i (invalidator_cpu num_cpus i)
        ∷ start_invalidators num_cpus task_wss left (i + 1))

unfoldable pub stop_invalidators : (left i : ℕ) → List Act
stop_invalidators zero i = []
stop_invalidators (suc left) i =
    invalidator_stopped i ∷ (task_cleaned ∷ stop_invalidators left (i + 1))

-- One measured run, with the polluter for the worst case.
unfoldable pub measured_run : (wcet : Bool) (num_cpus task_wss iterations : ℕ) → List Act
measured_run wcet num_cpus task_wss iterations =
    let n = active_invalidators num_cpus in
    start_invalidators num_cpus task_wss n 0
    ++ ((if wcet then polluter_started ∷ [] else [])
        ++ (worked iterations
            ∷ ((if wcet then polluter_stopped ∷ [] else []) ++ stop_invalidators n 0)))

-- The runs of the loop; `iterations i` is the number that the estimate so far gives for run `i`.
unfoldable pub measured_runs :
    (wcet : Bool) (num_cpus task_wss : ℕ) (iterations : ℕ → ℕ) (left i : ℕ) → List Act
measured_runs wcet num_cpus task_wss iterations zero i = []
measured_runs wcet num_cpus task_wss iterations (suc left) i =
    measured_run wcet num_cpus task_wss (iterations i)
    ++ measured_runs wcet num_cpus task_wss iterations left (i + 1)

-- The trace of `calc_slope_average`, and of `calc_slope_wcet`, for a workload that has all its
-- functions.
unfoldable pub calc_slope :
    (wcet : Bool) (num_cpus : ℕ) (iterations : ℕ → ℕ) (task_wss group_wss iters : ℕ) → List Act
calc_slope wcet num_cpus iterations task_wss group_wss iters =
    group_made group_wss
    ∷ (task_made task_wss
        ∷ (measured_run wcet num_cpus task_wss (if wcet then wcet_slope_iters else avg_slope_iters)
            ++ (measured_runs wcet num_cpus task_wss iterations iters 0
                ++ (task_cleaned ∷ (group_cleaned ∷ [])))))

module _ {A : Type 0} (fp : Floats A) where
  -- The slope of a run.
  abbrev pub run_slope : (iterations run_nsec : ℕ) → A
  run_slope iterations run_nsec =
      fp.div (fp.mul (fp.of_long (pos 1_000)) (fp.of_long (pos iterations)))
        (fp.of_long (pos run_nsec))

  -- The loop of `calc_slope_wcet` over the slopes measured, from the worst so far.
  unfoldable pub worst_slope : (wcet_slope : A) → List A → A
  worst_slope worst [] = worst
  worst_slope worst (slope ∷ slopes) =
      worst_slope (if fp.less slope worst || below_zero fp worst then slope else worst) slopes

  -- The loop of `calc_slope_average`.
  unfoldable pub slope_sum : (total : A) → List A → A
  slope_sum total [] = total
  slope_sum total (slope ∷ slopes) = slope_sum (fp.add total slope) slopes

-- Whether the working set size of a workload is fixed.
abbrev pub no_wss_variation : Workload → Bool
no_wss_variation w = not (has_flag w.capabilities (cap_task_wss + cap_group_wss))

-- The runs that each slope takes.
unfoldable pub sample_iters : Workload → ℕ
sample_iters w = if no_wss_variation w then gen_samples * wss_samples else gen_samples

-- The loop of `update_slopes` over the file; `calc` is `calc_slope_average`. `none` is the fatal
-- error of a file that cannot be written.
unfoldable pub update_samples :
    {A : Type 0}
    → Floats A
    → Workload
    → (calc : (task_wss group_wss iters : ℕ) → A) → (left i : ℕ) → Option (List (Line A))
    → Option (List (Line A))
update_samples fp w calc zero i file = file
update_samples fp w calc (suc left) i file =
    let task_wss = sample_wss w.min_task_wss w.max_task_wss i in
    let group_wss = sample_wss w.min_group_wss w.max_group_wss i in
    let file' =
      put_workload_slope fp w (calc task_wss group_wss (sample_iters w)) task_wss group_wss file in
    let rest = update_samples fp w calc left (i + 1) file' in
    if no_wss_variation w then file' else rest

unfoldable pub update_slopes :
    {A : Type 0}
    → Floats A
    → Workload
    → (calc : (task_wss group_wss iters : ℕ) → A) → Option (List (Line A))
    → Option (List (Line A))
update_slopes fp w calc file = update_samples fp w calc wss_samples 0 (clear_workload_slope file)

-- `check_slopes`; `none` is the fatal error of a file that cannot be used.
unfoldable pub check_slopes :
    {A : Type 0}
    → Floats A
    → (garbage : ℤ × ℤ) → Workload
    → (calc : (task_wss group_wss iters : ℕ) → A) → (accessible force : Bool)
    → Option (List (Line A))
    → Option (List (Line A))
check_slopes fp garbage w calc accessible force file =
    let average = get_workload_slope fp garbage w default_min_task_wss default_min_group_wss file in
    if not accessible
    then none
    else if fp.less_equal average (fp.of_long (pos 0)) || force
    then update_slopes fp w calc file
    else file
