-- ===== src/Job.antt =====
mod Tests
pub mod Deadline
pub mod Locking
pub mod Runs
pub mod Stats
-- One task's jobs: `calculate_releases`, `find_job_deadline`, `setup_hua_abort_handler`,
-- `task_instance` and the job loop of `start_task`, of sched_test_app/src/task.c.
-- A call of the kernel or of the workload is an event of the trace; what it answers is read from
-- an `Answers`.
use chronos_project.Atomic.{product}
use chronos_project.Base.{
  ltb, ◌==◌, ◌!=◌, if◌then◌else◌, ℕ, zero, suc, ◌+◌, ◌*◌, ◌/◌, ◌%◌, ◌^◌, bit_and, Bool, true, false,
  ◌&&◌, ◌||◌, Option, none, some, List, [], ◌∷◌, ◌++◌,
}
use chronos_project.Base.Int.{ℤ, pos, ◌*ℤ◌, ltb_ℤ, leb_ℤ, to_u32, as_int}
use chronos_project.Clock.{billion, million, thousand, Timespec, timespec_subtract_us}
use chronos_project.Types.{Task, Options}

-- `runtime` is an `unsigned int`, but its product an `int`. `none` is a product that overflows, or the
-- division by a period of zero.
unfoldable pub calculate_releases : ℤ → Task → Option Task
calculate_releases run_time t = elim (as_int (run_time *ℤ million)) [
  | none ↦ none
  | some product ↦
      let runtime = to_u32 product in
      if t.period == 0
      then none
      else some (record t {
        max_releases = (runtime / t.period) % 2 ^ 32;
        extra_release = runtime % t.period != 0;
      })
]

-- `num_releases + 1` is an `unsigned int`, the rest `unsigned long`.
unfoldable pub find_job_deadline : Timespec → Task → Timespec
find_job_deadline start_time t =
    let offset = ((t.num_releases + 1) % 2 ^ 32 * t.period) % 2 ^ 64 in
    let nsec = (start_time.tv_nsec + (offset * thousand) % 2 ^ 64) % 2 ^ 64 in
    let carry = nsec / billion in
    record { tv_sec = (start_time.tv_sec + carry) % 2 ^ 64; tv_nsec = nsec % billion }

-- `lock i` and `unlock i` are the calls of the kernel with `my_locks[i]`; `lock_failed i` is a
-- request that returned -1.
pub data Event : Type 0 where
  add_abort : ℕ → ℕ → Event
  begin_segment : ℕ → ℕ → Timespec → Timespec → ℕ → Event
  lock : ℕ → Event
  lock_failed : ℕ → Event
  work : ℕ → Event
  unlock : ℕ → Event
  end_segment : ℕ → Event
  sleep : ℤ → Event

-- What the outside answers during one job: whether the request for the i-th lock succeeds, whether
-- the n-th call of `workload_do_work` returns non-zero, and the time at the end.
pub record Answers : Type 0 where
  pub lock_ok : ℕ → Bool
  pub work_aborted : ℕ → Bool
  pub end_time : Timespec

abbrev pub task_run_prio : ℕ
task_run_prio = 90

abbrev pub task_cleanup_prio : ℕ
task_cleanup_prio = 92

abbrev pub no_locking : ℕ
no_locking = 0

abbrev pub locking_flag : ℕ
locking_flag = 1

abbrev pub nested_locking : ℕ
nested_locking = 3

-- `locking & flag` as a condition.
abbrev pub has_flag : ℕ → ℕ → Bool
has_flag locking flag = bit_and locking flag != 0

unfoldable pub setup_hua_abort_handler : Options → (lock_time num_locks : ℕ) → Task → List Event
setup_hua_abort_handler options lock_time num_locks t =
    if options.enable_hua && ltb 0 t.hua_utility
    then add_abort t.hua_utility ((lock_time * num_locks) % 2 ^ 64) ∷ []
    else []

-- The first loop of nested locking, over `rounds` locks from `lock_num` on. `last` is the variable
-- of that name, `none` while it has no value.
unfoldable pub lock_all : (ℕ → Bool) → (rounds lock_num : ℕ) → Option ℕ → Option ℕ × List Event
lock_all lock_ok zero lock_num last = (last, [])
lock_all lock_ok (suc rounds) lock_num last =
    let rest = lock_all lock_ok rounds (lock_num + 1) (some lock_num) in
    if lock_ok lock_num then (rest.0, lock lock_num ∷ rest.1) else (last, lock_failed lock_num ∷ [])

-- The loop from `last` down to 0.
unfoldable pub unlock_down : ℕ → List Event
unlock_down zero = unlock 0 ∷ []
unlock_down (suc last) = unlock (suc last) ∷ unlock_down last

-- The loop of sequential locking: the events and whether a piece of work was aborted. Each round
-- that gets its lock makes one call of the workload, so `lock_num` counts these calls too.
unfoldable pub lock_each : Answers → (usage rounds lock_num : ℕ) → ℕ × Bool × List Event
lock_each a usage zero lock_num = (lock_num, false, [])
lock_each a usage (suc rounds) lock_num =
    let rest = lock_each a usage rounds (lock_num + 1) in
    if a.lock_ok lock_num
    then (
      rest.0,
      a.work_aborted lock_num || rest.1,
      lock lock_num ∷ work usage ∷ unlock lock_num ∷ rest.2,
    )
    else (lock_num, false, lock_failed lock_num ∷ [])

-- The locked part of a job: the number of calls of the workload, whether one was aborted, and the
-- events. `none`: the second loop starts from a `last` that was never assigned.
unfoldable pub locked_part : Options → Answers → Task → Option (ℕ × Bool × List Event)
locked_part options a t =
    if has_flag options.locking nested_locking
    then (let (last, locks) = lock_all a.lock_ok t.num_my_locks 0 none in
        elim last [
          | none ↦ none
          | some i ↦ some (1, a.work_aborted 0, locks ++ (work t.locked_usage ∷ unlock_down i))
        ])
    else if has_flag options.locking locking_flag
    then some (lock_each a t.locked_usage t.num_my_locks 0)
    else some (0, false, [])

-- The statistics of one job that was counted, and the sleep that follows.
unfoldable pub tabulate : Bool → ℤ → Task → Task × List Event
tabulate aborted tardiness t =
    if aborted
    then (record t { num_aborted = (t.num_aborted + 1) % 2 ^ 32 }, [])
    else if leb_ℤ (pos 0) tardiness
    then (
      record t {
        deadlines_met = (t.deadlines_met + 1) % 2 ^ 32;
        utility_accrued = (t.utility_accrued + t.utility) % 2 ^ 32;
      },
      if ltb_ℤ (pos 0) tardiness then sleep tardiness ∷ [] else [],
    )
    else if ltb_ℤ tardiness t.max_tardiness
    then (record t { max_tardiness = tardiness }, [])
    else (t, [])

-- What a job reads of `struct test`.
pub record Setting : Type 0 where
  pub options : Options
  pub global_start_time : Timespec
  pub lock_time : ℕ
  pub num_locks : ℕ

-- Everything but the locked part, whose outcome is given: the events before and after it, and the
-- statistics.
unfoldable pub instance_around :
    Setting → Answers → Bool → Task → ℕ × Bool × List Event → Task × List Event
instance_around s a count_stats t (calls, aborted, events) =
    let deadline = find_job_deadline s.global_start_time t in
    let trace =
      setup_hua_abort_handler s.options s.lock_time s.num_locks t
      ++ (begin_segment task_run_prio t.utility deadline t.period_ts
            ((t.unlocked_usage + t.locked_usage) % 2 ^ 64)
          ∷ (events ++ (work t.unlocked_usage ∷ end_segment task_cleanup_prio ∷ []))) in
    let counted =
      tabulate (aborted || a.work_aborted calls) (timespec_subtract_us deadline a.end_time) t in
    if count_stats then (counted.0, trace ++ counted.1) else (t, trace)

unfoldable pub task_instance : Setting → Answers → Bool → Task → Option (Task × List Event)
task_instance s a count_stats t = elim (locked_part s.options a t) [
  | none ↦ none
  | some part ↦ some (instance_around s a count_stats t part)
]

-- The loop over the releases, `rounds` of them from `num_releases` on; the k-th job is answered by
-- `answers k`.
unfoldable pub run_jobs : Setting → (ℕ → Answers) → (rounds : ℕ) → Task → Option (Task × List Event)
run_jobs s answers zero t = some (t, [])
run_jobs s answers (suc rounds) t = elim (task_instance s (answers t.num_releases) true t) [
  | none ↦ none
  | some (t', events) ↦
      elim (run_jobs s answers rounds (record t' { num_releases = t'.num_releases + 1 })) [
        | none ↦ none
        | some (u, more) ↦ some (u, events ++ more)
      ]
]

-- The extra release, which is not counted.
unfoldable pub extra_job : Setting → (ℕ → Answers) → Task × List Event → Option (Task × List Event)
extra_job s answers (u, events) =
    if u.extra_release
    then elim (task_instance s (answers u.num_releases) false u) [
      | none ↦ none
      | some (v, more) ↦ some (v, events ++ more)
    ]
    else some (u, events)

-- The part of `start_task` from the first release on. The loop test compares unsigned numbers, and
-- `num_releases` stays below `max_releases` before each increment, which cannot wrap.
unfoldable pub start_task_jobs : Setting → (ℕ → Answers) → Task → Option (Task × List Event)
start_task_jobs s answers t =
    elim (run_jobs s answers t.max_releases (record t { num_releases = 0 })) [
      | none ↦ none
      | some r ↦ extra_job s answers r
    ]
