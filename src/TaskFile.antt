-- ===== src/TaskFile.antt =====
-- Reading the taskset file: `init_task` and `init_group` of sched_test_app/src/task_init.c,
-- `initialize_test_locks` and `init_tasks` of tester.c.
mod Tests
pub mod Fuel
pub mod Fields
pub mod Loaded
pub mod Lines
pub mod Regrouped
use chronos_project.Base.{
  ◌==◌, if◌then◌else◌, length, replicate, ℕ, zero, suc, ◌+◌, Bool, true, false, not, ◌&&◌, ◌||◌,
  Option, none, some, List, [], ◌∷◌, ◌++◌,
}
use chronos_project.Base.Int.{ℤ, pos, negsuc, pos_part, ltb_ℤ, to_u64, to_u32}
use chronos_project.Group.{add_task, clamp_wss, set_group_wss}
use chronos_project.Job.{no_locking, locking_flag, has_flag}
use chronos_project.Options.{eq_ℤ}
use chronos_project.Scan.{◌>>=◌, skip_spaces, scan_word, scan_int}
use chronos_project.TaskSet.{
  Reading, done, exits, undefined, is_digit, starts_with_all, initialize_task_cpus,
  initialize_task_locks, set_period_ts,
}
use chronos_project.Types.{Task, new_task}
use chronos_project.Workloads.{cap_task_wss, cap_group_wss, Workload}

-- What these functions change of `struct test`, and the variable `seen_group` of `init_tasks`.
-- `locking` is the option's.
pub record TestState : Type 0 where
  pub num_locks : ℤ
  pub locking : ℕ
  pub domain_masks : List ℕ
  pub task_list : List Task
  pub num_tasks : ℕ
  pub seen_group : Bool

-- A function's outcome: the new state and what is left of the file.
abbrev pub Step : Type 0
Step = Reading (TestState × List ℕ)

-- The locks of a task whose line goes on, with the space after them. `num_my_locks` is what the
-- task's memory holds, and is not 0 when the memory was used before; a list other than `all` then
-- leaves the places of the array before it unassigned.
unfoldable pub read_locks : (num_locks num_my_locks : ℕ) → List ℕ → Reading (List ℕ × List ℕ)
read_locks num_locks num_my_locks chars = scan_word 1_024 chars >>= λ p.
    elim (initialize_task_locks num_locks (p.0 ++ 0 ∷ [])) [
      | none ↦ undefined
      | some locks ↦
          if num_my_locks == 0 || starts_with_all p.0
          then done (locks, skip_spaces p.1)
          else undefined
    ]

-- The HUA utility, where a digit comes next.
unfoldable pub read_hua : Task → List ℕ → Reading (Task × List ℕ)
read_hua t [] = done (t, [])
read_hua t (c ∷ chars) =
    if not (is_digit c)
    then done (t, c ∷ chars)
    else scan_int 31 (c ∷ chars) >>= λ p.
        done (record t { hua_utility = to_u32 p.0 }, skip_spaces p.1)

-- The last two fields, where the next line does not begin.
unfoldable pub read_optional : (num_locks : ℕ) → Task → List ℕ → Reading (Task × List ℕ)
read_optional num_locks t [] = done (t, [])
read_optional num_locks t (c ∷ chars) =
    if c == b'T' || (c == b'#' || c == b'G')
    then done (t, c ∷ chars)
    else read_locks num_locks t.num_my_locks (c ∷ chars) >>= λ p.
        read_hua (record t { my_locks = p.0; num_my_locks = length p.0 }) p.1

-- The six fields that a task must have: the list of processors, and the task with the others.
unfoldable pub read_fields : Task → List ℕ → Reading (List ℕ × Task × List ℕ)
read_fields t chars = do
  cpus ← scan_word 1_024 chars
  group ← scan_int 31 cpus.1
  wss ← scan_int 63 group.1
  period ← scan_int 63 wss.1
  exec ← scan_int 63 period.1
  utility ← scan_int 31 exec.1
  done (
    cpus.0,
    record t {
      thread_group = to_u32 group.0;
      task_wss = wss.0;
      period = to_u64 period.0;
      exec_time = to_u64 exec.0;
      utility = to_u32 utility.0;
    },
    skip_spaces utility.1,
  )

-- The statements between the fields and the list of processors.
unfoldable pub set_wss_period : Workload → Task → Task
set_wss_period w t = record t {
  task_wss =
      clamp_wss (has_flag w.capabilities cap_task_wss) w.min_task_wss w.max_task_wss t.task_wss;
  period_ts = set_period_ts t.period;
}

-- The label `add_task`, with the failed assertion as an exit.
unfoldable pub put_task : TestState → (domain_masks : List ℕ) → Task → Reading TestState
put_task s domain_masks t = elim (add_task t s.task_list) [
  | none ↦ exits
  | some list ↦
      done (record s { domain_masks = domain_masks; task_list = list; num_tasks = s.num_tasks + 1 })
]

-- `raw` is the memory that `salloc` returns for the task.
unfoldable pub init_task : Workload → (raw : Task) → TestState → List ℕ → Step
init_task w raw s chars = do
  fields ← read_fields (new_task raw) chars
  cpus ← initialize_task_cpus s.domain_masks (fields.0 ++ 0 ∷ [])
  t ←
      read_optional (pos_part s.num_locks)
        (record (set_wss_period w fields.1) { cpu_mask = cpus.0 }) fields.2
  s' ← put_task s cpus.1 t.0
  done (s', t.1)

-- The search for the group's leader; without one the program ends.
unfoldable pub put_group_wss : TestState → (thread_group : ℕ) → ℤ → Reading TestState
put_group_wss s group wss = elim (set_group_wss group wss s.task_list) [
  | none ↦ exits
  | some list ↦ done (record s { task_list = list })
]

unfoldable pub init_group : Workload → TestState → List ℕ → Step
init_group w s chars = do
  group ← scan_int 31 chars
  wss ← scan_int 63 group.1
  s' ←
      put_group_wss s (to_u32 group.0)
        (clamp_wss (has_flag w.capabilities cap_group_wss) w.min_group_wss w.max_group_wss wss.0)
  done (s', skip_spaces wss.1)

-- `allocates` tells whether `salloc` finds memory for a number of mutexes.
unfoldable pub initialize_test_locks : (allocates : ℤ → Bool) → TestState → Reading TestState
initialize_test_locks allocates s =
    if not (allocates s.num_locks)
    then exits
    else done (record s {
      locking =
          if eq_ℤ s.num_locks (pos 0) && has_flag s.locking locking_flag
          then no_locking
          else s.locking;
    })

-- The rest of a comment's line.
unfoldable pub skip_line : List ℕ → List ℕ
skip_line [] = []
skip_line (c ∷ chars) = let rest = skip_line chars in if c == b'\n' then chars else rest

-- The state before the loop.
abbrev pub initial_state : (num_processors locking : ℕ) → TestState
initial_state num_processors locking = record {
  num_locks = negsuc 0;
  locking = locking;
  domain_masks = replicate num_processors 0;
  task_list = [];
  num_tasks = 0;
  seen_group = false;
}

-- The tests after the loop.
unfoldable pub check_tasks : TestState → Reading TestState
check_tasks s =
    if ltb_ℤ s.num_locks (pos 0) then exits else if s.num_tasks == 0 then exits else done s

-- The rest of a loop after one round.
abbrev pub and_then {ℓ κ} :
    {A : Type ℓ} {B : Type κ} → Reading A → (A → Option (Reading B)) → Option (Reading B)
and_then (done a) f = f a
and_then exits f = some exits
and_then undefined f = some undefined

module _ (w : Workload) (allocates : ℤ → Bool) (fresh : ℕ → Task) where
  -- The line of the locks.
  unfoldable pub read_num_locks : TestState → List ℕ → Step
  read_num_locks s chars = do
    number ← scan_int 31 chars
    s' ← initialize_test_locks allocates (record s { num_locks = number.0 })
    done (s', skip_spaces number.1)

  -- The lines of a task and of a group. `fresh n` is the memory for the task after `n` others.
  unfoldable pub read_task : TestState → List ℕ → Step
  read_task s chars =
      if ltb_ℤ s.num_locks (pos 0)
      then exits
      else if s.seen_group
      then exits
      else init_task w (fresh s.num_tasks) s chars

  unfoldable pub read_group : TestState → List ℕ → Step
  read_group s chars = init_group w (record s { seen_group = true }) chars

  -- One round of the loop of `init_tasks`, with the character `c` read.
  unfoldable pub read_line : (c : ℕ) → TestState → List ℕ → Step
  read_line c s chars =
      if c == b'#'
      then done (s, skip_line chars)
      else if c == b'L' && eq_ℤ s.num_locks (negsuc 0)
      then read_num_locks s chars
      else if c == b'T'
      then read_task s chars
      else if c == b'G'
      then read_group s chars
      else exits

  -- The loop. Each round takes at least one character; `none` is a loop that has not ended.
  unfoldable pub read_lines : (fuel : ℕ) → TestState → List ℕ → Option (Reading TestState)
  read_lines zero s chars = none
  read_lines (suc fuel) s [] = some (done s)
  read_lines (suc fuel) s (c ∷ chars) = and_then (read_line c s chars) λ p. read_lines fuel p.0 p.1

  -- `init_tasks` on a file; `none` is a file that cannot be opened.
  unfoldable pub init_tasks :
      (num_processors locking : ℕ) → Option (List ℕ) → Option (Reading TestState)
  init_tasks num_processors locking none = some exits
  init_tasks num_processors locking (some chars) =
      elim (read_lines (length chars + 1) (initial_state num_processors locking) chars) [
        | none ↦ none
        | some ending ↦ some (ending >>= check_tasks)
      ]
