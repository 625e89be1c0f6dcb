-- ===== src/TestRun.antt =====
-- Parts of a run of the test application: the calls of `set_scheduler` and `calc_lock_time` of
-- sched_test_app/src/tester.c, and how the threads of a group agree on one start time in
-- `start_task`, task.c.
pub mod StartTime
pub mod Domains
pub mod Process
pub mod Prepare
pub mod LockTime
mod Tests
use chronos_project.Base.{
  ltb, ◌==◌, if◌then◌else◌, ℕ, ◌/◌, Bool, true, false, Option, none, some, List, [], ◌∷◌,
}
use chronos_project.Clock.{thousand, Timespec}

-- The loop of `run` over the domain masks: the masks that `set_scheduler` is called with, and
-- whether all calls succeeded; the first that fails ends the program.
unfoldable pub set_schedulers : (succeeds : ℕ → Bool) → (domain_masks : List ℕ) → List ℕ × Bool
set_schedulers succeeds [] = ([], true)
set_schedulers succeeds (mask ∷ masks) =
    let (calls, ok) = set_schedulers succeeds masks in
    if mask == 0
    then ([], true)
    else if succeeds mask
    then (mask ∷ calls, ok)
    else (mask ∷ [], false)

-- The greatest of the measurements, from `time` on.
unfoldable pub longest : (time : ℕ) → (measured : List ℕ) → ℕ
longest time [] = time
longest time (temp_time ∷ measured) =
    longest (if ltb time temp_time then temp_time else time) measured

-- `lock_time`, in microseconds, from the measurements of `calc_lock_time` in nanoseconds.
unfoldable pub calc_lock_time : (measured : List ℕ) → ℕ
calc_lock_time measured = longest 0 measured / thousand

-- Where a thread of `start_task` stands: at the barrier's exit, with its clock read, or past the
-- compare-and-swap.
pub data Place : Type 0 where
  waiting : Place
  clock_read : Place
  started : Place

-- The state of the threads. A thread group is a process with its own copy of `tester`, and so of
-- `global_start_time`, which is a pointer to a thread's `local_start_time`; `process` gives each
-- thread's. The tasks are in shared memory.
pub record Shared : Type 0 where
  pub place : ℕ → Place
  pub local_start_time : ℕ → Timespec
  pub process : ℕ → ℕ
  pub global_start_time : ℕ → Option ℕ

abbrev pub set_at {ℓ} : {A : Type ℓ} → (ℕ → A) → ℕ → A → ℕ → A
set_at f i v j = if i == j then v else f j

-- `clock_gettime`, with the answer `now`.
unfoldable pub read_clock : (thread : ℕ) → (now : Timespec) → Shared → Shared
read_clock i now s = record s {
  place = set_at s.place i clock_read;
  local_start_time = set_at s.local_start_time i now;
}

-- `__sync_bool_compare_and_swap` on the start time of the thread's process.
unfoldable pub swap_start : (thread : ℕ) → Shared → Shared
swap_start i s = record s {
  place = set_at s.place i started;
  global_start_time =
      set_at s.global_start_time (s.process i)
        (elim (s.global_start_time (s.process i)) [ none ↦ some i | some j ↦ some j ]);
}

-- The next step of a thread. One that has started only reads the start time.
unfoldable pub advance : (thread : ℕ) → (now : Timespec) → Shared → Shared
advance i now s = elim (s.place i) [
  | waiting ↦ read_clock i now s
  | clock_read ↦ swap_start i s
  | started ↦ s
]

-- The steps in the order that the threads make them, each with what the clock would answer.
unfoldable pub interleave : List (ℕ × Timespec) → Shared → Shared
interleave [] s = s
interleave ((i, now) ∷ steps) s = interleave steps (advance i now s)
