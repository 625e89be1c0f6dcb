-- ===== src/Work.antt =====
-- Doing work for a number of iterations: `do_work_slope` of sched_test_app/src/workload.c. The two
-- products with the slope, which is a `double`, are arguments, and so is what each read of the
-- abort pointer finds.
mod Tests
pub mod Amounts
pub mod Timer
pub mod Fixed
pub mod Stops
pub mod Ignored
use chronos_project.Base.{
  ltb, if◌then◌else◌, not_b, ℕ, zero, suc, ◌+◌, ◌-◌, ◌%◌, ◌^◌, Bool, ◌&&◌, Option, none, some, List,
  [], ◌∷◌, ◌++◌,
}

-- What a run has done: the iterations that each call of the workload's `do_work` was asked for, the
-- number of reads of the abort pointer so far, and `i`.
pub record Progress : Type 0 where
  pub calls : List ℕ
  pub reads : ℕ
  pub done : ℕ

-- The loop from the read with number `n` on; `none` is not enough fuel.
unfoldable pub slope_loop :
    (fuel : ℕ) → (is_aborted : ℕ → Bool) → (iterations chunk n i : ℕ) → Option Progress
slope_loop zero is_aborted iterations chunk n i = none
slope_loop (suc fuel) is_aborted iterations chunk n i =
    let next = (i + chunk) % 2 ^ 64 in
    let rest = slope_loop fuel is_aborted iterations chunk (n + 1) next in
    if not_b (is_aborted n) && ltb next iterations
    then elim rest [ none ↦ none | some p ↦ some (record p { calls = chunk ∷ p.calls }) ]
    else some (record { calls = []; reads = n + 1; done = i })

-- `iterations` is `usage * exec_slope`, `chunk` is `exec_slope * ABORT_CHECK_US`, both truncated.
-- The result is the calls and whether the task has been aborted.
unfoldable pub do_work_slope :
    (fuel : ℕ) → (is_aborted : ℕ → Bool) → (iterations chunk : ℕ) → Option (List ℕ × Bool)
do_work_slope fuel is_aborted iterations chunk =
    elim (slope_loop fuel is_aborted iterations chunk 0 0) [
      | none ↦ none
      | some p ↦
          if not_b (is_aborted p.reads) && ltb p.done iterations
          then some (p.calls ++ (iterations - p.done) ∷ [], is_aborted (p.reads + 1))
          else some (p.calls, is_aborted (p.reads + 1))
    ]
