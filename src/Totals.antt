-- ===== src/Totals.antt =====
mod Tests
pub mod EndToEnd
pub mod Sums
-- The statistics of the whole system: `clear_counters` and the accumulation loop of `run`, of
-- sched_test_app/src/tester.c.
use chronos_project.Atomic.Counter.{total}
use chronos_project.Base.{if◌then◌else◌, ℕ, ◌+◌, ◌*◌, ◌%◌, ◌^◌, Option, none, some, List, [], ◌∷◌}
use chronos_project.Base.Int.{ℤ, pos, ◌+ℤ◌, ltb_ℤ, to_u32, as_int, to_int}
use chronos_project.Types.{Task}

-- The counters of `struct test`.
pub record Totals : Type 0 where
  pub sys_total_release : ℤ
  pub sys_met_release : ℤ
  pub sys_total_util : ℤ
  pub sys_met_util : ℤ
  pub sys_abort_count : ℤ
  pub max_tardiness : ℤ

unfoldable pub clear_counters : Totals → Totals
clear_counters s = record {
  sys_total_release = pos 0;
  sys_met_release = pos 0;
  sys_total_util = pos 0;
  sys_met_util = pos 0;
  sys_abort_count = pos 0;
  max_tardiness = pos 0;
}

-- `counter += n` for an `unsigned int`: the sum is unsigned, and converted back as gcc does.
unfoldable pub add_unsigned : (counter : ℤ) → (n : ℕ) → ℤ
add_unsigned counter n = to_int ((to_u32 counter + n) % 2 ^ 32)

-- One round of the loop. The sum of the releases is an `int` sum; `none` is its overflow.
unfoldable pub add_task_stats : Totals → Task → Option Totals
add_task_stats s t = elim (as_int (s.sys_total_release +ℤ to_int t.max_releases)) [
  | none ↦ none
  | some total ↦ some (record {
    sys_total_release = total;
    sys_met_release = add_unsigned s.sys_met_release t.deadlines_met;
    sys_total_util = add_unsigned s.sys_total_util ((t.max_releases * t.utility) % 2 ^ 32);
    sys_met_util = add_unsigned s.sys_met_util t.utility_accrued;
    sys_abort_count = add_unsigned s.sys_abort_count t.num_aborted;
    max_tardiness =
        if ltb_ℤ t.max_tardiness s.max_tardiness then t.max_tardiness else s.max_tardiness;
  })
]

unfoldable pub accumulate : List Task → Totals → Option Totals
accumulate [] s = some s
accumulate (t ∷ tasks) s = elim (add_task_stats s t) [ none ↦ none | some v ↦ accumulate tasks v ]
