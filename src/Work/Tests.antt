-- ===== src/Work/Tests.antt =====
-- Runs of do_work_slope.
use chronos_project.Base.{
  leb, length, ℕ, zero, suc, ◌+◌, ◌*◌, ◌^◌, ◌≤◌, ◌<◌, ◌≡◌, refl, ◌↔◌, ◌⊎◌, Bool, true, false, none,
  some, List, [], ◌∷◌, arith,
}
use chronos_project.Base.Int.{pos, ◌+ℤ◌, ◌-ℤ◌, ◌*ℤ◌}
use chronos_project.Clock.{Timespec}
use chronos_project.Slope.{real_wss, search_lines, slope_of, get_workload_slope}
use chronos_project.Work.{slope_loop, do_work_slope}
use chronos_project.Work.Amounts.{sum_calls, do_work_slope_complete, do_work_slope_ends_iff}
use chronos_project.Work.Fixed.{fixed, fixed_doubles}
use chronos_project.Work.Ignored.{has_time, end_of, abort_ignored}
use chronos_project.Work.Stops.{workload_do_work-stops}
use chronos_project.Work.Timer.{
  has_worked, to_seconds, end_of_work, next_diff, last_call, timer_loop, do_work_timer,
  workload_do_work, cached_slope,
}
use chronos_project.Workloads.{burn_loop_workload}

abbrev never : ℕ → Bool
never k = false

-- 25 iterations with a check every 10.
in_pieces : do_work_slope 26 never 25 10 ≡ some (10 ∷ 10 ∷ 5 ∷ [], false)
unfolding do_work_slope slope_loop
in_pieces = refl

-- An abort that the second read sees.
is_stopped : do_work_slope 26 (λ k. leb 1 k) 25 10 ≡ some (10 ∷ [], true)
unfolding do_work_slope slope_loop
is_stopped = refl

do_work_slope_complete_example :
    (calls : List ℕ) × (do_work_slope 26 never 25 10 ≡ some (calls, false)) × (sum_calls calls ≡ 25)
do_work_slope_complete_example =
    do_work_slope_complete 25 10 never (λ k. refl) (omega arith) (omega arith)

abbrev amount : ℕ
amount = 25

do_work_slope_ends_iff_example :
    ((fuel : ℕ) × (r : List ℕ × Bool) × (do_work_slope fuel never amount 0 ≡ some r))
    ↔ ((0 < 0) ⊎ (amount ≡ 0))
do_work_slope_ends_iff_example = do_work_slope_ends_iff amount 0 never (λ k. refl) (omega arith)

-- A microsecond passes between two readings.
abbrev micro_clock : ℕ → Timespec
micro_clock k = record { tv_sec = 1; tv_nsec = 1_000 * k }

abbrev one_ns : Timespec
one_ns = record { tv_sec = 0; tv_nsec = 1 }

-- 10 microseconds of work at 5 iterations each, aborted after 2.
abbrev third_read : ℕ → Bool
third_read k = leb 2 k

timer_aborted :
    do_work_timer fixed fixed_doubles micro_clock one_ns third_read 3 (pos (5 * 10 ^ 9)) 10
    ≡ some (5 ∷ 5 ∷ 45 ∷ [], true)
unfolding do_work_timer timer_loop last_call next_diff end_of_work to_seconds ◌+ℤ◌ ◌*ℤ◌ ◌-ℤ◌
timer_aborted = refl

workload_do_work-stops_example :
    (r : List ℕ × Bool) × (workload_do_work fixed fixed_doubles micro_clock one_ns third_read 3 2
        (pos (5 * 10 ^ 9))
        10
      ≡ has_worked r.0 r.1)
    × (length r.0 ≤ 2 + 1)
workload_do_work-stops_example =
    workload_do_work-stops third_read 2 refl fixed fixed_doubles micro_clock one_ns 3 2 10
      (pos (5 * 10 ^ 9)) (omega arith) (omega arith)

busy_twice :
    (k : ℕ)
    → k < 2
    → (third_read k ≡ false)
      × (has_time fixed fixed_doubles micro_clock one_ns
            (end_of fixed fixed_doubles micro_clock one_ns 10)
            k
          ≡ true)
unfolding next_diff end_of_work to_seconds ◌+ℤ◌ ◌*ℤ◌ ◌-ℤ◌
busy_twice zero early = (refl, refl)
busy_twice (suc zero) early = (refl, refl)
busy_twice (suc (suc k)) early = absurd (omega arith)

abort_ignored_example :
    do_work_timer fixed fixed_doubles micro_clock one_ns third_read 3 (pos (5 * 10 ^ 9)) 10
    ≡ some (5 ∷ 5 ∷ 45 ∷ [], true)
unfolding last_call next_diff end_of_work to_seconds ◌+ℤ◌ ◌*ℤ◌ ◌-ℤ◌
abort_ignored_example =
    abort_ignored fixed fixed_doubles micro_clock one_ns third_read 2 3 10 (pos (5 * 10 ^ 9)) refl
      busy_twice (omega arith)

-- Only the file of the average slopes is made.
wcet_missing :
    cached_slope fixed
      (pos 0, pos 0)
      burn_loop_workload
      1
      (pos 0)
      (pos 0)
      (some ((pos 0, pos 5) ∷ []))
      none
    ≡ none
unfolding cached_slope get_workload_slope ◌*ℤ◌
wcet_missing = refl

average_found :
    cached_slope fixed
      (pos 0, pos 0)
      burn_loop_workload
      0
      (pos 0)
      (pos 0)
      (some ((pos 0, pos 5) ∷ []))
      none
    ≡ some (pos 5)
unfolding cached_slope get_workload_slope search_lines slope_of real_wss ◌*ℤ◌
average_found = refl
