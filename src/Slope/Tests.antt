-- ===== src/Slope/Tests.antt =====
-- Slope files with small whole numbers for slopes.
use chronos_project.Base.{ℕ, ◌*◌, ◌/◌, ◌≤◌, ◌<◌, ◌≡◌, refl, inr, some, List, [], ◌∷◌, arith}
use chronos_project.Base.Int.{ℤ, pos, negsuc, pos_part, ◌+ℤ◌, ◌-ℤ◌, ◌*ℤ◌, ltb_ℤ, leb_ℤ}
use chronos_project.Slope.{Floats, real_wss, Line, get_workload_slope, put_workload_slope}
use chronos_project.Slope.Measure.{active_invalidators, invalidator_cpu, update_slopes}
use chronos_project.Slope.Nearest.{
  IsNearestSlope, get_workload_slope_nearest, get-put_workload_slope,
}
use chronos_project.Slope.Placement.{invalidators_apart}
use chronos_project.Slope.Samples.{IsVaried, greatest_wss_unmeasured}
use chronos_project.Work.Fixed.{fixed}
use chronos_project.Workloads.{array_walk_workload}

abbrev whole : Floats ℤ
whole = record {
  less = λ a b. ltb_ℤ a b;
  less_equal = λ a b. leb_ℤ a b;
  of_long = λ z. z;
  add = λ a b. a +ℤ b;
  sub = λ a b. a -ℤ b;
  mul = λ a b. a *ℤ pos_part b;
  div = λ a b. pos (pos_part a / pos_part b);
  printed = λ a. a;
}

abbrev two_lines : List (Line ℤ)
two_lines = (pos 100, pos 5) ∷ ((pos 900, pos 9) ∷ [])

get_workload_slope_nearest_example :
    IsNearestSlope whole
      (pos (real_wss array_walk_workload 0 500))
      two_lines
      (get_workload_slope whole (pos 0, pos 0) array_walk_workload 0 500 (some two_lines))
unfolding real_wss
get_workload_slope_nearest_example =
    get_workload_slope_nearest whole (pos 0, pos 0) array_walk_workload 0 500 two_lines refl
      (refl, (refl, tt)) (refl, (refl, tt))

-- The slope 7.123456789 is written with 6 decimals.
get-put_workload_slope_example :
    get_workload_slope fixed
      (pos 0, pos 0)
      array_walk_workload
      0
      500
      (put_workload_slope fixed array_walk_workload (pos 7_123_456_789) 0 500 (some two_lines))
    ≡ pos 7_123_457_000
unfolding real_wss
get-put_workload_slope_example =
    get-put_workload_slope fixed (pos 0, pos 0) array_walk_workload (pos 7_123_456_789) 0 500
      two_lines

array_walk-IsVaried : IsVaried array_walk_workload
array_walk-IsVaried = record {
  task_range = λ e. absurd (ground arith);
  group_range =
      λ e. record { grows = omega arith; no_overflow = omega arith; fits_int = omega arith };
  varies = inr refl;
}

greatest_wss_unmeasured_example :
    get_workload_slope whole
      (pos 0, pos 0)
      array_walk_workload
      0
      (1_024 * 1_024 * 10)
      (update_slopes whole array_walk_workload (λ t g n. pos 7) (some []))
    ≡ negsuc 0
greatest_wss_unmeasured_example =
    greatest_wss_unmeasured whole (pos 0, pos 0) array_walk_workload (λ t g n. pos 7) []
      array_walk-IsVaried refl (λ t g n. refl)

invalidators_apart_example :
    (1 ≤ invalidator_cpu 8 1)
    × (invalidator_cpu 8 1 < 8)
    × (invalidator_cpu 8 1 ≡ invalidator_cpu 8 3 → ◌≡◌ {A = ℕ} 1 3)
unfolding active_invalidators
invalidators_apart_example = invalidators_apart 8 1 3 (omega arith) (omega arith)
