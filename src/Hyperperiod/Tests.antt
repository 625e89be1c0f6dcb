-- ===== src/Hyperperiod/Tests.antt =====
-- Hyper-periods of concrete task sets.
use chronos_project.Base.{ℕ, ◌^◌, ◌≡◌, refl, [], ◌∷◌, arith}
use chronos_project.Hyperperiod.{value, through_int, gcd_sorted, gcd, lcm_loop, taskset_lcm}
use chronos_project.Hyperperiod.Lcm.{IsLcm, taskset_lcm-IsLcm}

lcm_runs : taskset_lcm 20 12 (18 ∷ 8 ∷ []) ≡ value 72
unfolding taskset_lcm lcm_loop gcd gcd_sorted through_int
lcm_runs = refl

taskset_lcm-IsLcm_example :
    (l : ℕ) × (taskset_lcm (2 ^ 31) 12 (18 ∷ 8 ∷ []) ≡ value l) × IsLcm l (12 ∷ 18 ∷ 8 ∷ [])
taskset_lcm-IsLcm_example =
    taskset_lcm-IsLcm (2 ^ 31) 12 (18 ∷ 8 ∷ []) 144 (omega arith) (omega arith) (omega arith)
      (omega arith) ((12, refl), ((8, refl), ((18, refl), tt)))
