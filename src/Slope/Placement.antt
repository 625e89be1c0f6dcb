-- ===== src/Slope/Placement.antt =====
-- Where the invalidators of sched_test_app/src/slope/slope.c run.
use chronos_project.Base.{ℕ, ◌+◌, ◌-◌, ◌*◌, ◌/◌, ◌≤◌, ◌<◌, ◌≡◌, ap, ◌⊎◌, inl, inr, arith, dec_lt}
use chronos_project.Slope.Measure.{active_invalidators, invalidator_cpu}
use chronos_project.Totals.EndToEnd.{product_mono}

step_product : (i j m : ℕ) → i < j → i * m + m ≤ j * m
step_product i j m hij =
    let gap = product_mono (i + 1) j m (omega arith) in
    let gap_sum : (i + 1) * m ≡ i * m + m = grind arith in omega arith

-- Numbers below `k` times `m`, with `k` at most `m`, differ by at least one after the division.
spread :
    (m k i j : ℕ)
    → (k ≡ 1) ⊎ ((k ≡ 2) ⊎ ((k ≡ 3) ⊎ (k ≡ 4)))
    → k ≤ m
    → j < k
    → (j * m / k < m) × (i < j → i * m / k < j * m / k)
spread m k i j small le hj =
    let top = product_mono (j + 1) k m (omega arith) in
    let gap = step_product i j m in
    let top_sum : (j + 1) * m ≡ j * m + m = grind arith in
    elim small [
      | inl e ↦
          let k_m : k * m ≡ 1 * m = ap (λ (x : ℕ). x * m) e in
          rw e (omega arith, λ hij. omega (arith, gap hij))
      | inr more ↦ elim more [
        | inl e ↦
            let k_m : k * m ≡ 2 * m = ap (λ (x : ℕ). x * m) e in
            rw e (omega arith, λ hij. omega (arith, gap hij))
        | inr more' ↦ elim more' [
          | inl e ↦
              let k_m : k * m ≡ 3 * m = ap (λ (x : ℕ). x * m) e in
              rw e (omega arith, λ hij. omega (arith, gap hij))
          | inr e ↦
              let k_m : k * m ≡ 4 * m = ap (λ (x : ℕ). x * m) e in
              rw e (omega arith, λ hij. omega (arith, gap hij))
        ]
      ]
    ]

-- Up to four invalidators, and no more than processors beside the first.
active_cases :
    (num_cpus i : ℕ)
    → i < active_invalidators num_cpus
    → ((active_invalidators num_cpus ≡ 1)
        ⊎ ((active_invalidators num_cpus ≡ 2)
            ⊎ ((active_invalidators num_cpus ≡ 3) ⊎ (active_invalidators num_cpus ≡ 4))))
      × (active_invalidators num_cpus ≤ num_cpus - 1)
unfolding active_invalidators
active_cases num_cpus i h = ground arith

pub invalidator_cpu_range :
    (num_cpus i : ℕ)
    → i < active_invalidators num_cpus
    → (1 ≤ invalidator_cpu num_cpus i) × (invalidator_cpu num_cpus i < num_cpus)
unfolding invalidator_cpu
invalidator_cpu_range num_cpus i h =
    let cases = active_cases num_cpus i h in
    let s = spread (num_cpus - 1) (active_invalidators num_cpus) i i cases.0 cases.1 h in
    (omega (arith, s.0), omega (arith, cases.1, h))

-- Of two invalidators the one with the greater number has the lower processor.
cpus_in_order :
    (num_cpus i j : ℕ)
    → j < active_invalidators num_cpus
    → i < j
    → invalidator_cpu num_cpus j < invalidator_cpu num_cpus i
unfolding invalidator_cpu
cpus_in_order num_cpus i j hj hij =
    let cases = active_cases num_cpus j hj in
    let s = spread (num_cpus - 1) (active_invalidators num_cpus) i j cases.0 cases.1 hj in
    omega (arith, s.0, s.1 hij)

-- Each invalidator runs on a processor of the machine other than processor 0, where the slope is
-- measured, and no two invalidators run on the same one.
pub invalidators_apart :
    (num_cpus i j : ℕ)
    → i < active_invalidators num_cpus
    → j < active_invalidators num_cpus
    → (1 ≤ invalidator_cpu num_cpus i)
      × (invalidator_cpu num_cpus i < num_cpus)
      × (invalidator_cpu num_cpus i ≡ invalidator_cpu num_cpus j → i ≡ j)
invalidators_apart num_cpus i j hi hj =
    let range = invalidator_cpu_range num_cpus i hi in
    (
      range.0,
      range.1,
      λ e. elim (dec_lt i j) [
        | yes below ↦ absurd (omega (arith, e, cpus_in_order num_cpus i j hj below))
        | no above ↦ elim (dec_lt j i) [
          | yes below ↦ absurd (omega (arith, e, cpus_in_order num_cpus j i hi below))
          | no equal ↦ omega arith
        ]
      ],
    )
