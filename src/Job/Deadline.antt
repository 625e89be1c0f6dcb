-- ===== src/Job/Deadline.antt =====
-- Releases and deadlines: `calculate_releases` and `find_job_deadline`.
use chronos_project.Base.{
  leb, ◌==◌, ◌!=◌, if◌then◌else◌, Bool-cases, ℕ, ◌+◌, ◌*◌, ◌/◌, ◌%◌, ◌^◌, ◌≤◌, ◌<◌, ◌≡◌, refl, ap,
  ◌↔◌, inl, inr, true, false, none, some, arith,
}
use chronos_project.Base.Int.{pos, ◌*ℤ◌, to_u32, as_int}
use chronos_project.Clock.{billion, million, thousand, Timespec, IsNormal, to_ns}
use chronos_project.Job.{calculate_releases, find_job_deadline}
use chronos_project.Types.{Task}
use native.Mathlib.Nat.{div-add-mod', mod-lt, div-le_self}

-- The product that `calculate_releases` starts from overflows above 2147 seconds.
product-as_int :
    (n : ℕ) → as_int (pos n *ℤ million) ≡ (if leb n 2147 then some (pos (n * million)) else none)
unfolding ◌*ℤ◌ as_int
product-as_int n = ground arith

-- The quotient is the number of whole periods, and a rest is what is missing.
division_floor :
    (n d : ℕ)
    → 0 < d
    → (n / d * d ≤ n) × (n < (n / d + 1) * d) × (((n % d != 0) ≡ true) ↔ (n / d * d < n))
division_floor n d h =
    let e = div-add-mod' n d in
    let l = mod-lt n h in (omega (arith, e), grind arith, ground (arith, e))

-- With a positive period and a run time of at most 2147 seconds, `calculate_releases` finds the
-- number of whole periods in the run time, and asks for one more release exactly when the periods
-- leave a rest, so the releases always cover the run.
pub calculate_releases-cover :
    (run_time : ℕ) (t : Task)
    → run_time ≤ 2147
    → 0 < t.period
    → (u : Task) × (calculate_releases (pos run_time) t ≡ some u)
      × (u.max_releases * t.period ≤ run_time * million)
      × (run_time * million < (u.max_releases + 1) * t.period)
      × ((u.extra_release ≡ true) ↔ (u.max_releases * t.period < run_time * million))
unfolding calculate_releases
calculate_releases-cover run_time t small positive =
    let n = run_time * million in
    let q = n / t.period in
    let rest = n % t.period != 0 in
    let within : leb run_time 2147 ≡ true = ground arith in
    let runtime : to_u32 (pos n) ≡ n = omega (arith, small) in
    let floor = division_floor n t.period positive in
    let u = record t { max_releases = q; extra_release = rest } in
    let q_small : q % 2 ^ 32 ≡ q = omega (arith, div-le_self n t.period) in
    let nonzero : (t.period == 0) ≡ false = ground arith in
    (
      u,
      rw (calculate_releases, product-as_int run_time, within, runtime, nonzero, q_small) refl,
      floor.0,
      floor.1,
      floor.2,
    )

-- The deadline of a job is a normal instant, and lies (num_releases + 1) periods after the start,
-- as long as that time fits the machine's words.
pub find_job_deadline-exact :
    (start_time : Timespec) (t : Task)
    → t.num_releases + 1 < 2 ^ 32
    → (t.num_releases + 1) * t.period * thousand + start_time.tv_nsec < 2 ^ 64
    → start_time.tv_sec + 2 ^ 64 / billion < 2 ^ 64
    → (to_ns (find_job_deadline start_time t)
        ≡ to_ns start_time + (t.num_releases + 1) * t.period * thousand)
      × IsNormal (find_job_deadline start_time t)
unfolding find_job_deadline
find_job_deadline-exact start_time t h k l = ground arith

-- What `calculate_releases` returns shows that the product did not overflow.
calculate_releases-defined :
    (run_time : ℕ) (t u : Task)
    → calculate_releases (pos run_time) t ≡ some u
    → (run_time ≤ 2147) × (u.period ≡ t.period)
unfolding calculate_releases
calculate_releases-defined run_time t u h = elim (Bool-cases (leb run_time 2147)) [
  | inl within ↦
      let product : as_int (pos run_time *ℤ million) ≡ some (pos (run_time * million)) =
        rw (product-as_int run_time, within) refl in
      let defined = rw (calculate_releases, product) at h in (ground arith, ground (arith, defined))
  | inr large ↦
      let product : as_int (pos run_time *ℤ million) ≡ none =
        rw (product-as_int run_time, large) refl in
      let undefined_then = rw (calculate_releases, product) at h in
      absurd (ground (arith, undefined_then))
]

mul_mono : (a b p : ℕ) → a ≤ b → a * p ≤ b * p
mul_mono a b p h = grind arith

-- In a run whose releases calculate_releases finds, with a period between 1 and 2^32 - 1
-- microseconds, from a normal start before 2^63 seconds, the deadline of every release up to the
-- extra one is exact, and every counted job's deadline lies within the run.
pub deadlines_of_run :
    (run_time k : ℕ) (t u : Task) (start_time : Timespec)
    → 0 < t.period
    → t.period < 2 ^ 32
    → calculate_releases (pos run_time) t ≡ some u
    → IsNormal start_time
    → start_time.tv_sec < 2 ^ 63
    → k ≤ u.max_releases
    → let deadline = find_job_deadline start_time (record u { num_releases = k }) in
      (to_ns deadline ≡ to_ns start_time + (k + 1) * t.period * thousand)
      × (k < u.max_releases → to_ns deadline ≤ to_ns start_time + run_time * billion)
deadlines_of_run run_time k t u start_time positive short e normal early le =
    let (small, period) = calculate_releases-defined run_time t u e in
    let (u', e', within, over, extra) = calculate_releases-cover run_time t small positive in
    let same : u ≡ u' = cc in
    let releases : u.max_releases ≡ u'.max_releases = ap (λ (v : Task). v.max_releases) same in
    let product : (k + 1) * u.period ≡ (k + 1) * t.period = ap (λ (p : ℕ). (k + 1) * p) period in
    let bound = mul_mono (k + 1) (u'.max_releases + 1) t.period (omega arith) in
    let few = mul_mono 1 t.period u'.max_releases positive in
    let exact =
      find_job_deadline-exact start_time (record u { num_releases = k }) (omega arith)
        (omega (arith, product)) (omega arith) in
    (
      omega (arith, product, exact.0),
      λ below.
          let tight = mul_mono (k + 1) u'.max_releases t.period (omega arith) in
          omega (arith, product, exact.0, tight),
    )
