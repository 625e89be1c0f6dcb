-- ===== src/Slope/Samples.antt =====
-- The sizes that `update_slopes` of sched_test_app/src/slope/slope.c measures stay below the
-- greatest size of the workload, so `get_workload_slope` of slope.c finds no slope there.
use chronos_project.Base.{
  Bool-cases, ℕ, zero, suc, ◌+◌, ◌-◌, ◌*◌, ◌^◌, ◌≤◌, ◌<◌, ◌≡◌, refl, ◌⊎◌, inl, inr, true, false,
  some, List, [], ◌∷◌, ◌++◌, arith,
}
use chronos_project.Base.Int.{ℤ, pos, ltb_ℤ}
use chronos_project.Job.{has_flag}
use chronos_project.Options.{eq_ℤ}
use chronos_project.Slope.{
  Floats, real_wss, Line, below_zero, minus_one, get_workload_slope, put_workload_slope,
  clear_workload_slope,
}
use chronos_project.Slope.Closest.{Each, HasLine}
use chronos_project.Slope.Measure.{
  wss_samples, sample_wss, no_wss_variation, sample_iters, update_samples, update_slopes,
}
use chronos_project.Slope.Nearest.{get_workload_slope_nearest}
use chronos_project.TestRun.LockTime.{listed}
use chronos_project.Totals.EndToEnd.{product_mono}
use chronos_project.Work.Fixed.{fixed}
use chronos_project.Workloads.{cap_task_wss, cap_group_wss, Workload}

-- Bounds of sizes that the products of the samples do not overflow.
pub record IsRange (low high : ℕ) : Type 0 where
  pub grows : low < high
  pub no_overflow : 9 * (high - low) < 2 ^ 32
  pub fits_int : high < 2 ^ 32

sample_below : (low high i : ℕ) → IsRange low high → i ≤ 9 → sample_wss low high i < high
unfolding sample_wss
sample_below low high i r le =
    let times = product_mono i 9 (high - low) le in
    let grows = r.grows in
    let fits_int = r.fits_int in let no_overflow = r.no_overflow in omega arith

-- A workload whose size varies, for its tasks or its groups.
pub record IsVaried (w : Workload) : Type 0 where
  pub task_range :
      has_flag w.capabilities cap_task_wss ≡ true → IsRange w.min_task_wss w.max_task_wss
  pub group_range :
      has_flag w.capabilities cap_group_wss ≡ true → IsRange w.min_group_wss w.max_group_wss
  pub varies :
      (has_flag w.capabilities cap_task_wss ≡ true) ⊎ (has_flag w.capabilities cap_group_wss ≡ true)

real_wss_below :
    (w : Workload) (i : ℕ)
    → IsVaried w
    → i ≤ 9
    → real_wss w
        (sample_wss w.min_task_wss w.max_task_wss i)
        (sample_wss w.min_group_wss w.max_group_wss i)
      < real_wss w w.max_task_wss w.max_group_wss
unfolding real_wss
real_wss_below w i v le =
    let task = λ (e : has_flag w.capabilities cap_task_wss ≡ true).
      sample_below w.min_task_wss w.max_task_wss i (v.task_range e) le in
    let group = λ (e : has_flag w.capabilities cap_group_wss ≡ true).
      sample_below w.min_group_wss w.max_group_wss i (v.group_range e) le in
    elim (Bool-cases (has_flag w.capabilities cap_task_wss)) [
      | inl t ↦ elim (Bool-cases (has_flag w.capabilities cap_group_wss)) [
        | inl g ↦ rw (t, g) (omega (arith, task t, group g))
        | inr g ↦ rw (t, g) (omega (arith, task t))
      ]
      | inr t ↦ elim (Bool-cases (has_flag w.capabilities cap_group_wss)) [
        | inl g ↦ rw (t, g) (omega (arith, group g))
        | inr g ↦ elim v.varies [ inl e ↦ absurd (ground arith) | inr e ↦ absurd (ground arith) ]
      ]
    ]

-- Lines with slopes that are not negative, for sizes below the greatest.
abbrev IsShort : {A : Type 0} → Floats A → Workload → Line A → Type 0
IsShort fp w l =
    (ltb_ℤ l.0 (pos (real_wss w w.max_task_wss w.max_group_wss)) ≡ true)
    × (below_zero fp l.1 ≡ false)

Each-append :
    {A : Type 0} (P : A → Type 0) (xs ys : List A) → Each P xs → Each P ys → Each P (xs ++ ys)
Each-append P [] ys h k = k
Each-append P (x ∷ xs) ys h k = (h.0, Each-append P xs ys h.1 k)

update_samples-IsShort :
    {A : Type 0} (fp : Floats A) (w : Workload) (calc : (task_wss group_wss iters : ℕ) → A)
    (left i : ℕ) (lines : List (Line A))
    → IsVaried w
    → ((t g n : ℕ) → below_zero fp (fp.printed (calc t g n)) ≡ false)
    → left + i ≤ 10
    → Each (IsShort fp w) lines
    → (new : List (Line A)) × (update_samples fp w calc left i (some lines) ≡ some new)
      × Each (IsShort fp w) new
unfolding update_samples put_workload_slope
update_samples-IsShort fp w calc zero i lines v nonneg le short = (lines, refl, short)
update_samples-IsShort fp w calc (suc left) i lines v nonneg le short =
    let t = sample_wss w.min_task_wss w.max_task_wss i in
    let g = sample_wss w.min_group_wss w.max_group_wss i in
    let iters = sample_iters w in
    let line : Line _ = (pos (real_wss w t g), fp.printed (calc t g iters)) in
    let below = real_wss_below w i v (omega arith) in
    let short' =
      Each-append (IsShort fp w) lines (line ∷ []) short ((ground arith, nonneg t g iters), tt) in
    elim (Bool-cases (no_wss_variation w)) [
      | inl fixed ↦ (lines ++ line ∷ [], rw fixed refl, short')
      | inr varied ↦
          let rest =
            update_samples-IsShort fp w calc left (i + 1) (lines ++ line ∷ []) v nonneg
              (omega (arith, le)) short' in
          (rest.0, rw varied rest.1, rest.2)
    ]

Each-map :
    {A : Type 0} (P Q : A → Type 0) (xs : List A) → ((x : A) → P x → Q x) → Each P xs → Each Q xs
Each-map P Q [] f h = tt
Each-map P Q (x ∷ xs) f h = (f x h.0, Each-map P Q xs f h.1)

-- The line asked for is not listed.
no_line_above :
    {A : Type 0} (fp : Floats A) (w : Workload) (l : Line A) (lines : List (Line A))
    → Each (IsShort fp w) lines
    → HasLine l lines
    → ltb_ℤ (pos (real_wss w w.max_task_wss w.max_group_wss)) l.0 ≡ false
no_line_above fp w l [] short listed = elim listed [ ]
no_line_above fp w l (x ∷ lines) short (inl e) =
    let here : ltb_ℤ (pos (real_wss w w.max_task_wss w.max_group_wss)) x.0 ≡ false =
      ground (arith, short.0) in
    rw⁻¹ e here
no_line_above fp w l (x ∷ lines) short (inr listed) = no_line_above fp w l lines short.1 listed

-- For a workload with a varying working set size, in a range that the samples do not overflow, and
-- slopes that are not negative as the file holds them, where -1 counts as negative: after update_slopes has made the
-- slope file, get_workload_slope finds no slope for the workload's greatest size and returns -1.
pub greatest_wss_unmeasured :
    {A : Type 0} (fp : Floats A) (garbage : ℤ × ℤ) (w : Workload)
    (calc : (task_wss group_wss iters : ℕ) → A) (lines : List (Line A))
    → IsVaried w
    → below_zero fp (minus_one fp) ≡ true
    → ((t g n : ℕ) → below_zero fp (fp.printed (calc t g n)) ≡ false)
    → get_workload_slope fp garbage w w.max_task_wss w.max_group_wss
        (update_slopes fp w calc (some lines))
      ≡ minus_one fp
unfolding update_slopes clear_workload_slope
greatest_wss_unmeasured fp garbage w calc lines v negative nonneg =
    let (new, e, short) =
      update_samples-IsShort fp w calc wss_samples 0 [] v nonneg (omega arith) tt in
    let target = real_wss w w.max_task_wss w.max_group_wss in
    let nonneg' = Each-map (IsShort fp w) (λ l. below_zero fp l.1 ≡ false) new (λ l h. h.1) short in
    let others =
      Each-map (IsShort fp w) (λ l. eq_ℤ l.0 (pos target) ≡ false) new (λ l h. ground (arith, h.0))
        short in
    let nearest =
      get_workload_slope_nearest fp garbage w w.max_task_wss w.max_group_wss new negative nonneg'
        others in
    rw e (elim nearest [
      | inl found_lines ↦
          let near = found_lines.2 in
          let above = near.higher_above in
          let none_above = no_line_above fp w found_lines.1 new short near.higher_listed in
          absurd (ground arith)
      | inr missing ↦ missing.0
    ])
