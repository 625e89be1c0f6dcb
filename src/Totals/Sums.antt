-- ===== src/Totals/Sums.antt =====
-- The totals are the sums of the tasks' statistics.
use chronos_project.Base.{
  ltb, if◌then◌else◌, Bool-cases, ℕ, ◌+◌, ◌*◌, ◌%◌, ◌^◌, ◌≤◌, ◌<◌, ◌≡◌, refl, ap, ◌∙◌, ◌⊎◌, inl,
  inr, true, some, List, [], ◌∷◌, arith,
}
use chronos_project.Base.Int.{ℤ, pos, ◌+ℤ◌, ◌≤ℤ◌, ltb_ℤ, as_int, to_int}
use chronos_project.Totals.{Totals, clear_counters, add_unsigned, add_task_stats, accumulate}
use chronos_project.Types.{Task}

unfoldable pub sum : (Task → ℕ) → List Task → ℕ
sum f [] = 0
sum f (t ∷ ts) = f t + sum f ts

abbrev pub AllTasks : (Task → Type 0) → List Task → Type 0
AllTasks P [] = Unit
AllTasks P (t ∷ ts) = P t × AllTasks P ts

-- Some task of the list has this tardiness.
abbrev pub SomeTardiness : ℤ → List Task → Type 0
SomeTardiness x [] = ⊥
SomeTardiness x (t ∷ ts) = (t.max_tardiness ≡ x) ⊎ SomeTardiness x ts

-- Counts that the counters hold, and the lowest tardiness.
pub record Counts : Type 0 where
  pub releases : ℕ
  pub met : ℕ
  pub util : ℕ
  pub accrued : ℕ
  pub aborts : ℕ

abbrev pub counted : Counts → ℤ → Totals
counted c w = record {
  sys_total_release = pos c.releases;
  sys_met_release = pos c.met;
  sys_total_util = pos c.util;
  sys_met_util = pos c.accrued;
  sys_abort_count = pos c.aborts;
  max_tardiness = w;
}

-- The counts with those of some tasks.
abbrev pub plus : Counts → List Task → Counts
plus c ts = record {
  releases = c.releases + sum (λ t. t.max_releases) ts;
  met = c.met + sum (λ t. t.deadlines_met) ts;
  util = c.util + sum (λ t. t.max_releases * t.utility) ts;
  accrued = c.accrued + sum (λ t. t.utility_accrued) ts;
  aborts = c.aborts + sum (λ t. t.num_aborted) ts;
}

-- All counts fit an `int`.
pub record IsSmall (c : Counts) : Type 0 where
  pub small_releases : c.releases < 2 ^ 31
  pub small_met : c.met < 2 ^ 31
  pub small_util : c.util < 2 ^ 31
  pub small_accrued : c.accrued < 2 ^ 31
  pub small_aborts : c.aborts < 2 ^ 31

int_sum : (a n : ℕ) → a + n < 2 ^ 31 → as_int (pos a +ℤ to_int n) ≡ some (pos (a + n))
unfolding as_int ◌+ℤ◌
int_sum a n small = let low : ltb n (2 ^ 31) ≡ true = ground arith in rw low (ground arith)

word_sum : (a n : ℕ) → a + n < 2 ^ 31 → add_unsigned (pos a) n ≡ pos (a + n)
unfolding add_unsigned
word_sum a n small =
    let sum_is : (a % 2 ^ 32 + n) % 2 ^ 32 ≡ a + n = omega (arith, small) in
    let low : ltb (a + n) (2 ^ 31) ≡ true = ground arith in rw (sum_is, low) refl

abbrev worse : ℤ → Task → ℤ
worse w t = if ltb_ℤ t.max_tardiness w then t.max_tardiness else w

-- The counts with those of one task.
abbrev plus_one : Counts → Task → Counts
plus_one c t = record {
  releases = c.releases + t.max_releases;
  met = c.met + t.deadlines_met;
  util = c.util + t.max_releases * t.utility;
  accrued = c.accrued + t.utility_accrued;
  aborts = c.aborts + t.num_aborted;
}

add_counted :
    (c : Counts) (w : ℤ) (t : Task)
    → IsSmall (plus_one c t)
    → add_task_stats (counted c w) t ≡ some (counted (plus_one c t) (worse w t))
unfolding add_task_stats
add_counted c w t small =
    let whole_util : (t.max_releases * t.utility) % 2 ^ 32 ≡ t.max_releases * t.utility =
      omega (arith, small.small_util) in
    let util : add_unsigned (pos c.util) ((t.max_releases * t.utility) % 2 ^ 32)
        ≡ pos (c.util + t.max_releases * t.utility) =
      rw whole_util (word_sum c.util (t.max_releases * t.utility) small.small_util) in
    rw
      (
        add_task_stats,
        int_sum c.releases t.max_releases small.small_releases,
        word_sum c.met t.deadlines_met small.small_met,
        util,
        word_sum c.accrued t.utility_accrued small.small_accrued,
        word_sum c.aborts t.num_aborted small.small_aborts,
      )
      refl

-- What `u` holds after adding the tasks `ts` to counters of `c` and a tardiness of `w`.
pub record Added (c : Counts) (w : ℤ) (ts : List Task) (u : Totals) : Type 0 where
  pub releases : u.sys_total_release ≡ pos (c.releases + sum (λ t. t.max_releases) ts)
  pub met : u.sys_met_release ≡ pos (c.met + sum (λ t. t.deadlines_met) ts)
  pub util : u.sys_total_util ≡ pos (c.util + sum (λ t. t.max_releases * t.utility) ts)
  pub accrued : u.sys_met_util ≡ pos (c.accrued + sum (λ t. t.utility_accrued) ts)
  pub aborts : u.sys_abort_count ≡ pos (c.aborts + sum (λ t. t.num_aborted) ts)
  pub worst : (u.max_tardiness ≤ℤ w) × AllTasks (λ t. u.max_tardiness ≤ℤ t.max_tardiness) ts
  pub attained : (u.max_tardiness ≡ w) ⊎ SomeTardiness u.max_tardiness ts

SomeTardiness-cons :
    (w x : ℤ) (t : Task) (ts : List Task)
    → (x ≡ worse w t) ⊎ SomeTardiness x ts
    → (x ≡ w) ⊎ SomeTardiness x (t ∷ ts)
SomeTardiness-cons w x t ts (inr later) = inr (inr later)
SomeTardiness-cons w x t ts (inl e) = elim (Bool-cases (ltb_ℤ t.max_tardiness w)) [
  | inl lower ↦ inr (inl (ground (arith, lower, e)))
  | inr higher ↦ inl (ground (arith, higher, e))
]

worst-step : (w : ℤ) (t : Task) → (worse w t ≤ℤ w) × (worse w t ≤ℤ t.max_tardiness)
worst-step w t = ground arith

Added-cons :
    (c : Counts) (w : ℤ) (t : Task) (ts : List Task) (u : Totals)
    → Added (plus_one c t) (worse w t) ts u
    → Added c w (t ∷ ts) u
unfolding sum
Added-cons c w t ts u a = record {
  releases = a.releases ∙ ap pos (omega arith);
  met = a.met ∙ ap pos (omega arith);
  util = a.util ∙ ap pos (omega arith);
  accrued = a.accrued ∙ ap pos (omega arith);
  aborts = a.aborts ∙ ap pos (omega arith);
  worst = (
    omega (arith, a.worst.0, worst-step w t),
    (omega (arith, a.worst.0, worst-step w t), a.worst.1),
  );
  attained = SomeTardiness-cons w u.max_tardiness t ts a.attained;
}

-- Where the sums fit an `int`, the loop adds the tasks' statistics.
accumulate-Added :
    (c : Counts) (w : ℤ) (ts : List Task)
    → IsSmall (plus c ts)
    → (u : Totals) × (accumulate ts (counted c w) ≡ some u) × Added c w ts u
unfolding accumulate sum
accumulate-Added c w [] small = (
  counted c w,
  refl,
  record {
    releases = ap pos (omega arith);
    met = ap pos (omega arith);
    util = ap pos (omega arith);
    accrued = ap pos (omega arith);
    aborts = ap pos (omega arith);
    worst = (omega arith, tt);
    attained = inl refl;
  },
)
accumulate-Added c w (t ∷ ts) small =
    let first : IsSmall (plus_one c t) = record {
      small_releases = omega (arith, small.small_releases);
      small_met = omega (arith, small.small_met);
      small_util = omega (arith, small.small_util);
      small_accrued = omega (arith, small.small_accrued);
      small_aborts = omega (arith, small.small_aborts);
    } in
    let rest = accumulate-Added (plus_one c t) (worse w t) ts (record {
      small_releases = omega (arith, small.small_releases);
      small_met = omega (arith, small.small_met);
      small_util = omega (arith, small.small_util);
      small_accrued = omega (arith, small.small_accrued);
      small_aborts = omega (arith, small.small_aborts);
    }) in
    (rest.0, rw (accumulate, add_counted c w t first) rest.1, Added-cons c w t ts rest.0 rest.2)

abbrev pub no_counts : Counts
no_counts = record { releases = 0; met = 0; util = 0; accrued = 0; aborts = 0 }

-- What the statistics of one task guarantee.
abbrev pub IsConsistent : Task → Type 0
IsConsistent t =
    (t.num_aborted + t.deadlines_met ≤ t.max_releases)
    × (t.utility_accrued ≤ t.max_releases * t.utility)

pub sum_bounds :
    (ts : List Task)
    → AllTasks IsConsistent ts
    → (sum (λ t. t.num_aborted) ts + sum (λ t. t.deadlines_met) ts ≤ sum (λ t. t.max_releases) ts)
      × (sum (λ t. t.utility_accrued) ts ≤ sum (λ t. t.max_releases * t.utility) ts)
unfolding sum
sum_bounds [] h = omega arith
sum_bounds (t ∷ ts) h = omega (arith, h.0, sum_bounds ts h.1)

-- For tasks with consistent statistics whose releases and possible utility add up below 2^31, no
-- sum overflows, and after a run the counters are the sums of the tasks' statistics, whatever they
-- were before, and the greatest tardiness is the least of the tasks' and 0.
pub accumulate_lem :
    (old : Totals) (ts : List Task)
    → AllTasks IsConsistent ts
    → sum (λ t. t.max_releases) ts < 2 ^ 31
    → sum (λ t. t.max_releases * t.utility) ts < 2 ^ 31
    → (u : Totals) × (accumulate ts (clear_counters old) ≡ some u) × Added no_counts (pos 0) ts u
unfolding clear_counters
accumulate_lem old ts h releases util =
    let bounds = sum_bounds ts h in
    accumulate-Added no_counts (pos 0) ts (record {
      small_releases = omega (arith, releases);
      small_met = omega (arith, releases, bounds);
      small_util = omega (arith, util);
      small_accrued = omega (arith, util, bounds);
      small_aborts = omega (arith, releases, bounds);
    })
