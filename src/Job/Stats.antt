-- ===== src/Job/Stats.antt =====
-- The statistics of a task after all its jobs, against a classification of each job by its own
-- answers.
use chronos_project.Base.{
  if◌then◌else◌, ℕ, zero, suc, ◌+◌, ◌*◌, ◌%◌, ◌^◌, ◌<◌, ◌≡◌, refl, sym, ap, ◌∙◌, ◌⊎◌, inl, inr,
  Bool, true, false, ◌||◌, none, some, List, arith, dec_lt,
}
use chronos_project.Base.Int.{ℤ, pos, ◌≤ℤ◌, leb_ℤ}
use chronos_project.Clock.{Timespec, IsNormal, deadline_met, timespec_subtract_us}
use chronos_project.Clock.Laws.{tardiness_sign}
use chronos_project.Job.{
  find_job_deadline, Event, Answers, locked_part, tabulate, Setting, instance_around, task_instance,
  run_jobs, start_task_jobs,
}
use chronos_project.Job.Runs.{task_instance-eq-some, run_jobs-suc, start_task_jobs-eq-some}
use chronos_project.Types.{Task, clear_task_stats}
use mathlib.Core.Path.{subst}

-- How a job ends.
pub data Outcome : Type 0 where
  aborted met missed : Outcome

abbrev pub eq_outcome : Outcome → Outcome → Bool
eq_outcome aborted aborted = true
eq_outcome aborted _ = false
eq_outcome met met = true
eq_outcome met _ = false
eq_outcome missed missed = true
eq_outcome missed _ = false

module _ (s : Setting) (answers : ℕ → Answers) (t : Task) where
  -- The deadline of the k-th job of `t`.
  pub deadline_of : ℕ → Timespec
  deadline_of k = find_job_deadline s.global_start_time (record t { num_releases = k })

  -- Whether any piece of the work of the k-th job was aborted.
  pub was_aborted : ℕ → Bool
  was_aborted k = elim (locked_part s.options (answers k) t) [
    | none ↦ false
    | some part ↦ part.1 || (answers k).work_aborted part.0
  ]

  pub outcome : ℕ → Outcome
  outcome k =
      if was_aborted k
      then aborted
      else if deadline_met (answers k).end_time (deadline_of k)
      then met
      else missed

  -- The number of the first `n` jobs that end in `o`.
  pub count_outcome : Outcome → ℕ → ℕ
  count_outcome o zero = 0
  count_outcome o (suc n) = count_outcome o n + (if eq_outcome (outcome n) o then 1 else 0)

  pub tardiness_of : ℕ → ℤ
  tardiness_of k = timespec_subtract_us (deadline_of k) (answers k).end_time

  -- What the statistics in `u` say of the first `n` jobs.
  pub record Tallied (n : ℕ) (u : Task) : Type 0 where
    pub releases : u.num_releases ≡ n
    pub aborts : u.num_aborted ≡ count_outcome aborted n
    pub deadlines : u.deadlines_met ≡ count_outcome met n
    pub accrued : u.utility_accrued ≡ (count_outcome met n * t.utility) % 2 ^ 32
    pub not_positive : u.max_tardiness ≤ℤ pos 0
    pub worst : (k : ℕ) → k < n → outcome k ≡ missed → u.max_tardiness ≤ℤ tardiness_of k
    pub attained :
        (u.max_tardiness ≡ pos 0)
        ⊎ ((k : ℕ) × (k < n) × (outcome k ≡ missed) × (u.max_tardiness ≡ tardiness_of k))

  -- The fields that a job reads and does not change.
  pub record Unchanged (u : Task) : Type 0 where
    pub num_my_locks : u.num_my_locks ≡ t.num_my_locks
    pub locked_usage : u.locked_usage ≡ t.locked_usage
    pub period : u.period ≡ t.period
    pub utility : u.utility ≡ t.utility
    pub max_releases : u.max_releases ≡ t.max_releases
    pub extra_release : u.extra_release ≡ t.extra_release

  pub count_total :
      (n : ℕ) → count_outcome aborted n + count_outcome met n + count_outcome missed n ≡ n
  unfolding count_outcome
  count_total zero = refl
  count_total (suc n) = ground (arith, count_total n)

  locked_part-same :
      (u : Task) (k : ℕ)
      → Unchanged u
      → locked_part s.options (answers k) u ≡ locked_part s.options (answers k) t
  unfolding locked_part
  locked_part-same u k same = λ i.
      locked_part s.options (answers k)
        (record u { num_my_locks = same.num_my_locks i; locked_usage = same.locked_usage i })

  deadline-same :
      (u : Task) (k : ℕ)
      → Unchanged u
      → u.num_releases ≡ k
      → find_job_deadline s.global_start_time u ≡ deadline_of k
  unfolding find_job_deadline deadline_of
  deadline-same u k same e = rw (same.period, e)

  module _ (n : ℕ) (u : Task)
      (sign : leb_ℤ (pos 0) (tardiness_of n)
        ≡ deadline_met (answers n).end_time (deadline_of n)) where
    -- The new worst tardiness is the old one, or that of a missed job.
    tabulate-worst :
        let u' = (tabulate (was_aborted n) (tardiness_of n) u).0 in
        (u'.max_tardiness ≡ u.max_tardiness)
        ⊎ ((outcome n ≡ missed) × (u'.max_tardiness ≡ tardiness_of n))
    unfolding tabulate outcome
    tabulate-worst = ground arith

    tabulate-le :
        let u' = (tabulate (was_aborted n) (tardiness_of n) u).0 in
        (u'.max_tardiness ≤ℤ u.max_tardiness)
        × (outcome n ≡ missed → u'.max_tardiness ≤ℤ tardiness_of n)
    unfolding tabulate outcome
    tabulate-le = (ground arith, λ e. ground arith)

    -- `tabulate` on the n-th job, whose end is classified by `outcome`.
    tabulate-Tallied :
        n + 1 < 2 ^ 32
        → u.utility ≡ t.utility
        → Tallied n u
        → let u' = (tabulate (was_aborted n) (tardiness_of n) u).0 in
          Tallied (suc n) (record u' { num_releases = u'.num_releases + 1 })
    unfolding tabulate count_outcome outcome
    tabulate-Tallied small utility tally = record {
      releases = ground (arith, tally.releases);
      aborts = ground (arith, tally.aborts, count_total n);
      deadlines = ground (arith, tally.deadlines, count_total n);
      accrued = ground (arith, tally.accrued);
      not_positive = omega (arith, tally.not_positive, tabulate-le.0);
      worst = λ k below e. elim (dec_lt k n) [
        | yes lt ↦ omega (arith, tally.worst k lt e, tabulate-le.0)
        | no here ↦ let last : k ≡ n = omega arith in rw last (tabulate-le.1 (rw last at e))
      ];
      attained = elim tabulate-worst [
        | inr (e, q) ↦ inr (n, omega arith, e, q)
        | inl q ↦ elim tally.attained [
          | inl z ↦ inl (q ∙ z)
          | inr (k, lt, e, q') ↦ inr (k, omega arith, e, q ∙ q')
        ]
      ];
    }

  tabulate-Unchanged :
      (ab : Bool) (tardiness : ℤ) (u : Task) (k : ℕ)
      → Unchanged u
      → Unchanged (record ((tabulate ab tardiness u).0) { num_releases = k })
  unfolding tabulate
  tabulate-Unchanged ab tardiness u k same = ground arith

  around-stats :
      (a : Answers) (u : Task) (part : ℕ × Bool × List Event)
      → (instance_around s a true u part).0
        ≡ (tabulate
            (part.1 || a.work_aborted part.0)
            (timespec_subtract_us (find_job_deadline s.global_start_time u) a.end_time)
            u).0
  unfolding instance_around
  around-stats a u (calls, ab, es) = refl

  was_aborted-eq :
      (n : ℕ) (part : ℕ × Bool × List Event)
      → locked_part s.options (answers n) t ≡ some part
      → was_aborted n ≡ (part.1 || (answers n).work_aborted part.0)
  unfolding was_aborted
  was_aborted-eq n part q = rw (q, was_aborted)

  -- A counted job changes the task as `tabulate` does on its classification.
  task_instance-stats :
      (n : ℕ) (u u' : Task) (es : List Event)
      → Unchanged u
      → u.num_releases ≡ n
      → task_instance s (answers n) true u ≡ some (u', es)
      → u' ≡ (tabulate (was_aborted n) (tardiness_of n) u).0
  unfolding tardiness_of
  task_instance-stats n u u' es same e h =
      let (part, q, run) = task_instance-eq-some s (answers n) true u (u', es) h in
      let first : (instance_around s (answers n) true u part).0 ≡ u' = rw run in
      let q' : locked_part s.options (answers n) t ≡ some part =
        sym (locked_part-same u n same) ∙ q in
      rw (was_aborted-eq n part q') (
        sym first
        ∙ around-stats (answers n) u part
        ∙ ap
            (λ d.
              (tabulate (part.1 || (answers n).work_aborted part.0)
                (timespec_subtract_us d (answers n).end_time) u).0)
            (deadline-same u n same e))

  module _ (start_normal : IsNormal s.global_start_time)
      (ends_normal : (k : ℕ) → IsNormal (answers k).end_time) where
    deadline_sign :
        (n : ℕ) → leb_ℤ (pos 0) (tardiness_of n) ≡ deadline_met (answers n).end_time (deadline_of n)
    unfolding tardiness_of deadline_of find_job_deadline
    deadline_sign n =
        tardiness_sign (deadline_of n) (answers n).end_time (omega arith) (ends_normal n)

    run_jobs-Tallied :
        (rounds n : ℕ) (u v : Task) (es : List Event)
        → Unchanged u
        → Tallied n u
        → n + rounds < 2 ^ 32
        → run_jobs s answers rounds u ≡ some (v, es)
        → Unchanged v × Tallied (n + rounds) v
    unfolding run_jobs
    run_jobs-Tallied zero n u v es same tally small h =
        let here : n + 0 ≡ n = omega arith in
        let unmoved : u ≡ v = ground arith in
        subst (λ (w : Task). Unchanged w × Tallied (n + 0) w) unmoved (same, rw here tally)
    run_jobs-Tallied (suc rounds) n u v es same tally small h =
        let (u', first, rest, e, h', _) = run_jobs-suc s answers rounds u v es h in
        let e' : task_instance s (answers n) true u ≡ some (u', first) =
          subst (λ k. task_instance s (answers k) true u ≡ some (u', first)) tally.releases e in
        let u_tab = (tabulate (was_aborted n) (tardiness_of n) u).0 in
        let stats : u' ≡ u_tab = task_instance-stats n u u' first same tally.releases e' in
        let h'' : run_jobs s answers rounds (record u_tab { num_releases = u_tab.num_releases + 1 })
            ≡ some (v, rest) =
          rw stats at h' in
        let tally' = tabulate-Tallied n u (deadline_sign n) (omega arith) same.utility tally in
        let same' =
          tabulate-Unchanged (was_aborted n) (tardiness_of n) u (u_tab.num_releases + 1) same in
        let all = run_jobs-Tallied rounds (suc n) _ v rest same' tally' (omega arith) h'' in
        let moved : suc n + rounds ≡ n + suc rounds = omega arith in
        subst (λ k. Unchanged v × Tallied k v) moved all

    -- The statistics before the first job.
    cleared : Task
    cleared = record (clear_task_stats t) { num_releases = 0 }

    cleared-Unchanged : Unchanged cleared
    unfolding cleared clear_task_stats
    cleared-Unchanged = record {
      num_my_locks = refl;
      locked_usage = refl;
      period = refl;
      utility = refl;
      max_releases = refl;
      extra_release = refl;
    }

    cleared-Tallied : Tallied 0 cleared
    unfolding cleared clear_task_stats count_outcome
    cleared-Tallied = record {
      releases = refl;
      aborts = refl;
      deadlines = refl;
      accrued = omega arith;
      not_positive = omega arith;
      worst = λ k below e. absurd (omega arith);
      attained = inl refl;
    }

    pub start_task_jobs-all :
        (v : Task) (es : List Event)
        → t.max_releases < 2 ^ 32
        → start_task_jobs s answers (clear_task_stats t) ≡ some (v, es)
        → Unchanged v × Tallied t.max_releases v
    unfolding cleared clear_task_stats
    start_task_jobs-all v es small h =
        let (u, first, run, same) = start_task_jobs-eq-some s answers (clear_task_stats t) v es h in
        let all =
          run_jobs-Tallied t.max_releases 0 cleared u first cleared-Unchanged cleared-Tallied
            (omega arith) run in
        let total : 0 + t.max_releases ≡ t.max_releases = omega arith in
        subst (λ (w : Task). Unchanged w × Tallied t.max_releases w) same
          (subst (λ k. Unchanged u × Tallied k u) total all)

    -- After all its jobs, started with cleared statistics, a task's counters tell exactly how its
    -- `max_releases` counted jobs ended: how many were aborted, how many of the others met their
    -- deadline and what utility that gives (modulo 2^32), and the worst tardiness of those that did
    -- neither, 0 if there is none. The three classes add up to `max_releases`.
    pub start_task_jobs-tally :
        (v : Task) (es : List Event)
        → t.max_releases < 2 ^ 32
        → start_task_jobs s answers (clear_task_stats t) ≡ some (v, es)
        → Tallied t.max_releases v
          × (count_outcome aborted t.max_releases
                + count_outcome met t.max_releases
                + count_outcome missed t.max_releases
              ≡ t.max_releases)
    start_task_jobs-tally v es small h =
        ((start_task_jobs-all v es small h).1, count_total t.max_releases)
