-- ===== src/Job/Runs.antt =====
-- Inversion of jobs and runs of jobs that end.
-- A defined job is its locked part and what stands around it.
use chronos_project.Base.{
  Bool-cases, Option-cases, ℕ, suc, ◌+◌, ◌≡◌, inl, inr, Bool, true, false, some, List, ◌++◌, arith,
}
use chronos_project.Job.{
  Event, Answers, locked_part, Setting, instance_around, task_instance, run_jobs, extra_job,
  start_task_jobs,
}
use chronos_project.Types.{Task}

pub task_instance-eq-some :
    (s : Setting) (a : Answers) (count_stats : Bool) (u : Task) (r : Task × List Event)
    → task_instance s a count_stats u ≡ some r
    → (part : ℕ × Bool × List Event) × (locked_part s.options a u ≡ some part)
      × (instance_around s a count_stats u part ≡ r)
unfolding task_instance
task_instance-eq-some s a count_stats u r h = elim (Option-cases (locked_part s.options a u)) [
  | inl undefined ↦ cc (rw (undefined, task_instance) at h)
  | inr (part, e) ↦
      let same : some (instance_around s a count_stats u part) ≡ some r =
        rw (e, task_instance) at h in
      (part, e, cc)
]

-- A run of some more jobs is a job and the run of the others.
pub run_jobs-suc :
    (s : Setting) (answers : ℕ → Answers) (rounds : ℕ) (u v : Task) (es : List Event)
    → run_jobs s answers (suc rounds) u ≡ some (v, es)
    → (u' : Task) × (first : List Event) × (rest : List Event) × (task_instance s
          (answers u.num_releases)
          true
          u
        ≡ some (u', first))
      × (run_jobs s answers rounds (record u' { num_releases = u'.num_releases + 1 })
          ≡ some (v, rest))
      × (es ≡ first ++ rest)
unfolding run_jobs
run_jobs-suc s answers rounds u v es h =
    elim (Option-cases (task_instance s (answers u.num_releases) true u)) [
      | inl undefined ↦ cc (rw (undefined, run_jobs) at h)
      | inr ((u', first), e) ↦
          let u'' = record u' { num_releases = u'.num_releases + 1 } in
          elim (Option-cases (run_jobs s answers rounds u'')) [
            | inl undefined ↦ cc (rw (e, undefined, run_jobs) at h)
            | inr ((v', rest), e') ↦
                let same : some (v', first ++ rest) ≡ some (v, es) = rw (e, e', run_jobs) at h in
                (u', first, rest, e, ground (arith, same, e'), ground (arith, same))
          ]
    ]

-- An uncounted job leaves the task as it was.
extra-same :
    (s : Setting) (a : Answers) (u v : Task) (es : List Event)
    → task_instance s a false u ≡ some (v, es)
    → u ≡ v
unfolding instance_around
extra-same s a u v es h =
    let ((calls, ab, evs), q, run) = task_instance-eq-some s a false u (v, es) h in cc

extra_job-same :
    (s : Setting) (answers : ℕ → Answers) (u v : Task) (first es : List Event)
    → extra_job s answers (u, first) ≡ some (v, es)
    → u ≡ v
unfolding extra_job
extra_job-same s answers u v first es h = elim (Bool-cases u.extra_release) [
  | inr never ↦ ground (arith, never)
  | inl more ↦ elim (Option-cases (task_instance s (answers u.num_releases) false u)) [
    | inl undefined ↦ ground (arith, more, undefined)
    | inr ((w, rest), e) ↦ ground (arith, more, e, extra-same s (answers u.num_releases) u w rest e)
  ]
]

-- The extra release comes after the counted ones and leaves the statistics alone.
pub start_task_jobs-eq-some :
    (s : Setting) (answers : ℕ → Answers) (t v : Task) (es : List Event)
    → start_task_jobs s answers t ≡ some (v, es)
    → (u : Task) × (first : List Event) × (run_jobs s answers t.max_releases
          (record t { num_releases = 0 })
        ≡ some (u, first))
      × (u ≡ v)
unfolding start_task_jobs
start_task_jobs-eq-some s answers t v es h =
    elim (Option-cases (run_jobs s answers t.max_releases (record t { num_releases = 0 }))) [
      | inl undefined ↦ cc (rw (undefined, start_task_jobs) at h)
      | inr ((u, first), e) ↦
          (u, first, e, extra_job-same s answers u v first es (rw (e, start_task_jobs) at h))
    ]
