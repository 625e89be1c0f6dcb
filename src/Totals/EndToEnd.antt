-- ===== src/Totals/EndToEnd.antt =====
-- The statistics of tasks that ran all their jobs, added up.
use chronos_project.Base.{ℕ, ◌*◌, ◌^◌, ◌≤◌, ◌<◌, ◌≡◌, some, List, [], ◌∷◌, arith}
use chronos_project.Clock.{IsNormal}
use chronos_project.Job.{Event, Answers, Setting, start_task_jobs}
use chronos_project.Job.Stats.{met, count_outcome, count_total, start_task_jobs-all}
use chronos_project.Totals.{Totals}
use chronos_project.Totals.Sums.{IsConsistent}
use chronos_project.Types.{Task, clear_task_stats}
use mathlib.Core.Path.{ap₂}

pub product_mono : (a b k : ℕ) → a ≤ b → a * k ≤ b * k
product_mono a b k h = grind arith

-- What `start_task` leaves behind is consistent, if the task's possible utility is below 2^32.
pub start_task_jobs-IsConsistent :
    (s : Setting) (answers : ℕ → Answers) (t v : Task) (es : List Event)
    → IsNormal s.global_start_time
    → ((k : ℕ) → IsNormal (answers k).end_time)
    → t.max_releases < 2 ^ 32
    → t.max_releases * t.utility < 2 ^ 32
    → start_task_jobs s answers (clear_task_stats t) ≡ some (v, es)
    → IsConsistent v × (v.max_releases ≡ t.max_releases) × (v.utility ≡ t.utility)
start_task_jobs-IsConsistent s answers t v es normal ends small possible h =
    let (same, tally) = start_task_jobs-all s answers t normal ends v es small h in
    let total = count_total s answers t t.max_releases in
    let met_jobs = count_outcome s answers t met t.max_releases in
    let possible_util = product_mono met_jobs t.max_releases t.utility (omega arith) in
    let product : v.max_releases * v.utility ≡ t.max_releases * t.utility =
      ap₂ ◌*◌ same.max_releases same.utility in
    (
      (
        omega (arith, tally.aborts, tally.deadlines, same.max_releases),
        omega (arith, tally.accrued, possible_util, product),
      ),
      same.max_releases,
      same.utility,
    )

-- A task, what the outside answered to its jobs, and the task after them.
abbrev pub Run : Type 0
Run = Task × (ℕ → Answers) × Task

-- The run of a task: normal clock readings, a number of releases and a possible utility that fit
-- 32 bits, and jobs that were all defined.
abbrev pub Ran : Setting → Run → Type 0
Ran s (t, answers, v) =
    ((k : ℕ) → IsNormal (answers k).end_time)
    × (t.max_releases < 2 ^ 32)
    × (t.max_releases * t.utility < 2 ^ 32)
    × ((es : List Event) × (start_task_jobs s answers (clear_task_stats t) ≡ some (v, es)))

abbrev pub AllRan : Setting → List Run → Type 0
AllRan s [] = Unit
AllRan s (r ∷ rs) = Ran s r × AllRan s rs

unfoldable pub before : List Run → List Task
before [] = []
before ((t, answers, v) ∷ rs) = t ∷ before rs

unfoldable pub after : List Run → List Task
after [] = []
after ((t, answers, v) ∷ rs) = v ∷ after rs
