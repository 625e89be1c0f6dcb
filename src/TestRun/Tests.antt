-- ===== src/TestRun/Tests.antt =====
-- Threads of two processes, a table of two domains and three measurements.
use chronos_project.Base.{
  ◌==◌, if◌then◌else◌, ℕ, zero, suc, ◌<◌, ◌≡◌, refl, true, false, none, some, List, [], ◌∷◌, arith,
}
use chronos_project.Base.Int.{pos, negsuc, ◌+ℤ◌, ◌-ℤ◌, ◌*ℤ◌, ltb_ℤ}
use chronos_project.Clock.{Timespec}
use chronos_project.TestRun.{waiting, started, Shared, read_clock, swap_start, advance, interleave}
use chronos_project.TestRun.Prepare.{set_lock_usage}
use chronos_project.TestRun.Process.{
  in_child, tgroup_create, Waited, wait_loop, join_result, tgroup_join, join_groups, IsAnswered,
  join_groups_lem,
}
use chronos_project.TestRun.StartTime.{IsOpen, IsAgreed, turns, threads_start_together}
use chronos_project.Types.{Task}
use chronos_project.Work.Fixed.{fixed, fixed_doubles}

abbrev at_barrier : Shared
at_barrier = record {
  place = λ i. waiting;
  local_start_time = λ i. record { tv_sec = 0; tv_nsec = 0 };
  process = λ i. if i == 3 then 1 else 0;
  global_start_time = λ g. none;
}

at_barrier-IsOpen : (group : ℕ) → IsOpen group at_barrier
at_barrier-IsOpen group = record { unset = refl; none_started = λ i own. omega arith }

abbrev at_second : ℕ → Timespec
at_second n = record { tv_sec = n; tv_nsec = 0 }

-- Thread 1 reads its clock first, thread 2 is the first to set the start time.
abbrev two_threads : List (ℕ × Timespec)
two_threads = (1, at_second 5) ∷ ((2, at_second 6) ∷ ((2, at_second 7) ∷ ((1, at_second 8) ∷ [])))

second_sets : (interleave two_threads at_barrier).global_start_time 0 ≡ some 2
unfolding interleave advance read_clock swap_start
second_sets = refl

threads_start_together_example :
    ((interleave two_threads at_barrier).place 1 ≡ started)
    × (leader : ℕ) × (time : Timespec) × IsAgreed 0 leader time (interleave two_threads at_barrier)
    × IsAgreed 0 leader time
        (interleave ((3, at_second 9) ∷ []) (interleave two_threads at_barrier))
unfolding turns
threads_start_together_example =
    threads_start_together at_barrier 1 two_threads ((3, at_second 9) ∷ []) (at_barrier-IsOpen 0)
      (omega arith)

-- The first leader's process exits with status 0 after an interrupted call.
abbrev first_answers : ℕ → Waited
first_answers zero = record { result = negsuc 0; is_interrupted = true; exit_status = none }
first_answers (suc k) = record { result = pos 7; is_interrupted = false; exit_status = some 0 }

-- The second leader's process is killed.
abbrev second_answers : ℕ → Waited
second_answers k = record { result = pos 8; is_interrupted = false; exit_status = none }

first_interrupted :
    (k : ℕ)
    → k < 1
    → (ltb_ℤ (first_answers k).result (pos 0) ≡ true) × ((first_answers k).is_interrupted ≡ true)
first_interrupted zero early = (refl, refl)
first_interrupted (suc k) early = absurd (omega arith)

first-IsAnswered : IsAnswered (pos 7) first_answers 1
first-IsAnswered = record { interrupted = first_interrupted; answered = refl; positive = refl }

second-IsAnswered : IsAnswered (pos 8) second_answers 0
second-IsAnswered = record {
  interrupted = λ k early. absurd (omega arith);
  answered = refl;
  positive = refl;
}

join_groups_lem_example :
    join_groups 2 ((pos 7, first_answers) ∷ ((pos 8, second_answers) ∷ [])) ≡ some true
join_groups_lem_example =
    join_groups_lem 2 ((pos 7, first_answers) ∷ ((pos 8, second_answers) ∷ []))
      ((1, first-IsAnswered, omega arith), ((0, second-IsAnswered, omega arith), tt))

failed_process :
    join_groups 1
      ((pos 7, λ k. record { result = pos 7; is_interrupted = false; exit_status = some 3 }) ∷ [])
    ≡ some false
unfolding join_groups tgroup_join join_result wait_loop
failed_process = refl

new_process : tgroup_create (pos 0) true ≡ in_child
unfolding tgroup_create
new_process = refl

-- 80 percent of 1000 microseconds, a quarter of it with the locks held.
usage_split :
    (t : Task)
    → (let busy =
          set_lock_usage fixed fixed_doubles (pos 80) (pos 25) (record t { exec_time = 1_000 }) in
        (busy.unlocked_usage ≡ 600) × (busy.locked_usage ≡ 200))
unfolding set_lock_usage ◌+ℤ◌ ◌*ℤ◌ ◌-ℤ◌
usage_split t = (refl, refl)
