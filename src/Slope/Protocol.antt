-- ===== src/Slope/Protocol.antt =====
-- The measurement of a slope, sched_test_app/src/slope/slope.c, undoes all that it sets up.
use chronos_project.Base.{
  ltb, ◌==◌, if◌then◌else◌, length, ℕ, zero, suc, ◌+◌, ◌-◌, Bool, true, false, not, ◌&&◌, Option,
  none, some, List, [], ◌∷◌, ◌++◌,
}
use chronos_project.Salloc.Tiles.{has}
use chronos_project.Slope.Measure.{
  Act, group_made, task_made, invalidator_started, invalidator_stopped, polluter_started,
  polluter_stopped, worked, task_cleaned, group_cleaned,
}

-- What is set up at some point: the groups' and the tasks' data, the numbers of the invalidators that
-- run, the polluter.
pub record Usage : Type 0 where
  pub groups : ℕ
  pub tasks : ℕ
  pub invalidators : List ℕ
  pub polluting : Bool

abbrev pub idle : Usage
idle = record { groups = 0; tasks = 0; invalidators = []; polluting = false }

-- An invalidator taken off the ones that run; `none` is one that does not run.
abbrev pub stop_one : (number : ℕ) → List ℕ → Option (List ℕ)
stop_one number [] = none
stop_one number (n ∷ ns) =
    let rest = stop_one number ns in
    if number == n then some ns else elim rest [ none ↦ none | some ms ↦ some (n ∷ ms) ]

-- An act in its place: data is there when it is used or cleaned up, an invalidator does not run when
-- it is started and does when it is stopped, and there is one polluter at most.
unfoldable pub follow : Usage → Act → Option Usage
follow u (group_made group_wss) = some (record u { groups = u.groups + 1 })
follow u (task_made task_wss) =
    if ltb 0 u.groups then some (record u { tasks = u.tasks + 1 }) else none
follow u (invalidator_started number cpu) =
    if ltb (length u.invalidators) u.tasks && not (has number u.invalidators)
    then some (record u { invalidators = u.invalidators ++ number ∷ [] })
    else none
follow u (invalidator_stopped number) = elim (stop_one number u.invalidators) [
  | none ↦ none
  | some ns ↦ some (record u { invalidators = ns })
]
follow u polluter_started = if u.polluting then none else some (record u { polluting = true })
follow u polluter_stopped = if u.polluting then some (record u { polluting = false }) else none
follow u (worked iterations) = if ltb (length u.invalidators) u.tasks then some u else none
follow u task_cleaned =
    if ltb (length u.invalidators) u.tasks then some (record u { tasks = u.tasks - 1 }) else none
follow u group_cleaned =
    if ltb 0 u.groups && (u.tasks == 0) then some (record u { groups = u.groups - 1 }) else none

unfoldable pub follow_all : Usage → List Act → Option Usage
follow_all u [] = some u
follow_all u (a ∷ acts) = elim (follow u a) [ none ↦ none | some v ↦ follow_all v acts ]

-- `left` numbers from `i` on.
abbrev pub numbers : (i left : ℕ) → List ℕ
numbers i zero = []
numbers i (suc left) = i ∷ numbers (i + 1) left

-- A group's data and the measured task's are there, and the invalidators with their data.
abbrev measuring : (running : List ℕ) (polluting : Bool) → Usage
measuring running polluting = record {
  groups = 1;
  tasks = length running + 1;
  invalidators = running;
  polluting = polluting;
}
