-- ===== src/Atomic/Tests.antt =====
-- Runs of interleaved calls.
use chronos_project.Atomic.{
  new_value, loaded, returned, Call, atomic_int_op, atomic_int_add, atomic_int_dec, atomic_int_mod,
  step, run,
}
use chronos_project.Atomic.Counter.{AllReturned}
use chronos_project.Atomic.Threads.{if_returned, completed, Replays, AllStart, run_linear}
use chronos_project.Base.{ℕ, ◌≡◌, refl, some, List, [], ◌∷◌, map}
use chronos_project.Base.Int.{pos, ◌+ℤ◌, ◌-ℤ◌, as_int}
use mathlib.Core.List.{Perm}

-- Two increments that read the same value: the second swap fails, and its call tries again.
abbrev interleaved : List ℕ
interleaved = 0 ∷ 1 ∷ 0 ∷ 1 ∷ 1 ∷ 1 ∷ []

abbrev both : List Call
both =
    record { op = 0; val = pos 1; phase = returned (pos 6) }
    ∷ record { op = 0; val = pos 1; phase = returned (pos 7) }
    ∷ []

two_increments :
    run interleaved (map atomic_int_add (pos 1 ∷ pos 1 ∷ [])) (pos 5) ≡ some (both, pos 7)
unfolding run step atomic_int_op new_value as_int ◌+ℤ◌
two_increments = refl

all_returned : AllReturned both
unfolding completed if_returned
all_returned = refl

-- A decrement and a remainder, of which one has not returned.
abbrev mixed : List Call
mixed = atomic_int_dec ∷ atomic_int_mod (pos 3) ∷ []

abbrev mixed_after : List Call
mixed_after =
    record { op = 1; val = pos 1; phase = loaded (pos 2) (pos 1) }
    ∷ record { op = 4; val = pos 3; phase = returned (pos 2) }
    ∷ []

mixed-run : run (0 ∷ 1 ∷ 1 ∷ 0 ∷ 0 ∷ []) mixed (pos 5) ≡ some (mixed_after, pos 2)
unfolding run step atomic_int_op new_value as_int ◌-ℤ◌
mixed-run = refl

all_start : AllStart mixed
unfolding AllStart
all_start = (refl, (refl, _))

run_linear_example :
    (order : List Call) × Perm order (completed mixed_after) × Replays (pos 5) order (pos 2)
run_linear_example =
    run_linear (0 ∷ 1 ∷ 1 ∷ 0 ∷ 0 ∷ []) mixed mixed_after (pos 5) (pos 2) all_start mixed-run
