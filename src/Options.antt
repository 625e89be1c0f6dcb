-- ===== src/Options.antt =====
mod Tests
pub mod Batch
pub mod Parse
-- The command line: `validate_options`, `get_integer` and the option loop of `main`, of
-- sched_test_app/src/main.c, and the batch loop of `run_test` (tester.c).
use chronos_project.Base.{
  ◌==◌, ◌!=◌, if◌then◌else◌, not_b, ℕ, zero, suc, ◌-◌, ◌^◌, bit_or, Bool, true, false, ◌&&◌, ◌||◌,
  Option, none, some, List, [], ◌∷◌,
}
use chronos_project.Base.Int.{ℤ, pos, negsuc, ◌+ℤ◌, ltb_ℤ, leb_ℤ, as_int}
use chronos_project.Job.{locking_flag, nested_locking, has_flag}
use chronos_project.Types.{Options, default_options}

-- Whether an `int` is not zero, as a condition.
abbrev pub nonzero : ℤ → Bool
nonzero (pos n) = n != 0
nonzero (negsuc n) = true

abbrev pub int_max : ℤ
int_max = pos (2 ^ 31 - 1)

abbrev pub int_min : ℤ
int_min = negsuc (2 ^ 31 - 1)

abbrev pub eq_ℤ : ℤ → ℤ → Bool
eq_ℤ a b = leb_ℤ a b && leb_ℤ b a

-- Whether one of the checks of `validate_options` fails.
unfoldable pub is_invalid : Options → Bool
is_invalid o =
    not_b o.has_taskset_filename
    || (eq_ℤ o.scheduler (negsuc 0)
        || (eq_ℤ o.cpu_usage (pos 0)
            || (eq_ℤ o.run_time (pos 0)
                || (ltb_ℤ o.workload (pos 0)
                    || (o.batch_mode && (not_b (nonzero o.end_usage) || not_b (nonzero o.interval))
                        || (o.batch_mode && ltb_ℤ o.end_usage o.cpu_usage
                            || (leb_ℤ o.cpu_usage (pos 0)
                                || (ltb_ℤ (pos 10_000) o.cpu_usage
                                    || (leb_ℤ o.run_time (pos 0)
                                        || (ltb_ℤ (pos 3_600) o.run_time
                                            || (leb_ℤ o.cs_length (pos 0)
                                                  && has_flag o.locking locking_flag
                                                || ltb_ℤ (pos 100) o.cs_length)))))))))))

-- The returned value, and the options after the fix-up at the end.
unfoldable pub validate_options : Options → Bool × Options
validate_options o = (
  is_invalid o,
  if o.batch_mode then o else record o { end_usage = o.cpu_usage; interval = pos 1 },
)

-- `get_integer` on the value that `atoi` returns.
unfoldable pub get_integer : ℤ → ℤ
get_integer i = if eq_ℤ i int_max || eq_ℤ i int_min then pos 0 else i

-- What the option loop sets: the options, and whether the names were given.
pub record Parsed : Type 0 where
  pub options : Options
  pub has_sched_name : Bool
  pub has_workload_name : Bool
  pub has_timing_name : Bool

-- The switch on one option letter `c` whose argument, read as a number, is `arg`. `none` is the
-- default branch, which prints the usage and returns.
unfoldable pub parse_option : Parsed → (c : ℕ) → (arg : ℤ) → Option Parsed
parse_option p c arg =
    let o = p.options in
    if c == b'b'
    then some (record p { options = record o { batch_mode = true } })
    else if c == b'c'
    then some (record p { options = record o { cpu_usage = get_integer arg } })
    else if c == b'd'
    then some (record p { options = record o { deadlock_prevention = true } })
    else if c == b'e'
    then some (record p { options = record o { end_usage = get_integer arg } })
    else if c == b'f'
    then some (record p { options = record o { has_taskset_filename = true } })
    else if c == b'g'
    then some (record p { options = record o { output_format = 2 } })
    else if c == b'h'
    then some (record p { options = record o { enable_hua = true } })
    else if c == b'i'
    then some (record p { options = record o { interval = get_integer arg } })
    else if c == b'l'
    then some (record p {
      options = record o { cs_length = get_integer arg; locking = bit_or o.locking locking_flag };
    })
    else if c == b'n'
    then some (record p { options = record o { locking = bit_or o.locking nested_locking } })
    else if c == b'o'
    then some (record p { options = record o { output_format = 0 } })
    else if c == b'p'
    then some (record p { options = record o { priority_inheritance = true } })
    else if c == b'r'
    then some (record p { options = record o { run_time = get_integer arg } })
    else if c == b's'
    then some (record p { has_sched_name = true })
    else if c == b't'
    then some (record p { has_timing_name = true })
    else if c == b'v'
    then some (record p { options = record o { output_format = 3 } })
    else if c == b'w'
    then some (record p { has_workload_name = true })
    else if c == b'x'
    then some (record p { options = record o { output_format = 1 } })
    else if c == b'z'
    then some (record p { options = record o { no_run = true } })
    else none

-- The loop over what `getopt` returns.
unfoldable pub parse_all : Parsed → List (ℕ × ℤ) → Option Parsed
parse_all p [] = some p
parse_all p ((c, arg) ∷ rest) = elim (parse_option p c arg) [
  | none ↦ none
  | some p' ↦ parse_all p' rest
]

-- `main` starts the loop from the initial options, with no name given.
unfoldable pub start_parse : Parsed
start_parse = record {
  options = default_options;
  has_sched_name = false;
  has_workload_name = false;
  has_timing_name = false;
}

-- How the batch loop goes: the CPU usages of its runs when it has ended, or an `int` sum that
-- overflows after a run. `not_ended` is not enough fuel.
pub data BatchEnd : Type 0 where
  all_ran : List ℤ → BatchEnd
  overflows : BatchEnd
  not_ended : BatchEnd

-- A run before the rest of the loop.
abbrev pub after_run : ℤ → BatchEnd → BatchEnd
after_run cpu_usage (all_ran us) = all_ran (cpu_usage ∷ us)
after_run cpu_usage overflows = overflows
after_run cpu_usage not_ended = not_ended

unfoldable pub batch_runs : ℕ → (cpu_usage end_usage interval : ℤ) → BatchEnd
batch_runs zero cpu_usage end_usage interval = not_ended
batch_runs (suc fuel) cpu_usage end_usage interval =
    let rest = batch_runs fuel (cpu_usage +ℤ interval) end_usage interval in
    let next = as_int (cpu_usage +ℤ interval) in
    if leb_ℤ cpu_usage end_usage
    then elim next [ none ↦ overflows | some usage ↦ after_run cpu_usage rest ]
    else all_ran []
