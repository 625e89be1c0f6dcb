-- ===== src/Options/Tests.antt =====
-- Command lines.
use chronos_project.Base.{ℕ, ◌^◌, ◌<◌, ◌≡◌, refl, ◌↔◌, true, false, some, List, [], ◌∷◌}
use chronos_project.Base.Int.{ℤ, pos, negsuc, ◌+ℤ◌, ◌≤ℤ◌, as_int}
use chronos_project.Options.{
  is_invalid, validate_options, get_integer, Parsed, parse_option, parse_all, start_parse, all_ran,
  overflows, not_ended, batch_runs,
}
use chronos_project.Options.Batch.{first_past, batch_ends_iff}
use chronos_project.Types.{Options, default_options}

-- `-l 10 -n -s EDF -f set -c 50 -r 20 -b -e 100 -i 25`.
abbrev items : List (ℕ × ℤ)
items =
    (b'l', pos 10)
    ∷ (b'n', pos 0)
    ∷ (b's', pos 0)
    ∷ (b'f', pos 0)
    ∷ (b'c', pos 50)
    ∷ (b'r', pos 20)
    ∷ (b'b', pos 0)
    ∷ (b'e', pos 100)
    ∷ (b'i', pos 25)
    ∷ []

abbrev parsed : Parsed
parsed = record {
  options = record default_options {
    cpu_usage = pos 50;
    run_time = pos 20;
    has_taskset_filename = true;
    locking = 3;
    cs_length = pos 10;
    batch_mode = true;
    end_usage = pos 100;
    interval = pos 25;
  };
  has_sched_name = true;
  has_workload_name = false;
  has_timing_name = false;
}

parses : parse_all start_parse items ≡ some parsed
unfolding parse_all parse_option get_integer start_parse
parses = refl

-- The options once the scheduler is found.
abbrev accepted : Options
accepted = record (parsed.options) { scheduler = pos 0x200 }

is_accepted : (validate_options accepted).0 ≡ false
unfolding validate_options is_invalid
is_accepted = refl

three_runs : batch_runs 4 (pos 50) (pos 100) (pos 25) ≡ all_ran (pos 50 ∷ pos 75 ∷ pos 100 ∷ [])
unfolding batch_runs ◌+ℤ◌ as_int
three_runs = refl

-- 2^31 - 1 is reached, and the next sum overflows.
sum_overflows : batch_runs 4 (pos 50) (pos 2_147_483_647) (pos 2_147_483_597) ≡ overflows
unfolding batch_runs ◌+ℤ◌ as_int
sum_overflows = refl

-- With a negative interval the loop goes down, here with fuel for two runs.
going_down : batch_runs 2 (pos 50) (pos 100) (negsuc 24) ≡ not_ended
unfolding batch_runs ◌+ℤ◌ as_int
going_down = refl

batch_ends_iff_example :
    let o = (validate_options accepted).1 in
    ((fuel : ℕ) × (us : List ℤ) × (batch_runs fuel o.cpu_usage o.end_usage o.interval ≡ all_ran us))
    ↔ ((pos 1 ≤ℤ o.interval) × (first_past o.cpu_usage o.end_usage o.interval < 2 ^ 31))
batch_ends_iff_example = batch_ends_iff accepted is_accepted

-- A negative interval is accepted too.
negative_accepted : (validate_options (record accepted { interval = negsuc 0 })).0 ≡ false
unfolding validate_options is_invalid
negative_accepted = refl

abbrev single : Options
single = record accepted { batch_mode = false }

single_accepted : (validate_options single).0 ≡ false
unfolding validate_options is_invalid
single_accepted = refl
