-- ===== src/Slope.antt =====
-- The slope files: `get_workload_slope`, `put_workload_slope` and `clear_workload_slope` of
-- sched_test_app/src/slope.c, and how the files are made, in Slope/Measure. A slope is a `double`;
-- its operations are a parameter. A file is the list of its lines.
pub mod Closest
pub mod Nearest
pub mod Measure
pub mod Samples
pub mod Placement
pub mod Protocol
mod Tests
use chronos_project.Base.{
  if◌then◌else◌, ℕ, ◌+◌, Bool, not, ◌&&◌, ◌||◌, Option, none, some, List, [], ◌∷◌, ◌++◌,
}
use chronos_project.Base.Int.{ℤ, pos, negsuc, ◌-ℤ◌, ltb_ℤ}
use chronos_project.Job.{has_flag}
use chronos_project.Options.{eq_ℤ}
use chronos_project.Workloads.{cap_task_wss, cap_group_wss, Workload}

-- The operations of `double` that the program uses. `printed` is what `%lf` of `fscanf` reads of what
-- `%lf` of `fprintf` has written: the value with 6 decimals.
pub record Floats (A : Type 0) : Type 0 where
  pub less : A → A → Bool
  pub less_equal : A → A → Bool
  pub of_long : ℤ → A
  pub add : A → A → A
  pub sub : A → A → A
  pub mul : A → A → A
  pub div : A → A → A
  pub printed : A → A

-- The working set size of the capabilities that a workload has.
unfoldable pub real_wss : Workload → (task_wss group_wss : ℕ) → ℕ
real_wss w task_wss group_wss =
    (if has_flag w.capabilities cap_task_wss then task_wss else 0)
    + (if has_flag w.capabilities cap_group_wss then group_wss else 0)

-- A line of a slope file: a working set size and the slope there.
abbrev pub Line : Type 0 → Type 0
Line A = ℤ × A

-- The local variables of the search.
pub record Neighbours (A : Type 0) : Type 0 where
  pub lower_wss : ℤ
  pub higher_wss : ℤ
  pub lower_slope : A
  pub higher_slope : A

-- A line of the target's size ends the search.
pub data Nearby (A : Type 0) : Type 0 where
  exact : A → Nearby A
  between : Neighbours A → Nearby A

module _ {A : Type 0} (fp : Floats A) where
  abbrev pub below_zero : A → Bool
  below_zero a = fp.less a (fp.of_long (pos 0))

  abbrev pub minus_one : A
  minus_one = fp.of_long (negsuc 0)

  -- What a line with another size changes.
  unfoldable pub note_line : (target : ℤ) → Line A → Neighbours A → Neighbours A
  note_line target line n =
      if ltb_ℤ line.0 target && (below_zero n.lower_slope || ltb_ℤ n.lower_wss line.0)
      then record n { lower_wss = line.0; lower_slope = line.1 }
      else if ltb_ℤ target line.0 && (below_zero n.higher_slope || ltb_ℤ line.0 n.higher_wss)
      then record n { higher_wss = line.0; higher_slope = line.1 }
      else n

  -- The loop over the lines of the file.
  unfoldable pub search_lines : (target : ℤ) → Neighbours A → List (Line A) → Nearby A
  search_lines target n [] = between n
  search_lines target n (line ∷ lines) =
      let rest = search_lines target (note_line target line n) lines in
      if eq_ℤ line.0 target then exact line.1 else rest

  unfoldable pub interpolate : (target : ℤ) → Neighbours A → A
  interpolate target n =
      let percentage_between =
        fp.div (fp.of_long (target -ℤ n.lower_wss)) (fp.of_long (n.higher_wss -ℤ n.lower_wss)) in
      fp.add n.lower_slope (fp.mul percentage_between (fp.sub n.higher_slope n.lower_slope))

  -- After the loop.
  unfoldable pub slope_of : (target : ℤ) → Nearby A → A
  slope_of target (exact slope) = slope
  slope_of target (between n) =
      if below_zero n.higher_slope || below_zero n.lower_slope
      then minus_one
      else interpolate target n

  -- The two sizes have no value before a line is read.
  abbrev pub no_neighbours : (lower_wss higher_wss : ℤ) → Neighbours A
  no_neighbours low high = record {
    lower_wss = low;
    higher_wss = high;
    lower_slope = minus_one;
    higher_slope = minus_one;
  }

  -- `none` is a file that cannot be opened. `garbage` is what the unassigned sizes hold.
  unfoldable pub get_workload_slope :
      (garbage : ℤ × ℤ) → Workload → (task_wss group_wss : ℕ) → Option (List (Line A)) → A
  get_workload_slope garbage w task_wss group_wss none = minus_one
  get_workload_slope garbage w task_wss group_wss (some lines) =
      let target = pos (real_wss w task_wss group_wss) in
      slope_of target (search_lines target (no_neighbours garbage.0 garbage.1) lines)

-- A line at the end of the file, where it can be opened.
unfoldable pub put_workload_slope :
    {A : Type 0}
    → Floats A
    → Workload
    → (slope : A) → (task_wss group_wss : ℕ) → Option (List (Line A))
    → Option (List (Line A))
put_workload_slope fp w slope task_wss group_wss none = none
put_workload_slope fp w slope task_wss group_wss (some lines) =
    some (lines ++ (pos (real_wss w task_wss group_wss), fp.printed slope) ∷ [])

unfoldable pub clear_workload_slope : {A : Type 0} → Option (List (Line A)) → Option (List (Line A))
clear_workload_slope none = none
clear_workload_slope (some lines) = some []

-- Whether the file can be used: `access` finds it, `access` allows it, `fopen` makes it.
unfoldable pub workload_slope_file_accessible : (exists accessible creatable : Bool) → Bool
workload_slope_file_accessible exists accessible creatable =
    (exists && accessible) || (not exists && creatable)
