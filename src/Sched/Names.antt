-- ===== src/Sched/Names.antt =====
-- Names and masks of the scheduling algorithms.
use chronos_project.Base.{
  Bool-cases, length, ℕ, zero, suc, ◌<◌, ◌≡◌, refl, sym, ap, ◌≢◌, ◌⊎◌, inl, inr, Bool, true, false,
  ◌&&◌, List, [], ◌∷◌, arith,
}
use chronos_project.Base.Int.{pos, to_u32}
use chronos_project.Sched.{
  flag_hua, flag_pi, flag_no_deadlocks, Algorithm, algorithms, num_algorithms, Search, found,
  not_found, out_of_bounds, find_from, find_scheduler, name_from, get_sched_name, or_flag,
  get_scheduler,
}
use chronos_project.Types.{Options}
use Prim.Native.String.{String}
use text.Mathlib.Text.{◌==◌ as str_eq}
use text.Mathlib.TextEquality.{eq_iff}

-- The table holds a mask with this name.
abbrev pub In : ℕ → String → List Algorithm → Type 0
In mask name [] = ⊥
In mask name (a ∷ table) = ((a.0 ≡ mask) × (a.1 ≡ name)) ⊎ In mask name table

find_from-In :
    (name : String) (rounds mask : ℕ) (table : List Algorithm)
    → find_from name rounds table ≡ found mask
    → In mask name table
unfolding find_from
find_from-In name zero mask table h = cc
find_from-In name (suc rounds) mask [] h = cc
find_from-In name (suc rounds) mask (a ∷ table) h = elim (Bool-cases (str_eq name a.1)) [
  | inl same ↦ inl (ground (arith, same), sym ((eq_iff name a.1).0 same))
  | inr other ↦ inr (find_from-In name rounds mask table (ground (arith, other)))
]

-- A loop bound above the length of the table is never reached.
find_from-ne :
    (name : String) (rounds : ℕ) (table : List Algorithm)
    → length table < rounds
    → find_from name rounds table ≢ not_found
unfolding find_from
find_from-ne name zero table h = absurd (omega arith)
find_from-ne name (suc rounds) [] h = cc
find_from-ne name (suc rounds) (a ∷ table) h =
    ground (arith, find_from-ne name rounds table (omega arith))

-- `find_scheduler` returns only masks that the table has under the name, and never returns -1: a
-- name that the table does not have makes it read past the table's end.
pub find_scheduler_lem :
    (name : String)
    → ((mask : ℕ) × (find_scheduler name ≡ found mask) × In mask name algorithms)
      ⊎ (find_scheduler name ≡ out_of_bounds)
unfolding find_scheduler
find_scheduler_lem name = go (find_from name num_algorithms algorithms) refl
  where
    go :
        (r : Search ℕ)
        → find_from name num_algorithms algorithms ≡ r
        → ((mask : ℕ) × (find_from name num_algorithms algorithms ≡ found mask)
            × In mask name algorithms)
          ⊎ (find_from name num_algorithms algorithms ≡ out_of_bounds)
    go (found mask) e = inl (mask, e, find_from-In name num_algorithms mask algorithms e)
    go not_found e = absurd (find_from-ne name num_algorithms algorithms (omega arith) e)
    go out_of_bounds e = inr e

-- A test of all settings of the three flags.
all_flags : (Bool → Bool → Bool → Bool) → Bool
all_flags f =
    (f true true true && f true true false && f true false true && f true false false)
    && (f false true true && f false true false && f false false true && f false false false)

all_flags_sound :
    (f : Bool → Bool → Bool → Bool) (p h d : Bool) → all_flags f ≡ true → f p h d ≡ true
unfolding all_flags
all_flags_sound f true true true e = ground arith
all_flags_sound f true true false e = ground arith
all_flags_sound f true false true e = ground arith
all_flags_sound f true false false e = ground arith
all_flags_sound f false true true e = ground arith
all_flags_sound f false true false e = ground arith
all_flags_sound f false false true e = ground arith
all_flags_sound f false false false e = ground arith

abbrev flagged : ℕ → Bool → Bool → Bool → ℕ
flagged mask p h d =
    or_flag d flag_no_deadlocks (or_flag h flag_hua (or_flag p flag_pi (to_u32 (pos mask))))

-- Whether a mask with flags is found under a name.
abbrev is_named : ℕ → String → Bool
is_named mask name = elim (get_sched_name mask) [ found s ↦ str_eq s name | _ ↦ false ]

is_named_sound :
    (mask : ℕ) (name : String) → is_named mask name ≡ true → get_sched_name mask ≡ found name
is_named_sound mask name = go (get_sched_name mask)
  where
    go :
        (r : Search String) → elim r [ found s ↦ str_eq s name | _ ↦ false ] ≡ true → r ≡ found name
    go (found s) e = ap found ((eq_iff s name).0 e)
    go not_found e = cc
    go out_of_bounds e = cc

check_table : List Algorithm → Bool
check_table [] = true
check_table (a ∷ table) = all_flags (λ p h d. is_named (flagged a.0 p h d) a.1) && check_table table

table_checked : check_table algorithms ≡ true
unfolding check_table all_flags get_sched_name name_from
table_checked = refl

named :
    (p h d : Bool) (mask : ℕ) (name : String) (table : List Algorithm)
    → In mask name table
    → check_table table ≡ true
    → get_sched_name (flagged mask p h d) ≡ found name
unfolding check_table
named p h d mask name [] m c = absurd m
named p h d mask name (a ∷ table) (inl (em, en)) c =
    rw (← em, ← en)
      (is_named_sound (flagged a.0 p h d) a.1
        (all_flags_sound (λ p h d. is_named (flagged a.0 p h d) a.1) p h d (ground arith)))
named p h d mask name (a ∷ table) (inr m) c = named p h d mask name table m (ground arith)

-- Whatever flags the options add, the mask that `get_scheduler` passes to the kernel still has the
-- name by which the user chose the scheduler.
pub get_sched_name-get_scheduler :
    (options : Options) (name : String) (mask : ℕ)
    → find_scheduler name ≡ found mask
    → options.scheduler ≡ pos mask
    → get_sched_name (get_scheduler options) ≡ found name
unfolding get_scheduler find_scheduler
get_sched_name-get_scheduler options name mask e chosen = rw chosen (
    named options.priority_inheritance options.enable_hua options.deadlock_prevention mask name
      algorithms (find_from-In name num_algorithms mask algorithms e) table_checked)
