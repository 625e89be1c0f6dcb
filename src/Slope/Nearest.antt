-- ===== src/Slope/Nearest.antt =====
-- The search of `get_workload_slope`, sched_test_app/src/slope.c, finds the nearest lines.
use chronos_project.Base.{
  if◌then◌else◌, Bool-cases, ℕ, ◌≡◌, refl, ◌⊎◌, inl, inr, true, false, ◌&&◌, ◌||◌, Option, none,
  some, List, [], ◌∷◌, ◌++◌, arith,
}
use chronos_project.Base.Int.{ℤ, pos, ltb_ℤ}
use chronos_project.Options.{eq_ℤ}
use chronos_project.Slope.{
  Floats, real_wss, Line, Neighbours, exact, between, below_zero, minus_one, note_line,
  search_lines, interpolate, slope_of, no_neighbours, get_workload_slope, put_workload_slope,
}
use chronos_project.Slope.Closest.{Each, HasLine, closest, closest-IsClosest, closest-HasLine}
use chronos_project.Workloads.{Workload}

ltb_ℤ_trans : (a b c : ℤ) → ltb_ℤ a b ≡ true → ltb_ℤ b c ≡ true → ltb_ℤ a c ≡ true
ltb_ℤ_trans a b c h k = ground arith

ltb_ℤ_irrefl : (a : ℤ) → ltb_ℤ a a ≡ false
ltb_ℤ_irrefl a = ground arith

abbrev pub joined_lines : {A : Type 0} → (lower higher : Line A) → Neighbours A
joined_lines lower higher = record {
  lower_wss = lower.0;
  higher_wss = higher.0;
  lower_slope = lower.1;
  higher_slope = higher.1;
}

module _ {A : Type 0} (fp : Floats A) (target : ℤ) where
  abbrev lower_line : Line A → List (Line A) → Line A
  lower_line = closest fp (λ z. ltb_ℤ z target) (λ a b. ltb_ℤ a b)

  abbrev higher_line : Line A → List (Line A) → Line A
  higher_line = closest fp (λ z. ltb_ℤ target z) (λ a b. ltb_ℤ b a)

  abbrev pick_lower : (l low : Line A) → Line A
  pick_lower l low = if ltb_ℤ l.0 target && (below_zero fp low.1 || ltb_ℤ low.0 l.0) then l else low

  abbrev pick_higher : (l high : Line A) → Line A
  pick_higher l high =
      if ltb_ℤ target l.0 && (below_zero fp high.1 || ltb_ℤ l.0 high.0) then l else high

  note_line_sides :
      (l low high : Line A)
      → note_line fp target l (joined_lines low high)
        ≡ joined_lines (pick_lower l low) (pick_higher l high)
  unfolding note_line
  note_line_sides l low high = ground arith

  -- The loop keeps the closest line on each side.
  search_lines_between :
      (low high : Line A) (lines : List (Line A))
      → Each (λ l. eq_ℤ l.0 target ≡ false) lines
      → search_lines fp target (joined_lines low high) lines
        ≡ between (joined_lines (lower_line low lines) (higher_line high lines))
  unfolding search_lines closest
  search_lines_between low high [] h = refl
  search_lines_between low high (l ∷ lines) (other, h) =
      rw (other, note_line_sides l low high)
        (search_lines_between (pick_lower l low) (pick_higher l high) lines h)

-- Both neighbours of the target, where the file has a line on each side.
pub record IsNearest {A : Type 0} (target : ℤ) (lines : List (Line A)) (lower higher : Line A)
    : Type 0 where
  pub lower_listed : HasLine lower lines
  pub higher_listed : HasLine higher lines
  pub lower_below : ltb_ℤ lower.0 target ≡ true
  pub higher_above : ltb_ℤ target higher.0 ≡ true
  pub none_below : Each (λ l. ltb_ℤ l.0 target ≡ true → ltb_ℤ lower.0 l.0 ≡ false) lines
  pub none_above : Each (λ l. ltb_ℤ target l.0 ≡ true → ltb_ℤ l.0 higher.0 ≡ false) lines

module _ {A : Type 0} (fp : Floats A) (target : ℤ) (lines : List (Line A)) where
  -- What the search can give for a size that no line has.
  abbrev pub IsNearestSlope : A → Type 0
  IsNearestSlope slope =
      ((lower : Line A) × (higher : Line A) × IsNearest target lines lower higher
        × (slope ≡ interpolate fp target (joined_lines lower higher)))
      ⊎ ((slope ≡ minus_one fp)
          × (Each (λ l. ltb_ℤ l.0 target ≡ false) lines
              ⊎ Each (λ l. ltb_ℤ target l.0 ≡ false) lines))

  search_lines_nearest :
      (low high : Line A)
      → below_zero fp low.1 ≡ true
      → below_zero fp high.1 ≡ true
      → Each (λ l. below_zero fp l.1 ≡ false) lines
      → Each (λ l. eq_ℤ l.0 target ≡ false) lines
      → IsNearestSlope (slope_of fp target (search_lines fp target (joined_lines low high) lines))
  unfolding slope_of
  search_lines_nearest low high neg_low neg_high nonneg others =
      let lower = lower_line fp target low lines in
      let higher = higher_line fp target high lines in
      let c =
        closest-IsClosest fp (λ z. ltb_ℤ z target) (λ a b. ltb_ℤ a b) (λ a b c. ltb_ℤ_trans a b c)
          ltb_ℤ_irrefl low lines nonneg in
      let d =
        closest-IsClosest fp (λ z. ltb_ℤ target z) (λ a b. ltb_ℤ b a)
          (λ a b c h k. ltb_ℤ_trans c b a k h) ltb_ℤ_irrefl high lines nonneg in
      let found_lines = search_lines_between fp target low high lines others in
      elim (Bool-cases (below_zero fp higher.1)) [
        | inl no_higher ↦ inr (rw (found_lines, no_higher) refl, inr (d.empty no_higher))
        | inr some_higher ↦ elim (Bool-cases (below_zero fp lower.1)) [
          | inl no_lower ↦
              inr (rw (found_lines, some_higher, no_lower) refl, inl (c.empty no_lower))
          | inr some_lower ↦
              let at_lower =
                closest-HasLine fp (λ z. ltb_ℤ z target) (λ a b. ltb_ℤ a b)
                  (λ a b c. ltb_ℤ_trans a b c) ltb_ℤ_irrefl low lines nonneg neg_low some_lower in
              let at_higher =
                closest-HasLine fp (λ z. ltb_ℤ target z) (λ a b. ltb_ℤ b a)
                  (λ a b c h k. ltb_ℤ_trans c b a k h) ltb_ℤ_irrefl high lines nonneg neg_high
                  some_higher in
              let near : IsNearest target lines lower higher = record {
                lower_listed = at_lower.0;
                higher_listed = at_higher.0;
                lower_below = at_lower.1;
                higher_above = at_higher.1;
                none_below = c.first some_lower;
                none_above = d.first some_higher;
              } in
              inl (lower, higher, near, rw (found_lines, some_higher, some_lower) refl)
        ]
      ]

-- On a slope file without negative slopes and without a line of the size asked for, where -1
-- counts as negative, get_workload_slope interpolates between a line with the greatest smaller
-- size and one with the least greater size; or it returns -1, and the file has no line on one of
-- the two sides.
pub get_workload_slope_nearest :
    {A : Type 0} (fp : Floats A) (garbage : ℤ × ℤ) (w : Workload) (task_wss group_wss : ℕ)
    (lines : List (Line A))
    → below_zero fp (minus_one fp) ≡ true
    → Each (λ l. below_zero fp l.1 ≡ false) lines
    → Each (λ l. eq_ℤ l.0 (pos (real_wss w task_wss group_wss)) ≡ false) lines
    → IsNearestSlope fp
        (pos (real_wss w task_wss group_wss))
        lines
        (get_workload_slope fp garbage w task_wss group_wss (some lines))
unfolding get_workload_slope
get_workload_slope_nearest fp garbage w task_wss group_wss lines negative nonneg others =
    search_lines_nearest fp (pos (real_wss w task_wss group_wss)) lines (garbage.0, minus_one fp)
      (garbage.1, minus_one fp) negative negative nonneg others

-- The slope of the first line of a size.
abbrev pub first_slope : {A : Type 0} → (target : ℤ) → List (Line A) → Option A
first_slope target [] = none
first_slope target (line ∷ lines) =
    if eq_ℤ line.0 target then some line.1 else first_slope target lines

search_lines-first :
    {A : Type 0} (fp : Floats A) (target : ℤ) (n : Neighbours A) (lines : List (Line A)) (last : A)
    → search_lines fp target n (lines ++ (target, last) ∷ [])
      ≡ exact (elim (first_slope target lines) [ none ↦ last | some slope ↦ slope ])
unfolding search_lines
search_lines-first fp target n [] last =
    let same : eq_ℤ target target ≡ true = ground arith in rw same refl
search_lines-first fp target n (line ∷ lines) last = elim (Bool-cases (eq_ℤ line.0 target)) [
  | inl here ↦ rw here refl
  | inr elsewhere ↦
      let rest = search_lines-first fp target (note_line fp target line n) lines last in
      rw (elsewhere, rest) refl
]

-- After put_workload_slope has added a slope to a file, get_workload_slope returns for its size the
-- slope of the file's first line of that size, and, where the file had none, the slope that was
-- added, as `%lf` has printed it.
pub get-put_workload_slope :
    {A : Type 0} (fp : Floats A) (garbage : ℤ × ℤ) (w : Workload) (slope : A)
    (task_wss group_wss : ℕ) (lines : List (Line A))
    → get_workload_slope fp garbage w task_wss group_wss
        (put_workload_slope fp w slope task_wss group_wss (some lines))
      ≡ (elim (first_slope (pos (real_wss w task_wss group_wss)) lines) [
        | none ↦ fp.printed slope
        | some earlier ↦ earlier
      ])
unfolding get_workload_slope put_workload_slope slope_of
get-put_workload_slope fp garbage w slope task_wss group_wss lines =
    rw
      (search_lines-first fp (pos (real_wss w task_wss group_wss))
        (no_neighbours fp garbage.0 garbage.1) lines (fp.printed slope))
      refl
