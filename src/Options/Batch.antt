-- ===== src/Options/Batch.antt =====
-- How often the batch loop of `run_test` runs.
use chronos_project.Base.{
  ltb, if◌then◌else◌, leb→le, Bool-cases, Option-cases, ℕ, zero, suc, ◌+◌, ◌-◌, ◌*◌, ◌/◌, ◌^◌, ◌≤◌,
  ◌<◌, ◌≡◌, refl, sym, ◌↔◌, inl, inr, true, false, none, some, List, [], ◌∷◌, arith, dec_lt,
}
use chronos_project.Base.Int.{
  ℤ, pos, negsuc, pos_part, ◌+ℤ◌, ◌≤ℤ◌, leb_ℤ, as_int, parts_disjoint, int_laws,
}
use chronos_project.Options.{
  is_invalid, validate_options, BatchEnd, all_ran, overflows, not_ended, after_run, batch_runs,
}
use chronos_project.Types.{Options}
use native.Mathlib.Nat.{div-add-mod', mod-lt}

-- `n` usages from `a` on, `d` apart.
unfoldable pub progression : (n a d : ℕ) → List ℤ
progression zero a d = []
progression (suc n) a d = pos a ∷ progression n (a + d) d

after_run-all_ran :
    (u : ℤ) (us : List ℤ) (rest : BatchEnd)
    → after_run u rest ≡ all_ran us
    → (vs : List ℤ) × (rest ≡ all_ran vs)
after_run-all_ran u us (all_ran vs) e = (vs, refl)
after_run-all_ran u us overflows e = absurd (ground (arith, e))
after_run-all_ran u us not_ended e = absurd (ground (arith, e))

as_int-pos : (n : ℕ) → as_int (pos n) ≡ (if ltb n (2 ^ 31) then some (pos n) else none)
unfolding as_int
as_int-pos n = ground arith

+ℤ-pos : (a d : ℕ) → pos a +ℤ pos d ≡ pos (a + d)
unfolding ◌+ℤ◌
+ℤ-pos a d = ground arith

batch_runs-steps :
    (fuel n a b d : ℕ)
    → n < fuel
    → a + n * d ≤ b + d
    → b < a + n * d
    → 0 < d
    → a + n * d < 2 ^ 31
    → batch_runs fuel (pos a) (pos b) (pos d) ≡ all_ran (progression n a d)
unfolding batch_runs progression
batch_runs-steps zero n a b d enough last over positive small = absurd (omega arith)
batch_runs-steps (suc fuel) zero a b d enough last over positive small = ground arith
batch_runs-steps (suc fuel) (suc n) a b d enough last over positive small =
    let le : leb_ℤ (pos a) (pos b) ≡ true = grind arith in
    let in_range : ltb (a + d) (2 ^ 31) ≡ true = grind arith in
    let rest =
      batch_runs-steps fuel n (a + d) b d (omega arith) (omega arith) (omega arith) positive
        (omega arith) in
    let rest' : batch_runs fuel (pos a +ℤ pos d) (pos b) (pos d)
        ≡ all_ran (progression n (a + d) d) =
      rw (+ℤ-pos a d) rest in
    let next : as_int (pos a +ℤ pos d) ≡ some (pos (a + d)) =
      rw (+ℤ-pos a d, as_int-pos (a + d), in_range) refl in
    rw (le, next, rest') refl

goes_on :
    (n a b d : ℕ)
    → ltb (a + d) (2 ^ 31) ≡ true
    → 2 ^ 31 ≤ a + suc n * d
    → a + suc n * d ≤ b + d
    → a + d ≤ b
goes_on zero a b d in_range large last = absurd (ground (arith, in_range))
goes_on (suc n) a b d in_range large last = grind arith

-- Where the first usage past the end does not fit an `int`, the loop does not end.
batch_runs-overflow :
    (fuel n a b d : ℕ) (us : List ℤ)
    → a ≤ b
    → a + n * d ≤ b + d
    → b < a + n * d
    → 2 ^ 31 ≤ a + n * d
    → batch_runs fuel (pos a) (pos b) (pos d) ≡ all_ran us
    → ⊥
unfolding batch_runs
batch_runs-overflow zero n a b d us le last over large e = ground (arith, e)
batch_runs-overflow (suc fuel) zero a b d us le last over large e = absurd (omega arith)
batch_runs-overflow (suc fuel) (suc n) a b d us le last over large e =
    let below : leb_ℤ (pos a) (pos b) ≡ true = ground arith in
    elim (Bool-cases (ltb (a + d) (2 ^ 31))) [
      | inr out ↦
          let next : as_int (pos a +ℤ pos d) ≡ none =
            rw (+ℤ-pos a d, as_int-pos (a + d), out) refl in
          let e' = rw (batch_runs, below, next) at e in ground (arith, e')
      | inl in_range ↦
          let next : as_int (pos a +ℤ pos d) ≡ some (pos (a + d)) =
            rw (+ℤ-pos a d, as_int-pos (a + d), in_range) refl in
          let e' = rw (batch_runs, below, next) at e in
          let (vs, later) =
            after_run-all_ran (pos a) us (batch_runs fuel (pos a +ℤ pos d) (pos b) (pos d)) e' in
          let ran : batch_runs fuel (pos (a + d)) (pos b) (pos d) ≡ all_ran vs =
            rw (sym (+ℤ-pos a d)) later in
          batch_runs-overflow fuel n (a + d) b d vs (goes_on n a b d in_range large last)
            (omega arith) (omega arith) (omega arith) ran
    ]

-- With an interval that is not positive the usage never passes the end.
batch_runs-endless :
    (fuel : ℕ) (u e i : ℤ) (us : List ℤ)
    → i ≤ℤ pos 0
    → u ≤ℤ e
    → batch_runs fuel u e i ≡ all_ran us
    → ⊥
unfolding batch_runs
batch_runs-endless zero u e i us h le ran = ground (arith, ran)
batch_runs-endless (suc fuel) u e i us h le ran =
    let next : u +ℤ i ≤ℤ e = omega int_laws in
    let below : leb_ℤ u e ≡ true = ground (arith, le) in
    elim (Option-cases (as_int (u +ℤ i))) [
      | inl out ↦ let ran' = rw (batch_runs, below, out) at ran in ground (arith, ran')
      | inr (v, in_range) ↦
          let ran' = rw (batch_runs, below, in_range) at ran in
          let (vs, rest) = after_run-all_ran u us (batch_runs fuel (u +ℤ i) e i) ran' in
          batch_runs-endless fuel (u +ℤ i) e i vs h next rest
    ]

rounds_fit :
    (a b d : ℕ) → a ≤ b → 0 < d → let n = (b - a) / d + 1 in (a + n * d ≤ b + d) × (b < a + n * d)
rounds_fit a b d le positive =
    let e = div-add-mod' (b - a) d in let l = mod-lt (b - a) positive in omega (arith, e, l)

-- What `validate_options` has checked of the options it returns.
accepted_bounds :
    (o : Options)
    → (validate_options o).0 ≡ false
    → let o' = (validate_options o).1 in
      (pos 1 ≤ℤ o'.cpu_usage)
      × (o'.cpu_usage ≤ℤ o'.end_usage)
      × (o.batch_mode ≡ false → (o'.end_usage ≡ o'.cpu_usage) × (o'.interval ≡ pos 1))
unfolding validate_options is_invalid
accepted_bounds o h = ground arith

pos_of_nonneg : (z : ℤ) → pos 0 ≤ℤ z → z ≡ pos (pos_part z)
pos_of_nonneg (pos n) h = refl
pos_of_nonneg (negsuc n) h = absurd (omega arith)

-- The first usage past the end, for an interval of `d`.
abbrev pub first_past : (cpu_usage end_usage interval : ℤ) → ℕ
first_past u e i = pos_part u + ((pos_part e - pos_part u) / pos_part i + 1) * pos_part i

-- The arguments and the loop on numbers.
batch_runs-ends :
    (u e i : ℤ)
    → pos 1 ≤ℤ u
    → u ≤ℤ e
    → pos 1 ≤ℤ i
    → first_past u e i < 2 ^ 31
    → let d = pos_part i in
      let n = (pos_part e - pos_part u) / d + 1 in
      batch_runs (n + 1) u e i ≡ all_ran (progression n (pos_part u) d)
batch_runs-ends u e i hu le hi small =
    let a = pos_part u in
    let b = pos_part e in
    let d = pos_part i in
    let fit =
      rounds_fit a b d (omega (arith, parts_disjoint e, parts_disjoint u))
        (omega (arith, parts_disjoint i)) in
    rw (pos_of_nonneg u (omega arith), pos_of_nonneg e (omega arith), pos_of_nonneg i (omega arith))
      (batch_runs-steps _ _ a b d (omega arith) fit.0 fit.1 (omega (arith, parts_disjoint i)) small)

batch_runs-small :
    (fuel : ℕ) (u e i : ℤ) (us : List ℤ)
    → pos 1 ≤ℤ u
    → u ≤ℤ e
    → pos 1 ≤ℤ i
    → batch_runs fuel u e i ≡ all_ran us
    → first_past u e i < 2 ^ 31
batch_runs-small fuel u e i us hu le hi ran = elim (dec_lt (first_past u e i) (2 ^ 31)) [
  | yes small ↦ small
  | no large ↦
      let a = pos_part u in
      let b = pos_part e in
      let d = pos_part i in
      let ordered : a ≤ b = omega (arith, parts_disjoint e, parts_disjoint u) in
      let fit = rounds_fit a b d ordered (omega (arith, parts_disjoint i)) in
      let on_numbers =
        rw
          (
            pos_of_nonneg u (omega arith),
            pos_of_nonneg e (omega arith),
            pos_of_nonneg i (omega arith),
          )
          at ran in
      absurd
        (batch_runs-overflow fuel _ a b d us ordered fit.0 fit.1 (omega (arith, large)) on_numbers)
]

-- For options that validate_options accepts, the batch loop ends, with no int sum that overflows,
-- exactly if the interval is positive, which is not checked, and the first usage past the end
-- fits an int.
pub batch_ends_iff :
    (o : Options)
    → (validate_options o).0 ≡ false
    → let o' = (validate_options o).1 in
      ((fuel : ℕ) × (us : List ℤ) × (batch_runs fuel o'.cpu_usage o'.end_usage o'.interval
          ≡ all_ran us))
      ↔ ((pos 1 ≤ℤ o'.interval) × (first_past o'.cpu_usage o'.end_usage o'.interval < 2 ^ 31))
batch_ends_iff o h =
    let o' = (validate_options o).1 in
    let (one, le, _) = accepted_bounds o h in
    (
      λ (fuel, us, e). elim (Bool-cases (leb_ℤ (pos 1) o'.interval)) [
        | inl good ↦
            let positive = leb→le _ _ good in
            (
              omega (arith, positive),
              batch_runs-small fuel o'.cpu_usage o'.end_usage o'.interval us one le
                  (omega (arith, positive)) e,
            )
        | inr bad ↦
            absurd
              (batch_runs-endless fuel o'.cpu_usage o'.end_usage o'.interval us (ground arith) le e)
      ],
      λ (positive, small).
          (_, _, batch_runs-ends o'.cpu_usage o'.end_usage o'.interval one le positive small),
    )
