-- ===== src/Work/Amounts.antt =====
-- How much work `do_work_slope` asks for.
use chronos_project.Base.{
  ltb, if◌then◌else◌, ltb→lt, lt→ltb, Bool-cases, ℕ, zero, suc, ◌+◌, ◌-◌, ◌%◌, ◌^◌, ◌≤◌, ◌<◌, ◌≡◌,
  refl, ◌↔◌, ◌⊎◌, inl, inr, Bool, false, none, some, List, [], ◌∷◌, ◌++◌, arith, dec_lt,
}
use chronos_project.Work.{Progress, slope_loop, do_work_slope}

unfoldable pub sum_calls : List ℕ → ℕ
sum_calls [] = 0
sum_calls (c ∷ cs) = c + sum_calls cs

sum_calls-append_one : (cs : List ℕ) (n : ℕ) → sum_calls (cs ++ n ∷ []) ≡ sum_calls cs + n
unfolding sum_calls
sum_calls-append_one [] n = omega arith
sum_calls-append_one (c ∷ cs) n = omega (arith, sum_calls-append_one cs n)

last_bound : (a b : ℕ) → ltb a b ≡ false → b ≤ a
last_bound a b h = ground (arith, h)

-- Without an abort, from `i` on.
loop_complete :
    (fuel iterations chunk n i : ℕ) (is_aborted : ℕ → Bool)
    → ((k : ℕ) → is_aborted k ≡ false)
    → 0 < chunk
    → iterations + chunk < 2 ^ 64
    → i ≤ iterations
    → iterations - i < fuel
    → (p : Progress) × (slope_loop fuel is_aborted iterations chunk n i ≡ some p)
      × (i + sum_calls p.calls ≡ p.done)
      × (p.done ≤ iterations)
      × (iterations ≤ p.done + chunk)
unfolding slope_loop sum_calls
loop_complete zero iterations chunk n i is_aborted never positive fits le enough =
    absurd (omega arith)
loop_complete (suc fuel) iterations chunk n i is_aborted never positive fits le enough =
    let next = (i + chunk) % 2 ^ 64 in
    let exact : next ≡ i + chunk = omega (arith, fits, le) in
    elim (Bool-cases (ltb next iterations)) [
      | inl more ↦
          let below = ltb→lt next iterations more in
          let (p, ran, added, low, high) =
            loop_complete fuel iterations chunk (n + 1) next is_aborted never positive fits
              (omega (arith, below)) (omega (arith, enough, exact, positive)) in
          (
            record p { calls = chunk ∷ p.calls },
            rw (never n, more, ran) refl,
            omega (arith, added, exact),
            low,
            high,
          )
      | inr last ↦ (
        record { calls = []; reads = n + 1; done = i },
        rw (never n, last) refl,
        omega arith,
        le,
        omega (arith, exact, last_bound next iterations last),
      )
    ]

-- The end of `do_work_slope`, without an abort.
finish :
    (fuel iterations chunk : ℕ) (is_aborted : ℕ → Bool) (p : Progress)
    → ((k : ℕ) → is_aborted k ≡ false)
    → slope_loop fuel is_aborted iterations chunk 0 0 ≡ some p
    → do_work_slope fuel is_aborted iterations chunk
      ≡ some
          (if ltb p.done iterations then p.calls ++ (iterations - p.done) ∷ [] else p.calls, false)
unfolding do_work_slope
finish fuel iterations chunk is_aborted p never h =
    ground (arith, h, never p.reads, never (p.reads + 1))

-- Without an abort `do_work_slope` ends, says so by its result, and the calls of the workload add up
-- to exactly the iterations, if an abort check covers at least one of them and the sums fit 64 bits.
pub do_work_slope_complete :
    (iterations chunk : ℕ) (is_aborted : ℕ → Bool)
    → ((k : ℕ) → is_aborted k ≡ false)
    → 0 < chunk
    → iterations + chunk < 2 ^ 64
    → (calls : List ℕ) × (do_work_slope (iterations + 1) is_aborted iterations chunk
        ≡ some (calls, false))
      × (sum_calls calls ≡ iterations)
unfolding do_work_slope
do_work_slope_complete iterations chunk is_aborted never positive fits =
    let (p, ran, added, low, high) =
      loop_complete (iterations + 1) iterations chunk 0 0 is_aborted never positive fits
        (omega arith) (omega arith) in
    let end = finish (iterations + 1) iterations chunk is_aborted p never ran in
    elim (Bool-cases (ltb p.done iterations)) [
      | inl rest ↦
          let below = ltb→lt p.done iterations rest in
          (
            p.calls ++ (iterations - p.done) ∷ [],
            rw rest at end,
            omega (arith, sum_calls-append_one p.calls (iterations - p.done), below, added),
          )
      | inr complete ↦ (
        p.calls,
        rw complete at end,
        omega (arith, added, low, last_bound p.done iterations complete),
      )
    ]

-- Where the slope is below one iteration per check, the loop makes no progress.
slope_loop-endless :
    (fuel iterations n i : ℕ) (is_aborted : ℕ → Bool)
    → ((k : ℕ) → is_aborted k ≡ false)
    → i < iterations
    → iterations < 2 ^ 64
    → slope_loop fuel is_aborted iterations 0 n i ≡ none
unfolding slope_loop
slope_loop-endless zero iterations n i is_aborted never below fits = refl
slope_loop-endless (suc fuel) iterations n i is_aborted never below fits =
    let same : (i + 0) % 2 ^ 64 ≡ i = omega (arith, below, fits) in
    let rest = slope_loop-endless fuel iterations (n + 1) i is_aborted never below fits in
    rw (never n, same, lt→ltb i iterations below, rest) refl

none_at_once :
    (is_aborted : ℕ → Bool)
    → ((k : ℕ) → is_aborted k ≡ false)
    → do_work_slope 1 is_aborted 0 0 ≡ some ([], false)
unfolding slope_loop
none_at_once is_aborted never =
    finish 1 0 0 is_aborted (record { calls = []; reads = 1; done = 0 }) never (rw (never 0) refl)

-- Without an abort, and where the sums fit 64 bits, `do_work_slope` ends exactly if an abort check
-- covers at least one iteration or there is nothing to do: with a slope below one iteration per
-- microsecond it repeats calls of no iterations for ever.
pub do_work_slope_ends_iff :
    (iterations chunk : ℕ) (is_aborted : ℕ → Bool)
    → ((k : ℕ) → is_aborted k ≡ false)
    → iterations + chunk < 2 ^ 64
    → ((fuel : ℕ) × (r : List ℕ × Bool) × (do_work_slope fuel is_aborted iterations chunk ≡ some r))
      ↔ ((0 < chunk) ⊎ (iterations ≡ 0))
unfolding do_work_slope
do_work_slope_ends_iff iterations chunk is_aborted never fits = (
  λ (fuel, r, h). elim (dec_lt 0 chunk) [
    | yes positive ↦ inl positive
    | no nothing ↦ elim (dec_lt 0 iterations) [
      | yes some_work ↦
          let zero_chunk : chunk ≡ 0 = omega (arith, nothing) in
          let endless =
            slope_loop-endless fuel iterations 0 0 is_aborted never some_work
              (omega (arith, fits)) in
          cc (rw (zero_chunk, do_work_slope, endless) at h)
      | no no_work ↦ inr (omega (arith, no_work))
    ]
  ],
  λ ends. elim (dec_lt 0 chunk) [
    | yes positive ↦
        let (calls, e, _) =
          do_work_slope_complete iterations chunk is_aborted never positive fits in
        (_, _, e)
    | no nothing ↦
        let zero_chunk : chunk ≡ 0 = omega (arith, nothing) in
        let zero_work : iterations ≡ 0 = omega (arith, ends, nothing) in
        (1, ([], false), rw (zero_chunk, zero_work) (none_at_once is_aborted never))
  ],
)
