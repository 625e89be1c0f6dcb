-- ===== src/Work/Stops.antt =====
-- How the timing methods end when the scheduler aborts a task.
use chronos_project.Base.{
  ltb, Bool-cases, not_b, length, length-append, ℕ, zero, suc, ◌+◌, ◌-◌, ◌%◌, ◌^◌, ◌≤◌, ◌<◌, ◌≡◌,
  refl, sym, ap, ◌∙◌, inl, inr, Bool, true, false, not, ◌&&◌, some, List, [], ◌∷◌, ◌++◌, arith,
  ℕ_discrete,
}
use chronos_project.Clock.{Timespec}
use chronos_project.Slope.{Floats}
use chronos_project.Work.{Progress, slope_loop, do_work_slope}
use chronos_project.Work.Timer.{
  Doubles, TimerProgress, has_worked, timing_timer, constant, to_seconds, check_iters, end_of_work,
  next_diff, last_call, timer_loop, do_work_timer, do_work_cached, workload_do_work,
}

module _ (is_aborted : ℕ → Bool) (stop : ℕ) (stopped : is_aborted stop ≡ true) where
  goes_on : (n : ℕ) → n ≤ stop → is_aborted n ≡ false → n + 1 ≤ stop
  goes_on n le running = elim (ℕ_discrete n stop) [
    | yes e ↦ ground (arith, sym running ∙ (ap is_aborted e ∙ stopped))
    | no ne ↦ omega (arith, le, ne)
  ]

  slope_loop-stops :
      (fuel iterations chunk n i : ℕ)
      → n ≤ stop
      → stop - n < fuel
      → (p : Progress) × (slope_loop fuel is_aborted iterations chunk n i ≡ some p)
        × (length p.calls ≤ stop - n)
  unfolding slope_loop
  slope_loop-stops zero iterations chunk n i le enough = absurd (omega arith)
  slope_loop-stops (suc fuel) iterations chunk n i le enough =
      let next = (i + chunk) % 2 ^ 64 in
      elim (Bool-cases (not_b (is_aborted n) && ltb next iterations)) [
        | inl more ↦
            let earlier = goes_on n le (ground (arith, more)) in
            let (p, ran, few) =
              slope_loop-stops fuel iterations chunk (n + 1) next earlier (omega arith) in
            (record p { calls = chunk ∷ p.calls }, rw (more, ran) refl, omega (arith, few, earlier))
        | inr last ↦ (record { calls = []; reads = n + 1; done = i }, rw last refl, omega arith)
      ]

  -- After the loop of `do_work_slope`.
  do_work_slope-ends :
      (fuel iterations chunk : ℕ) (p : Progress)
      → slope_loop fuel is_aborted iterations chunk 0 0 ≡ some p
      → (r : List ℕ × Bool) × (do_work_slope fuel is_aborted iterations chunk ≡ some r)
        × (length r.0 ≤ length p.calls + 1)
  unfolding do_work_slope
  do_work_slope-ends fuel iterations chunk p ran =
      elim (Bool-cases (not_b (is_aborted p.reads) && ltb p.done iterations)) [
        | inl more ↦ (
          (p.calls ++ (iterations - p.done) ∷ [], is_aborted (p.reads + 1)),
          rw (do_work_slope, ran, more) refl,
          omega (arith, length-append p.calls ((iterations - p.done) ∷ [])),
        )
        | inr last ↦
            ((p.calls, is_aborted (p.reads + 1)), rw (do_work_slope, ran, last) refl, omega arith)
      ]

  do_work_slope-stops :
      (fuel iterations chunk : ℕ)
      → stop < fuel
      → (r : List ℕ × Bool) × (do_work_slope fuel is_aborted iterations chunk ≡ some r)
        × (length r.0 ≤ stop + 1)
  do_work_slope-stops fuel iterations chunk enough =
      let (p, ran, few) = slope_loop-stops fuel iterations chunk 0 0 (omega arith) (omega arith) in
      let (r, ended, length_r) = do_work_slope-ends fuel iterations chunk p ran in
      (r, ended, omega (arith, few, length_r))

  module _ {A : Type 0} (fp : Floats A) (dp : Doubles A) (clock : ℕ → Timespec)
      (resolution : Timespec) where
    timer_loop-stops :
        (fuel chunk n : ℕ) (end_time now diff : A)
        → n ≤ stop
        → stop - n < fuel
        → (p : TimerProgress A) × (timer_loop fp dp clock resolution is_aborted fuel chunk n
              end_time now diff
            ≡ some p)
          × (length p.calls ≤ stop - n)
    unfolding timer_loop
    timer_loop-stops zero chunk n end_time now diff le enough = absurd (omega arith)
    timer_loop-stops (suc fuel) chunk n end_time now diff le enough =
        let next = to_seconds fp dp (clock (n + 1)) in
        let until = fp.less (fp.add (fp.add now diff) (to_seconds fp dp resolution)) end_time in
        elim (Bool-cases (not (is_aborted n) && until)) [
          | inl more ↦
              let earlier = goes_on n le (ground (arith, more)) in
              let (p, ran, few) =
                timer_loop-stops fuel chunk (n + 1) end_time next (next_diff fp dp now next diff)
                  earlier (omega arith) in
              (
                record p { calls = chunk ∷ p.calls },
                rw (more, ran) refl,
                omega (arith, few, earlier),
              )
          | inr last ↦ (
            record { calls = []; reads = n + 1; now = now; diff = diff },
            rw last refl,
            omega arith,
          )
        ]

    last_call-length :
        (chunk : ℕ) (end_time now diff : A) → length (last_call fp dp chunk end_time now diff) ≤ 1
    unfolding last_call
    last_call-length chunk end_time now diff = ground arith

    do_work_timer-ends :
        (fuel : ℕ) (exec_slope : A) (usage : ℕ) (p : TimerProgress A)
        → timer_loop fp dp clock resolution is_aborted fuel
            (check_iters fp dp exec_slope)
            0
            (end_of_work fp dp (to_seconds fp dp (clock 0)) usage)
            (to_seconds fp dp (clock 0))
            (dp.decimal 0 0)
          ≡ some p
        → (r : List ℕ × Bool) × (do_work_timer fp dp clock resolution is_aborted fuel exec_slope
              usage
            ≡ some r)
          × (length r.0 ≤ length p.calls + 1)
    unfolding do_work_timer
    do_work_timer-ends fuel exec_slope usage p ran =
        let chunk = check_iters fp dp exec_slope in
        let end_time = end_of_work fp dp (to_seconds fp dp (clock 0)) usage in
        let last = last_call fp dp chunk end_time p.now p.diff in
        (
          (p.calls ++ last, is_aborted p.reads),
          rw (do_work_timer, ran) refl,
          omega (arith, length-append p.calls last, last_call-length chunk end_time p.now p.diff),
        )

    do_work_timer-stops :
        (fuel : ℕ) (exec_slope : A) (usage : ℕ)
        → stop < fuel
        → (r : List ℕ × Bool) × (do_work_timer fp dp clock resolution is_aborted fuel exec_slope
              usage
            ≡ some r)
          × (length r.0 ≤ stop + 1)
    do_work_timer-stops fuel exec_slope usage enough =
        let begin_time = to_seconds fp dp (clock 0) in
        let (p, ran, few) =
          timer_loop-stops fuel (check_iters fp dp exec_slope) 0
            (end_of_work fp dp begin_time usage) begin_time (dp.decimal 0 0) (omega arith)
            (omega arith) in
        let (r, ended, length_r) = do_work_timer-ends fuel exec_slope usage p ran in
        (r, ended, omega (arith, few, length_r))

    -- However many iterations a slope or a time asks for: if the read of the abort pointer with
    -- number `stop`, counted from 0, would find an abort, then with fuel above that number
    -- workload_do_work ends under each of the three timing methods, after at most stop + 1 calls of
    -- the workload.
    pub workload_do_work-stops :
        (fuel timing_method usage : ℕ) (exec_slope : A)
        → stop < fuel
        → timing_method ≤ timing_timer
        → (r : List ℕ × Bool) × (workload_do_work fp dp clock resolution is_aborted fuel
              timing_method exec_slope usage
            ≡ has_worked r.0 r.1)
          × (length r.0 ≤ stop + 1)
    unfolding workload_do_work do_work_cached
    workload_do_work-stops fuel zero usage exec_slope enough valid =
        let (r, ran, few) =
          do_work_slope-stops fuel (dp.to_ulong (fp.mul (constant fp dp usage) exec_slope))
            (check_iters fp dp exec_slope) enough in
        (r, rw ran refl, few)
    workload_do_work-stops fuel (suc zero) usage exec_slope enough valid =
        let (r, ran, few) =
          do_work_slope-stops fuel (dp.to_ulong (fp.mul (constant fp dp usage) exec_slope))
            (check_iters fp dp exec_slope) enough in
        (r, rw ran refl, few)
    workload_do_work-stops fuel (suc (suc zero)) usage exec_slope enough valid =
        let (r, ran, few) = do_work_timer-stops fuel exec_slope usage enough in
        (r, rw ran refl, few)
    workload_do_work-stops fuel (suc (suc (suc k))) usage exec_slope enough valid =
        absurd (omega arith)
