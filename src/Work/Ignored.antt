-- ===== src/Work/Ignored.antt =====
-- What `do_work_timer` does when the task is aborted while there is time left.
use chronos_project.Base.{
  replicate, ℕ, zero, suc, ◌+◌, ◌<◌, ◌≡◌, refl, Bool, true, false, some, ◌++◌, arith,
}
use chronos_project.Clock.{Timespec}
use chronos_project.Slope.{Floats}
use chronos_project.Work.Timer.{
  Doubles, to_seconds, check_iters, end_of_work, next_diff, last_call, timer_loop, do_work_timer,
}

module _ {A : Type 0} (fp : Floats A) (dp : Doubles A) (clock : ℕ → Timespec)
    (resolution : Timespec) where
  -- `now` and `diff` after `n` rounds.
  abbrev pub state_after : ℕ → A × A
  state_after zero = (to_seconds fp dp (clock 0), dp.decimal 0 0)
  state_after (suc n) =
      let next = to_seconds fp dp (clock (suc n)) in
      let (now, diff) = state_after n in (next, next_diff fp dp now next diff)

  -- Whether the loop goes on after `n` rounds, as far as the time is concerned.
  abbrev pub has_time : (end_time : A) (n : ℕ) → Bool
  has_time end_time n =
      fp.less (fp.add (fp.add (state_after n).0 (state_after n).1) (to_seconds fp dp resolution))
        end_time

  abbrev pub end_of : (usage : ℕ) → A
  end_of usage = end_of_work fp dp (to_seconds fp dp (clock 0)) usage

  module _ (is_aborted : ℕ → Bool) (stop : ℕ) (stopped : is_aborted stop ≡ true) (chunk : ℕ)
      (end_time : A)
      (busy : (k : ℕ) → k < stop → (is_aborted k ≡ false) × (has_time end_time k ≡ true)) where
    timer_loop-aborted :
        (left fuel n : ℕ)
        → n + left ≡ stop
        → left < fuel
        → timer_loop fp dp clock resolution is_aborted fuel chunk n end_time
            (state_after n).0
            (state_after n).1
          ≡ some record {
            calls = replicate left chunk;
            reads = stop + 1;
            now = (state_after stop).0;
            diff = (state_after stop).1;
          }
    unfolding timer_loop
    timer_loop-aborted left zero n here enough = absurd (omega arith)
    timer_loop-aborted zero (suc fuel) n here enough =
        let same : n ≡ stop = omega arith in rw (same, stopped) refl
    timer_loop-aborted (suc left) (suc fuel) n here enough =
        let on = busy n (omega arith) in
        let one_more : n + 1 ≡ suc n = omega arith in
        let rest = timer_loop-aborted left fuel (suc n) (omega arith) (omega arith) in
        rw (on.0, on.1, one_more, rest) refl

  -- When the read of the abort pointer with number `stop`, counted from 0, is the first to find an
  -- abort, and there was time left at every read before, then do_work_timer, with fuel above that
  -- number, calls the workload once for each read before and then, though the task is aborted,
  -- once more for the iterations that it expects in the time left, where it expects any.
  pub abort_ignored :
      (is_aborted : ℕ → Bool) (stop fuel usage : ℕ) (exec_slope : A)
      → is_aborted stop ≡ true
      → ((k : ℕ) → k < stop → (is_aborted k ≡ false) × (has_time (end_of usage) k ≡ true))
      → stop < fuel
      → do_work_timer fp dp clock resolution is_aborted fuel exec_slope usage
        ≡ some (
          replicate stop (check_iters fp dp exec_slope)
              ++ last_call fp dp
                  (check_iters fp dp exec_slope)
                  (end_of usage)
                  (state_after stop).0
                  (state_after stop).1,
          is_aborted (stop + 1),
        )
  unfolding do_work_timer
  abort_ignored is_aborted stop fuel usage exec_slope stopped busy enough =
      let chunk = check_iters fp dp exec_slope in
      rw
        (
          do_work_timer,
          timer_loop-aborted is_aborted stop stopped chunk (end_of usage) busy stop fuel 0
              (omega arith) enough,
        )
        refl
