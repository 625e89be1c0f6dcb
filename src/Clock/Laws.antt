-- ===== src/Clock/Laws.antt =====
-- What the differences and comparisons of instants compute.
use chronos_project.Base.{
  tests, eq_of_iff, ℕ, ◌+◌, ◌-◌, ◌*◌, ◌/◌, ◌^◌, ◌≤◌, ◌<◌, ◌≡◌, refl, ◌↔◌, true, arith,
}
use chronos_project.Base.Int.{
  ℤ, pos, negsuc, pos_part, neg_part, ◌+ℤ◌, ◌-ℤ◌, ◌*ℤ◌, ◌≤ℤ◌, ◌<ℤ◌, leb_ℤ, parts_disjoint, int_laws,
}
use chronos_project.Clock.{
  billion, million, thousand, Timespec, IsNormal, to_ns, deadline_met, elapsed, subtract_ts,
  timespec_subtract_ns, div_thousand, carried_us, timespec_subtract_us,
}

-- The sum in `elapsed` is exact where the seconds and the nanoseconds stand for `d` nanoseconds.
elapsed-exact :
    (nsec sec : ℤ) (d : ℕ)
    → pos_part nsec < billion
    → neg_part nsec < billion
    → pos_part nsec + pos_part sec * billion ≡ d + neg_part nsec + neg_part sec * billion
    → d < 2 ^ 63
    → elapsed nsec sec ≡ d
unfolding elapsed ◌+ℤ◌ ◌-ℤ◌ ◌*ℤ◌
elapsed-exact (pos n) (pos s) d hp hn e small = ground arith
elapsed-exact (pos n) (negsuc s) d hp hn e small = absurd (omega arith)
elapsed-exact (negsuc n) (pos s) d hp hn e small = ground arith
elapsed-exact (negsuc n) (negsuc s) d hp hn e small = absurd (omega arith)

-- Between normal instants, the second not before the first and below 2^63 nanoseconds,
-- `subtract_ts` and `timespec_subtract_ns` both return the exact difference in nanoseconds.
pub subtract_ts-exact :
    (first last : Timespec)
    → IsNormal first
    → IsNormal last
    → to_ns first ≤ to_ns last
    → to_ns last < 2 ^ 63
    → (to_ns first + subtract_ts first last ≡ to_ns last)
      × (timespec_subtract_ns first last ≡ subtract_ts first last)
unfolding subtract_ts timespec_subtract_ns
subtract_ts-exact first last hf hl le small =
    let d = to_ns last - to_ns first in
    let nsec = pos last.tv_nsec -ℤ pos first.tv_nsec in
    let sec = pos last.tv_sec -ℤ pos first.tv_sec in
    let e : elapsed nsec sec ≡ d =
      elapsed-exact nsec sec d (omega (int_laws, parts_disjoint nsec))
        (omega (int_laws, parts_disjoint nsec)) (omega int_laws) (omega arith) in
    (omega (arith, e), refl)

-- On normal instants `deadline_met` compares whole instants, and a job ended exactly at its
-- deadline has met it.
pub deadline_met_iff :
    (end_time deadline : Timespec)
    → IsNormal end_time
    → IsNormal deadline
    → (deadline_met end_time deadline ≡ true) ↔ (to_ns end_time ≤ to_ns deadline)
unfolding deadline_met
deadline_met_iff end_time deadline he hd = ground arith

-- The number of whole microseconds in `z` nanoseconds, for `z` not negative.
div_thousand_parts :
    (z : ℤ)
    → neg_part z ≡ 0
    → (pos_part (div_thousand z) ≡ pos_part z / thousand) × (neg_part (div_thousand z) ≡ 0)
div_thousand_parts (pos n) h = (refl, refl)
div_thousand_parts (negsuc n) h = absurd (omega arith)

carried_us-pos : (sec : ℤ) (n : ℕ) → carried_us sec (pos n) ≡ sec *ℤ million +ℤ pos (n / thousand)
unfolding carried_us
carried_us-pos sec n = ground arith

carried_us-negsuc :
    (sec : ℤ) (n : ℕ)
    → carried_us sec (negsuc n)
      ≡ (sec -ℤ pos 1) *ℤ million +ℤ div_thousand (negsuc n +ℤ pos billion)
unfolding carried_us
carried_us-negsuc sec n = ground arith

carried_us-floor :
    (sec nsec : ℤ)
    → pos_part nsec < billion
    → neg_part nsec < billion
    → let us = carried_us sec nsec in
      let ns = sec *ℤ billion +ℤ nsec in (us *ℤ thousand ≤ℤ ns) × (ns <ℤ (us +ℤ pos 1) *ℤ thousand)
carried_us-floor sec (pos n) hp hn = rw carried_us-pos (omega int_laws)
carried_us-floor sec (negsuc n) hp hn =
    let z = negsuc n +ℤ pos billion in
    let whole = div_thousand_parts z (omega (int_laws, parts_disjoint z)) in
    rw carried_us-negsuc (omega (int_laws, whole, parts_disjoint z))

-- `timespec_subtract_us x y` is the difference x - y of two normal instants in microseconds,
-- rounded down, whatever its sign.
pub timespec_subtract_us-floor :
    (x y : Timespec)
    → IsNormal x
    → IsNormal y
    → let us = timespec_subtract_us x y in
      let ns = pos (to_ns x) -ℤ pos (to_ns y) in
      (us *ℤ thousand ≤ℤ ns) × (ns <ℤ (us +ℤ pos 1) *ℤ thousand)
unfolding timespec_subtract_us
timespec_subtract_us-floor x y hx hy =
    let sec = pos x.tv_sec -ℤ pos y.tv_sec in
    let nsec = pos x.tv_nsec -ℤ pos y.tv_nsec in
    let bounds =
      carried_us-floor sec nsec (omega (int_laws, parts_disjoint nsec))
        (omega (int_laws, parts_disjoint nsec)) in
    omega (int_laws, bounds)

-- On normal instants the sign of the tardiness is the verdict of `deadline_met`.
pub tardiness_sign :
    (deadline end_time : Timespec)
    → IsNormal deadline
    → IsNormal end_time
    → leb_ℤ (pos 0) (timespec_subtract_us deadline end_time) ≡ deadline_met end_time deadline
tardiness_sign deadline end_time hd he =
    let floor = timespec_subtract_us-floor deadline end_time hd he in
    let iff = deadline_met_iff end_time deadline he hd in
    let us = timespec_subtract_us deadline end_time in
    eq_of_iff (leb_ℤ (pos 0) us) (deadline_met end_time deadline)
      (λ h. iff.1 (omega (int_laws, tests, floor))) (λ h. omega (int_laws, tests, floor, iff.0 h))
