-- ===== src/Clock.antt =====
mod Tests
pub mod Laws
-- Instants and differences of instants: `deadline_met` and `subtract_ts` of
-- libchronos/chronos_utils.c and `timespec_subtract_ns`, `timespec_subtract_us` of
-- sched_test_app/src/utils.h.
use chronos_project.Base.{
  ltb, leb, ◌==◌, if◌then◌else◌, ℕ, suc, ◌+◌, ◌*◌, ◌/◌, ◌%◌, ◌^◌, ◌<◌, Bool, ◌&&◌, ◌||◌,
}
use chronos_project.Base.Int.{ℤ, pos, negsuc, ◌+ℤ◌, ◌-ℤ◌, ◌*ℤ◌, ltb_ℤ, to_u64}

abbrev pub billion : ℕ
billion = 1_000_000_000

abbrev pub million : ℕ
million = 1_000_000

abbrev pub thousand : ℕ
thousand = 1_000

-- `struct timespec` as the clocks of the program fill it: both fields are non-negative.
pub record Timespec : Type 0 where
  pub tv_sec : ℕ
  pub tv_nsec : ℕ

-- What `clock_gettime` guarantees of the nanoseconds.
abbrev pub IsNormal : Timespec → Type 0
IsNormal t = t.tv_nsec < billion

-- The instant in nanoseconds.
abbrev pub to_ns : Timespec → ℕ
to_ns t = t.tv_sec * billion + t.tv_nsec

unfoldable pub deadline_met : Timespec → Timespec → Bool
deadline_met end_time deadline =
    ltb end_time.tv_sec deadline.tv_sec
    || (end_time.tv_sec == deadline.tv_sec && leb end_time.tv_nsec deadline.tv_nsec)

-- `long` intermediates are integers; each assignment to `time`, an `unsigned long`, wraps.
unfoldable pub elapsed : ℤ → ℤ → ℕ
elapsed nsec sec =
    if ltb_ℤ nsec (pos 0)
    then (to_u64 (pos billion +ℤ nsec) + to_u64 ((sec -ℤ pos 1) *ℤ billion)) % 2 ^ 64
    else to_u64 (nsec +ℤ sec *ℤ billion)

unfoldable pub subtract_ts : Timespec → Timespec → ℕ
subtract_ts first last =
    elapsed (pos last.tv_nsec -ℤ pos first.tv_nsec) (pos last.tv_sec -ℤ pos first.tv_sec)

-- `utils.h` repeats the body of `subtract_ts`.
unfoldable pub timespec_subtract_ns : Timespec → Timespec → ℕ
timespec_subtract_ns first last =
    elapsed (pos last.tv_nsec -ℤ pos first.tv_nsec) (pos last.tv_sec -ℤ pos first.tv_sec)

-- C division of a `long long` by THOUSAND: it truncates towards zero.
abbrev pub div_thousand : ℤ → ℤ
div_thousand (pos n) = pos (n / thousand)
div_thousand (negsuc n) = pos 0 -ℤ pos (suc n / thousand)

-- The seconds and nanoseconds after the borrow, in microseconds.
unfoldable pub carried_us : ℤ → ℤ → ℤ
carried_us sec nsec =
    if ltb_ℤ nsec (pos 0)
    then (sec -ℤ pos 1) *ℤ million +ℤ div_thousand (nsec +ℤ pos billion)
    else sec *ℤ million +ℤ div_thousand nsec

unfoldable pub timespec_subtract_us : Timespec → Timespec → ℤ
timespec_subtract_us x y =
    carried_us (pos x.tv_sec -ℤ pos y.tv_sec) (pos x.tv_nsec -ℤ pos y.tv_nsec)
