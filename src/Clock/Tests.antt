-- ===== src/Clock/Tests.antt =====
-- The laws of instants at concrete times.
use chronos_project.Base.{◌+◌, ◌≡◌, refl, arith}
use chronos_project.Base.Int.{negsuc, ◌+ℤ◌, ◌-ℤ◌, ◌*ℤ◌}
use chronos_project.Clock.{
  Timespec, to_ns, elapsed, subtract_ts, timespec_subtract_ns, carried_us, timespec_subtract_us,
}
use chronos_project.Clock.Laws.{subtract_ts-exact}

abbrev early : Timespec
early = record { tv_sec = 1; tv_nsec = 900_000_000 }

abbrev late : Timespec
late = record { tv_sec = 3; tv_nsec = 100_000_000 }

borrow : subtract_ts early late ≡ 1_200_000_000
unfolding subtract_ts elapsed ◌+ℤ◌ ◌-ℤ◌ ◌*ℤ◌
borrow = refl

one_ns_late :
    timespec_subtract_us (record { tv_sec = 5; tv_nsec = 0 }) (record { tv_sec = 5; tv_nsec = 1 })
    ≡ negsuc 0
unfolding timespec_subtract_us carried_us ◌+ℤ◌ ◌-ℤ◌ ◌*ℤ◌
one_ns_late = refl

subtract_ts-exact_example :
    (to_ns early + subtract_ts early late ≡ to_ns late)
    × (timespec_subtract_ns early late ≡ subtract_ts early late)
subtract_ts-exact_example =
    subtract_ts-exact early late (omega arith) (omega arith) (omega arith) (omega arith)
