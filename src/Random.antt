-- ===== src/Random.antt =====
-- The pseudo-random numbers of sched_test_app/src/random.h.
mod Tests
pub mod Orbit
use chronos_project.Base.{ℕ, ◌-◌, ◌/◌, ◌%◌, ◌^◌, bit_and, bit_xor}

abbrev pub lsfr_taps_64 : ℕ
lsfr_taps_64 = 0xd800000000000000

abbrev pub lsfr_taps_32 : ℕ
lsfr_taps_32 = 0x80200003

-- `lfsr_next` at a width of `w` bits: `-(lfsr & 1u)` is all ones or zero.
unfoldable pub lfsr_next : (w : ℕ) (lfsr taps : ℕ) → ℕ
lfsr_next w lfsr taps = bit_xor (lfsr / 2) (bit_and ((2 ^ w - bit_and lfsr 1) % 2 ^ w) taps)

unfoldable pub lfsrandom64 : ℕ → ℕ
lfsrandom64 r = lfsr_next 64 r lsfr_taps_64

unfoldable pub lfsrandom32 : ℕ → ℕ
lfsrandom32 r = lfsr_next 32 r lsfr_taps_32

-- The seeds, from the nanoseconds of the clock.
unfoldable pub init_lfsrandom64 : ℕ → ℕ
init_lfsrandom64 tv_nsec = tv_nsec % 2 ^ 64

unfoldable pub init_lfsrandom32 : ℕ → ℕ
init_lfsrandom32 tv_nsec = tv_nsec % 2 ^ 32
