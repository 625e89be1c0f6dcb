-- ===== src/Random/Tests.antt =====
-- Runs of the generator.
use chronos_project.Base.{ℕ, ◌^◌, ◌<◌, ◌≡◌, refl, arith}
use chronos_project.Random.{lfsr_next, lfsrandom32, init_lfsrandom32}
use chronos_project.Random.Orbit.{iterate}

-- The state zero stays.
zero_stays : lfsrandom32 (init_lfsrandom32 0) ≡ 0
unfolding lfsrandom32 lfsr_next init_lfsrandom32
zero_stays = refl

odd_step : lfsrandom32 5 ≡ 0x80200001
unfolding lfsrandom32 lfsr_next
odd_step = refl

abbrev state : ℕ
state = lfsrandom32 5

meets : iterate lfsrandom32 3 state ≡ iterate lfsrandom32 3 0x80200001
unfolding iterate lfsrandom32 lfsr_next
meets = refl

small : state < 2 ^ 32
unfolding lfsrandom32 lfsr_next
small = omega arith
