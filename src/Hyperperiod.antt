-- ===== src/Hyperperiod.antt =====
mod Tests
pub mod Divides
pub mod Gcd
pub mod Lcm
-- The hyper-period of a task set: `gcd` and `taskset_lcm` of sched_test_app/src/tester.h.
use chronos_project.Base.{
  ltb, ◌==◌, if◌then◌else◌, ℕ, zero, suc, ◌+◌, ◌-◌, ◌*◌, ◌/◌, ◌%◌, ◌^◌, List, [], ◌∷◌,
}
use chronos_project.Base.Int.{ℤ, pos, negsuc, sub_ℕ, to_u64}

-- The end of a computation that divides and loops.
pub data Computed : Type 0 where
  value : ℕ → Computed
  divided_by_zero : Computed
  out_of_fuel : Computed

-- An `unsigned long` that passes through an `int`: the 32 low bits, extended by their sign.
unfoldable pub through_int : ℕ → ℕ
through_int x = let low = x % 2 ^ 32 in if ltb low (2 ^ 31) then low else low + (2 ^ 64 - 2 ^ 32)

-- The body of `gcd` for `m` not below `n`; `m`, `n` are `unsigned long`, and `r` is an `int`.
unfoldable pub gcd_sorted : (fuel m n : ℕ) → Computed
gcd_sorted zero m n = out_of_fuel
gcd_sorted (suc fuel) m n =
    let r = through_int (m % n) in
    let again = if ltb n r then gcd_sorted fuel r (through_int n) else gcd_sorted fuel n r in
    if n == 0 then divided_by_zero else if r == 0 then value n else again

-- `gcd` with the swap of its first lines. The swap passes `m` through the `int` `t`.
unfoldable pub gcd : (fuel m n : ℕ) → Computed
gcd fuel m n = if ltb m n then gcd_sorted fuel n (through_int m) else gcd_sorted fuel m n

-- A `long` in 64 bits, and its division, which truncates towards zero.
abbrev pub to_long : ℕ → ℤ
to_long x = if ltb x (2 ^ 63) then pos x else negsuc (2 ^ 64 - 1 - x)

abbrev pub quot : ℤ → ℤ → ℤ
quot (pos a) (pos b) = pos (a / b)
quot (pos a) (negsuc b) = sub_ℕ 0 (a / suc b)
quot (negsuc a) (pos b) = sub_ℕ 0 (suc a / b)
quot (negsuc a) (negsuc b) = pos (suc a / suc b)

-- The loop of `taskset_lcm` over the periods of the tasks after the first. Each call of `gcd` gets
-- `fuel`; the `int` GCD and the product are assigned with their conversions.
unfoldable pub lcm_loop : (fuel lcm : ℕ) → List ℕ → Computed
lcm_loop fuel lcm [] = value lcm
lcm_loop fuel lcm (period ∷ periods) = elim (gcd fuel lcm period) [
  | divided_by_zero ↦ divided_by_zero
  | out_of_fuel ↦ out_of_fuel
  | value g ↦
      let divisor = through_int g in
      let rest =
        lcm_loop fuel ((to_u64 (quot (to_long lcm) (to_long divisor)) * period) % 2 ^ 64) periods in
      if divisor == 0 then divided_by_zero else rest
]

-- `taskset_lcm` over the periods of a task set that is not empty.
unfoldable pub taskset_lcm : (fuel first : ℕ) → List ℕ → Computed
taskset_lcm fuel first rest = lcm_loop fuel first rest
