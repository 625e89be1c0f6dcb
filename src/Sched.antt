-- ===== src/Sched.antt =====
mod Tests
pub mod Names
-- Scheduling algorithms: the table of sched_test_app/src/sched_algorithms.h with its two searches,
-- the masks of libchronos/chronos.h, and `get_scheduler` and `get_priority` of
-- sched_test_app/src/tester.c.
use chronos_project.Base.{
  ◌==◌, ◌!=◌, if◌then◌else◌, ℕ, zero, suc, ◌-◌, ◌^◌, bit_and, bit_or, Bool, List, [], ◌∷◌,
}
use chronos_project.Base.Int.{ℤ, pos, negsuc, to_u32}
use chronos_project.Types.{Options}
use Prim.Native.String.{String}
use text.Mathlib.Text.{◌==◌ as str_eq}

abbrev pub sched_global_mask : ℕ
sched_global_mask = 0x8000

abbrev pub sched_flags_mask : ℕ
sched_flags_mask = 0xff

abbrev pub flag_hua : ℕ
flag_hua = 0x01

abbrev pub flag_pi : ℕ
flag_pi = 0x02

abbrev pub flag_no_deadlocks : ℕ
flag_no_deadlocks = 0x04

abbrev pub sched_rt_fifo : ℕ
sched_rt_fifo = 0x0000

abbrev pub sched_rt_rma : ℕ
sched_rt_rma = 0x0100

abbrev pub sched_rt_edf : ℕ
sched_rt_edf = 0x0200

abbrev pub sched_rt_hvdf : ℕ
sched_rt_hvdf = 0x0300

abbrev pub sched_rt_rma_icpp : ℕ
sched_rt_rma_icpp = 0x0400

abbrev pub sched_rt_rma_ocpp : ℕ
sched_rt_rma_ocpp = 0x0500

abbrev pub sched_rt_gfifo : ℕ
sched_rt_gfifo = 0x8000

abbrev pub sched_rt_grma : ℕ
sched_rt_grma = 0x8100

-- `struct algorithm`.
abbrev pub Algorithm : Type 0
Algorithm = ℕ × String

abbrev pub algorithms : List Algorithm
algorithms =
    (sched_rt_fifo, "FIFO")
    ∷ (sched_rt_rma, "RMA")
    ∷ (sched_rt_edf, "EDF")
    ∷ (sched_rt_hvdf, "HVDF")
    ∷ (sched_rt_rma_icpp, "RMA-ICPP")
    ∷ (sched_rt_rma_ocpp, "RMA-OCPP")
    ∷ (sched_rt_gfifo, "GFIFO")
    ∷ (sched_rt_grma, "GRMA")
    ∷ []

-- The bound of the two loops, which is not the length of the table.
abbrev pub num_algorithms : ℕ
num_algorithms = 20

-- The end of a search: a result, the return after the loop, or a read past the end of the table.
pub data Search (A : Type 0) : Type 0 where
  found : A → Search A
  not_found : Search A
  out_of_bounds : Search A

unfoldable pub find_from : String → ℕ → List Algorithm → Search ℕ
find_from name zero table = not_found
find_from name (suc rounds) [] = out_of_bounds
find_from name (suc rounds) (a ∷ table) =
    let later = find_from name rounds table in if str_eq name a.1 then found a.0 else later

-- `not_found` is the return of -1.
unfoldable pub find_scheduler : String → Search ℕ
find_scheduler name = find_from name num_algorithms algorithms

unfoldable pub name_from : ℕ → ℕ → List Algorithm → Search String
name_from mask zero table = not_found
name_from mask (suc rounds) [] = out_of_bounds
name_from mask (suc rounds) (a ∷ table) =
    let later = name_from mask rounds table in
    if bit_and mask (2 ^ 32 - 1 - sched_flags_mask) == a.0 then found a.1 else later

-- `not_found` is the return of a null pointer.
unfoldable pub get_sched_name : ℕ → Search String
get_sched_name sched_mask = name_from sched_mask num_algorithms algorithms

-- `sched |= flag` under a condition.
abbrev pub or_flag : Bool → ℕ → ℕ → ℕ
or_flag on flag sched = if on then bit_or sched flag else sched

-- The scheduler as the 32 bits of an `int`.
unfoldable pub get_scheduler : Options → ℕ
get_scheduler options = or_flag options.deadlock_prevention flag_no_deadlocks (
    or_flag options.enable_hua flag_hua
      (or_flag options.priority_inheritance flag_pi (to_u32 options.scheduler)))

-- `TASK_RUN_PRIO`, or -1 for a local scheduler.
unfoldable pub get_priority : Options → ℤ
get_priority options =
    if bit_and (to_u32 options.scheduler) sched_global_mask != 0 then pos 90 else negsuc 0
