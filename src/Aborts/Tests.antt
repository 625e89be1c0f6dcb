-- ===== src/Aborts/Tests.antt =====
-- Runs of the abort device.
use chronos_project.Aborts.{
  AbortsData, SystemCall, open_device, modprobe, mknod, map_memory, System, read_pid_max,
  page_order, map_aborts, init_aborts, get_abort_ptr,
}
use chronos_project.Aborts.Lifetime.{closed, opened, EndsWell}
use chronos_project.Aborts.Pointers.{abort_ptrs_mapped}
use chronos_project.Base.{
  ◌+◌, ◌-◌, ◌^◌, ◌≡◌, refl, ap, ◌≢◌, inl, true, false, some, List, [], ◌∷◌, arith,
}
use chronos_project.Base.Int.{ℤ, pos, negsuc, pos_part, ◌+ℤ◌, ◌-ℤ◌, ◌≤ℤ◌, ◌<ℤ◌}

-- The device is only found the second time.
abbrev system : System
system = record {
  pagesize = 4_096;
  proc_pid_max = some (pos 10_000);
  first_fd = negsuc 0;
  second_fd = pos 3;
  mapping = some 0x7000;
}

abbrev unset : AbortsData
unset = record { mmap_pointer = 0; fd = pos 0; mapsize = 0; initialized = false }

abbrev mapped_data : AbortsData
mapped_data = record { mmap_pointer = 0x7000; fd = pos 3; mapsize = 16_384; initialized = true }

abbrev all_calls : List SystemCall
all_calls = open_device ∷ modprobe ∷ mknod ∷ open_device ∷ map_memory 16_384 ∷ []

init_succeeds : init_aborts system (pos 0) unset ≡ some (pos 0, pos 10_000, mapped_data, all_calls)
unfolding init_aborts map_aborts page_order read_pid_max ◌+ℤ◌ ◌-ℤ◌
init_succeeds = refl

pids_low : pos 1 ≤ℤ read_pid_max system
unfolding read_pid_max
pids_low = omega arith

pids_high : read_pid_max system ≤ℤ pos (2 ^ 31 - 1)
unfolding read_pid_max
pids_high = omega arith

different : pos 5 ≢ pos 10_000
different e = let n : 5 ≡ 10_000 = ap pos_part e in omega (arith, n)

abort_ptrs_mapped_example :
    (p : ℤ) × (q : ℤ) × (get_abort_ptr (pos 10_000) mapped_data (pos 5) ≡ some p)
    × (get_abort_ptr (pos 10_000) mapped_data (pos 10_000) ≡ some q)
    × (pos 0x7000 ≤ℤ p)
    × (p <ℤ pos (0x7000 + 16_384))
    × (p ≢ q)
abort_ptrs_mapped_example =
    abort_ptrs_mapped system (pos 0) (pos 10_000) unset mapped_data all_calls (pos 5) (pos 10_000)
      (omega arith) (omega arith) pids_low pids_high init_succeeds (omega arith) (omega arith)
      (omega arith) (omega arith) different

well : EndsWell system unset (pos 0, pos 10_000, mapped_data, all_calls)
unfolding EndsWell closed opened
well = inl (refl, refl, refl, refl)
