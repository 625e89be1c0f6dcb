-- ===== src/TaskSet/Tests.antt =====
-- Runs of reading a line.
use chronos_project.Base.{
  length, ℕ, ◌≡◌, refl, ◌≢◌, ◌↔◌, ◌⊎◌, inl, inr, some, List, [], ◌∷◌, map, arith,
}
use chronos_project.TaskSet.{
  done, read_number, next_number, cpu_loop, add_domain, finish_cpus, initialize_task_cpus,
  lock_loop, initialize_task_locks,
}
use chronos_project.TaskSet.Domains.{HasMask, AllZero, IsTable, initialize_task_cpus_lem}
use chronos_project.TaskSet.Numbers.{
  value_from, AreDigits, IsNumber, AreNumbers, comma_list, locks-comma_list,
}

-- "3,12" as a list of locks.
abbrev two_locks : List ℕ
two_locks = b'3' ∷ b',' ∷ b'1' ∷ b'2' ∷ 0 ∷ []

reads_two : initialize_task_locks 20 two_locks ≡ some (3 ∷ 12 ∷ [])
unfolding initialize_task_locks lock_loop next_number read_number
reads_two = refl

three : IsNumber (3 ∷ [])
unfolding IsNumber AreDigits value_from
three = ((omega arith, _), omega arith, omega arith)

twelve : AreNumbers ((1 ∷ 2 ∷ []) ∷ [])
unfolding AreNumbers IsNumber AreDigits value_from
twelve = (((omega arith, (omega arith, _)), omega arith, omega arith), _)

locks-comma_list_example :
    initialize_task_locks 20 (comma_list (3 ∷ []) ((1 ∷ 2 ∷ []) ∷ []))
    ≡ some (value_from 0 (3 ∷ []) ∷ map (value_from 0) ((1 ∷ 2 ∷ []) ∷ []))
locks-comma_list_example =
    locks-comma_list 20 (3 ∷ []) ((1 ∷ 2 ∷ []) ∷ []) three twelve (omega arith)

-- "0,2" on a machine of four processors, where two of them have a domain.
abbrev some_cpus : List ℕ
some_cpus = b'0' ∷ b',' ∷ b'2' ∷ 0 ∷ []

abbrev domains : List ℕ
domains = 2 ∷ 0 ∷ 0 ∷ 0 ∷ []

reads_cpus : initialize_task_cpus domains some_cpus ≡ done (5, 2 ∷ 5 ∷ 0 ∷ 0 ∷ [])
unfolding initialize_task_cpus finish_cpus cpu_loop next_number read_number add_domain
reads_cpus = refl

zeros_unlisted : ¬ (HasMask 2 (0 ∷ 0 ∷ 0 ∷ []))
unfolding HasMask
zeros_unlisted (inl e) = omega (arith, e)
zeros_unlisted (inr (inl e)) = omega (arith, e)
zeros_unlisted (inr (inr (inl e))) = omega (arith, e)
zeros_unlisted (inr (inr (inr m))) = absurd m

domains-IsTable : IsTable domains
unfolding IsTable AllZero
domains-IsTable = inr (λ e. omega (arith, e), zeros_unlisted, inl (refl, (refl, (refl, _))))

abbrev mask : ℕ
mask = 5

abbrev old_mask : ℕ
old_mask = 2

abbrev new_domains : List ℕ
new_domains = 2 ∷ 5 ∷ 0 ∷ 0 ∷ []

initialize_task_cpus_lem_example :
    (mask ≢ 0)
    × HasMask mask new_domains
    × IsTable new_domains
    × (length new_domains ≡ length domains)
    × (HasMask old_mask new_domains ↔ ((old_mask ≡ mask) ⊎ HasMask old_mask domains))
initialize_task_cpus_lem_example =
    initialize_task_cpus_lem domains new_domains some_cpus mask old_mask domains-IsTable reads_cpus
      (λ e. omega (arith, e))
