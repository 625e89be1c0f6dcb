-- ===== src/TestRun/Domains.antt =====
-- Every scheduling domain of a task gets its scheduler.
use chronos_project.Base.{
  ◌==◌, Bool-cases, ℕ, ◌≡◌, ◌≢◌, inl, inr, Bool, true, false, Option, some, List, [], ◌∷◌, arith,
}
use chronos_project.Base.Int.{ℤ}
use chronos_project.Group.Leaders.{All}
use chronos_project.Scan.Rest.{Holds-done}
use chronos_project.TaskFile.{TestState, init_tasks}
use chronos_project.TaskFile.Lines.{IsComplete, init_tasks-IsComplete}
use chronos_project.TaskFile.Loaded.{IsFresh, IsLoaded}
use chronos_project.TaskFile.Regrouped.{All-map}
use chronos_project.TaskSet.{done}
use chronos_project.TaskSet.Domains.{HasMask, AllZero, IsTable, zeros_have}
use chronos_project.TestRun.{set_schedulers}
use chronos_project.TestRun.LockTime.{listed}
use chronos_project.Types.{Task}
use chronos_project.Workloads.{Workload}

-- The masks before the free places of a table are all its masks.
pub set_schedulers_all :
    (succeeds : ℕ → Bool) (m : ℕ) (masks : List ℕ)
    → IsTable masks
    → (set_schedulers succeeds masks).1 ≡ true
    → HasMask m masks
    → m ≢ 0
    → HasMask m (set_schedulers succeeds masks).0
unfolding set_schedulers HasMask IsTable AllZero
set_schedulers_all succeeds m [] table ok listed ne = elim listed [ ]
set_schedulers_all succeeds m (x ∷ masks) (inl zeros) ok listed ne =
    absurd (zeros_have m (x ∷ masks) ne zeros listed)
set_schedulers_all succeeds m (x ∷ masks) (inr full) ok listed ne =
    let used : (x == 0) ≡ false = ground (arith, full.0) in
    elim (Bool-cases (succeeds x)) [
      | inl fine ↦
          rw (used, fine)
            (elim listed [
              | inl e ↦ inl e
              | inr later ↦ inr (set_schedulers_all succeeds m masks full.2 (ground arith) later ne)
            ])
      | inr failed ↦ absurd (ground arith)
    ]

loaded_scheduled :
    {fresh : ℕ → Task} (succeeds : ℕ → Bool) (s : TestState)
    → IsLoaded fresh s
    → (set_schedulers succeeds s.domain_masks).1 ≡ true
    → All (λ t. HasMask t.cpu_mask (set_schedulers succeeds s.domain_masks).0) s.task_list
loaded_scheduled succeeds s l ok =
    All-map (λ t. (t.cpu_mask ≢ 0) × HasMask t.cpu_mask s.domain_masks)
      (λ t. HasMask t.cpu_mask (set_schedulers succeeds s.domain_masks).0) s.task_list
      (λ t h. set_schedulers_all succeeds t.cpu_mask s.domain_masks l.table ok h.1 h.0) l.in_domain

-- When init_tasks reads a taskset file, with memory for the tasks at distinct addresses that are
-- not null, and all calls of set_scheduler in run succeed, then each task's processors are a
-- domain that set_scheduler was called with.
pub tasks_scheduled :
    {fresh : ℕ → Task} (f : IsFresh fresh) (w : Workload) (allocates : ℤ → Bool)
    (num_processors locking : ℕ) (file : Option (List ℕ)) (succeeds : ℕ → Bool) (s : TestState)
    → init_tasks w allocates fresh num_processors locking file ≡ some (done s)
    → (set_schedulers succeeds s.domain_masks).1 ≡ true
    → All (λ t. HasMask t.cpu_mask (set_schedulers succeeds s.domain_masks).0) s.task_list
tasks_scheduled {fresh} f w allocates num_processors locking file succeeds s e ok =
    let (ending, ended, complete) =
      init_tasks-IsComplete f w allocates num_processors locking file in
    let same : ending ≡ done s = cc in
    loaded_scheduled succeeds s (Holds-done (IsComplete f w allocates) ending s complete same).0 ok
