-- ===== src/TaskFile/Loaded.antt =====
-- What `init_tasks` of sched_test_app/src/tester.c makes of a taskset file, whatever it holds.
use chronos_project.Base.{
  Bool-cases, Option-cases, length, replicate, ℕ, zero, suc, ◌≤◌, ◌≡◌, refl, sym, ap, ◌∙◌, ◌≢◌, inl,
  inr, Bool, false, List, [], ◌∷◌, ◌++◌, arith,
}
use chronos_project.Base.Int.{ℤ, pos, pos_part}
use chronos_project.Group.{set_group_wss}
use chronos_project.Group.Leaders.{All, count_leaders, IsGrouped, add_task-IsGrouped}
use chronos_project.Job.{locking_flag, has_flag}
use chronos_project.Scan.Rest.{Holds, Holds-bind}
use chronos_project.TaskFile.{
  TestState, set_wss_period, put_task, init_task, put_group_wss, initialize_test_locks,
  initial_state,
}
use chronos_project.TaskFile.Fields.{
  IsSameTask, IsInTable, read_fields-addr, read_optional-kept, cpus-IsInTable,
}
use chronos_project.TaskFile.Regrouped.{
  All-map, set_group_wss-Resized, length-Resized, All-Resized, Resized-IsGrouped,
}
use chronos_project.TaskSet.Domains.{HasMask, AllZero, IsTable, AllZero-IsTable}
use chronos_project.Types.{Task, new_task}
use chronos_project.Workloads.{Workload}

-- The memory of the tasks: no two at one address, and none at the null pointer.
pub record IsFresh (fresh : ℕ → Task) : Type 0 where
  pub not_null : (n : ℕ) → (fresh n).addr ≢ 0
  pub apart : (m n : ℕ) → m ≢ n → (fresh m).addr ≢ (fresh n).addr

-- The state between two lines.
pub record IsLoaded (fresh : ℕ → Task) (s : TestState) : Type 0 where
  pub grouped : IsGrouped s.task_list
  pub counted : length s.task_list ≡ s.num_tasks
  pub table : IsTable s.domain_masks
  pub in_domain : All (λ t. (t.cpu_mask ≢ 0) × HasMask t.cpu_mask s.domain_masks) s.task_list
  pub unused : (n : ℕ) → s.num_tasks ≤ n → All (λ t. t.addr ≢ (fresh n).addr) s.task_list
  pub lockable : s.num_locks ≡ pos 0 → has_flag s.locking locking_flag ≡ false

zeros_AllZero : (n : ℕ) → AllZero (replicate n 0)
unfolding AllZero
zeros_AllZero zero = tt
zeros_AllZero (suc n) = (refl, zeros_AllZero n)

module _ {fresh : ℕ → Task} (f : IsFresh fresh) where
  pub initial-IsLoaded : (n locking : ℕ) → IsLoaded fresh (initial_state n locking)
  unfolding count_leaders
  initial-IsLoaded n locking = record {
    grouped = record { allocated = tt; led = tt; single = λ g. omega arith };
    counted = refl;
    table = AllZero-IsTable (replicate n 0) (zeros_AllZero n);
    in_domain = tt;
    unused = λ k le. tt;
    lockable = λ e. absurd (ground arith);
  }

  pub locks-IsLoaded :
      (allocates : ℤ → Bool) (s : TestState)
      → IsLoaded fresh s
      → (number : ℤ)
      → Holds (IsLoaded fresh) (initialize_test_locks allocates (record s { num_locks = number }))
  unfolding initialize_test_locks
  locks-IsLoaded allocates s l number = elim (Bool-cases (allocates number)) [
    | inr refused ↦ rw refused tt
    | inl room ↦ rw room (record {
      grouped = l.grouped;
      counted = l.counted;
      table = l.table;
      in_domain = l.in_domain;
      unused = l.unused;
      lockable = λ e. elim (Bool-cases (has_flag s.locking locking_flag)) [
        | inl on ↦ rw (e, on) refl
        | inr off ↦ rw (e, off) off
      ];
    })
  ]

  -- The masks of a longer table.
  put_task-IsLoaded :
      (s : TestState) (masks : List ℕ) (t : Task)
      → IsLoaded fresh s
      → t.addr ≡ (fresh s.num_tasks).addr
      → t.cpu_mask ≢ 0
      → HasMask t.cpu_mask masks
      → IsTable masks
      → ((m : ℕ) → m ≢ 0 → HasMask m s.domain_masks → HasMask m masks)
      → Holds (IsLoaded fresh) (put_task s masks t)
  unfolding put_task
  put_task-IsLoaded s masks t l at_fresh ne listed table kept =
      let unused = l.unused s.num_tasks (omega arith) in
      let not_null : t.addr ≢ 0 = λ e. f.not_null s.num_tasks (sym at_fresh ∙ e) in
      let added = add_task-IsGrouped t s.task_list l.grouped not_null (
        All-map (λ u. u.addr ≢ (fresh s.num_tasks).addr) (λ u. u.addr ≢ t.addr) s.task_list
          (λ u h e. h (e ∙ at_fresh)) unused) in
      rw (added.1, Holds)
        (record {
          grouped = added.2;
          counted = ap suc l.counted ∙ omega arith;
          table = table;
          in_domain = (
            (ne, listed),
            All-map _ _ s.task_list (λ u h. (h.0, kept u.cpu_mask h.0 h.1)) l.in_domain,
          );
          unused = λ n le. (
            λ e. f.apart s.num_tasks n (λ e'. absurd (omega (arith, e', le))) (sym at_fresh ∙ e),
            l.unused n (omega (arith, le)),
          );
          lockable = l.lockable;
        })

  pub put_group_wss-IsLoaded :
      (s : TestState) (g : ℕ) (wss : ℤ)
      → IsLoaded fresh s
      → Holds (IsLoaded fresh) (put_group_wss s g wss)
  unfolding put_group_wss
  put_group_wss-IsLoaded s g wss l = elim (Option-cases (set_group_wss g wss s.task_list)) [
    | inl missing ↦ rw (missing, Holds) tt
    | inr (us, e) ↦
        let r = set_group_wss-Resized g wss s.task_list us e in
        rw (e, Holds)
          (record {
            grouped = Resized-IsGrouped r l.grouped;
            counted = length-Resized r ∙ l.counted;
            table = l.table;
            in_domain = All-Resized _ (λ t h. h) r l.in_domain;
            unused =
                λ n le. All-Resized (λ t. t.addr ≢ (fresh n).addr) (λ t h. h) r (l.unused n le);
            lockable = l.lockable;
          })
  ]

  pub init_task-IsLoaded :
      (w : Workload) (s : TestState) (chars : List ℕ)
      → IsLoaded fresh s
      → Holds (λ p. IsLoaded fresh p.0) (init_task w (fresh s.num_tasks) s chars)
  unfolding init_task new_task set_wss_period
  init_task-IsLoaded w s chars l =
      let Q = λ (p : TestState × List ℕ). IsLoaded fresh p.0 in
      Holds-bind (λ fields. fields.1.addr ≡ (fresh s.num_tasks).addr) Q _ _
        (read_fields-addr (new_task (fresh s.num_tasks)) chars)
        λ fields at_fresh.
          Holds-bind (IsInTable s.domain_masks) Q _ _
            (cpus-IsInTable s.domain_masks (fields.0 ++ 0 ∷ []) l.table)
            λ cpus c.
              let t0 = record (set_wss_period w fields.1) { cpu_mask = cpus.0 } in
              Holds-bind (IsSameTask t0) Q _ _
                (read_optional-kept (pos_part s.num_locks) t0 fields.2)
                λ t kept.
                  Holds-bind (IsLoaded fresh) Q _ _
                    (put_task-IsLoaded s cpus.1 t.0 l (kept.0 ∙ at_fresh)
                      (λ e. c.0 (sym kept.1 ∙ e)) (rw kept.1 c.1) c.2 c.3)
                    λ s' l'. l'
