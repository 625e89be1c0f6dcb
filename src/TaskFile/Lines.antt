-- ===== src/TaskFile/Lines.antt =====
-- The loop of `init_tasks` of sched_test_app/src/tester.c, line by line, whatever the file holds.
use chronos_project.Base.{
  ◌==◌, Bool-cases, length, ℕ, zero, suc, ◌+◌, ◌≡◌, refl, ◌≢◌, inl, inr, Bool, true, ◌&&◌, Option,
  none, some, List, [], ◌∷◌, arith,
}
use chronos_project.Base.Int.{ℤ, pos, negsuc, neg_part, ltb_ℤ, to_u32}
use chronos_project.Options.{eq_ℤ}
use chronos_project.Scan.{◌>>=◌, scan_int}
use chronos_project.Scan.Rest.{Holds, Holds-bind, Holds-trivial}
use chronos_project.TaskFile.{
  TestState, Step, init_group, initial_state, check_tasks, and_then, read_num_locks, read_task,
  read_group, read_line, read_lines, init_tasks,
}
use chronos_project.TaskFile.Fuel.{read_lines_end}
use chronos_project.TaskFile.Loaded.{
  IsFresh, IsLoaded, initial-IsLoaded, locks-IsLoaded, put_group_wss-IsLoaded, init_task-IsLoaded,
}
use chronos_project.TaskSet.{Reading, done, exits, undefined}
use chronos_project.Types.{Task}
use chronos_project.Workloads.{Workload}
use mathlib.Core.Path.{subst}

-- A property of the result of a loop that has ended with one.
abbrev HoldsIfEnded : {A : Type 0} → (A → Type 0) → Option (Reading A) → Type 0
HoldsIfEnded P none = Unit
HoldsIfEnded P (some ending) = Holds P ending

and_then-Holds :
    {A B : Type 0} (P : A → Type 0) (Q : B → Type 0) (r : Reading A) (f : A → Option (Reading B))
    → Holds P r
    → ((a : A) → P a → HoldsIfEnded Q (f a))
    → HoldsIfEnded Q (and_then r f)
and_then-Holds P Q (done a) f h k = k a h
and_then-Holds P Q exits f h k = tt
and_then-Holds P Q undefined f h k = tt

module _ {fresh : ℕ → Task} (f : IsFresh fresh) (w : Workload) (allocates : ℤ → Bool) where
  -- The result of a line.
  abbrev KeepsLoaded : Step → Type 0
  KeepsLoaded = Holds (λ p. IsLoaded fresh p.0)

  read_group-IsLoaded :
      (s : TestState) (chars : List ℕ)
      → IsLoaded fresh s
      → KeepsLoaded (read_group w allocates fresh s chars)
  unfolding read_group init_group
  read_group-IsLoaded s chars l =
      let s1 = record s { seen_group = true } in
      let l1 : IsLoaded fresh s1 = record {
        grouped = l.grouped;
        counted = l.counted;
        table = l.table;
        in_domain = l.in_domain;
        unused = l.unused;
        lockable = l.lockable;
      } in
      let Q = λ (p : TestState × List ℕ). IsLoaded fresh p.0 in
      Holds-bind (λ (number : ℤ × List ℕ). Unit) Q _ _ (Holds-trivial (scan_int 31 chars))
        λ group _.
          Holds-bind (λ (number : ℤ × List ℕ). Unit) Q _ _ (Holds-trivial (scan_int 63 group.1))
            λ wss _.
              Holds-bind (IsLoaded fresh) Q _ _ (put_group_wss-IsLoaded f s1 (to_u32 group.0) _ l1)
                λ s' l'. l'

  read_num_locks-IsLoaded :
      (s : TestState) (chars : List ℕ)
      → IsLoaded fresh s
      → KeepsLoaded (read_num_locks w allocates fresh s chars)
  unfolding read_num_locks
  read_num_locks-IsLoaded s chars l =
      let Q = λ (p : TestState × List ℕ). IsLoaded fresh p.0 in
      Holds-bind (λ (number : ℤ × List ℕ). Unit) Q _ _ (Holds-trivial (scan_int 31 chars))
        λ number _.
          Holds-bind (IsLoaded fresh) Q _ _ (locks-IsLoaded f allocates s l number.0) λ s' l'. l'

  read_task-IsLoaded :
      (s : TestState) (chars : List ℕ)
      → IsLoaded fresh s
      → KeepsLoaded (read_task w allocates fresh s chars)
  unfolding read_task
  read_task-IsLoaded s chars l = elim (Bool-cases (ltb_ℤ s.num_locks (pos 0))) [
    | inl early ↦ rw early tt
    | inr in_time ↦ elim (Bool-cases s.seen_group) [
      | inl late ↦ rw (in_time, late) tt
      | inr fine ↦ simp (in_time, fine) (init_task-IsLoaded f w s chars l)
    ]
  ]

  read_line-IsLoaded :
      (c : ℕ) (s : TestState) (chars : List ℕ)
      → IsLoaded fresh s
      → KeepsLoaded (read_line w allocates fresh c s chars)
  unfolding read_line
  read_line-IsLoaded c s chars l = elim (Bool-cases (c == b'#')) [
    | inl comment ↦ rw comment l
    | inr no_comment ↦ elim (Bool-cases (c == b'L' && eq_ℤ s.num_locks (negsuc 0))) [
      | inl locks ↦ rw (no_comment, locks) (read_num_locks-IsLoaded s chars l)
      | inr no_locks ↦ elim (Bool-cases (c == b'T')) [
        | inl task ↦ rw (no_comment, no_locks, task) (read_task-IsLoaded s chars l)
        | inr no_task ↦ elim (Bool-cases (c == b'G')) [
          | inl group ↦ rw (no_comment, no_locks, no_task, group) (read_group-IsLoaded s chars l)
          | inr other ↦ rw (no_comment, no_locks, no_task, other) tt
        ]
      ]
    ]
  ]

  read_lines-IsLoaded :
      (fuel : ℕ) (s : TestState) (chars : List ℕ)
      → IsLoaded fresh s
      → HoldsIfEnded (IsLoaded fresh) (read_lines w allocates fresh fuel s chars)
  unfolding read_lines
  read_lines-IsLoaded zero s chars l = tt
  read_lines-IsLoaded (suc fuel) s [] l = l
  read_lines-IsLoaded (suc fuel) s (c ∷ chars) l =
      and_then-Holds (λ (p : TestState × List ℕ). IsLoaded fresh p.0) (IsLoaded fresh)
        (read_line w allocates fresh c s chars) _ (read_line-IsLoaded c s chars l)
        λ p l'. read_lines-IsLoaded fuel p.0 p.1 l'

  -- What `init_tasks` checks in the end.
  abbrev pub IsComplete : TestState → Type 0
  IsComplete s = IsLoaded fresh s × (s.num_tasks ≢ 0) × (neg_part s.num_locks ≡ 0)

  check_tasks-IsComplete : (s : TestState) → IsLoaded fresh s → Holds IsComplete (check_tasks s)
  unfolding check_tasks
  check_tasks-IsComplete s l = elim (Bool-cases (ltb_ℤ s.num_locks (pos 0))) [
    | inl missing ↦ rw missing tt
    | inr some_locks ↦ elim (Bool-cases (s.num_tasks == 0)) [
      | inl empty ↦ rw (some_locks, empty) tt
      | inr tasks ↦ rw (some_locks, tasks) (l, ground arith, ground arith)
    ]
  ]

  pub init_tasks-IsComplete :
      (num_processors locking : ℕ) (file : Option (List ℕ))
      → (ending : Reading TestState) × (init_tasks w allocates fresh num_processors locking file
          ≡ some ending)
        × Holds IsComplete ending
  unfolding init_tasks
  init_tasks-IsComplete num_processors locking none = (exits, refl, tt)
  init_tasks-IsComplete num_processors locking (some chars) =
      let first = initial_state num_processors locking in
      let (ending, ended) = read_lines_end w allocates fresh first chars in
      let e = ended (length chars + 1) (omega arith) in
      let good : HoldsIfEnded (IsLoaded fresh) (some ending) =
        subst (HoldsIfEnded (IsLoaded fresh)) e (
          read_lines-IsLoaded (length chars + 1) first chars
            (initial-IsLoaded f num_processors locking)) in
      (
        ending >>= check_tasks,
        rw (init_tasks, e) refl,
        Holds-bind (IsLoaded fresh) IsComplete ending check_tasks good check_tasks-IsComplete,
      )
