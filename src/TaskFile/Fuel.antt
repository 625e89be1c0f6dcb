-- ===== src/TaskFile/Fuel.antt =====
-- The loop of `init_tasks` over a taskset file ends: every line takes at least one character.
use chronos_project.Base.{
  ◌==◌, Bool-cases, Option-cases, length, ℕ, zero, suc, ◌+◌, ◌≤◌, ◌<◌, ◌≡◌, refl, inl, inr, Bool,
  true, ◌||◌, Option, some, List, [], ◌∷◌, ◌++◌, arith,
}
use chronos_project.Base.Int.{ℤ, pos_part, to_u32}
use chronos_project.Scan.{scan_word, scan_int}
use chronos_project.Scan.Rest.{
  Holds, Holds-bind, Holds-trivial, Leaves, length-skip_spaces, scan_word-Leaves, bind-Leaves,
  scan_int-Leaves,
}
use chronos_project.TaskFile.{
  TestState, read_locks, read_hua, read_optional, read_fields, set_wss_period, put_task, init_task,
  put_group_wss, init_group, initialize_test_locks, skip_line, and_then, read_num_locks, read_task,
  read_group, read_line, read_lines,
}
use chronos_project.TaskSet.{
  Reading, done, exits, undefined, is_digit, initialize_task_cpus, initialize_task_locks,
}
use chronos_project.Types.{Task, new_task}
use chronos_project.Workloads.{Workload}

length-skip_line : (chars : List ℕ) → length (skip_line chars) ≤ length chars
unfolding skip_line
length-skip_line [] = omega arith
length-skip_line (c ∷ chars) = let rest = length-skip_line chars in ground arith

read_locks-Leaves :
    (num_locks mine : ℕ) (chars : List ℕ)
    → Holds (Leaves (length chars)) (read_locks num_locks mine chars)
unfolding read_locks
read_locks-Leaves num_locks mine chars =
    bind-Leaves (length chars) (scan_word 1_024 chars) _ (scan_word-Leaves 1_024 chars) λ p.
      let short = length-skip_spaces p.1 in
      elim (Option-cases (initialize_task_locks num_locks (p.0 ++ 0 ∷ []))) [
        | inl e ↦ rw e tt
        | inr (locks, e) ↦ rw e (ground arith)
      ]

read_hua-Leaves : (t : Task) (chars : List ℕ) → Holds (Leaves (length chars)) (read_hua t chars)
unfolding read_hua
read_hua-Leaves t [] = omega arith
read_hua-Leaves t (c ∷ chars) = elim (Bool-cases (is_digit c)) [
  | inr no_digit ↦ rw no_digit (omega arith)
  | inl digit ↦ rw digit (
      bind-Leaves (suc (length chars)) (scan_int 31 (c ∷ chars)) _ (scan_int-Leaves 31 (c ∷ chars))
        λ p. length-skip_spaces p.1)
]

read_optional-Leaves :
    (num_locks : ℕ) (t : Task) (chars : List ℕ)
    → Holds (Leaves (length chars)) (read_optional num_locks t chars)
unfolding read_optional
read_optional-Leaves num_locks t [] = omega arith
read_optional-Leaves num_locks t (c ∷ chars) =
    elim (Bool-cases (c == b'T' || (c == b'#' || c == b'G'))) [
      | inl ends ↦ rw ends (omega arith)
      | inr goes_on ↦ rw goes_on (
          bind-Leaves (suc (length chars)) (read_locks num_locks t.num_my_locks (c ∷ chars)) _
            (read_locks-Leaves num_locks t.num_my_locks (c ∷ chars))
            λ p. read_hua-Leaves (record t { my_locks = p.0; num_my_locks = length p.0 }) p.1)
    ]

read_fields-Leaves :
    (t : Task) (chars : List ℕ)
    → Holds (λ fields. length fields.2 ≤ length chars) (read_fields t chars)
unfolding read_fields
read_fields-Leaves t chars =
    Holds-bind (Leaves (length chars)) _ _ _ (scan_word-Leaves 1_024 chars) λ cpus s1.
      Holds-bind (Leaves (length cpus.1)) _ _ _ (scan_int-Leaves 31 cpus.1) λ group s2.
        Holds-bind (Leaves (length group.1)) _ _ _ (scan_int-Leaves 63 group.1) λ wss s3.
          Holds-bind (Leaves (length wss.1)) _ _ _ (scan_int-Leaves 63 wss.1) λ period s4.
            Holds-bind (Leaves (length period.1)) _ _ _ (scan_int-Leaves 63 period.1) λ exec s5.
              Holds-bind (Leaves (length exec.1)) _ _ _ (scan_int-Leaves 31 exec.1)
                λ utility s6. omega (arith, length-skip_spaces utility.1)

init_task-Leaves :
    (w : Workload) (raw : Task) (s : TestState) (chars : List ℕ)
    → Holds (Leaves (length chars)) (init_task w raw s chars)
unfolding init_task
init_task-Leaves w raw s chars =
    Holds-bind (λ fields. length fields.2 ≤ length chars) _ _ _
      (read_fields-Leaves (new_task raw) chars)
      λ fields s1.
        Holds-bind (λ (cpus : ℕ × List ℕ). Unit) _ _ _
          (Holds-trivial (initialize_task_cpus s.domain_masks (fields.0 ++ 0 ∷ [])))
          λ cpus s2.
            Holds-bind (Leaves (length fields.2)) _ _ _
              (read_optional-Leaves (pos_part s.num_locks)
                (record (set_wss_period w fields.1) { cpu_mask = cpus.0 }) fields.2)
              λ t s3.
                Holds-bind (λ s'. Unit) _ _ _ (Holds-trivial (put_task s cpus.1 t.0))
                  λ s' s4. omega arith

init_group-Leaves :
    (w : Workload) (s : TestState) (chars : List ℕ)
    → Holds (Leaves (length chars)) (init_group w s chars)
unfolding init_group
init_group-Leaves w s chars =
    Holds-bind (Leaves (length chars)) _ _ _ (scan_int-Leaves 31 chars) λ group s1.
      Holds-bind (Leaves (length group.1)) _ _ _ (scan_int-Leaves 63 group.1) λ wss s2.
        Holds-bind (λ s'. Unit) _ _ _ (Holds-trivial (put_group_wss s (to_u32 group.0) _))
          λ s' s3. omega (arith, length-skip_spaces wss.1)

-- What follows a round ends, if it does after every result of the round.
and_then-ends {ℓ} :
    {A : Type ℓ} {B : Type 0} (P : A → Type 0) (r : Reading A) (f : ℕ → A → Option (Reading B))
    (bound : ℕ)
    → Holds P r
    → ((a : A) → P a → (ending : Reading B) × ((n : ℕ) → bound < n → f n a ≡ some ending))
    → (ending : Reading B) × ((n : ℕ) → bound < n → and_then r (f n) ≡ some ending)
and_then-ends P (done a) f bound h k = k a h
and_then-ends P exits f bound h k = (exits, λ n enough. refl)
and_then-ends P undefined f bound h k = (undefined, λ n enough. refl)

module _ (w : Workload) (allocates : ℤ → Bool) (fresh : ℕ → Task) where
  read_num_locks-Leaves :
      (s : TestState) (chars : List ℕ)
      → Holds (Leaves (length chars)) (read_num_locks w allocates fresh s chars)
  unfolding read_num_locks
  read_num_locks-Leaves s chars =
      Holds-bind (Leaves (length chars)) _ _ _ (scan_int-Leaves 31 chars) λ number s1.
        Holds-bind (λ s'. Unit) _ _ _
          (Holds-trivial (initialize_test_locks allocates (record s { num_locks = number.0 })))
          λ s' s2. omega (arith, length-skip_spaces number.1)

  read_task-Leaves :
      (s : TestState) (chars : List ℕ)
      → Holds (Leaves (length chars)) (read_task w allocates fresh s chars)
  unfolding read_task
  read_task-Leaves s chars =
      let task = init_task-Leaves w (fresh s.num_tasks) s chars in ground arith

  read_line-Leaves :
      (c : ℕ) (s : TestState) (chars : List ℕ)
      → Holds (Leaves (length chars)) (read_line w allocates fresh c s chars)
  unfolding read_line read_group
  read_line-Leaves c s chars =
      let comment = length-skip_line chars in
      let locks = read_num_locks-Leaves s chars in
      let task = read_task-Leaves s chars in
      let group = init_group-Leaves w (record s { seen_group = true }) chars in ground arith

  with_more :
      (c : ℕ) (s : TestState) (chars : List ℕ) (ending : Reading TestState)
      → ((n : ℕ)
          → length chars < n
          → and_then
              (read_line w allocates fresh c s chars)
              (λ p. read_lines w allocates fresh n p.0 p.1)
            ≡ some ending)
      → (n : ℕ) → suc (length chars) < n
      → read_lines w allocates fresh n s (c ∷ chars) ≡ some ending
  unfolding read_lines
  with_more c s chars ending h zero enough = absurd (omega arith)
  with_more c s chars ending h (suc n) enough = h n (omega arith)

  ends_within :
      (bound : ℕ) (s : TestState) (chars : List ℕ)
      → length chars < bound
      → (ending : Reading TestState) × ((n : ℕ)
          → length chars < n
          → read_lines w allocates fresh n s chars ≡ some ending)
  unfolding read_lines
  ends_within zero s chars short = absurd (omega arith)
  ends_within (suc bound) s [] short = (
    done s,
    λ (n : ℕ) enough.
        elim n as (λ k. 0 < k → read_lines w allocates fresh k s [] ≡ some (done s)) [
          | zero ↦ λ wrong. absurd (omega arith)
          | suc k ↦ λ right. refl
        ]
          enough,
  )
  ends_within (suc bound) s (c ∷ chars) short =
      let rest =
        and_then-ends (Leaves (length chars)) (read_line w allocates fresh c s chars)
          (λ n p. read_lines w allocates fresh n p.0 p.1) (length chars)
          (read_line-Leaves c s chars)
          λ p fewer.
            let later = ends_within bound p.0 p.1 (omega arith) in
            (later.0, λ n enough. later.1 n (omega (arith, enough, fewer))) in
      (rest.0, with_more c s chars rest.0 rest.1)

  pub read_lines_end :
      (s : TestState) (chars : List ℕ)
      → (ending : Reading TestState) × ((n : ℕ)
          → length chars < n
          → read_lines w allocates fresh n s chars ≡ some ending)
  read_lines_end s chars = ends_within (length chars + 1) s chars (omega arith)
