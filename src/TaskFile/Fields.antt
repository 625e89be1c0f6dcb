-- ===== src/TaskFile/Fields.antt =====
-- What the parts of a task's line leave as it was: the task's address and its processors.
use chronos_project.Base.{
  ◌==◌, Bool-cases, length, ℕ, ◌≡◌, refl, ◌≢◌, inl, inr, ◌||◌, List, [], ◌∷◌, arith,
}
use chronos_project.Base.Int.{ℤ}
use chronos_project.Scan.{scan_word, scan_int}
use chronos_project.Scan.Rest.{Holds, Holds-bind, Holds-trivial}
use chronos_project.TaskFile.{read_locks, read_hua, read_optional, read_fields}
use chronos_project.TaskSet.{Reading, done, exits, undefined, is_digit, initialize_task_cpus}
use chronos_project.TaskSet.Domains.{HasMask, IsTable, initialize_task_cpus_lem}
use chronos_project.Types.{Task}

-- The task read so far is at the same address and runs on the same processors.
abbrev pub IsSameTask : Task → Task × List ℕ → Type 0
IsSameTask t p = (p.0.addr ≡ t.addr) × (p.0.cpu_mask ≡ t.cpu_mask)

-- The mask read is one of the new table, which has all masks of the old one.
abbrev pub IsInTable : (masks : List ℕ) → ℕ × List ℕ → Type 0
IsInTable masks cpus =
    (cpus.0 ≢ 0)
    × HasMask cpus.0 cpus.1
    × IsTable cpus.1
    × ((m : ℕ) → m ≢ 0 → HasMask m masks → HasMask m cpus.1)

pub read_fields-addr :
    (t : Task) (chars : List ℕ) → Holds (λ fields. fields.1.addr ≡ t.addr) (read_fields t chars)
unfolding read_fields
read_fields-addr t chars =
    Holds-bind (λ (cpus : List ℕ × List ℕ). Unit) _ _ _ (Holds-trivial (scan_word 1_024 chars))
      λ cpus _.
        Holds-bind (λ (number : ℤ × List ℕ). Unit) _ _ _ (Holds-trivial (scan_int 31 cpus.1))
          λ group _.
            Holds-bind (λ (number : ℤ × List ℕ). Unit) _ _ _ (Holds-trivial (scan_int 63 group.1))
              λ wss _.
                Holds-bind (λ (number : ℤ × List ℕ). Unit) _ _ _ (Holds-trivial (scan_int 63 wss.1))
                  λ period _.
                    Holds-bind (λ (number : ℤ × List ℕ). Unit) _ _ _
                      (Holds-trivial (scan_int 63 period.1))
                      λ exec _.
                        Holds-bind (λ (number : ℤ × List ℕ). Unit) _ _ _
                          (Holds-trivial (scan_int 31 exec.1)) λ utility _. refl

read_hua-kept : (t : Task) (chars : List ℕ) → Holds (IsSameTask t) (read_hua t chars)
unfolding read_hua
read_hua-kept t [] = (refl, refl)
read_hua-kept t (c ∷ chars) = elim (Bool-cases (is_digit c)) [
  | inr no_digit ↦ rw no_digit (refl, refl)
  | inl digit ↦ rw digit (
      Holds-bind (λ (number : ℤ × List ℕ). Unit) _ _ _ (Holds-trivial (scan_int 31 (c ∷ chars)))
        λ number _. (refl, refl))
]

pub read_optional-kept :
    (n : ℕ) (t : Task) (chars : List ℕ) → Holds (IsSameTask t) (read_optional n t chars)
unfolding read_optional
read_optional-kept n t [] = (refl, refl)
read_optional-kept n t (c ∷ chars) = elim (Bool-cases (c == b'T' || (c == b'#' || c == b'G'))) [
  | inl ends ↦ rw ends (refl, refl)
  | inr goes_on ↦ rw goes_on (
      Holds-bind (λ (p : List ℕ × List ℕ). Unit) _ _ _
        (Holds-trivial (read_locks n t.num_my_locks (c ∷ chars)))
        λ p _. read_hua-kept (record t { my_locks = p.0; num_my_locks = length p.0 }) p.1)
]

pub cpus-IsInTable :
    (masks chars : List ℕ)
    → IsTable masks
    → Holds (IsInTable masks) (initialize_task_cpus masks chars)
cpus-IsInTable masks chars table = in_result (initialize_task_cpus masks chars) refl
  where
    in_result :
        (r : Reading (ℕ × List ℕ))
        → initialize_task_cpus masks chars ≡ r
        → Holds (IsInTable masks) r
    in_result (done (mask, new)) e =
        let one =
          initialize_task_cpus_lem masks new chars mask 1 table e λ z. absurd (ground arith) in
        (
          one.0,
          one.1,
          one.2,
          λ m ne old. (initialize_task_cpus_lem masks new chars mask m table e ne).4.1 (inr old),
        )
    in_result exits e = tt
    in_result undefined e = tt
