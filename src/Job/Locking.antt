-- ===== src/Job/Locking.antt =====
-- The lock discipline of a job: the two locking patterns of `task_instance`.
use chronos_project.Base.{
  ◌==◌, if◌then◌else◌, Bool-cases, Option-cases, ℕ, zero, suc, ◌+◌, ◌/◌, ◌≡◌, refl, ◌≢◌, ◌↔◌, ◌⊎◌,
  inl, inr, Bool, true, false, Option, none, some, List, [], ◌∷◌, ◌++◌, arith,
}
use chronos_project.Base.Bits.{bit_and-digit, bit_and-zero}
use chronos_project.Base.Int.{ℤ}
use chronos_project.Job.{
  Event, add_abort, begin_segment, lock, lock_failed, work, unlock, end_segment, sleep, Answers,
  locking_flag, nested_locking, has_flag, setup_hua_abort_handler, lock_all, unlock_down, lock_each,
  locked_part, tabulate, Setting, instance_around, task_instance,
}
use chronos_project.Types.{Task, Options}
use mathlib.Core.Path.{subst}

-- What a trace does to the stack of held locks: `none` where a lock is released that is not the
-- one taken last.
pub held : List Event → List ℕ → Option (List ℕ)
held [] s = some s
held (lock i ∷ es) s = held es (i ∷ s)
held (unlock i ∷ es) [] = none
held (unlock i ∷ es) (j ∷ s) = if i == j then held es s else none
held (add_abort a b ∷ es) s = held es s
held (begin_segment a b c d e ∷ es) s = held es s
held (lock_failed i ∷ es) s = held es s
held (work u ∷ es) s = held es s
held (end_segment p ∷ es) s = held es s
held (sleep d ∷ es) s = held es s

-- The locks below `n`, the last one taken on top.
pub taken : ℕ → List ℕ → List ℕ
taken zero s = s
taken (suc n) s = n ∷ taken n s

-- One after another.
abbrev pub then_held : Option (List ℕ) → List Event → Option (List ℕ)
then_held none es = none
then_held (some s) es = held es s

held-append : (es fs : List Event) (s : List ℕ) → held (es ++ fs) s ≡ then_held (held es s) fs
unfolding held
held-append [] fs s = refl
held-append (lock i ∷ es) fs s = held-append es fs (i ∷ s)
held-append (unlock i ∷ es) fs [] = refl
held-append (unlock i ∷ es) fs (j ∷ s) = ground (arith, held-append es fs s)
held-append (add_abort a b ∷ es) fs s = held-append es fs s
held-append (begin_segment a b c d e ∷ es) fs s = held-append es fs s
held-append (lock_failed i ∷ es) fs s = held-append es fs s
held-append (work u ∷ es) fs s = held-append es fs s
held-append (end_segment p ∷ es) fs s = held-append es fs s
held-append (sleep d ∷ es) fs s = held-append es fs s

held-unlock_down : (i : ℕ) (s : List ℕ) → held (unlock_down i) (taken (suc i) s) ≡ some s
unfolding held unlock_down taken
held-unlock_down zero s = ground arith
held-unlock_down (suc i) s = ground (arith, held-unlock_down i s)

taken_next : (i j : ℕ) (s : List ℕ) → j ≡ suc i → taken (suc j) s ≡ j ∷ taken (suc i) s
unfolding taken
taken_next i j s e = rw e

-- What the first loop of nested locking leaves behind: the locks up to `last`, in order.
abbrev pub TakenUpTo : Option ℕ → List ℕ → Option (List ℕ) → Type 0
TakenUpTo none s r = r ≡ some s
TakenUpTo (some last) s r = r ≡ some (taken (suc last) s)

held-lock_all_from :
    (lock_ok : ℕ → Bool) (rounds i j : ℕ) (s : List ℕ)
    → j ≡ suc i
    → TakenUpTo
        (lock_all lock_ok rounds j (some i)).0
        s
        (held (lock_all lock_ok rounds j (some i)).1 (taken (suc i) s))
unfolding lock_all held
held-lock_all_from lock_ok zero i j s e = refl
held-lock_all_from lock_ok (suc rounds) i j s e =
    let (last, es) = lock_all lock_ok rounds (j + 1) (some j) in
    let rest : TakenUpTo last s (held es (j ∷ taken (suc i) s)) =
      subst (λ l. TakenUpTo last s (held es l)) (taken_next i j s e)
        (held-lock_all_from lock_ok rounds j (j + 1) s (omega arith)) in
    elim (Bool-cases (lock_ok j)) [ inl got ↦ rw got rest | inr refused ↦ rw refused refl ]

held-lock_all :
    (lock_ok : ℕ → Bool) (rounds : ℕ) (s : List ℕ)
    → let (last, es) = lock_all lock_ok rounds 0 none in TakenUpTo last s (held es s)
unfolding lock_all held taken
held-lock_all lock_ok zero s = refl
held-lock_all lock_ok (suc rounds) s = elim (Bool-cases (lock_ok 0)) [
  | inl got ↦ rw got (held-lock_all_from lock_ok rounds 0 1 s refl)
  | inr refused ↦ rw refused refl
]

held-lock_each :
    (a : Answers) (usage rounds i : ℕ) (s : List ℕ) → held (lock_each a usage rounds i).2 s ≡ some s
unfolding lock_each held
held-lock_each a usage zero i s = refl
held-lock_each a usage (suc rounds) i s = ground (arith, held-lock_each a usage rounds (i + 1) s)

held-nested :
    (locks : List Event) (usage i : ℕ)
    → held locks [] ≡ some (taken (suc i) [])
    → held (locks ++ (work usage ∷ unlock_down i)) [] ≡ some []
unfolding held
held-nested locks usage i h =
    rw (held-append locks (work usage ∷ unlock_down i) [], h) (held-unlock_down i [])

held-locked_part :
    (options : Options) (a : Answers) (t : Task) (calls : ℕ) (aborted : Bool) (es : List Event)
    → locked_part options a t ≡ some (calls, aborted, es)
    → held es [] ≡ some []
unfolding locked_part held
held-locked_part options a t calls aborted es =
    go (lock_all a.lock_ok t.num_my_locks 0 none) (held-lock_all a.lock_ok t.num_my_locks [])
  where
    go :
        (r : Option ℕ × List Event)
        → TakenUpTo r.0 [] (held r.1 [])
        → (if has_flag options.locking nested_locking
            then elim r.0 [
              | none ↦ none
              | some i ↦ some (1, a.work_aborted 0, r.1 ++ (work t.locked_usage ∷ unlock_down i))
            ]
            else if has_flag options.locking locking_flag
            then some (lock_each a t.locked_usage t.num_my_locks 0)
            else some (0, false, []))
          ≡ some (calls, aborted, es)
        → held es [] ≡ some []
    go (none, locks) k h = ground (arith, held-lock_each a t.locked_usage t.num_my_locks 0 [])
    go (some i, locks) k h = ground (
      arith,
      held-lock_each a t.locked_usage t.num_my_locks 0 [],
      held-nested locks t.locked_usage i k,
    )

held-setup :
    (options : Options) (lock_time num_locks : ℕ) (t : Task) (s : List ℕ)
    → held (setup_hua_abort_handler options lock_time num_locks t) s ≡ some s
unfolding setup_hua_abort_handler held
held-setup options lock_time num_locks t s = ground arith

held-tabulate :
    (aborted : Bool) (tardiness : ℤ) (t : Task) (s : List ℕ)
    → held (tabulate aborted tardiness t).1 s ≡ some s
unfolding tabulate held
held-tabulate aborted tardiness t s = ground arith

held-around :
    (s : Setting) (a : Answers) (count_stats : Bool) (t : Task) (part : ℕ × Bool × List Event)
    → held part.2 [] ≡ some []
    → held (instance_around s a count_stats t part).1 [] ≡ some []
unfolding instance_around held
held-around s a true t (calls, aborted, es) h = simp (held-append, held-setup, held-tabulate, h)
held-around s a false t (calls, aborted, es) h = simp (held-append, held-setup, h)

-- Whatever the kernel answers, a job that runs to its end releases locks in the reverse order of
-- their acquisition, only ones that it holds, and holds none when it ends.
pub locks_released :
    (s : Setting) (a : Answers) (count_stats : Bool) (t t' : Task) (es : List Event)
    → task_instance s a count_stats t ≡ some (t', es)
    → held es [] ≡ some []
unfolding task_instance
locks_released s a count_stats t t' es h = elim (Option-cases (locked_part s.options a t)) [
  | inl undefined ↦ cc (rw (undefined, task_instance) at h)
  | inr (part, e) ↦
      let released = held-around s a count_stats t part (held-locked_part s.options a t _ _ _ e) in
      let same : some (instance_around s a count_stats t part) ≡ some (t', es) =
        rw (e, task_instance) at h in
      ground (arith, released, same)
]

-- The first loop of nested locking leaves `last` unassigned exactly when it gets no lock.
lock_all_assigned :
    (lock_ok : ℕ → Bool) (rounds j i : ℕ) → (lock_all lock_ok rounds j (some i)).0 ≢ none
unfolding lock_all
lock_all_assigned lock_ok zero j i = cc
lock_all_assigned lock_ok (suc rounds) j i =
    ground (arith, lock_all_assigned lock_ok rounds (j + 1) j)

lock_all_unassigned :
    (lock_ok : ℕ → Bool) (rounds : ℕ)
    → ((lock_all lock_ok rounds 0 none).0 ≡ none) ↔ ((rounds ≡ 0) ⊎ (lock_ok 0 ≡ false))
unfolding lock_all
lock_all_unassigned lock_ok zero = (λ _. inl refl, λ _. refl)
lock_all_unassigned lock_ok (suc rounds) = ground (arith, lock_all_assigned lock_ok rounds 1 0)

-- A job is undefined (its unlocking loop starts from an unassigned variable) exactly when the
-- `locking` option has a bit of NESTED_LOCKING and the task has no lock or is refused its first.
pub task_instance_undefined :
    (s : Setting) (a : Answers) (count_stats : Bool) (t : Task)
    → (task_instance s a count_stats t ≡ none) ↔ (
        (has_flag s.options.locking nested_locking ≡ true)
        × ((t.num_my_locks ≡ 0) ⊎ (a.lock_ok 0 ≡ false)))
unfolding task_instance locked_part
task_instance_undefined s a count_stats t =
    ground (arith, lock_all_unassigned a.lock_ok t.num_my_locks)

-- A mask of the two lowest bits sees the lowest one.
nested_of_locking : (l : ℕ) → has_flag l locking_flag ≡ true → has_flag l nested_locking ≡ true
nested_of_locking l h = ground (
  arith,
  bit_and-digit l 1,
  bit_and-digit l 3,
  bit_and-digit (l / 2) 1,
  bit_and-zero (l / 2),
  bit_and-zero (l / 2 / 2),
)

-- The sequential pattern is never run: with the LOCKING bit set, a job does what it does under
-- NESTED_LOCKING.
pub sequential_unreachable :
    (options : Options) (a : Answers) (t : Task)
    → has_flag options.locking locking_flag ≡ true
    → locked_part options a t ≡ locked_part (record options { locking = nested_locking }) a t
unfolding locked_part
sequential_unreachable options a t h = rw (nested_of_locking options.locking h)
