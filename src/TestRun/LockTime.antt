-- ===== src/TestRun/LockTime.antt =====
-- The lock time of `calc_lock_time`, sched_test_app/src/tester.c, is that of the longest measurement.
use chronos_project.Base.{
  ltb, ◌==◌, Bool-cases, ℕ, ◌+◌, ◌*◌, ◌/◌, ◌≤◌, ◌<◌, ◌≡◌, refl, ap, ◌⊎◌, inl, inr, Bool, true,
  false, ◌||◌, List, [], ◌∷◌, arith,
}
use chronos_project.TestRun.{longest, calc_lock_time}

-- Whether a number is listed.
abbrev pub listed : ℕ → List ℕ → Bool
listed x [] = false
listed x (y ∷ ys) = x == y || listed x ys

longest_lem :
    (time m : ℕ) (measured : List ℕ)
    → (time ≤ longest time measured)
      × (listed m measured ≡ true → m ≤ longest time measured)
      × ((longest time measured ≡ time) ⊎ (listed (longest time measured) measured ≡ true))
unfolding longest
longest_lem time m [] = (omega arith, ground arith, inl refl)
longest_lem time m (t ∷ measured) = elim (Bool-cases (ltb time t)) [
  | inl longer ↦
      let rest = longest_lem t m measured in
      let e : longest time (t ∷ measured) ≡ longest t measured = rw longer refl in
      let e' = ap (λ (x : ℕ). listed x measured) e in (ground arith, ground arith, ground arith)
  | inr shorter ↦
      let rest = longest_lem time m measured in
      let e : longest time (t ∷ measured) ≡ longest time measured = rw shorter refl in
      let e' = ap (λ (x : ℕ). listed x measured) e in (ground arith, ground arith, ground arith)
]

-- No measurement reaches the microsecond after the lock time, and the lock time is a measurement's,
-- rounded down.
pub calc_lock_time_lem :
    (m t : ℕ) (measured : List ℕ)
    → (listed m (t ∷ measured) ≡ true → m < calc_lock_time (t ∷ measured) * 1_000 + 1_000)
      × (k : ℕ) × (listed k (t ∷ measured) ≡ true)
      × (calc_lock_time (t ∷ measured) ≡ k / 1_000)
unfolding calc_lock_time
calc_lock_time_lem m t measured =
    let (low, bounded, attained) = longest_lem 0 m (t ∷ measured) in
    let first = (longest_lem 0 t (t ∷ measured)).1 (ground arith) in
    (
      λ there. omega (arith, bounded there),
      longest 0 (t ∷ measured),
      elim attained [
        | inl zero_time ↦
            let e : longest 0 (t ∷ measured) ≡ t = omega (arith, first, zero_time) in ground arith
        | inr there ↦ there
      ],
      refl,
    )
