-- ===== src/TaskFile/Regrouped.antt =====
-- A group's working set size, written into its leader by `init_group` of
-- sched_test_app/src/task_init.c, leaves the task list as it was otherwise.
use chronos_project.Base.{
  ◌==◌, Bool-cases, Option-cases, length, ℕ, suc, ◌≡◌, refl, sym, ap, ◌∙◌, ◌≢◌, inl, inr, Bool,
  true, ◌&&◌, some, List, [], ◌∷◌, arith,
}
use chronos_project.Base.Int.{ℤ}
use chronos_project.Group.{is_leader, set_group_wss}
use chronos_project.Group.Leaders.{any, All, leads, count_leaders, IsGrouped}
use chronos_project.Types.{Task}

pub All-map :
    (P Q : Task → Type 0) (ts : List Task) → ((t : Task) → P t → Q t) → All P ts → All Q ts
All-map P Q [] f h = tt
All-map P Q (t ∷ ts) f h = (f t h.0, All-map P Q ts f h.1)

-- One task of the list has another group size.
pub data Resized (wss : ℤ) : List Task → List Task → Type 0 where
  resized_here :
      {t : Task} {ts : List Task} → Resized wss (t ∷ ts) (record t { group_wss = wss } ∷ ts)
  resized_later : {t : Task} {ts us : List Task} → Resized wss ts us → Resized wss (t ∷ ts) (t ∷ us)

pub set_group_wss-Resized :
    (g : ℕ) (wss : ℤ) (ts us : List Task) → set_group_wss g wss ts ≡ some us → Resized wss ts us
unfolding set_group_wss
set_group_wss-Resized g wss [] us e = absurd (ground arith)
set_group_wss-Resized g wss (t ∷ ts) us e =
    elim (Bool-cases (is_leader t && (t.thread_group == g))) [
      | inl leader ↦
          let e' : record t { group_wss = wss } ∷ ts ≡ us = ground arith in rw (sym e') resized_here
      | inr other ↦ elim (Option-cases (set_group_wss g wss ts)) [
        | inl missing ↦ absurd (ground arith)
        | inr (us', e2) ↦
            let e' : t ∷ us' ≡ us = ground arith in
            rw (sym e') (resized_later (set_group_wss-Resized g wss ts us' e2))
      ]
    ]

module _ {wss : ℤ} where
  pub length-Resized : {ts us : List Task} → Resized wss ts us → length us ≡ length ts
  length-Resized resized_here = refl
  length-Resized (resized_later r) = ap suc (length-Resized r)

  pub All-Resized :
      {ts us : List Task} (P : Task → Type 0)
      → ((t : Task) → P t → P (record t { group_wss = wss }))
      → Resized wss ts us
      → All P ts
      → All P us
  All-Resized P keep (resized_here {t}) h = (keep t h.0, h.1)
  All-Resized P keep (resized_later r) h = (h.0, All-Resized P keep r h.1)

  any-Resized :
      {ts us : List Task} (p : Task → Bool)
      → ((t : Task) → p (record t { group_wss = wss }) ≡ p t)
      → Resized wss ts us
      → any p us ≡ any p ts
  unfolding any
  any-Resized p keep (resized_here {t}) = rw (keep t)
  any-Resized p keep (resized_later r) = rw (any-Resized p keep r)

  count-Resized :
      {ts us : List Task} (g : ℕ) → Resized wss ts us → count_leaders g us ≡ count_leaders g ts
  unfolding count_leaders
  count-Resized g resized_here = refl
  count-Resized g (resized_later r) = rw (count-Resized g r)

  pub Resized-IsGrouped : {ts us : List Task} → Resized wss ts us → IsGrouped ts → IsGrouped us
  Resized-IsGrouped {ts} {us} r g = record {
    allocated = All-Resized (λ t. t.addr ≢ 0) (λ t h. h) r g.allocated;
    led =
        All-Resized (λ t. any (leads t) us ≡ true) (λ t h. h) r
          (All-map (λ t. any (leads t) ts ≡ true) (λ t. any (leads t) us ≡ true) ts
            (λ t h. any-Resized (leads t) (λ u. refl) r ∙ h) g.led);
    single = λ k. rw (count-Resized k r) (g.single k);
  }
