-- ===== src/TaskSet/Domains.antt =====
-- The table of scheduling domains.
use chronos_project.Base.{
  Option-cases, length, ℕ, suc, ◌≡◌, refl, sym, ap, ◌∙◌, ◌≢◌, ◌↔◌, ◌⊎◌, inl, inr, some, List, [],
  ◌∷◌, arith, ℕ_discrete,
}
use chronos_project.Job.Locking.{taken}
use chronos_project.Salloc.Tiles.{has}
use chronos_project.TaskSet.{
  Reading, done, exits, undefined, add_domain, finish_cpus, initialize_task_cpus,
}

-- A mask of a table.
unfoldable pub HasMask : ℕ → List ℕ → Type 0
HasMask mask [] = ⊥
HasMask mask (m ∷ masks) = (m ≡ mask) ⊎ HasMask mask masks

-- Different masks that are not 0, and zeros after them.
unfoldable pub AllZero : List ℕ → Type 0
AllZero [] = Unit
AllZero (m ∷ masks) = (m ≡ 0) × AllZero masks

unfoldable pub IsTable : List ℕ → Type 0
IsTable [] = Unit
IsTable (m ∷ masks) = ((m ≡ 0) × AllZero masks) ⊎ ((m ≢ 0) × (¬ (HasMask m masks)) × IsTable masks)

pub AllZero-IsTable : (masks : List ℕ) → AllZero masks → IsTable masks
unfolding AllZero IsTable
AllZero-IsTable [] h = _
AllZero-IsTable (m ∷ masks) (e, h) = inl (e, h)

pub zeros_have : (mask : ℕ) (masks : List ℕ) → mask ≢ 0 → AllZero masks → ¬ (HasMask mask masks)
unfolding AllZero HasMask
zeros_have mask [] ne h has = elim has [ ]
zeros_have mask (m ∷ masks) ne (e, h) (inl same) = ne (sym same ∙ e)
zeros_have mask (m ∷ masks) ne (e, h) (inr later) = zeros_have mask masks ne h later

-- What a table has after a mask was added: the mask, what was there, and no other mask.
record Extends (mask : ℕ) (old new : List ℕ) : Type 0 where
  added : HasMask mask new
  kept : (m : ℕ) → m ≢ 0 → HasMask m old → HasMask m new
  only : (m : ℕ) → m ≢ 0 → HasMask m new → (m ≡ mask) ⊎ HasMask m old
  table : IsTable new
  size : length new ≡ length old

same-Extends :
    (mask : ℕ) (masks : List ℕ) → HasMask mask masks → IsTable masks → Extends mask masks masks
same-Extends mask masks has t = record {
  added = has;
  kept = λ m ne h. h;
  only = λ m ne h. inr h;
  table = t;
  size = refl;
}

free-Extends :
    (mask m : ℕ) (masks : List ℕ)
    → mask ≢ 0
    → m ≡ 0
    → AllZero masks
    → Extends mask (m ∷ masks) (mask ∷ masks)
unfolding HasMask IsTable
free-Extends mask m masks ne e zeros = record {
  added = inl refl;
  kept = λ k nk h. elim h [
    | inl same ↦ absurd (nk (sym same ∙ e))
    | inr later ↦ absurd (zeros_have k masks nk zeros later)
  ];
  only = λ k nk h. elim h [ inl same ↦ inl (sym same) | inr later ↦ inr (inr later) ];
  table = inr (ne, zeros_have mask masks ne zeros, AllZero-IsTable masks zeros);
  size = refl;
}

next-Extends :
    (mask m : ℕ) (old new : List ℕ)
    → m ≢ mask
    → m ≢ 0
    → ¬ (HasMask m old)
    → Extends mask old new
    → Extends mask (m ∷ old) (m ∷ new)
unfolding HasMask IsTable
next-Extends mask m old new nm nz unlisted x = record {
  added = inr x.added;
  kept = λ k nk h. elim h [ inl same ↦ inl same | inr later ↦ inr (x.kept k nk later) ];
  only = λ k nk h. elim h [
    | inl same ↦ inr (inl same)
    | inr later ↦ elim (x.only k nk later) [ inl is ↦ inl is | inr was ↦ inr (inr was) ]
  ];
  table = inr (nz, λ h. elim (x.only m nz h) [ inl is ↦ nm is | inr was ↦ unlisted was ], x.table);
  size = ap suc x.size;
}

zeros_after : (m : ℕ) (masks : List ℕ) → m ≡ 0 → IsTable (m ∷ masks) → AllZero masks
unfolding IsTable
zeros_after m masks e (inl (z, zeros)) = zeros
zeros_after m masks e (inr (nonzero_mask, unlisted, rest)) = absurd (nonzero_mask e)

taken_after :
    (m : ℕ) (masks : List ℕ) → m ≢ 0 → IsTable (m ∷ masks) → (¬ (HasMask m masks)) × IsTable masks
unfolding IsTable
taken_after m masks taken (inl (z, zeros)) = absurd (taken z)
taken_after m masks taken (inr (ne, unlisted, t)) = (unlisted, t)

add_domain-Extends :
    (mask : ℕ) (old new : List ℕ)
    → mask ≢ 0
    → IsTable old
    → add_domain mask old ≡ some new
    → Extends mask old new
unfolding add_domain
add_domain-Extends mask [] new ne t h = cc
add_domain-Extends mask (m ∷ old) new ne t h = elim (ℕ_discrete m mask) [
  | yes same ↦
      let e : m ∷ old ≡ new = ground (arith, same, h) in
      rw (← e) (same-Extends mask (m ∷ old) (unfold HasMask in inl same) t)
  | no other ↦ elim (ℕ_discrete m 0) [
    | yes free ↦
        let e : mask ∷ old ≡ new = ground (arith, other, free, h) in
        rw (← e) (free-Extends mask m old ne free (zeros_after m old free t))
    | no taken ↦ elim (Option-cases (add_domain mask old)) [
      | inl full ↦ ground (arith, other, taken, full, h)
      | inr (rest, later) ↦
          let e : m ∷ rest ≡ new = ground (arith, other, taken, later, h) in
          let (unlisted, t') = taken_after m old taken t in
          rw (← e) (
            next-Extends mask m old rest other taken unlisted
              (add_domain-Extends mask old rest ne t' later))
    ]
  ]
]

finish_cpus-Extends :
    (old new : List ℕ) (read : Reading ℕ) (mask : ℕ)
    → IsTable old
    → finish_cpus old read ≡ done (mask, new)
    → (mask ≢ 0) × Extends mask old new
unfolding finish_cpus
finish_cpus-Extends old new exits mask t h = cc
finish_cpus-Extends old new undefined mask t h = cc
finish_cpus-Extends old new (done k) mask t h = elim (Option-cases (add_domain k old)) [
  | inl full ↦ ground (arith, full, h)
  | inr (masks, e) ↦
      let ne : k ≢ 0 = ground (arith, e, h) in
      let same : (k ≡ mask) × (masks ≡ new) = ground (arith, e, ne, h) in
      let grown = add_domain-Extends k old masks ne t e in
      (rw (← same.0) ne, rw (← same.0, ← same.1) grown)
]

-- When the list of processors of a task is read, from a table of different masks with its free
-- places at the end, then the task's mask is not 0 and the table has it, is as before a table of
-- different masks of the same size, and has just the other masks that it had.
pub initialize_task_cpus_lem :
    (domain_masks new chars : List ℕ) (mask m : ℕ)
    → IsTable domain_masks
    → initialize_task_cpus domain_masks chars ≡ done (mask, new)
    → m ≢ 0
    → (mask ≢ 0)
      × HasMask mask new
      × IsTable new
      × (length new ≡ length domain_masks)
      × (HasMask m new ↔ ((m ≡ mask) ⊎ HasMask m domain_masks))
unfolding initialize_task_cpus
initialize_task_cpus_lem domain_masks new chars mask m t h nm =
    let (ne, x) = finish_cpus-Extends domain_masks new _ mask t h in
    (
      ne,
      x.added,
      x.table,
      x.size,
      (x.only m nm, λ was. elim was [ inl is ↦ rw is x.added | inr listed ↦ x.kept m nm listed ]),
    )
