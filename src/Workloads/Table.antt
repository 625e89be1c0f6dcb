-- ===== src/Workloads/Table.antt =====
-- Names, numbers and bounds of the workloads.
use chronos_project.Base.{
  Bool-cases, ℕ, ◌≤◌, ◌≡◌, refl, sym, ap, ◌∙◌, ◌⊎◌, inl, inr, Bool, true, false, ◌||◌, some, List,
  [], ◌∷◌, arith,
}
use chronos_project.Base.Int.{ℤ, pos, negsuc, ◌≤ℤ◌}
use chronos_project.Group.{clamp_wss}
use chronos_project.Job.{has_flag}
use chronos_project.Options.{eq_ℤ}
use chronos_project.Workloads.{
  cap_group_wss, Workload, WorkloadListing, workloads, workload_wss_valid_bounds, find_workload_in,
  find_workload, workload, get_workload_struct_in, get_workload_struct, get_workload_name_in,
  get_workload_name,
}
use mathlib.Core.Path.{subst}
use Prim.Native.String.{String}
use text.Mathlib.Text.{◌==◌ as str_eq}
use text.Mathlib.TextEquality.{eq_iff}

-- The table has a workload under a name and a number.
abbrev pub Lists : ℤ → Workload → List WorkloadListing → Type 0
Lists mask w [] = ⊥
Lists mask w (l ∷ table) = ((l.0 ≡ mask) × (l.1 ≡ w)) ⊎ Lists mask w table

-- Some workload of a table has this name.
unfoldable pub has_name : List WorkloadListing → String → Bool
has_name [] name = false
has_name (l ∷ table) name = str_eq name l.1.name || has_name table name

skip :
    (l : WorkloadListing) (table : List WorkloadListing) (name : String)
    → str_eq name l.1.name ≡ false
    → (find_workload_in (l ∷ table) name ≡ find_workload_in table name)
      × (has_name (l ∷ table) name ≡ has_name table name)
unfolding find_workload_in has_name
skip l table name other = (ground (arith, other), ground (arith, other))

find_in-Lists :
    (table : List WorkloadListing) (name : String)
    → ((w : Workload) × Lists (find_workload_in table name) w table × (w.name ≡ name))
      ⊎ ((find_workload_in table name ≡ negsuc 0) × (has_name table name ≡ false))
unfolding find_workload_in has_name
find_in-Lists [] name = inr (refl, refl)
find_in-Lists (l ∷ table) name = elim (Bool-cases (str_eq name l.1.name)) [
  | inl same ↦ inl (l.1, inl (ground (arith, same), refl), sym ((eq_iff name l.1.name).0 same))
  | inr other ↦
      let (e, f) = skip l table name other in
      elim (find_in-Lists table name) [
        | inl (w, listed, named) ↦ inl (w, inr (subst (λ m. Lists m w table) (sym e) listed), named)
        | inr (minus, unnamed) ↦ inr (e ∙ minus, f ∙ unnamed)
      ]
]

listed-struct :
    (mask : ℤ) (w : Workload)
    → Lists mask w workloads
    → (get_workload_struct mask ≡ workload w) × (get_workload_name mask ≡ some w.name)
unfolding get_workload_struct get_workload_struct_in get_workload_name get_workload_name_in
    workload_wss_valid_bounds
listed-struct mask w (inl (e, f)) = rw (← e, ← f) (refl, refl)
listed-struct mask w (inr (inl (e, f))) = rw (← e, ← f) (refl, refl)
listed-struct mask w (inr (inr (inl (e, f)))) = rw (← e, ← f) (refl, refl)
listed-struct mask w (inr (inr (inr (inl (e, f))))) = rw (← e, ← f) (refl, refl)
listed-struct mask w (inr (inr (inr (inr (inl (e, f)))))) = rw (← e, ← f) (refl, refl)
listed-struct mask w (inr (inr (inr (inr (inr (inl (e, f))))))) = rw (← e, ← f) (refl, refl)
listed-struct mask w (inr (inr (inr (inr (inr (inr m)))))) = absurd m

-- The number that `find_workload` returns for a name is looked up as a workload of that name, with
-- bounds that are accepted; or it is -1 and no workload has the name.
pub find_workload_lem :
    (name : String)
    → ((w : Workload) × (get_workload_struct (find_workload name) ≡ workload w)
        × (w.name ≡ name)
        × (get_workload_name (find_workload name) ≡ some name))
      ⊎ ((find_workload name ≡ negsuc 0) × (has_name workloads name ≡ false))
unfolding find_workload
find_workload_lem name = elim (find_in-Lists workloads name) [
  | inl (w, listed, named) ↦
      let (looked_up, name_of) = listed-struct (find_workload_in workloads name) w listed in
      inl (w, looked_up, named, name_of ∙ ap some named)
  | inr unnamed ↦ inr unnamed
]

struct_in-Lists :
    (table : List WorkloadListing) (mask : ℤ) (w : Workload)
    → get_workload_struct_in table mask ≡ workload w
    → (number : ℤ) × Lists number w table
unfolding get_workload_struct_in
struct_in-Lists [] mask w h = cc
struct_in-Lists (l ∷ table) mask w h = elim (Bool-cases (eq_ℤ mask l.0)) [
  | inl same ↦ (l.0, inl (refl, ground (arith, same, h)))
  | inr other ↦
      let (number, m) = struct_in-Lists table mask w (ground (arith, other, h)) in (number, inr m)
]

-- The bounds that the workloads with group memory have.
abbrev AreBounds : Workload → Type 0
AreBounds w =
    (65_536 ≤ w.min_group_wss)
    × (w.min_group_wss ≤ w.max_group_wss)
    × (w.max_group_wss ≤ 10_485_760)

listed-AreBounds :
    (mask : ℤ) (w : Workload)
    → Lists mask w workloads
    → has_flag w.capabilities cap_group_wss ≡ true
    → AreBounds w
listed-AreBounds mask w (inl (e, f)) h = cc (rw (← f) at h)
listed-AreBounds mask w (inr (inl (e, f))) h = rw (← f) (omega arith)
listed-AreBounds mask w (inr (inr (inl (e, f)))) h = rw (← f) (omega arith)
listed-AreBounds mask w (inr (inr (inr (inl (e, f))))) h = rw (← f) (omega arith)
listed-AreBounds mask w (inr (inr (inr (inr (inl (e, f)))))) h = rw (← f) (omega arith)
listed-AreBounds mask w (inr (inr (inr (inr (inr (inl (e, f))))))) h = rw (← f) (omega arith)
listed-AreBounds mask w (inr (inr (inr (inr (inr (inr m)))))) h = absurd m

clamp_wss-bounds :
    (low high : ℕ) (wss : ℤ)
    → low ≤ high
    → (pos low ≤ℤ clamp_wss true low high wss) × (clamp_wss true low high wss ≤ℤ pos high)
unfolding clamp_wss
clamp_wss-bounds low high wss h = ground (arith, h)

-- Any workload that is looked up and works on group memory gives a group at least 64 kilobytes, and
-- at most 10 megabytes, whatever the task set asks for.
pub group_memory_bounds :
    (mask wss : ℤ) (w : Workload)
    → get_workload_struct mask ≡ workload w
    → has_flag w.capabilities cap_group_wss ≡ true
    → let size = clamp_wss true w.min_group_wss w.max_group_wss wss in
      (pos 65_536 ≤ℤ size) × (size ≤ℤ pos 10_485_760)
group_memory_bounds mask wss w h capable =
    let (number, listed) = struct_in-Lists workloads mask w (unfold get_workload_struct in h) in
    let (low, order, high) = listed-AreBounds number w listed capable in
    let (above, below) = clamp_wss-bounds w.min_group_wss w.max_group_wss wss order in
    (omega (arith, above, low), omega (arith, below, high))
