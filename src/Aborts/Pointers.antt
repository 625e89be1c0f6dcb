-- ===== src/Aborts/Pointers.antt =====
-- Pointers into the mapped memory.
use chronos_project.Aborts.{
  AbortsData, SystemCall, open_device, modprobe, mknod, System, min_abortable_pid, read_pid_max,
  page_order, map_aborts, Result, init_aborts, get_abort_ptr_tid, get_abort_ptr,
}
use chronos_project.Base.{
  ltb, ltb→lt, Bool-cases, Option-cases, ℕ, zero, suc, ◌+◌, ◌-◌, ◌*◌, ◌%◌, ◌^◌, ◌≤◌, ◌<◌, ◌≡◌, refl,
  ap, ◌∙◌, ◌≢◌, inl, inr, true, false, some, List, ◌∷◌, arith,
}
use chronos_project.Base.Int.{
  ℤ, pos, negsuc, pos_part, neg_part, ◌+ℤ◌, ◌-ℤ◌, ◌≤ℤ◌, ◌<ℤ◌, leb_ℤ, to_u64, eq_of_parts, int_laws,
}
use mathlib.Core.Path.{subst}
use mathlib.Core.Option.{some-injective}
use native.Mathlib.Nat.{two-pow-succ}

double_size :
    (order pagesize : ℕ) → 2 ^ (order + 1) * pagesize ≡ 2 ^ order * pagesize + 2 ^ order * pagesize
double_size order pagesize =
    let next : order + 1 ≡ suc order = omega arith in
    let twice : 2 ^ suc order ≡ 2 ^ order + 2 ^ order = two-pow-succ order in
    rw (next, twice) (omega arith)

double_room : (size rounds : ℕ) → size * 2 ^ suc rounds ≡ (size + size) * 2 ^ rounds
double_room size rounds =
    let twice : 2 ^ suc rounds ≡ 2 ^ rounds + 2 ^ rounds = two-pow-succ rounds in
    rw twice (omega arith)

-- The loop ends with a size that covers the bytes.
pub page_order-covers :
    (rounds order pagesize bytes : ℕ)
    → bytes < 2 ^ 31
    → 2 ^ order * pagesize < 2 ^ 32
    → bytes ≤ 2 ^ order * pagesize * 2 ^ rounds
    → (k : ℕ) × (page_order (suc rounds) order pagesize bytes ≡ some k)
      × (bytes ≤ (2 ^ k * pagesize) % 2 ^ 32)
unfolding page_order
page_order-covers zero order pagesize bytes hb fits room =
    let exact : (2 ^ order * pagesize) % 2 ^ 32 ≡ 2 ^ order * pagesize = omega (arith, fits) in
    let enough : ltb ((2 ^ order * pagesize) % 2 ^ 32) bytes ≡ false =
      ground (arith, exact, room) in
    (order, rw enough refl, omega (arith, exact, room))
page_order-covers (suc rounds) order pagesize bytes hb fits room =
    let size = 2 ^ order * pagesize in
    let exact : size % 2 ^ 32 ≡ size = omega (arith, fits) in
    elim (Bool-cases (ltb (size % 2 ^ 32) bytes)) [
      | inl more ↦
          let below = ltb→lt (size % 2 ^ 32) bytes more in
          let double : 2 ^ (order + 1) * pagesize ≡ size + size = double_size order pagesize in
          let (k, found_order, covers) =
            page_order-covers rounds (order + 1) pagesize bytes hb
              (omega (arith, double, below, exact, hb))
              (rw double (omega (arith, room, double_room size rounds))) in
          (k, rw more found_order, covers)
      | inr enough ↦ (order, rw enough refl, ground (arith, enough))
    ]

-- The struct describes a mapping with a byte for every pid.
pub record IsMapped (pid_max : ℤ) (adata : AbortsData) : Type 0 where
  pub ready : adata.initialized ≡ true
  pub size : pid_max ≤ℤ pos adata.mapsize

pub pid_bytes :
    (n : ℤ)
    → pos 1 ≤ℤ n
    → n ≤ℤ pos (2 ^ 31 - 1)
    → (to_u64 (n -ℤ min_abortable_pid +ℤ pos 1) < 2 ^ 31)
      × (n ≤ℤ pos (to_u64 (n -ℤ min_abortable_pid +ℤ pos 1)))
pid_bytes n low high =
    let same : n -ℤ min_abortable_pid +ℤ pos 1 ≡ n = eq_of_parts _ _ (omega int_laws) in
    rw same (ground (arith, low, high))

map_aborts-IsMapped :
    (s : System) (pid_max fd : ℤ) (old : AbortsData) (x : ℤ × AbortsData × List SystemCall)
    → 2 ≤ s.pagesize
    → s.pagesize < 2 ^ 31
    → pos 1 ≤ℤ pid_max
    → pid_max ≤ℤ pos (2 ^ 31 - 1)
    → map_aborts s pid_max fd old ≡ some x
    → x.0 ≡ pos 0
    → IsMapped pid_max x.1
unfolding map_aborts
map_aborts-IsMapped s pid_max fd old x hp hq low high h ok =
    let bytes = to_u64 (pid_max -ℤ min_abortable_pid +ℤ pos 1) in
    let (few, counted) = pid_bytes pid_max low high in
    let (k, order, covers) =
      page_order-covers 30 0 s.pagesize bytes few (omega (arith, hq)) (omega (arith, few, hp)) in
    elim (Option-cases s.mapping) [
      | inl failed ↦
          let e = some-injective _ x (rw (map_aborts, order, failed) at h) in
          let bad : negsuc 0 ≡ pos 0 = ap (λ (y : ℤ × AbortsData × List SystemCall). y.0) e ∙ ok in
          cc
      | inr (p, mapped) ↦
          let e = some-injective _ x (rw (map_aborts, order, mapped) at h) in
          subst (λ x. IsMapped pid_max x.1) e
            (record { ready = refl; size = omega (arith, covers, counted) })
    ]

init_aborts-IsMapped :
    (s : System) (old_pid_max : ℤ) (old : AbortsData) (x : Result)
    → 2 ≤ s.pagesize
    → s.pagesize < 2 ^ 31
    → pos 1 ≤ℤ read_pid_max s
    → read_pid_max s ≤ℤ pos (2 ^ 31 - 1)
    → init_aborts s old_pid_max old ≡ some x
    → x.0 ≡ pos 0
    → IsMapped x.1 x.2
unfolding init_aborts
init_aborts-IsMapped s old_pid_max old x hp hq low high h ok =
    elim (Bool-cases (leb_ℤ (pos 0) s.first_fd)) [
      | inl got_file ↦ elim (Option-cases (map_aborts s (read_pid_max s) s.first_fd old)) [
        | inl undefined ↦ cc (rw (init_aborts, got_file, undefined) at h)
        | inr (y, e) ↦
            through y (open_device ∷ y.2) (map_aborts-IsMapped s _ _ old y hp hq low high e)
              (rw (init_aborts, got_file, e) at h)
      ]
      | inr refused ↦ elim (Bool-cases (leb_ℤ (pos 0) s.second_fd)) [
        | inl got_file ↦ elim (Option-cases (map_aborts s (read_pid_max s) s.second_fd old)) [
          | inl undefined ↦ cc (rw (init_aborts, refused, got_file, undefined) at h)
          | inr (y, e) ↦
              through y (open_device ∷ modprobe ∷ mknod ∷ open_device ∷ y.2)
                (map_aborts-IsMapped s _ _ old y hp hq low high e)
                (rw (init_aborts, refused, got_file, e) at h)
        ]
        | inr again ↦
            let e = some-injective _ x (rw (init_aborts, refused, again) at h) in
            let bad : negsuc 0 ≡ pos 0 = ap (λ (r : Result). r.0) e ∙ ok in cc
      ]
    ]
  where
    through :
        (y : ℤ × AbortsData × List SystemCall) (calls : List SystemCall)
        → (y.0 ≡ pos 0 → IsMapped (read_pid_max s) y.1)
        → some (y.0, read_pid_max s, y.1, calls) ≡ some x
        → IsMapped x.1 x.2
    through y calls good e =
        let same = some-injective _ x e in
        subst (λ (r : Result). IsMapped r.1 r.2) same (good (ap (λ (r : Result). r.0) same ∙ ok))

offset_injective :
    (base t u : ℤ) → base +ℤ t -ℤ min_abortable_pid ≡ base +ℤ u -ℤ min_abortable_pid → t ≡ u
offset_injective base t u e =
    let p = ap pos_part e in let n = ap neg_part e in eq_of_parts t u (omega (int_laws, p, n))

ptr_inside :
    (pid_max tid : ℤ) (adata : AbortsData)
    → IsMapped pid_max adata
    → pos 1 ≤ℤ tid
    → tid ≤ℤ pid_max
    → get_abort_ptr pid_max adata tid ≡ some (pos adata.mmap_pointer +ℤ tid -ℤ min_abortable_pid)
unfolding get_abort_ptr get_abort_ptr_tid
ptr_inside pid_max tid adata m low high = ground (arith, m.ready, low, high)

-- If `init_aborts` succeeds, on a system whose page size is at least 2 and below 2^31 and whose
-- pids are positive and below 2^31, then every thread with a pid up to the greatest one gets a
-- pointer into the mapped memory, and different threads get different pointers.
pub abort_ptrs_mapped :
    (s : System) (old_pid_max pid_max : ℤ) (old adata : AbortsData) (calls : List SystemCall)
    (tid other : ℤ)
    → 2 ≤ s.pagesize
    → s.pagesize < 2 ^ 31
    → pos 1 ≤ℤ read_pid_max s
    → read_pid_max s ≤ℤ pos (2 ^ 31 - 1)
    → init_aborts s old_pid_max old ≡ some (pos 0, pid_max, adata, calls)
    → pos 1 ≤ℤ tid
    → tid ≤ℤ pid_max
    → pos 1 ≤ℤ other
    → other ≤ℤ pid_max
    → tid ≢ other
    → (p : ℤ) × (q : ℤ) × (get_abort_ptr pid_max adata tid ≡ some p)
      × (get_abort_ptr pid_max adata other ≡ some q)
      × (pos adata.mmap_pointer ≤ℤ p)
      × (p <ℤ pos (adata.mmap_pointer + adata.mapsize))
      × (p ≢ q)
abort_ptrs_mapped s old_pid_max pid_max old adata calls tid other hp hq h1 h2 h ht hm ht' hm' ne =
    let m = init_aborts-IsMapped s old_pid_max old _ hp hq h1 h2 h refl in
    let base = pos adata.mmap_pointer in
    (
      base +ℤ tid -ℤ min_abortable_pid,
      base +ℤ other -ℤ min_abortable_pid,
      ptr_inside pid_max tid adata m ht hm,
      ptr_inside pid_max other adata m ht' hm',
      omega (int_laws, ht),
      omega (int_laws, hm, m.size),
      λ same. ne (offset_injective base tid other same),
    )
