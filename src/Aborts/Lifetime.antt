-- ===== src/Aborts/Lifetime.antt =====
-- From init_aborts to cleanup_aborts.
use chronos_project.Aborts.{
  AbortsData, SystemCall, open_device, modprobe, mknod, map_memory, unmap_memory, close_file,
  System, min_abortable_pid, read_pid_max, map_aborts, Result, init_aborts, cleanup_aborts,
  get_abort_ptr_tid, get_abort_ptr,
}
use chronos_project.Aborts.Pointers.{page_order-covers, pid_bytes}
use chronos_project.Base.{
  if◌then◌else◌, Bool-cases, Option-cases, ℕ, ◌-◌, ◌*◌, ◌%◌, ◌^◌, ◌≤◌, ◌<◌, ◌≡◌, refl, sym, ap, ◌∙◌,
  ◌⊎◌, inl, inr, Bool, true, false, ◌||◌, Option, none, some, List, [], ◌∷◌, arith,
}
use chronos_project.Base.Int.{ℤ, pos, negsuc, ◌+ℤ◌, ◌-ℤ◌, ◌≤ℤ◌, ltb_ℤ, leb_ℤ, to_u64}

-- The files that calls close.
unfoldable pub closed : List SystemCall → List ℤ
closed [] = []
closed (c ∷ cs) =
    let rest = closed cs in
    elim c [
      | close_file fd ↦ fd ∷ rest
      | open_device ↦ rest
      | modprobe ↦ rest
      | mknod ↦ rest
      | map_memory n ↦ rest
      | unmap_memory a n ↦ rest
    ]

-- The file that an attempt opens.
unfoldable pub opened : System → List ℤ
opened s =
    if leb_ℤ (pos 0) s.first_fd
    then s.first_fd ∷ []
    else if leb_ℤ (pos 0) s.second_fd
    then s.second_fd ∷ []
    else []

-- How `init_aborts` can end: it returns 0 with the opened file in the struct, or -1 with the struct
-- as it was and no file open.
unfoldable pub EndsWell : System → AbortsData → Result → Type 0
EndsWell s old (ret, pid_max, adata, calls) =
    ((ret ≡ pos 0) × (adata.initialized ≡ true) × (closed calls ≡ []) × (opened s ≡ adata.fd ∷ []))
    ⊎ ((ret ≡ negsuc 0) × (adata ≡ old) × (closed calls ≡ opened s))

map_ends :
    (s : System) (pid_max fd : ℤ) (old : AbortsData)
    → 2 ≤ s.pagesize
    → s.pagesize < 2 ^ 31
    → pos 1 ≤ℤ pid_max
    → pid_max ≤ℤ pos (2 ^ 31 - 1)
    → (ret : ℤ) × (adata : AbortsData) × (size : ℕ) × (rest : List SystemCall) × (map_aborts s
          pid_max fd old
        ≡ some (ret, adata, map_memory size ∷ rest))
      × (((ret ≡ pos 0) × (adata.initialized ≡ true) × (rest ≡ []) × (adata.fd ≡ fd))
          ⊎ ((ret ≡ negsuc 0) × (adata ≡ old) × (rest ≡ close_file fd ∷ [])))
unfolding map_aborts
map_ends s pid_max fd old hp hq low high =
    let bytes = to_u64 (pid_max -ℤ min_abortable_pid +ℤ pos 1) in
    let (few, counted) = pid_bytes pid_max low high in
    let (k, order, covers) =
      page_order-covers 30 0 s.pagesize bytes few (omega (arith, hq)) (omega (arith, few, hp)) in
    let mapsize = (2 ^ k * s.pagesize) % 2 ^ 32 in
    elim (Option-cases s.mapping) [
      | inl failed ↦ (
        negsuc 0,
        old,
        mapsize,
        close_file fd ∷ [],
        rw (map_aborts, order, failed) refl,
        inr (refl, refl, refl),
      )
      | inr (p, mapped) ↦
          let adata : AbortsData = record {
            mmap_pointer = p;
            fd = fd;
            mapsize = mapsize;
            initialized = true;
          } in
          (
            pos 0,
            adata,
            mapsize,
            [],
            rw (map_aborts, order, mapped) refl,
            inl (refl, refl, refl, refl),
          )
    ]

ends_well :
    (s : System) (old : AbortsData) (fd ret pid_max : ℤ) (adata : AbortsData)
    (rest calls : List SystemCall)
    → opened s ≡ fd ∷ []
    → closed calls ≡ closed rest
    → ((ret ≡ pos 0) × (adata.initialized ≡ true) × (rest ≡ []) × (adata.fd ≡ fd))
      ⊎ ((ret ≡ negsuc 0) × (adata ≡ old) × (rest ≡ close_file fd ∷ []))
    → EndsWell s old (ret, pid_max, adata, calls)
unfolding EndsWell closed
ends_well s old fd ret pid_max adata rest calls o c (inl (z, ready, e, f)) =
    inl (z, ready, c ∙ ap closed e, o ∙ ap (λ x. x ∷ []) (sym f))
ends_well s old fd ret pid_max adata rest calls o c (inr (z, same, e)) =
    inr (z, same, c ∙ ap closed e ∙ sym o)

-- On a system whose page size is at least 2 and below 2^31 and whose pids are positive and below
-- 2^31, `init_aborts` always ends; it returns 0 with the opened file in the struct and nothing
-- closed, or -1 with the struct as it was and every file that it opened closed again.
pub init_aborts_ends :
    (s : System) (old_pid_max : ℤ) (old : AbortsData)
    → 2 ≤ s.pagesize
    → s.pagesize < 2 ^ 31
    → pos 1 ≤ℤ read_pid_max s
    → read_pid_max s ≤ℤ pos (2 ^ 31 - 1)
    → (x : Result) × (init_aborts s old_pid_max old ≡ some x) × EndsWell s old x
unfolding init_aborts EndsWell opened closed
init_aborts_ends s old_pid_max old hp hq low high =
    let pid_max = read_pid_max s in
    elim (Bool-cases (leb_ℤ (pos 0) s.first_fd)) [
      | inl first ↦
          let (ret, adata, size, rest, e, how) = map_ends s pid_max s.first_fd old hp hq low high in
          (
            (ret, pid_max, adata, open_device ∷ map_memory size ∷ rest),
            rw (init_aborts, first, e) refl,
            ends_well s old s.first_fd ret pid_max adata rest (open_device ∷ map_memory size ∷ rest)
                (unfold opened in rw first refl) (unfold closed in refl) how,
          )
      | inr refused ↦ elim (Bool-cases (leb_ℤ (pos 0) s.second_fd)) [
        | inl second ↦
            let (ret, adata, size, rest, e, how) =
              map_ends s pid_max s.second_fd old hp hq low high in
            (
              (
                ret,
                pid_max,
                adata,
                open_device ∷ modprobe ∷ mknod ∷ open_device ∷ map_memory size ∷ rest,
              ),
              rw (init_aborts, refused, second, e) refl,
              ends_well s old s.second_fd ret pid_max adata rest
                  (open_device ∷ modprobe ∷ mknod ∷ open_device ∷ map_memory size ∷ rest)
                  (unfold opened in rw (refused, second) refl) (unfold closed in refl) how,
            )
        | inr again ↦ (
          (negsuc 0, pid_max, old, open_device ∷ modprobe ∷ mknod ∷ open_device ∷ []),
          rw (init_aborts, refused, again) refl,
          inr (refl, refl, rw (refused, again) refl),
        )
      ]
    ]

either_none : (b : Bool) → ◌≡◌ {A = Option ℤ} (if b then none else none) none
either_none true = refl
either_none false = refl

-- After a successful `init_aborts`, `cleanup_aborts` returns 0 and closes exactly the file that was
-- opened; then no thread gets a pointer and a second cleanup is refused with no call.
pub cleanup_aborts_lem :
    (s : System) (old : AbortsData) (x : Result) (tid : ℤ)
    → EndsWell s old x
    → x.0 ≡ pos 0
    → let (ret, pid_max, adata, calls) = cleanup_aborts x.1 x.2 in
      (ret ≡ pos 0)
      × (closed calls ≡ opened s)
      × (get_abort_ptr pid_max adata tid ≡ none)
      × (cleanup_aborts pid_max adata ≡ (negsuc 0, pid_max, adata, []))
unfolding EndsWell cleanup_aborts closed get_abort_ptr get_abort_ptr_tid
cleanup_aborts_lem s old x tid (inl (ok', ready, none_closed, file)) ok =
    rw (ready, cleanup_aborts)
      (refl, sym file, either_none (ltb_ℤ (pos 0) tid || ltb_ℤ tid min_abortable_pid), refl)
cleanup_aborts_lem s old x tid (inr (failed, same, all_closed)) ok =
    let bad : negsuc 0 ≡ pos 0 = sym failed ∙ ok in cc
