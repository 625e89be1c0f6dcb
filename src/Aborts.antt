-- ===== src/Aborts.antt =====
-- The abort device of libchronos/chronos_aborts.c: mapping the memory shared with the kernel and the
-- pointers into it. What the system answers is an argument, and each system call is an event.
mod Tests
pub mod Lifetime
pub mod Pointers
use chronos_project.Base.{
  ltb, if◌then◌else◌, ℕ, zero, suc, ◌+◌, ◌*◌, ◌%◌, ◌^◌, Bool, true, false, ◌||◌, Option, none, some,
  List, [], ◌∷◌, ◌++◌,
}
use chronos_project.Base.Int.{ℤ, pos, negsuc, ◌+ℤ◌, ◌-ℤ◌, ltb_ℤ, leb_ℤ, to_u64}

-- `struct chronos_aborts_data`.
pub record AbortsData : Type 0 where
  pub mmap_pointer : ℕ
  pub fd : ℤ
  pub mapsize : ℕ
  pub initialized : Bool

pub data SystemCall : Type 0 where
  open_device : SystemCall
  modprobe : SystemCall
  mknod : SystemCall
  map_memory : (size : ℕ) → SystemCall
  unmap_memory : (address size : ℕ) → SystemCall
  close_file : ℤ → SystemCall

-- What the system answers: the page size, the number read from pid_max, `none` where that fails,
-- the results of the two attempts to open the device, and the address of the mapping, `none` where
-- that fails.
pub record System : Type 0 where
  pub pagesize : ℕ
  pub proc_pid_max : Option ℤ
  pub first_fd : ℤ
  pub second_fd : ℤ
  pub mapping : Option ℕ

abbrev pub min_abortable_pid : ℤ
min_abortable_pid = pos 1

abbrev pub default_pid_max : ℤ
default_pid_max = pos 32_768

unfoldable pub read_pid_max : System → ℤ
read_pid_max s = elim s.proc_pid_max [ none ↦ default_pid_max | some n ↦ n ]

-- The loop that finds the number of pages, as a power of two. The product is an `unsigned int`, and
-- the comparison one of `size_t`. After `rounds` more rounds the shift overflows, which is `none`.
unfoldable pub page_order : (rounds pageorder pagesize bytes : ℕ) → Option ℕ
page_order zero pageorder pagesize bytes = none
page_order (suc rounds) pageorder pagesize bytes =
    let more = page_order rounds (pageorder + 1) pagesize bytes in
    if ltb ((2 ^ pageorder * pagesize) % 2 ^ 32) bytes then more else some pageorder

-- `init_aborts` with a descriptor that was opened, for pids up to `pid_max`.
unfoldable pub map_aborts :
    System → (pid_max fd : ℤ) → AbortsData → Option (ℤ × AbortsData × List SystemCall)
map_aborts s pid_max fd adata =
    elim (page_order 31 0 s.pagesize (to_u64 (pid_max -ℤ min_abortable_pid +ℤ pos 1))) [
      | none ↦ none
      | some pageorder ↦
          let mapsize = (2 ^ pageorder * s.pagesize) % 2 ^ 32 in
          elim s.mapping [
            | none ↦ some (negsuc 0, adata, map_memory mapsize ∷ close_file fd ∷ [])
            | some mmapptr ↦ some (
              pos 0,
              record { mmap_pointer = mmapptr; fd = fd; mapsize = mapsize; initialized = true },
              map_memory mapsize ∷ [],
            )
          ]
    ]

-- The result of a function: what it returns, the cached `pid_max`, the struct, and its calls.
abbrev pub Result : Type 0
Result = ℤ × ℤ × AbortsData × List SystemCall

-- `none` as the result is the undefined shift. A null pointer for `adata` is refused at once, so
-- only its other values are modelled.
unfoldable pub init_aborts : System → (pid_max : ℤ) → AbortsData → Option Result
init_aborts s old_pid_max adata =
    let pid_max = read_pid_max s in
    let again = open_device ∷ modprobe ∷ mknod ∷ open_device ∷ [] in
    if leb_ℤ (pos 0) s.first_fd
    then elim (map_aborts s pid_max s.first_fd adata) [
      | none ↦ none
      | some (ret, adata', calls) ↦ some (ret, pid_max, adata', open_device ∷ calls)
    ]
    else if leb_ℤ (pos 0) s.second_fd
    then elim (map_aborts s pid_max s.second_fd adata) [
      | none ↦ none
      | some (ret, adata', calls) ↦ some (ret, pid_max, adata', again ++ calls)
    ]
    else some (negsuc 0, pid_max, adata, again)

unfoldable pub cleanup_aborts : (pid_max : ℤ) → AbortsData → Result
cleanup_aborts pid_max adata =
    if adata.initialized
    then (
      pos 0,
      pos 0,
      record adata { initialized = false },
      unmap_memory adata.mmap_pointer adata.mapsize ∷ close_file adata.fd ∷ [],
    )
    else (negsuc 0, pid_max, adata, [])

-- The address of a thread's byte; `none` is the null pointer.
unfoldable pub get_abort_ptr_tid : AbortsData → (tid : ℤ) → Option ℤ
get_abort_ptr_tid adata tid =
    if adata.initialized then some (pos adata.mmap_pointer +ℤ tid -ℤ min_abortable_pid) else none

-- `tid` is the calling thread's, from the kernel.
unfoldable pub get_abort_ptr : (pid_max : ℤ) → AbortsData → (tid : ℤ) → Option ℤ
get_abort_ptr pid_max adata tid =
    if ltb_ℤ pid_max tid || ltb_ℤ tid min_abortable_pid then none else get_abort_ptr_tid adata tid
