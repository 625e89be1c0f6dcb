-- ===== src/Arrays/Bounds.antt =====
-- The array workloads stay inside their array.
use chronos_project.Arrays.{
  ArrayWalkData, array_walk_init_group, array_bytes, array_walk_init_task, array_random_init_task,
  next_forwards, next_backwards, next_random, visit, do_work, array_walk_do_work,
  array_backwards_do_work, array_random_do_work,
}
use chronos_project.Base.{
  length, get_elem?, set, length-set, ℕ, zero, suc, ◌+◌, ◌*◌, ◌%◌, ◌^◌, ◌≤◌, ◌<◌, ◌≡◌, refl, ap,
  ◌∙◌, true, some, List, [], ◌∷◌, arith,
}
use chronos_project.Base.Int.{ℤ, pos_part}
use chronos_project.Group.{clamp_wss}
use chronos_project.Random.{init_lfsrandom32}
use native.Mathlib.Nat.{mod-lt}

-- The next element is one of the array's.
pub record IsInBounds (d : ArrayWalkData) : Type 0 where
  pub next : d.next_element < d.num_elements
  pub size : d.num_elements ≤ length d.array

-- A way to the next element that stays in bounds and leaves the array.
abbrev StaysInBounds : (ArrayWalkData → ArrayWalkData) → Type 0
StaysInBounds next =
    (d : ArrayWalkData)
    → 0 < d.num_elements
    → ((next d).next_element < d.num_elements)
      × ((next d).num_elements ≡ d.num_elements)
      × ((next d).array ≡ d.array)

forwards-StaysInBounds : StaysInBounds next_forwards
unfolding next_forwards
forwards-StaysInBounds d h = (mod-lt _ h, refl, refl)

backwards-StaysInBounds : StaysInBounds next_backwards
unfolding next_backwards
backwards-StaysInBounds d h = (mod-lt _ h, refl, refl)

random-StaysInBounds : StaysInBounds next_random
unfolding next_random
random-StaysInBounds d h = (mod-lt _ h, refl, refl)

get_elem?-some {ℓ} :
    {A : Type ℓ} (xs : List A) (i : ℕ) → i < length xs → (x : A) × (get_elem? xs i ≡ some x)
get_elem?-some [] i h = absurd (omega arith)
get_elem?-some (x ∷ xs) zero h = (x, refl)
get_elem?-some (x ∷ xs) (suc i) h = get_elem?-some xs i (omega arith)

module _ (next : ArrayWalkData → ArrayWalkData) (stays : StaysInBounds next) where
  visit-IsInBounds :
      (d : ArrayWalkData)
      → IsInBounds d
      → (d' : ArrayWalkData) × (visit next d ≡ some d')
        × IsInBounds d'
        × (length d'.array ≡ length d.array)
  unfolding visit
  visit-IsInBounds d b =
      let (x, here) = get_elem?-some d.array d.next_element (omega (arith, b.next, b.size)) in
      let written = record d { array = set d.array d.next_element ((x + 1) % 2 ^ 32) } in
      let (in_bounds, same_num, same_array) = stays written (omega (arith, b.next)) in
      let same_length : length (next written).array ≡ length d.array =
        ap length same_array ∙ length-set d.array d.next_element ((x + 1) % 2 ^ 32) in
      (
        next written,
        unfold visit in ground (arith, here, b.next),
        record {
          next = omega (arith, in_bounds, same_num);
          size = omega (arith, same_num, same_length, b.size);
        },
        same_length,
      )

  do_work-IsInBounds :
      (iterations : ℕ) (d : ArrayWalkData)
      → IsInBounds d
      → (d' : ArrayWalkData) × (do_work next iterations d ≡ some d') × IsInBounds d'
  unfolding do_work
  do_work-IsInBounds zero d b = (d, refl, b)
  do_work-IsInBounds (suc iterations) d b =
      let (d', here, b', _) = visit-IsInBounds d b in
      let (d'', later, b'') = do_work-IsInBounds iterations d' b' in
      (d'', rw (do_work, here) later, b'')

-- Whatever size the task set gives to a group, the size that `init_group` makes of it, for a
-- workload with group memory of at least 4 bytes, gives an array that each of the three workloads
-- only accesses in bounds, whatever the number of iterations, if `malloc` returns as many bytes as
-- it is asked for.
pub arrays_in_bounds :
    (wss : ℤ) (low high : ℕ) (contents : List ℕ) (old_rand seed iterations : ℕ)
    → 4 ≤ low
    → low ≤ high
    → let size = pos_part (clamp_wss true low high wss) in
      array_bytes size ≤ 4 * length contents
      → let group_data = array_walk_init_group contents old_rand size in
        ((d : ArrayWalkData) × (array_walk_do_work iterations (array_walk_init_task group_data)
            ≡ some d))
        × ((d : ArrayWalkData) × (array_backwards_do_work iterations
                (array_walk_init_task group_data)
              ≡ some d))
        × ((d : ArrayWalkData) × (array_random_do_work iterations
                (array_random_init_task seed group_data)
              ≡ some d))
unfolding array_walk_init_group array_bytes array_walk_do_work array_backwards_do_work
    array_random_do_work array_walk_init_task array_random_init_task
arrays_in_bounds wss low high contents old_rand seed iterations hl hh room =
    let size = pos_part (clamp_wss true low high wss) in
    let big : 4 ≤ size = unfold clamp_wss in ground (arith, hl, hh) in
    let in_bounds : (r : ℕ) → IsInBounds (array_walk_init_group contents r size) = λ r.
      unfold array_walk_init_group array_bytes in
      record { next = omega (arith, big); size = omega (arith, room) } in
    let group_data = array_walk_init_group contents old_rand size in
    let (w, walks, _) =
      do_work-IsInBounds next_forwards forwards-StaysInBounds iterations group_data
        (in_bounds old_rand) in
    let (b, walks_back, _) =
      do_work-IsInBounds next_backwards backwards-StaysInBounds iterations group_data
        (in_bounds old_rand) in
    let (v, visits, _) =
      do_work-IsInBounds next_random random-StaysInBounds iterations
        (array_walk_init_group contents (init_lfsrandom32 seed) size)
        (in_bounds (init_lfsrandom32 seed)) in
    ((w, walks), (b, walks_back), (v, visits))
