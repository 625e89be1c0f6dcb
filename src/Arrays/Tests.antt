-- ===== src/Arrays/Tests.antt =====
-- Runs of the array workloads.
use chronos_project.Arrays.{
  ArrayWalkData, array_walk_init_group, array_bytes, array_walk_init_task, array_random_init_task,
  next_forwards, visit, do_work, array_walk_do_work, array_backwards_do_work, array_random_do_work,
}
use chronos_project.Arrays.Bounds.{IsInBounds, arrays_in_bounds}
use chronos_project.Base.{replicate, ℕ, ◌≡◌, refl, true, some, List, ◌∷◌, ◌++◌, arith}
use chronos_project.Base.Int.{pos, pos_part}
use chronos_project.Group.{clamp_wss}

-- 16 elements and the 64 bytes more that are asked for.
abbrev memory : List ℕ
memory = replicate 32 7

arrays_in_bounds_example :
    let size = pos_part (clamp_wss true 64 1_000 (pos 40)) in
    let group_data = array_walk_init_group memory 0 size in
    ((d : ArrayWalkData) × (array_walk_do_work 5 (array_walk_init_task group_data) ≡ some d))
    × ((d : ArrayWalkData) × (array_backwards_do_work 5 (array_walk_init_task group_data) ≡ some d))
    × ((d : ArrayWalkData) × (array_random_do_work 5 (array_random_init_task 9 group_data)
          ≡ some d))
unfolding clamp_wss array_bytes
arrays_in_bounds_example =
    arrays_in_bounds (pos 40) 64 1_000 memory 0 9 5 (omega arith) (omega arith) (omega arith)

-- 20 elements.
abbrev start_data : ArrayWalkData
start_data = record { array = replicate 20 7; num_elements = 20; next_element = 0; rand = 0 }

abbrev after_three : ArrayWalkData
after_three = record start_data {
  array = 8 ∷ replicate 11 7 ++ 8 ∷ replicate 3 7 ++ 8 ∷ replicate 3 7;
  next_element = 8;
}

three_rounds : array_walk_do_work 3 start_data ≡ some after_three
unfolding array_walk_do_work do_work visit next_forwards
three_rounds = refl

start-IsInBounds : IsInBounds start_data
start-IsInBounds = record { next = omega arith; size = omega arith }
