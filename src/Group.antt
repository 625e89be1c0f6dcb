-- ===== src/Group.antt =====
mod Tests
pub mod Leaders
pub mod Start
-- Thread groups: `group_leader` and `same_group` of sched_test_app/src/task.h, `init_group_leader`
-- and the end of `init_task` and `init_group` of task_init.c, and how `run` (tester.c) and
-- `start_task_group` (task.c) start the threads. The linked list of tasks, newest first, is a
-- list; `tester.tasks` holds the same tasks in the same order.
use chronos_project.Base.{
  ◌==◌, ◌!=◌, if◌then◌else◌, ℕ, Bool, ◌&&◌, Option, none, some, List, [], ◌∷◌, ◌++◌,
}
use chronos_project.Base.Int.{ℤ, pos, ltb_ℤ}
use chronos_project.Types.{Task}

-- `group_leader(task)` and `same_group(t1, t2)`.
abbrev pub is_leader : Task → Bool
is_leader t = t.group_leader == t.addr

abbrev pub same_group : Task → Task → Bool
same_group t u = t.thread_group == u.thread_group

-- The search of `init_group_leader` for the leader of `task`; `none` is the failed assertion.
unfoldable pub find_leader : Task → List Task → Option ℕ
find_leader task [] = some task.addr
find_leader task (curr ∷ rest) =
    let later = find_leader task rest in
    if curr.addr != task.addr && same_group curr task
    then if curr.group_leader == 0 then none else some curr.group_leader
    else later

-- The label `add_task` of `init_task`: the task is put in front of the list, then its leader is
-- found.
unfoldable pub add_task : Task → List Task → Option (List Task)
add_task t list = elim (find_leader t (t ∷ list)) [
  | none ↦ none
  | some leader ↦ some (record t { group_leader = leader } ∷ list)
]

-- The capability and the bounds of a workload, as `init_task` and `init_group` apply them to a
-- working set size.
unfoldable pub clamp_wss : Bool → (low high : ℕ) → ℤ → ℤ
clamp_wss capable low high wss =
    if capable
    then if ltb_ℤ wss (pos low) then pos low else if ltb_ℤ (pos high) wss then pos high else wss
    else pos 0

-- The search of `init_group`: the first leader of the group gets the size; `none` is the fatal
-- error for an empty group.
unfoldable pub set_group_wss : (thread_group : ℕ) → ℤ → List Task → Option (List Task)
set_group_wss thread_group wss [] = none
set_group_wss thread_group wss (curr ∷ rest) =
    let later = set_group_wss thread_group wss rest in
    if is_leader curr && curr.thread_group == thread_group
    then some (record curr { group_wss = wss } ∷ rest)
    else elim later [ none ↦ none | some rest' ↦ some (curr ∷ rest') ]

-- The threads that `start_task_group` creates for the leader `t`, in the order of `tester.tasks`.
unfoldable pub create_threads : Task → List Task → List ℕ
create_threads t [] = []
create_threads t (u ∷ tasks) =
    let others = create_threads t tasks in
    if same_group t u && (u.group_leader != u.addr) then u.addr ∷ others else others

-- All tasks that the process of the leader `t` runs: the other threads first, then its own.
unfoldable pub start_task_group : Task → List Task → List ℕ
start_task_group t tasks = create_threads t tasks ++ (t.addr ∷ [])

-- The loop of `run` that starts the groups, over the rest `todo` of `tester.tasks`.
unfoldable pub start_groups : (tasks todo : List Task) → List ℕ
start_groups tasks [] = []
start_groups tasks (t ∷ todo) =
    let others = start_groups tasks todo in
    if is_leader t then start_task_group t tasks ++ others else others
