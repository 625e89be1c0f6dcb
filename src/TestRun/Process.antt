-- ===== src/TestRun/Process.antt =====
-- The processes of the thread groups: sched_test_app/src/tgroup.c, and the loop of `run`, tester.c,
-- that waits for the leaders' processes. What `fork` and `waitpid` answer is an argument.
use chronos_project.Base.{
  ◌==◌, if◌then◌else◌, Bool-cases, Option-cases, ℕ, zero, suc, ◌+◌, ◌<◌, ◌≡◌, refl, inl, inr, Bool,
  true, false, not, ◌&&◌, Option, none, some, List, [], ◌∷◌, arith,
}
use chronos_project.Base.Int.{ℤ, pos, negsuc, ltb_ℤ}
use chronos_project.Options.{eq_ℤ}

-- What `tgroup_create` has done: failed, run the function in the new process, or kept its number.
pub data Created : Type 0 where
  create_failed : Created
  in_child : Created
  memory_unlocked : Created
  in_parent : (pid : ℤ) → Created

unfoldable pub tgroup_create : (fork : ℤ) → (locks_memory : Bool) → Created
tgroup_create fork locks_memory =
    if eq_ℤ fork (negsuc 0)
    then create_failed
    else if eq_ℤ fork (pos 0)
    then if locks_memory then in_child else memory_unlocked
    else in_parent fork

-- An answer of `waitpid`: its result, whether `errno` is EINTR, and, of a process that has exited
-- and not been killed, the exit status.
pub record Waited : Type 0 where
  pub result : ℤ
  pub is_interrupted : Bool
  pub exit_status : Option ℕ

-- The loop, from call number `n` on; `none` is a loop that has not ended.
unfoldable pub wait_loop : (fuel : ℕ) → (waitpid : ℕ → Waited) → (n : ℕ) → Option Waited
wait_loop zero waitpid n = none
wait_loop (suc fuel) waitpid n =
    let rest = wait_loop fuel waitpid (n + 1) in
    if ltb_ℤ (waitpid n).result (pos 0) && (waitpid n).is_interrupted
    then rest
    else some (waitpid n)

-- After the loop: whether the call succeeds, and what it makes of the status.
unfoldable pub join_result : (pid : ℤ) → (status : ℕ) → Waited → Bool × ℕ
join_result pid status w =
    if not (eq_ℤ w.result pid)
    then (false, status)
    else elim w.exit_status [ none ↦ (true, status) | some code ↦ (true, code) ]

unfoldable pub tgroup_join :
    (fuel : ℕ) → (waitpid : ℕ → Waited) → (pid : ℤ) → (status : ℕ) → Option (Bool × ℕ)
tgroup_join fuel waitpid pid status = elim (wait_loop fuel waitpid 0) [
  | none ↦ none
  | some w ↦ some (join_result pid status w)
]

-- The loop of `run` over the leaders, each with the answers for its process. `some false` is a
-- fatal error.
unfoldable pub join_groups : (fuel : ℕ) → List (ℤ × (ℕ → Waited)) → Option Bool
join_groups fuel [] = some true
join_groups fuel ((pid, waitpid) ∷ leaders) =
    let rest = join_groups fuel leaders in
    elim (tgroup_join fuel waitpid pid 0) [
      | none ↦ none
      | some (ok, status) ↦ if ok && status == 0 then rest else some false
    ]

-- The first answer that is no interruption, with number `last`.
pub record IsAnswered (pid : ℤ) (waitpid : ℕ → Waited) (last : ℕ) : Type 0 where
  pub interrupted :
      (k : ℕ)
      → k < last
      → (ltb_ℤ (waitpid k).result (pos 0) ≡ true) × ((waitpid k).is_interrupted ≡ true)
  pub answered : (waitpid last).result ≡ pid
  pub positive : ltb_ℤ pid (pos 0) ≡ false

wait_loop-ends :
    {pid : ℤ} {waitpid : ℕ → Waited} {last : ℕ}
    → IsAnswered pid waitpid last
    → (fuel left n : ℕ) → n + left ≡ last
    → left < fuel
    → wait_loop fuel waitpid n ≡ some (waitpid last)
unfolding wait_loop
wait_loop-ends a zero left n here enough = absurd (omega arith)
wait_loop-ends {last = last} a (suc fuel) zero n here enough =
    let same : n ≡ last = omega arith in rw (same, a.answered, a.positive) refl
wait_loop-ends a (suc fuel) (suc left) n here enough =
    let again = a.interrupted n (omega arith) in
    let rest = wait_loop-ends a fuel left (n + 1) (omega arith) (omega arith) in
    rw (again.0, again.1, rest) refl

-- That the wait for each leader's process is answered within the fuel.
abbrev pub AllAnswered : (fuel : ℕ) → List (ℤ × (ℕ → Waited)) → Type 0
AllAnswered fuel [] = Unit
AllAnswered fuel (leader ∷ leaders) =
    ((last : ℕ) × IsAnswered leader.0 leader.1 last × (last < fuel)) × AllAnswered fuel leaders

-- Whether each process exited with status 0, or did not exit by itself.
abbrev pub all_well :
    (fuel : ℕ) (leaders : List (ℤ × (ℕ → Waited))) → AllAnswered fuel leaders → Bool
all_well fuel [] answers = true
all_well fuel (leader ∷ leaders) ((last, answer, enough), answers) =
    let rest = all_well fuel leaders answers in
    elim (leader.1 last).exit_status [ none ↦ rest | some code ↦ if code == 0 then rest else false ]

eq_ℤ-refl : (z : ℤ) → eq_ℤ z z ≡ true
eq_ℤ-refl (pos n) = ground arith
eq_ℤ-refl (negsuc n) = ground arith

tgroup_join-answered :
    {pid : ℤ} {waitpid : ℕ → Waited} {last : ℕ} (fuel status : ℕ)
    → IsAnswered pid waitpid last
    → last < fuel
    → tgroup_join fuel waitpid pid status
      ≡ some (true, elim (waitpid last).exit_status [ none ↦ status | some code ↦ code ])
unfolding tgroup_join join_result
tgroup_join-answered {pid = pid} {waitpid = waitpid} {last = last} fuel status answer enough =
    let same : eq_ℤ (waitpid last).result pid ≡ true = rw answer.answered (eq_ℤ-refl pid) in
    let waited = wait_loop-ends answer fuel last 0 (omega arith) enough in
    elim (Option-cases (waitpid last).exit_status) [
      | inl killed ↦ rw (tgroup_join, waited, same, killed) refl
      | inr (code, exited) ↦ rw (tgroup_join, waited, same, exited) refl
    ]

-- When waitpid, however often it is interrupted before, answers for the process of every leader,
-- with fuel for the calls, then the loop of run over the leaders ends, and without a fatal error
-- exactly if no process exited with a status other than 0: one that a signal killed counts as
-- ended well.
pub join_groups_lem :
    (fuel : ℕ) (leaders : List (ℤ × (ℕ → Waited))) (answers : AllAnswered fuel leaders)
    → join_groups fuel leaders ≡ some (all_well fuel leaders answers)
unfolding join_groups
join_groups_lem fuel [] answers = refl
join_groups_lem fuel ((pid, waitpid) ∷ leaders) ((last, answer, enough), answers) =
    let rest = join_groups_lem fuel leaders answers in
    let wait = tgroup_join-answered fuel 0 answer enough in
    elim (Option-cases (waitpid last).exit_status) [
      | inl killed ↦ rw (join_groups, wait, killed, rest) refl
      | inr (code, exited) ↦ elim (Bool-cases (code == 0)) [
        | inl zero_code ↦ rw (join_groups, wait, exited, zero_code, rest) refl
        | inr other ↦ rw (join_groups, wait, exited, other) refl
      ]
    ]
