-- ===== src/Group/Start.antt =====
-- Every task of a grouped list is started exactly once.
use chronos_project.Base.{
  if◌then◌else◌, length, ℕ, suc, ◌+◌, ◌≤◌, ◌≡◌, refl, sym, ap, ◌∙◌, Bool, true, ◌&&◌, List, [], ◌∷◌,
  ◌++◌, arith,
}
use chronos_project.Group.{is_leader, create_threads, start_task_group, start_groups}
use chronos_project.Group.Leaders.{any, All, leads, count_leaders, IsGrouped}
use chronos_project.Types.{Task}

-- The addresses that pass a test.
unfoldable pub count : (ℕ → Bool) → List ℕ → ℕ
count p [] = 0
count p (x ∷ xs) = count p xs + (if p x then 1 else 0)

-- The addresses of the tasks.
unfoldable pub addresses : List Task → List ℕ
addresses [] = []
addresses (t ∷ ts) = t.addr ∷ addresses ts

count-append : (p : ℕ → Bool) (xs ys : List ℕ) → count p (xs ++ ys) ≡ count p xs + count p ys
unfolding count
count-append p [] ys = omega arith
count-append p (x ∷ xs) ys = omega (arith, count-append p xs ys)

-- The followers pt address `a`, once for each leader among `leaders` of their group.
followers : (ℕ → Bool) → (leaders tasks : List Task) → ℕ
followers p leaders [] = 0
followers p leaders (t ∷ ts) =
    followers p leaders ts
    + (if p t.addr then if is_leader t then 0 else count_leaders t.thread_group leaders else 0)

leaders_at : (ℕ → Bool) → List Task → ℕ
leaders_at p [] = 0
leaders_at p (t ∷ ts) = leaders_at p ts + (if is_leader t && p t.addr then 1 else 0)

followers-none : (p : ℕ → Bool) (tasks : List Task) → followers p [] tasks ≡ 0
unfolding followers count_leaders
followers-none p [] = refl
followers-none p (t ∷ ts) = ground (arith, followers-none p ts)

-- A further leader creates the threads of its followers.
followers-cons :
    (p : ℕ → Bool) (l : Task) (leaders tasks : List Task)
    → followers p (l ∷ leaders) tasks
      ≡ followers p leaders tasks + (if is_leader l then count p (create_threads l tasks) else 0)
unfolding followers count_leaders create_threads count
followers-cons p l leaders [] = ground arith
followers-cons p l leaders (t ∷ ts) = ground (arith, followers-cons p l leaders ts)

count-start_groups :
    (p : ℕ → Bool) (tasks todo : List Task)
    → count p (start_groups tasks todo) ≡ followers p todo tasks + leaders_at p todo
unfolding start_groups start_task_group leaders_at count
count-start_groups p tasks [] = omega (arith, followers-none p tasks)
count-start_groups p tasks (l ∷ todo) = ground (
  arith,
  followers-cons p l todo tasks,
  count-start_groups p tasks todo,
  count-append p (create_threads l tasks) (l.addr ∷ []),
  count-append p (create_threads l tasks ++ (l.addr ∷ [])) (start_groups tasks todo),
)

-- Where each task's group has one leader, followers pnd leaders are all the tasks.
count-addresses :
    (p : ℕ → Bool) (all ts : List Task)
    → All (λ t. count_leaders t.thread_group all ≡ 1) ts
    → followers p all ts + leaders_at p ts ≡ count p (addresses ts)
unfolding followers leaders_at count addresses
count-addresses p all [] h = refl
count-addresses p all (t ∷ ts) h = ground (arith, count-addresses p all ts h.1)

led-count :
    (t : Task) (ts : List Task) → any (leads t) ts ≡ true → 1 ≤ count_leaders t.thread_group ts
unfolding any count_leaders
led-count t [] h = cc
led-count t (u ∷ ts) h = ground (arith, led-count t ts)

one_leader :
    (all ts : List Task)
    → ((g : ℕ) → count_leaders g all ≤ 1)
    → All (λ t. any (leads t) all ≡ true) ts
    → All (λ t. count_leaders t.thread_group all ≡ 1) ts
one_leader all [] single led = tt
one_leader all (t ∷ ts) single led =
    (omega (arith, single t.thread_group, led-count t all led.0), one_leader all ts single led.1)

count_all : (xs : List ℕ) → count (λ _. true) xs ≡ length xs
unfolding count
count_all [] = refl
count_all (x ∷ xs) = omega (arith, count_all xs)

length-addresses : (ts : List Task) → length (addresses ts) ≡ length ts
unfolding addresses
length-addresses [] = refl
length-addresses (t ∷ ts) = ap suc (length-addresses ts)

-- Over a grouped task list, the processes that `run` starts run every task of the list exactly
-- once: under every test of addresses as many threads start as tasks stand in the list. So as
-- many threads come to the barrier as it was initialized for, the number of tasks.
pub start_groups-once :
    (ts : List Task)
    → IsGrouped ts
    → ((p : ℕ → Bool) → count p (start_groups ts ts) ≡ count p (addresses ts))
      × (length (start_groups ts ts) ≡ length ts)
start_groups-once ts g =
    let once : (p : ℕ → Bool) → count p (start_groups ts ts) ≡ count p (addresses ts) =
      λ p. count-start_groups p ts ts ∙ count-addresses p ts ts (one_leader ts ts g.single g.led) in
    (
      once,
      sym (count_all (start_groups ts ts))
          ∙ once (λ _. true)
          ∙ count_all (addresses ts)
          ∙ length-addresses ts,
    )
