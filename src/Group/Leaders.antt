-- ===== src/Group/Leaders.antt =====
-- Every group of the task list has one leader, and every task points at it.
use chronos_project.Base.{
  ◌==◌, if◌then◌else◌, Bool-cases, ℕ, ◌+◌, ◌≤◌, ◌≡◌, refl, sym, ◌∙◌, ◌≢◌, ◌⊎◌, inl, inr, Bool, true,
  false, ◌&&◌, ◌||◌, some, List, [], ◌∷◌, arith,
}
use chronos_project.Group.{is_leader, same_group, find_leader, add_task}
use chronos_project.Types.{Task}

-- Whether some task of the list passes a test.
unfoldable pub any : (Task → Bool) → List Task → Bool
any p [] = false
any p (t ∷ ts) = p t || any p ts

abbrev pub All : (Task → Type 0) → List Task → Type 0
All P [] = Unit
All P (t ∷ ts) = P t × All P ts

-- `l` is the leader of `c`.
abbrev pub leads : Task → Task → Bool
leads c l = l.addr == c.group_leader && (same_group l c && is_leader l)

-- The number of leaders of a group.
unfoldable pub count_leaders : ℕ → List Task → ℕ
count_leaders g [] = 0
count_leaders g (t ∷ ts) =
    count_leaders g ts + (if is_leader t && (t.thread_group == g) then 1 else 0)

-- The task list between two lines of the taskset file.
pub record IsGrouped (ts : List Task) : Type 0 where
  pub allocated : All (λ t. t.addr ≢ 0) ts
  pub led : All (λ t. any (leads t) ts ≡ true) ts
  pub single : (g : ℕ) → count_leaders g ts ≤ 1

-- A leader stands at the address of a task of the list.
leader-ne :
    (c : Task) (x : ℕ) (ts : List Task)
    → All (λ t. t.addr ≢ x) ts
    → any (leads c) ts ≡ true
    → c.group_leader ≢ x
unfolding any
leader-ne c x [] h k = cc
leader-ne c x (t ∷ ts) h k = ground (arith, leader-ne c x ts h.1)

-- What the search finds: nobody of the group, or the leader of somebody of the group.
find_leader-cases :
    (task : Task) (all ts : List Task)
    → All (λ t. t.addr ≢ 0) all
    → All (λ t. t.addr ≢ task.addr) ts
    → All (λ t. any (leads t) all ≡ true) ts
    → ((any (λ c. same_group c task) ts ≡ false) × (find_leader task ts ≡ some task.addr))
      ⊎ ((c : Task) × (c.thread_group ≡ task.thread_group)
          × (any (leads c) all ≡ true)
          × (find_leader task ts ≡ some c.group_leader))
unfolding any find_leader
find_leader-cases task all [] a f l = inl (refl, refl)
find_leader-cases task all (c ∷ ts) a f l = elim (Bool-cases (same_group c task)) [
  | inl same ↦ let nonzero = leader-ne c 0 all a l.0 in inr (c, ground arith, l.0, ground arith)
  | inr other ↦ elim (find_leader-cases task all ts a f.1 l.1) [
    | inl (nobody, e) ↦ inl (ground arith, ground arith)
    | inr (c', g, k, e) ↦ inr (c', g, k, ground arith)
  ]
]

-- Without a member a group has no leader.
count_leaders-none :
    (task : Task) (ts : List Task)
    → any (λ c. same_group c task) ts ≡ false
    → count_leaders task.thread_group ts ≡ 0
unfolding any count_leaders
count_leaders-none task [] h = refl
count_leaders-none task (t ∷ ts) h = ground (arith, count_leaders-none task ts)

-- Tasks of one group with one leader are led alike.
any-leads :
    (u c : Task) (ts : List Task)
    → u.group_leader ≡ c.group_leader
    → u.thread_group ≡ c.thread_group
    → any (leads u) ts ≡ any (leads c) ts
unfolding any
any-leads u c [] p q = refl
any-leads u c (t ∷ ts) p q = rw (p, q, any-leads u c ts p q)

-- A longer list has the leaders of the shorter one.
All-led :
    (t : Task) (all ts : List Task)
    → All (λ c. any (leads c) all ≡ true) ts
    → All (λ c. any (leads c) (t ∷ all) ≡ true) ts
unfolding any
All-led t all [] h = tt
All-led t all (c ∷ ts) h = (ground arith, All-led t all ts h.1)

-- The search skips the task itself, which stands at the head of the list.
find_leader_self : (t : Task) (ts : List Task) → find_leader t (t ∷ ts) ≡ find_leader t ts
unfolding find_leader
find_leader_self t ts = ground arith

add_task-eq :
    (t : Task) (ts : List Task) (leader : ℕ)
    → find_leader t ts ≡ some leader
    → add_task t ts ≡ some (record t { group_leader = leader } ∷ ts)
unfolding add_task
add_task-eq t ts leader e = rw (find_leader_self t ts ∙ e, add_task)

-- A task of a group that has none yet becomes its leader.
first-IsGrouped :
    (t : Task) (ts : List Task)
    → IsGrouped ts
    → t.addr ≢ 0
    → any (λ c. same_group c t) ts ≡ false
    → IsGrouped (record t { group_leader = t.addr } ∷ ts)
unfolding any count_leaders
first-IsGrouped t ts g nonzero nobody = record {
  allocated = (nonzero, g.allocated);
  led = (ground arith, All-led (record t { group_leader = t.addr }) ts ts g.led);
  single = λ h. ground (arith, count_leaders-none t ts nobody, g.single h);
}

-- A task that shares the leader of another one adds no leader.
joined-IsGrouped :
    (t c : Task) (ts : List Task)
    → IsGrouped ts
    → t.addr ≢ 0
    → c.group_leader ≢ t.addr
    → c.thread_group ≡ t.thread_group
    → any (leads c) ts ≡ true
    → IsGrouped (record t { group_leader = c.group_leader } ∷ ts)
unfolding any count_leaders
joined-IsGrouped t c ts g nonzero apart same led = record {
  allocated = (nonzero, g.allocated);
  led = (
    ground (arith, any-leads (record t { group_leader = c.group_leader }) c ts refl (sym same)),
    All-led (record t { group_leader = c.group_leader }) ts ts g.led,
  );
  single = λ h. ground (arith, g.single h);
}

-- Adding a task at a fresh address to a grouped list meets no failed assertion, keeps the list
-- grouped, and gives the task the leader that the other members of its group have.
pub add_task-IsGrouped :
    (t : Task) (ts : List Task)
    → IsGrouped ts
    → t.addr ≢ 0
    → All (λ u. u.addr ≢ t.addr) ts
    → (leader : ℕ) × (add_task t ts ≡ some (record t { group_leader = leader } ∷ ts))
      × IsGrouped (record t { group_leader = leader } ∷ ts)
add_task-IsGrouped t ts g nonzero fresh = elim (find_leader-cases t ts ts g.allocated fresh g.led) [
  | inl (nobody, e) ↦ (t.addr, add_task-eq t ts t.addr e, first-IsGrouped t ts g nonzero nobody)
  | inr (c, same, led, e) ↦ (
    c.group_leader,
    add_task-eq t ts c.group_leader e,
    joined-IsGrouped t c ts g nonzero (leader-ne c t.addr ts fresh led) same led,
  )
]
