-- ===== src/TestRun/StartTime.antt =====
-- The threads of a process agree on one start time, in whatever order all threads run.
use chronos_project.Base.{
  ◌==◌, if◌then◌else◌, Bool-cases, ℕ, ◌+◌, ◌≤◌, ◌<◌, ◌≡◌, refl, sym, ap, ◌∙◌, ◌≢◌, ◌⊎◌, inl, inr,
  true, false, none, some, List, [], ◌∷◌, arith, ℕ_discrete,
}
use chronos_project.Clock.{Timespec}
use chronos_project.TestRun.{
  Place, waiting, clock_read, started, Shared, read_clock, swap_start, advance, interleave,
}

Place-cases : (p : Place) → (p ≡ waiting) ⊎ ((p ≡ clock_read) ⊎ (p ≡ started))
Place-cases waiting = inl refl
Place-cases clock_read = inr (inl refl)
Place-cases started = inr (inr refl)

abbrev rank : Place → ℕ
rank waiting = 0
rank clock_read = 1
rank started = 2

-- No thread of the process has set its start time.
pub record IsOpen (group : ℕ) (s : Shared) : Type 0 where
  pub unset : s.global_start_time group ≡ none
  pub none_started : (i : ℕ) → s.process i ≡ group → rank (s.place i) < 2

-- The start time of a process is that of one of its threads, which has read its clock.
pub record IsAgreed (group leader : ℕ) (time : Timespec) (s : Shared) : Type 0 where
  pub points : s.global_start_time group ≡ some leader
  pub own_thread : s.process leader ≡ group
  pub has_time : s.local_start_time leader ≡ time
  pub has_read : 0 < rank (s.place leader)

module _ (group : ℕ) where
  -- What the compare-and-swap of a thread does to the start time of the process.
  kept_start :
      (leader : ℕ) (s : Shared) (i : ℕ)
      → s.global_start_time group ≡ some leader
      → (swap_start i s).global_start_time group ≡ some leader
  unfolding swap_start
  kept_start leader s i e = elim (ℕ_discrete (s.process i) group) [
    | yes own ↦ let same : (group == group) ≡ true = ground arith in rw (own, same, e) refl
    | no foreign ↦ let apart : (s.process i == group) ≡ false = ground arith in rw apart e
  ]

  first_start :
      (s : Shared) (i : ℕ)
      → s.process i ≡ group
      → s.global_start_time group ≡ none
      → (swap_start i s).global_start_time group ≡ some i
  unfolding swap_start
  first_start s i own e =
      let same : (group == group) ≡ true = ground arith in rw (own, same, e) refl

  other_start :
      (s : Shared) (i : ℕ)
      → s.process i ≢ group
      → s.global_start_time group ≡ none
      → (swap_start i s).global_start_time group ≡ none
  unfolding swap_start
  other_start s i foreign e =
      let apart : (s.process i == group) ≡ false = ground arith in rw apart e

  advance-IsAgreed :
      (leader : ℕ) (time now : Timespec) (s : Shared) (i : ℕ)
      → IsAgreed group leader time s
      → IsAgreed group leader time (advance i now s)
  unfolding advance read_clock swap_start
  advance-IsAgreed leader time now s i h = elim (Place-cases (s.place i)) [
    | inl e ↦
        let apart : (i == leader) ≡ false = elim (ℕ_discrete i leader) [
          | yes same ↦
              let e' : s.place i ≡ s.place leader = ap s.place same in
              let low : rank (s.place leader) ≡ 0 = ap rank (sym e' ∙ e) in
              absurd (omega (arith, low, h.has_read))
          | no ne ↦ ground arith
        ] in
        rw (e, advance)
          (record {
            points = h.points;
            own_thread = h.own_thread;
            has_time = rw apart h.has_time;
            has_read = rw apart h.has_read;
          })
    | inr later ↦ elim later [
      | inl e ↦
          rw (e, advance)
            (record {
              points = kept_start leader s i h.points;
              own_thread = h.own_thread;
              has_time = h.has_time;
              has_read = elim (Bool-cases (i == leader)) [
                | inl same ↦ rw same (omega arith)
                | inr other ↦ rw other h.has_read
              ];
            })
      | inr e ↦ rw (e, advance) h
    ]
  ]

  interleave-IsAgreed :
      (leader : ℕ) (time : Timespec) (s : Shared) (steps : List (ℕ × Timespec))
      → IsAgreed group leader time s
      → IsAgreed group leader time (interleave steps s)
  unfolding interleave
  interleave-IsAgreed leader time s [] h = h
  interleave-IsAgreed leader time s ((i, now) ∷ steps) h =
      interleave-IsAgreed leader time (advance i now s) steps
        (advance-IsAgreed leader time now s i h)

  -- The first compare-and-swap of the process sets its start time.
  advance-IsOpen :
      (now : Timespec) (s : Shared) (i : ℕ)
      → IsOpen group s
      → IsOpen group (advance i now s)
        ⊎ ((leader : ℕ) × (time : Timespec) × IsAgreed group leader time (advance i now s))
  unfolding advance read_clock swap_start
  advance-IsOpen now s i h = elim (Place-cases (s.place i)) [
    | inl e ↦ inl (
        rw (e, advance)
          (record {
            unset = h.unset;
            none_started = λ j own. elim (Bool-cases (i == j)) [
              | inl same ↦ rw same (omega arith)
              | inr other ↦ rw other (h.none_started j own)
            ];
          }))
    | inr later ↦ elim later [
      | inl e ↦ elim (ℕ_discrete (s.process i) group) [
        | yes own ↦
            let same : (i == i) ≡ true = ground arith in
            inr (
              i,
              s.local_start_time i,
              rw (e, advance)
                  (record {
                    points = first_start s i own h.unset;
                    own_thread = own;
                    has_time = refl;
                    has_read = rw same (omega arith);
                  }),
            )
        | no foreign ↦ inl (
            rw (e, advance)
              (record {
                unset = other_start s i foreign h.unset;
                none_started = λ j own.
                    let apart : (i == j) ≡ false = elim (ℕ_discrete i j) [
                      | yes same ↦ absurd (foreign (ap s.process same ∙ own))
                      | no ne ↦ ground arith
                    ] in
                    rw apart (h.none_started j own);
              }))
      ]
      | inr e ↦ inl (rw (e, advance) h)
    ]
  ]

  interleave-cases :
      (s : Shared) (steps : List (ℕ × Timespec))
      → IsOpen group s
      → IsOpen group (interleave steps s)
        ⊎ ((leader : ℕ) × (time : Timespec) × IsAgreed group leader time (interleave steps s))
  unfolding interleave
  interleave-cases s [] h = inl h
  interleave-cases s ((i, now) ∷ steps) h = elim (advance-IsOpen now s i h) [
    | inl open_still ↦ interleave-cases (advance i now s) steps open_still
    | inr (leader, time, set_now) ↦
        inr (leader, time, interleave-IsAgreed leader time (advance i now s) steps set_now)
  ]

-- The steps that a thread makes.
unfoldable pub turns : (thread : ℕ) → List (ℕ × Timespec) → ℕ
turns i [] = 0
turns i (step_of ∷ steps) = (if step_of.0 == i then 1 else 0) + turns i steps

-- A thread's own step brings it nearer to its start, another's leaves it where it is.
advance-rank :
    (now : Timespec) (s : Shared) (i j k : ℕ)
    → 2 ≤ rank (s.place j) + ((if i == j then 1 else 0) + k)
    → 2 ≤ rank ((advance i now s).place j) + k
unfolding advance read_clock swap_start
advance-rank now s i j k h = elim (Bool-cases (i == j)) [
  | inl same ↦
      let e_place : s.place i ≡ s.place j = ap s.place (ground arith) in
      elim (Place-cases (s.place i)) [
        | inl e ↦
            let low : rank (s.place j) ≡ 0 = ap rank (sym e_place ∙ e) in
            rw (e, advance, same) (ground arith)
        | inr later ↦ elim later [
          | inl e ↦ rw (e, advance, same) (omega arith)
          | inr e ↦
              let high : rank (s.place j) ≡ 2 = ap rank (sym e_place ∙ e) in
              rw (e, advance) (omega (arith, high))
        ]
      ]
  | inr other ↦
      let h' : 2 ≤ rank (s.place j) + k = ground arith in
      elim (Place-cases (s.place i)) [
        | inl e ↦ rw (e, advance, other) h'
        | inr later ↦ elim later [ inl e ↦ rw (e, advance, other) h' | inr e ↦ rw (e, advance) h' ]
      ]
]

interleave-rank :
    (s : Shared) (j : ℕ) (steps : List (ℕ × Timespec))
    → 2 ≤ rank (s.place j) + turns j steps
    → 2 ≤ rank ((interleave steps s).place j)
unfolding interleave turns
interleave-rank s j [] h = omega (arith, h)
interleave-rank s j ((i, now) ∷ steps) h =
    interleave-rank (advance i now s) j steps (advance-rank now s i j (turns j steps) h)

advance-process :
    (now : Timespec) (s : Shared) (i j : ℕ) → (advance i now s).process j ≡ s.process j
unfolding advance read_clock swap_start
advance-process now s i j = elim (Place-cases (s.place i)) [
  | inl e ↦ rw (e, advance) refl
  | inr later ↦ elim later [ inl e ↦ rw (e, advance) refl | inr e ↦ rw (e, advance) refl ]
]

interleave-process :
    (s : Shared) (steps : List (ℕ × Timespec)) (j : ℕ)
    → (interleave steps s).process j ≡ s.process j
unfolding interleave
interleave-process s [] j = refl
interleave-process s ((i, now) ∷ steps) j =
    interleave-process (advance i now s) steps j ∙ advance-process now s i j

rank_two : (p : Place) → 2 ≤ rank p → p ≡ started
rank_two waiting h = absurd (omega arith)
rank_two clock_read h = absurd (omega arith)
rank_two started h = refl

-- Threads of different processes run interleaved in any order. While no thread of a thread's process
-- has set the start time of that process: after at least two steps of its own the thread has
-- started, the start time of its process is then that of a thread of the same process that has
-- read its clock, and no further steps of any threads change which one or what it read.
pub threads_start_together :
    (s : Shared) (i : ℕ) (steps further : List (ℕ × Timespec))
    → IsOpen (s.process i) s
    → 2 ≤ turns i steps
    → ((interleave steps s).place i ≡ started)
      × (leader : ℕ) × (time : Timespec) × IsAgreed (s.process i) leader time (interleave steps s)
      × IsAgreed (s.process i) leader time (interleave further (interleave steps s))
threads_start_together s i steps further h enough =
    let group = s.process i in
    let there = interleave-rank s i steps (omega (arith, enough)) in
    elim (interleave-cases group s steps h) [
      | inl open_still ↦
          let own = interleave-process s steps i in
          absurd (omega (arith, there, open_still.none_started i own))
      | inr (leader, time, set_now) ↦ (
        rank_two ((interleave steps s).place i) there,
        leader,
        time,
        set_now,
        interleave-IsAgreed group leader time (interleave steps s) further set_now,
      )
    ]

-- Once each of two threads of different processes has made two steps, the start times of their
-- processes are those of two different threads.
pub processes_start_apart :
    (s : Shared) (i j : ℕ) (steps : List (ℕ × Timespec))
    → IsOpen (s.process i) s
    → IsOpen (s.process j) s
    → s.process i ≢ s.process j
    → 2 ≤ turns i steps
    → 2 ≤ turns j steps
    → (a : ℕ) × (b : ℕ) × ((interleave steps s).global_start_time (s.process i) ≡ some a)
      × ((interleave steps s).global_start_time (s.process j) ≡ some b)
      × (a ≢ b)
processes_start_apart s i j steps open_i open_j apart enough_i enough_j =
    let first = threads_start_together s i steps [] open_i enough_i in
    let second = threads_start_together s j steps [] open_j enough_j in
    let at_first = first.3 in
    let at_second = second.3 in
    (
      first.1,
      second.1,
      at_first.points,
      at_second.points,
      λ same.
          apart (
            sym at_first.own_thread
            ∙ (ap (interleave steps s).process same ∙ at_second.own_thread)),
    )
