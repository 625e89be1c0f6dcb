-- ===== src/Atomic/Threads.antt =====
-- Interleaved operations on an atomic integer take effect one after another.
use chronos_project.Atomic.{
  new_value, Phase, start, loaded, returned, Call, atomic_int_op, step, run,
}
use chronos_project.Base.{
  leb→le, Bool-cases, Option-cases, ℕ, zero, suc, ◌≡◌, refl, sym, ap, ◌∙◌, ◌⊎◌, inl, inr, true,
  ◌&&◌, some, List, [], ◌∷◌, ◌++◌, arith,
}
use chronos_project.Base.Int.{ℤ, leb_ℤ, eq_of_parts}
use mathlib.Core.Path.{subst}
use mathlib.Core.Option.{some-injective}
use mathlib.Core.List.{Perm, perm_middle, append-nil}
use mathlib.Core.List.Perm

-- A call, if it has returned.
unfoldable pub if_returned : Call → List Call
if_returned c = elim c.phase [ returned n ↦ c ∷ [] | start ↦ [] | loaded v n ↦ [] ]

-- The calls that have returned.
unfoldable pub completed : List Call → List Call
completed [] = []
completed (c ∷ cs) = if_returned c ++ completed cs

-- Each call's operation in turn, from `r` to `r'`, returns what the call returned.
unfoldable pub Replays : ℤ → List Call → ℤ → Type 0
Replays r [] r' = r ≡ r'
Replays r (c ∷ cs) r' =
    (n : ℤ) × (new_value c.op r c.val ≡ some n) × (c.phase ≡ returned n) × Replays n cs r'

-- What a call has loaded belongs together.
unfoldable IsCoherent : Call → Type 0
IsCoherent c = elim c.phase [
  | start ↦ Unit
  | loaded v n ↦ new_value c.op v c.val ≡ some n
  | returned n ↦ Unit
]

unfoldable AllCoherent : List Call → Type 0
AllCoherent [] = Unit
AllCoherent (c ∷ cs) = IsCoherent c × AllCoherent cs

-- From the returned calls `done` to `done'`: an access either changes nothing that can be seen, or
-- completes one call.
unfoldable Effect : List Call → ℤ → List Call → ℤ → Type 0
Effect done r done' r' =
    ((done' ≡ done) × (r' ≡ r)) ⊎ ((c : Call) × Perm (c ∷ done) done' × Replays r (c ∷ []) r')

Phase-cases :
    (p : Phase)
    → (p ≡ start) ⊎ (((v : ℤ) × (n : ℤ) × (p ≡ loaded v n)) ⊎ ((n : ℤ) × (p ≡ returned n)))
Phase-cases start = inl refl
Phase-cases (loaded v n) = inr (inl (v, n, refl))
Phase-cases (returned n) = inr (inr (n, refl))

eq_of_leb : (a b : ℤ) → leb_ℤ a b ≡ true → leb_ℤ b a ≡ true → a ≡ b
eq_of_leb a b h k = eq_of_parts a b (omega (arith, leb→le _ _ h, leb→le _ _ k))

-- What an access of one call has done.
unfoldable Good : Call → ℤ → Call × ℤ → Type 0
Good c r x = IsCoherent x.0 × Effect (if_returned c) r (if_returned x.0) x.1

Good-result :
    (c : Call) (r : ℤ) (x y : Call × ℤ)
    → atomic_int_op c r ≡ some y
    → atomic_int_op c r ≡ some x
    → Good c r y
    → Good c r x
Good-result c r x y h k g = subst (Good c r) (some-injective y x (sym h ∙ k)) g

-- A read.
start-Good :
    (c : Call) (r : ℤ) (x : Call × ℤ) → c.phase ≡ start → atomic_int_op c r ≡ some x → Good c r x
unfolding atomic_int_op Good IsCoherent Effect if_returned
start-Good c r x e h = elim (Option-cases (new_value c.op r c.val)) [
  | inl undefined ↦ cc (rw (e, atomic_int_op, undefined) at h)
  | inr (n, defined) ↦
      Good-result c r x (record c { phase = loaded r n }, r) (rw (e, atomic_int_op, defined)) h
        (defined, inl (rw e, refl))
]

-- A swap.
loaded-Good :
    (c : Call) (r v n : ℤ) (x : Call × ℤ)
    → c.phase ≡ loaded v n
    → new_value c.op v c.val ≡ some n
    → atomic_int_op c r ≡ some x
    → Good c r x
unfolding atomic_int_op Good IsCoherent Effect if_returned Replays
loaded-Good c r v n x e k h = elim (Bool-cases (leb_ℤ r v && leb_ℤ v r)) [
  | inl same ↦
      let eq = eq_of_leb r v (ground (arith, same)) (ground (arith, same)) in
      Good-result c r x (record c { phase = returned n }, n) (rw (e, same)) h
        (_, inr (record c { phase = returned n }, rw e Perm.rfl, (n, rw eq k, refl, refl)))
  | inr changed ↦
      Good-result c r x (record c { phase = start }, r) (rw (e, changed)) h (_, inl (rw e, refl))
]

atomic_int_op-Good :
    (c : Call) (r : ℤ) (x : Call × ℤ) → IsCoherent c → atomic_int_op c r ≡ some x → Good c r x
unfolding IsCoherent
atomic_int_op-Good c r x k h = elim (Phase-cases c.phase) [
  | inl e ↦ start-Good c r x e h
  | inr (inl (v, n, e)) ↦ loaded-Good c r v n x e (rw e at k) h
  | inr (inr (n, e)) ↦
      Good-result c r x (c, r) (unfold atomic_int_op in rw e) h
        (unfold Good Effect in (k, inl (refl, refl)))
]

Effect-append_right :
    (done done' others : List Call) (r r' : ℤ)
    → Effect done r done' r'
    → Effect (done ++ others) r (done' ++ others) r'
unfolding Effect
Effect-append_right done done' others r r' (inl (same, e)) = inl (rw same, e)
Effect-append_right done done' others r r' (inr (d, p, replays)) =
    inr (d, Perm.append_right others p, replays)

Effect-append_left :
    (others done done' : List Call) (r r' : ℤ)
    → Effect done r done' r'
    → Effect (others ++ done) r (others ++ done') r'
unfolding Effect
Effect-append_left others done done' r r' (inl (same, e)) = inl (rw same, e)
Effect-append_left others done done' r r' (inr (d, p, replays)) =
    inr (d, Perm.trans (Perm.symm (perm_middle others done)) (Perm.append_left others p), replays)

step-Effect :
    (i : ℕ) (cs : List Call) (r : ℤ) (x : List Call × ℤ)
    → AllCoherent cs
    → step i cs r ≡ some x
    → AllCoherent x.0 × Effect (completed cs) r (completed x.0) x.1
unfolding step AllCoherent completed
step-Effect i [] r x k h =
    subst (λ x. AllCoherent x.0 × Effect [] r (completed x.0) x.1) (some-injective ([], r) x h)
      (_, unfold Effect in inl (refl, refl))
step-Effect zero (c ∷ cs) r x (k, ks) h = elim (Option-cases (atomic_int_op c r)) [
  | inl undefined ↦ cc (rw (step, undefined) at h)
  | inr (y, e) ↦
      let good : IsCoherent y.0 × Effect (if_returned c) r (if_returned y.0) y.1 =
        unfold Good in atomic_int_op-Good c r y k e in
      subst (λ x. AllCoherent x.0 × Effect (completed (c ∷ cs)) r (completed x.0) x.1)
        (some-injective (y.0 ∷ cs, y.1) x (rw (step, e) at h))
        ((good.0, ks), Effect-append_right _ _ (completed cs) r y.1 good.1)
]
step-Effect (suc i) (c ∷ cs) r x (k, ks) h = elim (Option-cases (step i cs r)) [
  | inl undefined ↦ cc (rw (step, undefined) at h)
  | inr (y, e) ↦
      let (coherent, effect) = step-Effect i cs r y ks e in
      subst (λ x. AllCoherent x.0 × Effect (completed (c ∷ cs)) r (completed x.0) x.1)
        (some-injective (c ∷ y.0, y.1) x (rw (step, e) at h))
        ((k, coherent), Effect-append_left (if_returned c) _ _ r y.1 effect)
]

-- The returned calls, in an order that explains the resource.
Linear : List Call → ℤ → List Call → ℤ → Type 0
Linear done r done' r' = (order : List Call) × Perm (order ++ done) done' × Replays r order r'

Linear-step :
    (done done' done'' : List Call) (r r' r'' : ℤ)
    → Effect done r done' r'
    → Linear done' r' done'' r''
    → Linear done r done'' r''
unfolding Effect Linear Replays
Linear-step done done' done'' r r' r'' (inl (same, e)) (order, p, replays) =
    (order, rw same at p, rw e at replays)
Linear-step done done' done'' r r' r'' (inr (c, q, (n, defined, is, e))) (order, p, replays) = (
  c ∷ order,
  Perm.trans (Perm.symm (perm_middle order done)) (Perm.trans (Perm.append_left order q) p),
  (n, defined, is, rw (sym e) at replays),
)

run-Linear :
    (schedule : List ℕ) (cs cs' : List Call) (r r' : ℤ)
    → AllCoherent cs
    → run schedule cs r ≡ some (cs', r')
    → Linear (completed cs) r (completed cs') r'
unfolding run Linear Replays
run-Linear [] cs cs' r r' k h =
    let e = some-injective (cs, r) (cs', r') h in
    ([], subst (λ x. Perm (completed cs) (completed x.0)) e Perm.rfl, ap (λ x. x.1) e)
run-Linear (i ∷ schedule) cs cs' r r' k h = elim (Option-cases (step i cs r)) [
  | inl undefined ↦ cc (rw (run, undefined) at h)
  | inr (y, e) ↦
      let (coherent, effect) = step-Effect i cs r y k e in
      Linear-step _ _ _ r y.1 r' effect
        (run-Linear schedule y.0 cs' y.1 r' coherent (rw (run, e) at h))
]

-- No call has made an access yet.
unfoldable pub AllStart : List Call → Type 0
AllStart [] = Unit
AllStart (c ∷ cs) = (c.phase ≡ start) × AllStart cs

AllStart-lem : (cs : List Call) → AllStart cs → AllCoherent cs × (completed cs ≡ [])
unfolding AllStart AllCoherent completed IsCoherent if_returned
AllStart-lem [] h = (_, refl)
AllStart-lem (c ∷ cs) (e, h) = let (k, es) = AllStart-lem cs h in ((rw e _, k), rw (e, es))

-- Whatever schedule the calls are interleaved by, the calls that have returned can be put in an
-- order in which their operations, run one after another on the initial value, return what the
-- calls returned and leave the resource's value.
pub run_linear :
    (schedule : List ℕ) (cs cs' : List Call) (r r' : ℤ)
    → AllStart cs
    → run schedule cs r ≡ some (cs', r')
    → (order : List Call) × Perm order (completed cs') × Replays r order r'
unfolding Linear
run_linear schedule cs cs' r r' fresh h =
    let (k, none_yet) = AllStart-lem cs fresh in
    let (order, p, replays) = run-Linear schedule cs cs' r r' k h in
    (order, subst (λ l. Perm l (completed cs')) (append-nil order) (rw none_yet at p), replays)
