-- ===== src/Atomic/Counter.antt =====
-- A counter that threads add to.
use chronos_project.Atomic.{aint_add, new_value, Call, atomic_int_op, atomic_int_add, step, run}
use chronos_project.Atomic.Threads.{completed, Replays, AllStart, run_linear}
use chronos_project.Base.{
  ◌==◌, if◌then◌else◌, Option-cases, ℕ, zero, suc, ◌+◌, ◌≡◌, refl, sym, ap, ◌∙◌, inl, inr, some,
  List, [], ◌∷◌, map, arith, ℕ_discrete,
}
use chronos_project.Base.Int.{ℤ, pos_part, neg_part, ◌+ℤ◌, as_int, +ℤ_parts, eq_of_parts}
use mathlib.Core.Logic.{∥∥₁_elim}
use mathlib.Core.HLevel.{hedberg}
use mathlib.Core.List.{Perm, Permᴰ}
use mathlib.Core.Option.{some-injective}

-- A number read off each call's request, added up.
unfoldable sum_of : (ℕ → ℤ → ℕ) → List Call → ℕ
sum_of f [] = 0
sum_of f (c ∷ cs) = f c.op c.val + sum_of f cs

abbrev measure : (ℕ → ℤ → ℕ) → Call → ℕ
measure f c = f c.op c.val

sum_of-Permᴰ : (f : ℕ → ℤ → ℕ) (cs ds : List Call) → Permᴰ cs ds → sum_of f cs ≡ sum_of f ds
unfolding sum_of
sum_of-Permᴰ f cs ds Permᴰ.nil = refl
sum_of-Permᴰ f (c ∷ cs) (d ∷ ds) (Permᴰ.cons e p) =
    omega (arith, ap (measure f) e, sum_of-Permᴰ f cs ds p)
sum_of-Permᴰ f (c ∷ d ∷ cs) (c' ∷ d' ∷ ds) (Permᴰ.swap e e') =
    omega (arith, ap (measure f) e, ap (measure f) e')
sum_of-Permᴰ f cs ds (Permᴰ.trans p q) = sum_of-Permᴰ f _ _ p ∙ sum_of-Permᴰ f _ _ q

sum_of-Perm : (f : ℕ → ℤ → ℕ) (cs ds : List Call) → Perm cs ds → sum_of f cs ≡ sum_of f ds
sum_of-Perm f cs ds p =
    ∥∥₁_elim p (hedberg ℕ_discrete (sum_of f cs) (sum_of f ds)) (sum_of-Permᴰ f cs ds)

abbrev not_add : ℕ → ℤ → ℕ
not_add op val = if op == aint_add then 0 else 1

abbrev positive : ℕ → ℤ → ℕ
positive op val = pos_part val

abbrev negative : ℕ → ℤ → ℕ
negative op val = neg_part val

add-Replays :
    (r r' : ℤ) (order : List Call)
    → sum_of not_add order ≡ 0
    → Replays r order r'
    → pos_part r' + neg_part r + sum_of negative order
      ≡ neg_part r' + pos_part r + sum_of positive order
unfolding Replays sum_of
add-Replays r r' [] k e = rw e (omega arith)
add-Replays r r' (c ∷ cs) k (n, defined, is, replays) =
    let is_add : c.op ≡ aint_add = ground (arith, k) in
    let rest = add-Replays n r' cs (omega (arith, k)) replays in
    let added : n ≡ r +ℤ c.val = unfold new_value as_int in ground (arith, defined, is_add) in
    let rest' = rw added at rest in omega (arith, rest', +ℤ_parts r c.val)

-- A call keeps its request.
atomic_int_op-request :
    (c : Call) (r : ℤ) (x : Call × ℤ)
    → atomic_int_op c r ≡ some x
    → (x.0.op ≡ c.op) × (x.0.val ≡ c.val)
unfolding atomic_int_op
atomic_int_op-request c r x h = ground (arith, h)

step-sum_of :
    (f : ℕ → ℤ → ℕ) (i : ℕ) (cs : List Call) (r : ℤ) (x : List Call × ℤ)
    → step i cs r ≡ some x
    → sum_of f x.0 ≡ sum_of f cs
unfolding step sum_of
step-sum_of f i [] r x h = ap (λ x. sum_of f x.0) (sym (some-injective ([], r) x h))
step-sum_of f zero (c ∷ cs) r x h = elim (Option-cases (atomic_int_op c r)) [
  | inl undefined ↦ cc (rw (step, undefined) at h)
  | inr (y, e) ↦
      let (same_op, same_val) = atomic_int_op-request c r y e in
      ap (λ x. sum_of f x.0) (sym (some-injective (y.0 ∷ cs, y.1) x (rw (step, e) at h)))
      ∙ rw (same_op, same_val)
]
step-sum_of f (suc i) (c ∷ cs) r x h = elim (Option-cases (step i cs r)) [
  | inl undefined ↦ cc (rw (step, undefined) at h)
  | inr (y, e) ↦
      ap (λ x. sum_of f x.0) (sym (some-injective (c ∷ y.0, y.1) x (rw (step, e) at h)))
      ∙ ap (λ n. f c.op c.val + n) (step-sum_of f i cs r y e)
]

run-sum_of :
    (f : ℕ → ℤ → ℕ) (schedule : List ℕ) (cs cs' : List Call) (r r' : ℤ)
    → run schedule cs r ≡ some (cs', r')
    → sum_of f cs' ≡ sum_of f cs
unfolding run
run-sum_of f [] cs cs' r r' h = ap (λ x. sum_of f x.0) (sym (some-injective (cs, r) (cs', r') h))
run-sum_of f (i ∷ schedule) cs cs' r r' h = elim (Option-cases (step i cs r)) [
  | inl undefined ↦ cc (rw (run, undefined) at h)
  | inr (y, e) ↦ run-sum_of f schedule y.0 cs' y.1 r' (rw (run, e) at h) ∙ step-sum_of f i cs r y e
]

-- Every call has returned.
abbrev pub AllReturned : List Call → Type 0
AllReturned cs = completed cs ≡ cs

-- The value with the added values on top.
unfoldable pub total : ℤ → List ℤ → ℤ
total r [] = r
total r (v ∷ vals) = total (r +ℤ v) vals

total_parts :
    (r : ℤ) (vals : List ℤ)
    → let cs = map atomic_int_add vals in
      pos_part (total r vals) + neg_part r + sum_of negative cs
      ≡ neg_part (total r vals) + pos_part r + sum_of positive cs
unfolding total sum_of
total_parts r [] = omega arith
total_parts r (v ∷ vals) = omega (arith, total_parts (r +ℤ v) vals, +ℤ_parts r v)

adds_only : (vals : List ℤ) → sum_of not_add (map atomic_int_add vals) ≡ 0
unfolding sum_of
adds_only [] = refl
adds_only (v ∷ vals) = omega (arith, adds_only vals)

fresh : (vals : List ℤ) → AllStart (map atomic_int_add vals)
unfolding AllStart
fresh [] = _
fresh (v ∷ vals) = (refl, fresh vals)

-- However the reads and swaps of threads that each add a value interleave, once all have returned
-- the resource holds its initial value plus all the added ones: no addition is lost.
pub adds_exact :
    (vals : List ℤ) (schedule : List ℕ) (r r' : ℤ) (cs : List Call)
    → run schedule (map atomic_int_add vals) r ≡ some (cs, r')
    → AllReturned cs
    → r' ≡ total r vals
adds_exact vals schedule r r' cs h finished =
    let (order, p, replays) = run_linear schedule _ cs r r' (fresh vals) h in
    let sums : (f : ℕ → ℤ → ℕ) → sum_of f order ≡ sum_of f (map atomic_int_add vals) =
      λ f. sum_of-Perm f _ _ p ∙ ap (sum_of f) finished ∙ run-sum_of f schedule _ cs r r' h in
    let ordered = add-Replays r r' order (sums not_add ∙ adds_only vals) replays in
    eq_of_parts r' (total r vals)
      (omega (arith, ordered, total_parts r vals, sums positive, sums negative))
