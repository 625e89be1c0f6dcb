-- ===== src/Arrays/Walk.antt =====
-- Where the walks go.
use chronos_project.Arrays.{
  ArrayWalkData, stride, next_forwards, next_backwards, visit, do_work, array_walk_do_work,
}
use chronos_project.Arrays.Bounds.{IsInBounds}
use chronos_project.Base.{
  Option-cases, ℕ, zero, suc, ◌+◌, ◌-◌, ◌*◌, ◌%◌, ◌^◌, ◌≤◌, ◌<◌, ◌≡◌, sym, ap, ◌∙◌, ◌⊎◌, inl, inr,
  some, arith, dec_lt,
}
use native.Mathlib.Nat.{mod-lt, mod-eq_of_lt, mod-add-mod, mod-eq-sub-mod}
use mathlib.Core.Option.{some-injective}

-- A sum below twice the modulus.
mod_below_twice :
    (a n : ℕ) → a < n + n → 0 < n → ((a < n) × (a % n ≡ a)) ⊎ ((n ≤ a) × (a % n ≡ a - n))
mod_below_twice a n h positive = elim (dec_lt a n) [
  | yes below ↦ inl (below, mod-eq_of_lt below)
  | no above ↦ inr (
    omega (arith, above),
    mod-eq-sub-mod (omega (arith, above)) ∙ mod-eq_of_lt (omega (arith, above)),
  )
]

-- The element after a step forwards and one back.
there_and_back :
    (x n : ℕ)
    → x < n
    → stride ≤ n
    → n < 2 ^ 62
    → (n + (x + stride) % 2 ^ 64 % n + (2 ^ 64 - stride)) % 2 ^ 64 % n ≡ x
there_and_back x n h hs small =
    let forth : (x + stride) % 2 ^ 64 ≡ x + stride = omega (arith, h, small) in
    rw forth (elim (mod_below_twice (x + stride) n (omega (arith, h, hs)) (omega (arith, h))) [
      | inl (below, e) ↦
          let back : (n + (x + stride) + (2 ^ 64 - stride)) % 2 ^ 64 ≡ n + x =
            omega (arith, below, small) in
          rw (e, back) (add_mod_self x n h)
      | inr (above, e) ↦
          let back : (n + (x + stride - n) + (2 ^ 64 - stride)) % 2 ^ 64 ≡ x =
            omega (arith, above, h, small) in
          rw (e, back) (mod-eq_of_lt h)
    ])
  where
    add_mod_self : (x n : ℕ) → x < n → (n + x) % n ≡ x
    add_mod_self x n h =
        mod-eq-sub-mod (omega arith) ∙ ap (λ k. k % n) (omega arith) ∙ mod-eq_of_lt h

-- A step backwards undoes a step forwards, in an array of at least 16 elements and few enough that
-- the sums fit 64 bits.
pub backwards-forwards :
    (d : ArrayWalkData)
    → IsInBounds d
    → stride ≤ d.num_elements
    → d.num_elements < 2 ^ 62
    → next_backwards (next_forwards d) ≡ d
unfolding next_backwards next_forwards
backwards-forwards d b h small =
    ap (λ x. record d { next_element = x })
      (there_and_back d.next_element d.num_elements b.next h small)

walk_step :
    (x k n : ℕ)
    → x < n
    → n < 2 ^ 62
    → ((x + stride) % 2 ^ 64 % n + k * stride) % n ≡ (x + suc k * stride) % n
walk_step x k n h small =
    let fits : (x + stride) % 2 ^ 64 ≡ x + stride = omega (arith, h, small) in
    let moved : x + stride + k * stride ≡ x + suc k * stride = omega arith in
    rw fits (mod-add-mod (x + stride) n (k * stride) ∙ ap (λ m. m % n) moved)

visit_forwards :
    (d y : ArrayWalkData)
    → visit next_forwards d ≡ some y
    → (y.num_elements ≡ d.num_elements)
      × (y.next_element ≡ (d.next_element + stride) % 2 ^ 64 % d.num_elements)
unfolding visit next_forwards
visit_forwards d y h = ground (arith, h)

-- After some rounds `array_walk_do_work` stands at the element 16 times as far, modulo the number
-- of elements, which is below 2^62.
pub walk_position :
    (iterations : ℕ) (d d' : ArrayWalkData)
    → d.next_element < d.num_elements
    → d.num_elements < 2 ^ 62
    → array_walk_do_work iterations d ≡ some d'
    → d'.next_element ≡ (d.next_element + iterations * stride) % d.num_elements
unfolding array_walk_do_work do_work
walk_position zero d d' b small h =
    ap (λ x. x.next_element) (sym (some-injective d d' h))
    ∙ sym (mod-eq_of_lt b)
    ∙ ap (λ x. x % d.num_elements) (omega arith)
walk_position (suc iterations) d d' b small h = elim (Option-cases (visit next_forwards d)) [
  | inl bad ↦ cc (rw (do_work, bad) at h)
  | inr (y, e) ↦
      let (same_num, moved) = visit_forwards d y e in
      let n = d.num_elements in
      let next_in : y.next_element < y.num_elements = omega (
        arith,
        same_num,
        moved,
        mod-lt ((d.next_element + stride) % 2 ^ 64) {m = n} (omega (arith, b)),
      ) in
      let rest =
        walk_position iterations y d' next_in (omega (arith, same_num, small))
          (rw (do_work, e) at h) in
      rest ∙ rw (same_num, moved) (walk_step d.next_element iterations n b small)
]
