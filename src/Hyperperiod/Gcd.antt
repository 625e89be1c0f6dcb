-- ===== src/Hyperperiod/Gcd.antt =====
-- `gcd` computes a greatest common divisor.
use chronos_project.Base.{ℕ, zero, suc, ◌*◌, ◌/◌, ◌%◌, ◌^◌, ◌≤◌, ◌<◌, ◌≡◌, ap, arith, dec_lt}
use chronos_project.Hyperperiod.{value, through_int, gcd_sorted, gcd}
use chronos_project.Hyperperiod.Divides.{
  Divides, IsGcd, Divides-refl, Divides-mul, Divides-add, Divides-sub,
}
use mathlib.Core.Path.{subst}
use native.Mathlib.Nat.{div-add-mod', mod-lt}

pub through_int-small : (x : ℕ) → x < 2 ^ 31 → through_int x ≡ x
unfolding through_int
through_int-small x h = ground arith

-- What the step from (m, n) to (n, m % n) keeps.
IsGcd-step : (m n d : ℕ) → IsGcd d n (m % n) → IsGcd d m n
IsGcd-step m n d g =
    let e = div-add-mod' m n in
    record {
      left =
          subst (Divides d) e
            (Divides-add d (m / n * n) (m % n) (Divides-mul d n (m / n) g.left) g.right);
      right = g.left;
      greatest = λ k f dm dn. g.greatest k f dn (
          Divides-sub f (k * m) (m / n * (k * n)) (k * (m % n))
            (omega (arith, ap (λ (x : ℕ). k * x) e)) dm (Divides-mul f (k * n) (m / n) dn));
    }

IsGcd-last : (m n : ℕ) → m % n ≡ 0 → IsGcd n m n
IsGcd-last m n h =
    let e = div-add-mod' m n in
    record { left = (m / n, omega (arith, e)); right = Divides-refl n; greatest = λ k f dm dn. dn }

-- With an `n` that fits an `int`, more fuel than `n` is enough.
gcd_sorted-IsGcd :
    (fuel m n : ℕ)
    → 0 < n
    → n ≤ m
    → n < 2 ^ 31
    → n < fuel
    → (d : ℕ) × (gcd_sorted fuel m n ≡ value d) × IsGcd d m n × (0 < d) × (d ≤ n)
unfolding gcd_sorted
gcd_sorted-IsGcd zero m n pos_n le small enough = absurd (omega arith)
gcd_sorted-IsGcd (suc fuel) m n pos_n le small enough =
    let below = mod-lt m pos_n in
    let kept = through_int-small (m % n) (omega (arith, below)) in
    elim (dec_lt 0 (m % n)) [
      | yes more ↦
          let (d, e, g, p, le') =
            gcd_sorted-IsGcd fuel n (m % n) more (omega (arith, below)) (omega (arith, below))
              (omega (arith, below)) in
          (d, ground (arith, kept, below, e), IsGcd-step m n d g, p, omega (arith, le', below))
      | no last ↦
          let done : m % n ≡ 0 = omega arith in
          (n, ground (arith, kept, done), IsGcd-last m n done, pos_n, omega arith)
    ]

-- Two positive numbers, the second below 2^31: with more fuel than the second, `gcd` returns their
-- greatest common divisor, though it passes numbers through `int` variables.
pub gcd-IsGcd :
    (fuel m n : ℕ)
    → 0 < m
    → 0 < n
    → n < 2 ^ 31
    → n < fuel
    → (d : ℕ) × (gcd fuel m n ≡ value d) × IsGcd d m n × (0 < d) × (d ≤ n)
unfolding gcd
gcd-IsGcd fuel m n pos_m pos_n small enough = elim (dec_lt m n) [
  | yes below ↦
      let kept = through_int-small m (omega arith) in
      let (d, e, g, p, le) =
        gcd_sorted-IsGcd fuel n m pos_m (omega arith) (omega arith) (omega arith) in
      (
        d,
        ground (arith, kept, e),
        record { left = g.right; right = g.left; greatest = λ k f dm dn. g.greatest k f dn dm },
        p,
        omega (arith, le),
      )
  | no above ↦
      let (d, e, g, p, le) = gcd_sorted-IsGcd fuel m n pos_n (omega arith) small enough in
      (d, ground (arith, e), g, p, le)
]
