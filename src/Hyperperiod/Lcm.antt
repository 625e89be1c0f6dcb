-- ===== src/Hyperperiod/Lcm.antt =====
-- `taskset_lcm` computes the least common multiple of the periods.
use chronos_project.Base.{
  ltb, ◌==◌, if◌then◌else◌, ℕ, zero, suc, ◌*◌, ◌/◌, ◌%◌, ◌^◌, ◌≤◌, ◌<◌, ◌≡◌, refl, sym, ap, ◌∙◌,
  true, false, List, [], ◌∷◌, arith,
}
use chronos_project.Base.Int.{to_u64}
use chronos_project.Hyperperiod.{value, through_int, gcd, to_long, quot, lcm_loop, taskset_lcm}
use chronos_project.Hyperperiod.Divides.{Divides, IsGcd, Divides-refl, Divides-trans}
use chronos_project.Hyperperiod.Gcd.{through_int-small, gcd-IsGcd}
use native.Mathlib.Nat.{mul-div_cancel, div-le_self}

abbrev pub AllPeriods : (ℕ → Type 0) → List ℕ → Type 0
AllPeriods P [] = Unit
AllPeriods P (p ∷ ps) = P p × AllPeriods P ps

-- `l` is a multiple of all the periods, and divides every multiple of them all.
pub record IsLcm (l : ℕ) (periods : List ℕ) : Type 0 where
  pub multiple : AllPeriods (λ p. Divides p l) periods
  pub least : (m : ℕ) → AllPeriods (λ p. Divides p m) periods → Divides l m

quotient : (a d : ℕ) → 0 < d → a * d / d ≡ a
quotient a d h = mul-div_cancel a h

cancel : (a b d : ℕ) → 0 < d → a * d ≡ b * d → a ≡ b
cancel a b d h e = sym (quotient a d h) ∙ ap (λ x. x / d) e ∙ quotient b d h

-- One round: `lcm / GCD * period` is the least common multiple of the two.
lcm-step :
    (l p d : ℕ)
    → 0 < d
    → IsGcd d l p
    → Divides l (l / d * p)
      × Divides p (l / d * p)
      × ((m : ℕ) → Divides l m → Divides p m → Divides (l / d * p) m)
lcm-step l p d pos_d g =
    let (a, ea) = g.left in
    let (b, eb) = g.right in
    let q : l / d ≡ a = ap (λ x. x / d) ea ∙ quotient a d pos_d in
    (
      (
        b,
        omega (arith, ap (λ (x : ℕ). x * p) q, ap (λ (x : ℕ). a * x) eb, ap (λ (x : ℕ). b * x) ea),
      ),
      (a, ap (λ x. x * p) q),
      λ m (x, ex) (y, ey).
          let (c, ec) =
            g.greatest m (l * p) (y, omega (arith, ap (λ (x : ℕ). x * l) ey))
              (x, omega (arith, ap (λ (x : ℕ). x * p) ex)) in
          (
            c,
            cancel m (c * (l / d * p)) d pos_d (
                omega
                  (arith, ec, ap (λ (x : ℕ). c * (x * p)) ea, ap (λ (x : ℕ). c * (x * p) * d) q)),
          ),
    )

Divides-le : (d m : ℕ) → 0 < m → Divides d m → d ≤ m
Divides-le d m pos_m (zero, e) = absurd (omega (arith, e))
Divides-le d m pos_m (suc k, e) = omega (arith, e)

Divides-pos : (d m : ℕ) → 0 < m → Divides d m → 0 < d
Divides-pos zero m pos_m (k, e) = absurd (omega (arith, e))
Divides-pos (suc d) m pos_m h = omega arith

-- The conversions of one round change nothing in the range of the theorem.
round : ℕ → ℕ → ℕ → ℕ
round l d p = (to_u64 (quot (to_long l) (to_long (through_int d))) * p) % 2 ^ 64

round-exact : (l d p : ℕ) → l < 2 ^ 63 → d < 2 ^ 31 → l / d * p < 2 ^ 63 → round l d p ≡ l / d * p
unfolding round
round-exact l d p hl hd hr =
    let small = div-le_self l d in
    let low : ltb l (2 ^ 63) ≡ true = ground arith in
    let low' : ltb d (2 ^ 63) ≡ true = ground arith in
    let fits : l / d % 2 ^ 64 ≡ l / d = omega (arith, small) in
    rw (through_int-small d hd, low, low', fits) (omega arith)

lcm_loop-cons :
    (fuel l p d x : ℕ) (ps : List ℕ)
    → gcd fuel l p ≡ value d
    → (through_int d == 0) ≡ false
    → round l d p ≡ x
    → lcm_loop fuel l (p ∷ ps) ≡ lcm_loop fuel x ps
unfolding lcm_loop round
lcm_loop-cons fuel l p d x ps e nonzero exact =
    rw (e, lcm_loop) (rw (nonzero, if◌then◌else◌) (ap (λ y. lcm_loop fuel y ps) exact))

lcm_loop-IsLcm :
    (fuel l : ℕ) (ps : List ℕ) (m : ℕ)
    → 2 ^ 31 ≤ fuel
    → 0 < m
    → m < 2 ^ 63
    → Divides l m
    → AllPeriods (λ p. (0 < p) × (p < 2 ^ 31)) ps
    → AllPeriods (λ p. Divides p m) ps
    → (r : ℕ) × (lcm_loop fuel l ps ≡ value r)
      × Divides l r
      × AllPeriods (λ p. Divides p r) ps
      × ((k : ℕ) → Divides l k → AllPeriods (λ p. Divides p k) ps → Divides r k)
unfolding lcm_loop
lcm_loop-IsLcm fuel l [] m enough pos_m small dl ranges dm =
    (l, refl, Divides-refl l, tt, λ k dk _. dk)
lcm_loop-IsLcm fuel l (p ∷ ps) m enough pos_m small dl ranges dm =
    let (d, e, g, pos_d, le) =
      gcd-IsGcd fuel l p (Divides-pos l m pos_m dl) ranges.0.0 ranges.0.1 (omega arith) in
    let (dl', dp', least) = lcm-step l p d pos_d g in
    let dm' = least m dl dm.0 in
    let exact =
      round-exact l d p (omega (arith, Divides-le l m pos_m dl)) (omega arith)
        (omega (arith, Divides-le (l / d * p) m pos_m dm')) in
    let (r, run, dr, all, univ) =
      lcm_loop-IsLcm fuel (l / d * p) ps m enough pos_m small dm' ranges.1 dm.1 in
    (
      r,
      lcm_loop-cons fuel l p d (l / d * p) ps e (ground (arith, through_int-small d (omega arith)))
            exact
          ∙ run,
      Divides-trans l (l / d * p) r dl' dr,
      (Divides-trans p (l / d * p) r dp' dr, all),
      λ k dk (dpk, rest). univ k (least k dk dpk) rest,
    )

-- For periods that are positive and below 2^31, if some positive common multiple of them all is
-- below 2^63 and `gcd` has fuel 2^31, `taskset_lcm` returns their least common multiple: every
-- period divides it, and it divides every common multiple.
pub taskset_lcm-IsLcm :
    (fuel first : ℕ) (rest : List ℕ) (m : ℕ)
    → 2 ^ 31 ≤ fuel
    → AllPeriods (λ p. (0 < p) × (p < 2 ^ 31)) (first ∷ rest)
    → 0 < m
    → m < 2 ^ 63
    → AllPeriods (λ p. Divides p m) (first ∷ rest)
    → (l : ℕ) × (taskset_lcm fuel first rest ≡ value l) × IsLcm l (first ∷ rest)
unfolding taskset_lcm
taskset_lcm-IsLcm fuel first rest m enough ranges pos_m small dm =
    let (l, run, df, all, univ) =
      lcm_loop-IsLcm fuel first rest m enough pos_m small dm.0 ranges.1 dm.1 in
    (l, run, record { multiple = (df, all); least = λ k dk. univ k dk.0 dk.1 })
