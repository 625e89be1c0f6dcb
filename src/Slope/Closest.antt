-- ===== src/Slope/Closest.antt =====
-- The closest line on one side of a size, for the search of `get_workload_slope`,
-- sched_test_app/src/slope.c.
use chronos_project.Base.{
  if◌then◌else◌, Bool-cases, ◌≡◌, refl, sym, ap, ◌∙◌, ◌⊎◌, inl, inr, Bool, true, false, ◌&&◌, ◌||◌,
  List, [], ◌∷◌, arith,
}
use chronos_project.Base.Int.{ℤ}
use chronos_project.Slope.{Floats, Line, below_zero}

abbrev pub Each {ℓ} : {A : Type 0} → (A → Type ℓ) → List A → Type ℓ
Each P [] = Unit
Each P (x ∷ xs) = P x × Each P xs

-- A line of the file.
abbrev pub HasLine : {A : Type 0} → Line A → List (Line A) → Type 0
HasLine l [] = ⊥
HasLine l (x ∷ xs) = (x ≡ l) ⊎ HasLine l xs

module _ {A : Type 0} (fp : Floats A) (side : ℤ → Bool) (better : ℤ → ℤ → Bool) where
  -- The best line on one side so far; one with a negative slope is none.
  unfoldable pub closest : Line A → List (Line A) → Line A
  closest best [] = best
  closest best (l ∷ lines) =
      closest (if side l.0 && (below_zero fp best.1 || better best.0 l.0) then l else best) lines

  pub record IsClosest (old best : Line A) (lines : List (Line A)) : Type 0 where
    pub empty : below_zero fp best.1 ≡ true → Each (λ l. side l.0 ≡ false) lines
    pub source :
        below_zero fp best.1 ≡ false → (best ≡ old) ⊎ (HasLine best lines × (side best.0 ≡ true))
    pub first :
        below_zero fp best.1 ≡ false → Each (λ l. side l.0 ≡ true → better best.0 l.0 ≡ false) lines
    pub grows : below_zero fp old.1 ≡ false → below_zero fp best.1 ≡ false
    pub beats :
        below_zero fp old.1 ≡ false → (z : ℤ) → better best.0 z ≡ true → better old.0 z ≡ true

  module _ (trans : (a b c : ℤ) → better a b ≡ true → better b c ≡ true → better a c ≡ true)
      (irrefl : (a : ℤ) → better a a ≡ false) where
    pub closest-IsClosest :
        (old : Line A) (lines : List (Line A))
        → Each (λ l. below_zero fp l.1 ≡ false) lines
        → IsClosest old (closest old lines) lines
    unfolding closest
    closest-IsClosest old [] h = record {
      empty = λ e. tt;
      source = λ e. inl refl;
      first = λ e. tt;
      grows = λ e. e;
      beats = λ e z b. b;
    }
    closest-IsClosest old (l ∷ lines) (nonneg, h) =
        elim (Bool-cases (side l.0 && (below_zero fp old.1 || better old.0 l.0))) [
          | inl closer ↦
              let c = closest-IsClosest l lines h in
              let on_side : side l.0 ≡ true = ground arith in
              let best_nonneg = c.grows nonneg in
              rw closer (record {
                empty = λ e. absurd (ground arith);
                source = λ e. elim (c.source e) [
                  | inl same ↦ inr (inl (sym same), ap (λ b. side b.0) same ∙ on_side)
                  | inr (listed, there) ↦ inr (inr listed, there)
                ];
                first = λ e. (
                  λ s. elim (Bool-cases (better (closest l lines).0 l.0)) [
                    | inl b ↦ let b' = c.beats nonneg l.0 b in absurd (ground (arith, irrefl l.0))
                    | inr b ↦ b
                  ],
                  c.first e,
                );
                grows = λ e. best_nonneg;
                beats = λ e z b. trans old.0 l.0 z (ground arith) (c.beats nonneg z b);
              })
          | inr farther ↦
              let c = closest-IsClosest old lines h in
              rw farther (record {
                empty = λ e. (
                  elim (Bool-cases (below_zero fp old.1)) [
                    | inl negative ↦ ground arith
                    | inr fine ↦ let e' = c.grows fine in absurd (ground arith)
                  ],
                  c.empty e,
                );
                source = λ e. elim (c.source e) [
                  | inl same ↦ inl same
                  | inr (listed, there) ↦ inr (inr listed, there)
                ];
                first = λ e. (
                  λ s. elim (Bool-cases (better (closest old lines).0 l.0)) [
                    | inl b ↦ let b' = c.beats (ground arith) l.0 b in absurd (ground arith)
                    | inr b ↦ b
                  ],
                  c.first e,
                );
                grows = c.grows;
                beats = c.beats;
              })
        ]

    -- A line with a slope is one of the file, on its side.
    pub closest-HasLine :
        (old : Line A) (lines : List (Line A))
        → Each (λ l. below_zero fp l.1 ≡ false) lines
        → below_zero fp old.1 ≡ true
        → below_zero fp (closest old lines).1 ≡ false
        → HasLine (closest old lines) lines × (side (closest old lines).0 ≡ true)
    closest-HasLine old lines nonneg none_yet fine =
        elim ((closest-IsClosest old lines nonneg).source fine) [
          | inl same ↦
              let e : below_zero fp (closest old lines).1 ≡ below_zero fp old.1 =
                ap (λ (l : Line A). below_zero fp l.1) same in
              absurd (ground arith)
          | inr both ↦ both
        ]
