-- ===== src/Options/Parse.antt =====
-- What the option loop of `main` makes of the locking options.
use chronos_project.Base.{
  ◌==◌, if◌then◌else◌, Option-cases, ℕ, bit_or, ◌≡◌, refl, ap, ◌∙◌, ◌⊎◌, inl, inr, Bool, false,
  ◌||◌, some, List, [], ◌∷◌, arith,
}
use chronos_project.Base.Int.{ℤ}
use chronos_project.Job.{no_locking, locking_flag, nested_locking}
use chronos_project.Options.{Parsed, parse_option, parse_all, start_parse}

-- Whether an option letter was given.
unfoldable pub has_letter : ℕ → List (ℕ × ℤ) → Bool
has_letter c [] = false
has_letter c ((d, arg) ∷ items) = d == c || has_letter c items

-- The values that `locking` can have.
abbrev IsLocking : ℕ → Type 0
IsLocking l = (l ≡ 0) ⊎ ((l ≡ 1) ⊎ (l ≡ 3))

-- The bits that the letters add.
abbrev or_letters : Bool → Bool → ℕ → ℕ
or_letters n l locking = if n then 3 else if l then bit_or locking locking_flag else locking

parse_option-locking :
    (p q : Parsed) (c : ℕ) (arg : ℤ)
    → parse_option p c arg ≡ some q
    → q.options.locking ≡ (
        if c == b'l'
        then bit_or p.options.locking locking_flag
        else if c == b'n'
        then bit_or p.options.locking nested_locking
        else p.options.locking)
unfolding parse_option
parse_option-locking p q c arg h = ground arith

-- One letter, on each of the values.
step_locking : ℕ → ℕ → ℕ
step_locking c l =
    if c == b'l' then bit_or l locking_flag else if c == b'n' then bit_or l nested_locking else l

step-IsLocking : (c l : ℕ) → IsLocking l → IsLocking (step_locking c l)
unfolding step_locking
step-IsLocking c l (inl e) = ground arith
step-IsLocking c l (inr (inl e)) = ground arith
step-IsLocking c l (inr (inr e)) = ground arith

step_letters :
    (c l : ℕ) (later_n later_l : Bool)
    → IsLocking l
    → or_letters later_n later_l (step_locking c l)
      ≡ or_letters (c == b'n' || later_n) (c == b'l' || later_l) l
unfolding step_locking
step_letters c l n k (inl e) = ground arith
step_letters c l n k (inr (inl e)) = ground arith
step_letters c l n k (inr (inr e)) = ground arith

parse_all-letters :
    (p q : Parsed) (items : List (ℕ × ℤ))
    → IsLocking p.options.locking
    → parse_all p items ≡ some q
    → q.options.locking
      ≡ or_letters (has_letter b'n' items) (has_letter b'l' items) p.options.locking
unfolding parse_all has_letter
parse_all-letters p q [] is h = ground arith
parse_all-letters p q ((c, arg) ∷ items) is h = elim (Option-cases (parse_option p c arg)) [
  | inl refused ↦ cc (rw (refused, parse_all) at h)
  | inr (p', e) ↦
      let l = p.options.locking in
      let first : p'.options.locking ≡ step_locking c l =
        unfold step_locking in parse_option-locking p p' c arg e in
      let is' : IsLocking p'.options.locking = rw first (step-IsLocking c l is) in
      let rest = parse_all-letters p' q items is' (rw (e, parse_all) at h) in
      rest
      ∙ ap (or_letters (has_letter b'n' items) (has_letter b'l' items)) first
      ∙ step_letters c l (has_letter b'n' items) (has_letter b'l' items) is
]

-- After the option loop `locking` is NESTED_LOCKING if -n was given, LOCKING if only -l was, and
-- NO_LOCKING otherwise, in whatever order and however often the options stand.
pub parse_all-locking :
    (items : List (ℕ × ℤ)) (q : Parsed)
    → parse_all start_parse items ≡ some q
    → q.options.locking ≡ (
        if has_letter b'n' items
        then nested_locking
        else if has_letter b'l' items
        then locking_flag
        else no_locking)
unfolding start_parse
parse_all-locking items q h = ground (arith, parse_all-letters start_parse q items (inl refl) h)
