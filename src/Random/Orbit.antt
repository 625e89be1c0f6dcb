-- ===== src/Random/Orbit.antt =====
-- The generator's states.
use chronos_project.Base.{
  ℕ, zero, suc, ◌+◌, ◌-◌, ◌/◌, ◌%◌, ◌^◌, ◌≤◌, ◌<◌, bit_and, bit_xor, ◌≡◌, refl, sym, ap, ◌∙◌, ◌⊎◌,
  inl, inr, arith,
}
use chronos_project.Base.Bits.{
  zero-bit_and, bit_and-one, bit_xor-lt, bit_xor-high, bit_xor_cancel, bit_xor-zero,
}
use chronos_project.Random.{lsfr_taps_64, lsfr_taps_32, lfsr_next, lfsrandom64, lfsrandom32}
use native.Mathlib.Nat.{mod_self}

-- A width and taps with the highest digit set.
module _ (w taps : ℕ) (low : 2 ^ w ≤ taps) (high : taps < 2 ^ suc w)
    (all_ones : bit_and ((2 ^ suc w - 1) % 2 ^ suc w) taps ≡ taps) where
  next_even : (r : ℕ) → r % 2 ≡ 0 → lfsr_next (suc w) r taps ≡ r / 2
  unfolding lfsr_next
  next_even r even =
      let m = 2 ^ suc w in
      let no_ones : (m - 0) % m ≡ 0 = ap (λ k. k % m) (omega arith) ∙ mod_self m in
      rw (bit_and-one r, even, no_ones)
        (ap (bit_xor (r / 2)) (zero-bit_and taps) ∙ bit_xor-zero (r / 2))

  next_odd : (r : ℕ) → r % 2 ≡ 1 → lfsr_next (suc w) r taps ≡ bit_xor (r / 2) taps
  unfolding lfsr_next
  next_odd r odd = rw (bit_and-one r, odd, all_ones)

  -- A state after an odd one has the highest digit, a state after an even one has not.
  next_range :
      (r : ℕ)
      → r < 2 ^ suc w
      → ((r % 2 ≡ 0) × (lfsr_next (suc w) r taps < 2 ^ w))
        ⊎ ((r % 2 ≡ 1)
            × (2 ^ w ≤ lfsr_next (suc w) r taps)
            × (lfsr_next (suc w) r taps < 2 ^ suc w))
  next_range r h = elim (digit r) [
    | inl even ↦ inl (even, rw (next_even r even) (omega (arith, h)))
    | inr odd ↦ inr (
        rw (next_odd r odd) (
          odd,
          bit_xor-high w (r / 2) taps (omega (arith, h)) low,
          bit_xor-lt (suc w) (r / 2) taps (omega (arith, h)) high,
        ))
  ]
    where
      digit : (r : ℕ) → (r % 2 ≡ 0) ⊎ (r % 2 ≡ 1)
      digit r = ground arith

  lfsr_next-injective :
      (r s : ℕ)
      → r < 2 ^ suc w
      → s < 2 ^ suc w
      → lfsr_next (suc w) r taps ≡ lfsr_next (suc w) s taps
      → r ≡ s
  lfsr_next-injective r s hr hs e = elim (next_range r hr) [
    | inl (even, below) ↦ elim (next_range s hs) [
      | inl (even', below') ↦ omega (arith, next_even r even, next_even s even', even, even', e)
      | inr (odd', above', _) ↦ absurd (omega (arith, below, above', e))
    ]
    | inr (odd, above, _) ↦ elim (next_range s hs) [
      | inl (even', below') ↦ absurd (omega (arith, below', above, e))
      | inr (odd', above', _) ↦
          let halves =
            bit_xor_cancel (r / 2 + s / 2) (r / 2) (s / 2) taps (omega arith) (omega arith)
              (sym (next_odd r odd) ∙ e ∙ next_odd s odd') in
          omega (arith, halves, odd, odd')
    ]
  ]

  next-positive : (r : ℕ) → 0 < r → r < 2 ^ suc w → 0 < lfsr_next (suc w) r taps
  next-positive r positive h = elim (next_range r h) [
    | inl (even, below) ↦ omega (arith, next_even r even, even, positive)
    | inr (odd, above, _) ↦ omega (arith, next_odd r odd, above, low)
  ]

-- The state after some calls.
unfoldable pub iterate : (ℕ → ℕ) → ℕ → ℕ → ℕ
iterate next zero r = r
iterate next (suc n) r = iterate next n (next r)

module _ (w : ℕ) (next : ℕ → ℕ)
    (stays : (r : ℕ) → 0 < r → r < 2 ^ w → (0 < next r) × (next r < 2 ^ w)) where
  iterate-positive : (n r : ℕ) → 0 < r → r < 2 ^ w → 0 < iterate next n r
  unfolding iterate
  iterate-positive zero r p h = p
  iterate-positive (suc n) r p h = let (p', h') = stays r p h in iterate-positive n (next r) p' h'

next_stays :
    (w taps : ℕ)
    → 2 ^ w ≤ taps
    → taps < 2 ^ suc w
    → bit_and ((2 ^ suc w - 1) % 2 ^ suc w) taps ≡ taps
    → (r : ℕ) → 0 < r
    → r < 2 ^ suc w
    → (0 < lfsr_next (suc w) r taps) × (lfsr_next (suc w) r taps < 2 ^ suc w)
next_stays w taps low high ones r p h = (
  next-positive w taps low high ones r p h,
  elim (next_range w taps low high ones r h) [
    | inl (_, below) ↦ omega (arith, below)
    | inr (_, _, below) ↦ below
  ],
)

-- From a seed that is not zero, neither generator ever reaches the state zero, which it could not
-- leave.
pub random_never_zero :
    (n r s : ℕ)
    → 0 < r
    → r < 2 ^ 32
    → 0 < s
    → s < 2 ^ 64
    → (0 < iterate lfsrandom32 n r) × (0 < iterate lfsrandom64 n s)
unfolding lfsrandom32 lfsrandom64
random_never_zero n r s pr hr ps hs = (
  iterate-positive 32 lfsrandom32 (next_stays 31 lsfr_taps_32 (omega arith) (omega arith) refl) n r
      pr hr,
  iterate-positive 64 lfsrandom64 (next_stays 63 lsfr_taps_64 (omega arith) (omega arith) refl) n s
      ps hs,
)

lfsrandom32-lt : (r : ℕ) → r < 2 ^ 32 → lfsrandom32 r < 2 ^ 32
unfolding lfsrandom32
lfsrandom32-lt r h = elim (next_range 31 lsfr_taps_32 (omega arith) (omega arith) refl r h) [
  | inl (_, below) ↦ omega (arith, below)
  | inr (_, _, below) ↦ below
]

-- Different 32-bit states never lead to the same state, after however many calls.
pub random_never_meets :
    (n r s : ℕ)
    → r < 2 ^ 32
    → s < 2 ^ 32
    → iterate lfsrandom32 n r ≡ iterate lfsrandom32 n s
    → r ≡ s
unfolding iterate lfsrandom32
random_never_meets zero r s hr hs e = e
random_never_meets (suc n) r s hr hs e =
    lfsr_next-injective 31 lsfr_taps_32 (omega arith) (omega arith) refl r s hr hs (
      random_never_meets n (lfsrandom32 r) (lfsrandom32 s) (lfsrandom32-lt r hr)
        (lfsrandom32-lt s hs) e)
