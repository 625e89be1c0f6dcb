-- ===== src/Atomic.antt =====
-- The atomic integer of libchronos/atomic_int.h: an operation as a loop of a read and a
-- compare-and-swap, and threads whose reads and swaps interleave.
mod Tests
pub mod Counter
pub mod Threads
use chronos_project.Base.{
  ◌==◌, if◌then◌else◌, not_b, ℕ, zero, suc, ◌+◌, ◌*◌, ◌/◌, ◌%◌, Bool, ◌&&◌, Option, none, some,
  List, [], ◌∷◌,
}
use chronos_project.Base.Int.{ℤ, pos, pos_part, neg_part, sub_ℕ, ◌+ℤ◌, ◌-ℤ◌, ltb_ℤ, leb_ℤ, as_int}
use mathlib.Core.Path.{◌≡◌}

-- The operation codes. Any other code is the default branch.
abbrev pub aint_add : ℕ
aint_add = 0

abbrev pub aint_sub : ℕ
aint_sub = 1

abbrev pub aint_mul : ℕ
aint_mul = 2

abbrev pub aint_div : ℕ
aint_div = 3

abbrev pub aint_mod : ℕ
aint_mod = 4

abbrev pub magnitude : ℤ → ℕ
magnitude z = pos_part z + neg_part z

abbrev pub signed : Bool → ℕ → ℤ
signed minus n = if minus then sub_ℕ 0 n else pos n

abbrev pub is_negative : ℤ → Bool
is_negative z = ltb_ℤ z (pos 0)

abbrev pub product : ℤ → ℤ → ℤ
product a b =
    sub_ℕ (pos_part a * pos_part b + neg_part a * neg_part b)
      (pos_part a * neg_part b + neg_part a * pos_part b)

-- C's division rounds towards zero, and the remainder has the sign of the dividend.
abbrev pub quotient : ℤ → ℤ → ℤ
quotient a b =
    signed (if is_negative a then not_b (is_negative b) else is_negative b)
      (magnitude a / magnitude b)

abbrev pub remainder : ℤ → ℤ → ℤ
remainder a b = signed (is_negative a) (magnitude a % magnitude b)

-- The switch on the operation. `none` is an undefined computation: an overflow, or a division by
-- zero.
unfoldable pub new_value : (op : ℕ) (current val : ℤ) → Option ℤ
new_value op current val =
    if op == aint_add
    then as_int (current +ℤ val)
    else if op == aint_sub
    then as_int (current -ℤ val)
    else if op == aint_mul
    then as_int (product current val)
    else if op == aint_div
    then if magnitude val == 0 then none else as_int (quotient current val)
    else if op == aint_mod
    then if magnitude val == 0 then none else elim (as_int (quotient current val)) [
      | none ↦ none
      | some q ↦ some (remainder current val)
    ]
    else some current

-- Where a call of `atomic_int_op` is: before the read, between the read and the swap with the two
-- local variables, or returned with the result.
pub data Phase : Type 0 where
  start : Phase
  loaded : (current new_value : ℤ) → Phase
  returned : ℤ → Phase

pub record Call : Type 0 where
  pub op : ℕ
  pub val : ℤ
  pub phase : Phase

-- The next shared access of a call: the read with the computation after it, or the swap, which
-- fails and repeats the loop where the resource has changed.
unfoldable pub atomic_int_op : Call → (resource : ℤ) → Option (Call × ℤ)
atomic_int_op c resource = elim c.phase [
  | start ↦ elim (new_value c.op resource c.val) [
    | none ↦ none
    | some n ↦ some (record c { phase = loaded resource n }, resource)
  ]
  | loaded current n ↦
      if leb_ℤ resource current && leb_ℤ current resource
      then some (record c { phase = returned n }, n)
      else some (record c { phase = start }, resource)
  | returned n ↦ some (c, resource)
]

-- The operations that are one access.
abbrev pub atomic_int_init : (resource : ℤ) → ℤ
atomic_int_init resource = pos 0

abbrev pub atomic_int_get : (resource : ℤ) → ℤ
atomic_int_get resource = resource

abbrev pub atomic_int_set : (resource val : ℤ) → ℤ
atomic_int_set resource val = val

-- A call that starts.
abbrev pub begin : (op : ℕ) (val : ℤ) → Call
begin op val = record { op = op; val = val; phase = start }

abbrev pub atomic_int_add : ℤ → Call
atomic_int_add val = begin aint_add val

-- The next three pass `AINT_ADD`, as in the source.
abbrev pub atomic_int_sub : ℤ → Call
atomic_int_sub val = begin aint_add val

abbrev pub atomic_int_mul : ℤ → Call
atomic_int_mul val = begin aint_add val

abbrev pub atomic_int_div : ℤ → Call
atomic_int_div val = begin aint_add val

abbrev pub atomic_int_inc : Call
atomic_int_inc = begin aint_add (pos 1)

abbrev pub atomic_int_dec : Call
atomic_int_dec = begin aint_sub (pos 1)

abbrev pub atomic_int_mod : ℤ → Call
atomic_int_mod val = begin aint_mod val

-- Thread `i` makes its next access.
unfoldable pub step : (i : ℕ) → List Call → ℤ → Option (List Call × ℤ)
step i [] r = some ([], r)
step zero (c ∷ cs) r = elim (atomic_int_op c r) [ none ↦ none | some (c', r') ↦ some (c' ∷ cs, r') ]
step (suc i) (c ∷ cs) r = elim (step i cs r) [ none ↦ none | some (cs', r') ↦ some (c ∷ cs', r') ]

-- The threads make their accesses in the order of a schedule.
unfoldable pub run : (schedule : List ℕ) → List Call → ℤ → Option (List Call × ℤ)
run [] cs r = some (cs, r)
run (i ∷ schedule) cs r = elim (step i cs r) [ none ↦ none | some (cs', r') ↦ run schedule cs' r' ]
