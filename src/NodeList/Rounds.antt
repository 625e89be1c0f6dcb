-- ===== src/NodeList/Rounds.antt =====
-- Walks around the list.
use chronos_project.Base.{
  ltb, if◌then◌else◌, lt→ltb, Option-cases, length, get_elem?, set, length-append, ℕ, zero, suc,
  ◌+◌, ◌-◌, ◌*◌, ◌^◌, ◌≡◌, refl, sym, ap, ◌∙◌, inl, inr, true, false, some, List, [], ◌∷◌, ◌++◌,
  map, arith,
}
use chronos_project.Base.Int.{ℤ, pos, negsuc, ◌+ℤ◌, ◌≤ℤ◌, as_int, eq_of_parts, int_laws}
use chronos_project.NodeList.{LinkedListData, walk_node, linked_list_do_work}
use mathlib.Core.List.{append_assoc}
use mathlib.Core.Path.{ap₂}
use mathlib.Core.Option.{some-injective}

-- Every value with some increments.
unfoldable pub raise : ℕ → List ℤ → List ℤ
raise m vs = map (λ v. v +ℤ pos m) vs

-- Every value is an `int` and stays one with some increments.
unfoldable pub AllFit : ℕ → List ℤ → Type 0
AllFit m [] = Unit
AllFit m (v ∷ vs) = ((negsuc (2 ^ 31 - 1) ≤ℤ v) × (v +ℤ pos m ≤ℤ pos (2 ^ 31 - 1))) × AllFit m vs

get_elem?-append_middle :
    (xs : List ℤ) (y : ℤ) (ys : List ℤ) → get_elem? (xs ++ y ∷ ys) (length xs) ≡ some y
get_elem?-append_middle [] y ys = refl
get_elem?-append_middle (x ∷ xs) y ys = get_elem?-append_middle xs y ys

set-append_middle :
    (xs : List ℤ) (y z : ℤ) (ys : List ℤ) → set (xs ++ y ∷ ys) (length xs) z ≡ xs ++ z ∷ ys
set-append_middle [] y z ys = refl
set-append_middle (x ∷ xs) y z ys = ap (λ l. x ∷ l) (set-append_middle xs y z ys)

as_int-fits :
    (v : ℤ)
    → negsuc (2 ^ 31 - 1) ≤ℤ v
    → v +ℤ pos 1 ≤ℤ pos (2 ^ 31 - 1)
    → as_int (v +ℤ pos 1) ≡ some (v +ℤ pos 1)
as_int-fits v low high =
    let low' : negsuc (2 ^ 31 - 1) ≤ℤ v +ℤ pos 1 = omega (int_laws, low) in
    unfold as_int in ground (arith, low', high)

-- One step on to the node after `i`.
walk_node-next :
    (d : LinkedListData) (i next : ℕ) (v : ℤ)
    → d.next_node ≡ some i
    → (if ltb (i + 1) (length d.values) then i + 1 else 0) ≡ next
    → get_elem? d.values next ≡ some v
    → as_int (v +ℤ pos 1) ≡ some (v +ℤ pos 1)
    → walk_node d
      ≡ some (record d { values = set d.values next (v +ℤ pos 1); next_node = some next })
unfolding walk_node
walk_node-next d i next v at e here fits =
    rw (at, walk_node, e, here, fits)
      (ap (λ k. some (record d { values = set d.values k (v +ℤ pos 1); next_node = some k })) e)

do_work_step :
    (k : ℕ) (d y : LinkedListData)
    → walk_node d ≡ some y
    → linked_list_do_work (suc k) d ≡ linked_list_do_work k y
unfolding linked_list_do_work
do_work_step k d y h = rw (h, linked_list_do_work) refl

abbrev at_node : ℕ → List ℤ → ℕ → LinkedListData
at_node n vs i = record { values = vs; next_node = some i; num_elements = n }

-- From the last node of `xs` to the end of the list.
walk_to_end :
    (n i : ℕ) (xs rest : List ℤ)
    → i + 1 ≡ length xs
    → AllFit 1 rest
    → linked_list_do_work (length rest) (at_node n (xs ++ rest) i)
      ≡ some (at_node n (xs ++ raise 1 rest) (i + length rest))
unfolding AllFit linked_list_do_work raise
walk_to_end n i xs [] e k = ap (λ j. some (at_node n (xs ++ []) j)) (omega arith)
walk_to_end n i xs (v ∷ vs) e ((low, high), k) =
    let v' = v +ℤ pos 1 in
    let inside : ltb (i + 1) (length (xs ++ v ∷ vs)) ≡ true =
      lt→ltb _ _ (omega (arith, e, length-append xs (v ∷ vs))) in
    let one_step =
      walk_node-next (at_node n (xs ++ v ∷ vs) i) i (length xs) v refl (rw inside e)
        (get_elem?-append_middle xs v vs) (as_int-fits v low high) in
    let moved : set (xs ++ v ∷ vs) (length xs) v' ≡ (xs ++ v' ∷ []) ++ vs =
      set-append_middle xs v v' vs ∙ sym (append_assoc xs (v' ∷ []) vs) in
    let rest =
      walk_to_end n (length xs) (xs ++ v' ∷ []) vs (omega (arith, length-append xs (v' ∷ []))) k in
    let reached : at_node n ((xs ++ v' ∷ []) ++ raise 1 vs) (length xs + length vs)
        ≡ at_node n (xs ++ v' ∷ raise 1 vs) (i + suc (length vs)) =
      ap₂ (at_node n) (append_assoc xs (v' ∷ []) (raise 1 vs)) (omega (arith, e)) in
    do_work_step (length vs) _ _ (rw moved at one_step) ∙ rest ∙ ap some reached

do_work-add :
    (a b : ℕ) (d e : LinkedListData)
    → linked_list_do_work a d ≡ some e
    → linked_list_do_work (a + b) d ≡ linked_list_do_work b e
do_work-add zero b d e h =
    let same : 0 + b ≡ b = omega arith in
    rw same (ap (linked_list_do_work b) (unfold linked_list_do_work in some-injective d e h))
do_work-add (suc a) b d e h = elim (Option-cases (walk_node d)) [
  | inl bad ↦ unfold linked_list_do_work in cc (rw (bad, linked_list_do_work) at h)
  | inr (y, w) ↦
      let moved : suc a + b ≡ suc (a + b) = omega arith in
      rw moved (do_work_step (a + b) d y w ∙ do_work-add a b y e (sym (do_work_step a d y w) ∙ h))
]

length-raise : (m : ℕ) (vs : List ℤ) → length (raise m vs) ≡ length vs
unfolding raise
length-raise m [] = refl
length-raise m (v ∷ vs) = ap suc (length-raise m vs)

-- From the head once around.
one_round :
    (n : ℕ) (v : ℤ) (vs : List ℤ)
    → AllFit 1 (v ∷ vs)
    → linked_list_do_work (length vs + 1) (at_node n (v ∷ vs) 0)
      ≡ some (at_node n (raise 1 (v ∷ vs)) 0)
unfolding AllFit raise linked_list_do_work
one_round n v vs ((low, high), k) =
    let around = walk_to_end n 0 (v ∷ []) vs (omega arith) k in
    let there : 0 + length vs ≡ length vs = omega arith in
    let end : ltb (length vs + 1) (length (v ∷ raise 1 vs)) ≡ false =
      ground (arith, length-raise 1 vs) in
    let one_step =
      walk_node-next (at_node n (v ∷ raise 1 vs) (length vs)) (length vs) 0 v refl (rw end refl)
        refl (as_int-fits v low high) in
    do_work-add (length vs) 1 _ _ (rw there at around) ∙ do_work_step 0 _ _ one_step

raise-suc : (m : ℕ) (vs : List ℤ) → raise m (raise 1 vs) ≡ raise (suc m) vs
unfolding raise
raise-suc m [] = refl
raise-suc m (v ∷ vs) =
    let here : v +ℤ pos 1 +ℤ pos m ≡ v +ℤ pos (suc m) = eq_of_parts _ _ (omega int_laws) in
    ap₂ (λ x xs. x ∷ xs) here (raise-suc m vs)

raise-zero : (vs : List ℤ) → raise 0 vs ≡ vs
unfolding raise
raise-zero [] = refl
raise-zero (v ∷ vs) =
    let here : v +ℤ pos 0 ≡ v = eq_of_parts _ _ (omega int_laws) in
    ap₂ (λ x xs. x ∷ xs) here (raise-zero vs)

AllFit-raise : (m : ℕ) (vs : List ℤ) → AllFit (suc m) vs → AllFit 1 vs × AllFit m (raise 1 vs)
unfolding AllFit raise
AllFit-raise m [] k = (_, _)
AllFit-raise m (v ∷ vs) ((low, high), k) =
    let (now, later) = AllFit-raise m vs k in
    (((low, omega (int_laws, high)), now), ((omega (int_laws, low), omega (int_laws, high)), later))

-- Whenever the workload has gone all around a list of at least one node some number of times, it
-- stands at the head again, each node's value has grown by exactly that number, and no null
-- pointer was followed, as long as the values stay ints.
pub linked_list_rounds :
    (m n : ℕ) (v : ℤ) (vs : List ℤ)
    → AllFit m (v ∷ vs)
    → linked_list_do_work
        (m * length (v ∷ vs))
        (record { values = v ∷ vs; next_node = some 0; num_elements = n })
      ≡ some (record { values = raise m (v ∷ vs); next_node = some 0; num_elements = n })
unfolding raise
linked_list_rounds zero n v vs k =
    let none_left : 0 * length (v ∷ vs) ≡ 0 = omega arith in
    let same : raise 0 (v ∷ vs) ≡ v ∷ vs = raise-zero (v ∷ vs) in
    rw none_left (unfold linked_list_do_work in ap (λ l. some (at_node n l 0)) (sym same))
linked_list_rounds (suc m) n v vs k =
    let (now, later) = AllFit-raise m (v ∷ vs) k in
    let split : suc m * length (v ∷ vs) ≡ length vs + 1 + m * length (v ∷ vs) = omega arith in
    let same_length : m * length (raise 1 (v ∷ vs)) ≡ m * length (v ∷ vs) =
      ap (λ l. m * l) (length-raise 1 (v ∷ vs)) in
    let rest = linked_list_rounds m n (v +ℤ pos 1) (raise 1 vs) later in
    rw split (
      do_work-add (length vs + 1) (m * length (v ∷ vs)) _ _ (one_round n v vs now)
      ∙ rw same_length at rest
      ∙ ap (λ l. some (at_node n l 0)) (raise-suc m (v ∷ vs)))
