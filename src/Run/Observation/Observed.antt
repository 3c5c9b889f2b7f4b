-- ===== src/Run/Observation/Observed.antt =====
-- The observation table of a tree whose fields hold distinct entities.
use mathlib.Core.List.{map-append}
use cimba_python.Base.{
  ℕ, suc, ◌-◌, ◌≤◌, ◌≡◌, refl, sym, ap, ◌∙◌, subst, inl, inr, false, Option, none, some, List, [],
  ◌∷◌, ◌++◌, ok, >>=-eq-ok, ok_injective, ite, if◌then◌else◌, arith, length, get_elem?, member,
  member-count, Bool-cases, count, count-append, IsDistinct, append-nil, append_assoc,
  length-append, map,
}
use cimba_python.Run.Observation.{
  Held, Observer, set_place, add_observer, collect_places, shift, place_of, found, pairs_of,
  all_pairs, observation_table, entity_table,
}

module _ {E : Type 0} (dec : Discrete E) where
  -- What a field at a place observes, each entity with the place.
  abbrev pub observed_at : ℕ → Option (List E) → List (ℕ × Option E)
  observed_at place none = []
  observed_at place (some subjects) = map (λ s. (place, some s)) subjects

  -- All that the fields observe, in the order of the fields and of each condition's list.
  abbrev pub observations : ℕ → List (Held dec) → List (ℕ × Option E)
  observations place [] = []
  observations place (h ∷ rest) = observed_at place h.observed ++ observations (suc place) rest

  -- A pair of the table, with the entity that is at its second place.
  abbrev pub resolved : List E → ℕ × ℕ → ℕ × Option E
  resolved entities pair = (pair.0, get_elem? entities pair.1)

  shifted :
      (e x : E) (xs : List E) (d : Dec (x ≡ e)) (o : Option ℕ) {i : ℕ}
      → ((j : ℕ) → o ≡ some j → get_elem? xs j ≡ some e)
      → ite d (some 0) (shift dec o) ≡ some i
      → get_elem? (x ∷ xs) i ≡ some e
  shifted e x xs (yes q) o found_at h =
      subst (λ j. get_elem? (x ∷ xs) j ≡ some e) (some_injective h) (ap some q)
    where
      some_injective : {i j : ℕ} → some i ≡ some j → i ≡ j
      some_injective e = cc
  shifted e x xs (no q) none found_at h = cc
  shifted e x xs (no q) (some j) found_at h =
      subst (λ k. get_elem? (x ∷ xs) k ≡ some e) (some_injective h) (found_at j refl)
    where
      some_injective : {i j : ℕ} → some i ≡ some j → i ≡ j
      some_injective e = cc

  get_elem?-place_of :
      (e : E) (xs : List E) {i : ℕ} → place_of dec e xs ≡ some i → get_elem? xs i ≡ some e
  unfolding place_of
  get_elem?-place_of e [] h = cc
  get_elem?-place_of e (x ∷ xs) h =
      shifted e x xs (dec x e) (place_of dec e xs) (λ j q. get_elem?-place_of e xs q) h

  member-none : (e : E) (xs : List E) → count dec e xs ≡ 0 → member dec e xs ≡ false
  member-none e xs h = elim (Bool-cases (member dec e xs)) [
    | inr q ↦ q
    | inl q ↦ absurd (omega (arith, h, member-count dec e xs q))
  ]

  entity_table-append :
      (front rest : List (Held dec))
      → entity_table dec (front ++ rest) ≡ entity_table dec front ++ entity_table dec rest
  unfolding entity_table
  entity_table-append [] rest = refl
  entity_table-append (h ∷ front) rest = ap (λ xs. h.entity ∷ xs) (entity_table-append front rest)

  length-entity_table :
      (fields : List (Held dec)) → length (entity_table dec fields) ≡ length fields
  unfolding entity_table
  length-entity_table [] = refl
  length-entity_table (h ∷ fields) = ap suc (length-entity_table fields)

  -- A new entity goes behind the others.
  set_place-new :
      (front rest : List (Held dec)) (h : Held dec)
      → IsDistinct dec (entity_table dec (front ++ h ∷ rest))
      → set_place dec h.entity (entity_table dec front) ≡ entity_table dec (front ++ h ∷ [])
  unfolding set_place entity_table
  set_place-new front rest h distinct =
      ap (λ b. if b then entity_table dec front else entity_table dec front ++ h.entity ∷ [])
        (member-none h.entity (entity_table dec front) once)
      ∙ sym (entity_table-append front (h ∷ []))
    where
      once : count dec h.entity (entity_table dec front) ≡ 0
      once =
          let split =
            subst (λ xs. count dec h.entity xs ≤ 1) (entity_table-append front (h ∷ rest))
              (distinct h.entity) in
          ground (
            arith,
            split,
            count-append dec h.entity (entity_table dec front) (h.entity ∷ entity_table dec rest),
          )

  of_observers : List (Observer dec) → List (ℕ × Option E)
  of_observers [] = []
  of_observers (c ∷ cs) = observed_at c.place (some c.subjects) ++ of_observers cs

  of_observers-snoc :
      (cs : List (Observer dec)) (c : Observer dec)
      → of_observers (cs ++ c ∷ []) ≡ of_observers cs ++ observed_at c.place (some c.subjects)
  unfolding of_observers
  of_observers-snoc [] c = append-nil (observed_at c.place (some c.subjects))
  of_observers-snoc (d ∷ cs) c =
      ap (λ xs. observed_at d.place (some d.subjects) ++ xs) (of_observers-snoc cs c)
      ∙ sym (append_assoc (observed_at d.place (some d.subjects)) (of_observers cs) _)

  of_observers-add_observer :
      (place : ℕ) (o : Option (List E)) (cs : List (Observer dec))
      → of_observers (add_observer dec place o cs) ≡ of_observers cs ++ observed_at place o
  of_observers-add_observer place none cs = sym (append-nil (of_observers cs))
  of_observers-add_observer place (some subjects) cs = of_observers-snoc cs _

  -- What the first loop has found: the entities of the fields, and all that the fields observe.
  AreCollected :
      List (Held dec)
      → List (Held dec)
      → List (Observer dec)
      → List E × List (Observer dec)
      → Type 0
  AreCollected front rest conditions r =
      (r.0 ≡ entity_table dec (front ++ rest))
      × (of_observers r.1 ≡ of_observers conditions ++ observations (length front) rest)

  collect_places-AreCollected :
      (front rest : List (Held dec)) (indices : List E) (conditions : List (Observer dec))
      → IsDistinct dec (entity_table dec (front ++ rest))
      → indices ≡ entity_table dec front
      → AreCollected front rest conditions (collect_places dec rest indices conditions)
  unfolding collect_places AreCollected
  collect_places-AreCollected front [] indices conditions distinct same = (
    same ∙ ap (entity_table dec) (sym (append-nil front)),
    sym (append-nil (of_observers conditions)),
  )
  collect_places-AreCollected front (h ∷ rest) indices conditions distinct same =
      let new = ap (set_place dec h.entity) same ∙ set_place-new front rest h distinct in
      let place : length (set_place dec h.entity indices) - 1 ≡ length front = omega (
        arith,
        ap length new,
        length-entity_table (front ++ h ∷ []),
        length-append front (h ∷ []),
      ) in
      let next : length (front ++ h ∷ []) ≡ suc (length front) =
        omega (arith, length-append front (h ∷ [])) in
      let moved = append_assoc front (h ∷ []) rest in
      let added =
        add_observer dec (length (set_place dec h.entity indices) - 1) h.observed conditions in
      let (table, found) =
        collect_places-AreCollected (front ++ h ∷ []) rest (set_place dec h.entity indices) added
          (subst (λ fields. IsDistinct dec (entity_table dec fields)) (sym moved) distinct) new in
      (
        table ∙ ap (entity_table dec) moved,
        found
            ∙ ap (λ xs. xs ++ observations (length (front ++ h ∷ [])) rest)
                (of_observers-add_observer _ h.observed conditions)
            ∙ ap
                (λ n.
                  (of_observers conditions ++ observed_at n h.observed)
                  ++ observations (length (front ++ h ∷ [])) rest)
                place
            ∙ ap
                (λ n.
                  (of_observers conditions ++ observed_at (length front) h.observed)
                  ++ observations n rest)
                next
            ∙ append_assoc (of_observers conditions) (observed_at (length front) h.observed) _,
      )

  pairs_of-resolved :
      (indices : List E) (place : ℕ) (subjects : List E) {pairs : List (ℕ × ℕ)}
      → pairs_of dec indices place subjects ≡ ok pairs
      → map (resolved indices) pairs ≡ observed_at place (some subjects)
  unfolding pairs_of
  pairs_of-resolved indices place [] h = ap (map (resolved indices)) (sym (ok_injective h))
  pairs_of-resolved indices place (s ∷ rest) h =
      let (i, at, h1) = >>=-eq-ok (found dec (place_of dec s indices)) _ h in
      let (more, others, same) = >>=-eq-ok (pairs_of dec indices place rest) _ h1 in
      ap (map (resolved indices)) (sym (ok_injective same))
      ∙ ap (λ e. (place, e) ∷ map (resolved indices) more)
          (get_elem?-place_of s indices (found_at (place_of dec s indices) at))
      ∙ ap (λ xs. (place, some s) ∷ xs) (pairs_of-resolved indices place rest others)
    where
      found_at : (o : Option ℕ) {i : ℕ} → found dec o ≡ ok i → o ≡ some i
      found_at none e = cc
      found_at (some j) e = cc

  all_pairs-resolved :
      (indices : List E) (conditions : List (Observer dec)) {pairs : List (ℕ × ℕ)}
      → all_pairs dec indices conditions ≡ ok pairs
      → map (resolved indices) pairs ≡ of_observers conditions
  unfolding all_pairs of_observers
  all_pairs-resolved indices [] h = ap (map (resolved indices)) (sym (ok_injective h))
  all_pairs-resolved indices (c ∷ conditions) h =
      let (here, first, h1) = >>=-eq-ok (pairs_of dec indices c.place c.subjects) _ h in
      let (more, others, same) = >>=-eq-ok (all_pairs dec indices conditions) _ h1 in
      ap (map (resolved indices)) (sym (ok_injective same))
      ∙ map-append (resolved indices) here more
      ∙ ap (λ xs. xs ++ map (resolved indices) more)
          (pairs_of-resolved indices c.place c.subjects first)
      ∙ ap (λ xs. observed_at c.place (some c.subjects) ++ xs)
          (all_pairs-resolved indices conditions others)

  -- If the entity fields hold distinct entities and the observation table is made, its pairs are
  -- exactly the observations of the fields, in the order of the fields and of each condition's list:
  -- the first place is the condition's row in the table of entities, and the row at the second place
  -- is the entity that is observed there.
  pub observation_table-observations :
      (fields : List (Held dec)) {pairs : List (ℕ × ℕ)}
      → IsDistinct dec (entity_table dec fields)
      → observation_table dec fields ≡ ok pairs
      → map (resolved (entity_table dec fields)) pairs ≡ observations 0 fields
  unfolding observation_table entity_table AreCollected of_observers
  observation_table-observations fields {pairs} distinct h =
      let collected = collect_places dec fields [] [] in
      let (same, found) = collect_places-AreCollected [] fields [] [] distinct refl in
      ap (λ xs. map (resolved xs) pairs) (sym same)
      ∙ all_pairs-resolved collected.0 collected.1 h
      ∙ found
