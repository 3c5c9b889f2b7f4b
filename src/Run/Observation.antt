-- ===== src/Run/Observation.antt =====
-- cimba/experiments/snapshot.py: `Snapshot._observation_table`, the pairs of a condition and an
-- entity that it observes, as places in the table of entities that `_descriptors` makes.
pub mod Observed
use cimba_python.Base.{
  ℕ, zero, suc, ◌-◌, Bool, Option, none, some, List, [], ◌∷◌, ◌++◌, Result, ok, raise,
  model_definition_error, ◌>>=◌, ite, if◌then◌else◌, length, member,
}

module _ {E : Type 0} (dec : Discrete E) where
  -- An entity field: what it holds, and what that observes if it is a condition.
  pub record Held : Type 0 where
    pub entity : E
    pub observed : Option (List E)

  -- A condition, by the place that the first loop gives it.
  pub record Observer : Type 0 where
    pub place : ℕ
    pub subjects : List E

  -- `indices.setdefault(id(entity), len(indices))`: each entity has its place in the list.
  unfoldable pub set_place : E → List E → List E
  unfolding member
  set_place e indices = if member dec e indices then indices else indices ++ e ∷ []

  abbrev pub add_observer : ℕ → Option (List E) → List Observer → List Observer
  add_observer place none conditions = conditions
  add_observer place (some subjects) conditions =
      conditions ++ record { place = place; subjects = subjects } ∷ []

  -- The first loop, over the entity fields of the tree.
  unfoldable pub collect_places : List Held → List E → List Observer → List E × List Observer
  unfolding set_place
  collect_places [] indices conditions = (indices, conditions)
  collect_places (h ∷ rest) indices conditions =
      let more = set_place h.entity indices in
      collect_places rest more (add_observer (length more - 1) h.observed conditions)

  abbrev pub shift : Option ℕ → Option ℕ
  shift none = none
  shift (some i) = some (suc i)

  -- `indices.get(id(subject))`
  unfoldable pub place_of : E → List E → Option ℕ
  place_of e [] = none
  place_of e (x ∷ xs) = ite (dec x e) (some 0) (shift (place_of e xs))

  abbrev pub found : Option ℕ → Result ℕ
  found none = raise model_definition_error
  found (some i) = ok i

  unfoldable pub pairs_of : List E → ℕ → List E → Result (List (ℕ × ℕ))
  unfolding place_of
  pairs_of indices place [] = ok []
  pairs_of indices place (s ∷ rest) = do
    i ← found (place_of s indices)
    more ← pairs_of indices place rest
    ok ((place, i) ∷ more)

  -- The second loop.
  unfoldable pub all_pairs : List E → List Observer → Result (List (ℕ × ℕ))
  unfolding pairs_of
  all_pairs indices [] = ok []
  all_pairs indices (c ∷ rest) = do
    here ← pairs_of indices c.place c.subjects
    more ← all_pairs indices rest
    ok (here ++ more)

  unfoldable pub observation_table : List Held → Result (List (ℕ × ℕ))
  unfolding collect_places all_pairs
  observation_table fields =
      let collected = collect_places fields [] [] in all_pairs collected.0 collected.1

  -- The table of entities, one row for each field.
  unfoldable pub entity_table : List Held → List E
  entity_table [] = []
  entity_table (h ∷ rest) = h.entity ∷ entity_table rest
