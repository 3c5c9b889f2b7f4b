-- ===== src/Tests/Observed.antt =====
-- Observation tables: two stores and a condition, and a store that two fields hold.
use cimba_python.Base.{
  ℕ, ◌≡◌, refl, none, some, List, [], ◌∷◌, ok, get_elem?, map, ℕ_discrete, arith, IsDistinct,
}
use cimba_python.Run.Observation.{Held, observation_table, entity_table}
use cimba_python.Run.Observation.Observed.{resolved, observation_table-observations}

abbrev both_pairs : List (ℕ × ℕ)
both_pairs = (1, 2) ∷ (1, 0) ∷ []

abbrev store : ℕ → Held ℕ_discrete
store e = record { entity = e; observed = none }

abbrev condition : ℕ → List ℕ → Held ℕ_discrete
condition e subjects = record { entity = e; observed = some subjects }

abbrev hall : List (Held ℕ_discrete)
hall = store 4 ∷ condition 9 (5 ∷ 4 ∷ []) ∷ store 5 ∷ []

observes_both : observation_table ℕ_discrete hall ≡ ok both_pairs
unfolding observation_table ℕ_discrete
observes_both = refl

-- The condition has row 2 of the entities, and the table gives it place 1.
abbrev shared : List (Held ℕ_discrete)
shared = store 4 ∷ store 4 ∷ condition 9 (4 ∷ []) ∷ []

misplaces : observation_table ℕ_discrete shared ≡ ok ((1, 0) ∷ [])
unfolding observation_table ℕ_discrete
misplaces = refl

misplaced_row : get_elem? (entity_table ℕ_discrete shared) 1 ≡ some 4
unfolding entity_table
misplaced_row = refl

hall-IsDistinct : IsDistinct ℕ_discrete (entity_table ℕ_discrete hall)
unfolding entity_table
hall-IsDistinct k = ground arith

observation_table-observations_example :
    map (resolved ℕ_discrete (entity_table ℕ_discrete hall)) both_pairs
    ≡ (1, some 5) ∷ (1, some 4) ∷ []
observation_table-observations_example =
    observation_table-observations ℕ_discrete hall hall-IsDistinct observes_both
