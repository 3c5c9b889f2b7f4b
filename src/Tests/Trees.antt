-- ===== src/Tests/Trees.antt =====
-- A tree of a plant, a server of it and a list of two machines, which refer to each other.
use cimba_python.Base.{
  ℕ, zero, suc, ◌<◌, ◌≡◌, refl, true, false, none, List, [], ◌∷◌, ok, ltb, ◌==◌, ℕ_discrete, count,
  arith, unique, collect,
}
use cimba_python.Base.{subst}
use cimba_python.Base.Ends.{ends}
use cimba_python.Schema.Types.{EntityType}
use cimba_python.Schema.Assembly.{World, Slot, Target, Object, Choice, Held, children, visit}
use cimba_python.Schema.Assembly.Reached.{IsClosed, IsTree, visit-IsTree}
use cimba_python.Schema.Assembly.References.{Owner, assembly}
use cimba_python.Schema.Assembly.Resolved.{AreResolved, assembly-AreResolved}

-- The plant 0 has the server 1 and the machines 2 and 3. The server holds the resource 7, which
-- the plant names; each machine names the other.
abbrev plant : World
plant = record {
  slots = fields_of;
  held = values_of;
  is_instance = λ m c. ltb m 4;
  is_entity = λ e t. e == 7;
  picks = λ m n. none;
}
  where
    fields_of : ℕ → List Slot
    fields_of zero =
        Slot.child 1 false
        ∷ Slot.models 2
        ∷ Slot.ref (Target.to_entity EntityType.resource) false
        ∷ []
    fields_of (suc zero) = Slot.entity EntityType.resource ∷ []
    fields_of (suc (suc n)) = Slot.refs (Target.to_model 2) ∷ []

    values_of : ℕ → ℕ → Held
    values_of zero zero = Held.one (Choice.object (Object.model 1))
    values_of zero (suc zero) =
        Held.swept
          (Choice.list (Object.model 2 ∷ Object.model 3 ∷ [])
            ∷ Choice.list (Object.model 3 ∷ [])
            ∷ [])
          4
    values_of zero (suc (suc n)) = Held.one (Choice.object (Object.entity 7))
    values_of (suc zero) n = Held.one (Choice.object (Object.entity 7))
    values_of (suc (suc m)) n =
        Held.one (Choice.list (Object.model 3 ∷ Object.nothing ∷ Object.model 2 ∷ []))

owned_resource : Owner
owned_resource = record { owned = 7; holder = 1; field = 0; held_type = EntityType.resource }

builds : assembly plant true 3 0 ≡ ok (0 ∷ 1 ∷ 2 ∷ 3 ∷ [], owned_resource ∷ [])
unfolding assembly owned_resource ℕ_discrete
builds = refl

all_models : List ℕ
all_models = 0 ∷ 1 ∷ 2 ∷ 3 ∷ []

plant-IsClosed : IsClosed plant true all_models
unfolding all_models children unique collect ℕ_discrete
plant-IsClosed zero k cs h read below =
    in_all (subst (λ xs. 0 < count ℕ_discrete k xs) (read_as read) below)
  where
    read_as : {cs : List ℕ} → children plant true 0 ≡ ok cs → cs ≡ 1 ∷ 2 ∷ 3 ∷ []
    read_as read = cc

    in_all : 0 < count ℕ_discrete k (1 ∷ 2 ∷ 3 ∷ []) → 0 < count ℕ_discrete k all_models
    in_all h = ground arith
plant-IsClosed (suc zero) k cs h read below =
    absurd (no_child (subst (λ xs. 0 < count ℕ_discrete k xs) (read_as read) below))
  where
    read_as : {cs : List ℕ} → children plant true 1 ≡ ok cs → cs ≡ []
    read_as read = cc

    no_child : ¬ (0 < 0)
    no_child h = omega arith
plant-IsClosed (suc (suc m)) k cs h read below =
    absurd (no_child (subst (λ xs. 0 < count ℕ_discrete k xs) (read_as read) below))
  where
    read_as : {cs : List ℕ} → children plant true (suc (suc m)) ≡ ok cs → cs ≡ []
    read_as read = cc

    no_child : ¬ (0 < 0)
    no_child h = omega arith

visit-IsTree_example :
    (ends (visit plant true 5 0 []) ≡ true)
    × ((result : List ℕ) → visit plant true 5 0 [] ≡ ok result → IsTree plant true 0 result)
unfolding all_models ℕ_discrete
visit-IsTree_example = visit-IsTree plant true all_models 0 plant-IsClosed (omega arith)

assembly-AreResolved_example :
    IsTree plant true 0 (0 ∷ 1 ∷ 2 ∷ 3 ∷ []) × AreResolved plant true (0 ∷ 1 ∷ 2 ∷ 3 ∷ [])
assembly-AreResolved_example = assembly-AreResolved plant true 3 0 builds
