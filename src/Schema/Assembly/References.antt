-- ===== src/Schema/Assembly/References.antt =====
-- `Assembly.of`: the entities that the tree holds, and the tests of its references.
use cimba_python.Base.{
  ℕ, suc, Bool, not, ◌&&◌, Option, none, some, List, [], ◌∷◌, ◌++◌, Result, ok, raise, raise_if,
  model_definition_error, type_error, ◌>>=◌, ◌>>◌, ite, member, ℕ_discrete,
}
use cimba_python.Schema.Types.{EntityType, EntityType-discrete}
use cimba_python.Schema.Assembly.{World, Slot, Target, Object, Choice, Held, choices, picked, visit}

-- `owners[entity] = (instance, field)`
pub record Owner : Type 0 where
  pub owned : ℕ
  pub holder : ℕ
  pub field : ℕ
  pub held_type : EntityType

-- `owners.setdefault` keeps the first.
unfoldable pub owner_of : ℕ → List Owner → Option Owner
owner_of e [] = none
owner_of e (o ∷ rest) = ite (ℕ_discrete o.owned e) (some o) (owner_of e rest)

unfoldable pub check_each {ℓ} : {A : Type ℓ} → (A → Result (Unit {0})) → List A → Result (Unit {0})
check_each f [] = ok tt
check_each f (a ∷ rest) = f a >> check_each f rest

module _ (w : World) (strict : Bool) where
  open w use {slots, held, is_instance, is_entity}

  abbrev pub own_field : ℕ → ℕ → Slot → Held → List Owner
  own_field m n (Slot.entity t) (Held.one (Choice.object (Object.entity e))) =
      record { owned = e; holder = m; field = n; held_type = t } ∷ []
  own_field m n slot h = []

  unfoldable pub own_fields : ℕ → ℕ → List Slot → List Owner
  own_fields m n [] = []
  own_fields m n (slot ∷ rest) = own_field m n slot (held m n) ++ own_fields m (suc n) rest

  -- `for instance in instances: for field in instance.schema.fields: ...`
  unfoldable pub owners : List ℕ → List Owner
  unfolding own_fields
  owners [] = []
  owners (m ∷ rest) = own_fields m 0 (slots m) ++ owners rest

  abbrev pub check_owner : EntityType → Option Owner → Result (Unit {0})
  check_owner t none = raise model_definition_error
  check_owner t (some o) =
      ite (EntityType-discrete o.held_type t) (ok tt) (raise model_definition_error)

  unfoldable pub check_entity : List Owner → EntityType → Object → Result (Unit {0})
  unfolding owner_of EntityType-discrete
  check_entity os t (Object.entity e) = do
    raise_if (not (is_entity e t)) model_definition_error
    check_owner t (owner_of e os)
  check_entity os t _ = raise model_definition_error

  unfoldable pub check_model : List ℕ → ℕ → Object → Result (Unit {0})
  unfolding member
  check_model visited c (Object.model m) = do
    raise_if (not (is_instance m c)) model_definition_error
    raise_if (not (member ℕ_discrete m visited)) model_definition_error
  check_model visited c _ = raise model_definition_error

  -- One object that a reference names.
  unfoldable pub check_target : List ℕ → List Owner → Target → Object → Result (Unit {0})
  unfolding check_entity check_model
  check_target visited os (Target.to_entity t) o = check_entity os t o
  check_target visited os (Target.to_model c) o = check_model visited c o

  -- One item of a list of references: None is passed over in a list of models.
  unfoldable pub check_item : List ℕ → List Owner → Target → Object → Result (Unit {0})
  unfolding check_target
  check_item visited os (Target.to_model c) Object.nothing = ok tt
  check_item visited os t o = check_target visited os t o

  -- One option of a field.
  unfoldable pub check_choice : List ℕ → List Owner → Slot → Choice → Result (Unit {0})
  unfolding check_target check_item check_each
  check_choice visited os (Slot.ref t optional) (Choice.object Object.nothing) =
      raise_if (not optional && strict) model_definition_error
  check_choice visited os (Slot.ref t optional) (Choice.object o) = check_target visited os t o
  check_choice visited os (Slot.ref t optional) c = raise model_definition_error
  check_choice visited os (Slot.refs t) (Choice.list items) =
      check_each (check_item visited os t) items
  check_choice visited os (Slot.refs t) c = raise type_error
  check_choice visited os slot c = ok tt

  unfoldable pub check_fields : List ℕ → List Owner → ℕ → ℕ → List Slot → Result (Unit {0})
  unfolding check_each check_choice picked
  check_fields visited os m n [] = ok tt
  check_fields visited os m n (slot ∷ rest) = do
    check_each (check_choice visited os slot) (choices (picked w strict m n slot (held m n)))
    check_fields visited os m (suc n) rest

  -- `Assembly.of`: the models of the tree in their order, and who owns each entity.
  unfoldable pub assembly : ℕ → ℕ → Result (List ℕ × List Owner)
  unfolding visit owners check_fields check_each
  assembly fuel root = do
    models ← visit w strict fuel root []
    check_each (λ m. check_fields models (owners models) m 0 (slots m)) models
    ok (models, owners models)
