-- ===== src/Schema/Assembly.antt =====
-- cimba/schema: `Assembly.of`, the walk over the tree of configured models and the tests of its
-- references. Models and entities are numbered. What a field of a model holds is a parameter: the
-- copies of class defaults that the first reading makes are taken as made.
pub mod Walk
pub mod Reached
pub mod References
pub mod Resolved
use cimba_python.Base.{
  ℕ, zero, suc, Bool, true, false, not, ◌&&◌, ◌||◌, Option, none, some, List, [], ◌∷◌, ◌++◌, map,
  Result, ok, raise, raise_if, model_definition_error, out_of_fuel, ◌>>=◌, ◌>>◌, if◌then◌else◌, ite,
  collect, member, unique, ℕ_discrete,
}
use cimba_python.Schema.Types.{EntityType}

-- What the schema says of a field, as far as the tree goes. `ref` and the lists of references name
-- the class of a model or the type of an entity.
pub data Target : Type 0 where
  to_model : ℕ → Target
  to_entity : EntityType → Target

pub data Slot : Type 0 where
  param field output array : Slot
  input : Bool → Slot
  -- Whether a `Series` gives the step.
  series : Bool → Slot
  entity : EntityType → Slot
  child : ℕ → Bool → Slot
  models : ℕ → Slot
  ref : Target → Bool → Slot
  refs : Target → Slot

-- A model, an entity, None or another object.
pub data Object : Type 0 where
  model entity : ℕ → Object
  nothing other : Object

-- One option of a value: an object, a list of them, or a value of another kind.
pub data Choice : Type 0 where
  object : Object → Choice
  list : List Object → Choice
  scalar source bare_series : Choice
  -- An array, and whether its elements pass `check_array`.
  array : Bool → Choice

pub data Held : Type 0 where
  one : Choice → Held
  swept : List Choice → ℕ → Held
  decision : Held

abbrev pub is_param : Slot → Bool
is_param param = true
is_param _ = false

abbrev pub is_decision : Held → Bool
is_decision decision = true
is_decision _ = false

abbrev pub choices : Held → List Choice
choices (one c) = c ∷ []
choices (swept cs axis) = cs
choices decision = scalar ∷ []

abbrev pub is_missing : Held → Bool
is_missing (one (object nothing)) = true
is_missing _ = false

abbrev pub is_bare : Held → Bool
is_bare (one bare_series) = true
is_bare _ = false

abbrev pub is_structural : Slot → Bool
is_structural (child c o) = true
is_structural (models c) = true
is_structural (ref t o) = true
is_structural (refs t) = true
is_structural _ = false

-- A source, or None where the input is optional.
abbrev pub is_source : Bool → Choice → Bool
is_source optional source = true
is_source optional (object nothing) = optional
is_source optional _ = false

unfoldable pub every : {A : Type 0} → (A → Bool) → List A → Bool
every p [] = true
every p (a ∷ rest) = p a && every p rest

-- What the program reads of the host's objects.
pub record World : Type 0 where
  pub slots : ℕ → List Slot
  pub held : ℕ → ℕ → Held
  pub is_instance : ℕ → ℕ → Bool
  pub is_entity : ℕ → EntityType → Bool
  -- The option that a design point picks for a field of a model.
  pub picks : ℕ → ℕ → Option Choice

module _ (w : World) (strict : Bool) where
  open w use {slots, held, is_instance, is_entity, picks}

  -- `picks[(model, field.name)]` fixes the option of a structural sweep.
  abbrev pub pick_or : Option Choice → Held → Held
  pick_or none h = h
  pick_or (some c) h = one c

  unfoldable pub picked : ℕ → ℕ → Slot → Held → Held
  picked m n slot (swept cs axis) =
      if is_structural slot then pick_or (picks m n) (swept cs axis) else swept cs axis
  picked m n slot h = h

  -- A child, of the declared class.
  unfoldable pub child_of : ℕ → Choice → Result ℕ
  child_of c (object (model m)) = if is_instance m c then ok m else raise model_definition_error
  child_of c _ = raise model_definition_error

  unfoldable pub owned_item : ℕ → Object → Result ℕ
  owned_item c (model m) = if is_instance m c then ok m else raise model_definition_error
  owned_item c _ = raise model_definition_error

  -- The items of one option of a list of models.
  unfoldable pub owned_items : ℕ → Choice → Result (List ℕ)
  unfolding owned_item collect
  owned_items c (list items) = collect (owned_item c) items
  owned_items c _ = raise model_definition_error

  abbrev pub concat : List (List ℕ) → List ℕ
  concat [] = []
  concat (xs ∷ rest) = xs ++ concat rest

  -- An item of a list of references: an entity is tested later.
  abbrev pub is_item : Target → Object → Bool
  is_item (to_entity t) o = true
  is_item (to_model c) (model m) = is_instance m c
  is_item (to_model c) nothing = true
  is_item (to_model c) _ = false

  abbrev pub is_list_of : Target → Choice → Bool
  is_list_of t (list items) = every (is_item t) items
  is_list_of t _ = false

  abbrev pub is_entity_of : EntityType → Held → Bool
  is_entity_of t (one (object (entity e))) = is_entity e t
  is_entity_of t _ = false

  abbrev pub passes_array : Choice → Bool
  passes_array (array fine) = fine
  passes_array _ = false

  unfoldable pub need : Bool → Result (List ℕ)
  need b = if b then ok [] else raise model_definition_error

  -- An input or series field: nothing is tested where a missing source is tolerated.
  unfoldable pub read_source : Bool → Bool → Held → Result (List ℕ)
  unfolding need every
  read_source optional has_step h =
      if not strict && (is_missing h || is_bare h)
      then ok []
      else need (every (is_source optional) (choices h) && has_step)

  -- The tests of one field, and the models that it adds to the tree.
  unfoldable pub read_slot : Slot → Held → Result (List ℕ)
  unfolding child_of owned_items need read_source collect unique every
  read_slot (entity t) h = need (is_entity_of t h)
  read_slot (input optional) h = read_source optional true h
  read_slot (series has_step) h = read_source false has_step h
  read_slot param h = need (not (is_missing h && strict))
  read_slot field h = need (not (is_missing h && strict))
  read_slot array h =
      if is_missing h then need (not strict) else need (every passes_array (choices h))
  read_slot (child c optional) h =
      if is_missing h && optional then ok [] else collect (child_of c) (choices h)
  read_slot (models c) h = do
    lists ← collect (owned_items c) (choices h)
    ok (unique ℕ_discrete [] (concat lists))
  read_slot (refs t) h = need (every (is_list_of t) (choices h))
  read_slot output h = ok []
  read_slot (ref t optional) h = ok []

  -- The fields of one model in turn: the children, in order. The second number is the field's.
  unfoldable pub read_slots : ℕ → ℕ → List Slot → Result (List ℕ)
  unfolding picked read_slot
  read_slots m n [] = ok []
  read_slots m n (slot ∷ rest) = do
    raise_if (is_decision (held m n) && not (is_param slot)) model_definition_error
    here ← read_slot slot (picked m n slot (held m n))
    more ← read_slots m (suc n) rest
    ok (here ++ more)

  unfoldable pub children : ℕ → Result (List ℕ)
  unfolding read_slots
  children m = read_slots m 0 (slots m)

  -- `for child in children: visit(child)`
  unfoldable pub visit_each : (ℕ → List ℕ → Result (List ℕ)) → List ℕ → List ℕ → Result (List ℕ)
  visit_each go [] visited = ok visited
  visit_each go (c ∷ cs) visited = go c visited >>= visit_each go cs

  -- `visit`: the models visited so far, in the order of the instances. The fuel bounds the depth.
  unfoldable pub visit : ℕ → ℕ → List ℕ → Result (List ℕ)
  unfolding children visit_each member
  visit zero m visited = raise out_of_fuel
  visit (suc fuel) m visited = do
    raise_if (member ℕ_discrete m visited) model_definition_error
    cs ← children m
    visit_each (visit fuel) cs (visited ++ m ∷ [])
