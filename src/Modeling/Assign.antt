-- ===== src/Modeling/Assign.antt =====
-- cimba/modeling: `Model.__setattr__`, which tests a value against the declared field, coerces enum
-- values, sets the attribute and tells the attached models. Objects and classes are numbered.
use cimba_python.Base.{
  ℕ, Bool, true, false, not, ◌&&◌, ◌||◌, Option, none, some, List, [], ◌∷◌, ◌++◌, Result, ok, raise,
  type_error, model_definition_error, ◌>>=◌, ◌>>◌, raise_if, if◌then◌else◌, unique, ℕ_discrete,
  collect,
}
use cimba_python.Base.Int.{ℤ}
use cimba_python.Schema.Scalars.{Floats, Scalar, enum_member}
use cimba_python.Schema.Enums.{EnumClass, int_enum, other_enum, check_enum}

-- The declaration of an attribute, without `| None`. A scalar may be of an enum.
pub data Origin : Type 0 where
  param output plain : Option EnumClass → Origin
  model : ℕ → Origin
  list_of_models : ℕ → Origin
  list_of_refs list_of_others ref array input series undeclared : Origin

-- One option of a value.
pub data Item (F : Type 0) : Type 0 where
  scalar : Scalar F → Item F
  object : ℕ → Item F
  objects : List ℕ → Item F
  source array_value missing : Item F

pub data Assigned (F : Type 0) : Type 0 where
  one : Item F → Assigned F
  swept : List (Item F) → ℕ → Assigned F
  decided : ℕ → Assigned F

module _ (fs : Floats) (members : ℕ → List ℤ) (is_instance : ℕ → ℕ → Bool) where
  open fs use {F}

  abbrev pub item_scalar : Item F → Scalar F
  item_scalar (scalar v) = v
  item_scalar _ = Scalar.other

  unfoldable pub member_of : EnumClass → Item F → Result (Item F)
  member_of other_enum v = raise model_definition_error
  member_of (int_enum e) v = do m ← enum_member fs members e (item_scalar v); ok (scalar m)

  -- The scalar's enum class, if it has one.
  abbrev pub enum_of : Origin → Option EnumClass
  enum_of (param k) = k
  enum_of (output k) = k
  enum_of (plain k) = k
  enum_of _ = none

  abbrev pub is_param : Origin → Bool
  is_param (param k) = true
  is_param _ = false

  abbrev pub is_missing : Item F → Bool
  is_missing missing = true
  is_missing _ = false

  -- Enum fields hold members: an int value is coerced.
  unfoldable pub coerce : Bool → EnumClass → Assigned F → Result (Assigned F)
  unfolding check_enum member_of collect
  coerce is_par k (decided d) = ok (decided d)
  coerce is_par k (one v) =
      if is_missing v
      then ok (one v)
      else (check_enum members k >> (member_of k v >>= λ m. ok (one m)))
  coerce true k (swept vs axis) = do
    check_enum members k
    ms ← collect (member_of k) vs
    ok (swept ms axis)
  coerce false k (swept vs axis) = do check_enum members k; ok (swept vs axis)

  unfoldable pub coerce_value : Origin → Assigned F → Result (Assigned F)
  unfolding coerce
  coerce_value o v = elim (enum_of o) [ none ↦ ok v | some k ↦ coerce (is_param o) k v ]

  abbrev pub item_options : Assigned F → List (Item F)
  item_options (one v) = v ∷ []
  item_options (swept vs axis) = vs
  item_options (decided d) = missing ∷ []

  -- A model of the class.
  unfoldable pub child_of : ℕ → Item F → Result ℕ
  child_of c (object m) = if is_instance m c then ok m else raise type_error
  child_of c _ = raise type_error

  unfoldable pub all_instances : ℕ → List ℕ → Bool
  all_instances c [] = true
  all_instances c (m ∷ ms) = is_instance m c && all_instances c ms

  -- A list of models of the class.
  unfoldable pub children_of : ℕ → Item F → Result (List ℕ)
  unfolding all_instances
  children_of c (objects ms) = if all_instances c ms then ok ms else raise type_error
  children_of c _ = raise type_error

  abbrev pub join : List (List ℕ) → List ℕ
  join [] = []
  join (ms ∷ rest) = ms ++ join rest

  abbrev pub is_list : Item F → Bool
  is_list (objects ms) = true
  is_list _ = false

  abbrev pub is_array : Item F → Bool
  is_array array_value = true
  is_array _ = false

  abbrev pub is_source : Item F → Bool
  is_source source = true
  is_source _ = false

  unfoldable pub every : (Item F → Bool) → List (Item F) → Bool
  every p [] = true
  every p (v ∷ vs) = p v && every p vs

  abbrev pub is_swept : Assigned F → Bool
  is_swept (swept vs axis) = true
  is_swept _ = false

  abbrev pub is_nothing : Assigned F → Bool
  is_nothing (one v) = is_missing v
  is_nothing _ = false

  -- An input field takes a source, a sweep of sources, or nothing where it is optional.
  unfoldable pub check_source : Bool → Assigned F → Result (List ℕ)
  unfolding every
  check_source may_miss (one source) = ok []
  check_source may_miss (one missing) = if may_miss then ok [] else raise type_error
  check_source may_miss (swept vs axis) =
      if every (λ v. is_source v || (may_miss && is_missing v)) vs then ok [] else raise type_error
  check_source may_miss _ = raise type_error

  -- The chain of tests on the declaration: the models to attach.
  unfoldable pub check_value : Origin → Bool → Assigned F → Result (List ℕ)
  unfolding child_of children_of collect every check_source unique
  check_value (param k) optional v = ok []
  check_value (model c) optional v =
      if optional && is_nothing v then ok [] else collect (child_of c) (item_options v)
  check_value (list_of_models c) optional v = do
    lists ← collect (children_of c) (item_options v)
    ok (unique ℕ_discrete [] (join lists))
  check_value list_of_refs optional v =
      if is_swept v && not (every is_list (item_options v)) then raise type_error else ok []
  check_value ref optional v = ok []
  check_value array optional v = if every is_array (item_options v) then ok [] else raise type_error
  check_value input optional v = check_source optional v
  check_value series optional v = check_source false v
  check_value list_of_others optional v = if is_swept v then raise type_error else ok []
  check_value (output k) optional v = if is_swept v then raise type_error else ok []
  check_value (plain k) optional v = if is_swept v then raise type_error else ok []
  check_value undeclared optional v = if is_swept v then raise type_error else ok []

  abbrev pub is_decided : Assigned F → Bool
  is_decided (decided d) = true
  is_decided _ = false

  -- `Model.__setattr__`: the value that is set, and the models whose `attached` is called, in turn.
  unfoldable pub set_attribute : Origin → Bool → Assigned F → Result (Assigned F × List ℕ)
  unfolding coerce_value check_value
  set_attribute o optional v = do
    raise_if (is_decided v && not (is_param o)) type_error
    w ← coerce_value o v
    children ← check_value o optional w
    ok (w, children)
