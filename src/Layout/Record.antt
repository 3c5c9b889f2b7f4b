-- ===== src/Layout/Record.antt =====
-- cimba/layout: `RecordLayout.of`, the native record of a model class. NumPy's aligned structure
-- layout is a parameter: it places named members, or raises on a repeated name.
use Prim.Native.String.{String, ◌++◌ as ◌<>◌}
use text.Mathlib.Text.{◌==◌ as str_eq}
use cimba_python.Base.{
  ℕ, Bool, true, false, Option, none, some, List, [], ◌∷◌, ◌++◌, Result, ok, raise, type_error,
  key_error, ◌>>=◌, ◌>>◌, if◌then◌else◌, ite, ◌==◌, ℕ_discrete,
}
use cimba_python.Schema.Types.{Kind, Item, EntityType, ValueType, Field}

-- The dtype of a record member.
pub data Member : Type 0 where
  pointer int64 float64 boolean uint64 : Member
  input_slot input_slot_int input_slot_bool : Member
  container_handle fractional_handle resource_handle dataset_handle condition_handle : Member
  store_int_handle store_float_handle priority_int_handle priority_float_handle : Member
  store_model_handle : ℕ → Member
  priority_model_handle : ℕ → Member

unfoldable pub Member-discrete : Discrete Member
Member-discrete = hlevel ℕ_discrete

-- A member and its offset: `dtype.fields[name][:2]`.
pub record Placed : Type 0 where
  pub member : Member
  pub offset : ℕ

pub record Struct : Type 0 where
  pub fields : List (String × Placed)
  pub alignment : ℕ
  pub itemsize : ℕ

-- A class with its fields, its base schemas' included, and the model classes of `__mro__[1:]`.
mutual
  pub data ModelClass : Type 0 where
    model_class : ℕ → List Field → Bases → ModelClass

  pub data Bases : Type 0 where
    nil : Bases
    cons : ModelClass → Bases → Bases

unfoldable pub scalar_dtype : ValueType → Result Member
scalar_dtype ValueType.int = ok Member.int64
scalar_dtype (ValueType.int_enum e) = ok Member.int64
scalar_dtype ValueType.bool = ok boolean
scalar_dtype ValueType.float = ok float64
scalar_dtype _ = raise type_error

unfoldable pub input_dtype : ValueType → Result Member
input_dtype ValueType.float = ok input_slot
input_dtype ValueType.int = ok input_slot_int
input_dtype ValueType.bool = ok input_slot_bool
input_dtype _ = raise type_error

unfoldable pub store_handle : Bool → Item → Result Member
store_handle true Item.int = ok priority_int_handle
store_handle true Item.float = ok priority_float_handle
store_handle true (Item.model m) = ok (priority_model_handle m)
store_handle false Item.int = ok store_int_handle
store_handle false Item.float = ok store_float_handle
store_handle false (Item.model m) = ok (store_model_handle m)
store_handle _ Item.other = raise type_error

unfoldable pub entity_handle : ValueType → Result Member
unfolding store_handle
entity_handle (ValueType.entity EntityType.container) = ok container_handle
entity_handle (ValueType.entity EntityType.fractional_container) = ok fractional_handle
entity_handle (ValueType.entity EntityType.resource) = ok resource_handle
entity_handle (ValueType.entity EntityType.dataset) = ok dataset_handle
entity_handle (ValueType.entity EntityType.condition) = ok condition_handle
entity_handle (ValueType.entity (EntityType.store item)) = store_handle false item
entity_handle (ValueType.entity (EntityType.priority_store item)) = store_handle true item
entity_handle _ = ok pointer

-- The members that one field adds.
unfoldable pub field_members : Field → Kind → Result (List (String × Member))
unfolding scalar_dtype input_dtype entity_handle
field_members f Kind.param = do m ← scalar_dtype f.value_type; ok ((f.name, m) ∷ [])
field_members f Kind.field = do m ← scalar_dtype f.value_type; ok ((f.name, m) ∷ [])
field_members f Kind.output = do m ← scalar_dtype f.value_type; ok ((f.name, m) ∷ [])
field_members f Kind.input = do m ← input_dtype f.value_type; ok ((f.name, m) ∷ [])
field_members f Kind.series = do m ← input_dtype f.value_type; ok ((f.name, m) ∷ [])
field_members f Kind.collection = ok ((f.name, pointer) ∷ (f.name <> "_length", uint64) ∷ [])
field_members f Kind.array = ok ((f.name, pointer) ∷ (f.name <> "_length", Member.int64) ∷ [])
field_members f Kind.entity = do m ← entity_handle f.value_type; ok ((f.name, m) ∷ [])
field_members f _ = ok ((f.name, pointer) ∷ [])

unfoldable pub members : List Field → Result (List (String × Member))
unfolding field_members
members [] = ok []
members (f ∷ fs) = do ms ← field_members f f.kind; rest ← members fs; ok (ms ++ rest)

-- `fields[name]`
unfoldable pub find_field : String → List (String × Placed) → Option Placed
find_field name [] = none
find_field name ((n, p) ∷ fs) = if str_eq n name then some p else find_field name fs

unfoldable pub same_place : Placed → Placed → Bool
unfolding Member-discrete
same_place p q = ite (Member-discrete p.member q.member) (p.offset == q.offset) false

unfoldable pub check_field : Placed → Option Placed → Result (Unit {0})
unfolding same_place
check_field inherited none = raise key_error
check_field inherited (some p) = if same_place p inherited then ok tt else raise type_error

-- The loop over `inherited.names[1:]`.
unfoldable pub check_fields : List (String × Placed) → List (String × Placed) → Result (Unit {0})
unfolding check_field find_field
check_fields fields [] = ok tt
check_fields fields ((name, p) ∷ rest) =
    check_field p (find_field name fields) >> check_fields fields rest

-- `names[1:]`: without the class descriptor.
abbrev pub tail : List (String × Placed) → List (String × Placed)
tail [] = []
tail (f ∷ fs) = fs

module _ (struct : List (String × Member) → Result Struct) where
  unfoldable mutual
    unfolding members check_fields

    -- `RecordLayout.of`
    pub record_layout : ModelClass → Result Struct
    record_layout (model_class id fields bases) = do
      ms ← members fields
      s ← struct (("class_descriptor", pointer) ∷ ms)
      check_bases s bases
      ok s

    pub check_bases : Struct → Bases → Result (Unit {0})
    check_bases s nil = ok tt
    check_bases s (cons base bases) = do
      inherited ← record_layout base
      check_fields s.fields (tail inherited.fields)
      check_bases s bases
