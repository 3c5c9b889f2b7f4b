-- ===== src/Schema/Types.antt =====
-- cimba/schema: field kinds, value types and fields. Classes are numbered.
use cimba_python.Base.{ℕ, Bool, ℕ_discrete}
use Prim.Native.String.{String}

-- `Field.kind`.
pub data Kind : Type 0 where
  param field output input series child ref array collection entity : Kind

-- The argument of `Store[...]` and `PriorityStore[...]`.
pub data Item : Type 0 where
  int float : Item
  model : ℕ → Item
  other : Item

pub data EntityType : Type 0 where
  container fractional_container resource dataset condition : EntityType
  store : Item → EntityType
  priority_store : Item → EntityType
  custom : ℕ → EntityType

pub data ValueType : Type 0 where
  float int bool : ValueType
  int_enum : ℕ → ValueType
  model : ℕ → ValueType
  entity : EntityType → ValueType
  other : ValueType

pub record Field : Type 0 where
  pub name : String
  pub kind : Kind
  pub value_type : ValueType
  pub optional : Bool

unfoldable pub Kind-discrete : Discrete Kind
Kind-discrete = hlevel

unfoldable pub EntityType-discrete : Discrete EntityType
EntityType-discrete = hlevel ℕ_discrete

unfoldable pub ValueType-discrete : Discrete ValueType
ValueType-discrete = hlevel ℕ_discrete
