-- ===== src/Schema/Signatures.antt =====
-- cimba/schema: `_function_signature`, the annotated signature of a `@function`. What `inspect` and
-- `get_type_hints` read of a method is its data; converting a default is the host's call.
pub mod Typed
use cimba_python.Base.{
  ℕ, Bool, true, false, not, ◌&&◌, ◌||◌, Option, none, some, List, [], ◌∷◌, ◌++◌, Result, ok, raise,
  model_definition_error, ◌>>=◌, ◌>>◌, raise_if,
}
use cimba_python.Base.Int.{ℤ}
use cimba_python.Schema.Types.{EntityType}
use cimba_python.Schema.Enums.{EnumClass, int_enum, other_enum, check_enum}
use cimba_python.Schema.Scalars.{Floats, Scalar, enum_member}

-- An annotation: one of `_SCALARS`, an enum, model or entity class, None, or another object.
pub data Annotation : Type 0 where
  float int bool nothing other : Annotation
  enum : EnumClass → Annotation
  model : ℕ → Annotation
  entity : EntityType → Annotation

-- A parameter after `self`; no annotation, and no default, is none.
pub record Parameter (F : Type 0) : Type 0 where
  pub name : ℕ
  pub is_positional : Bool
  pub annotation : Option Annotation
  pub initial : Option (Scalar F)

pub record Method (F : Type 0) : Type 0 where
  -- Whether `get_type_hints` can resolve the annotations.
  pub is_resolved : Bool
  pub parameters : List (Parameter F)
  pub result : Option Annotation

pub record Signature (F : Type 0) : Type 0 where
  pub types : List (ℕ × Annotation)
  pub defaults : List (Scalar F)
  pub returns : Annotation

abbrev pub is_scalar : Annotation → Bool
is_scalar float = true
is_scalar int = true
is_scalar bool = true
is_scalar _ = false

abbrev pub is_int_enum : Annotation → Bool
is_int_enum (enum (int_enum e)) = true
is_int_enum _ = false

abbrev pub is_model_class : Annotation → Bool
is_model_class (model c) = true
is_model_class _ = false

abbrev pub is_nothing : Annotation → Bool
is_nothing nothing = true
is_nothing _ = false

-- The types that a native call passes.
abbrev pub is_passed : Annotation → Bool
is_passed a = is_scalar a || (is_int_enum a || is_model_class a)

abbrev pub annotated : Option Annotation → Result Annotation
annotated none = raise model_definition_error
annotated (some a) = ok a

abbrev pub is_empty {ℓ} : {A : Type ℓ} → List A → Bool
is_empty [] = true
is_empty _ = false

module _ (fs : Floats) (members : ℕ → List ℤ)
    (convert : Annotation → Scalar fs.F → Result (Scalar fs.F)) where
  open fs use {F}

  -- `check_scalar_type`
  unfoldable pub check_annotation : Annotation → Result (Unit {0})
  unfolding check_enum
  check_annotation (enum k) = check_enum members k
  check_annotation _ = ok tt

  -- The default of a parameter, as it is stored.
  unfoldable pub default_of : Annotation → Scalar F → Result (Scalar F)
  unfolding enum_member
  default_of (enum (int_enum e)) v = enum_member fs members e v
  default_of float v = convert float v
  default_of int v = convert int v
  default_of bool v = convert bool v
  default_of _ v = raise model_definition_error

  unfoldable pub add_default :
      Annotation → Option (Scalar F) → List (Scalar F) → Result (List (Scalar F))
  unfolding default_of
  add_default a none defaults = do
    raise_if (not (is_empty defaults)) model_definition_error
    ok defaults
  add_default a (some v) defaults = do d ← default_of a v; ok (defaults ++ d ∷ [])

  unfoldable pub read_parameters :
      List (Parameter F)
      → List (ℕ × Annotation)
      → List (Scalar F)
      → Result (List (ℕ × Annotation) × List (Scalar F))
  unfolding check_annotation add_default
  read_parameters [] typed defaults = ok (typed, defaults)
  read_parameters (p ∷ rest) typed defaults = do
    raise_if (not p.is_positional) model_definition_error
    a ← annotated p.annotation
    check_annotation a
    raise_if (not (is_passed a)) model_definition_error
    more ← add_default a p.initial defaults
    read_parameters rest (typed ++ (p.name, a) ∷ []) more

  unfoldable pub function_signature : Method F → Result (Signature F)
  unfolding read_parameters
  function_signature m = do
    raise_if (not m.is_resolved) model_definition_error
    read ← read_parameters m.parameters [] []
    returns ← annotated m.result
    check_annotation returns
    raise_if (not (is_nothing returns || is_passed returns)) model_definition_error
    ok (record { types = read.0; defaults = read.1; returns = returns })
