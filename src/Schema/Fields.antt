-- ===== src/Schema/Fields.antt =====
-- cimba/schema: the fields of a model class in `ClassSchema.of`. What `typing` reads of an annotation
-- is its data, and so is what `get_type_hints` merges of a class and its bases. Names and classes are
-- numbered.
pub mod Read
pub mod Nearest
use cimba_python.Base.{
  ℕ, Bool, true, false, not, ◌||◌, Option, none, some, List, [], ◌∷◌, ◌++◌, Result, ok, raise,
  model_definition_error, ◌>>=◌, ◌>>◌, raise_if, if◌then◌else◌, collect, ℕ_discrete,
}
use cimba_python.Base.Int.{ℤ}
use cimba_python.Modeling.Defaults.{put}
use cimba_python.Schema.Enums.{EnumClass, int_enum}
use cimba_python.Schema.Scalars.{Floats, Scalar, enum_member, scalar_value}
use cimba_python.Schema.Signatures.{Annotation, is_scalar, is_int_enum, check_annotation}
use cimba_python.Schema.Types.{Kind, ValueType}

-- The origin of an annotation without `| None`: a marker of the library, `list`, a class, or a plain
-- annotation.
pub data Origin : Type 0 where
  param output input series ref array list : Origin
  entity_class model_class plain : Origin

-- An annotation: its origin, its first argument, the whole of it, and whether it allows None.
pub record Declaration : Type 0 where
  pub origin : Origin
  pub argument : Option Annotation
  pub whole : Annotation
  pub optional : Bool

-- `getattr(model_class, name, None)`, in the cases that are told apart. An array has its initial
-- values, none of them where it has a length only.
pub data Default (F : Type 0) : Type 0 where
  nothing decision other : Default F
  value : Scalar F → Default F
  swept : List (Scalar F) → Default F
  series : F → F → Default F
  array : List (Scalar F) → Default F
  arrays : List (List (Scalar F)) → Default F

pub record Field (F : Type 0) : Type 0 where
  pub kind : Kind
  pub value_type : Annotation
  pub initial : Default F
  -- The step and the origin of a series.
  pub step : Option (F × F)
  pub optional : Bool

unfoldable pub kind_of : Origin → Kind
kind_of param = Kind.param
kind_of output = Kind.output
kind_of input = Kind.input
kind_of series = Kind.series
kind_of ref = Kind.ref
kind_of array = Kind.array
kind_of entity_class = Kind.entity
kind_of list = Kind.collection
kind_of model_class = Kind.child
kind_of plain = Kind.field

abbrev pub holds_scalar : Kind → Bool
holds_scalar Kind.param = true
holds_scalar Kind.field = true
holds_scalar Kind.output = true
holds_scalar _ = false

abbrev pub argument_or : Option Annotation → Annotation → Annotation
argument_or none whole = whole
argument_or (some a) whole = a

abbrev pub is_element : Option Annotation → Bool
is_element none = false
is_element (some a) = is_scalar a

-- `value_type` of a field, as `scalar_value` tells it apart.
unfoldable pub value_kind : Annotation → ValueType
value_kind Annotation.float = ValueType.float
value_kind Annotation.int = ValueType.int
value_kind Annotation.bool = ValueType.bool
value_kind (Annotation.enum (int_enum e)) = ValueType.int_enum e
value_kind _ = ValueType.other

-- The annotations, unless a name in them cannot be resolved.
abbrev pub resolved : Option (List (ℕ × Declaration)) → Result (List (ℕ × Declaration))
resolved none = raise model_definition_error
resolved (some annotations) = ok annotations

unfoldable pub reversed : List ℕ → List ℕ
reversed [] = []
reversed (base ∷ rest) = reversed rest ++ base ∷ []

module _ (fs : Floats) (members : ℕ → List ℤ)
    (convert : Annotation → Scalar fs.F → Result (Scalar fs.F)) where
  open fs use {F}

  -- The default of an enum field: a member, or options that are members.
  unfoldable pub enum_default : ℕ → Default F → Result (Default F)
  unfolding enum_member collect
  enum_default e nothing = ok nothing
  enum_default e decision = ok decision
  enum_default e (value v) = do m ← enum_member fs members e v; ok (value m)
  enum_default e (swept vs) = do ms ← collect (enum_member fs members e) vs; ok (swept ms)
  enum_default e _ = raise model_definition_error

  unfoldable pub scalar_default : Annotation → Default F → Result (Default F)
  unfolding check_annotation enum_default
  scalar_default (Annotation.enum (int_enum e)) d = do
    check_annotation fs members convert (Annotation.enum (int_enum e))
    enum_default e d
  scalar_default a d = do check_annotation fs members convert a; ok d

  unfoldable pub check_elements : Annotation → List (Scalar F) → Result (Unit {0})
  unfolding scalar_value value_kind collect
  check_elements a vs = do checked ← collect (scalar_value fs members (value_kind a)) vs; ok tt

  -- `check_array`
  unfoldable pub check_array : Annotation → Default F → Result (Unit {0})
  unfolding check_elements collect
  check_array a (array vs) = check_elements a vs
  check_array a (arrays options) = do checked ← collect (check_elements a) options; ok tt
  check_array a nothing = ok tt
  check_array a _ = raise model_definition_error

  abbrev pub step_of : Default F → Option (F × F)
  step_of (series step origin) = some (step, origin)
  step_of _ = none

  abbrev pub type_of : Kind → Declaration → Annotation
  type_of Kind.entity d = d.whole
  type_of kind d = argument_or d.argument d.whole

  abbrev pub check_element : Kind → Option Annotation → Result (Unit {0})
  check_element Kind.array a = raise_if (not (is_element a)) model_definition_error
  check_element kind a = ok tt

  abbrev pub check_values : Kind → Annotation → Default F → Result (Unit {0})
  check_values Kind.array a d = check_array a d
  check_values kind a d = ok tt

  -- One annotation, with the default of its name.
  unfoldable pub read_field : Declaration → Default F → Result (Field F)
  unfolding kind_of scalar_default check_array
  read_field d given = do
    let kind = kind_of d.origin
    check_element kind d.argument
    initial ←
        (if holds_scalar kind
          then scalar_default (argument_or d.argument d.whole) given
          else ok given)
    check_values kind (type_of kind d) initial
    ok (record {
      kind = kind;
      value_type = type_of kind d;
      initial = initial;
      step = step_of initial;
      optional = d.optional;
    })

  module _ (defaults : ℕ → Default F) where
    -- `for name, annotation in annotations.items()`
    unfoldable pub read_annotations :
        List (ℕ × Declaration) → List (ℕ × Field F) → Result (List (ℕ × Field F))
    unfolding read_field put
    read_annotations [] fields = ok fields
    read_annotations (entry ∷ rest) fields = do
      f ← read_field entry.1 (defaults entry.0)
      read_annotations rest (put ℕ_discrete entry.0 f fields)

    module _ (is_model : ℕ → Bool) (hints : ℕ → Option (List (ℕ × Declaration))) where
      -- `get_type_hints(base, include_extras=True)` of a model class; another class is skipped.
      unfoldable pub hints_of : ℕ → Result (List (ℕ × Declaration))
      hints_of base = if is_model base then resolved (hints base) else ok []

      -- The loop over the classes.
      unfoldable pub read_classes : List ℕ → List (ℕ × Field F) → Result (List (ℕ × Field F))
      unfolding hints_of read_annotations
      read_classes [] fields = ok fields
      read_classes (base ∷ rest) fields = do
        annotations ← hints_of base
        more ← read_annotations annotations fields
        read_classes rest more

      -- `for base in reversed(model_class.__mro__)`
      unfoldable pub read_fields : List ℕ → Result (List (ℕ × Field F))
      unfolding reversed read_classes
      read_fields mro = read_classes (reversed mro) []
