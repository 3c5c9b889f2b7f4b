-- ===== src/Design.antt =====
-- cimba/experiments/design.py: the expansion of a configured model into design points. Sweeps and
-- decisions carry the number of their axis; an object (a model, a list, a trace) is its identity.
pub mod Product
pub mod Points
use Prim.Native.String.{String}
use cimba_python.Base.{
  ℕ, zero, suc, ◌+◌, Bool, true, false, ◌&&◌, Option, none, some, List, [], ◌∷◌, ◌++◌, map, Result,
  ok, raise, model_definition_error, value_error, key_error, index_error, ◌>>=◌, ◌>>◌,
  if◌then◌else◌, ◌==◌, length, get_elem?,
}
use cimba_python.Base.Int.{ℤ}
use cimba_python.Schema.Types.{Kind, ValueType, Field}
use cimba_python.Schema.Scalars.{Floats, Scalar, scalar_value}

module _ (F : Type 0) where
  -- A parameter of a distribution: a number, or a sweep of numbers.
  pub data Parameter : Type 0 where
    fixed : Scalar F → Parameter
    swept : List (Scalar F) → ℕ → Parameter

  -- A value that is no sweep.
  pub data Choice : Type 0 where
    scalar : Scalar F → Choice
    object : ℕ → Choice
    missing empty_source : Choice
    distribution : String → List (String × Parameter) → Choice

  -- What a field holds in an assembly.
  pub data Value : Type 0 where
    one : Choice → Value
    sweep : List Choice → ℕ → Value
    decision : ℕ → Value

  pub record Instance : Type 0 where
    pub model : ℕ
    pub fields : List (Field × Value)

  -- A field of a model and the value that a point binds to it.
  pub record Binding : Type 0 where
    pub model : ℕ
    pub name : String
    pub value : Choice

  pub record DesignPoint : Type 0 where
    pub index : ℕ
    pub levels : List (ℕ × ℕ)
    pub bindings : List Binding

  pub record Design : Type 0 where
    pub axes : List (ℕ × ℕ)
    pub points : List DesignPoint

-- A dictionary from axes to numbers.
unfoldable pub lookup : ℕ → List (ℕ × ℕ) → Option ℕ
lookup a [] = none
lookup a ((b, n) ∷ m) = if b == a then some n else lookup a m

-- `axes.setdefault(...)` and the comparison of the lengths: an axis and the options of its sweep.
unfoldable pub add_axis : ℕ → ℕ → List (ℕ × ℕ) → Result (List (ℕ × ℕ))
unfolding lookup
add_axis axis n axes = elim (lookup axis axes) [
  | none ↦ ok (axes ++ (axis, n) ∷ [])
  | some m ↦ if m == n then ok axes else raise value_error
]

-- `product(*(range(n) for n in lengths))`: the last position varies fastest.
unfoldable pub prefix_all : ℕ → List (List ℕ) → List (List ℕ)
prefix_all i [] = []
prefix_all i (p ∷ ps) = (i ∷ p) ∷ prefix_all i ps

-- The combinations that begin with i, i + 1, … up to i + n - 1.
unfoldable pub from_position : ℕ → ℕ → List (List ℕ) → List (List ℕ)
unfolding prefix_all
from_position zero i rest = []
from_position (suc n) i rest = prefix_all i rest ++ from_position n (suc i) rest

unfoldable pub positions : List ℕ → List (List ℕ)
unfolding from_position
positions [] = [] ∷ []
positions (n ∷ ns) = from_position n 0 (positions ns)

-- `dict(zip(axis_ids, positions))`
unfoldable pub zip_levels : List (ℕ × ℕ) → List ℕ → List (ℕ × ℕ)
zip_levels [] ps = []
zip_levels (a ∷ axes) [] = []
zip_levels (a ∷ axes) (p ∷ ps) = (a.0, p) ∷ zip_levels axes ps

abbrev pub get_option {ℓ} : {A : Type ℓ} → Option A → Result A
get_option none = raise index_error
get_option (some a) = ok a

abbrev pub get_level : Option ℕ → Result ℕ
get_level none = raise key_error
get_level (some n) = ok n

module _ (fs : Floats) (members : ℕ → List ℤ) where
  open fs use {F}

  unfoldable pub parameter_axes : List (String × Parameter F) → List (ℕ × ℕ) → Result (List (ℕ × ℕ))
  unfolding add_axis
  parameter_axes [] axes = ok axes
  parameter_axes ((key, fixed v) ∷ ps) axes = parameter_axes ps axes
  parameter_axes ((key, swept vs axis) ∷ ps) axes =
      add_axis axis (length vs) axes >>= parameter_axes ps

  -- The axes that one field adds.
  unfoldable pub value_axes : Value F → List (ℕ × ℕ) → Result (List (ℕ × ℕ))
  unfolding parameter_axes
  value_axes (sweep vs axis) axes = add_axis axis (length vs) axes
  value_axes (one (distribution method ps)) axes = parameter_axes ps axes
  value_axes _ axes = ok axes

  unfoldable pub field_axes : List (Field × Value F) → List (ℕ × ℕ) → Result (List (ℕ × ℕ))
  unfolding value_axes
  field_axes [] axes = ok axes
  field_axes ((f, v) ∷ fields) axes = value_axes v axes >>= field_axes fields

  unfoldable pub all_axes : List (Instance F) → List (ℕ × ℕ) → Result (List (ℕ × ℕ))
  unfolding field_axes
  all_axes [] axes = ok axes
  all_axes (i ∷ is) axes = field_axes i.fields axes >>= all_axes is

  -- A field that still holds a decision stops the expansion.
  unfoldable pub check_decisions : List (Field × Value F) → Result (Unit {0})
  check_decisions [] = ok tt
  check_decisions ((f, decision d) ∷ fields) = raise model_definition_error
  check_decisions ((f, v) ∷ fields) = check_decisions fields

  unfoldable pub check_all_decisions : List (Instance F) → Result (Unit {0})
  unfolding check_decisions
  check_all_decisions [] = ok tt
  check_all_decisions (i ∷ is) = check_decisions i.fields >> check_all_decisions is

  -- `value.values[levels[value.axis]]`
  unfoldable pub pick {ℓ} : {A : Type ℓ} → List A → ℕ → List (ℕ × ℕ) → Result A
  pick vs axis levels = do i ← get_level (lookup axis levels); get_option (get_elem? vs i)

  unfoldable pub choose : Value F → List (ℕ × ℕ) → Result (Choice F)
  unfolding pick lookup
  choose (one v) levels = ok v
  choose (sweep vs axis) levels = pick vs axis levels
  choose (decision d) levels = raise model_definition_error

  unfoldable pub choose_parameters :
      List (String × Parameter F) → List (ℕ × ℕ) → Result (List (String × Parameter F))
  unfolding pick lookup
  choose_parameters [] levels = ok []
  choose_parameters ((key, fixed v) ∷ ps) levels = do
    rest ← choose_parameters ps levels
    ok ((key, fixed v) ∷ rest)
  choose_parameters ((key, swept vs axis) ∷ ps) levels = do
    v ← pick vs axis levels
    rest ← choose_parameters ps levels
    ok ((key, fixed v) ∷ rest)

  -- `if field.kind == "input" and field.optional and value is None`
  unfoldable pub default_source : Kind → Bool → Choice F → Choice F
  default_source Kind.input true missing = empty_source
  default_source _ _ v = v

  unfoldable pub fix_parameters : Choice F → List (ℕ × ℕ) → Result (Choice F)
  unfolding choose_parameters
  fix_parameters (distribution method ps) levels = do
    ps' ← choose_parameters ps levels
    ok (distribution method ps')
  fix_parameters v levels = ok v

  -- `scalar_value(field, value, ...)`: what is no scalar is refused.
  unfoldable pub check_scalar : ValueType → Choice F → Result (Unit {0})
  check_scalar t (scalar v) = scalar_value fs members t v >>= λ w. ok tt
  check_scalar t _ = raise model_definition_error

  -- `if field.kind in {"param", "field"}`
  unfoldable pub check_bound : Kind → ValueType → Choice F → Result (Unit {0})
  unfolding check_scalar
  check_bound Kind.param t v = check_scalar t v
  check_bound Kind.field t v = check_scalar t v
  check_bound _ t v = ok tt

  unfoldable pub bind_field : ℕ → Field → Value F → List (ℕ × ℕ) → Result (Binding F)
  unfolding choose default_source fix_parameters check_bound
  bind_field model f value levels = do
    chosen ← choose value levels
    v ← fix_parameters (default_source f.kind f.optional chosen) levels
    check_bound f.kind f.value_type v
    ok (record { model = model; name = f.name; value = v })

  unfoldable pub bind_fields : ℕ → List (Field × Value F) → List (ℕ × ℕ) → Result (List (Binding F))
  unfolding bind_field
  bind_fields model [] levels = ok []
  bind_fields model ((f, value) ∷ fields) levels = do
    b ← bind_field model f value levels
    bs ← bind_fields model fields levels
    ok (b ∷ bs)

  unfoldable pub bind_all : List (Instance F) → List (ℕ × ℕ) → Result (List (Binding F))
  unfolding bind_fields
  bind_all [] levels = ok []
  bind_all (i ∷ is) levels = do
    bs ← bind_fields i.model i.fields levels
    rest ← bind_all is levels
    ok (bs ++ rest)

  -- `for positions in product(...)`
  unfoldable pub make_points :
      List (Instance F) → List (ℕ × ℕ) → ℕ → List (List ℕ) → Result (List (DesignPoint F))
  unfolding bind_all zip_levels
  make_points is axes index [] = ok []
  make_points is axes index (ps ∷ rest) = do
    bindings ← bind_all is (zip_levels axes ps)
    points ← make_points is axes (suc index) rest
    ok (record { index = index; levels = zip_levels axes ps; bindings = bindings } ∷ points)

  -- `Design.of`
  unfoldable pub design : List (Instance F) → Result (Design F)
  unfolding check_all_decisions all_axes positions make_points
  design is = do
    check_all_decisions is
    axes ← all_axes is []
    points ← make_points is axes 0 (positions (map (λ a. a.1) axes))
    ok (record { axes = axes; points = points })

  -- `Design.levels` of a sweep: its value at each point.
  unfoldable pub levels_of {ℓ} : {A : Type ℓ} → List A → ℕ → List (DesignPoint F) → Result (List A)
  unfolding pick lookup
  levels_of vs axis [] = ok []
  levels_of vs axis (p ∷ ps) = do
    v ← pick vs axis p.levels
    rest ← levels_of vs axis ps
    ok (v ∷ rest)

  unfoldable pub levels {ℓ} : {A : Type ℓ} → Design F → List A → ℕ → Result (List A)
  unfolding levels_of
  levels d vs axis = elim (lookup axis d.axes) [
    | none ↦ raise key_error
    | some n ↦ levels_of vs axis d.points
  ]
