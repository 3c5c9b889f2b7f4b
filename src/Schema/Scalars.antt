-- ===== src/Schema/Scalars.antt =====
-- cimba/schema: `enum_member` and `scalar_value`, the validation of a scalar before it is stored.
-- The floating-point numbers of the host are a parameter.
use cimba_python.Base.{
  ℕ, ◌^◌, Bool, true, false, not, ◌||◌, Option, none, some, List, [], ◌∷◌, Result, ok, raise,
  raise_if, model_definition_error, overflow_error, ◌>>=◌, ◌>>◌, if◌then◌else◌, ◌==◌, ltb,
}
use cimba_python.Base.Int.{ℤ, pos, negsuc, eqb_ℤ}
use cimba_python.Schema.Types.{ValueType}

-- What the program uses of Python's floats.
pub record Floats : Type 1 where
  pub F : Type 0
  pub is_finite : F → Bool
  -- The integer that a float is equal to, if there is one.
  pub whole : F → Option ℤ
  -- `float(n)`, none where it overflows.
  pub of_int : ℤ → Option F

-- A Python value bound to a scalar field. A member is of an IntEnum, by its integer value.
pub data Scalar (F : Type 0) : Type 0 where
  int : ℤ → Scalar F
  float : F → Scalar F
  bool : Bool → Scalar F
  member : ℕ → ℤ → Scalar F
  other : Scalar F

unfoldable pub contains : ℤ → List ℤ → Bool
contains n [] = false
contains n (m ∷ ms) = eqb_ℤ n m || contains n ms

-- `-(1 << 63) <= n < (1 << 63)`
unfoldable pub in_int64 : ℤ → Bool
in_int64 (pos n) = ltb n (2 ^ 63)
in_int64 (negsuc n) = ltb n (2 ^ 63)

abbrev pub of_bool : Bool → ℤ
of_bool true = pos 1
of_bool false = pos 0

module _ (fs : Floats) (members : ℕ → List ℤ) where
  open fs use {F, is_finite, whole, of_int}

  -- `enum_member`: a member of the class, or the integer value of one.
  unfoldable pub enum_member : ℕ → Scalar F → Result (Scalar F)
  unfolding contains
  enum_member e (int n) =
      if contains n (members e) then ok (member e n) else raise model_definition_error
  enum_member e (member k n) = if k == e then ok (member k n) else raise model_definition_error
  enum_member e _ = raise model_definition_error

  -- The integer that a value equals: bool and IntEnum values are integers too.
  unfoldable pub integral : Scalar F → Option ℤ
  integral (int n) = some n
  integral (bool b) = some (of_bool b)
  integral (member e n) = some n
  integral (float x) = if is_finite x then whole x else none
  integral other = none

  -- `isfinite(value)`: an integer is converted first, which may overflow.
  unfoldable pub converts : Option F → Result Bool
  converts none = raise overflow_error
  converts (some x) = ok true

  unfoldable pub finite_value : Scalar F → Result Bool
  unfolding converts
  finite_value (float x) = ok (is_finite x)
  finite_value (int n) = converts (of_int n)
  finite_value (bool b) = converts (of_int (of_bool b))
  finite_value (member e n) = converts (of_int n)
  finite_value other = raise model_definition_error

  unfoldable pub int_value : Option ℤ → Result (Scalar F)
  unfolding in_int64
  int_value none = raise model_definition_error
  int_value (some n) = if in_int64 n then ok (int n) else raise model_definition_error

  unfoldable pub bool_value : Option ℤ → Result (Scalar F)
  bool_value none = raise model_definition_error
  bool_value (some n) =
      if eqb_ℤ n (pos 0)
      then ok (bool false)
      else if eqb_ℤ n (pos 1)
      then ok (bool true)
      else raise model_definition_error

  unfoldable pub to_float : Option F → Result (Scalar F)
  to_float none = raise overflow_error
  to_float (some x) = ok (float x)

  unfoldable pub float_value : Scalar F → Result (Scalar F)
  unfolding to_float
  float_value (float x) = ok (float x)
  float_value (int n) = to_float (of_int n)
  float_value (bool b) = to_float (of_int (of_bool b))
  float_value (member e n) = to_float (of_int n)
  float_value other = raise model_definition_error

  -- `scalar_value`
  unfoldable pub scalar_value : ValueType → Scalar F → Result (Scalar F)
  unfolding enum_member integral finite_value int_value bool_value float_value
  scalar_value (ValueType.int_enum e) v = enum_member e v
  scalar_value ValueType.int v = do
    finite ← finite_value v
    raise_if (not finite) model_definition_error
    int_value (integral v)
  scalar_value ValueType.bool v = bool_value (integral v)
  scalar_value ValueType.float v = float_value v
  scalar_value _ v = raise model_definition_error
