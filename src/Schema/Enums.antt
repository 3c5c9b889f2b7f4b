-- ===== src/Schema/Enums.antt =====
-- cimba/schema: the enum classes that native records can hold.
use cimba_python.Base.{
  ℕ, Bool, true, false, not, ◌&&◌, List, [], ◌∷◌, Result, raise, model_definition_error, ◌>>◌,
  raise_if,
}
use cimba_python.Base.Int.{ℤ}
use cimba_python.Schema.Scalars.{in_int64}

-- A class of enum members: an IntEnum with the values of its members, or another Enum.
pub data EnumClass : Type 0 where
  int_enum : ℕ → EnumClass
  other_enum : EnumClass

unfoldable pub all_in_range : List ℤ → Bool
unfolding in_int64
all_in_range [] = true
all_in_range (n ∷ ns) = in_int64 n && all_in_range ns

abbrev pub no_members : List ℤ → Bool
no_members [] = true
no_members (n ∷ ns) = false

-- `check_scalar_type` of an enum class.
unfoldable pub check_enum : (ℕ → List ℤ) → EnumClass → Result (Unit {0})
unfolding all_in_range
check_enum members other_enum = raise model_definition_error
check_enum members (int_enum e) = do
  raise_if (no_members (members e)) model_definition_error
  raise_if (not (all_in_range (members e))) model_definition_error
