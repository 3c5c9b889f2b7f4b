-- ===== src/Tests/Classes.antt =====
-- Classes of models: a derived class overrides a function of its base and adds an event; another
-- class has two bases that declare one name with different types.
use cimba_python.Base.{
  ℕ, zero, suc, ◌≤◌, ◌≡◌, refl, Bool, true, false, ◌==◌, if◌then◌else◌, All, ◌||◌, Option, none,
  some, List, [], ◌∷◌, length, get_elem?, Result, ok, ltb, ℕ_discrete, count, arith, IsDistinct,
}
use cimba_python.Base.Int.{ℤ, pos, eqb_ℤ}
use cimba_python.Schema.Scalars.{Floats, Scalar}
use cimba_python.Schema.Signatures.{
  Annotation, Method, Signature, function_signature, is_passed, is_nothing,
}
use cimba_python.Schema.Signatures.Typed.{IsTyped, function_signature-IsTyped}
use cimba_python.Schema.Slots.{Role, get, process, slot, event, function}
use cimba_python.Schema.Classes.{Classes, Schema, names, class_schema}
use cimba_python.Schema.Slots.Added.{slot_kept, process_kept}
use cimba_python.Schema.Classes.Attributes.{nearest}
use cimba_python.Schema.Classes.Dispatch.{Extends, class_schema-dispatch}
use cimba_python.Schema.Classes.Overrides.{IsKept, class_schema-IsKept}
use cimba_python.Modeling.Defaults.{find}
use cimba_python.Schema.Enums.{EnumClass}
use cimba_python.Schema.Types.{Kind}
use cimba_python.Schema.Fields.{Declaration, Origin, Default, Field, read_fields}
use cimba_python.Schema.Fields.Nearest.{IsField, IsResolved, nearest_in, read_fields-IsNearest}

abbrev whole_floats : Floats
whole_floats = record { F = ℤ; is_finite = λ x. true; whole = λ x. some x; of_int = λ n. some n }

abbrev no_enums : ℕ → List ℤ
no_enums e = []

abbrev as_given : Annotation → Scalar ℤ → Result (Scalar ℤ)
as_given a v = ok v

-- `def f(self, size: int, weight: float = 3) -> int`
abbrev weighed : Method ℤ
weighed = record {
  is_resolved = true;
  parameters =
      record { name = 20; is_positional = true; annotation = some Annotation.int; initial = none }
      ∷ record {
        name = 21;
        is_positional = true;
        annotation = some Annotation.float;
        initial = some (Scalar.int (pos 3));
      }
      ∷ [];
  result = some Annotation.int;
}

-- `def f(self) -> None`
abbrev plain : Method ℤ
plain = record { is_resolved = true; parameters = []; result = some Annotation.nothing }

abbrev attributes_of : ℕ → List (ℕ × Option Role)
attributes_of (suc zero) = (10, some (slot function)) ∷ (11, some (process 2 5)) ∷ []
attributes_of (suc (suc zero)) = (12, some (slot event)) ∷ (10, some (slot function)) ∷ []
attributes_of (suc (suc (suc zero))) = (10, some (slot function)) ∷ []
attributes_of n = []

abbrev bases_of : ℕ → List ℕ
bases_of (suc zero) = 0 ∷ []
bases_of (suc (suc zero)) = 1 ∷ 0 ∷ []
bases_of (suc (suc (suc zero))) = 0 ∷ []
bases_of (suc (suc (suc (suc zero)))) = 3 ∷ 1 ∷ 0 ∷ []
bases_of n = []

abbrev method_of : ℕ → ℕ → Method ℤ
method_of (suc (suc (suc zero))) n = plain
method_of c n = weighed

abbrev family : Classes ℤ
family = record {
  bases = bases_of;
  attributes = attributes_of;
  method = method_of;
  is_field = λ c n. false;
  is_reserved = λ n. ltb n 5;
  is_model = λ c. ltb 0 c;
}

abbrev typed : Signature ℤ
typed = record {
  types = (20, Annotation.int) ∷ (21, Annotation.float) ∷ [];
  defaults = Scalar.int (pos 3) ∷ [];
  returns = Annotation.int;
}

reads : function_signature whole_floats no_enums as_given weighed ≡ ok typed
unfolding function_signature
reads = refl

abbrev base_schema : Schema ℤ
base_schema = record {
  roles = record {
    processes = (11, (2, 5)) ∷ [];
    starts = [];
    ends = [];
    slotted = (10, function) ∷ [];
  };
  signatures = (10, typed) ∷ [];
}

abbrev derived_schema : Schema ℤ
derived_schema = record {
  roles = record {
    processes = (11, (2, 5)) ∷ [];
    starts = [];
    ends = [];
    slotted = (10, function) ∷ (12, event) ∷ [];
  };
  signatures = (10, typed) ∷ [];
}

accepts_base : class_schema whole_floats no_enums as_given family 2 1 ≡ ok base_schema
unfolding class_schema ℕ_discrete
accepts_base = refl

accepts_derived : class_schema whole_floats no_enums as_given family 2 2 ≡ ok derived_schema
unfolding class_schema ℕ_discrete
accepts_derived = refl

-- The class 4 takes the function 10 of the class 3, which has no parameters, in the slot where the
-- class 1 declares it with two.
abbrev mixed : Schema ℤ
mixed = record {
  roles = record {
    processes = (11, (2, 5)) ∷ [];
    starts = [];
    ends = [];
    slotted = (10, function) ∷ [];
  };
  signatures = (10, record { types = []; defaults = []; returns = Annotation.nothing }) ∷ [];
}

accepts_mixed : class_schema whole_floats no_enums as_given family 2 4 ≡ ok mixed
unfolding class_schema ℕ_discrete
accepts_mixed = refl

family-IsDistinct : (k n : ℕ) → count ℕ_discrete n (names (attributes_of k)) ≤ 1
family-IsDistinct zero n = omega arith
family-IsDistinct (suc zero) n = ground arith
family-IsDistinct (suc (suc zero)) n = ground arith
family-IsDistinct (suc (suc (suc zero))) n = ground arith
family-IsDistinct (suc (suc (suc (suc k)))) n = omega arith

class_schema-dispatch_example :
    IsDistinct ℕ_discrete (10 ∷ 12 ∷ [])
    × ((n : ℕ)
        → (get n derived_schema.roles.slotted
            ≡ nearest whole_floats no_enums as_given family slot_kept n (2 ∷ 1 ∷ 0 ∷ []))
          × (get n derived_schema.roles.processes
              ≡ nearest whole_floats no_enums as_given family process_kept n (2 ∷ 1 ∷ 0 ∷ [])))
    × ((j b : ℕ)
        → get_elem? (1 ∷ 0 ∷ []) j ≡ some b
        → ltb 0 b ≡ true
        → (base : Schema ℤ) × (class_schema whole_floats no_enums as_given family 1 b ≡ ok base)
          × Extends whole_floats no_enums as_given family derived_schema base)
class_schema-dispatch_example =
    class_schema-dispatch whole_floats no_enums as_given family 1 2 family-IsDistinct
      accepts_derived

class_schema-IsKept_example :
    (get 10 derived_schema.roles.slotted ≡ some function)
    × IsKept whole_floats no_enums as_given family 10 derived_schema base_schema
unfolding get ℕ_discrete
class_schema-IsKept_example =
    class_schema-IsKept whole_floats no_enums as_given family 1 2 1 10 (λ k. family-IsDistinct k 10)
      refl accepts_derived accepts_base refl

function_signature-IsTyped_example :
    ((length typed.types ≡ length weighed.parameters) × (1 ≤ 2))
    × IsTyped whole_floats no_enums as_given weighed.parameters typed.types 1
    × ((weighed.result ≡ some Annotation.int)
        × ((is_nothing Annotation.int || is_passed Annotation.int) ≡ true))
function_signature-IsTyped_example =
    function_signature-IsTyped whole_floats no_enums as_given weighed reads

-- The enum 0 has the members 0 and 1. A base annotates a plain integer, which the class annotates
-- anew as an enum parameter.
abbrev two_members : ℕ → List ℤ
two_members e = pos 0 ∷ pos 1 ∷ []

abbrev plain_int : Declaration
plain_int = record {
  origin = Origin.plain;
  argument = none;
  whole = Annotation.int;
  optional = false;
}

abbrev enum_param : Declaration
enum_param = record {
  origin = Origin.param;
  argument = some (Annotation.enum (EnumClass.int_enum 0));
  whole = Annotation.other;
  optional = false;
}

abbrev ones : ℕ → Default ℤ
ones n = Default.value (Scalar.int (pos 1))

abbrev mode : Field ℤ
mode = record {
  kind = Kind.param;
  value_type = Annotation.enum (EnumClass.int_enum 0);
  initial = Default.value (Scalar.member 0 (pos 1));
  step = none;
  optional = false;
}

-- The class 6 has the base 5; the classes 0 and 9 are no models.
abbrev hints : ℕ → Option (List (ℕ × Declaration))
hints n = if n == 5 then some ((30, plain_int) ∷ []) else some ((30, enum_param) ∷ [])

abbrev is_model : ℕ → Bool
is_model n = (n == 5) || (n == 6)

reads_mode :
    read_fields whole_floats two_members as_given ones is_model hints (6 ∷ 5 ∷ 9 ∷ 0 ∷ [])
    ≡ ok ((30, mode) ∷ [])
unfolding read_fields ℕ_discrete eqb_ℤ
reads_mode = refl

read_fields-IsNearest_example :
    All (IsResolved whole_floats two_members as_given ones is_model hints) (6 ∷ 5 ∷ 9 ∷ 0 ∷ [])
    × IsField whole_floats two_members as_given ones 30
        (nearest_in whole_floats two_members as_given ones is_model hints 30 (6 ∷ 5 ∷ 9 ∷ 0 ∷ []))
        (find ℕ_discrete 30 ((30, mode) ∷ []))
read_fields-IsNearest_example =
    read_fields-IsNearest whole_floats two_members as_given ones is_model hints 30
      (6 ∷ 5 ∷ 9 ∷ 0 ∷ []) reads_mode
