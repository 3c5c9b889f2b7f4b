-- ===== src/Tests/Designs.antt =====
-- The expansion of two linked sweeps and a third one, and the conversion of a scalar.
use cimba_python.Base.{ℕ, true, false, some, ◌≡◌, refl, List, [], ◌∷◌, ok, length, get_elem?}
use cimba_python.Base.Int.{ℤ, pos, eqb_ℤ}
use cimba_python.Schema.Types.{Kind, ValueType, Field}
use cimba_python.Schema.Scalars.{Floats, Scalar, scalar_value}
use cimba_python.Schema.Enums.{EnumClass, check_enum}
use cimba_python.Schema.Conversion.{IsNative, scalar_value-IsNative}
use cimba_python.Design.{Choice, Value, Instance, Binding, DesignPoint, Design, design}
use cimba_python.Design.Product.{product, IsCombination, rank}
use cimba_python.Design.Points.{axis_lengths, PointAt, design-IsFactorial}

-- Floats that are the integers.
abbrev whole_floats : Floats
whole_floats = record { F = ℤ; is_finite = λ x. true; whole = λ x. some x; of_int = λ n. some n }

abbrev no_members : ℕ → List ℤ
no_members e = []

abbrev rate : Field
rate = record { name = "rate"; kind = Kind.param; value_type = ValueType.int; optional = false }

abbrev number : ℕ → Choice ℤ
number n = Choice.scalar (Scalar.int (pos n))

-- Two models: their rates share axis 0, and the second has a size on axis 1.
abbrev size : Field
size = record { name = "size"; kind = Kind.param; value_type = ValueType.int; optional = false }

abbrev instances : List (Instance ℤ)
instances =
    record { model = 0; fields = (rate, Value.sweep (number 1 ∷ number 2 ∷ []) 0) ∷ [] }
    ∷ record {
      model = 1;
      fields =
          (rate, Value.sweep (number 10 ∷ number 20 ∷ []) 0)
          ∷ (size, Value.sweep (number 5 ∷ number 6 ∷ number 7 ∷ []) 1)
          ∷ [];
    }
    ∷ []

abbrev bound : ℕ → ℕ → ℕ → List (Binding ℤ)
bound a b s =
    record { model = 0; name = "rate"; value = number a }
    ∷ record { model = 1; name = "rate"; value = number b }
    ∷ record { model = 1; name = "size"; value = number s }
    ∷ []

abbrev at : ℕ → ℕ → ℕ → List (Binding ℤ) → DesignPoint ℤ
at i p q bindings = record { index = i; levels = (0, p) ∷ (1, q) ∷ []; bindings = bindings }

abbrev expanded : Design ℤ
expanded = record {
  axes = (0, 2) ∷ (1, 3) ∷ [];
  points =
      at 0 0 0 (bound 1 10 5)
      ∷ at 1 0 1 (bound 1 10 6)
      ∷ at 2 0 2 (bound 1 10 7)
      ∷ at 3 1 0 (bound 2 20 5)
      ∷ at 4 1 1 (bound 2 20 6)
      ∷ at 5 1 2 (bound 2 20 7)
      ∷ [];
}

expand : design whole_floats no_members instances ≡ ok expanded
unfolding design scalar_value
expand = refl

design-IsFactorial_example :
    (length expanded.points ≡ product (axis_lengths expanded))
    × ((c : List ℕ)
        → IsCombination (axis_lengths expanded) c
        → (p : DesignPoint ℤ) × (get_elem? expanded.points (rank (axis_lengths expanded) c)
            ≡ some p)
          × PointAt whole_floats no_members instances expanded.axes
              (rank (axis_lengths expanded) c)
              c
              p)
design-IsFactorial_example = design-IsFactorial whole_floats no_members instances expand

-- A class with the values 1 and 4.
abbrev levels : ℕ → List ℤ
levels e = pos 1 ∷ pos 4 ∷ []

as_level :
    scalar_value whole_floats levels (ValueType.int_enum 2) (Scalar.int (pos 4))
    ≡ ok (Scalar.member 2 (pos 4))
unfolding scalar_value eqb_ℤ
as_level = refl

is_level : check_enum levels (EnumClass.int_enum 2) ≡ ok tt
unfolding check_enum
is_level = refl

scalar_value-IsNative_example :
    IsNative whole_floats levels (ValueType.int_enum 2) (Scalar.member 2 (pos 4))
    × (scalar_value whole_floats levels (ValueType.int_enum 2) (Scalar.member 2 (pos 4))
        ≡ ok (Scalar.member 2 (pos 4)))
scalar_value-IsNative_example =
    scalar_value-IsNative whole_floats levels (λ n range. (n, refl)) (ValueType.int_enum 2)
      (Scalar.int (pos 4)) is_level tt as_level
