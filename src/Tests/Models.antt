-- ===== src/Tests/Models.antt =====
-- Configuration of models: linked sweeps, mapped decisions, entities and assignments.
use cimba_python.Base.{
  ℕ, ◌+◌, ◌*◌, ◌^◌, ◌≤◌, ◌<◌, ◌≡◌, refl, ◌⊎◌, Bool, true, false, Option, none, some, List, [], ◌∷◌,
  ok, raise, type_error, ltb, length, All, ℕ_discrete, unique, member, collect, map, Result,
}
use cimba_python.Base.Int.{ℤ, pos, eqb_ℤ}
use cimba_python.Design.{lookup}
use cimba_python.Modeling.{
  Sweep, sweeps, Reals, Domain, Decision, own, mapped, decision, map_decision, root, domain,
  construct,
}
use cimba_python.Modeling.Linked.{
  add_axes, sweeps-IsOneAxis, by_decision, by_map, by_parent, Made, given_parent, IsMapped, IsSound,
  Made-IsSound,
}
use cimba_python.Modeling.Entities.{
  Number, Fractional, fractional, native_level, unlimited, fractional-native_level,
}
use cimba_python.Modeling.Observe.{observe, accepted, observe-unique}
use cimba_python.Modeling.Defaults.{
  find, new_model, own_or_copy, entity_or, declared, find-new_model,
}
use cimba_python.Modeling.Assign.{Origin, Item, Assigned, set_attribute}
use cimba_python.Modeling.Assigned.{AreAttached, set_attribute-stable}
use cimba_python.Schema.Enums.{EnumClass}
use cimba_python.Schema.Scalars.{Floats, Scalar, enum_member}

abbrev pair_of_sweeps : List (Sweep ℕ) × ℕ
pair_of_sweeps =
    (record { values = 1 ∷ 2 ∷ []; axis = 5 } ∷ record { values = 7 ∷ 8 ∷ []; axis = 5 } ∷ [], 6)

linked : sweeps ((1 ∷ 2 ∷ []) ∷ (7 ∷ 8 ∷ []) ∷ []) 5 ≡ ok pair_of_sweeps
unfolding sweeps
linked = refl

sweeps-IsOneAxis_example :
    (n : ℕ) × (map (λ s. s.values) pair_of_sweeps.0 ≡ (1 ∷ 2 ∷ []) ∷ (7 ∷ 8 ∷ []) ∷ [])
    × (add_axes pair_of_sweeps.0 ((4, 3) ∷ []) ≡ ok ((4, 3) ∷ (5, n) ∷ []))
    × All (λ s. (length s.values ≡ n) × (s.axis ≡ 5)) pair_of_sweeps.0
unfolding lookup
sweeps-IsOneAxis_example =
    sweeps-IsOneAxis ((1 ∷ 2 ∷ []) ∷ (7 ∷ 8 ∷ []) ∷ []) 5 ((4, 3) ∷ []) linked refl

-- Whole numbers as floats.
abbrev naturals : Reals
naturals = record {
  R = ℕ;
  zero_real = 0;
  is_finite = λ x. true;
  less = ltb;
  divides = λ low high s. true;
}

abbrev range : Domain ℕ
range = record { low = 2; high = 9; step = none; log = true }

abbrev narrow : Domain ℕ
narrow = record { low = 5; high = 6; step = none; log = false }

abbrev shifted : Decision ℕ
shifted = mapped 1 range (own 0 narrow) (some (λ x. ok (3 + x)))

abbrev doubled : Decision ℕ
doubled = mapped 2 range shifted (some (λ x. ok (2 * x)))

accepted_narrow : decision naturals 0 narrow ≡ ok (own 0 narrow)
unfolding decision
accepted_narrow = refl

accepted_shift :
    construct naturals 1 range (some (own 0 narrow)) (some (λ x. ok (3 + x))) ≡ ok shifted
unfolding construct
accepted_shift = refl

accepted_double : map_decision naturals 2 shifted (λ x. ok (2 * x)) ≡ ok doubled
unfolding map_decision
accepted_double = refl

-- The root of the decision has another domain than the decision.
abbrev made_double : Made naturals doubled
made_double =
    by_map 2 shifted (λ x. ok (2 * x))
      (by_parent 1 range (own 0 narrow) (some (λ x. ok (3 + x)))
        (by_decision 0 narrow accepted_narrow) accepted_shift)
      accepted_double

Made-IsSound_example :
    IsSound naturals doubled
    × ((given_parent naturals made_double ≡ true) ⊎ (domain (root doubled) ≡ domain doubled))
    × ((i : ℕ) (f : ℕ → Result ℕ)
        → (y : Decision ℕ) × (map_decision naturals i doubled f ≡ ok y)
          × IsMapped naturals doubled f y)
Made-IsSound_example = Made-IsSound naturals doubled made_double

abbrev whole : ℕ → Option ℤ
whole x = some (pos x)

abbrev scaled : ℕ → ℕ → ℕ
scaled x d = x * 10 ^ d

abbrev some_eight : Option ℕ
some_eight = some 8

abbrev silo : Fractional ℕ
silo = record { initial = 3; capacity = some 8; decimals = 2 }

filled : fractional naturals whole scaled 3 (some 8) (Number.int (pos 2)) ≡ ok silo
unfolding fractional
filled = refl

fractional-native_level_example :
    (n : ℕ) × (m : ℕ) × (native_level naturals whole scaled silo ≡ some (n, m))
    × (0 < n)
    × (m ≤ n)
    × (n < 2 ^ 64)
    × ((n ≡ unlimited) → some_eight ≡ none)
fractional-native_level_example =
    fractional-native_level naturals whole scaled 3 (some 8) (Number.int (pos 2)) filled

-- An entity numbered 9 cannot be observed.
partly :
    observe ℕ_discrete (λ x. ltb x 9) (3 ∷ 4 ∷ 3 ∷ 9 ∷ 5 ∷ []) (4 ∷ [])
    ≡ (raise type_error, 4 ∷ 3 ∷ [])
unfolding observe ℕ_discrete member
partly = refl

-- A derived class hides the entity 1 of its base and replaces the entity 2.
abbrev classes : List (List (ℕ × Option ℕ))
classes = ((1, some 10) ∷ (2, some 20) ∷ []) ∷ ((1, none) ∷ (2, some 21) ∷ []) ∷ []

copied : new_model ℕ_discrete (λ e. e + 100) classes [] ≡ (2, 121) ∷ []
unfolding new_model ℕ_discrete
copied = refl

abbrev whole_floats : Floats
whole_floats = record { F = ℤ; is_finite = λ x. true; whole = λ x. some x; of_int = λ n. some n }

abbrev members : ℕ → List ℤ
members e = pos 0 ∷ pos 1 ∷ []

abbrev is_instance : ℕ → ℕ → Bool
is_instance m c = ltb m 10

abbrev crew : Assigned ℤ
crew = Assigned.swept (Item.objects (1 ∷ 2 ∷ []) ∷ Item.objects (2 ∷ 3 ∷ []) ∷ []) 4

attaches :
    set_attribute whole_floats members is_instance (Origin.list_of_models 0) false crew
    ≡ ok (crew, 1 ∷ 2 ∷ 3 ∷ [])
unfolding set_attribute unique ℕ_discrete collect member
attaches = refl

set_attribute-stable_example :
    (set_attribute whole_floats members is_instance (Origin.list_of_models 0) false crew
      ≡ ok (crew, 1 ∷ 2 ∷ 3 ∷ []))
    × AreAttached whole_floats members is_instance (Origin.list_of_models 0) (1 ∷ 2 ∷ 3 ∷ [])
set_attribute-stable_example =
    set_attribute-stable whole_floats members is_instance (Origin.list_of_models 0) false crew
      attaches

coerces :
    set_attribute whole_floats members is_instance
      (Origin.param (some (EnumClass.int_enum 3)))
      false
      (Assigned.one (Item.scalar (Scalar.int (pos 1))))
    ≡ ok (Assigned.one (Item.scalar (Scalar.member 3 (pos 1))), [])
unfolding set_attribute enum_member eqb_ℤ
coerces = refl

observe-unique_example :
    ((observe ℕ_discrete (λ x. ltb x 9) (3 ∷ 4 ∷ 9 ∷ []) (4 ∷ [])).1
      ≡ 4 ∷ unique ℕ_discrete (4 ∷ []) (accepted ℕ_discrete (λ x. ltb x 9) (3 ∷ 4 ∷ 9 ∷ [])))
    × ((((observe ℕ_discrete (λ x. ltb x 9) (3 ∷ 4 ∷ 9 ∷ []) (4 ∷ [])).0 ≡ ok tt)
          × (accepted ℕ_discrete (λ x. ltb x 9) (3 ∷ 4 ∷ 9 ∷ []) ≡ 3 ∷ 4 ∷ 9 ∷ []))
        ⊎ (((observe ℕ_discrete (λ x. ltb x 9) (3 ∷ 4 ∷ 9 ∷ []) (4 ∷ [])).0 ≡ raise type_error)
            × (length (accepted ℕ_discrete (λ x. ltb x 9) (3 ∷ 4 ∷ 9 ∷ [])) < 3)))
observe-unique_example = observe-unique ℕ_discrete (λ x. ltb x 9) (3 ∷ 4 ∷ 9 ∷ []) (4 ∷ [])

find-new_model_example :
    find ℕ_discrete 2 (new_model ℕ_discrete (λ e. e + 100) classes [])
    ≡ own_or_copy ℕ_discrete
        (λ e. e + 100)
        (find ℕ_discrete 2 [])
        (entity_or ℕ_discrete (declared ℕ_discrete 2 classes) none)
find-new_model_example = find-new_model ℕ_discrete (λ e. e + 100) 2 classes []
