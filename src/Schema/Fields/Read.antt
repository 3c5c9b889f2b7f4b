-- ===== src/Schema/Fields/Read.antt =====
-- What an accepted annotation gives: the kind of its origin, its type, and a default that fits.
use cimba_python.Base.{
  ℕ, ◌≡◌, refl, sym, subst, Bool, true, false, not, Option, none, some, List, [], ◌∷◌, Result, ok,
  >>=-eq-ok, >>-eq-ok, ok_injective, raise_if, raise_if-ok, arith, All, ==_iff, collect,
  model_definition_error,
}
use cimba_python.Base.Int.{ℤ}
use cimba_python.Schema.Enums.{EnumClass, int_enum, other_enum, check_enum}
use cimba_python.Schema.Scalars.{Floats, Scalar, int, member, contains, enum_member, scalar_value}
use cimba_python.Schema.Signatures.{Annotation, is_scalar, check_annotation}
use cimba_python.Schema.Types.{Kind}
use cimba_python.Schema.Fields.{
  Origin, Declaration, Default, Field, kind_of, argument_or, is_element, value_kind, enum_default,
  scalar_default, check_elements, check_array, read_field, step_of,
}

-- The origin that a kind of field is for.
abbrev pub origin_of : Kind → Origin
origin_of Kind.param = Origin.param
origin_of Kind.field = Origin.plain
origin_of Kind.output = Origin.output
origin_of Kind.input = Origin.input
origin_of Kind.series = Origin.series
origin_of Kind.child = Origin.model_class
origin_of Kind.ref = Origin.ref
origin_of Kind.array = Origin.array
origin_of Kind.collection = Origin.list
origin_of Kind.entity = Origin.entity_class

-- The type is the argument of the annotation, or all of it; an entity keeps its argument.
abbrev pub typed_as : Origin → Option Annotation → Annotation → Annotation
typed_as Origin.entity_class argument whole = whole
typed_as _ argument whole = argument_or argument whole

module _ (fs : Floats) (members : ℕ → List ℤ)
    (convert : Annotation → Scalar fs.F → Result (Scalar fs.F)) where
  open fs use {F}

  -- A member of the enum class: the value itself, or the member of an integer value.
  abbrev pub IsMemberOf : ℕ → Scalar F → Scalar F → Type 0
  IsMemberOf e (int n) w = (w ≡ member e n) × (contains n (members e) ≡ true)
  IsMemberOf e (member k n) w = (w ≡ member k n) × (k ≡ e)
  IsMemberOf e _ w = ⊥

  abbrev pub AreMembersOf : ℕ → List (Scalar F) → List (Scalar F) → Type 0
  AreMembersOf e [] [] = Unit
  AreMembersOf e (v ∷ vs) (w ∷ ws) = IsMemberOf e v w × AreMembersOf e vs ws
  AreMembersOf e _ _ = ⊥

  abbrev pub IsEnumDefault : ℕ → Default F → Default F → Type 0
  IsEnumDefault e Default.nothing w = w ≡ Default.nothing
  IsEnumDefault e Default.decision w = w ≡ Default.decision
  IsEnumDefault e (Default.value v) (Default.value w) = IsMemberOf e v w
  IsEnumDefault e (Default.swept vs) (Default.swept ws) = AreMembersOf e vs ws
  IsEnumDefault e _ _ = ⊥

  -- The default of a scalar: as it is given, or, for an enum class that native records can hold, its
  -- members.
  abbrev pub IsScalarDefault : Annotation → Default F → Default F → Type 0
  IsScalarDefault (Annotation.enum (int_enum e)) given w =
      (check_enum members (int_enum e) ≡ ok tt) × IsEnumDefault e given w
  IsScalarDefault (Annotation.enum other_enum) given w = ⊥
  IsScalarDefault _ given w = w ≡ given

  abbrev pub IsElement : Annotation → Scalar F → Type 0
  IsElement a v = (w : Scalar F) × (scalar_value fs members (value_kind a) v ≡ ok w)

  -- The initial values of an array, or of each option of a sweep of arrays.
  abbrev pub IsArrayDefault : Annotation → Default F → Type 0
  IsArrayDefault a Default.nothing = Unit
  IsArrayDefault a (Default.array vs) = All (IsElement a) vs
  IsArrayDefault a (Default.arrays options) = All (All (IsElement a)) options
  IsArrayDefault a _ = ⊥

  abbrev pub IsDefault : Origin → Option Annotation → Annotation → Default F → Default F → Type 0
  IsDefault Origin.param argument whole given w =
      IsScalarDefault (argument_or argument whole) given w
  IsDefault Origin.output argument whole given w =
      IsScalarDefault (argument_or argument whole) given w
  IsDefault Origin.plain argument whole given w =
      IsScalarDefault (argument_or argument whole) given w
  IsDefault Origin.array argument whole given w =
      ((a : Annotation) × (argument ≡ some a) × (is_scalar a ≡ true) × IsArrayDefault a given)
      × (w ≡ given)
  IsDefault _ argument whole given w = w ≡ given

  -- The field that an annotation gives.
  abbrev pub IsRead : Declaration → Default F → Field F → Type 0
  IsRead d given f =
      (origin_of f.kind ≡ d.origin)
      × (f.value_type ≡ typed_as d.origin d.argument d.whole)
      × (f.optional ≡ d.optional)
      × (f.step ≡ step_of fs members convert f.initial)
      × IsDefault d.origin d.argument d.whole given f.initial

  enum_member-IsMemberOf :
      (e : ℕ) (v : Scalar F) {w : Scalar F} → enum_member fs members e v ≡ ok w → IsMemberOf e v w
  unfolding enum_member
  enum_member-IsMemberOf e (Scalar.int n) h = (ground arith, ground arith)
  enum_member-IsMemberOf e (Scalar.member k n) h =
      (ground (arith, ==_iff k e), ground (arith, ==_iff k e))
  enum_member-IsMemberOf e (Scalar.float x) h = cc
  enum_member-IsMemberOf e (Scalar.bool b) h = cc
  enum_member-IsMemberOf e Scalar.other h = cc

  collect-AreMembersOf :
      (e : ℕ) (vs : List (Scalar F)) {ws : List (Scalar F)}
      → collect (enum_member fs members e) vs ≡ ok ws
      → AreMembersOf e vs ws
  unfolding collect
  collect-AreMembersOf e [] h = subst (AreMembersOf e []) (ok_injective h) tt
  collect-AreMembersOf e (v ∷ vs) h =
      let (w, first, h1) = >>=-eq-ok (enum_member fs members e v) _ h in
      let (ws, rest, h2) = >>=-eq-ok (collect (enum_member fs members e) vs) _ h1 in
      subst (AreMembersOf e (v ∷ vs)) (ok_injective h2)
        (enum_member-IsMemberOf e v first, collect-AreMembersOf e vs rest)

  enum_default-IsEnumDefault :
      (e : ℕ) (given : Default F) {w : Default F}
      → enum_default fs members convert e given ≡ ok w
      → IsEnumDefault e given w
  unfolding enum_default
  enum_default-IsEnumDefault e Default.nothing h = sym (ok_injective h)
  enum_default-IsEnumDefault e Default.decision h = sym (ok_injective h)
  enum_default-IsEnumDefault e (Default.value v) h =
      let (w, first, h1) = >>=-eq-ok (enum_member fs members e v) _ h in
      subst (IsEnumDefault e (Default.value v)) (ok_injective h1) (enum_member-IsMemberOf e v first)
  enum_default-IsEnumDefault e (Default.swept vs) h =
      let (ws, all, h1) = >>=-eq-ok (collect (enum_member fs members e) vs) _ h in
      subst (IsEnumDefault e (Default.swept vs)) (ok_injective h1) (collect-AreMembersOf e vs all)
  enum_default-IsEnumDefault e Default.other h = cc
  enum_default-IsEnumDefault e (Default.series x y) h = cc
  enum_default-IsEnumDefault e (Default.array vs) h = cc
  enum_default-IsEnumDefault e (Default.arrays os) h = cc

  other_enum-refused : check_enum members other_enum ≡ ok tt → ⊥
  unfolding check_enum
  other_enum-refused h = cc

  scalar_default-IsScalarDefault :
      (a : Annotation) (given : Default F) {w : Default F}
      → scalar_default fs members convert a given ≡ ok w
      → IsScalarDefault a given w
  unfolding scalar_default check_annotation
  scalar_default-IsScalarDefault (Annotation.enum (EnumClass.int_enum e)) given h =
      let (checked, h1) = >>-eq-ok (check_enum members (int_enum e)) _ h in
      (checked, enum_default-IsEnumDefault e given h1)
  scalar_default-IsScalarDefault (Annotation.enum EnumClass.other_enum) given h =
      let (checked, _) = >>-eq-ok (check_enum members other_enum) (ok given) h in
      other_enum-refused checked
  scalar_default-IsScalarDefault Annotation.float given h = sym (ok_injective h)
  scalar_default-IsScalarDefault Annotation.int given h = sym (ok_injective h)
  scalar_default-IsScalarDefault Annotation.bool given h = sym (ok_injective h)
  scalar_default-IsScalarDefault Annotation.nothing given h = sym (ok_injective h)
  scalar_default-IsScalarDefault Annotation.other given h = sym (ok_injective h)
  scalar_default-IsScalarDefault (Annotation.model c) given h = sym (ok_injective h)
  scalar_default-IsScalarDefault (Annotation.entity c) given h = sym (ok_injective h)

  collect-All :
      {A B : Type 0} (f : A → Result B) (xs : List A) {ys : List B}
      → collect f xs ≡ ok ys
      → All (λ x. (y : B) × (f x ≡ ok y)) xs
  unfolding collect
  collect-All f [] h = tt
  collect-All f (x ∷ xs) h =
      let (y, first, h1) = >>=-eq-ok (f x) _ h in
      let (ys, rest, _) = >>=-eq-ok (collect f xs) _ h1 in ((y, first), collect-All f xs rest)

  check_elements-All :
      (a : Annotation) (vs : List (Scalar F)) {u : Unit {0}}
      → check_elements fs members convert a vs ≡ ok u
      → All (IsElement a) vs
  unfolding check_elements
  check_elements-All a vs h =
      let (ws, each, _) = >>=-eq-ok (collect (scalar_value fs members (value_kind a)) vs) _ h in
      collect-All (scalar_value fs members (value_kind a)) vs each

  options-All :
      (a : Annotation) (options : List (List (Scalar F)))
      → All (λ vs. (u : Unit {0}) × (check_elements fs members convert a vs ≡ ok u)) options
      → All (All (IsElement a)) options
  options-All a [] h = tt
  options-All a (vs ∷ options) h = (check_elements-All a vs h.0.1, options-All a options h.1)

  check_array-IsArrayDefault :
      (a : Annotation) (given : Default F) {u : Unit {0}}
      → check_array fs members convert a given ≡ ok u
      → IsArrayDefault a given
  unfolding check_array
  check_array-IsArrayDefault a Default.nothing h = tt
  check_array-IsArrayDefault a (Default.array vs) h = check_elements-All a vs h
  check_array-IsArrayDefault a (Default.arrays options) h =
      let (us, each, _) = >>=-eq-ok (collect (check_elements fs members convert a) options) _ h in
      options-All a options (collect-All (check_elements fs members convert a) options each)
  check_array-IsArrayDefault a Default.decision h = cc
  check_array-IsArrayDefault a Default.other h = cc
  check_array-IsArrayDefault a (Default.value v) h = cc
  check_array-IsArrayDefault a (Default.swept vs) h = cc
  check_array-IsArrayDefault a (Default.series x y) h = cc

  element_of :
      (argument : Option Annotation)
      → not (is_element argument) ≡ false
      → (a : Annotation) × (argument ≡ some a) × (is_scalar a ≡ true)
  element_of none h = cc
  element_of (some a) h = (a, refl, ground arith)

  abbrev made : Origin → Option Annotation → Annotation → Bool → Declaration
  made o argument whole optional = record {
    origin = o;
    argument = argument;
    whole = whole;
    optional = optional;
  }

  by_origin :
      (o : Origin) (argument : Option Annotation) (whole : Annotation) (optional : Bool)
      (given : Default F) {f : Field F}
      → read_field fs members convert (made o argument whole optional) given ≡ ok f
      → IsRead (made o argument whole optional) given f
  unfolding read_field kind_of
  by_origin Origin.param argument whole optional given h =
      let (w, first, h1) =
        >>=-eq-ok (scalar_default fs members convert (argument_or argument whole) given) _ h in
      subst (IsRead (made Origin.param argument whole optional) given) (ok_injective h1) (
        refl,
        refl,
        refl,
        refl,
        scalar_default-IsScalarDefault (argument_or argument whole) given first,
      )
  by_origin Origin.output argument whole optional given h =
      let (w, first, h1) =
        >>=-eq-ok (scalar_default fs members convert (argument_or argument whole) given) _ h in
      subst (IsRead (made Origin.output argument whole optional) given) (ok_injective h1) (
        refl,
        refl,
        refl,
        refl,
        scalar_default-IsScalarDefault (argument_or argument whole) given first,
      )
  by_origin Origin.plain argument whole optional given h =
      let (w, first, h1) =
        >>=-eq-ok (scalar_default fs members convert (argument_or argument whole) given) _ h in
      subst (IsRead (made Origin.plain argument whole optional) given) (ok_injective h1) (
        refl,
        refl,
        refl,
        refl,
        scalar_default-IsScalarDefault (argument_or argument whole) given first,
      )
  by_origin Origin.array argument whole optional given h =
      let (element, h1) =
        >>-eq-ok (raise_if (not (is_element argument)) model_definition_error) _ h in
      let (a, is_argument, fits) =
        element_of argument
          (raise_if-ok (not (is_element argument)) model_definition_error element) in
      let (checked, h2) =
        >>-eq-ok (check_array fs members convert (argument_or argument whole) given) _ h1 in
      subst (IsRead (made Origin.array argument whole optional) given) (ok_injective h2) (
        refl,
        refl,
        refl,
        refl,
        (
          (
            a,
            is_argument,
            fits,
            subst (λ o. IsArrayDefault (argument_or o whole) given) is_argument
                (check_array-IsArrayDefault (argument_or argument whole) given checked),
          ),
          refl,
        ),
      )
  by_origin Origin.entity_class argument whole optional given h =
      subst (IsRead (made Origin.entity_class argument whole optional) given) (ok_injective h)
        (refl, refl, refl, refl, refl)
  by_origin Origin.input argument whole optional given h =
      subst (IsRead (made Origin.input argument whole optional) given) (ok_injective h)
        (refl, refl, refl, refl, refl)
  by_origin Origin.series argument whole optional given h =
      subst (IsRead (made Origin.series argument whole optional) given) (ok_injective h)
        (refl, refl, refl, refl, refl)
  by_origin Origin.ref argument whole optional given h =
      subst (IsRead (made Origin.ref argument whole optional) given) (ok_injective h)
        (refl, refl, refl, refl, refl)
  by_origin Origin.list argument whole optional given h =
      subst (IsRead (made Origin.list argument whole optional) given) (ok_injective h)
        (refl, refl, refl, refl, refl)
  by_origin Origin.model_class argument whole optional given h =
      subst (IsRead (made Origin.model_class argument whole optional) given) (ok_injective h)
        (refl, refl, refl, refl, refl)

  -- An accepted annotation gives such a field.
  pub read_field-IsRead :
      (d : Declaration) (given : Default F) {f : Field F}
      → read_field fs members convert d given ≡ ok f
      → IsRead d given f
  read_field-IsRead d given h = by_origin d.origin d.argument d.whole d.optional given h
