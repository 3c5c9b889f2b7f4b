-- ===== src/Schema/Classes.antt =====
-- cimba/schema: `ClassSchema.of`, as far as the methods of a class go: their roles, the signatures of
-- its functions and the place of each slot in the dispatch table.
pub mod Attributes
pub mod Dispatch
pub mod Overrides
use cimba_python.Base.{
  ℕ, zero, suc, Bool, true, false, not, ◌&&◌, ◌||◌, Option, none, some, List, [], ◌∷◌, ◌++◌, Result,
  ok, raise, raise_if, model_definition_error, attribute_error, out_of_fuel, ◌>>=◌, ◌>>◌, ite,
  if◌then◌else◌, ℕ_discrete, ◌==◌,
}
use cimba_python.Base.Int.{ℤ}
use cimba_python.Schema.Types.{EntityType-discrete}
use cimba_python.Schema.Enums.{EnumClass, int_enum, other_enum}
use cimba_python.Schema.Scalars.{Floats, Scalar}
use cimba_python.Schema.Signatures.{Annotation, Method, Signature, function_signature}
use cimba_python.Schema.Slots.{SlotRole, function, slot, Role, Roles, get, no_roles, add_classes}

abbrev pub names {ℓ} : {A : Type ℓ} → List (ℕ × A) → List ℕ
names [] = []
names (entry ∷ rest) = entry.0 ∷ names rest

unfoldable pub any_of : (ℕ → Bool) → List ℕ → Bool
any_of p [] = false
any_of p (n ∷ rest) = p n || any_of p rest

-- `schema.slots[:len(inherited_slots)] == inherited_slots`
unfoldable pub begins : List ℕ → List ℕ → Bool
begins xs [] = true
begins [] (y ∷ ys) = false
begins (x ∷ xs) (y ∷ ys) = (x == y) && begins xs ys

unfoldable pub same_enum : EnumClass → EnumClass → Bool
same_enum (int_enum a) (int_enum b) = a == b
same_enum other_enum other_enum = true
same_enum _ _ = false

unfoldable pub same_annotation : Annotation → Annotation → Bool
unfolding same_enum EntityType-discrete
same_annotation Annotation.float Annotation.float = true
same_annotation Annotation.int Annotation.int = true
same_annotation Annotation.bool Annotation.bool = true
same_annotation Annotation.nothing Annotation.nothing = true
same_annotation (Annotation.enum a) (Annotation.enum b) = same_enum a b
same_annotation (Annotation.model a) (Annotation.model b) = a == b
same_annotation (Annotation.entity a) (Annotation.entity b) =
    ite (EntityType-discrete a b) true false
same_annotation _ _ = false

-- The types of the parameters, without their names.
unfoldable pub same_types : List (ℕ × Annotation) → List (ℕ × Annotation) → Bool
unfolding same_annotation
same_types [] [] = true
same_types (a ∷ as_left) (b ∷ as_right) = same_annotation a.1 b.1 && same_types as_left as_right
same_types _ _ = false

abbrev pub is_function : Option (Option Role) → Bool
is_function (some (some (slot function))) = true
is_function _ = false

-- The classes: those of `__mro__` behind each, nearest first, its own attributes, and what the
-- host says of their names.
pub record Classes (F : Type 0) : Type 0 where
  pub bases : ℕ → List ℕ
  pub attributes : ℕ → List (ℕ × Option Role)
  pub method : ℕ → ℕ → Method F
  pub is_field : ℕ → ℕ → Bool
  -- The attributes of `Model` itself.
  pub is_reserved : ℕ → Bool
  -- `issubclass(base, Model) and base is not Model`
  pub is_model : ℕ → Bool

pub record Schema (F : Type 0) : Type 0 where
  pub roles : Roles
  pub signatures : List (ℕ × Signature F)

module _ (fs : Floats) (members : ℕ → List ℤ)
    (convert : Annotation → Scalar fs.F → Result (Scalar fs.F)) (w : Classes fs.F) where
  open fs use {F}
  open w use {bases, attributes, method, is_field, is_reserved, is_model}

  -- `reversed(model_class.__mro__)`
  unfoldable pub furthest_first :
      List ℕ → List (List (ℕ × Option Role)) → List (List (ℕ × Option Role))
  furthest_first [] done = done
  furthest_first (c ∷ cs) done = furthest_first cs (attributes c ∷ done)

  -- The roles of a class, and the tests of the names that have a slot.
  unfoldable pub roles_of : ℕ → Result Roles
  unfolding add_classes furthest_first any_of
  roles_of c = do
    r ← add_classes (furthest_first (c ∷ bases c) []) no_roles
    raise_if (any_of (λ n. is_field c n || is_reserved n) (names r.slotted)) model_definition_error
    ok r

  -- `getattr(model_class, name)`: the class that provides the attribute.
  unfoldable pub provider : ℕ → List ℕ → Option ℕ
  unfolding get
  provider n [] = none
  provider n (c ∷ cs) = elim (get n (attributes c)) [ none ↦ provider n cs | some role ↦ some c ]

  -- The first base that declares the name as a function.
  unfoldable pub declaring : ℕ → List ℕ → Option ℕ
  unfolding get
  declaring n [] = none
  declaring n (c ∷ cs) = if is_function (get n (attributes c)) then some c else declaring n cs

  unfoldable pub signature_of : ℕ → Option ℕ → Result (Signature F)
  unfolding function_signature
  signature_of n none = raise attribute_error
  signature_of n (some c) = function_signature fs members convert (method c n)

  -- An override keeps the signature of the first base that declares it.
  unfoldable pub check_override : ℕ → Signature F → Option ℕ → Result (Unit {0})
  unfolding signature_of same_types
  check_override n s none = ok tt
  check_override n s (some b) = do
    inherited ← signature_of n (some b)
    raise_if
        (not (same_types inherited.types s.types && same_annotation inherited.returns s.returns))
        model_definition_error

  -- The signature of a name with a slot, if it is a function.
  unfoldable pub add_signature : ℕ → ℕ → SlotRole → Result (List (ℕ × Signature F))
  unfolding provider declaring check_override
  add_signature c n function = do
    s ← signature_of n (provider n (c ∷ bases c))
    check_override n s (declaring n (bases c))
    ok ((n, s) ∷ [])
  add_signature c n _ = ok []

  -- `for name, role in slotted.items()`
  unfoldable pub signatures_of : ℕ → List (ℕ × SlotRole) → Result (List (ℕ × Signature F))
  unfolding add_signature
  signatures_of c [] = ok []
  signatures_of c (entry ∷ rest) = do
    here ← add_signature c entry.0 entry.1
    more ← signatures_of c rest
    ok (here ++ more)

  -- `ClassSchema.of(base)` for every model class among the bases, and the test of its slots.
  unfoldable pub check_bases : (ℕ → Result (Schema F)) → List ℕ → List ℕ → Result (Unit {0})
  unfolding begins
  check_bases schema slots [] = ok tt
  check_bases schema slots (b ∷ rest) =
      let others = check_bases schema slots rest in
      if is_model b
      then (do
        inherited ← schema b
        raise_if (not (begins slots (names inherited.roles.slotted))) model_definition_error
        others)
      else others

  -- The fuel bounds the depth of the classes.
  unfoldable pub class_schema : ℕ → ℕ → Result (Schema F)
  unfolding roles_of signatures_of check_bases
  class_schema zero c = raise out_of_fuel
  class_schema (suc fuel) c = do
    r ← roles_of c
    signatures ← signatures_of c r.slotted
    check_bases (class_schema fuel) (names r.slotted) (bases c)
    ok (record { roles = r; signatures = signatures })
