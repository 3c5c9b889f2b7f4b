-- ===== src/Schema/Conversion.antt =====
-- cimba/schema: what `scalar_value` accepts and returns.
use cimba_python.Base.{
  ℕ, ◌≡◌, refl, Bool, true, false, not, raise_if, model_definition_error, >>=-eq-ok, >>-eq-ok,
  Option, none, some, List, [], ◌∷◌, ok, arith, ==_iff, ap, sym, ◌∙◌, inl, inr, Bool-cases,
  raise_if-ok,
}
use cimba_python.Base.Int.{ℤ, pos, negsuc, eqb_ℤ}
use cimba_python.Schema.Types.{ValueType}
use cimba_python.Schema.Enums.{EnumClass, no_members, all_in_range, check_enum}
use cimba_python.Schema.Scalars.{
  Floats, Scalar, int, float, bool, member, other, in_int64, of_bool, finite_value, scalar_value,
  enum_member, int_value, bool_value, float_value, to_float, integral, contains,
}

module _ (fs : Floats) (members : ℕ → List ℤ) where
  open fs use {F}

  -- The value is one that a native record holds for the type.
  abbrev pub IsNative : ValueType → Scalar F → Type 0
  IsNative ValueType.int (int n) = in_int64 n ≡ true
  IsNative ValueType.bool (bool b) = Unit
  IsNative ValueType.float (float x) = Unit
  IsNative (ValueType.int_enum e) (member k n) =
      (k ≡ e) × (contains n (members e) ≡ true) × (in_int64 n ≡ true)
  IsNative _ _ = ⊥

  -- A member has one of the values of its class.
  abbrev pub IsValue : Scalar F → Type 0
  IsValue (member k n) = contains n (members k) ≡ true
  IsValue _ = Unit

  -- An enum class of a declared type has passed `check_scalar_type`.
  abbrev pub IsDeclared : ValueType → Type 0
  IsDeclared (ValueType.int_enum e) = check_enum members (EnumClass.int_enum e) ≡ ok tt
  IsDeclared _ = Unit

  eqb_ℤ-eq : (n m : ℤ) → eqb_ℤ n m ≡ true → n ≡ m
  unfolding eqb_ℤ
  eqb_ℤ-eq (pos n) (pos m) h = ap pos (ground (arith, ==_iff n m))
  eqb_ℤ-eq (pos n) (negsuc m) h = cc
  eqb_ℤ-eq (negsuc n) (pos m) h = cc
  eqb_ℤ-eq (negsuc n) (negsuc m) h = ap negsuc (ground (arith, ==_iff n m))

  contains-in_int64 :
      (n : ℤ) (ns : List ℤ) → contains n ns ≡ true → all_in_range ns ≡ true → in_int64 n ≡ true
  unfolding contains all_in_range
  contains-in_int64 n [] h r = cc
  contains-in_int64 n (m ∷ ns) h r = elim (Bool-cases (eqb_ℤ n m)) [
    | inl same ↦ ap in_int64 (eqb_ℤ-eq n m same) ∙ (ground arith)
    | inr differs ↦ contains-in_int64 n ns (ground arith) (ground arith)
  ]

  declared-in_range :
      (e : ℕ) → check_enum members (EnumClass.int_enum e) ≡ ok tt → all_in_range (members e) ≡ true
  unfolding check_enum
  declared-in_range e h =
      let (_, h1) = >>-eq-ok (raise_if (no_members (members e)) model_definition_error) _ h in
      not_false _ (raise_if-ok (not (all_in_range (members e))) model_definition_error h1)
    where
      not_false : (b : Bool) → not b ≡ false → b ≡ true
      not_false b q = ground arith

  int_value-ok :
      (o : Option ℤ) {w : Scalar F}
      → int_value fs members o ≡ ok w
      → (n : ℤ) × (w ≡ int n) × (in_int64 n ≡ true)
  unfolding int_value
  int_value-ok none h = cc
  int_value-ok (some n) h = (n, ground arith, ground arith)

  bool_value-ok :
      (o : Option ℤ) {w : Scalar F} → bool_value fs members o ≡ ok w → (b : Bool) × (w ≡ bool b)
  unfolding bool_value
  bool_value-ok none h = cc
  bool_value-ok (some n) h = (not (eqb_ℤ n (pos 0)), ground arith)

  to_float-ok :
      (o : Option F) {w : Scalar F} → to_float fs members o ≡ ok w → (x : F) × (w ≡ float x)
  unfolding to_float
  to_float-ok none h = cc
  to_float-ok (some x) h = (x, cc)

  float_value-ok :
      (v : Scalar F) {w : Scalar F} → float_value fs members v ≡ ok w → (x : F) × (w ≡ float x)
  unfolding float_value
  float_value-ok (float x) h = (x, cc)
  float_value-ok (int n) h = to_float-ok (fs.of_int n) h
  float_value-ok (bool b) h = to_float-ok (fs.of_int (of_bool b)) h
  float_value-ok (member e n) h = to_float-ok (fs.of_int n) h
  float_value-ok other h = cc

  enum_member-ok :
      (e : ℕ) (v : Scalar F) {w : Scalar F}
      → IsValue v
      → enum_member fs members e v ≡ ok w
      → (n : ℤ) × (w ≡ member e n) × (contains n (members e) ≡ true)
  unfolding enum_member
  enum_member-ok e (int n) value h = (n, ground arith, ground arith)
  enum_member-ok e (member k n) value h =
      let same : k ≡ e = ground (arith, ==_iff k e) in
      (n, ground (arith, ==_iff k e), ap (λ c. contains n (members c)) (sym same) ∙ value)
  enum_member-ok e (float x) value h = cc
  enum_member-ok e (bool b) value h = cc
  enum_member-ok e other value h = cc

  bool_value-of_bool : (b : Bool) → bool_value fs members (some (of_bool b)) ≡ ok (bool b)
  unfolding bool_value eqb_ℤ
  bool_value-of_bool true = refl
  bool_value-of_bool false = refl

  module _ (small : (n : ℤ) → in_int64 n ≡ true → (x : F) × (fs.of_int n ≡ some x)) where
    scalar_value-int :
        (n : ℤ) → in_int64 n ≡ true → scalar_value fs members ValueType.int (int n) ≡ ok (int n)
    unfolding scalar_value
    scalar_value-int n h = let (x, e) = small n h in rw (e, h)

    -- If every integer in the range of int64 converts to a float, the declared type's enum class has
    -- passed the test of enum classes, and a member that is passed has a value of its class, then a
    -- scalar that `scalar_value` returns is one that a native record holds for the declared type (for
    -- an enum class: a member of that class, with one of its values, in the range of int64), and
    -- `scalar_value` returns it unchanged.
    pub scalar_value-IsNative :
        (t : ValueType) (v : Scalar F) {w : Scalar F}
        → IsDeclared t
        → IsValue v
        → scalar_value fs members t v ≡ ok w
        → IsNative t w × (scalar_value fs members t w ≡ ok w)
    unfolding scalar_value
    scalar_value-IsNative ValueType.float v declared value h =
        let (x, e) = float_value-ok v h in rw e (tt, refl)
    scalar_value-IsNative ValueType.int v declared value h =
        let (finite, _, h1) = >>=-eq-ok (finite_value fs members v) _ h in
        let (_, h2) = >>-eq-ok (raise_if (not finite) model_definition_error) _ h1 in
        let (n, e, range) = int_value-ok (integral fs members v) h2 in
        rw e (range, scalar_value-int n range)
    scalar_value-IsNative ValueType.bool v declared value h =
        let (b, e) = bool_value-ok (integral fs members v) h in rw e (tt, bool_value-of_bool b)
    scalar_value-IsNative (ValueType.int_enum k) v declared value h =
        let (n, e, inside) = enum_member-ok k v value h in
        rw e (
          (refl, inside, contains-in_int64 n (members k) inside (declared-in_range k declared)),
          ground arith,
        )
    scalar_value-IsNative (ValueType.model k) v declared value h = cc
    scalar_value-IsNative (ValueType.entity k) v declared value h = cc
    scalar_value-IsNative ValueType.other v declared value h = cc
