-- ===== src/Modeling/Entities.antt =====
-- cimba/modeling: the configuration of entities and processes. `quanta` is `fractional_quanta`'s
-- rounding of a float to a whole number of units, which the host's floats decide.
use cimba_python.Base.{
  ℕ, ◌-◌, ◌^◌, ◌≤◌, ◌<◌, ◌≡◌, refl, min, Bool, false, not, ◌&&◌, ◌||◌, Option, none, some, Result,
  ok, raise, raise_if, raise_if-ok, value_error, attribute_error, ◌>>=◌, ◌>>◌, >>-eq-ok, >>=-eq-ok,
  ok_injective, if◌then◌else◌, arith, ltb, leb,
}
use cimba_python.Base.Int.{ℤ, pos, negsuc}
use cimba_python.Modeling.{Reals}

-- An argument that stands for a number: a bool, an integer, a finite float, or something else.
pub data Number (R : Type 0) : Type 0 where
  bool : Bool → Number R
  int : ℤ → Number R
  float : R → Number R
  other : Number R

abbrev pub natural : ℤ → Option ℕ
natural (pos n) = some n
natural (negsuc n) = none

abbrev pub or_value_error {ℓ} : {A : Type ℓ} → Option A → Result A
or_value_error none = raise value_error
or_value_error (some a) = ok a

-- The largest value of a uint64 means unlimited.
abbrev pub unlimited : ℕ
unlimited = 2 ^ 64 - 1

pub record Fractional (R : Type 0) : Type 0 where
  pub initial : R
  -- none is an infinite capacity.
  pub capacity : Option R
  pub decimals : ℕ

-- What a value is that is assigned to an attribute of a Resource.
pub data Attribute : Type 0 where
  capacity_name initial_capacity other_name : Attribute

module _ (r : Reals) (whole : Reals.R r → Option ℤ) (quanta : Reals.R r → ℕ → ℕ) where
  open r use {R, zero_real, is_finite, less}

  -- `Container.__init__`: a nonnegative number that equals an integer, and no bool.
  unfoldable pub container : Number R → Result ℕ
  container (bool b) = raise value_error
  container (int n) = or_value_error (natural n)
  container (float x) = elim (whole x) [
    | none ↦ raise value_error
    | some n ↦ or_value_error (natural n)
  ]
  container other = raise value_error

  -- `FractionalContainer.decimals`
  unfoldable pub check_decimals : Number R → Result ℕ
  check_decimals (int (pos n)) = if leb n 12 then ok n else raise value_error
  check_decimals _ = raise value_error

  -- The limit in quanta: none is no limit.
  unfoldable pub limit_of : Option R → ℕ → Option ℕ
  limit_of none d = none
  limit_of (some c) d = some (quanta c d)

  unfoldable pub check_limit : Option ℕ → Result (Unit {0})
  check_limit none = ok tt
  check_limit (some n) = raise_if (not (ltb 0 n && ltb n unlimited)) value_error

  abbrev pub at_most_limit : Option ℕ → ℕ
  at_most_limit none = unlimited
  at_most_limit (some n) = min n unlimited

  -- A capacity is positive; a NaN is less than no number and not finite.
  unfoldable pub check_capacity : Option R → Result (Unit {0})
  check_capacity none = ok tt
  check_capacity (some c) = raise_if (not (less zero_real c)) value_error

  -- `FractionalContainer.__init__`, of floats.
  unfoldable pub fractional : R → Option R → Number R → Result (Fractional R)
  unfolding check_decimals limit_of check_limit check_capacity
  fractional initial capacity decimals = do
    d ← check_decimals decimals
    raise_if (not (is_finite initial) || less initial zero_real) value_error
    check_capacity capacity
    check_limit (limit_of capacity d)
    raise_if (ltb (at_most_limit (limit_of capacity d)) (quanta initial d)) value_error
    ok (record { initial = initial; capacity = capacity; decimals = d })

  -- `Store.__init__`
  unfoldable pub store : ℤ → Result ℕ
  store (pos n) = if ltb n 1 then raise value_error else ok n
  store (negsuc n) = raise value_error

  -- `Resource.__setattr__`: the new initial capacity, if that is what is set.
  unfoldable pub set_resource : Attribute → Number R → Result (Option ℕ)
  set_resource capacity_name v = raise attribute_error
  set_resource initial_capacity (int (pos n)) = ok (some n)
  set_resource initial_capacity _ = raise value_error
  set_resource other_name v = ok none

  abbrev pub native_capacity : Option ℕ → ℕ
  native_capacity none = unlimited
  native_capacity (some n) = n

  abbrev pub checked_level : ℕ → ℕ → Option (ℕ × ℕ)
  checked_level capacity initial =
      if not (ltb 0 capacity) || ltb capacity initial then none else some (capacity, initial)

  -- The capacity and the initial level of the native container, as `_descriptors` computes them,
  -- with the test it makes again.
  unfoldable pub native_level : Fractional R → Option (ℕ × ℕ)
  unfolding limit_of
  native_level c =
      let initial = quanta c.initial c.decimals in
      let capacity = native_capacity (limit_of c.capacity c.decimals) in
      checked_level capacity initial

  not_less : (a b : ℕ) → ltb a b ≡ false → b ≤ a
  not_less a b h = ground arith

  within : (q : ℕ) → not (ltb 0 q && ltb q unlimited) ≡ false → (0 < q) × (q < unlimited)
  within q h = (ground arith, ground arith)

  native_some : (n m : ℕ) → 0 < n → m ≤ n → checked_level n m ≡ some (n, m)
  native_some n m h k = ground arith

  -- A container that the host accepts, its capacity as it was tested, has a native level: the
  -- capacity is positive, the initial level is at most the capacity, and both fit in a uint64. A
  -- capacity equals the largest value only where there is no limit.
  pub fractional-native_level :
      (initial : R) (capacity : Option R) (decimals : Number R) {c : Fractional R}
      → fractional initial capacity decimals ≡ ok c
      → (n : ℕ) × (m : ℕ) × (native_level c ≡ some (n, m))
        × (0 < n)
        × (m ≤ n)
        × (n < 2 ^ 64)
        × ((n ≡ unlimited) → capacity ≡ none)
  unfolding fractional native_level limit_of check_limit
  fractional-native_level initial none decimals h =
      let (d, _, h1) = >>=-eq-ok (check_decimals decimals) _ h in
      let (_, h2) =
        >>-eq-ok (raise_if (not (is_finite initial) || less initial zero_real) value_error) _ h1 in
      let (_, h3) = >>-eq-ok (check_capacity none) _ h2 in
      let (fits, h4) = >>-eq-ok (raise_if (ltb unlimited (quanta initial d)) value_error) _ h3 in
      let room = not_less unlimited (quanta initial d) (raise_if-ok _ _ fits) in
      rw (← ok_injective h4) (
        unlimited,
        quanta initial d,
        native_some unlimited (quanta initial d) (omega arith) room,
        omega arith,
        room,
        omega arith,
        λ e. refl,
      )
  fractional-native_level initial (some x) decimals h =
      let (d, _, h1) = >>=-eq-ok (check_decimals decimals) _ h in
      let (_, h2) =
        >>-eq-ok (raise_if (not (is_finite initial) || less initial zero_real) value_error) _ h1 in
      let (_, h3) = >>-eq-ok (check_capacity (some x)) _ h2 in
      let q = quanta x d in
      let (bounded, h4) = >>-eq-ok (raise_if (not (ltb 0 q && ltb q unlimited)) value_error) _ h3 in
      let (fits, h5) =
        >>-eq-ok (raise_if (ltb (min q unlimited) (quanta initial d)) value_error) _ h4 in
      let (low, high) = within q (raise_if-ok _ _ bounded) in
      let room = not_less (min q unlimited) (quanta initial d) (raise_if-ok _ _ fits) in
      rw (← ok_injective h5) (
        q,
        quanta initial d,
        native_some q (quanta initial d) low (omega (arith, room)),
        low,
        omega (arith, room),
        omega (arith, high),
        λ e. absurd (omega (arith, e, high)),
      )
