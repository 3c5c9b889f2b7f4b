-- ===== src/Modeling.antt =====
-- cimba/modeling: sweeps and decisions, the values that a configuration leaves open. An object is
-- its identity; the counter of axes is passed along. Numbers are floats of the host.
pub mod Linked
pub mod Entities
pub mod Observe
pub mod Defaults
pub mod Assign
pub mod Assigned
use cimba_python.Base.{
  ℕ, suc, Bool, true, false, not, ◌&&◌, ◌||◌, Option, none, some, List, [], ◌∷◌, Result, ok, raise,
  raise_if, value_error, type_error, ◌>>=◌, ◌>>◌, if◌then◌else◌, ◌==◌, length,
}

pub record Sweep (A : Type 0) : Type 0 where
  pub values : List A
  pub axis : ℕ

-- A plain value, or a sweep.
pub data Swept (A : Type 0) : Type 0 where
  plain : A → Swept A
  swept : Sweep A → Swept A

-- `Sweep.map`
unfoldable pub map_values : {A B : Type 0} → (A → B) → List A → List B
map_values f [] = []
map_values f (a ∷ rest) = f a ∷ map_values f rest

abbrev pub map_sweep : {A B : Type 0} → (A → B) → Sweep A → Sweep B
map_sweep f s = record { values = map_values f s.values; axis = s.axis }

-- `sweep(*values)`: none of the values is a list that stands alone.
unfoldable pub sweep : {A : Type 0} → List A → ℕ → Result (Sweep A × ℕ)
sweep [] next = raise value_error
sweep (a ∷ rest) next = ok (record { values = a ∷ rest; axis = next }, suc next)

unfoldable pub options : {A : Type 0} → Swept A → List A
options (plain a) = a ∷ []
options (swept s) = s.values

unfoldable pub any_empty : {A : Type 0} → List (List A) → Bool
any_empty [] = false
any_empty ([] ∷ columns) = true
any_empty ((a ∷ rest) ∷ columns) = any_empty columns

unfoldable pub have_length : {A : Type 0} → ℕ → List (List A) → Bool
have_length n [] = true
have_length n (c ∷ columns) = (length c == n) && have_length n columns

unfoldable pub share_axis : {A : Type 0} → ℕ → List (List A) → List (Sweep A)
share_axis next [] = []
share_axis next (c ∷ columns) = record { values = c; axis = next } ∷ share_axis next columns

-- `sweeps(*columns)`
unfoldable pub sweeps : {A : Type 0} → List (List A) → ℕ → Result (List (Sweep A) × ℕ)
unfolding any_empty have_length share_axis
sweeps [] next = raise value_error
sweeps (c ∷ columns) next = do
  raise_if (any_empty (c ∷ columns)) value_error
  raise_if (not (have_length (length c) columns)) value_error
  ok (share_axis next (c ∷ columns), suc next)

-- What is used of the host's floats: order, zero, and whether a range holds a whole number of
-- steps, up to the tolerance.
pub record Reals : Type 1 where
  pub R : Type 0
  pub zero_real : R
  pub is_finite : R → Bool
  pub less : R → R → Bool
  pub divides : R → R → R → Bool

pub record Domain (R : Type 0) : Type 0 where
  pub low : R
  pub high : R
  pub step : Option R
  pub log : Bool

-- A decision, without a parent or with one and a transform, which can be missing; each keeps a
-- domain. The transform of a decision without a parent is never read, and is left out.
pub data Decision (R : Type 0) : Type 0 where
  own : ℕ → Domain R → Decision R
  mapped : ℕ → Domain R → Decision R → Option (R → Result R) → Decision R

abbrev pub domain : {R : Type 0} → Decision R → Domain R
domain (own i d) = d
domain (mapped i d parent f) = d

-- `Decision.root`
unfoldable pub root : {R : Type 0} → Decision R → Decision R
root (own i d) = own i d
root (mapped i d parent f) = root parent

-- The call of a transform: None cannot be called.
unfoldable pub apply : {R : Type 0} → Option (R → Result R) → R → Result R
apply none v = raise type_error
apply (some f) v = f v

-- `Decision.value`
unfoldable pub value_of : {R : Type 0} → Decision R → R → Result R
unfolding apply
value_of (own i d) base = ok base
value_of (mapped i d parent f) base = value_of parent base >>= apply f

module _ (r : Reals) where
  open r use {R, zero_real, is_finite, less, divides}

  -- The test of the step in `__post_init__`.
  unfoldable pub check_step : Option R → Domain R → Result (Unit {0})
  check_step none d = ok tt
  check_step (some s) d = do
    raise_if (not (is_finite s) || not (less zero_real s)) value_error
    raise_if (not (divides d.low d.high s)) value_error
    raise_if d.log value_error

  -- `Decision.__post_init__`
  unfoldable pub check_domain : Domain R → Result (Unit {0})
  unfolding check_step
  check_domain d = do
    raise_if (not (is_finite d.low) || not (is_finite d.high)) value_error
    raise_if (not (less d.low d.high)) value_error
    check_step d.step d
    raise_if (d.log && not (less zero_real d.low)) value_error

  -- The object that the generated `__init__` fills in.
  abbrev pub assembled : ℕ → Domain R → Option (Decision R) → Option (R → Result R) → Decision R
  assembled i d none f = own i d
  assembled i d (some parent) f = mapped i d parent f

  -- `Decision(low, high, step, log, parent, transform)`
  unfoldable pub construct :
      ℕ → Domain R → Option (Decision R) → Option (R → Result R) → Result (Decision R)
  unfolding check_domain
  construct i d parent f = do check_domain d; ok (assembled i d parent f)

  -- `decision(...)`
  unfoldable pub decision : ℕ → Domain R → Result (Decision R)
  unfolding construct
  decision i d = construct i d none none

  -- `Decision.map` of a callable: the new decision copies the domain.
  unfoldable pub map_decision : ℕ → Decision R → (R → Result R) → Result (Decision R)
  unfolding construct
  map_decision i parent f = construct i (domain parent) (some parent) (some f)
