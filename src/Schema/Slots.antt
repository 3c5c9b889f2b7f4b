-- ===== src/Schema/Slots.antt =====
-- cimba/schema: the methods of a model class in `ClassSchema.of`, their roles and their slots in the
-- dispatch table. Names and classes are numbered; of a method its decorator is modelled.
pub mod Added
pub mod Kept
use cimba_python.Base.{
  ℕ, Bool, true, false, not, Option, none, some, List, [], ◌∷◌, ◌++◌, Result, ok, raise_if,
  model_definition_error, ◌>>=◌, ◌>>◌, ite, ℕ_discrete,
}

-- `@event`, `@predicate` and `@function`: the roles with a slot.
pub data SlotRole : Type 0 where
  event predicate function : SlotRole

-- `cimba_role`, and the number of copies and the priority of a process.
pub data Role : Type 0 where
  process : ℕ → ℕ → Role
  on_start on_end : Role
  slot : SlotRole → Role

abbrev pub same_slot : SlotRole → SlotRole → Bool
same_slot event event = true
same_slot predicate predicate = true
same_slot function function = true
same_slot _ _ = false

-- `role == slotted[name]`
abbrev pub is_role : SlotRole → Option Role → Bool
is_role r (some (slot s)) = same_slot r s
is_role r _ = false

unfoldable pub get {ℓ} : {A : Type ℓ} → ℕ → List (ℕ × A) → Option A
get n [] = none
get n (entry ∷ rest) = ite (ℕ_discrete entry.0 n) (some entry.1) (get n rest)

-- `[(n, f) for n, f in roles[role] if n != name]`
unfoldable pub without {ℓ} : {A : Type ℓ} → ℕ → List (ℕ × A) → List (ℕ × A)
without n [] = []
without n (entry ∷ rest) =
    let others = without n rest in ite (ℕ_discrete entry.0 n) others (entry ∷ others)

abbrev pub replace_last {ℓ} : {A : Type ℓ} → ℕ → A → List (ℕ × A) → List (ℕ × A)
replace_last n a entries = without n entries ++ (n, a) ∷ []

-- `dict.setdefault`
abbrev pub set_default {ℓ} : {A : Type ℓ} → ℕ → A → Option A → List (ℕ × A) → List (ℕ × A)
set_default n a none entries = entries ++ (n, a) ∷ []
set_default n a (some b) entries = entries

-- What the loop over the classes has collected.
pub record Roles : Type 0 where
  pub processes : List (ℕ × (ℕ × ℕ))
  pub starts : List (ℕ × Unit {0})
  pub ends : List (ℕ × Unit {0})
  pub slotted : List (ℕ × SlotRole)

abbrev pub no_roles : Roles
no_roles = record { processes = []; starts = []; ends = []; slotted = [] }

unfoldable pub add_role : ℕ → Option Role → Roles → Roles
unfolding get without
add_role n (some (process copies priority)) r = record {
  processes = replace_last n (copies, priority) r.processes;
  starts = r.starts;
  ends = r.ends;
  slotted = r.slotted;
}
add_role n (some on_start) r = record {
  processes = r.processes;
  starts = replace_last n tt r.starts;
  ends = r.ends;
  slotted = r.slotted;
}
add_role n (some on_end) r = record {
  processes = r.processes;
  starts = r.starts;
  ends = replace_last n tt r.ends;
  slotted = r.slotted;
}
add_role n (some (slot s)) r = record {
  processes = r.processes;
  starts = r.starts;
  ends = r.ends;
  slotted = set_default n s (get n r.slotted) r.slotted;
}
add_role n none r = r

-- An override of a method with a slot must have the same decorator.
abbrev pub differs : Option SlotRole → Option Role → Bool
differs none role = false
differs (some s) role = not (is_role s role)

-- `for name, method in getattr(base, "__dict__", {}).items()`
unfoldable pub add_methods : List (ℕ × Option Role) → Roles → Result Roles
unfolding add_role get
add_methods [] r = ok r
add_methods (method ∷ rest) r = do
  raise_if (differs (get method.0 r.slotted) method.1) model_definition_error
  add_methods rest (add_role method.0 method.1 r)

-- `for base in reversed(model_class.__mro__)`, the classes given from the furthest base on.
unfoldable pub add_classes : List (List (ℕ × Option Role)) → Roles → Result Roles
unfolding add_methods
add_classes [] r = ok r
add_classes (methods ∷ rest) r = add_methods methods r >>= add_classes rest
