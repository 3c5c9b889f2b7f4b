-- ===== src/Schema/Slots/Kept.antt =====
-- A name keeps its slot and its role as further classes are read.
use cimba_python.Base.{
  ℕ, ◌≡◌, refl, sym, ap, ◌∙◌, subst, Option, some, List, [], ◌∷◌, ◌++◌, ok, raise_if,
  model_definition_error, ◌>>=◌, >>=-eq-ok, >>-eq-ok, ok_injective, ℕ_discrete,
}
use cimba_python.Schema.Slots.{
  SlotRole, Role, Roles, get, add_role, differs, add_methods, add_classes,
}
use cimba_python.Schema.Slots.Added.{added_other, added_found}

-- A slot stays with its role as more declarations are read.
added_kept :
    (n k : ℕ) (s : SlotRole) (role : Option Role) (r : Roles)
    → get n r.slotted ≡ some s
    → get n (add_role k role r).slotted ≡ some s
added_kept n k s role r e = elim (ℕ_discrete k n) [
  | no q ↦ added_other n k role r q ∙ e
  | yes q ↦
      subst (λ j. get j (add_role k role r).slotted ≡ some s) q
        (added_found k s role r (subst (λ j. get j r.slotted ≡ some s) (sym q) e))
]

pub add_methods-kept :
    (n : ℕ) (s : SlotRole) (ms : List (ℕ × Option Role)) (r : Roles) {result : Roles}
    → add_methods ms r ≡ ok result
    → get n r.slotted ≡ some s
    → get n result.slotted ≡ some s
unfolding add_methods
add_methods-kept n s [] r h e = ap (λ x. get n x.slotted) (sym (ok_injective h)) ∙ e
add_methods-kept n s (m ∷ ms) r h e =
    let (test, after) =
      >>-eq-ok (raise_if (differs (get m.0 r.slotted) m.1) model_definition_error) _ h in
    add_methods-kept n s ms (add_role m.0 m.1 r) after (added_kept n m.0 s m.1 r e)

-- The nearest class is read last.
pub add_classes-last :
    (cs : List (List (ℕ × Option Role))) (ms : List (ℕ × Option Role)) (r : Roles) {result : Roles}
    → add_classes (cs ++ ms ∷ []) r ≡ ok result
    → (before : Roles) × (add_classes cs r ≡ ok before) × (add_methods ms before ≡ ok result)
unfolding add_classes
add_classes-last [] ms r h =
    let (after, given, same) = >>=-eq-ok (add_methods ms r) _ h in (r, refl, given ∙ same)
add_classes-last (c ∷ cs) ms r h =
    let (middle, given, after) = >>=-eq-ok (add_methods c r) _ h in
    let (before, first, last) = add_classes-last cs ms middle after in
    (before, ap (λ x. x >>= add_classes cs) given ∙ first, last)
