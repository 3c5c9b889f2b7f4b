-- ===== src/Schema/Slots/Added.antt =====
-- What one declaration of a method does to the slots and the processes of a class.
use cimba_python.Base.{
  ℕ, ◌≡◌, refl, sym, ap, ◌∙◌, subst, Bool, true, false, not, Option, none, some, List, [], ◌∷◌,
  ◌++◌, ite, inl, inr, Option-cases, ℕ_discrete, arith,
}
use cimba_python.Schema.Slots.{
  SlotRole, event, predicate, function, Role, process, on_start, on_end, slot, Roles, same_slot,
  is_role, get, without, replace_last, set_default, add_role, differs,
}

get-append {ℓ} :
    {A : Type ℓ} (n k : ℕ) (a : A) (es : List (ℕ × A))
    → (get n es ≡ none)
    → get n (es ++ (k, a) ∷ []) ≡ ite (ℕ_discrete k n) (some a) none
unfolding get
get-append n k a [] h = refl
get-append n k a (e ∷ es) h = ground (arith, get-append n k a es, h)

get-append_found {ℓ} :
    {A : Type ℓ} (n k : ℕ) (a b : A) (es : List (ℕ × A))
    → (get n es ≡ some b)
    → get n (es ++ (k, a) ∷ []) ≡ some b
unfolding get
get-append_found n k a b [] h = cc
get-append_found n k a b (e ∷ es) h = ground (arith, get-append_found n k a b es, h)

get-without {ℓ} : {A : Type ℓ} (n : ℕ) (es : List (ℕ × A)) → get n (without n es) ≡ none
unfolding get without
get-without n [] = refl
get-without n (e ∷ es) = ground (arith, get-without n es)

get-without_other {ℓ} :
    {A : Type ℓ} (n k : ℕ) (es : List (ℕ × A)) → ¬ (k ≡ n) → get n (without k es) ≡ get n es
unfolding get without
get-without_other n k [] h = refl
get-without_other n k (e ∷ es) h = ground (arith, get-without_other n k es, h)

get-append_other {ℓ} :
    {A : Type ℓ} (n k : ℕ) (a : A) (es : List (ℕ × A))
    → ¬ (k ≡ n)
    → get n (es ++ (k, a) ∷ []) ≡ get n es
unfolding get
get-append_other n k a [] h = ground (arith, h)
get-append_other n k a (e ∷ es) h = ground (arith, get-append_other n k a es h)

-- What a declaration makes of a slot: a declaration replaces those of further classes.
abbrev pub slot_kept : Option Role → Option SlotRole → Option SlotRole
slot_kept (some (slot s)) old = some s
slot_kept _ old = none

-- What a declaration makes of a process: another declaration leaves it.
abbrev pub process_kept : Option Role → Option (ℕ × ℕ) → Option (ℕ × ℕ)
process_kept (some (process copies priority)) old = some (copies, priority)
process_kept _ old = old

same_slot-eq : (s t : SlotRole) → same_slot s t ≡ true → s ≡ t
same_slot-eq event event h = refl
same_slot-eq predicate predicate h = refl
same_slot-eq function function h = refl
same_slot-eq event predicate h = cc
same_slot-eq event function h = cc
same_slot-eq predicate event h = cc
same_slot-eq predicate function h = cc
same_slot-eq function event h = cc
same_slot-eq function predicate h = cc

-- A declaration that passes the test of a name with a slot.
kept_of_same :
    (s : SlotRole) (role : Option Role)
    → not (is_role s role) ≡ false
    → slot_kept role none ≡ some s
kept_of_same s none h = cc
kept_of_same s (some (process c p)) h = cc
kept_of_same s (some on_start) h = cc
kept_of_same s (some on_end) h = cc
kept_of_same s (some (slot t)) h = ap some (sym (same_slot-eq s t (flip (same_slot s t) h)))
  where
    flip : (b : Bool) → not b ≡ false → b ≡ true
    flip true e = refl
    flip false e = cc

slot_kept-none :
    (role : Option Role) (old : Option SlotRole) → slot_kept role old ≡ slot_kept role none
slot_kept-none none old = refl
slot_kept-none (some (process c p)) old = refl
slot_kept-none (some on_start) old = refl
slot_kept-none (some on_end) old = refl
slot_kept-none (some (slot t)) old = refl

set_default-other :
    (n k : ℕ) (s : SlotRole) (o : Option SlotRole) (es : List (ℕ × SlotRole))
    → ¬ (k ≡ n)
    → get n (set_default k s o es) ≡ get n es
set_default-other n k s none es h = get-append_other n k s es h
set_default-other n k s (some t) es h = refl

pub added_other :
    (n k : ℕ) (role : Option Role) (r : Roles)
    → ¬ (k ≡ n)
    → get n (add_role k role r).slotted ≡ get n r.slotted
unfolding add_role
added_other n k none r h = refl
added_other n k (some (process c p)) r h = refl
added_other n k (some on_start) r h = refl
added_other n k (some on_end) r h = refl
added_other n k (some (slot s)) r h = set_default-other n k s (get k r.slotted) r.slotted h

pub added_found :
    (k : ℕ) (s : SlotRole) (role : Option Role) (r : Roles)
    → get k r.slotted ≡ some s
    → get k (add_role k role r).slotted ≡ some s
unfolding add_role
added_found k s none r e = e
added_found k s (some (process c p)) r e = e
added_found k s (some on_start) r e = e
added_found k s (some on_end) r e = e
added_found k s (some (slot t)) r e = ap (λ o. get k (set_default k t o r.slotted)) e ∙ e

added_new :
    (k : ℕ) (role : Option Role) (r : Roles)
    → get k r.slotted ≡ none
    → get k (add_role k role r).slotted ≡ slot_kept role none
unfolding add_role
added_new k none r e = e
added_new k (some (process c p)) r e = e
added_new k (some on_start) r e = e
added_new k (some on_end) r e = e
added_new k (some (slot t)) r e =
    ap (λ o. get k (set_default k t o r.slotted)) e ∙ get-append k k t r.slotted e ∙ ground arith

-- One declaration, for the slots.
pub added_slot :
    (n k : ℕ) (role : Option Role) (r : Roles) (old : Option SlotRole)
    → differs (get k r.slotted) role ≡ false
    → get n r.slotted ≡ old
    → get n (add_role k role r).slotted ≡ ite (ℕ_discrete k n) (slot_kept role old) old
added_slot n k role r old h e =
    elim (ℕ_discrete k n)
      as (λ d. get n (add_role k role r).slotted ≡ ite d (slot_kept role old) old) [
        | no q ↦ added_other n k role r q ∙ e
        | yes q ↦ at_name (subst (λ j. get j r.slotted ≡ old) (sym q) e) q
      ]
  where
    at_same : get k r.slotted ≡ old → get k (add_role k role r).slotted ≡ slot_kept role old
    at_same e = elim (Option-cases (get k r.slotted)) [
      | inl f ↦ added_new k role r f ∙ sym (slot_kept-none role old)
      | inr f ↦
          added_found k f.0 role r f.1
          ∙ sym (kept_of_same f.0 role (subst (λ o. differs o role ≡ false) f.1 h))
          ∙ sym (slot_kept-none role old)
    ]

    at_name : get k r.slotted ≡ old → k ≡ n → get n (add_role k role r).slotted ≡ slot_kept role old
    at_name e q = subst (λ j. get j (add_role k role r).slotted ≡ slot_kept role old) q (at_same e)

replaced :
    (n k : ℕ) (copies priority : ℕ) (es : List (ℕ × (ℕ × ℕ))) (old : Option (ℕ × ℕ))
    → get n es ≡ old
    → get n (replace_last k (copies, priority) es)
      ≡ ite (ℕ_discrete k n) (some (copies, priority)) old
replaced n k copies priority es old e =
    elim (ℕ_discrete k n)
      as (λ d. get n (replace_last k (copies, priority) es) ≡ ite d (some (copies, priority)) old) [
        | no q ↦
            get-append_other n k (copies, priority) (without k es) q
            ∙ get-without_other n k es q
            ∙ e
        | yes q ↦
            subst (λ j. get j (replace_last k (copies, priority) es) ≡ some (copies, priority)) q
              (get-append k k (copies, priority) (without k es) (get-without k es) ∙ ground arith)
      ]

same_either : {A : Type 0} (n k : ℕ) (old : Option A) → old ≡ ite (ℕ_discrete k n) old old
same_either n k old = ground arith

-- One declaration, for the processes.
pub added_process :
    (n k : ℕ) (role : Option Role) (r : Roles) (old : Option (ℕ × ℕ))
    → get n r.processes ≡ old
    → get n (add_role k role r).processes ≡ ite (ℕ_discrete k n) (process_kept role old) old
unfolding add_role
added_process n k (some (process copies priority)) r old e =
    replaced n k copies priority r.processes old e
added_process n k none r old e = e ∙ same_either n k old
added_process n k (some on_start) r old e = e ∙ same_either n k old
added_process n k (some on_end) r old e = e ∙ same_either n k old
added_process n k (some (slot s)) r old e = e ∙ same_either n k old
