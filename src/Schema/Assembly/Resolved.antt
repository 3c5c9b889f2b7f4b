-- ===== src/Schema/Assembly/Resolved.antt =====
-- A tree that `Assembly.of` accepts: what its references name is in it.
use cimba_python.Base.{
  ℕ, zero, suc, ◌+◌, ◌≡◌, ◌≢◌, refl, sym, ap, ◌∙◌, subst, Bool, true, false, not, Option, none,
  some, List, [], ◌∷◌, Result, ok, raise_if, model_definition_error, >>=-eq-ok, >>-eq-ok,
  raise_if-ok, All, All-append, All-get, member, ℕ_discrete, arith, get_elem?, ok_injective,
}
use cimba_python.Schema.Types.{EntityType, EntityType-discrete}
use cimba_python.Schema.Assembly.{World, Slot, Target, Object, Choice, Held, choices, picked, visit}
use cimba_python.Schema.Assembly.Walk.{visit-Entered}
use cimba_python.Schema.Assembly.Reached.{IsTree, Entered-IsTree}
use cimba_python.Schema.Assembly.References.{
  Owner, owner_of, check_each, own_field, own_fields, owners, check_owner, check_entity,
  check_model, check_target, check_item, check_choice, check_fields, assembly,
}

check_each-All {ℓ} :
    {A : Type ℓ} (f : A → Result (Unit {0})) (xs : List A)
    → check_each f xs ≡ ok tt
    → All (λ x. f x ≡ ok tt) xs
unfolding check_each
check_each-All f [] h = tt
check_each-All f (x ∷ xs) h =
    let (first, then) = >>-eq-ok (f x) (check_each f xs) h in (first, check_each-All f xs then)

owner_of-Holds :
    (Holds : Owner → Type 0) (e : ℕ) (os : List Owner) (o : Owner)
    → All Holds os
    → owner_of e os ≡ some o
    → Holds o × (o.owned ≡ e)
unfolding owner_of
owner_of-Holds Holds e [] o all h = cc
owner_of-Holds Holds e (p ∷ os) o all h = elim (ℕ_discrete p.owned e) [
  | yes q ↦
      let eq : p ≡ o = ground (arith, h, q) in (subst Holds eq all.0, ap Owner.owned (sym eq) ∙ q)
  | no q ↦ owner_of-Holds Holds e os o all.1 (ground (arith, h, q))
]

not-false : (b : Bool) → not b ≡ false → b ≡ true
not-false true h = refl
not-false false h = cc

-- An option of a field names an object as the target of a reference.
pub data Names : Slot → Choice → Target → Object → Type 0 where
  by_ref :
      (t : Target) (optional : Bool) (o : Object)
      → o ≢ Object.nothing
      → Names (Slot.ref t optional) (Choice.object o) t o
  by_item :
      (t : Target) (items : List Object) (i : ℕ) (o : Object)
      → get_elem? items i ≡ some o
      → o ≢ Object.nothing
      → Names (Slot.refs t) (Choice.list items) t o

module _ (w : World) (strict : Bool) where
  -- A field of a model of the tree that holds the entity, and its declared type.
  abbrev pub IsOwned : List ℕ → ℕ → EntityType → Type 0
  IsOwned models e t =
      (m : ℕ) × (n : ℕ) × (member ℕ_discrete m models ≡ true)
      × (get_elem? (w.slots m) n ≡ some (Slot.entity t))
      × (w.held m n ≡ Held.one (Choice.object (Object.entity e)))

  -- The target of a reference: a model of the class in the tree, or an entity of the class that a
  -- field of the very type holds in the tree.
  abbrev pub IsResolved : List ℕ → Target → Object → Type 0
  IsResolved models (Target.to_model c) (Object.model m) =
      (w.is_instance m c ≡ true) × (member ℕ_discrete m models ≡ true)
  IsResolved models (Target.to_entity t) (Object.entity e) =
      (w.is_entity e t ≡ true) × IsOwned models e t
  IsResolved models t o = ⊥

  check_model-IsResolved :
      (models : List ℕ) (c : ℕ) (o : Object)
      → check_model w strict models c o ≡ ok tt
      → IsResolved models (Target.to_model c) o
  unfolding check_model
  check_model-IsResolved models c (Object.model m) h =
      let (a, b) = >>-eq-ok (raise_if (not (w.is_instance m c)) model_definition_error) _ h in
      (
        not-false _ (raise_if-ok _ model_definition_error a),
        not-false _ (raise_if-ok _ model_definition_error b),
      )
  check_model-IsResolved models c (Object.entity e) h = cc
  check_model-IsResolved models c Object.nothing h = cc
  check_model-IsResolved models c Object.other h = cc

  -- What the owners record.
  abbrev IsHeld : List ℕ → Owner → Type 0
  IsHeld models o =
      (member ℕ_discrete o.holder models ≡ true)
      × (get_elem? (w.slots o.holder) o.field ≡ some (Slot.entity o.held_type))
      × (w.held o.holder o.field ≡ Held.one (Choice.object (Object.entity o.owned)))

  own_field-IsHeld :
      (models : List ℕ) (m n : ℕ) (slot : Slot) (h : Held)
      → member ℕ_discrete m models ≡ true
      → get_elem? (w.slots m) n ≡ some slot
      → w.held m n ≡ h
      → All (IsHeld models) (own_field w strict m n slot h)
  own_field-IsHeld models m n (Slot.entity t) (Held.one (Choice.object (Object.entity e))) inside at
        eq =
      ((inside, at, eq), tt)
  own_field-IsHeld models m n slot h inside at eq = tt

  own_fields-IsHeld :
      (models : List ℕ) (m n : ℕ) (slots : List Slot)
      → member ℕ_discrete m models ≡ true
      → ((i : ℕ) → get_elem? slots i ≡ get_elem? (w.slots m) (n + i))
      → All (IsHeld models) (own_fields w strict m n slots)
  unfolding own_fields
  own_fields-IsHeld models m n [] inside same = tt
  own_fields-IsHeld models m n (slot ∷ others) inside same =
      All-append (IsHeld models) (own_field w strict m n slot (w.held m n)) _
        (own_field-IsHeld models m n slot (w.held m n) inside (first (same 0)) refl)
        (own_fields-IsHeld models m (suc n) others inside (λ i. next i (same (suc i))))
    where
      first : some slot ≡ get_elem? (w.slots m) (n + 0) → get_elem? (w.slots m) n ≡ some slot
      first e = sym (subst (λ j. some slot ≡ get_elem? (w.slots m) j) (omega arith) e)

      next :
          (i : ℕ)
          → get_elem? others i ≡ get_elem? (w.slots m) (n + suc i)
          → get_elem? others i ≡ get_elem? (w.slots m) (suc n + i)
      next i e = subst (λ j. get_elem? others i ≡ get_elem? (w.slots m) j) (omega arith) e

  owners-IsHeld :
      (models ms : List ℕ)
      → All (λ m. member ℕ_discrete m models ≡ true) ms
      → All (IsHeld models) (owners w strict ms)
  unfolding owners
  owners-IsHeld models [] inside = tt
  owners-IsHeld models (m ∷ ms) inside =
      All-append (IsHeld models) (own_fields w strict m 0 (w.slots m)) (owners w strict ms)
        (own_fields-IsHeld models m 0 (w.slots m) inside.0
          (λ i. ap (get_elem? (w.slots m)) (omega arith)))
        (owners-IsHeld models ms inside.1)

  check_owner-eq :
      (t : EntityType) (found : Option Owner)
      → check_owner w strict t found ≡ ok tt
      → (o : Owner) × (found ≡ some o) × (o.held_type ≡ t)
  check_owner-eq t none h = cc
  check_owner-eq t (some o) h = elim (EntityType-discrete o.held_type t) [
    | yes p ↦ (o, refl, p)
    | no p ↦ absurd (ground (arith, h, p))
  ]

  check_entity-IsResolved :
      (models : List ℕ) (os : List Owner) (t : EntityType) (o : Object)
      → All (IsHeld models) os
      → check_entity w strict os t o ≡ ok tt
      → IsResolved models (Target.to_entity t) o
  unfolding check_entity
  check_entity-IsResolved models os t (Object.entity e) all h =
      let (a, b) = >>-eq-ok (raise_if (not (w.is_entity e t)) model_definition_error) _ h in
      let (o, found, typed) = check_owner-eq t (owner_of e os) b in
      let (known, named) = owner_of-Holds (IsHeld models) e os o all found in
      (
        not-false _ (raise_if-ok _ model_definition_error a),
        (
          o.holder,
          o.field,
          known.0,
          subst (λ r. get_elem? (w.slots o.holder) o.field ≡ some (Slot.entity r)) typed known.1,
          subst (λ r. w.held o.holder o.field ≡ Held.one (Choice.object (Object.entity r))) named
              known.2,
        ),
      )
  check_entity-IsResolved models os t (Object.model m) all h = cc
  check_entity-IsResolved models os t Object.nothing all h = cc
  check_entity-IsResolved models os t Object.other all h = cc

  check_target-IsResolved :
      (models : List ℕ) (os : List Owner) (t : Target) (o : Object)
      → All (IsHeld models) os
      → check_target w strict models os t o ≡ ok tt
      → IsResolved models t o
  unfolding check_target
  check_target-IsResolved models os (Target.to_model c) o all h =
      check_model-IsResolved models c o h
  check_target-IsResolved models os (Target.to_entity t) o all h =
      check_entity-IsResolved models os t o all h

  check_item-IsResolved :
      (models : List ℕ) (os : List Owner) (t : Target) (o : Object)
      → All (IsHeld models) os
      → o ≢ Object.nothing
      → check_item w strict models os t o ≡ ok tt
      → IsResolved models t o
  unfolding check_item
  check_item-IsResolved models os (Target.to_model c) Object.nothing all some_object h =
      absurd (some_object refl)
  check_item-IsResolved models os t o all some_object h =
      check_target-IsResolved models os t o all h

  check_choice-IsResolved :
      (models : List ℕ) (os : List Owner) (slot : Slot) (c : Choice) (t : Target) (o : Object)
      → All (IsHeld models) os
      → check_choice w strict models os slot c ≡ ok tt
      → Names slot c t o
      → IsResolved models t o
  unfolding check_choice
  check_choice-IsResolved models os _ _ _ _ all h (by_ref t optional Object.nothing given) =
      absurd (given refl)
  check_choice-IsResolved models os _ _ _ _ all h (by_ref t optional o given) =
      check_target-IsResolved models os t o all h
  check_choice-IsResolved models os _ _ _ _ all h (by_item t items i o at given) =
      check_item-IsResolved models os t o all given (
        All-get (λ x. check_item w strict models os t x ≡ ok tt) items i
          (check_each-All (check_item w strict models os t) items h) at)

  abbrev Passes : List ℕ → List Owner → ℕ → Slot → ℕ → Type 0
  Passes models os m slot j =
      check_each (check_choice w strict models os slot)
        (choices (picked w strict m j slot (w.held m j)))
      ≡ ok tt

  check_fields-Passes :
      (models : List ℕ) (os : List Owner) (m n i : ℕ) (slots : List Slot) (slot : Slot)
      → check_fields w strict models os m n slots ≡ ok tt
      → get_elem? slots i ≡ some slot
      → Passes models os m slot (n + i)
  unfolding check_fields
  check_fields-Passes models os m n i [] slot h at = cc
  check_fields-Passes models os m n zero (first ∷ others) slot h at =
      let (here, more) = >>-eq-ok (check_each (check_choice w strict models os first) _) _ h in
      let eq : first ≡ slot = cc in
      subst (Passes models os m slot) (omega arith) (subst (λ s. Passes models os m s n) eq here)
  check_fields-Passes models os m n (suc i) (first ∷ others) slot h at =
      let (here, more) = >>-eq-ok (check_each (check_choice w strict models os first) _) _ h in
      subst (Passes models os m slot) (omega arith)
        (check_fields-Passes models os m (suc n) i others slot more at)

  members :
      (xs ys : List ℕ)
      → ((k : ℕ) → member ℕ_discrete k xs ≡ true → member ℕ_discrete k ys ≡ true)
      → All (λ m. member ℕ_discrete m ys ≡ true) xs
  unfolding member
  members [] ys h = tt
  members (x ∷ xs) ys h =
      (h x (ground arith), members xs ys (λ k inside. h k (ground (arith, inside))))

  -- Every object that an option of a field names as a reference is resolved.
  abbrev pub AreResolved : List ℕ → Type 0
  AreResolved models =
      (i j l m : ℕ) (slot : Slot) (c : Choice) (t : Target) (o : Object)
      → get_elem? models i ≡ some m
      → get_elem? (w.slots m) j ≡ some slot
      → get_elem? (choices (picked w strict m j slot (w.held m j))) l ≡ some c
      → Names slot c t o
      → IsResolved models t o

  checked-AreResolved :
      (models : List ℕ)
      → check_each
          (λ m. check_fields w strict models (owners w strict models) m 0 (w.slots m))
          models
        ≡ ok tt
      → AreResolved models
  checked-AreResolved models checked i j l m slot c t o at_model at_field at_choice named =
      let each =
        All-get (λ k. check_fields w strict models (owners w strict models) k 0 (w.slots k) ≡ ok tt)
          models i (check_each-All _ models checked) at_model in
      let field =
        check_fields-Passes models (owners w strict models) m 0 j (w.slots m) slot each at_field in
      let passes =
        All-get (λ x. check_choice w strict models (owners w strict models) slot x ≡ ok tt)
          (choices (picked w strict m j slot (w.held m j))) l
          (check_each-All _ _
            (subst (Passes models (owners w strict models) m slot) (omega arith) field))
          at_choice in
      check_choice-IsResolved models (owners w strict models) slot c t o
        (owners-IsHeld models models (members models models (λ k h. h))) passes named

  -- In a tree that is accepted the models are a tree below the root, and whatever an option of a
  -- field names as a reference is in it: a model of the class, or an entity that a field of the
  -- very type holds.
  pub assembly-AreResolved :
      (fuel root : ℕ) {models : List ℕ} {os : List Owner}
      → assembly w strict fuel root ≡ ok (models, os)
      → IsTree w strict root models × AreResolved models
  unfolding assembly
  assembly-AreResolved fuel root h =
      let (ms, visited, rest) = >>=-eq-ok (visit w strict fuel root []) _ h in
      let (checked, returned) =
        >>-eq-ok
          (check_each (λ m. check_fields w strict ms (owners w strict ms) m 0 (w.slots m)) ms) _
          rest in
      subst (λ r. IsTree w strict root r × AreResolved r) (same_models (ok_injective returned))
        (
          Entered-IsTree w strict root ms (visit-Entered w strict fuel root [] ms visited),
          checked-AreResolved ms checked,
        )
    where
      same_models : {p q : List ℕ × List Owner} → p ≡ q → p.0 ≡ q.0
      same_models e = ap (λ p. p.0) e
