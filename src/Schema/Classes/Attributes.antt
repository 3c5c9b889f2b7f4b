-- ===== src/Schema/Classes/Attributes.antt =====
-- The roles that `ClassSchema.of` collects from the furthest class on, against attribute lookup from
-- the nearest class on.
use cimba_python.Base.{
  ℕ, ◌≤◌, ◌≡◌, refl, sym, ap, ◌∙◌, Option, none, some, List, [], ◌∷◌, Result, ok, raise_if,
  model_definition_error, >>=-eq-ok, >>-eq-ok, raise_if-ok, ok_injective, ite, ℕ_discrete, arith,
  count,
}
use cimba_python.Schema.Slots.{
  SlotRole, Role, Roles, get, no_roles, add_role, differs, add_methods, add_classes,
}
use cimba_python.Schema.Slots.Added.{slot_kept, process_kept, added_slot, added_process}
use cimba_python.Base.{◌||◌}
use cimba_python.Base.Int.{ℤ}
use cimba_python.Schema.Scalars.{Floats, Scalar}
use cimba_python.Schema.Signatures.{Annotation}
use cimba_python.Schema.Classes.{names, any_of, Classes, furthest_first, roles_of}

-- Declarations in turn, for one name.
module _ {A : Type 0} (keep : Option Role → Option A → Option A) (n : ℕ) where
  unfoldable fold_methods : List (ℕ × Option Role) → Option A → Option A
  fold_methods [] old = old
  fold_methods (m ∷ ms) old = fold_methods ms (ite (ℕ_discrete m.0 n) (keep m.1 old) old)

  unfoldable fold_classes : List (List (ℕ × Option Role)) → Option A → Option A
  fold_classes [] old = old
  fold_classes (ms ∷ rest) old = fold_classes rest (fold_methods ms old)

  abbrev pub kept_if : Option (Option Role) → Option A → Option A
  kept_if none old = old
  kept_if (some role) old = keep role old

  fold_methods-none :
      (ms : List (ℕ × Option Role)) (old : Option A)
      → count ℕ_discrete n (names ms) ≡ 0
      → fold_methods ms old ≡ old
  unfolding fold_methods
  fold_methods-none [] old h = refl
  fold_methods-none (m ∷ ms) old h = ground (arith, fold_methods-none ms old, h)

  -- A class declares a name once.
  fold_methods-get :
      (ms : List (ℕ × Option Role)) (old : Option A)
      → count ℕ_discrete n (names ms) ≤ 1
      → fold_methods ms old ≡ kept_if (get n ms) old
  unfolding fold_methods get
  fold_methods-get [] old h = refl
  fold_methods-get (m ∷ ms) old h =
      elim (ℕ_discrete m.0 n)
        as (λ d.
          fold_methods ms (ite d (keep m.1 old) old) ≡ kept_if (ite d (some m.1) (get n ms)) old) [
            | yes q ↦ fold_methods-none ms (keep m.1 old) (ground (arith, h, q))
            | no q ↦ fold_methods-get ms old (ground (arith, h, q))
          ]

folded_methods :
    (n : ℕ) (ms : List (ℕ × Option Role)) (r : Roles) {result : Roles} (old : Option SlotRole)
    (run : Option (ℕ × ℕ))
    → add_methods ms r ≡ ok result
    → get n r.slotted ≡ old
    → get n r.processes ≡ run
    → (get n result.slotted ≡ fold_methods slot_kept n ms old)
      × (get n result.processes ≡ fold_methods process_kept n ms run)
unfolding add_methods fold_methods
folded_methods n [] r old run h e f =
    let same : r ≡ _ = ok_injective h in
    (ap (λ x. get n x.slotted) (sym same) ∙ e, ap (λ x. get n x.processes) (sym same) ∙ f)
folded_methods n (m ∷ ms) r old run h e f =
    let (test, rest) =
      >>-eq-ok (raise_if (differs (get m.0 r.slotted) m.1) model_definition_error) _ h in
    folded_methods n ms (add_role m.0 m.1 r) (ite (ℕ_discrete m.0 n) (slot_kept m.1 old) old)
      (ite (ℕ_discrete m.0 n) (process_kept m.1 run) run) rest
      (added_slot n m.0 m.1 r old (raise_if-ok _ model_definition_error test) e)
      (added_process n m.0 m.1 r run f)

folded_classes :
    (n : ℕ) (cs : List (List (ℕ × Option Role))) (r : Roles) {result : Roles}
    (old : Option SlotRole) (run : Option (ℕ × ℕ))
    → add_classes cs r ≡ ok result
    → get n r.slotted ≡ old
    → get n r.processes ≡ run
    → (get n result.slotted ≡ fold_classes slot_kept n cs old)
      × (get n result.processes ≡ fold_classes process_kept n cs run)
unfolding add_classes fold_classes
folded_classes n [] r old run h e f =
    let same : r ≡ _ = ok_injective h in
    (ap (λ x. get n x.slotted) (sym same) ∙ e, ap (λ x. get n x.processes) (sym same) ∙ f)
folded_classes n (ms ∷ rest) r old run h e f =
    let (middle, first, then) = >>=-eq-ok (add_methods ms r) (add_classes rest) h in
    let (a, b) = folded_methods n ms r old run first e f in
    folded_classes n rest middle (fold_methods slot_kept n ms old)
      (fold_methods process_kept n ms run) then a b

module _ (fs : Floats) (members : ℕ → List ℤ)
    (convert : Annotation → Scalar fs.F → Result (Scalar fs.F)) (w : Classes fs.F) where
  -- What the classes make of a name, the nearest class first.
  abbrev pub nearest : {A : Type 0} → (Option Role → Option A → Option A) → ℕ → List ℕ → Option A
  nearest keep n [] = none
  nearest keep n (c ∷ cs) = kept_if keep n (get n (w.attributes c)) (nearest keep n cs)

  fold_furthest :
      {A : Type 0} (keep : Option Role → Option A → Option A) (n : ℕ) (cs : List ℕ)
      (done : List (List (ℕ × Option Role)))
      → ((c : ℕ) → count ℕ_discrete n (names (w.attributes c)) ≤ 1)
      → fold_classes keep n (furthest_first fs members convert w cs done) none
        ≡ fold_classes keep n done (nearest keep n cs)
  unfolding fold_classes furthest_first
  fold_furthest keep n [] done distinct = refl
  fold_furthest keep n (c ∷ cs) done distinct =
      fold_furthest keep n cs (w.attributes c ∷ done) distinct
      ∙ ap (fold_classes keep n done)
          (fold_methods-get keep n (w.attributes c) (nearest keep n cs) (distinct c))

  -- The attributes of each class are a dictionary. If the roles of a class are accepted, a name has
  -- the slot that attribute lookup finds: the role of the first class that declares the name, where
  -- it is one with a slot. It is a process as the first class declares that declares it so.
  pub roles_of-nearest :
      (c n : ℕ) {r : Roles}
      → ((k : ℕ) → count ℕ_discrete n (names (w.attributes k)) ≤ 1)
      → roles_of fs members convert w c ≡ ok r
      → (get n r.slotted ≡ nearest slot_kept n (c ∷ w.bases c))
        × (get n r.processes ≡ nearest process_kept n (c ∷ w.bases c))
  unfolding roles_of fold_classes
  roles_of-nearest c n distinct h =
      let (collected, added, rest) =
        >>=-eq-ok (add_classes (furthest_first fs members convert w (c ∷ w.bases c) []) no_roles) _
          h in
      let (test, same) =
        >>-eq-ok
          (raise_if (any_of (λ k. w.is_field c k || w.is_reserved k) (names collected.slotted))
            model_definition_error)
          _ rest in
      let (a, b) =
        folded_classes n (furthest_first fs members convert w (c ∷ w.bases c) []) no_roles none none
          added refl refl in
      (
        ap (λ x. get n x.slotted) (sym (ok_injective same))
            ∙ a
            ∙ fold_furthest slot_kept n (c ∷ w.bases c) [] distinct,
        ap (λ x. get n x.processes) (sym (ok_injective same))
            ∙ b
            ∙ fold_furthest process_kept n (c ∷ w.bases c) [] distinct,
      )
