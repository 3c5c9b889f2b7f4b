-- ===== src/Schema/Classes/Dispatch.antt =====
-- The dispatch table of a class that `ClassSchema.of` accepts: a view by a base finds each of its
-- slots at its place.
use cimba_python.Base.{
  ℕ, zero, suc, ◌≤◌, ◌≡◌, refl, sym, ap, ◌∙◌, subst, Bool, true, false, not, ◌&&◌, ◌||◌, Option,
  none, some, List, [], ◌∷◌, ◌++◌, Result, ok, raise_if, model_definition_error, >>=-eq-ok,
  >>-eq-ok, raise_if-ok, if-ok, ok_injective, inl, inr, ℕ_discrete, arith, count, count-snoc,
  IsDistinct, get_elem?, ◌==◌, ==_iff,
}
use cimba_python.Base.Int.{ℤ}
use cimba_python.Schema.Scalars.{Floats, Scalar}
use cimba_python.Schema.Signatures.{Annotation}
use cimba_python.Schema.Slots.{
  SlotRole, Role, process, on_start, on_end, slot, Roles, get, set_default, no_roles, add_role,
  differs, add_methods, add_classes,
}
use cimba_python.Schema.Classes.{
  names, begins, any_of, Classes, Schema, furthest_first, roles_of, signatures_of, check_bases,
  class_schema,
}
use cimba_python.Schema.Slots.Added.{slot_kept, process_kept}
use cimba_python.Schema.Classes.Attributes.{nearest, roles_of-nearest}

count-names-get {ℓ} :
    {A : Type ℓ} (n : ℕ) (es : List (ℕ × A)) → get n es ≡ none → count ℕ_discrete n (names es) ≡ 0
unfolding get
count-names-get n [] h = refl
count-names-get n (e ∷ es) h = ground (arith, count-names-get n es, h)

names-append {ℓ} :
    {A : Type ℓ} (n : ℕ) (a : A) (es : List (ℕ × A))
    → names (es ++ (n, a) ∷ []) ≡ names es ++ n ∷ []
names-append n a [] = refl
names-append n a (e ∷ es) = ap (λ ns. e.0 ∷ ns) (names-append n a es)

set_default-IsDistinct :
    (n : ℕ) (s : SlotRole) (es : List (ℕ × SlotRole)) (o : Option SlotRole)
    → get n es ≡ o
    → IsDistinct ℕ_discrete (names es)
    → IsDistinct ℕ_discrete (names (set_default n s o es))
set_default-IsDistinct n s es none e d k =
    rw (names-append n s es) ground
      (arith, count-snoc ℕ_discrete k n (names es), count-names-get n es e, d k)
set_default-IsDistinct n s es (some t) e d k = d k

add_role-IsDistinct :
    (n : ℕ) (role : Option Role) (r : Roles)
    → IsDistinct ℕ_discrete (names r.slotted)
    → IsDistinct ℕ_discrete (names (add_role n role r).slotted)
unfolding add_role
add_role-IsDistinct n none r d = d
add_role-IsDistinct n (some (process c p)) r d = d
add_role-IsDistinct n (some on_start) r d = d
add_role-IsDistinct n (some on_end) r d = d
add_role-IsDistinct n (some (slot s)) r d =
    set_default-IsDistinct n s r.slotted (get n r.slotted) refl d

add_methods-IsDistinct :
    (ms : List (ℕ × Option Role)) (r : Roles) {result : Roles}
    → add_methods ms r ≡ ok result
    → IsDistinct ℕ_discrete (names r.slotted)
    → IsDistinct ℕ_discrete (names result.slotted)
unfolding add_methods
add_methods-IsDistinct [] r h d =
    subst (λ x. IsDistinct ℕ_discrete (names x.slotted)) (ok_injective h) d
add_methods-IsDistinct (m ∷ ms) r h d =
    let (test, after) =
      >>-eq-ok (raise_if (differs (get m.0 r.slotted) m.1) model_definition_error) _ h in
    add_methods-IsDistinct ms (add_role m.0 m.1 r) after (add_role-IsDistinct m.0 m.1 r d)

add_classes-IsDistinct :
    (cs : List (List (ℕ × Option Role))) (r : Roles) {result : Roles}
    → add_classes cs r ≡ ok result
    → IsDistinct ℕ_discrete (names r.slotted)
    → IsDistinct ℕ_discrete (names result.slotted)
unfolding add_classes
add_classes-IsDistinct [] r h d =
    subst (λ x. IsDistinct ℕ_discrete (names x.slotted)) (ok_injective h) d
add_classes-IsDistinct (ms ∷ cs) r h d =
    let (middle, first, after) = >>=-eq-ok (add_methods ms r) (add_classes cs) h in
    add_classes-IsDistinct cs middle after (add_methods-IsDistinct ms r first d)

both : (a b : Bool) → not (a && b) ≡ false → (a ≡ true) × (not b ≡ false)
both true b h = (refl, h)
both false b h = cc

begins-at :
    (xs ys : List ℕ) (i : ℕ) {n : ℕ}
    → not (begins xs ys) ≡ false
    → get_elem? ys i ≡ some n
    → get_elem? xs i ≡ some n
unfolding begins
begins-at xs [] i h e = cc
begins-at [] (y ∷ ys) i h e = cc
begins-at (x ∷ xs) (y ∷ ys) zero h e =
    ap some ((==_iff x y).0 (both (x == y) (begins xs ys) h).0) ∙ e
begins-at (x ∷ xs) (y ∷ ys) (suc i) h e = begins-at xs ys i (both (x == y) (begins xs ys) h).1 e

module _ (fs : Floats) (members : ℕ → List ℤ)
    (convert : Annotation → Scalar fs.F → Result (Scalar fs.F)) (w : Classes fs.F) where
  -- Every slot of a base is at the same place.
  abbrev pub Extends : Schema fs.F → Schema fs.F → Type 0
  Extends schema base =
      (i n : ℕ)
      → get_elem? (names base.roles.slotted) i ≡ some n
      → get_elem? (names schema.roles.slotted) i ≡ some n

  abbrev IsExtended : (ℕ → Result (Schema fs.F)) → List ℕ → ℕ → Type 0
  IsExtended schema slots b =
      (base : Schema fs.F) × (schema b ≡ ok base)
      × (not (begins slots (names base.roles.slotted)) ≡ false)

  check_base :
      (schema : ℕ → Result (Schema fs.F)) (slots : List ℕ) (b : ℕ) (bs : List ℕ)
      → check_bases fs members convert w schema slots (b ∷ bs) ≡ ok tt
      → (check_bases fs members convert w schema slots bs ≡ ok tt)
        × (w.is_model b ≡ true → IsExtended schema slots b)
  unfolding check_bases
  check_base schema slots b bs h =
      elim (if-ok (w.is_model b) _ (check_bases fs members convert w schema slots bs) h) [
        | inr g ↦ (g.1, λ m. absurd (two (sym g.0 ∙ m)))
        | inl g ↦
            let (base, given, tested) = >>=-eq-ok (schema b) _ g.1 in
            let (test, others) =
              >>-eq-ok
                (raise_if (not (begins slots (names base.roles.slotted))) model_definition_error) _
                tested in
            (others, λ m. (base, given, raise_if-ok _ model_definition_error test))
      ]
    where
      two : ¬ (false ≡ true)
      two e = cc

  check_bases-at :
      (schema : ℕ → Result (Schema fs.F)) (slots bs : List ℕ) (j : ℕ) {b : ℕ}
      → check_bases fs members convert w schema slots bs ≡ ok tt
      → get_elem? bs j ≡ some b
      → w.is_model b ≡ true
      → IsExtended schema slots b
  unfolding check_bases
  check_bases-at schema slots [] j h e m = cc
  check_bases-at schema slots (b ∷ bs) zero h e m =
      let same_base : b ≡ _ = some_injective e in
      subst (IsExtended schema slots) same_base
        ((check_base schema slots b bs h).1 (ap w.is_model same_base ∙ m))
    where
      some_injective : {x y : ℕ} → some x ≡ some y → x ≡ y
      some_injective e = cc
  check_bases-at schema slots (b ∷ bs) (suc j) h e m =
      check_bases-at schema slots bs j (check_base schema slots b bs h).0 e m

  -- What `class_schema` has read when it returns.
  abbrev pub IsReadOf : ℕ → ℕ → Schema fs.F → Type 0
  IsReadOf fuel c schema =
      (roles_of fs members convert w c ≡ ok schema.roles)
      × (signatures_of fs members convert w c schema.roles.slotted ≡ ok schema.signatures)
      × (check_bases fs members convert w (class_schema fs members convert w fuel)
            (names schema.roles.slotted) (w.bases c)
          ≡ ok tt)

  pub class_schema-IsReadOf :
      (fuel c : ℕ) {schema : Schema fs.F}
      → class_schema fs members convert w (suc fuel) c ≡ ok schema
      → IsReadOf fuel c schema
  unfolding class_schema
  class_schema-IsReadOf fuel c h =
      let (r, collected, h1) = >>=-eq-ok (roles_of fs members convert w c) _ h in
      let (signatures, signed, h2) =
        >>=-eq-ok (signatures_of fs members convert w c r.slotted) _ h1 in
      let (checked, returned) =
        >>-eq-ok
          (check_bases fs members convert w (class_schema fs members convert w fuel)
            (names r.slotted) (w.bases c))
          _ h2 in
      subst (IsReadOf fuel c) (ok_injective returned) (collected, signed, checked)

  -- The attributes of each class are a dictionary. If ClassSchema.of accepts a class, no name has
  -- two slots, a name has the slot that attribute lookup finds, and each model class among the bases
  -- is accepted and has its slots at the same places.
  pub class_schema-dispatch :
      (fuel c : ℕ) {schema : Schema fs.F}
      → ((k n : ℕ) → count ℕ_discrete n (names (w.attributes k)) ≤ 1)
      → class_schema fs members convert w (suc fuel) c ≡ ok schema
      → IsDistinct ℕ_discrete (names schema.roles.slotted)
        × ((n : ℕ)
            → (get n schema.roles.slotted
                ≡ nearest fs members convert w slot_kept n (c ∷ w.bases c))
              × (get n schema.roles.processes
                  ≡ nearest fs members convert w process_kept n (c ∷ w.bases c)))
        × ((j b : ℕ)
            → get_elem? (w.bases c) j ≡ some b
            → w.is_model b ≡ true
            → (base : Schema fs.F) × (class_schema fs members convert w fuel b ≡ ok base)
              × Extends schema base)
  unfolding roles_of
  class_schema-dispatch fuel c {schema = schema} distinct h =
      let (collected, signed, checked) = class_schema-IsReadOf fuel c h in
      let (r, added, rest) =
        >>=-eq-ok (add_classes (furthest_first fs members convert w (c ∷ w.bases c) []) no_roles) _
          collected in
      let (test, same_roles) =
        >>-eq-ok
          (raise_if (any_of (λ k. w.is_field c k || w.is_reserved k) (names r.slotted))
            model_definition_error)
          _ rest in
      (
        subst (λ x. IsDistinct ℕ_discrete (names x.slotted)) (ok_injective same_roles)
            (add_classes-IsDistinct (furthest_first fs members convert w (c ∷ w.bases c) [])
              no_roles added (λ k. omega arith)),
        λ n. roles_of-nearest fs members convert w c n (λ k. distinct k n) collected,
        λ j b at m.
            let (base, given, prefix) =
              check_bases-at (class_schema fs members convert w fuel) (names schema.roles.slotted)
                (w.bases c) j checked at m in
            (
              base,
              given,
              λ i n e. begins-at (names schema.roles.slotted) (names base.roles.slotted) i prefix e,
            ),
      )
