-- ===== src/Schema/Classes/Overrides.antt =====
-- Functions along a chain of single inheritance: an override has the types that the base declares.
use cimba_python.Base.{
  ℕ, suc, ◌≤◌, ◌≡◌, refl, sym, ap, ◌∙◌, subst, Bool, true, false, not, ◌&&◌, ◌||◌, Option, none,
  some, List, [], ◌∷◌, ◌++◌, Result, ok, raise_if, model_definition_error, >>=-eq-ok, >>-eq-ok,
  raise_if-ok, ok_injective, ℕ_discrete, arith, count, if◌then◌else◌, append_assoc, inl, inr,
  Option-cases,
}
use cimba_python.Base.Int.{ℤ}
use cimba_python.Schema.Scalars.{Floats, Scalar}
use cimba_python.Schema.Signatures.{Annotation, Signature}
use cimba_python.Schema.Slots.{
  SlotRole, event, predicate, function, Role, process, on_start, on_end, slot, Roles, get, no_roles,
  add_classes,
}
use cimba_python.Schema.Classes.{
  names, any_of, Classes, Schema, furthest_first, roles_of, provider, declaring, signature_of,
  check_override, add_signature, signatures_of, class_schema, same_types, same_annotation,
  is_function,
}
use cimba_python.Schema.Slots.Added.{slot_kept}
use cimba_python.Schema.Slots.Kept.{add_methods-kept, add_classes-last}
use cimba_python.Schema.Classes.Attributes.{kept_if, nearest, roles_of-nearest}
use cimba_python.Schema.Classes.Dispatch.{class_schema-IsReadOf}

module _ (fs : Floats) (members : ℕ → List ℤ)
    (convert : Annotation → Scalar fs.F → Result (Scalar fs.F)) (w : Classes fs.F) where
  furthest_first-append :
      (cs : List ℕ) (done : List (List (ℕ × Option Role)))
      → furthest_first fs members convert w cs done
        ≡ furthest_first fs members convert w cs [] ++ done
  unfolding furthest_first
  furthest_first-append [] done = refl
  furthest_first-append (c ∷ cs) done =
      let methods = w.attributes c in
      furthest_first-append cs (methods ∷ done)
      ∙ sym (append_assoc (furthest_first fs members convert w cs []) (methods ∷ []) done)
      ∙ ap (λ front. front ++ done) (sym (furthest_first-append cs (methods ∷ [])))

  provider-none :
      (n c : ℕ) (cs : List ℕ)
      → get n (w.attributes c) ≡ none
      → provider fs members convert w n (c ∷ cs) ≡ provider fs members convert w n cs
  unfolding provider
  provider-none n c cs e =
      ap
        (λ o. elim o as (λ x. Option ℕ) [
          | none ↦ provider fs members convert w n cs
          | some role ↦ some c
        ])
        e

  provider-some :
      (n c : ℕ) (cs : List ℕ) {role : Option Role}
      → get n (w.attributes c) ≡ some role
      → provider fs members convert w n (c ∷ cs) ≡ some c
  unfolding provider
  provider-some n c cs e =
      ap
        (λ o. elim o as (λ x. Option ℕ) [
          | none ↦ provider fs members convert w n cs
          | some role ↦ some c
        ])
        e

  slot_kept-slot :
      (role : Option Role) (old : Option SlotRole) (s : SlotRole)
      → slot_kept role old ≡ some s
      → role ≡ some (slot s)
  slot_kept-slot none old s h = cc
  slot_kept-slot (some (process c p)) old s h = cc
  slot_kept-slot (some on_start) old s h = cc
  slot_kept-slot (some on_end) old s h = cc
  slot_kept-slot (some (slot t)) old s h = cc

  provider-nearest :
      (n : ℕ) (s : SlotRole) (cs : List ℕ)
      → nearest fs members convert w slot_kept n cs ≡ some s
      → (d : ℕ) × (provider fs members convert w n cs ≡ some d)
        × (get n (w.attributes d) ≡ some (some (slot s)))
  unfolding provider
  provider-nearest n s [] h = cc
  provider-nearest n s (c ∷ cs) h = elim (Option-cases (get n (w.attributes c))) [
    | inl e ↦
        let (d, found, as_slot) = provider-nearest n s cs (
          sym (ap (λ o. kept_if slot_kept n o (nearest fs members convert w slot_kept n cs)) e)
          ∙ h) in
        (d, provider-none n c cs e ∙ found, as_slot)
    | inr e ↦
        let is_slot = slot_kept-slot e.0 (nearest fs members convert w slot_kept n cs) s (
          sym (ap (λ o. kept_if slot_kept n o (nearest fs members convert w slot_kept n cs)) e.1)
          ∙ h) in
        (c, provider-some n c cs e.1, e.1 ∙ ap some is_slot)
  ]

  declaring-provider :
      (n : ℕ) (cs : List ℕ) (d : ℕ)
      → provider fs members convert w n cs ≡ some d
      → get n (w.attributes d) ≡ some (some (slot function))
      → declaring fs members convert w n cs ≡ some d
  unfolding provider declaring
  declaring-provider n [] d h e = cc
  declaring-provider n (c ∷ cs) d h e = elim (Option-cases (get n (w.attributes c))) [
    | inl f ↦
        ap (λ o. if is_function o then some c else declaring fs members convert w n cs) f
        ∙ declaring-provider n cs d (sym (provider-none n c cs f) ∙ h) e
    | inr f ↦
        let here : c ≡ d = cc in
        ap (λ o. if is_function o then some c else declaring fs members convert w n cs)
          (ap (λ j. get n (w.attributes j)) here ∙ e)
        ∙ ap some here
  ]

  -- The signature of a function among the slots.
  unfoldable IsSigned : ℕ → ℕ → List (ℕ × Signature fs.F) → Type 0
  IsSigned c n signatures =
      (s : Signature fs.F) × (get n signatures ≡ some s)
      × (signature_of fs members convert w n (provider fs members convert w n (c ∷ w.bases c))
          ≡ ok s)
      × (check_override fs members convert w n s (declaring fs members convert w n (w.bases c))
          ≡ ok tt)

  add_signature-function :
      (c k : ℕ) {here : List (ℕ × Signature fs.F)} (more : List (ℕ × Signature fs.F))
      → add_signature fs members convert w c k function ≡ ok here
      → IsSigned c k (here ++ more)
  unfolding add_signature get IsSigned
  add_signature-function c k more h =
      let (s, given, h1) =
        >>=-eq-ok
          (signature_of fs members convert w k (provider fs members convert w k (c ∷ w.bases c))) _
          h in
      let (test, same) =
        >>-eq-ok
          (check_override fs members convert w k s (declaring fs members convert w k (w.bases c))) _
          h1 in
      (s, ap (λ es. get k (es ++ more)) (sym (ok_injective same)) ∙ ground arith, given, test)

  add_signature-other :
      (c n k : ℕ) (role : SlotRole) {here : List (ℕ × Signature fs.F)}
      (more : List (ℕ × Signature fs.F))
      → add_signature fs members convert w c k role ≡ ok here
      → ¬ (k ≡ n)
      → get n (here ++ more) ≡ get n more
  unfolding add_signature get
  add_signature-other c n k event more h q = ap (λ es. get n (es ++ more)) (sym (ok_injective h))
  add_signature-other c n k predicate more h q =
      ap (λ es. get n (es ++ more)) (sym (ok_injective h))
  add_signature-other c n k function more h q =
      let (s, given, h1) =
        >>=-eq-ok
          (signature_of fs members convert w k (provider fs members convert w k (c ∷ w.bases c))) _
          h in
      let (test, same) =
        >>-eq-ok
          (check_override fs members convert w k s (declaring fs members convert w k (w.bases c))) _
          h1 in
      ap (λ es. get n (es ++ more)) (sym (ok_injective same)) ∙ ground (arith, q)

  signatures_of-IsSigned :
      (c n : ℕ) (es : List (ℕ × SlotRole)) {signatures : List (ℕ × Signature fs.F)}
      → signatures_of fs members convert w c es ≡ ok signatures
      → get n es ≡ some function
      → IsSigned c n signatures
  unfolding signatures_of get IsSigned
  signatures_of-IsSigned c n [] h e = cc
  signatures_of-IsSigned c n (entry ∷ es) h e =
      let (here, first, h1) =
        >>=-eq-ok (add_signature fs members convert w c entry.0 entry.1) _ h in
      let (more, others, same) = >>=-eq-ok (signatures_of fs members convert w c es) _ h1 in
      let inside : IsSigned c n (here ++ more) = elim (ℕ_discrete entry.0 n) [
        | yes q ↦
            let is_function_here : entry.1 ≡ function = ground (arith, e, q) in
            subst (λ k. IsSigned c k (here ++ more)) q
              (add_signature-function c entry.0 more
                (ap (add_signature fs members convert w c entry.0) (sym is_function_here) ∙ first))
        | no q ↦
            let (s, found, given, test) =
              signatures_of-IsSigned c n es others (ground (arith, e, q)) in
            (s, add_signature-other c n entry.0 entry.1 more first q ∙ found, given, test)
      ] in
      subst (IsSigned c n) (ok_injective same) inside

  -- The types of a function as a base declares them and as the class has them.
  abbrev pub IsKept : ℕ → Schema fs.F → Schema fs.F → Type 0
  IsKept n schema base =
      (s : Signature fs.F) × (t : Signature fs.F) × (get n schema.signatures ≡ some s)
      × (get n base.signatures ≡ some t)
      × ((same_types t.types s.types ≡ true) × (same_annotation t.returns s.returns ≡ true))

  override-IsKept :
      (n : ℕ) (s t : Signature fs.F) (d : ℕ)
      → check_override fs members convert w n s (some d) ≡ ok tt
      → signature_of fs members convert w n (some d) ≡ ok t
      → (same_types t.types s.types ≡ true) × (same_annotation t.returns s.returns ≡ true)
  unfolding check_override
  override-IsKept n s t d h e =
      let (u, given, test) = >>=-eq-ok (signature_of fs members convert w n (some d)) _ h in
      let same_signature : u ≡ t = ok_injective (sym given ∙ e) in
      subst
        (λ x. (same_types x.types s.types ≡ true) × (same_annotation x.returns s.returns ≡ true))
        same_signature (both_true _ _ (raise_if-ok _ model_definition_error test))
    where
      both_true : (a b : Bool) → not (a && b) ≡ false → (a ≡ true) × (b ≡ true)
      both_true true true h = (refl, refl)
      both_true true false h = cc
      both_true false b h = cc

  roles_of-added :
      (c : ℕ) {r : Roles}
      → roles_of fs members convert w c ≡ ok r
      → add_classes (furthest_first fs members convert w (c ∷ w.bases c) []) no_roles ≡ ok r
  unfolding roles_of
  roles_of-added c h =
      let (r, added, rest) =
        >>=-eq-ok (add_classes (furthest_first fs members convert w (c ∷ w.bases c) []) no_roles) _
          h in
      let (test, same) =
        >>-eq-ok
          (raise_if (any_of (λ k. w.is_field c k || w.is_reserved k) (names r.slotted))
            model_definition_error)
          _ rest in
      added ∙ same

  -- A class with one base reads the methods of the base first.
  roles_of-kept :
      (c b n : ℕ) (s : SlotRole) {r base : Roles}
      → w.bases c ≡ b ∷ w.bases b
      → roles_of fs members convert w c ≡ ok r
      → roles_of fs members convert w b ≡ ok base
      → get n base.slotted ≡ some s
      → get n r.slotted ≡ some s
  unfolding furthest_first
  roles_of-kept c b n s single h g e =
      let added = roles_of-added c h in
      let in_order =
        ap (λ cs. add_classes cs no_roles)
          (sym (
            ap (λ cs. furthest_first fs members convert w cs (w.attributes c ∷ [])) single
            ∙ furthest_first-append (b ∷ w.bases b) (w.attributes c ∷ []))) in
      let (before, first, last) =
        add_classes-last (furthest_first fs members convert w (b ∷ w.bases b) []) (w.attributes c)
          no_roles (in_order ∙ added) in
      let same_before = ok_injective (sym (roles_of-added b g) ∙ first) in
      add_methods-kept n s (w.attributes c) before last
        (ap (λ x. get n x.slotted) (sym same_before) ∙ e)

  -- The attributes of each class are a dictionary. If ClassSchema.of accepts a class and its only
  -- base, each function of the base is a function of the class, with the types that it has in the
  -- base.
  pub class_schema-IsKept :
      (fuel c b n : ℕ) {schema base : Schema fs.F}
      → ((k : ℕ) → count ℕ_discrete n (names (w.attributes k)) ≤ 1)
      → w.bases c ≡ b ∷ w.bases b
      → class_schema fs members convert w (suc fuel) c ≡ ok schema
      → class_schema fs members convert w (suc fuel) b ≡ ok base
      → get n base.roles.slotted ≡ some function
      → (get n schema.roles.slotted ≡ some function) × IsKept n schema base
  unfolding IsSigned
  class_schema-IsKept fuel c b n {schema = schema} {base = base} distinct single h g e =
      let (collected, signed, checked) = class_schema-IsReadOf fs members convert w fuel c h in
      let (collected_b, signed_b, checked_b) =
        class_schema-IsReadOf fs members convert w fuel b g in
      let kept = roles_of-kept c b n function single collected collected_b e in
      let (s, found, given, test) = signatures_of-IsSigned c n schema.roles.slotted signed kept in
      let (t, found_b, given_b, test_b) =
        signatures_of-IsSigned b n base.roles.slotted signed_b e in
      let (d, provided, as_slot) =
        provider-nearest n function (b ∷ w.bases b)
          (sym (roles_of-nearest fs members convert w b n distinct collected_b).0 ∙ e) in
      let declared = declaring-provider n (b ∷ w.bases b) d provided as_slot in
      (
        kept,
        (
          s,
          t,
          found,
          found_b,
          override-IsKept n s t d
              (ap (check_override fs members convert w n s)
                  (sym (ap (declaring fs members convert w n) single ∙ declared))
                ∙ test)
              (ap (signature_of fs members convert w n) (sym provided) ∙ given_b),
        ),
      )
