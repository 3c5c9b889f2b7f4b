-- ===== src/Modeling/Assigned.antt =====
-- cimba/modeling: what `Model.__setattr__` accepts, and which models it attaches.
use cimba_python.Base.{
  ℕ, ◌≤◌, ◌≡◌, refl, ap, ◌∙◌, inl, inr, Bool, true, false, not, ◌&&◌, Option, none, some, List, [],
  ◌∷◌, Result, ok, raise, type_error, model_definition_error, raise_if, if◌then◌else◌, ◌==◌, ==_iff,
  arith, unique, ℕ_discrete, collect, count, count-unique-le, >>=-eq-ok, >>-eq-ok, ok_injective,
  if-ok, test-ok, All, All-append, Bool-cases, member, subst,
}
use cimba_python.Base.Int.{ℤ}
use cimba_python.Schema.Scalars.{Floats, Scalar, enum_member}
use cimba_python.Schema.Enums.{EnumClass, int_enum, other_enum, check_enum}
use cimba_python.Modeling.Assign.{
  Origin, Item, Assigned, scalar, object, objects, source, array_value, missing, one, swept,
  decided, member_of, enum_of, is_param, coerce, coerce_value, item_options, child_of, children_of,
  all_instances, join, is_missing, is_nothing, is_decided, check_source, check_value, set_attribute,
  item_scalar,
}

All-unique : (P : ℕ → Type 0) (seen xs : List ℕ) → All P xs → All P (unique ℕ_discrete seen xs)
unfolding unique
All-unique P seen [] h = tt
All-unique P seen (x ∷ xs) h = elim (Bool-cases (member ℕ_discrete x seen)) [
  | inl old ↦ rw old (All-unique P seen xs h.1)
  | inr new ↦ rw new (h.0, All-unique P (x ∷ seen) xs h.1)
]

collect-again :
    {A : Type 0} (f : A → Result A) (xs : List A) {ys : List A}
    → ((x y : A) → f x ≡ ok y → f y ≡ ok y)
    → collect f xs ≡ ok ys
    → collect f ys ≡ ok ys
unfolding collect
collect-again f [] again h = rw (← ok_injective h) refl
collect-again f (x ∷ xs) again h =
    let (y, e, h1) = >>=-eq-ok (f x) _ h in
    let (ys, e', h2) = >>=-eq-ok (collect f xs) _ h1 in
    rw (← ok_injective h2, again x y e, collect-again f xs again e') refl

module _ (fs : Floats) (members : ℕ → List ℤ) (is_instance : ℕ → ℕ → Bool) where
  open fs use {F}

  enum_member-again :
      (e : ℕ) (v m : Scalar F)
      → enum_member fs members e v ≡ ok m
      → enum_member fs members e m ≡ ok m
  unfolding enum_member
  enum_member-again e (Scalar.int n) m h =
      let (_, q) = test-ok _ (Scalar.member e n) model_definition_error h in
      rw (← q) (ground (arith, ==_iff e e))
  enum_member-again e (Scalar.member k n) m h =
      let (same, q) = test-ok (k == e) (Scalar.member k n) model_definition_error h in
      rw (← q) (rw same refl)
  enum_member-again e (Scalar.float x) m h = cc
  enum_member-again e (Scalar.bool b) m h = cc
  enum_member-again e Scalar.other m h = cc

  member_of-scalar :
      (k : EnumClass) (v w : Item F)
      → member_of fs members is_instance k v ≡ ok w
      → ((x : Scalar F) × (w ≡ scalar x)) × (member_of fs members is_instance k w ≡ ok w)
  unfolding member_of
  member_of-scalar other_enum v w h = cc
  member_of-scalar (int_enum e) v w h =
      let (m, q, h1) =
        >>=-eq-ok (enum_member fs members e (item_scalar fs members is_instance v)) _ h in
      rw (← ok_injective h1) ((m, refl), rw (enum_member-again e _ m q) refl)

  coerce-again :
      (p : Bool) (k : EnumClass) (v : Assigned F) {w : Assigned F}
      → coerce fs members is_instance p k v ≡ ok w
      → (coerce fs members is_instance p k w ≡ ok w)
        × (is_decided fs members is_instance w ≡ is_decided fs members is_instance v)
  unfolding coerce
  coerce-again p k (decided d) h = rw (← ok_injective h) (refl, refl)
  coerce-again p k (one v) h = elim (if-ok (is_missing fs members is_instance v) _ _ h) [
    | inl none_given ↦ rw (← ok_injective none_given.1) (rw none_given.0 refl, refl)
    | inr given ↦
        let (checked, h1) = >>-eq-ok (check_enum members k) _ given.1 in
        let (m, e, h2) = >>=-eq-ok (member_of fs members is_instance k v) _ h1 in
        let ((x, is_scalar), again) = member_of-scalar k v m e in
        let again' : member_of fs members is_instance k (scalar x) ≡ ok (scalar x) =
          subst (λ i. member_of fs members is_instance k i ≡ ok i) is_scalar again in
        rw (← ok_injective h2, is_scalar) (rw (checked, again') refl, refl)
  ]
  coerce-again true k (swept vs axis) h =
      let (checked, h1) = >>-eq-ok (check_enum members k) _ h in
      let (ms, e, h2) = >>=-eq-ok (collect (member_of fs members is_instance k) vs) _ h1 in
      rw (← ok_injective h2) (
        rw
            (
              checked,
              collect-again (member_of fs members is_instance k) vs
                  (λ x y q. (member_of-scalar k x y q).1) e,
            )
            refl,
        refl,
      )
  coerce-again false k (swept vs axis) h =
      let (checked, h1) = >>-eq-ok (check_enum members k) _ h in
      rw (← ok_injective h1) (rw checked refl, refl)

  coerce_value-again :
      (o : Origin) (v : Assigned F) {w : Assigned F}
      → coerce_value fs members is_instance o v ≡ ok w
      → (coerce_value fs members is_instance o w ≡ ok w)
        × (is_decided fs members is_instance w ≡ is_decided fs members is_instance v)
  unfolding coerce_value
  coerce_value-again o v h = by_enum (enum_of fs members is_instance o) v h
    where
      by_enum :
          (k : Option EnumClass) (v : Assigned F) {w : Assigned F}
          → elim k as (λ e. Result (Assigned F)) [
            | none ↦ ok v
            | some k ↦ coerce fs members is_instance (is_param fs members is_instance o) k v
          ]
            ≡ ok w
          → (elim k as (λ e. Result (Assigned F)) [
            | none ↦ ok w
            | some k ↦ coerce fs members is_instance (is_param fs members is_instance o) k w
          ]
              ≡ ok w)
            × (is_decided fs members is_instance w ≡ is_decided fs members is_instance v)
      by_enum none v h = rw (← ok_injective h) (refl, refl)
      by_enum (some k) v h = coerce-again (is_param fs members is_instance o) k v h

  -- The models are of the class.
  abbrev pub AreOf : ℕ → List ℕ → Type 0
  AreOf c = All (λ m. is_instance m c ≡ true)

  collect-AreOf :
      (c : ℕ) (vs : List (Item F)) {ms : List ℕ}
      → collect (child_of fs members is_instance c) vs ≡ ok ms
      → AreOf c ms
  unfolding collect child_of
  collect-AreOf c [] h = subst (AreOf c) (ok_injective h) tt
  collect-AreOf c (v ∷ vs) h =
      let (m, e, h1) = >>=-eq-ok (child_of fs members is_instance c v) _ h in
      let (ms, e', h2) = >>=-eq-ok (collect (child_of fs members is_instance c) vs) _ h1 in
      subst (AreOf c) (ok_injective h2) (one_of v e, collect-AreOf c vs e')
    where
      one_of :
          (v : Item F) {m : ℕ} → child_of fs members is_instance c v ≡ ok m → is_instance m c ≡ true
      one_of (object n) e =
          let (b, q) = test-ok (is_instance n c) n type_error e in
          subst (λ m. is_instance m c ≡ true) q b
      one_of (scalar x) e = cc
      one_of (objects ns) e = cc
      one_of source e = cc
      one_of array_value e = cc
      one_of missing e = cc

  all_instances-AreOf :
      (c : ℕ) (ms : List ℕ) → all_instances fs members is_instance c ms ≡ true → AreOf c ms
  unfolding all_instances
  all_instances-AreOf c [] h = tt
  all_instances-AreOf c (m ∷ ms) h = (ground arith, all_instances-AreOf c ms (ground arith))

  collect_lists-AreOf :
      (c : ℕ) (vs : List (Item F)) {lists : List (List ℕ)}
      → collect (children_of fs members is_instance c) vs ≡ ok lists
      → AreOf c (join fs members is_instance lists)
  unfolding collect children_of
  collect_lists-AreOf c [] h =
      subst (λ l. AreOf c (join fs members is_instance l)) (ok_injective h) tt
  collect_lists-AreOf c (v ∷ vs) h =
      let (ms, e, h1) = >>=-eq-ok (children_of fs members is_instance c v) _ h in
      let (rest, e', h2) = >>=-eq-ok (collect (children_of fs members is_instance c) vs) _ h1 in
      subst (λ l. AreOf c (join fs members is_instance l)) (ok_injective h2)
        (All-append (λ m. is_instance m c ≡ true) ms _ (one_of v e) (collect_lists-AreOf c vs e'))
    where
      one_of :
          (v : Item F) {ms : List ℕ} → children_of fs members is_instance c v ≡ ok ms → AreOf c ms
      one_of (objects ns) e =
          let (b, q) = test-ok (all_instances fs members is_instance c ns) ns type_error e in
          subst (AreOf c) q (all_instances-AreOf c ns b)
      one_of (object n) e = cc
      one_of (scalar x) e = cc
      one_of source e = cc
      one_of array_value e = cc
      one_of missing e = cc

  -- The models that an assignment attaches: of the declared class, in a list each once, and none
  -- where no models are declared.
  abbrev pub AreAttached : Origin → List ℕ → Type 0
  AreAttached (Origin.model c) ms = AreOf c ms
  AreAttached (Origin.list_of_models c) ms = AreOf c ms × ((m : ℕ) → count ℕ_discrete m ms ≤ 1)
  AreAttached _ ms = [] ≡ ms

  test_none : (b : Bool) {ms : List ℕ} → (if b then ok [] else raise type_error) ≡ ok ms → [] ≡ ms
  test_none b h = (test-ok b [] type_error h).1

  no_test : (b : Bool) {ms : List ℕ} → (if b then raise type_error else ok []) ≡ ok ms → [] ≡ ms
  no_test true h = cc
  no_test false h = ok_injective h

  check_source-none :
      (may_miss : Bool) (v : Assigned F) {ms : List ℕ}
      → check_source fs members is_instance may_miss v ≡ ok ms
      → [] ≡ ms
  unfolding check_source
  check_source-none b (one source) h = ok_injective h
  check_source-none b (one missing) h = test_none b h
  check_source-none b (one (scalar x)) h = cc
  check_source-none b (one (object m)) h = cc
  check_source-none b (one (objects ns)) h = cc
  check_source-none b (one array_value) h = cc
  check_source-none b (swept vs axis) h = test_none _ h
  check_source-none b (decided d) h = cc

  check_value-AreAttached :
      (o : Origin) (optional : Bool) (v : Assigned F) {ms : List ℕ}
      → check_value fs members is_instance o optional v ≡ ok ms
      → AreAttached o ms
  unfolding check_value
  check_value-AreAttached (Origin.param k) optional v h = ok_injective h
  check_value-AreAttached (Origin.model c) optional v h =
      elim (if-ok (optional && is_nothing fs members is_instance v) (ok [])
        (collect (child_of fs members is_instance c) (item_options fs members is_instance v)) h) [
          | inl nothing ↦ subst (AreOf c) (ok_injective nothing.1) tt
          | inr given ↦ collect-AreOf c _ given.1
        ]
  check_value-AreAttached (Origin.list_of_models c) optional v h =
      let (lists, e, h1) =
        >>=-eq-ok
          (collect (children_of fs members is_instance c) (item_options fs members is_instance v)) _
          h in
      let all = join fs members is_instance lists in
      subst (AreAttached (Origin.list_of_models c)) (ok_injective h1) (
        All-unique (λ m. is_instance m c ≡ true) [] all
            (collect_lists-AreOf c (item_options fs members is_instance v) e),
        λ m. count-unique-le ℕ_discrete m [] all,
      )
  check_value-AreAttached Origin.list_of_refs optional v h = no_test _ h
  check_value-AreAttached Origin.list_of_others optional v h = no_test _ h
  check_value-AreAttached (Origin.output k) optional v h = no_test _ h
  check_value-AreAttached (Origin.plain k) optional v h = no_test _ h
  check_value-AreAttached Origin.undeclared optional v h = no_test _ h
  check_value-AreAttached Origin.ref optional v h = ok_injective h
  check_value-AreAttached Origin.array optional v h = test_none _ h
  check_value-AreAttached Origin.input optional v h = check_source-none optional v h
  check_value-AreAttached Origin.series optional v h = check_source-none false v h

  -- If an assignment is accepted, assigning the value that it set is accepted too, sets that value
  -- again and attaches the same models. The attached models are of the declared class, each once
  -- for a list of models, and there are none where the attribute declares no models.
  pub set_attribute-stable :
      (o : Origin) (optional : Bool) (v : Assigned F) {w : Assigned F} {ms : List ℕ}
      → set_attribute fs members is_instance o optional v ≡ ok (w, ms)
      → (set_attribute fs members is_instance o optional w ≡ ok (w, ms)) × AreAttached o ms
  unfolding set_attribute
  set_attribute-stable o optional v h =
      let undecided =
        is_decided fs members is_instance v && not (is_param fs members is_instance o) in
      let (allowed, h1) = >>-eq-ok (raise_if undecided type_error) _ h in
      let (u, e, h2) = >>=-eq-ok (coerce_value fs members is_instance o v) _ h1 in
      let (ns, e', h3) = >>=-eq-ok (check_value fs members is_instance o optional u) _ h2 in
      let (again, same) = coerce_value-again o v e in
      let allowed' =
        ap (λ b. raise_if (b && not (is_param fs members is_instance o)) type_error) same
        ∙ allowed in
      subst (λ p. (set_attribute fs members is_instance o optional p.0 ≡ ok p) × AreAttached o p.1)
        (ok_injective h3)
        (rw (set_attribute, allowed', again, e') refl, check_value-AreAttached o optional u e')
