-- ===== src/Schema/Assembly/Reached.antt =====
-- The models that `visit` enters are reached from the root, and its depth is bounded by the
-- number of models there are.
use cimba_python.Base.Ends.{ends, >>=-ends, raise_if-ends, collect-ends, if-ends}
use cimba_python.Base.{
  ℕ, zero, suc, ◌+◌, ◌≤◌, ◌<◌, ◌≡◌, refl, Bool, true, false, not, ◌&&◌, ◌||◌, List, [], ◌∷◌, ◌++◌,
  Result, ok, raise, model_definition_error, All, member, ℕ_discrete, dec_lt, arith, length,
  length-append, collect, Bool-cases, length-le_of_count, count, count-append, subst, sym, ap, ◌∙◌,
  inl, inr,
}
use cimba_python.Schema.Assembly.{
  World, Slot, Object, Choice, Held, children, visit_each, visit, read_slots, read_slot,
  read_source, child_of, owned_item, owned_items, need, is_missing, is_bare, is_decision, is_param,
  choices, picked,
}
use cimba_python.Schema.Assembly.Walk.{
  IsBelow, itself, through, Entered, visit-Entered, member-false, IsRead, offspring,
}

module _ (w : World) (strict : Bool) where
  need-ends : (b : Bool) → ends (need w strict b) ≡ true
  unfolding need
  need-ends true = refl
  need-ends false = refl

  child_of-ends : (c : ℕ) (choice : Choice) → ends (child_of w strict c choice) ≡ true
  unfolding child_of
  child_of-ends c (Choice.object (Object.model m)) =
      if-ends (w.is_instance m c) (ok m) (raise model_definition_error) refl refl
  child_of-ends c _ = refl

  owned_item-ends : (c : ℕ) (o : Object) → ends (owned_item w strict c o) ≡ true
  unfolding owned_item
  owned_item-ends c (Object.model m) =
      if-ends (w.is_instance m c) (ok m) (raise model_definition_error) refl refl
  owned_item-ends c _ = refl

  owned_items-ends : (c : ℕ) (choice : Choice) → ends (owned_items w strict c choice) ≡ true
  unfolding owned_items
  owned_items-ends c (Choice.list items) =
      collect-ends (owned_item w strict c) (owned_item-ends c) items
  owned_items-ends c _ = refl

  read_source-ends :
      (optional has_step : Bool) (h : Held) → ends (read_source w strict optional has_step h) ≡ true
  unfolding read_source
  read_source-ends optional has_step h =
      if-ends (not strict && (is_missing h || is_bare h)) (ok []) _ refl (need-ends _)

  read_slot-ends : (slot : Slot) (h : Held) → ends (read_slot w strict slot h) ≡ true
  unfolding read_slot
  read_slot-ends (Slot.entity t) h = need-ends _
  read_slot-ends (Slot.input optional) h = read_source-ends optional true h
  read_slot-ends (Slot.series has_step) h = read_source-ends false has_step h
  read_slot-ends Slot.param h = need-ends _
  read_slot-ends Slot.field h = need-ends _
  read_slot-ends Slot.array h = if-ends (is_missing h) _ _ (need-ends _) (need-ends _)
  read_slot-ends (Slot.child c optional) h =
      if-ends (is_missing h && optional) (ok []) _ refl
        (collect-ends (child_of w strict c) (child_of-ends c) (choices h))
  read_slot-ends (Slot.models c) h =
      >>=-ends (collect (owned_items w strict c) (choices h)) _
        (collect-ends (owned_items w strict c) (owned_items-ends c) (choices h)) (λ lists eq. refl)
  read_slot-ends (Slot.refs t) h = need-ends _
  read_slot-ends Slot.output h = refl
  read_slot-ends (Slot.ref t optional) h = refl

  read_slots-ends : (m n : ℕ) (slots : List Slot) → ends (read_slots w strict m n slots) ≡ true
  unfolding read_slots
  read_slots-ends m n [] = refl
  read_slots-ends m n (slot ∷ others) =
      raise_if-ends (is_decision (w.held m n) && not (is_param slot)) model_definition_error _ refl
        (>>=-ends (read_slot w strict slot (picked w strict m n slot (w.held m n))) _
          (read_slot-ends slot (picked w strict m n slot (w.held m n)))
          (λ here eq.
            >>=-ends (read_slots w strict m (suc n) others) _ (read_slots-ends m (suc n) others)
              (λ more eq2. refl)))

  children-ends : (m : ℕ) → ends (children w strict m) ≡ true
  unfolding children
  children-ends m = read_slots-ends m 0 (w.slots m)

  -- Every model that the tree may hold, a list that the children do not leave.
  abbrev pub IsClosed : List ℕ → Type 0
  IsClosed models =
      (m k : ℕ) (cs : List ℕ)
      → 0 < count ℕ_discrete m models
      → children w strict m ≡ ok cs
      → 0 < count ℕ_discrete k cs
      → 0 < count ℕ_discrete k models

  below-closed :
      (models : List ℕ) (root k : ℕ)
      → IsClosed models
      → 0 < count ℕ_discrete root models
      → IsBelow w strict root k
      → 0 < count ℕ_discrete k models
  below-closed models root k closed h (itself m) = h
  below-closed models root k closed h (through c cs read found deeper) =
      below-closed models c k closed (closed root c cs h read found) deeper

  -- The models visited are distinct models of the list.
  abbrev AreAmong : List ℕ → List ℕ → Type 0
  AreAmong models visited =
      (k : ℕ)
      → (count ℕ_discrete k visited ≤ 1)
        × (0 < count ℕ_discrete k visited → 0 < count ℕ_discrete k models)

  among-length :
      (models visited : List ℕ) → AreAmong models visited → length visited ≤ length models
  among-length models visited h =
      length-le_of_count ℕ_discrete visited models (λ k. ground (arith, h k))

  Entered-among :
      (models visited result : List ℕ) (m : ℕ)
      → IsClosed models
      → 0 < count ℕ_discrete m models
      → AreAmong models visited
      → Entered w strict (m ∷ []) visited result
      → AreAmong models result × (length visited ≤ length result)
  Entered-among models visited result m closed found among e =
      (λ k. (e.distinct (λ j. (among j).0) k, λ h. in_models k h (among k).1), longer)
    where
      longer : length visited ≤ length result
      longer = rw e.appended omega (arith, length-append visited e.entered)

      from_root : (k : ℕ) → 0 < count ℕ_discrete k e.entered → 0 < count ℕ_discrete k models
      from_root k h =
          let u = e.are_below k h in
          below-closed models u.0 k closed
            (subst (λ j. 0 < count ℕ_discrete j models) (root_eq u.0 u.1) found) u.2
        where
          root_eq : (j : ℕ) → 0 < count ℕ_discrete j (m ∷ []) → m ≡ j
          root_eq j h = ground arith

      in_models :
          (k : ℕ)
          → 0 < count ℕ_discrete k result
          → (0 < count ℕ_discrete k visited → 0 < count ℕ_discrete k models)
          → 0 < count ℕ_discrete k models
      in_models k h old = elim (dec_lt 0 (count ℕ_discrete k visited)) [
        | yes p ↦ old p
        | no p ↦ from_root k (omega (arith, counted_result k, h, p))
      ]
        where
          counted_result :
              (k : ℕ)
              → count ℕ_discrete k result
                ≡ count ℕ_discrete k visited + count ℕ_discrete k e.entered
          counted_result k =
              ap (count ℕ_discrete k) e.appended ∙ count-append ℕ_discrete k visited e.entered

  each-ends :
      (go : ℕ → List ℕ → Result (List ℕ)) (models : List ℕ)
      → IsClosed models
      → ((c : ℕ) (visited result : List ℕ)
          → go c visited ≡ ok result
          → Entered w strict (c ∷ []) visited result)
      → (least : ℕ)
      → ((c : ℕ) (visited : List ℕ)
          → 0 < count ℕ_discrete c models
          → AreAmong models visited
          → least ≤ length visited
          → ends (go c visited) ≡ true)
      → (cs visited : List ℕ)
      → ((k : ℕ) → 0 < count ℕ_discrete k cs → 0 < count ℕ_discrete k models)
      → AreAmong models visited
      → least ≤ length visited
      → ends (visit_each w strict go cs visited) ≡ true
  unfolding visit_each
  each-ends go models closed entered least each [] visited inside among low = refl
  each-ends go models closed entered least each (c ∷ cs) visited inside among low =
      let found : 0 < count ℕ_discrete c models = inside c (ground arith) in
      >>=-ends (go c visited) (visit_each w strict go cs) (each c visited found among low)
        (λ middle first.
          let kept =
            Entered-among models visited middle c closed found among
              (entered c visited middle first) in
          each-ends go models closed entered least each cs middle
            (λ k h. inside k (omega (arith, h))) kept.0 (omega (arith, low, kept.1)))

  -- `visit` ends where the fuel and the models visited make more than the models there are.
  visit-ends :
      (fuel m : ℕ) (models visited : List ℕ)
      → IsClosed models
      → 0 < count ℕ_discrete m models
      → AreAmong models visited
      → length models < fuel + length visited
      → ends (visit w strict fuel m visited) ≡ true
  unfolding visit
  visit-ends zero m models visited closed found among enough =
      absurd (omega (arith, among-length models visited among, enough))
  visit-ends (suc fuel) m models visited closed found among enough =
      elim (Bool-cases (member ℕ_discrete m visited)) [
        | inl e ↦ rw e refl
        | inr e ↦ rw e (
            >>=-ends (children w strict m) _ (children-ends m) (λ cs read.
              each-ends (visit w strict fuel) models closed (visit-Entered w strict fuel)
                (suc (length visited))
                (λ c now inside among low.
                  visit-ends fuel c models now closed inside among (omega (arith, enough, low)))
                cs (visited ++ m ∷ []) (λ k h. closed m k cs found read h) (with_model e)
                (omega (arith, length-append visited (m ∷ [])))))
      ]
    where
      with_model : member ℕ_discrete m visited ≡ false → AreAmong models (visited ++ m ∷ [])
      with_model new k =
          let split = count-append ℕ_discrete k visited (m ∷ []) in
          elim (ℕ_discrete m k) [
            | yes p ↦
                let none_yet : count ℕ_discrete k visited ≡ 0 =
                  subst (λ j. count ℕ_discrete j visited ≡ 0) p (member-false m visited new) in
                (
                  ground (arith, split, none_yet),
                  λ h. subst (λ j. 0 < count ℕ_discrete j models) p found,
                )
            | no p ↦ (
              ground (arith, split, p, (among k).0),
              λ h. (among k).1 (ground (arith, split, p, h)),
            )
          ]

module _ (w : World) (strict : Bool) where
  -- Models that are a tree: each can be read and stands once, and the root and the children of
  -- the models, place by place, are the models; all are below the root.
  abbrev pub IsTree : ℕ → List ℕ → Type 0
  IsTree root models =
      All (IsRead w strict) models
      × ((k : ℕ)
          → (count ℕ_discrete k models ≤ 1)
            × (count ℕ_discrete k models
                ≡ count ℕ_discrete k (root ∷ []) + count ℕ_discrete k (offspring w strict models))
            × (0 < count ℕ_discrete k models → IsBelow w strict root k))

  pub Entered-IsTree :
      (root : ℕ) (result : List ℕ) → Entered w strict (root ∷ []) [] result → IsTree root result
  Entered-IsTree root result e = subst (IsTree root) (sym e.appended) (
    e.are_read,
    λ k. (
      subst (λ r. count ℕ_discrete k r ≤ 1) e.appended (e.distinct (λ j. omega arith) k),
      e.counted k,
      λ h. in_root k (e.are_below k h),
    ),
  )
    where
      in_root :
          (k : ℕ)
          → (r : ℕ) × (0 < count ℕ_discrete r (root ∷ [])) × IsBelow w strict r k
          → IsBelow w strict root k
      in_root k u = subst (λ r. IsBelow w strict r k) (root_eq u.0 u.1) u.2
        where
          root_eq : (j : ℕ) → 0 < count ℕ_discrete j (root ∷ []) → j ≡ root
          root_eq j h = ground arith

  -- Where a finite list has the root and the children of its models, visiting the root with more
  -- fuel than the list is long ends, in an exception or in models. These are a tree: each of them
  -- stands once, is in the tree below the root, and is the root or the child of exactly one place.
  pub visit-IsTree :
      (models : List ℕ) (root : ℕ)
      → IsClosed w strict models
      → 0 < count ℕ_discrete root models
      → (ends (visit w strict (suc (length models)) root []) ≡ true)
        × ((result : List ℕ)
            → visit w strict (suc (length models)) root [] ≡ ok result
            → IsTree root result)
  visit-IsTree models root closed found = (
    visit-ends w strict (suc (length models)) root models [] closed found
        (λ k. (omega arith, λ h. absurd (omega arith))) (omega arith),
    λ result h.
        Entered-IsTree root result (visit-Entered w strict (suc (length models)) root [] result h),
  )
