-- ===== src/Modeling/Observe.antt =====
-- cimba/modeling: `Condition.observe`, which keeps each entity once.
use cimba_python.Base.{
  ◌<◌, ◌≡◌, refl, ap, ◌∙◌, sym, ◌⊎◌, inl, inr, Bool, List, [], ◌∷◌, ◌++◌, Result, ok, raise,
  type_error, if◌then◌else◌, arith, length, member, unique, Bool-cases, append_assoc, append-nil,
}

module _ {E : Type 0} (dec : Discrete E) (observable : E → Bool) where
  -- `observe(*entities)`: the result, and what the condition observes after it. An entity that
  -- cannot be observed stops the loop; those before it stay.
  unfoldable pub observe : List E → List E → Result (Unit {0}) × List E
  observe [] observed = (ok tt, observed)
  observe (x ∷ rest) observed =
      if observable x
      then observe rest (if member dec x observed then observed else observed ++ x ∷ [])
      else (raise type_error, observed)

  -- The entities up to the first that cannot be observed.
  unfoldable pub accepted : List E → List E
  accepted [] = []
  accepted (x ∷ rest) = let more = accepted rest in if observable x then x ∷ more else []

  Alike : List E → List E → Type 0
  Alike seen observed = (c : E) → member dec c seen ≡ member dec c observed

  member-append_one :
      (c x : E) (observed : List E)
      → member dec c (observed ++ x ∷ []) ≡ member dec c (x ∷ observed)
  unfolding member
  member-append_one c x [] = refl
  member-append_one c x (y ∷ observed) = ground (arith, member-append_one c x observed)

  Alike-cons :
      (x : E) (seen observed : List E) → Alike seen observed → Alike (x ∷ seen) (observed ++ x ∷ [])
  unfolding Alike member
  Alike-cons x seen observed h c = ground (arith, member-append_one c x observed, h c)

  Alike-at :
      (seen observed : List E)
      → Alike seen observed
      → (x : E) → member dec x seen ≡ member dec x observed
  unfolding Alike
  Alike-at seen observed h x = h x

  observe-unique_from :
      (xs seen observed : List E)
      → Alike seen observed
      → (observe xs observed).1 ≡ observed ++ unique dec seen (accepted xs)
  unfolding observe accepted unique
  observe-unique_from [] seen observed h = sym (append-nil observed)
  observe-unique_from (x ∷ xs) seen observed h = elim (Bool-cases (observable x)) [
    | inr no_entity ↦ rw no_entity (sym (append-nil observed))
    | inl fine ↦ rw fine (elim (Bool-cases (member dec x observed)) [
      | inl old ↦ rw (old, known x seen observed h ∙ old) (observe-unique_from xs seen observed h)
      | inr new ↦
          rw (new, known x seen observed h ∙ new)
            (observe-unique_from xs (x ∷ seen) (observed ++ x ∷ []) (Alike-cons x seen observed h)
              ∙ append_assoc observed (x ∷ []) (unique dec (x ∷ seen) (accepted xs)))
    ])
  ]
    where
      known :
          (x : E) (seen observed : List E)
          → Alike seen observed
          → member dec x seen ≡ member dec x observed
      known x seen observed h = Alike-at seen observed h x

  observe-result :
      (xs observed : List E)
      → (((observe xs observed).0 ≡ ok tt) × (accepted xs ≡ xs))
        ⊎ (((observe xs observed).0 ≡ raise type_error) × (length (accepted xs) < length xs))
  unfolding observe accepted
  observe-result [] observed = inl (refl, refl)
  observe-result (x ∷ xs) observed = elim (Bool-cases (observable x)) [
    | inr no_entity ↦ inr (rw no_entity refl, rw no_entity (omega arith))
    | inl fine ↦
        rw fine
          (elim (observe-result xs
            (if member dec x observed then observed else observed ++ x ∷ [])) [
              | inl p ↦ inl (p.0, ap (λ l. x ∷ l) p.1)
              | inr p ↦ inr (p.0, omega (arith, p.1))
            ])
  ]

  -- `observe` adds to what the condition observes the entities given, up to the first that cannot be
  -- observed, each once and in their order; it raises TypeError if there is such an entity, and
  -- returns otherwise.
  pub observe-unique :
      (xs observed : List E)
      → ((observe xs observed).1 ≡ observed ++ unique dec observed (accepted xs))
        × ((((observe xs observed).0 ≡ ok tt) × (accepted xs ≡ xs))
            ⊎ (((observe xs observed).0 ≡ raise type_error) × (length (accepted xs) < length xs)))
  unfolding Alike
  observe-unique xs observed =
      (observe-unique_from xs observed observed (λ c. refl), observe-result xs observed)
