-- ===== src/Modeling/Defaults.antt =====
-- cimba/modeling: `ModelMeta.__call__`, which gives a new model its own copies of the entities that
-- its classes declare, before its initializer runs. A class is its namespace in order.
use cimba_python.Base.{◌≡◌, refl, ap, ◌∙◌, sym, Option, none, some, List, [], ◌∷◌, ite, arith}

module _ {K E : Type 0} (dec : Discrete K) where
  unfoldable pub find : K → List (K × E) → Option E
  find k [] = none
  find k ((j, e) ∷ rest) = ite (dec j k) (some e) (find k rest)

  unfoldable pub put : K → E → List (K × E) → List (K × E)
  put k e [] = (k, e) ∷ []
  put k e ((j, d) ∷ rest) = ite (dec j k) ((j, e) ∷ rest) ((j, d) ∷ put k e rest)

  unfoldable pub remove : K → List (K × E) → List (K × E)
  remove k [] = []
  remove k ((j, d) ∷ rest) = let less = remove k rest in ite (dec j k) less ((j, d) ∷ less)

  -- One attribute of a class: an entity, or another value, which hides an entity of its bases.
  unfoldable pub declare : K → Option E → List (K × E) → List (K × E)
  unfolding put remove
  declare k (some e) defaults = put k e defaults
  declare k none defaults = remove k defaults

  unfoldable pub declare_class : List (K × Option E) → List (K × E) → List (K × E)
  unfolding declare
  declare_class [] defaults = defaults
  declare_class ((k, v) ∷ rest) defaults = declare_class rest (declare k v defaults)

  -- `for klass in reversed(cls.__mro__)`: the classes, the most derived one last.
  unfoldable pub declare_classes : List (List (K × Option E)) → List (K × E) → List (K × E)
  unfolding declare_class
  declare_classes [] defaults = defaults
  declare_classes (c ∷ classes) defaults = declare_classes classes (declare_class c defaults)

  -- A copy is set where the model has no such attribute.
  unfoldable pub fill_one : Option E → K → E → List (K × E) → List (K × E)
  unfolding put
  fill_one none k e attributes = put k e attributes
  fill_one (some d) k e attributes = attributes

  unfoldable pub fill : (E → E) → List (K × E) → List (K × E) → List (K × E)
  unfolding find fill_one
  fill copy [] attributes = attributes
  fill copy ((k, e) ∷ rest) attributes =
      fill copy rest (fill_one (find k attributes) k (copy e) attributes)

  -- `ModelMeta.__call__`: the attributes of the new model, before `__init__`.
  unfoldable pub new_model : (E → E) → List (List (K × Option E)) → List (K × E) → List (K × E)
  unfolding declare_classes fill
  new_model copy classes attributes = fill copy (declare_classes classes []) attributes

  -- What the last class that declares the name declares, as attribute lookup finds it.
  abbrev pub override : Option (Option E) → Option (Option E) → Option (Option E)
  override (some v) before = some v
  override none before = before

  abbrev pub declared_in : K → List (K × Option E) → Option (Option E)
  declared_in k [] = none
  declared_in k ((j, v) ∷ rest) = override (declared_in k rest) (ite (dec j k) (some v) none)

  abbrev pub declared : K → List (List (K × Option E)) → Option (Option E)
  declared k [] = none
  declared k (c ∷ classes) = override (declared k classes) (declared_in k c)

  abbrev pub entity_or : Option (Option E) → Option E → Option E
  entity_or none before = before
  entity_or (some v) before = v

  pub find-put :
      (j k : K) (e : E) (d : List (K × E)) → find j (put k e d) ≡ ite (dec k j) (some e) (find j d)
  unfolding find put
  find-put j k e [] = refl
  find-put j k e ((i, x) ∷ d) = ground (arith, find-put j k e d)

  find-remove : (j k : K) (d : List (K × E)) → find j (remove k d) ≡ ite (dec k j) none (find j d)
  unfolding find remove
  find-remove j k [] = ground arith
  find-remove j k ((i, x) ∷ d) = ground (arith, find-remove j k d)

  find-declare :
      (j k : K) (v : Option E) (d : List (K × E))
      → find j (declare k v d) ≡ ite (dec k j) v (find j d)
  unfolding declare
  find-declare j k (some e) d = find-put j k e d
  find-declare j k none d = find-remove j k d

  find-declare_class :
      (j : K) (c : List (K × Option E)) (d : List (K × E))
      → find j (declare_class c d) ≡ entity_or (declared_in j c) (find j d)
  unfolding declare_class
  find-declare_class j [] d = refl
  find-declare_class j ((k, v) ∷ c) d =
      ground (arith, find-declare_class j c (declare k v d), find-declare j k v d)

  find-declare_classes :
      (j : K) (cs : List (List (K × Option E))) (d : List (K × E))
      → find j (declare_classes cs d) ≡ entity_or (declared j cs) (find j d)
  unfolding declare_classes
  find-declare_classes j [] d = refl
  find-declare_classes j (c ∷ cs) d =
      ground (arith, find-declare_classes j cs (declare_class c d), find-declare_class j c d)

  -- An attribute of the model's own, else a copy of the default.
  abbrev pub own_or_copy : (E → E) → Option E → Option E → Option E
  own_or_copy copy (some e) default = some e
  own_or_copy copy none none = none
  own_or_copy copy none (some e) = some (copy e)

  find-nil : (j : K) → find j [] ≡ none
  unfolding find
  find-nil j = refl

  own_or_copy-put :
      (copy : E → E) (j k : K) (e : E) (ds attributes : List (K × E))
      → find k attributes ≡ none
      → own_or_copy copy (find j (put k (copy e) attributes)) (find j ds)
        ≡ own_or_copy copy (find j attributes) (ite (dec k j) (some e) (find j ds))
  own_or_copy-put copy j k e ds attributes new =
      rw (find-put j k (copy e) attributes)
        (elim (dec k j)
          as (λ d.
            own_or_copy copy (ite d (some (copy e)) (find j attributes)) (find j ds)
            ≡ own_or_copy copy (find j attributes) (ite d (some e) (find j ds))) [
              | yes p ↦ rw (sym (ap (λ i. find i attributes) p) ∙ new) refl
              | no n ↦ refl
            ])

  own_or_copy-old :
      (copy : E → E) (j k : K) (e d : E) (ds attributes : List (K × E))
      → find k attributes ≡ some d
      → own_or_copy copy (find j attributes) (find j ds)
        ≡ own_or_copy copy (find j attributes) (ite (dec k j) (some e) (find j ds))
  own_or_copy-old copy j k e d ds attributes old =
      elim (dec k j)
        as (λ q.
          own_or_copy copy (find j attributes) (find j ds)
          ≡ own_or_copy copy (find j attributes) (ite q (some e) (find j ds))) [
            | yes p ↦ rw (sym (ap (λ i. find i attributes) p) ∙ old) refl
            | no n ↦ refl
          ]

  own_or_copy-fill_one :
      (copy : E → E) (j k : K) (e : E) (ds attributes : List (K × E)) (o : Option E)
      → find k attributes ≡ o
      → own_or_copy copy (find j (fill_one o k (copy e) attributes)) (find j ds)
        ≡ own_or_copy copy (find j attributes) (ite (dec k j) (some e) (find j ds))
  unfolding fill_one
  own_or_copy-fill_one copy j k e ds attributes none h = own_or_copy-put copy j k e ds attributes h
  own_or_copy-fill_one copy j k e ds attributes (some d) h =
      own_or_copy-old copy j k e d ds attributes h

  find-fill :
      (copy : E → E) (j : K) (ds attributes : List (K × E))
      → find j (fill copy ds attributes) ≡ own_or_copy copy (find j attributes) (find j ds)
  unfolding fill find
  find-fill copy j [] attributes = ground arith
  find-fill copy j ((k, e) ∷ ds) attributes =
      find-fill copy j ds (fill_one (find k attributes) k (copy e) attributes)
      ∙ own_or_copy-fill_one copy j k e ds attributes (find k attributes) refl

  -- A new model has under each name its own attribute, or else a copy of the entity that the last
  -- class to declare the name declares there; where that class declares no entity, or no class
  -- declares the name, it gets none.
  pub find-new_model :
      (copy : E → E) (j : K) (classes : List (List (K × Option E))) (attributes : List (K × E))
      → find j (new_model copy classes attributes)
        ≡ own_or_copy copy (find j attributes) (entity_or (declared j classes) none)
  unfolding new_model
  find-new_model copy j classes attributes =
      find-fill copy j (declare_classes classes []) attributes
      ∙ ap (own_or_copy copy (find j attributes))
          (find-declare_classes j classes [] ∙ ap (entity_or (declared j classes)) (find-nil j))
