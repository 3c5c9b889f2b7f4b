-- ===== src/Schema/Fields/Nearest.antt =====
-- The field of a name is read from the last annotation of the name.
use cimba_python.Base.{
  ℕ, ◌≡◌, refl, sym, ap, ◌∙◌, subst, Option, none, some, List, [], ◌∷◌, ◌++◌, ◌⊎◌, inl, inr, Bool,
  true, false, All, if◌then◌else◌, Result, ok, >>=-eq-ok, ok_injective, ite, ℕ_discrete,
}
use cimba_python.Base.Int.{ℤ}
use cimba_python.Modeling.Defaults.{find, put, find-put}
use cimba_python.Schema.Scalars.{Floats, Scalar}
use cimba_python.Schema.Signatures.{Annotation}
use cimba_python.Schema.Fields.Read.{IsRead, read_field-IsRead}
use cimba_python.Schema.Fields.{
  Declaration, Default, Field, read_field, read_annotations, read_fields, read_classes, hints_of,
  reversed, resolved,
}

-- The last annotation of a name in a namespace, else the one before it.
abbrev pub last_in : ℕ → List (ℕ × Declaration) → Option Declaration → Option Declaration
last_in n [] before = before
last_in n (entry ∷ rest) before = last_in n rest (ite (ℕ_discrete entry.0 n) (some entry.1) before)

module _ (fs : Floats) (members : ℕ → List ℤ)
    (convert : Annotation → Scalar fs.F → Result (Scalar fs.F)) (defaults : ℕ → Default fs.F) where
  -- A name has no field and no annotation, or a field that its annotation gives, with the default of
  -- the name.
  abbrev pub IsField : ℕ → Option Declaration → Option (Field fs.F) → Type 0
  IsField n none none = Unit
  IsField n (some d) (some f) = IsRead fs members convert d (defaults n) f
  IsField n _ _ = ⊥

  read_annotations-IsField :
      (n : ℕ) (entries : List (ℕ × Declaration)) (before : Option Declaration)
      (fields : List (ℕ × Field fs.F)) {result : List (ℕ × Field fs.F)}
      → IsField n before (find ℕ_discrete n fields)
      → read_annotations fs members convert defaults entries fields ≡ ok result
      → IsField n (last_in n entries before) (find ℕ_discrete n result)
  unfolding read_annotations
  read_annotations-IsField n [] before fields now h =
      subst (λ r. IsField n before (find ℕ_discrete n r)) (ok_injective h) now
  read_annotations-IsField n (entry ∷ rest) before fields now h =
      let (f, given, after) =
        >>=-eq-ok (read_field fs members convert entry.1 (defaults entry.0)) _ h in
      read_annotations-IsField n rest (ite (ℕ_discrete entry.0 n) (some entry.1) before)
        (put ℕ_discrete entry.0 f fields)
        (subst (IsField n (ite (ℕ_discrete entry.0 n) (some entry.1) before))
          (sym (find-put ℕ_discrete n entry.0 f fields)) (added f given (ℕ_discrete entry.0 n)))
        after
    where
      added :
          (f : Field fs.F)
          → read_field fs members convert entry.1 (defaults entry.0) ≡ ok f
          → (d : Dec (entry.0 ≡ n))
          → IsField n (ite d (some entry.1) before) (ite d (some f) (find ℕ_discrete n fields))
      added f given (yes q) =
          read_field-IsRead fs members convert entry.1 (defaults n)
            (ap (λ k. read_field fs members convert entry.1 (defaults k)) (sym q) ∙ given)
      added f given (no q) = now

  module _ (is_model : ℕ → Bool) (hints : ℕ → Option (List (ℕ × Declaration))) where
    -- The annotation that a model class has for a name, else the one before it.
    abbrev own_or : ℕ → ℕ → Option Declaration → Option Declaration
    own_or n base before =
        if is_model base
        then elim (hints base) [ none ↦ before | some annotations ↦ last_in n annotations before ]
        else before

    -- The annotation of a name in the first model class that has one, from the nearest class on.
    abbrev pub nearest_in : ℕ → List ℕ → Option Declaration
    nearest_in n [] = none
    nearest_in n (base ∷ rest) = own_or n base (nearest_in n rest)

    last_of : ℕ → List ℕ → Option Declaration → Option Declaration
    last_of n [] before = before
    last_of n (base ∷ rest) before = last_of n rest (own_or n base before)

    last_of-snoc :
        (n : ℕ) (front : List ℕ) (base : ℕ) (before : Option Declaration)
        → last_of n (front ++ base ∷ []) before ≡ own_or n base (last_of n front before)
    unfolding last_of
    last_of-snoc n [] base before = refl
    last_of-snoc n (c ∷ front) base before = last_of-snoc n front base (own_or n c before)

    last_of-reversed : (n : ℕ) (mro : List ℕ) → last_of n (reversed mro) none ≡ nearest_in n mro
    unfolding last_of reversed
    last_of-reversed n [] = refl
    last_of-reversed n (base ∷ rest) =
        last_of-snoc n (reversed rest) base none ∙ ap (own_or n base) (last_of-reversed n rest)

    -- The annotations of a model class can be resolved.
    abbrev pub IsResolved : ℕ → Type 0
    IsResolved base =
        (is_model base ≡ false)
        ⊎ ((annotations : List (ℕ × Declaration)) × (hints base ≡ some annotations))

    read_base-IsField :
        (n base : ℕ) (before : Option Declaration) (fields : List (ℕ × Field fs.F))
        {annotations : List (ℕ × Declaration)} {more : List (ℕ × Field fs.F)}
        → hints_of fs members convert defaults is_model hints base ≡ ok annotations
        → IsField n before (find ℕ_discrete n fields)
        → read_annotations fs members convert defaults annotations fields ≡ ok more
        → IsResolved base × IsField n (own_or n base before) (find ℕ_discrete n more)
    unfolding hints_of
    read_base-IsField n base before fields {annotations} {more} h now given =
        by_case (is_model base) refl (hints base) refl h
      where
        at :
            (own : List (ℕ × Declaration))
            → own ≡ annotations
            → read_annotations fs members convert defaults own fields ≡ ok more
        at own e =
            subst (λ a. read_annotations fs members convert defaults a fields ≡ ok more) (sym e)
              given

        by_case :
            (b : Bool)
            → is_model base ≡ b
            → (o : Option (List (ℕ × Declaration))) → hints base ≡ o
            → (if b then resolved o else ok []) ≡ ok annotations
            → IsResolved base
              × IsField n
                  (if b then elim o [ none ↦ before | some own ↦ last_in n own before ] else before)
                  (find ℕ_discrete n more)
        by_case true m none e k = cc
        by_case true m (some own) e k = (
          inr (own, e),
          read_annotations-IsField n own before fields now (at own (ok_injective k)),
        )
        by_case false m o e k =
            (inl m, read_annotations-IsField n [] before fields now (at [] (ok_injective k)))

    read_classes-IsField :
        (n : ℕ) (classes : List ℕ) (before : Option Declaration) (fields : List (ℕ × Field fs.F))
        {result : List (ℕ × Field fs.F)}
        → IsField n before (find ℕ_discrete n fields)
        → read_classes fs members convert defaults is_model hints classes fields ≡ ok result
        → All IsResolved classes × IsField n (last_of n classes before) (find ℕ_discrete n result)
    unfolding read_classes last_of
    read_classes-IsField n [] before fields now h =
        (tt, subst (λ r. IsField n before (find ℕ_discrete n r)) (ok_injective h) now)
    read_classes-IsField n (base ∷ rest) before fields now h =
        let (annotations, found, h1) =
          >>=-eq-ok (hints_of fs members convert defaults is_model hints base) _ h in
        let (more, given, after) =
          >>=-eq-ok (read_annotations fs members convert defaults annotations fields) _ h1 in
        let (here, next) = read_base-IsField n base before fields found now given in
        let (others, last) = read_classes-IsField n rest (own_or n base before) more next after in
        ((here, others), last)

    reversed-All : (mro : List ℕ) → All IsResolved (reversed mro) → All IsResolved mro
    unfolding reversed
    reversed-All [] h = tt
    reversed-All (base ∷ rest) h =
        let (front, last) = All-split (reversed rest) (base ∷ []) h in
        (last.0, reversed-All rest front)
      where
        All-split :
            (xs ys : List ℕ) → All IsResolved (xs ++ ys) → All IsResolved xs × All IsResolved ys
        All-split [] ys k = (tt, k)
        All-split (x ∷ xs) ys k = let (a, b) = All-split xs ys k.1 in ((k.0, a), b)

    -- If the classes of the resolution order are accepted, the annotations of each model class among
    -- them can be resolved, and a name has a field exactly where one of them annotates it. That field
    -- is what the annotation of the nearest such class gives: its kind is the one of the annotation's
    -- origin, its type the argument of the annotation or, of an entity and without an argument, the
    -- whole of it; the default of a scalar is the given one, of an enum class that native records can
    -- hold the member, or members, of that class that are given; the elements of an array are scalars,
    -- and its given initial values convert to them.
    pub read_fields-IsNearest :
        (n : ℕ) (mro : List ℕ) {fields : List (ℕ × Field fs.F)}
        → read_fields fs members convert defaults is_model hints mro ≡ ok fields
        → All IsResolved mro × IsField n (nearest_in n mro) (find ℕ_discrete n fields)
    unfolding find read_fields
    read_fields-IsNearest n mro {fields} h =
        let (all, found) = read_classes-IsField n (reversed mro) none [] tt h in
        (
          reversed-All mro all,
          subst (λ d. IsField n d (find ℕ_discrete n fields)) (last_of-reversed n mro) found,
        )
