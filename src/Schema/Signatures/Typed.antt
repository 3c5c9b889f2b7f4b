-- ===== src/Schema/Signatures/Typed.antt =====
-- A signature that `_function_signature` accepts: native types, and defaults for the last parameters.
use cimba_python.Base.{
  ℕ, zero, suc, ◌+◌, ◌≤◌, ◌<◌, ◌≡◌, ◌↔◌, refl, sym, ap, ◌∙◌, subst, Bool, true, false, not, ◌||◌,
  Option, none, some, List, [], ◌∷◌, ◌++◌, append-nil, append_assoc, Result, ok, raise_if,
  model_definition_error, >>=-eq-ok, >>-eq-ok, raise_if-ok, ok_injective, ◌⊎◌, inl, inr, arith,
  get_elem?, length, length-append,
}
use cimba_python.Base.Int.{ℤ}
use cimba_python.Schema.Scalars.{Floats, Scalar}
use cimba_python.Schema.Signatures.{
  Annotation, Parameter, Method, Signature, annotated, is_passed, is_nothing, is_empty,
  check_annotation, default_of, add_default, read_parameters, function_signature,
}

abbrev pub has_default {ℓ} : {A : Type ℓ} → Option A → Bool
has_default none = false
has_default (some v) = true

not-false : (b : Bool) → not b ≡ false → b ≡ true
not-false true h = refl
not-false false h = cc

module _ (fs : Floats) (members : ℕ → List ℤ)
    (convert : Annotation → Scalar fs.F → Result (Scalar fs.F)) where
  open fs use {F}

  -- A parameter at a place of the signature: its name, a type that native calls pass, and a default
  -- exactly where the place is among the last `added` ones.
  abbrev pub IsTyped : List (Parameter F) → List (ℕ × Annotation) → ℕ → Type 0
  IsTyped ps typed added =
      (i : ℕ) (p : Parameter F)
      → get_elem? ps i ≡ some p
      → (a : Annotation) × (get_elem? typed i ≡ some (p.name, a))
        × (p.annotation ≡ some a)
        × (is_passed a ≡ true)
        × ((has_default p.initial ≡ true) ↔ (length ps ≤ i + added))

  pub record Reads (ps : List (Parameter F)) (typed : List (ℕ × Annotation))
      (defaults : List (Scalar F)) (result : List (ℕ × Annotation) × List (Scalar F)) : Type 0 where
    pub types : List (ℕ × Annotation)
    pub added : ℕ
    pub appended : result.0 ≡ typed ++ types
    pub count_types : length types ≡ length ps
    pub counted : length result.1 ≡ length defaults + added
    pub at_most : added ≤ length ps
    pub all_left : 0 < length defaults → added ≡ length ps
    pub are_typed : IsTyped ps types added

  annotated-ok : (o : Option Annotation) {a : Annotation} → annotated o ≡ ok a → o ≡ some a
  annotated-ok none h = cc
  annotated-ok (some b) h = cc

  -- The defaults after one parameter.
  add_default-ok :
      (a : Annotation) (o : Option (Scalar F)) (defaults : List (Scalar F)) {more : List (Scalar F)}
      → add_default fs members convert a o defaults ≡ ok more
      → ((has_default o ≡ false) × (length defaults ≡ 0) × (length more ≡ 0))
        ⊎ ((has_default o ≡ true) × (length more ≡ length defaults + 1))
  unfolding add_default
  add_default-ok a none defaults h =
      let (test, same) = >>-eq-ok (raise_if (not (is_empty defaults)) model_definition_error) _ h in
      let none_yet =
        empty_length defaults
          (not-false (is_empty defaults) (raise_if-ok _ model_definition_error test)) in
      inl (refl, none_yet, ap length (sym (ok_injective same)) ∙ none_yet)
    where
      empty_length : (xs : List (Scalar F)) → is_empty xs ≡ true → length xs ≡ 0
      empty_length [] e = refl
      empty_length (x ∷ xs) e = cc
  add_default-ok a (some v) defaults h =
      let (d, given, same) = >>=-eq-ok (default_of fs members convert a v) _ h in
      inr (refl, ap length (sym (ok_injective same)) ∙ length-append defaults (d ∷ []))

  IsTyped-more :
      (p : Parameter F) (ps : List (Parameter F)) (a : Annotation) (types : List (ℕ × Annotation))
      (rest added : ℕ)
      → p.annotation ≡ some a
      → is_passed a ≡ true
      → (has_default p.initial ≡ true) ↔ (length ps < added)
      → ((i : ℕ) → (length ps ≤ i + rest) ↔ (length ps ≤ i + added))
      → IsTyped ps types rest
      → IsTyped (p ∷ ps) ((p.name, a) ∷ types) added
  IsTyped-more p ps a types rest added given passed first later typed zero q e =
      let same_parameter : p ≡ q = some_injective e in
      subst (λ r. At r zero) same_parameter
        (
          a,
          refl,
          given,
          passed,
          ((λ h. omega (arith, first.0 h)), (λ h. first.1 (omega (arith, h)))),
        )
    where
      some_injective : {x y : Parameter F} → some x ≡ some y → x ≡ y
      some_injective e = cc

      At : Parameter F → ℕ → Type 0
      At r i =
          (a2 : Annotation) × (get_elem? ((p.name, a) ∷ types) i ≡ some (r.name, a2))
          × (r.annotation ≡ some a2)
          × (is_passed a2 ≡ true)
          × ((has_default r.initial ≡ true) ↔ (suc (length ps) ≤ i + added))
  IsTyped-more p ps a types rest added given passed first later typed (suc i) q e =
      let (b, found, annotated_as, passed_as, (to, from)) = typed i q e in
      (
        b,
        found,
        annotated_as,
        passed_as,
        ((λ h. omega (arith, (later i).0 (to h))), (λ h. from ((later i).1 (omega (arith, h))))),
      )

  -- One more parameter, before the others.
  one_more-Reads :
      (p : Parameter F) (ps : List (Parameter F)) (a : Annotation) (typed : List (ℕ × Annotation))
      (defaults more : List (Scalar F)) (result : List (ℕ × Annotation) × List (Scalar F))
      → p.annotation ≡ some a
      → is_passed a ≡ true
      → ((has_default p.initial ≡ false) × (length defaults ≡ 0) × (length more ≡ 0))
        ⊎ ((has_default p.initial ≡ true) × (length more ≡ length defaults + 1))
      → Reads ps (typed ++ (p.name, a) ∷ []) more result
      → Reads (p ∷ ps) typed defaults result
  one_more-Reads p ps a typed defaults more result given passed (inl none_yet) r = record {
    types = (p.name, a) ∷ r.types;
    added = r.added;
    appended = r.appended ∙ append_assoc typed ((p.name, a) ∷ []) r.types;
    count_types = ap suc r.count_types;
    counted = omega (arith, r.counted, none_yet.1, none_yet.2);
    at_most = omega (arith, r.at_most);
    all_left = λ h. absurd (omega (arith, h, none_yet.1));
    are_typed =
        IsTyped-more p ps a r.types r.added r.added given passed
          ((λ h. absurd (two (sym none_yet.0 ∙ h))), (λ h. absurd (omega (arith, h, r.at_most))))
          (λ i. ((λ h. h), (λ h. h))) r.are_typed;
  }
    where
      two : ¬ (false ≡ true)
      two e = cc
  one_more-Reads p ps a typed defaults more result given passed (inr has_one) r =
      let all_of : r.added ≡ length ps = r.all_left (omega (arith, has_one.1)) in
      record {
        types = (p.name, a) ∷ r.types;
        added = suc r.added;
        appended = r.appended ∙ append_assoc typed ((p.name, a) ∷ []) r.types;
        count_types = ap suc r.count_types;
        counted = omega (arith, r.counted, has_one.1);
        at_most = omega (arith, all_of);
        all_left = λ h. omega (arith, all_of);
        are_typed =
            IsTyped-more p ps a r.types r.added (suc r.added) given passed
              ((λ h. omega (arith, all_of)), (λ h. has_one.0))
              (λ i. ((λ h. omega (arith, h)), (λ h. omega (arith, all_of)))) r.are_typed;
      }

  read_parameters-Reads :
      (ps : List (Parameter F)) (typed : List (ℕ × Annotation)) (defaults : List (Scalar F))
      {result : List (ℕ × Annotation) × List (Scalar F)}
      → read_parameters fs members convert ps typed defaults ≡ ok result
      → Reads ps typed defaults result
  unfolding read_parameters
  read_parameters-Reads [] typed defaults h =
      subst (Reads [] typed defaults) (ok_injective h) (record {
        types = [];
        added = 0;
        appended = sym (append-nil typed);
        count_types = refl;
        counted = omega arith;
        at_most = omega arith;
        all_left = λ k. refl;
        are_typed = λ i p e. absurd (none_at i e);
      })
    where
      none_at : (i : ℕ) {p : Parameter F} → ¬ (get_elem? [] i ≡ some p)
      none_at i e = cc
  read_parameters-Reads (p ∷ ps) typed defaults {result = result} h =
      let (positional, h1) = >>-eq-ok (raise_if (not p.is_positional) model_definition_error) _ h in
      let (a, given, h2) = >>=-eq-ok (annotated p.annotation) _ h1 in
      let (checked, h3) = >>-eq-ok (check_annotation fs members convert a) _ h2 in
      let (passed, h4) = >>-eq-ok (raise_if (not (is_passed a)) model_definition_error) _ h3 in
      let (more, added, h5) =
        >>=-eq-ok (add_default fs members convert a p.initial defaults) _ h4 in
      one_more-Reads p ps a typed defaults more result (annotated-ok p.annotation given)
        (not-false (is_passed a) (raise_if-ok _ model_definition_error passed))
        (add_default-ok a p.initial defaults added)
        (read_parameters-Reads ps (typed ++ (p.name, a) ∷ []) more h5)

  -- A signature that is accepted has one entry for each parameter, with its name and its annotation,
  -- which is one that native calls pass; the parameters with a default are the last ones, as many as
  -- there are defaults; and what is returned is annotated and passed too, or None.
  pub function_signature-IsTyped :
      (m : Method F) {s : Signature F}
      → function_signature fs members convert m ≡ ok s
      → ((length s.types ≡ length m.parameters) × (length s.defaults ≤ length m.parameters))
        × IsTyped m.parameters s.types (length s.defaults)
        × ((m.result ≡ some s.returns) × ((is_nothing s.returns || is_passed s.returns) ≡ true))
  unfolding function_signature
  function_signature-IsTyped m {s = s} h =
      let (resolved, h1) = >>-eq-ok (raise_if (not m.is_resolved) model_definition_error) _ h in
      let (read, given, h2) =
        >>=-eq-ok (read_parameters fs members convert m.parameters [] []) _ h1 in
      let (returns, annotated_as, h3) = >>=-eq-ok (annotated m.result) _ h2 in
      let (checked, h4) = >>-eq-ok (check_annotation fs members convert returns) _ h3 in
      let (passed, same) =
        >>-eq-ok (raise_if (not (is_nothing returns || is_passed returns)) model_definition_error) _
          h4 in
      let r : Reads m.parameters [] [] read = read_parameters-Reads m.parameters [] [] given in
      subst Accepted (ok_injective same) (
        (ap length r.appended ∙ r.count_types, omega (arith, r.counted, r.at_most)),
        subst (λ xs. IsTyped m.parameters xs (length read.1)) (sym r.appended)
            (subst (IsTyped m.parameters r.types) (omega (arith, r.counted)) r.are_typed),
        (
          annotated-ok m.result annotated_as,
          not-false _ (raise_if-ok _ model_definition_error passed),
        ),
      )
    where
      Accepted : Signature F → Type 0
      Accepted s =
          ((length s.types ≡ length m.parameters) × (length s.defaults ≤ length m.parameters))
          × IsTyped m.parameters s.types (length s.defaults)
          × ((m.result ≡ some s.returns) × ((is_nothing s.returns || is_passed s.returns) ≡ true))
