-- ===== src/Modeling/Linked.antt =====
-- cimba/modeling: linked sweeps make one axis of a design, and mapped decisions share a root.
use cimba_python.Base.{
  ℕ, ◌≡◌, refl, ap, ◌∙◌, sym, Bool, true, false, not, none, some, List, [], ◌∷◌, ◌++◌, Result, ok,
  raise_if, raise_if-ok, value_error, ◌>>=◌, >>-eq-ok, ok_injective, arith, ==_iff, length, All,
  Option, map, ◌⊎◌, inl, inr,
}
use cimba_python.Design.{add_axis, lookup}
use cimba_python.Modeling.{
  own, mapped, Sweep, sweeps, any_empty, have_length, share_axis, Reals, Domain, Decision, domain,
  root, value_of, check_domain, decision, map_decision, construct, assembled, apply,
}

-- The axes that a list of sweeps adds to a design, in turn.
unfoldable pub add_axes : {A : Type 0} → List (Sweep A) → List (ℕ × ℕ) → Result (List (ℕ × ℕ))
unfolding add_axis
add_axes [] axes = ok axes
add_axes (s ∷ rest) axes = add_axis s.axis (length s.values) axes >>= add_axes rest

lookup-append_new :
    (a n : ℕ) (axes : List (ℕ × ℕ)) → lookup a axes ≡ none → lookup a (axes ++ (a, n) ∷ []) ≡ some n
unfolding lookup
lookup-append_new a n [] h = ground arith
lookup-append_new a n ((b, m) ∷ axes) h = ground (arith, lookup-append_new a n axes)

add_axis-known :
    (a n : ℕ) (axes : List (ℕ × ℕ)) → lookup a axes ≡ some n → add_axis a n axes ≡ ok axes
unfolding add_axis
add_axis-known a n axes h = rw (add_axis, h) (ground arith)

add_axis-new :
    (a n : ℕ) (axes : List (ℕ × ℕ))
    → lookup a axes ≡ none
    → add_axis a n axes ≡ ok (axes ++ (a, n) ∷ [])
unfolding add_axis
add_axis-new a n axes h = rw (add_axis, h) refl

share_axis-known :
    {A : Type 0} (next n : ℕ) (columns : List (List A)) (axes : List (ℕ × ℕ))
    → have_length n columns ≡ true
    → lookup next axes ≡ some n
    → add_axes (share_axis next columns) axes ≡ ok axes
unfolding add_axes have_length share_axis
share_axis-known next n [] axes h k = refl
share_axis-known next n (c ∷ columns) axes h k =
    let same : length c ≡ n = ground (arith, ==_iff (length c) n) in
    let rest = share_axis-known next n columns axes (ground arith) k in
    rw (add_axis-known next (length c) axes (k ∙ ap some (sym same))) rest

-- If `sweeps` accepts its columns, the sweeps that it makes hold the columns, each its own, in their
-- order, and a design that does not know the new axis takes the sweeps as one axis, of as many
-- options as each column has.
pub sweeps-IsOneAxis :
    {A : Type 0} (columns : List (List A)) (next : ℕ) (axes : List (ℕ × ℕ))
    {made : List (Sweep A) × ℕ}
    → sweeps columns next ≡ ok made
    → lookup next axes ≡ none
    → (n : ℕ) × (map (λ s. s.values) made.0 ≡ columns)
      × (add_axes made.0 axes ≡ ok (axes ++ (next, n) ∷ []))
      × All (λ s. (length s.values ≡ n) × (s.axis ≡ next)) made.0
unfolding sweeps share_axis add_axes
sweeps-IsOneAxis [] next axes h fresh = cc
sweeps-IsOneAxis (c ∷ columns) next axes h fresh =
    let (_, h1) = >>-eq-ok (raise_if (any_empty (c ∷ columns)) value_error) _ h in
    let (linked, h2) =
      >>-eq-ok (raise_if (not (have_length (length c) columns)) value_error) _ h1 in
    let same : have_length (length c) columns ≡ true =
      not_false _ (raise_if-ok (not (have_length (length c) columns)) _ linked) in
    rw (← ok_injective h2) (
      length c,
      ap (λ rest. c ∷ rest) (share_axis-values next columns),
      rw (add_axis-new next (length c) axes fresh) (
          share_axis-known next (length c) columns (axes ++ (next, length c) ∷ []) same
            (lookup-append_new next (length c) axes fresh)),
      ((refl, refl), each_alike next (length c) columns same),
    )
  where
    not_false : (b : Bool) → not b ≡ false → b ≡ true
    not_false b q = ground arith

    share_axis-values :
        {A : Type 0} (next : ℕ) (columns : List (List A))
        → map (λ s. s.values) (share_axis next columns) ≡ columns
    share_axis-values next [] = refl
    share_axis-values next (c ∷ columns) = ap (λ rest. c ∷ rest) (share_axis-values next columns)

    each_alike :
        {A : Type 0} (next n : ℕ) (columns : List (List A))
        → have_length n columns ≡ true
        → All (λ s. (length s.values ≡ n) × (s.axis ≡ next)) (share_axis next columns)
    each_alike next n [] k = tt
    each_alike next n (c ∷ columns) k =
        ((ground (arith, ==_iff (length c) n), refl), each_alike next n columns (ground arith))

module _ (r : Reals) where
  open r use {R}

  -- The decisions that the host can make: by the constructor, with any parent and transform, by
  -- `decision` and by `map`.
  pub data Made : Decision R → Type 0 where
    by_constructor :
        (i : ℕ) (d : Domain R) (f : Option (R → Result R)) {x : Decision R}
        → construct r i d none f ≡ ok x
        → Made x
    by_parent :
        (i : ℕ) (d : Domain R) (parent : Decision R) (f : Option (R → Result R)) {x : Decision R}
        → Made parent
        → construct r i d (some parent) f ≡ ok x
        → Made x
    by_decision : (i : ℕ) (d : Domain R) {x : Decision R} → decision r i d ≡ ok x → Made x
    by_map :
        (i : ℕ) (parent : Decision R) (f : R → Result R) {x : Decision R}
        → Made parent
        → map_decision r i parent f ≡ ok x
        → Made x

  -- Whether the host passed a parent to the constructor on the way.
  abbrev pub given_parent : {x : Decision R} → Made x → Bool
  given_parent (by_constructor i d f h) = false
  given_parent (by_parent i d parent f made h) = true
  given_parent (by_decision i d h) = false
  given_parent (by_map i parent f made h) = given_parent made

  -- A decision whose domain passes the tests, and whose root has no map.
  abbrev pub IsSound : Decision R → Type 0
  IsSound x = (check_domain r (domain x) ≡ ok tt) × ((base : R) → value_of (root x) base ≡ ok base)

  -- The result of mapping a decision by a function.
  abbrev pub IsMapped : Decision R → (R → Result R) → Decision R → Type 0
  IsMapped x f y =
      (root y ≡ root x)
      × (domain y ≡ domain x)
      × ((base : R) → value_of y base ≡ value_of x base >>= f)

  construct-checked :
      (i : ℕ) (d : Domain R) (parent : Option (Decision R)) (f : Option (R → Result R))
      {x : Decision R}
      → construct r i d parent f ≡ ok x
      → (check_domain r d ≡ ok tt) × (assembled r i d parent f ≡ x)
  unfolding construct
  construct-checked i d parent f h =
      let (checked, e) = >>-eq-ok (check_domain r d) _ h in (checked, ok_injective e)

  root_value : (x : Decision R) (base : R) → value_of (root x) base ≡ ok base
  unfolding root value_of
  root_value (own i d) base = refl
  root_value (mapped i d parent f) base = root_value parent base

  made-checked : {x : Decision R} → Made x → check_domain r (domain x) ≡ ok tt
  unfolding decision map_decision
  made-checked (by_constructor i d f h) =
      let (checked, e) = construct-checked i d none f h in rw (← e) checked
  made-checked (by_parent i d parent f made h) =
      let (checked, e) = construct-checked i d (some parent) f h in rw (← e) checked
  made-checked (by_decision i d h) =
      let (checked, e) = construct-checked i d none none h in rw (← e) checked
  made-checked (by_map i parent f made h) =
      let (checked, e) = construct-checked i (domain parent) (some parent) (some f) h in
      rw (← e) checked

  has_domain :
      {x : Decision R} (made : Made x) → (given_parent made ≡ true) ⊎ (domain (root x) ≡ domain x)
  unfolding decision map_decision root
  has_domain (by_constructor i d f h) =
      let (_, e) = construct-checked i d none f h in rw (← e) (inr refl)
  has_domain (by_parent i d parent f made h) = inl refl
  has_domain (by_decision i d h) =
      let (_, e) = construct-checked i d none none h in rw (← e) (inr refl)
  has_domain (by_map i parent f made h) =
      let (_, e) = construct-checked i (domain parent) (some parent) (some f) h in
      rw (← e) (has_domain made)

  -- Every decision that the host can make, also by the constructor, has a domain that passes the
  -- tests and a root that stands for its values unchanged. The root has the decision's domain, unless
  -- the host has passed a parent to the constructor on the way. Mapping the decision by a function
  -- succeeds, keeps the root and the domain, and applies the function to the decision's value, whose
  -- error it passes on.
  pub Made-IsSound :
      (x : Decision R) (made : Made x)
      → IsSound x
        × ((given_parent made ≡ true) ⊎ (domain (root x) ≡ domain x))
        × ((i : ℕ) (f : R → Result R)
            → (y : Decision R) × (map_decision r i x f ≡ ok y) × IsMapped x f y)
  unfolding map_decision construct root value_of apply
  Made-IsSound x made =
      let checked = made-checked made in
      (
        (checked, root_value x),
        has_domain made,
        λ i f. (mapped i (domain x) x (some f), rw checked refl, (refl, refl, λ base. refl)),
      )
