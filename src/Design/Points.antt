-- ===== src/Design/Points.antt =====
-- cimba/experiments/design.py: the points of a design are the full factorial over its axes.
use cimba_python.Base.{
  ok_injective, ℕ, zero, suc, ◌+◌, ◌≡◌, refl, some, List, [], ◌∷◌, map, ok, arith, length,
  get_elem?, ◌∙◌, >>=-eq-ok, >>-eq-ok,
}
use cimba_python.Base.Int.{ℤ}
use cimba_python.Schema.Scalars.{Floats}
use cimba_python.Design.{
  Design, DesignPoint, Instance, zip_levels, positions, check_all_decisions, all_axes, bind_all,
  make_points, design,
}
use cimba_python.Design.Product.{product, IsCombination, rank, get_elem?-rank, length-positions}

-- The numbers of options, in the order of the axes.
abbrev pub axis_lengths : {F : Type 0} → Design F → List ℕ
axis_lengths d = map (λ a. a.1) d.axes

some_injective : {A : Type 0} {a b : A} → some a ≡ some b → a ≡ b
some_injective e = cc

zero_plus : (n : ℕ) → 0 + n ≡ n
zero_plus n = omega arith

module _ (fs : Floats) (members : ℕ → List ℤ) where
  open fs use {F}

  -- What a point at some index binds.
  abbrev pub PointAt : List (Instance F) → List (ℕ × ℕ) → ℕ → List ℕ → DesignPoint F → Type 0
  PointAt is axes k c p =
      (p.index ≡ k)
      × (p.levels ≡ zip_levels axes c)
      × (bind_all fs members is (zip_levels axes c) ≡ ok p.bindings)

  make_points-length :
      (is : List (Instance F)) (axes : List (ℕ × ℕ)) (k : ℕ) (cs : List (List ℕ))
      {points : List (DesignPoint F)}
      → make_points fs members is axes k cs ≡ ok points
      → length points ≡ length cs
  unfolding make_points
  make_points-length is axes k [] h = cc
  make_points-length is axes k (c ∷ cs) h =
      let (bs, _, h1) = >>=-eq-ok (bind_all fs members is (zip_levels axes c)) _ h in
      let (ps, e, h2) = >>=-eq-ok (make_points fs members is axes (suc k) cs) _ h1 in
      rw (← ok_injective h2, make_points-length is axes (suc k) cs e)

  make_points-get :
      (is : List (Instance F)) (axes : List (ℕ × ℕ)) (k : ℕ) (cs : List (List ℕ))
      {points : List (DesignPoint F)} (j : ℕ) {c : List ℕ}
      → make_points fs members is axes k cs ≡ ok points
      → get_elem? cs j ≡ some c
      → (p : DesignPoint F) × (get_elem? points j ≡ some p) × PointAt is axes (k + j) c p
  unfolding make_points
  make_points-get is axes k [] j h e = cc
  make_points-get is axes k (c' ∷ cs) zero h e =
      let (bs, bound, h1) = >>=-eq-ok (bind_all fs members is (zip_levels axes c')) _ h in
      let (ps, _, h2) = >>=-eq-ok (make_points fs members is axes (suc k) cs) _ h1 in
      rw (← ok_injective h2, ← some_injective e) (_, refl, (omega arith, refl, bound))
  make_points-get is axes k (c' ∷ cs) (suc j) h e =
      let (bs, _, h1) = >>=-eq-ok (bind_all fs members is (zip_levels axes c')) _ h in
      let (ps, e', h2) = >>=-eq-ok (make_points fs members is axes (suc k) cs) _ h1 in
      let (p, found, at) = make_points-get is axes (suc k) cs j e' e in
      rw (← ok_injective h2) (p, found, (omega (arith, at.0), at.1, at.2))

  design-parts :
      (is : List (Instance F)) {d : Design F}
      → design fs members is ≡ ok d
      → make_points fs members is d.axes 0 (positions (axis_lengths d)) ≡ ok d.points
  unfolding design
  design-parts is h =
      let (_, h1) = >>-eq-ok (check_all_decisions fs members is) _ h in
      let (axes, _, h2) = >>=-eq-ok (all_axes fs members is []) _ h1 in
      let (points, e, h3) =
        >>=-eq-ok (make_points fs members is axes 0 (positions (map (λ a. a.1) axes))) _ h2 in
      rw (← ok_injective h3) e

  -- If `Design.of` returns, there are as many points as the product of the axis lengths, and every
  -- combination of one position for each axis has a point, at the rank of the combination: the
  -- point carries that rank as its index, has the combination as its levels, and binds what the
  -- fields hold there.
  pub design-IsFactorial :
      (is : List (Instance F)) {d : Design F}
      → design fs members is ≡ ok d
      → (length d.points ≡ product (axis_lengths d))
        × ((c : List ℕ)
            → IsCombination (axis_lengths d) c
            → (p : DesignPoint F) × (get_elem? d.points (rank (axis_lengths d) c) ≡ some p)
              × PointAt is d.axes (rank (axis_lengths d) c) c p)
  design-IsFactorial is {d} h =
      let e = design-parts is h in
      (
        make_points-length is d.axes 0 (positions (axis_lengths d)) e
            ∙ length-positions (axis_lengths d),
        λ c comb.
            let r = rank (axis_lengths d) c in
            let (p, found, (index, rest, bound)) =
              make_points-get is d.axes 0 (positions (axis_lengths d)) r e
                (get_elem?-rank (axis_lengths d) c comb) in
            (p, found, (index ∙ zero_plus r, rest, bound)),
      )
