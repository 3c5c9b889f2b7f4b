-- ===== src/Experiment/Groups.antt =====
-- cimba/experiments/run.py: the groups of `_run_variants` hold every point once, under its key.
use cimba_python.Base.{
  ℕ, suc, ◌+◌, ◌<◌, ◌≤◌, ◌≡◌, refl, ◌∙◌, sym, List, [], ◌∷◌, ◌++◌, ok, arith, length, ite, count,
  count-snoc, same, ℕ_discrete, All, All-append, dec_lt,
}
use cimba_python.Base.{element}
use cimba_python.Experiment.Variants.{
  Setting, List-discrete, add_position, variant_key, group_points,
}

-- How often a position stands in the groups.
abbrev pub placed : ℕ → List (List ℕ × List ℕ) → ℕ
placed i [] = 0
placed i (g ∷ groups) = count ℕ_discrete i g.1 + placed i groups

placed-add_position :
    (i j : ℕ) (k : List ℕ) (groups : List (List ℕ × List ℕ))
    → placed j (add_position k i groups) ≡ placed j groups + same ℕ_discrete j i
unfolding add_position
placed-add_position i j k [] = omega arith
placed-add_position i j k (g ∷ groups) =
    elim (List-discrete g.0 k)
      as (λ d.
        placed j (ite d ((g.0, g.1 ++ i ∷ []) ∷ groups) (g ∷ add_position k i groups))
        ≡ placed j (g ∷ groups) + same ℕ_discrete j i) [
          | yes e ↦ omega (arith, count-snoc ℕ_discrete j i g.1)
          | no n ↦ omega (arith, placed-add_position i j k groups)
        ]

module _ (e : Setting) (swept : List ℕ) where
  open e use {P}

  -- The point at a position has the key.
  abbrev pub HasKey : List P → List ℕ → ℕ → Type 0
  HasKey points k i = (p : P) × (element points i ≡ ok p) × (variant_key e swept p ≡ k)

  abbrev pub IsSorted : List P → List (List ℕ × List ℕ) → Type 0
  IsSorted points groups = All (λ g. All (HasKey points g.0) g.1) groups

  add_position-IsSorted :
      (points : List P) (k : List ℕ) (i : ℕ) (groups : List (List ℕ × List ℕ))
      → HasKey points k i
      → IsSorted points groups
      → IsSorted points (add_position k i groups)
  unfolding add_position
  add_position-IsSorted points k i [] h s = ((h, tt), tt)
  add_position-IsSorted points k i (g ∷ groups) h s =
      elim (List-discrete g.0 k)
        as (λ d.
          IsSorted points (ite d ((g.0, g.1 ++ i ∷ []) ∷ groups) (g ∷ add_position k i groups))) [
            | yes eq ↦ (
              All-append (HasKey points g.0) g.1 (i ∷ []) s.0 ((h.0, h.1, h.2 ∙ sym eq), tt),
              s.1,
            )
            | no n ↦ (s.0, add_position-IsSorted points k i groups h s.1)
          ]

  -- The points from position i on are `rest`.
  Suffix : List P → ℕ → List P → Type 0
  Suffix points i rest = (j : ℕ) (p : P) → element rest j ≡ ok p → element points (i + j) ≡ ok p

  group_points-IsSorted_from :
      (points : List P) (i : ℕ) (rest : List P) (groups : List (List ℕ × List ℕ))
      → Suffix points i rest
      → IsSorted points groups
      → IsSorted points (group_points e swept i rest groups)
  unfolding group_points Suffix
  group_points-IsSorted_from points i [] groups h s = s
  group_points-IsSorted_from points i (p ∷ rest) groups h s =
      group_points-IsSorted_from points (suc i) rest (add_position (variant_key e swept p) i groups)
        (λ j q at. subst_position (omega arith) (h (suc j) q at))
        (add_position-IsSorted points (variant_key e swept p) i groups
          (p, subst_position (omega arith) (h 0 p refl), refl) s)
    where
      subst_position : {m n : ℕ} {q : P} → m ≡ n → element points m ≡ ok q → element points n ≡ ok q
      subst_position eq at = rw (← eq) at

  -- Every group's positions are of points with the group's key.
  pub group_points-IsSorted : (points : List P) → IsSorted points (group_points e swept 0 points [])
  unfolding Suffix
  group_points-IsSorted points =
      group_points-IsSorted_from points 0 points [] (λ j p at. rw (zero_plus j) at) tt
    where
      zero_plus : (n : ℕ) → 0 + n ≡ n
      zero_plus n = omega arith

  placed_grows :
      (i j : ℕ) (rest : List P) (groups : List (List ℕ × List ℕ))
      → placed j groups ≤ placed j (group_points e swept i rest groups)
  unfolding group_points
  placed_grows i j [] groups = omega arith
  placed_grows i j (p ∷ rest) groups = omega (
    arith,
    placed_grows (suc i) j rest (add_position (variant_key e swept p) i groups),
    placed-add_position i j (variant_key e swept p) groups,
  )

  placed-group_points :
      (i j : ℕ) (rest : List P) (groups : List (List ℕ × List ℕ))
      → i ≤ j
      → j < i + length rest
      → 0 < placed j (group_points e swept i rest groups)
  unfolding group_points
  placed-group_points i j [] groups low high = absurd (omega arith)
  placed-group_points i j (p ∷ rest) groups low high =
      let next = add_position (variant_key e swept p) i groups in
      elim (dec_lt i j) [
        | yes later ↦ placed-group_points (suc i) j rest next (omega arith) (omega arith)
        | no here ↦ ground (
          arith,
          placed_grows (suc i) j rest next,
          placed-add_position i j (variant_key e swept p) groups,
        )
      ]

  -- Every position stands in a group.
  pub group_points-placed :
      (points : List P) (i : ℕ)
      → i < length points
      → 0 < placed i (group_points e swept 0 points [])
  group_points-placed points i h =
      placed-group_points 0 i points [] (omega arith) (omega (arith, h))
