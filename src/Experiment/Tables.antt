-- ===== src/Experiment/Tables.antt =====
-- cimba/experiments/run.py: tables that are filled by assignments at given positions.
use cimba_python.Base.{
  ok_injective, ℕ, zero, suc, ◌<◌, ◌≡◌, refl, ap, ◌∙◌, sym, ◌⊎◌, inl, inr, Bool, true, false, not,
  ◌&&◌, ◌||◌, List, [], ◌∷◌, map, ok, arith, length, get_or, count, ℕ_discrete, >>=-eq-ok, ==_iff,
  ◌≢◌,
}
use cimba_python.Run.Whole.{IsRectangular}
use cimba_python.Base.{element}
use cimba_python.Experiment.Variants.{enumerate, rectangular, assign, scatter}

pub map-enumerate : {A : Type 0} (i : ℕ) (xs : List A) → map (λ p. p.1) (enumerate i xs) ≡ xs
unfolding enumerate
map-enumerate i [] = refl
map-enumerate i (a ∷ rest) = ap (λ xs. a ∷ xs) (map-enumerate (suc i) rest)

pub rectangular-IsRectangular :
    (n : ℕ) (rows : List (List ℕ)) → rectangular n rows ≡ true → IsRectangular n rows
unfolding rectangular
rectangular-IsRectangular n [] h = tt
rectangular-IsRectangular n (row ∷ rows) h =
    (ground (arith, ==_iff (length row) n), rectangular-IsRectangular n rows (ground arith))

assign-here :
    {A : Type 0} (table : List A) (i : ℕ) (row : A) {next : List A}
    → assign table i row ≡ ok next
    → element next i ≡ ok row
unfolding assign
assign-here [] i row h = cc
assign-here (r ∷ table) zero row h = rw (← ok_injective h) refl
assign-here (r ∷ table) (suc i) row h =
    let (rest, e, h') = >>=-eq-ok (assign table i row) _ h in
    rw (← ok_injective h') (assign-here table i row e)

assign-elsewhere :
    {A : Type 0} (table : List A) (i j : ℕ) (row : A) {next : List A}
    → j ≢ i
    → assign table i row ≡ ok next
    → element next j ≡ element table j
unfolding assign
assign-elsewhere [] i j row n h = cc
assign-elsewhere (r ∷ table) zero zero row n h = absurd (n refl)
assign-elsewhere (r ∷ table) zero (suc j) row n h = rw (← ok_injective h) refl
assign-elsewhere (r ∷ table) (suc i) zero row n h =
    let (rest, _, h') = >>=-eq-ok (assign table i row) _ h in rw (← ok_injective h') refl
assign-elsewhere (r ∷ table) (suc i) (suc j) row n h =
    let (rest, e, h') = >>=-eq-ok (assign table i row) _ h in
    rw (← ok_injective h') (assign-elsewhere table i j row (λ p. n (ap suc p)) e)

pub shape_columns : (a b c : Bool) → (not (a && b) || c) ≡ false → b ≡ true
shape_columns true true c h = refl
shape_columns true false c h = cc
shape_columns false b c h = cc

pub get_or-element :
    {A : Type 0} (xs : List A) (j : ℕ) (d : A) {x : A} → element xs j ≡ ok x → get_or xs j d ≡ x
get_or-element [] j d h = cc
get_or-element (x ∷ xs) zero d h = ok_injective h
get_or-element (x ∷ xs) (suc j) d h = get_or-element xs j d h

-- A relation of each position of a list and the row at its place.
abbrev pub Pairs : {R : Type 0} → (ℕ → R → Type 0) → List ℕ → List R → Type 0
Pairs C [] rows = Unit
Pairs C (i ∷ is) [] = ⊥
Pairs C (i ∷ is) (row ∷ rows) = C i row × Pairs C is rows

-- The table holds such a row at a position.
abbrev pub Good : {R : Type 0} → (ℕ → R → Type 0) → List R → ℕ → Type 0
Good {R} C table i = (row : R) × (element table i ≡ ok row) × C i row

assign-Good :
    {R : Type 0} (C : ℕ → R → Type 0) (table : List R) (i j : ℕ) (row : R) {next : List R}
    → assign table i row ≡ ok next
    → C i row
    → Good C table j ⊎ (i ≡ j)
    → Good C next j
assign-Good C table i j row h c g = elim (ℕ_discrete j i) [
  | yes here ↦ (row, rw here (assign-here table i row h), rw here c)
  | no other ↦ elim g [
    | inl old ↦ (old.0, assign-elsewhere table i j row other h ∙ old.1, old.2)
    | inr here ↦ absurd (other (sym here))
  ]
]

pub scatter-Good :
    {R : Type 0} (C : ℕ → R → Type 0) (table : List R) (is : List ℕ) (rows : List R) (j : ℕ)
    {next : List R}
    → scatter table is rows ≡ ok next
    → Pairs C is rows
    → Good C table j ⊎ (0 < count ℕ_discrete j is)
    → Good C next j
unfolding scatter
scatter-Good C table [] rows j h c g = elim g [
  | inl old ↦ rw (← ok_injective h) old
  | inr none_here ↦ absurd (omega arith)
]
scatter-Good C table (i ∷ is) [] j h c g = elim c [ ]
scatter-Good C table (i ∷ is) (row ∷ rows) j h c g =
    let (first, e, h') = >>=-eq-ok (assign table i row) _ h in
    let write = assign-Good C table i j row e c.0 in
    scatter-Good C first is rows j h' c.1 (elim g [
      | inl old ↦ inl (write (inl old))
      | inr found ↦ elim (ℕ_discrete j i) [
        | yes here ↦ inl (write (inr (sym here)))
        | no other ↦ inr (ground (arith, found))
      ]
    ])
