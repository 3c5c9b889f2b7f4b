-- ===== src/Experiment/Rerun.antt =====
-- cimba/experiments/run.py: `only` runs selected trials again as `run` had them.
use native.Mathlib.Nat.{mod-lt}
use cimba_python.Base.{
  if-ok, ok_injective, ℕ, zero, suc, ◌+◌, ◌*◌, ◌/◌, ◌%◌, ◌<◌, ◌≡◌, refl, ap, ◌∙◌, sym, inl, inr,
  true, false, not, ◌||◌, List, [], ◌∷◌, map, Result, ok, raise, experiment_config_error, arith,
  length, get_or, >>=-eq-ok, >>-eq-ok, raise_if, ◌==◌, subst, if◌then◌else◌,
}
use cimba_python.Run.Chunks.{run_core}
use cimba_python.Base.{element, collect, range_from, broadcast}
use cimba_python.Experiment.{
  Config, Seeding, Seeds, common, independent, other_word, derived, shared, each, seed_from,
  seed_of, seed_table, common_or_each, seeds_from, run_seeds, trial_seed,
}
use cimba_python.Experiment.Variants.{
  Setting, find, enumerate, run_snapshot, variant_key, run_variants, run, select, only, all_below,
}
use cimba_python.Experiment.Tables.{map-enumerate, get_or-element}
use cimba_python.Experiment.Pointwise.{run_snapshot-run_core, run_variants-IsPointwise}

element-lt : {A : Type 0} (xs : List A) (i : ℕ) {x : A} → element xs i ≡ ok x → i < length xs
element-lt [] i h = cc
element-lt (x ∷ xs) zero h = omega arith
element-lt (x ∷ xs) (suc i) h = omega (arith, element-lt xs i h)

element-collect :
    {A B : Type 0} (f : A → Result B) (xs : List A) (i : ℕ) {ys : List B} {x : A}
    → collect f xs ≡ ok ys
    → element xs i ≡ ok x
    → (y : B) × (f x ≡ ok y) × (element ys i ≡ ok y)
unfolding collect
element-collect f [] i h at = cc
element-collect f (x' ∷ xs) zero h at =
    let (y, e, h1) = >>=-eq-ok (f x') _ h in
    let (ys, _, h2) = >>=-eq-ok (collect f xs) _ h1 in
    (y, ap f (sym (ok_injective at)) ∙ e, rw (← ok_injective h2) refl)
element-collect f (x' ∷ xs) (suc i) h at =
    let (y, _, h1) = >>=-eq-ok (f x') _ h in
    let (ys, e, h2) = >>=-eq-ok (collect f xs) _ h1 in
    let (z, e', found) = element-collect f xs i e at in (z, e', rw (← ok_injective h2) found)

element-range_from : (a n i : ℕ) → i < n → element (range_from a n) i ≡ ok (a + i)
unfolding range_from
element-range_from a zero i h = absurd (omega arith)
element-range_from a (suc n) zero h = ap ok (omega arith)
element-range_from a (suc n) (suc i) h =
    element-range_from (suc a) n i (omega arith) ∙ ap ok (omega arith)

element-broadcast : {A : Type 0} (n i : ℕ) (row : A) → i < n → element (broadcast n row) i ≡ ok row
element-broadcast zero i row h = absurd (omega arith)
element-broadcast (suc n) zero row h = refl
element-broadcast (suc n) (suc i) row h = element-broadcast n i row (omega arith)

element-run_core :
    {O : Type 0} (f : ℕ → ℕ → O) (k i : ℕ) (seeds : List (List ℕ)) {row : List ℕ}
    → element seeds i ≡ ok row
    → element (run_core f k seeds) i ≡ ok (map (f (k + i)) row)
unfolding run_core
element-run_core f k i [] h = cc
element-run_core f k zero (r ∷ seeds) {row} h =
    ap (λ q. ok (map (f k) q)) (ok_injective h) ∙ ap (λ m. ok (map (f m) row)) (plus_zero k)
  where
    plus_zero : (m : ℕ) → m ≡ m + 0
    plus_zero m = omega arith
element-run_core f k (suc i) (r ∷ seeds) {row} h =
    element-run_core f (suc k) i seeds h ∙ ap (λ m. ok (map (f m) row)) (plus_suc k i)
  where
    plus_suc : (m n : ℕ) → suc m + n ≡ m + suc n
    plus_suc m n = omega arith

zero_plus : (m : ℕ) → 0 + m ≡ m
zero_plus m = omega arith

element-map :
    {A B : Type 0} (f : A → B) (xs : List A) (i : ℕ) {x : A}
    → element xs i ≡ ok x
    → element (map f xs) i ≡ ok (f x)
element-map f [] i h = cc
element-map f (x ∷ xs) zero h = ap (λ y. ok (f y)) (ok_injective h)
element-map f (x ∷ xs) (suc i) h = element-map f xs i h

module _ (generate : List ℕ → ℕ) (c : Config) where
  -- The table holds a seed at a point and a replication.
  HasSeed : List (List ℕ) → ℕ → ℕ → ℕ → Type 0
  HasSeed seeds i r z = (row : List ℕ) × (element seeds i ≡ ok row) × (element row r ≡ ok z)

  seed_table-HasSeed :
      (n i r : ℕ) {seeds : List (List ℕ)} {z : ℕ}
      → seed_table generate c n ≡ ok seeds
      → i < n
      → r < c.replications
      → seed_of generate c i r ≡ ok z
      → HasSeed seeds i r z
  unfolding seed_table HasSeed
  seed_table-HasSeed n i r h small small' e =
      let (row, made, found) =
        element-collect (λ p. collect (seed_of generate c p) (range_from 0 c.replications))
          (range_from 0 n) i h (element-range_from 0 n i small) in
      let (z', e', found') =
        element-collect (seed_of generate c (0 + i)) (range_from 0 c.replications) r made
          (element-range_from 0 c.replications r small') in
      (
        row,
        found,
        found'
            ∙ sym e'
            ∙ ap (λ j. seed_of generate c j (0 + r)) (zero_plus i)
            ∙ ap (seed_of generate c i) (zero_plus r)
            ∙ e,
      )

  seed_of-derived :
      (n i r : ℕ) {w : Seeding} {z : ℕ}
      → w ≡ c.seeding
      → derived ≡ c.seeds
      → trial_seed generate c.seed r i w ≡ ok z
      → seed_of generate c i r ≡ ok z
  unfolding seed_of seed_from
  seed_of-derived n i r q p e =
      ap (λ s. seed_from generate c s i r) (sym p) ∙ ap (trial_seed generate c.seed r i) (sym q) ∙ e

  common_or_each-HasSeed :
      (w : Seeding) (n i r : ℕ) {seeds : List (List ℕ)} {z : ℕ}
      → w ≡ c.seeding
      → derived ≡ c.seeds
      → common_or_each generate c w n ≡ ok seeds
      → i < n
      → r < c.replications
      → trial_seed generate c.seed r i w ≡ ok z
      → HasSeed seeds i r z
  unfolding common_or_each HasSeed trial_seed
  common_or_each-HasSeed common n i r q p h small small' e =
      let (row, made, h1) =
        >>=-eq-ok
          (collect (λ r. trial_seed generate c.seed r 0 common) (range_from 0 c.replications)) _
          h in
      let (z', e', found) =
        element-collect (λ r. trial_seed generate c.seed r 0 common) (range_from 0 c.replications) r
          made (element-range_from 0 c.replications r small') in
      rw (← ok_injective h1) (
        row,
        element-broadcast n i row small,
        found ∙ sym e' ∙ ap (λ m. trial_seed generate c.seed m 0 common) (zero_plus r) ∙ e,
      )
  common_or_each-HasSeed independent n i r q p h small small' e =
      seed_table-HasSeed n i r h small small' (seed_of-derived n i r q p e)
  common_or_each-HasSeed other_word n i r q p h small small' e =
      seed_table-HasSeed n i r h small small' (seed_of-derived n i r q p e)

  seeds_from-HasSeed :
      (s : Seeds) (n i r : ℕ) {seeds : List (List ℕ)} {z : ℕ}
      → s ≡ c.seeds
      → seeds_from generate c s n ≡ ok seeds
      → i < n
      → r < c.replications
      → seed_from generate c s i r ≡ ok z
      → HasSeed seeds i r z
  unfolding seeds_from seed_from HasSeed
  seeds_from-HasSeed derived n i r p h small small' e =
      common_or_each-HasSeed c.seeding n i r refl p h small small' e
  seeds_from-HasSeed (shared row) n i r p h small small' e =
      rw (← ok_injective h) (row, element-broadcast n i row small, e)
  seeds_from-HasSeed (each rows) n i r p h small small' e =
      let (row, found, at) = >>=-eq-ok (element rows i) _ e in
      rw (← ok_injective h) (row, found, at)

  run_seeds-HasSeed :
      (n i r : ℕ) {seeds : List (List ℕ)} {z : ℕ}
      → run_seeds generate c n ≡ ok seeds
      → i < n
      → r < c.replications
      → seed_of generate c i r ≡ ok z
      → HasSeed seeds i r z
  unfolding run_seeds seed_of
  run_seeds-HasSeed n i r h small small' e = seeds_from-HasSeed c.seeds n i r refl h small small' e

module _ (e : Setting) (swept : List ℕ) where
  open e use {P, O, S, trial, base, nowhere}

  -- The tree that a point's trials run on.
  tree_of : List (List ℕ × S) → P → Result S
  tree_of variants p = if length swept == 0 then ok base else find (variant_key e swept p) variants

  tree_of-base :
      (variants : List (List ℕ × S)) (p : P) {s : S}
      → tree_of variants p ≡ ok s
      → (length swept == 0) ≡ true
      → base ≡ s
  unfolding tree_of
  tree_of-base variants p {s} h b =
      ok_injective
        (subst (λ d. (if d then ok base else find (variant_key e swept p) variants) ≡ ok s) b h)

  tree_of-find :
      (variants : List (List ℕ × S)) (p : P) {s : S}
      → tree_of variants p ≡ ok s
      → (length swept == 0) ≡ false
      → find (variant_key e swept p) variants ≡ ok s
  unfolding tree_of
  tree_of-find variants p {s} h b =
      subst (λ d. (if d then ok base else find (variant_key e swept p) variants) ≡ ok s) b h

  run_snapshot-IsPointwise :
      (memory columns : ℕ) (points : List P) (seeds : List (List ℕ)) (i : ℕ) {table : List (List O)}
      {p : P} {row : List ℕ}
      → run_snapshot e swept memory columns base (enumerate 0 points) seeds ≡ ok table
      → element points i ≡ ok p
      → element seeds i ≡ ok row
      → element table i ≡ ok (map (trial base p) row)
  run_snapshot-IsPointwise memory columns points seeds i {row = row} h at at' =
      ap (λ t. element t i)
        (run_snapshot-run_core e swept memory columns base (enumerate 0 points) seeds h)
      ∙ element-run_core (λ j. trial base (get_or (map (λ q. q.1) (enumerate 0 points)) j nowhere))
          0 i seeds at'
      ∙ ap (λ xs. ok (map (trial base (get_or xs (0 + i) nowhere)) row)) (map-enumerate 0 points)
      ∙ ap (λ m. ok (map (trial base (get_or points m nowhere)) row)) (zero_plus i)
      ∙ ap (λ q. ok (map (trial base q) row)) (get_or-element points i nowhere at)

  run_variants-row :
      (memory columns : ℕ) (variants : List (List ℕ × S)) (points : List P) (seeds : List (List ℕ))
      (i : ℕ) {table : List (List O)} {p : P} {row : List ℕ}
      → run_variants e swept memory columns variants points seeds ≡ ok table
      → element points i ≡ ok p
      → element seeds i ≡ ok row
      → (s : S) × (find (variant_key e swept p) variants ≡ ok s)
        × (element table i ≡ ok (map (trial s p) row))
  run_variants-row memory columns variants points seeds i h at at' =
      let (line, found, right) =
        run_variants-IsPointwise e swept memory columns variants points seeds i h
          (element-lt points i at) in
      let (s, tree, same_line) = right _ _ at at' in (s, tree, found ∙ ap ok same_line)

  module _ (generate : List ℕ → ℕ) (c : Config) (memory : ℕ) (points : List P) where
    -- A trial's outcome, from the tree of its point.
    Outcome : List (List ℕ × S) → P → ℕ → O → Type 0
    Outcome variants p z x = (s : S) × (tree_of variants p ≡ ok s) × (x ≡ trial s p z)

    run-Outcome :
        (variants : List (List ℕ × S)) (i r : ℕ) {table : List (List O)} {p : P} {z : ℕ}
        → run e swept generate c memory points variants ≡ ok table
        → element points i ≡ ok p
        → r < c.replications
        → seed_of generate c i r ≡ ok z
        → (x : O) × ((row : List O) × (element table i ≡ ok row) × (element row r ≡ ok x))
          × Outcome variants p z x
    unfolding run Outcome tree_of HasSeed
    run-Outcome variants i r {p = p} {z} h at small from = elim (if-ok (memory == 0) _ _ h) [
      | inl no_memory ↦ absurd (no_raise no_memory.1)
      | inr enough ↦ elim (if-ok (length swept == 0) _ _ enough.1) [
        | inl whole ↦
            let (seeds, made, ran) = >>=-eq-ok (run_seeds generate c (length points)) _ whole.1 in
            let (row, found, there) =
              run_seeds-HasSeed generate c (length points) i r made (element-lt points i at) small
                from in
            (
              trial base p z,
              (
                map (trial base p) row,
                run_snapshot-IsPointwise memory c.replications points seeds i ran at found,
                element-map (trial base p) row r there,
              ),
              (base, rw whole.0 refl, refl),
            )
        | inr split ↦
            let (seeds, made, ran) = >>=-eq-ok (seed_table generate c (length points)) _ split.1 in
            let (row, found, there) =
              seed_table-HasSeed generate c (length points) i r made (element-lt points i at) small
                from in
            let (s, tree, line) =
              run_variants-row memory c.replications variants points seeds i ran at found in
            (
              trial s p z,
              (map (trial s p) row, line, element-map (trial s p) row r there),
              (s, rw split.0 tree, refl),
            )
      ]
    ]
      where
        no_raise : {A : Type 0} {a : A} → raise experiment_config_error ≡ ok a → ⊥
        no_raise q = cc

    -- What `select` takes for a trial: its point, and its seed alone.
    Selected : List P × List (List ℕ) → ℕ → ℕ → Type 0
    Selected chosen k t =
        (p : P) × (z : ℕ) × (element points (t / c.replications) ≡ ok p)
        × (seed_of generate c (t / c.replications) (t % c.replications) ≡ ok z)
        × (element chosen.0 k ≡ ok p)
        × (element chosen.1 k ≡ ok (z ∷ []))

    select-Selected :
        (trials : List ℕ) (k : ℕ) {t : ℕ} {chosen : List P × List (List ℕ)}
        → select e swept generate c memory points trials ≡ ok chosen
        → element trials k ≡ ok t
        → Selected chosen k t
    unfolding select Selected
    select-Selected [] k h at = cc
    select-Selected (u ∷ trials) zero {t} h at =
        let (p, e1, h1) = >>=-eq-ok (element points (u / c.replications)) _ h in
        let (z, e2, h2) =
          >>=-eq-ok (seed_of generate c (u / c.replications) (u % c.replications)) _ h1 in
        let (rest, e3, h3) = >>=-eq-ok (select e swept generate c memory points trials) _ h2 in
        rw (← ok_injective h3, ← ok_injective at) (p, z, e1, e2, refl, refl)
    select-Selected (u ∷ trials) (suc k) h at =
        let (p, e1, h1) = >>=-eq-ok (element points (u / c.replications)) _ h in
        let (z, e2, h2) =
          >>=-eq-ok (seed_of generate c (u / c.replications) (u % c.replications)) _ h1 in
        let (rest, e3, h3) = >>=-eq-ok (select e swept generate c memory points trials) _ h2 in
        let (q, y, one_point, one_seed, there, there') = select-Selected trials k e3 at in
        rw (← ok_injective h3) (q, y, one_point, one_seed, there, there')

    -- If there is a replication and `run` and `only` both return, `only` yields for each selected trial one outcome, and it is
    -- the outcome that `run` has for that trial: in the row of the point that the trial's number
    -- selects, at its replication.
    pub only-rerun :
        (variants : List (List ℕ × S)) (trials : List ℕ) (k : ℕ) {t : ℕ}
        {whole part : List (List O)}
        → 0 < c.replications
        → run e swept generate c memory points variants ≡ ok whole
        → only e swept generate c memory points variants trials ≡ ok part
        → element trials k ≡ ok t
        → (x : O) × (element part k ≡ ok (x ∷ []))
          × ((row : List O) × (element whole (t / c.replications) ≡ ok row)
              × (element row (t % c.replications) ≡ ok x))
    unfolding only Outcome tree_of Selected
    only-rerun variants trials k {t} {part = part} positive ran reran at =
        let bad =
          length trials == 0
          || not (
              all_below e swept generate c memory points (length points * c.replications) trials) in
        let (_, h1) = >>-eq-ok (raise_if bad experiment_config_error) _ reran in
        let (chosen, taken, h2) = >>=-eq-ok (select e swept generate c memory points trials) _ h1 in
        let (p, z, at_point, at_seed, chosen_point, chosen_seed) =
          select-Selected trials k taken at in
        let (x, place, (s, tree, value)) =
          run-Outcome variants (t / c.replications) (t % c.replications) ran at_point
            (mod-lt t positive) at_seed in
        let once : element part k ≡ ok (trial s p z ∷ []) =
          elim (if-ok (length swept == 0) _ _ h2) [
            | inl all ↦
                run_snapshot-IsPointwise memory 1 chosen.0 chosen.1 k all.1 chosen_point chosen_seed
                ∙ ap (λ r. ok (trial r p z ∷ [])) (tree_of-base variants p tree all.0)
            | inr split ↦
                let (s', tree', line) =
                  run_variants-row memory 1 variants chosen.0 chosen.1 k split.1 chosen_point
                    chosen_seed in
                line
                ∙ ap (λ r. ok (trial r p z ∷ []))
                    (ok_injective (sym tree' ∙ tree_of-find variants p tree split.0))
          ] in
        (x, once ∙ ap (λ y. ok (y ∷ [])) (sym value), place)
