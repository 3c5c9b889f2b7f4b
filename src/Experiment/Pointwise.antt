-- ===== src/Experiment/Pointwise.antt =====
-- cimba/experiments/run.py: every trial of a run on variants yields what its own tree yields.
use cimba_python.Base.{
  raise_if-ok, ok_injective, ℕ, suc, ◌+◌, ◌<◌, ◌≡◌, refl, ap, ◌∙◌, sym, ◌⊎◌, inl, inr, not, ◌&&◌,
  ◌||◌, List, [], ◌∷◌, map, ok, raise, experiment_config_error, arith, length, get_or, count,
  ℕ_discrete, All, >>=-eq-ok, >>-eq-ok, raise_if, ◌==◌, Error, dec_lt, subst,
}
use cimba_python.Run.Chunks.{run_core}
use cimba_python.Run.Single.{run_single-run_core}
use cimba_python.Base.{element, gather, collect}
use cimba_python.Experiment.Variants.{
  Setting, find, enumerate, consecutive, rectangular, scatter, run_snapshot, variant_key,
  group_points, run_group, merge, run_variants,
}
use cimba_python.Experiment.Groups.{
  placed, HasKey, IsSorted, group_points-IsSorted, group_points-placed,
}
use cimba_python.Experiment.Tables.{
  map-enumerate, rectangular-IsRectangular, shape_columns, get_or-element, Pairs, Good,
  scatter-Good,
}

module _ (e : Setting) (swept : List ℕ) where
  open e use {P, O, S, trial, row_bytes, validate, nowhere, has_failed, on_failure, interrupts}

  -- `Snapshot.run`, if it returns, yields the outcome of each trial at its place.
  pub run_snapshot-run_core :
      (memory columns : ℕ) (s : S) (points : List (ℕ × P)) (seeds : List (List ℕ))
      {table : List (List O)}
      → run_snapshot e swept memory columns s points seeds ≡ ok table
      → table ≡ run_core (λ i. trial s (get_or (map (λ p. p.1) points) i nowhere)) 0 seeds
  unfolding run_snapshot
  run_snapshot-run_core memory columns s points seeds h =
      let bad = not (length seeds == length points && rectangular columns seeds) || columns == 0 in
      let (_, h1) = >>-eq-ok (raise_if (memory == 0) experiment_config_error) _ h in
      let (shape, h2) = >>-eq-ok (raise_if bad experiment_config_error) _ h1 in
      let (_, h3) = >>-eq-ok (raise_if (length points == 0) experiment_config_error) _ h2 in
      let (_, h4) = >>-eq-ok (raise_if (not (consecutive 0 points)) experiment_config_error) _ h3 in
      let (_, h5) = >>-eq-ok (validate s (map (λ p. p.1) points)) _ h4 in
      elim (run_single-run_core (λ i. trial s (get_or (map (λ p. p.1) points) i nowhere)) has_failed
        (interrupts s (map (λ p. p.1) points) seeds) on_failure
        (row_bytes s (map (λ p. p.1) points) seeds) memory columns seeds
        (rectangular-IsRectangular columns seeds (shape_columns _ _ _ (raise_if-ok bad _ shape)))) [
          | inl whole ↦ ok_injective (sym h5 ∙ whole.0)
          | inr (_, stop, _) ↦ absurd (no_raise (sym h5 ∙ stop))
        ]
    where
      no_raise : {A : Type 0} {a : A} {x : Error} → ok a ≡ raise x → ⊥
      no_raise e = cc

  module _ (memory columns : ℕ) (variants : List (List ℕ × S)) (points : List P)
      (seeds : List (List ℕ)) where
    -- The row is what the point's own tree yields for the point's seeds.
    abbrev pub Correct : ℕ → List O → Type 0
    Correct i row =
        (p : P) (own : List ℕ)
        → element points i ≡ ok p
        → element seeds i ≡ ok own
        → (s : S) × (find (variant_key e swept p) variants ≡ ok s) × (row ≡ map (trial s p) own)

    run_core-Correct :
        (s : S) (key : List ℕ) (f : ℕ → ℕ → O) (k : ℕ) (is : List ℕ) {chosen : List P}
        {own : List (List ℕ)}
        → find key variants ≡ ok s
        → All (HasKey e swept points key) is
        → gather points is ≡ ok chosen
        → gather seeds is ≡ ok own
        → ((j : ℕ) (p : P) → element chosen j ≡ ok p → f (k + j) ≡ trial s p)
        → Pairs Correct is (run_core f k own)
    unfolding gather run_core
    run_core-Correct s key f k [] found keys g1 g2 h = tt
    run_core-Correct s key f k (i ∷ is) {chosen} {own} found keys g1 g2 h =
        let (p, at, g1') = >>=-eq-ok (element points i) _ g1 in
        let (ps, rest, e1) = >>=-eq-ok (gather points is) _ g1' in
        let (row, at', g2') = >>=-eq-ok (element seeds i) _ g2 in
        let (rows, rest', e2) = >>=-eq-ok (gather seeds is) _ g2' in
        let follows : (j : ℕ) (q : P) → element (p ∷ ps) j ≡ ok q → f (k + j) ≡ trial s q =
          λ j q at''. h j q (subst (λ all. element all j ≡ ok q) (ok_injective e1) at'') in
        rw (← ok_injective e2) (
          λ q own' atq atown. (
            s,
            ap (λ key. find key variants) (same_key (sym (keys.0.1) ∙ atq) keys.0.2) ∙ found,
            ap (λ g. map g row) (ap f (plus_zero k) ∙ follows 0 p refl)
                ∙ ap (λ r. map (trial s r) row) (ok_injective (sym at ∙ atq))
                ∙ ap (map (trial s q)) (ok_injective (sym at' ∙ atown)),
          ),
          run_core-Correct s key f (suc k) is found keys.1 rest rest'
              (λ j q at''. ap f (plus_suc k j) ∙ follows (suc j) q at''),
        )
      where
        plus_zero : (n : ℕ) → n ≡ n + 0
        plus_zero n = omega arith

        plus_suc : (m n : ℕ) → suc m + n ≡ m + suc n
        plus_suc m n = omega arith

        same_key :
            {p q : P} → ok p ≡ ok q → variant_key e swept p ≡ key → variant_key e swept q ≡ key
        same_key eq k = rw (← ok_injective eq) k

    run_group-Correct :
        (g : List ℕ × List ℕ) {rows : List (List O)}
        → All (HasKey e swept points g.0) g.1
        → run_group e swept memory columns variants points seeds g ≡ ok rows
        → Pairs Correct g.1 rows
    unfolding run_group
    run_group-Correct g keys h =
        let (s, found, h1) = >>=-eq-ok (find g.0 variants) _ h in
        let (chosen, g1, h2) = >>=-eq-ok (gather points g.1) _ h1 in
        let (own, g2, h3) = >>=-eq-ok (gather seeds g.1) _ h2 in
        rw
          (
            run_snapshot-run_core memory columns s (enumerate 0 chosen) own h3,
            map-enumerate 0 chosen,
          )
          (run_core-Correct s g.0 (λ i. trial s (get_or chosen i nowhere)) 0 g.1 found keys g1 g2
            (λ j p at. ap (trial s) (get_or-element chosen (0 + j) nowhere (rw (zero_plus j) at))))
      where
        zero_plus : (n : ℕ) → 0 + n ≡ n
        zero_plus n = omega arith

    merge-Good :
        (groups : List (List ℕ × List ℕ)) (table : List (List O)) (parts : List (List (List O)))
        (i : ℕ) {next : List (List O)}
        → IsSorted e swept points groups
        → collect (run_group e swept memory columns variants points seeds) groups ≡ ok parts
        → merge e swept memory columns variants points table groups parts ≡ ok next
        → Good Correct table i ⊎ (0 < placed i groups)
        → Good Correct next i
    unfolding merge collect
    merge-Good [] table parts i sorted h m g = elim g [
      | inl old ↦ rw (← ok_injective m) old
      | inr nowhere_placed ↦ absurd (omega arith)
    ]
    merge-Good (gr ∷ groups) table parts i {next} sorted h m g =
        let (part, h1, h') =
          >>=-eq-ok (run_group e swept memory columns variants points seeds gr) _ h in
        let (rest, h2, h3) =
          >>=-eq-ok (collect (run_group e swept memory columns variants points seeds) groups) _
            h' in
        let (first, h4, h5) =
          >>=-eq-ok (scatter table gr.1 part)
            (λ next. merge e swept memory columns variants points next groups rest)
            (subst
              (λ all.
                merge e swept memory columns variants points table (gr ∷ groups) all ≡ ok next)
              (sym (ok_injective h3)) m) in
        let write = scatter-Good Correct table gr.1 part i h4 (run_group-Correct gr sorted.0 h1) in
        merge-Good groups first rest i sorted.1 h2 h5 (elim g [
          | inl old ↦ inl (write (inl old))
          | inr found ↦ elim (dec_lt 0 (count ℕ_discrete i gr.1)) [
            | yes here ↦ inl (write (inr here))
            | no other ↦ inr (omega arith)
          ]
        ])

    -- If a run on variants returns, the row of every point holds, for each of its seeds, what the
    -- tree that the point's options select yields for what the point binds.
    pub run_variants-IsPointwise :
        {table : List (List O)} (i : ℕ)
        → run_variants e swept memory columns variants points seeds ≡ ok table
        → i < length points
        → Good Correct table i
    unfolding run_variants
    run_variants-IsPointwise i h small =
        let (parts, ran, h1) =
          >>=-eq-ok
            (collect (run_group e swept memory columns variants points seeds)
              (group_points e swept 0 points []))
            _ h in
        merge-Good (group_points e swept 0 points []) _ parts i
          (group_points-IsSorted e swept points) ran h1
          (inr (group_points-placed e swept points i small))
