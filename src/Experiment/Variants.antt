-- ===== src/Experiment/Variants.antt =====
-- cimba/experiments/run.py and snapshot.py: `Snapshot.run`, `_build_variants`, `_run_variants`,
-- `_merge`, `only` and `run`. A snapshot's trial maps what a point binds and a seed to the outcome,
-- since the native engine runs each trial block on its own.
use cimba_python.Base.{
  ℕ, zero, suc, ◌*◌, ◌/◌, ◌%◌, Bool, true, false, not, ◌&&◌, ◌||◌, Option, Error, List, [], ◌∷◌,
  ◌++◌, map, Result, ok, raise, experiment_config_error, index_error, key_error, ◌>>=◌, ◌>>◌,
  raise_if, if◌then◌else◌, ite, ltb, ◌==◌, length, get_or, ℕ_discrete,
}
use cimba_python.Run.Chunks.{FailureMode, run_single}
use cimba_python.Base.{element, gather, collect, broadcast}
use cimba_python.Experiment.{Config, seed_of, seed_table, run_seeds}

-- A variant is keyed by the identities of the options that it selects.
unfoldable pub List-discrete : Discrete (List ℕ)
List-discrete = hlevel ℕ_discrete

-- The environment of an experiment: its points, outcomes and snapshots.
pub record Setting : Type 1 where
  pub P : Type 0
  pub O : Type 0
  pub S : Type 0
  -- What a snapshot's trial yields from a point and a seed.
  pub trial : S → P → ℕ → O
  -- Whether a trial has failed, what failures do, and what the preparation of a snapshot's executions
  -- raises.
  pub has_failed : O → Bool
  pub on_failure : FailureMode
  pub interrupts : S → List P → List (List ℕ) → ℕ → Option Error
  -- The bytes of the input rows of one replication.
  pub row_bytes : S → List P → List (List ℕ) → ℕ
  -- `Snapshot.validate`
  pub validate : S → List P → Result (Unit {0})
  -- `id(point.bindings[swept])`
  pub identity : P → ℕ → ℕ
  -- `Snapshot(Assembly.of(model, picks=picks), window)`
  pub assemble : P → Result S
  -- The snapshot of the whole tree.
  pub base : S
  -- What stands beyond the last point.
  pub nowhere : P
  -- What a merged result holds where no part writes.
  pub absent : O

-- A dictionary keyed by options.
unfoldable pub find {ℓ} : {A : Type ℓ} → List ℕ → List (List ℕ × A) → Result A
find k [] = raise key_error
find k ((k', a) ∷ m) = ite (List-discrete k' k) (ok a) (find k m)

unfoldable pub has_key {ℓ} : {A : Type ℓ} → List ℕ → List (List ℕ × A) → Bool
has_key k [] = false
has_key k ((k', a) ∷ m) = ite (List-discrete k' k) true (has_key k m)

-- `enumerate`
unfoldable pub enumerate {ℓ} : {A : Type ℓ} → ℕ → List A → List (ℕ × A)
enumerate i [] = []
enumerate i (a ∷ rest) = (i, a) ∷ enumerate (suc i) rest

unfoldable pub consecutive {ℓ} : {A : Type ℓ} → ℕ → List (ℕ × A) → Bool
consecutive i [] = true
consecutive i (p ∷ ps) = (p.0 == i) && consecutive (suc i) ps

unfoldable pub rectangular : ℕ → List (List ℕ) → Bool
rectangular n [] = true
rectangular n (row ∷ rows) = (length row == n) && rectangular n rows

-- `groups.setdefault(key, []).append(position)`
unfoldable pub add_position : List ℕ → ℕ → List (List ℕ × List ℕ) → List (List ℕ × List ℕ)
add_position k i [] = (k, i ∷ []) ∷ []
add_position k i ((k', is) ∷ groups) =
    ite (List-discrete k' k) ((k', is ++ i ∷ []) ∷ groups) ((k', is) ∷ add_position k i groups)

-- `table[i] = row`
unfoldable pub assign {ℓ} : {A : Type ℓ} → List A → ℕ → A → Result (List A)
assign [] i row = raise index_error
assign (r ∷ table) zero row = ok (row ∷ table)
assign (r ∷ table) (suc i) row = do rest ← assign table i row; ok (r ∷ rest)

-- `merged[positions] = part`
unfoldable pub scatter {ℓ} : {A : Type ℓ} → List A → List ℕ → List A → Result (List A)
unfolding assign
scatter table [] rows = ok table
scatter table (i ∷ is) [] = ok table
scatter table (i ∷ is) (row ∷ rows) = do next ← assign table i row; scatter next is rows

module _ (e : Setting) (swept : List ℕ) where
  open e use {
    P, O, S, trial, row_bytes, validate, identity, assemble, base, nowhere, absent, has_failed,
    on_failure, interrupts,
  }

  -- `Snapshot.run`, of seeds with a number of columns.
  unfoldable pub run_snapshot : ℕ → ℕ → S → List (ℕ × P) → List (List ℕ) → Result (List (List O))
  unfolding consecutive rectangular run_single
  run_snapshot memory columns s points seeds = do
    raise_if (memory == 0) experiment_config_error
    raise_if (not (length seeds == length points && rectangular columns seeds) || columns == 0)
        experiment_config_error
    raise_if (length points == 0) experiment_config_error
    raise_if (not (consecutive 0 points)) experiment_config_error
    validate s (map (λ p. p.1) points)
    run_single (λ i. trial s (get_or (map (λ p. p.1) points) i nowhere)) has_failed
        (interrupts s (map (λ p. p.1) points) seeds) on_failure
        (row_bytes s (map (λ p. p.1) points) seeds) memory columns seeds

  -- `_variant_key`
  unfoldable pub variant_key : P → List ℕ
  variant_key p = map (identity p) swept

  unfoldable pub add_variants : List P → List (List ℕ × S) → Result (List (List ℕ × S))
  unfolding has_key variant_key
  add_variants [] variants = ok variants
  add_variants (p ∷ points) variants =
      if has_key (variant_key p) variants
      then add_variants points variants
      else (assemble p >>= λ s. add_variants points (variants ++ (variant_key p, s) ∷ []))

  -- `_build_variants`: nothing without a swept structure.
  unfoldable pub build_variants : List P → Result (List (List ℕ × S))
  unfolding add_variants
  build_variants points = if length swept == 0 then ok [] else add_variants points []

  unfoldable pub group_points : ℕ → List P → List (List ℕ × List ℕ) → List (List ℕ × List ℕ)
  unfolding add_position variant_key
  group_points i [] groups = groups
  group_points i (p ∷ points) groups =
      group_points (suc i) points (add_position (variant_key p) i groups)

  module _ (memory columns : ℕ) (variants : List (List ℕ × S)) (points : List P) where
    -- One group on its own model tree, the points numbered anew.
    unfoldable pub run_group : List (List ℕ) → List ℕ × List ℕ → Result (List (List O))
    unfolding find gather enumerate run_snapshot
    run_group seeds g = do
      s ← find g.0 variants
      chosen ← gather points g.1
      own ← gather seeds g.1
      run_snapshot memory columns s (enumerate 0 chosen) own

    -- `_merge` of the rows of one result.
    unfoldable pub merge :
        List (List O) → List (List ℕ × List ℕ) → List (List (List O)) → Result (List (List O))
    unfolding scatter
    merge table [] parts = ok table
    merge table (g ∷ groups) [] = ok table
    merge table (g ∷ groups) (part ∷ parts) = do
      next ← scatter table g.1 part
      merge next groups parts

    -- `_run_variants`
    unfoldable pub run_variants : List (List ℕ) → Result (List (List O))
    unfolding group_points collect run_group merge
    run_variants seeds =
        let groups = group_points 0 points [] in
        do
          parts ← collect (run_group seeds) groups
          merge (broadcast (length points) (broadcast columns absent)) groups parts

  module _ (generate : List ℕ → ℕ) (c : Config) (memory : ℕ) (points : List P) where
    -- `Experiment.run`, with the variants that the constructor built.
    unfoldable pub run : List (List ℕ × S) → Result (List (List O))
    unfolding run_variants seed_table run_seeds run_snapshot enumerate
    run variants =
        if memory == 0
        then raise experiment_config_error
        else if length swept == 0
        then (run_seeds generate c (length points) >>= λ seeds.
            run_snapshot memory c.replications base (enumerate 0 points) seeds)
        else (seed_table generate c (length points) >>= λ seeds.
            run_variants memory c.replications variants points seeds)

    unfoldable pub all_below : ℕ → List ℕ → Bool
    all_below total [] = true
    all_below total (t ∷ trials) = ltb t total && all_below total trials

    -- The points of the selected trials, and one seed for each.
    unfoldable pub select : List ℕ → Result (List P × List (List ℕ))
    unfolding seed_of
    select [] = ok ([], [])
    select (t ∷ trials) = do
      p ← element points (t / c.replications)
      z ← seed_of generate c (t / c.replications) (t % c.replications)
      rest ← select trials
      ok (p ∷ rest.0, (z ∷ []) ∷ rest.1)

    -- `Experiment.only`
    unfoldable pub only : List (List ℕ × S) → List ℕ → Result (List (List O))
    unfolding all_below select run_variants run_snapshot enumerate
    only variants trials = do
      raise_if (length trials == 0 || not (all_below (length points * c.replications) trials))
          experiment_config_error
      chosen ← select trials
      (if length swept == 0
          then run_snapshot memory 1 base (enumerate 0 chosen.0) chosen.1
          else run_variants memory 1 variants chosen.0 chosen.1)
