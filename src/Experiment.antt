-- ===== src/Experiment.antt =====
-- cimba/experiments/run.py: the seeds of the trials, the choice of trials to run again, and runs
-- whose points select different model trees. A point is what it binds; `trial_seed` hashes with
-- NumPy's SeedSequence, which is the parameter `generate`.
pub mod Variants
pub mod Groups
pub mod Tables
pub mod Pointwise
pub mod Rerun
use cimba_python.Base.{
  ℕ, zero, suc, ◌+◌, ◌*◌, ◌/◌, ◌%◌, Bool, true, false, Option, none, some, List, [], ◌∷◌, ◌++◌, map,
  Result, ok, raise, experiment_config_error, index_error, value_error, ◌>>=◌, ◌>>◌, raise_if,
  if◌then◌else◌, ltb, leb, length, get_elem?, ℕ_discrete, element, gather, collect, range_from,
  broadcast,
}

-- `seeding`: any other word is refused.
pub data Seeding : Type 0 where
  common independent other_word : Seeding

-- `seeds`: not given, one for each replication, or one for each trial.
pub data Seeds : Type 0 where
  derived : Seeds
  shared : List ℕ → Seeds
  each : List (List ℕ) → Seeds

pub record Config : Type 0 where
  pub replications : ℕ
  pub seed : ℕ
  pub seeding : Seeding
  pub seeds : Seeds

module _ (generate : List ℕ → ℕ) where
  -- `trial_seed`
  unfoldable pub trial_seed : ℕ → ℕ → ℕ → Seeding → Result ℕ
  trial_seed seed replication point common = ok (generate (seed ∷ replication ∷ []))
  trial_seed seed replication point independent = ok (generate (seed ∷ replication ∷ point ∷ []))
  trial_seed seed replication point other_word = raise value_error

  unfoldable pub seed_from : Config → Seeds → ℕ → ℕ → Result ℕ
  unfolding trial_seed
  seed_from c derived point replication = trial_seed c.seed replication point c.seeding
  seed_from c (shared row) point replication = element row replication
  seed_from c (each rows) point replication = do row ← element rows point; element row replication

  -- `Experiment._seed`
  unfoldable pub seed_of : Config → ℕ → ℕ → Result ℕ
  unfolding seed_from
  seed_of c = seed_from c c.seeds

  -- `[[self._seed(point, r) for r in range(replications)] for point in …]`
  unfoldable pub seed_table : Config → ℕ → Result (List (List ℕ))
  unfolding seed_of collect range_from
  seed_table c points =
      collect (λ p. collect (seed_of c p) (range_from 0 c.replications)) (range_from 0 points)

  unfoldable pub common_or_each : Config → Seeding → ℕ → Result (List (List ℕ))
  unfolding seed_table trial_seed collect range_from
  common_or_each c common points = do
    row ← collect (λ r. trial_seed c.seed r 0 common) (range_from 0 c.replications)
    ok (broadcast points row)
  common_or_each c _ points = seed_table c points

  unfoldable pub seeds_from : Config → Seeds → ℕ → Result (List (List ℕ))
  unfolding common_or_each
  seeds_from c (shared row) points = ok (broadcast points row)
  seeds_from c (each rows) points = ok rows
  seeds_from c derived points = common_or_each c c.seeding points

  -- The seeds of `Experiment.run` where no structure is swept.
  unfoldable pub run_seeds : Config → ℕ → Result (List (List ℕ))
  unfolding seeds_from
  run_seeds c = seeds_from c c.seeds
