-- ===== src/Tests/Reruns.antt =====
-- Runs of an experiment whose points select one of two trees.
use cimba_python.Base.{
  ℕ, ◌+◌, ◌*◌, ◌/◌, ◌%◌, ◌≡◌, refl, List, [], ◌∷◌, ok, arith, false, none, ℕ_discrete, element,
}
use cimba_python.Run.Chunks.{FailureMode}
use cimba_python.Experiment.{Config, Seeding, Seeds}
use cimba_python.Experiment.Variants.{Setting, List-discrete, run, only, run_variants}
use cimba_python.Experiment.Pointwise.{run_variants-IsPointwise, Correct}
use cimba_python.Experiment.Rerun.{only-rerun}
use cimba_python.Experiment.Tables.{Good}

-- A point is the number that it binds, which is also the option that it selects; a tree is the
-- number that it adds to a hundred times the point and the seed.
abbrev setting : Setting
setting = record {
  P = ℕ;
  O = ℕ;
  S = ℕ;
  trial = λ s p z. s + 100 * p + z;
  row_bytes = λ s points seeds. 8;
  validate = λ s points. ok tt;
  identity = λ p i. p;
  assemble = λ p. ok (1000 * p);
  base = 0;
  nowhere = 0;
  absent = 0;
  has_failed = λ x. false;
  on_failure = FailureMode.recording;
  interrupts = λ s points seeds n. none;
}

abbrev config : Config
config = record { replications = 2; seed = 7; seeding = Seeding.common; seeds = Seeds.derived }

abbrev hash : List ℕ → ℕ
hash [] = 0
hash (n ∷ ns) = n + hash ns

abbrev variants : List (List ℕ × ℕ)
variants = (1 ∷ [], 1000) ∷ (2 ∷ [], 2000) ∷ []

abbrev points : List ℕ
points = 1 ∷ 2 ∷ 1 ∷ []

abbrev outcomes : List (List ℕ)
outcomes = (1107 ∷ 1108 ∷ []) ∷ (2207 ∷ 2208 ∷ []) ∷ (1107 ∷ 1108 ∷ []) ∷ []

run_all : run setting (5 ∷ []) hash config 64 points variants ≡ ok outcomes
unfolding run List-discrete ℕ_discrete
run_all = refl

abbrev trials : List ℕ
trials = 3 ∷ 0 ∷ []

run_some :
    only setting (5 ∷ []) hash config 64 points variants trials
    ≡ ok ((2208 ∷ []) ∷ (1107 ∷ []) ∷ [])
unfolding only List-discrete ℕ_discrete
run_some = refl

only-rerun_example :
    (x : ℕ) × (element ((2208 ∷ []) ∷ (1107 ∷ []) ∷ []) 0 ≡ ok (x ∷ []))
    × ((row : List ℕ) × (element outcomes (3 / 2) ≡ ok row) × (element row (3 % 2) ≡ ok x))
only-rerun_example =
    only-rerun setting (5 ∷ []) hash config 64 points variants trials 0 (omega arith) run_all
      run_some refl

abbrev seeds : List (List ℕ)
seeds = (7 ∷ 8 ∷ []) ∷ (7 ∷ 8 ∷ []) ∷ (7 ∷ 8 ∷ []) ∷ []

run_split : run_variants setting (5 ∷ []) 64 2 variants points seeds ≡ ok outcomes
unfolding run_variants List-discrete ℕ_discrete
run_split = refl

run_variants-IsPointwise_example :
    Good (Correct setting (5 ∷ []) 64 2 variants points seeds) outcomes 1
run_variants-IsPointwise_example =
    run_variants-IsPointwise setting (5 ∷ []) 64 2 variants points seeds 1 run_split (omega arith)
