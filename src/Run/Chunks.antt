-- ===== src/Run/Chunks.antt =====
-- cimba/experiments/snapshot.py: `Batch._run_single`, which runs the replications in chunks where
-- the input rows do not fit in memory at once. `trial` is what one trial yields from its point and
-- seed: the native engine runs every trial block on its own. What the preparation of an execution
-- raises, of its inputs or by the compiler, is a parameter.
use Prim.Native.String.{String}
use cimba_python.Base.{
  ℕ, zero, suc, ◌+◌, ◌-◌, ◌*◌, ◌/◌, min, max, Bool, Option, none, some, List, [], ◌∷◌, ◌++◌, map,
  Result, ok, raise, experiment_config_error, if◌then◌else◌, ltb, leb, take, drop, count,
  ℕ_discrete, true, false, ◌&&◌, ◌||◌, ◌==◌, ◌>>=◌, ◌>>◌, raise_if, trials_failed, Error,
}
use cimba_python.Base.Text.{String-discrete}

-- A generated source that a field binds, and the rows that the window needs, if it is a series
-- with a finite window.
pub record RowRequest : Type 0 where
  pub source : ℕ
  pub tag : String
  pub length_hint : Option ℕ
  pub max_length : Option ℕ
  pub required : Option ℕ

-- `source.length_hint or 1024`
unfoldable pub hint_or : Option ℕ → ℕ
hint_or none = 1024
hint_or (some zero) = 1024
hint_or (some (suc n)) = suc n

abbrev pub at_least : Option ℕ → ℕ → ℕ
at_least none n = n
at_least (some m) n = max n m

abbrev pub at_most : Option ℕ → ℕ → ℕ
at_most none n = n
at_most (some m) n = min n m

unfoldable pub row_length : RowRequest → ℕ
unfolding hint_or
row_length q = at_most q.max_length (at_least q.required (hint_or q.length_hint))

pub record Size : Type 0 where
  pub source : ℕ
  pub tag : String
  pub rows : ℕ

unfoldable pub Size-discrete : Discrete Size
Size-discrete = hlevel (ℕ_discrete, String-discrete)

-- The keys of `row_sizes`, each once.
unfoldable pub size_keys : List RowRequest → List Size
unfolding row_length
size_keys [] = []
size_keys (q ∷ qs) =
    let k : Size = record { source = q.source; tag = q.tag; rows = row_length q } in
    let rest = size_keys qs in if ltb 0 (count Size-discrete k rest) then rest else k ∷ rest

unfoldable pub total_size : List Size → ℕ
total_size [] = 0
total_size (k ∷ ks) = k.rows * 8 + total_size ks

-- Rows are shared by the points if every point has the same seeds.
unfoldable pub bytes_per_replication : List RowRequest → ℕ → Bool → ℕ
unfolding size_keys total_size
bytes_per_replication qs points common =
    if common then total_size (size_keys qs) else total_size (size_keys qs) * points

unfoldable pub chunk_size : ℕ → ℕ → ℕ
chunk_size memory bytes = max 1 (memory / bytes)

-- `on_failure`: "record", "raise" or another value.
pub data FailureMode : Type 0 where
  recording raising unknown : FailureMode

abbrev pub is_unknown : FailureMode → Bool
is_unknown unknown = true
is_unknown _ = false

abbrev pub is_raising : FailureMode → Bool
is_raising raising = true
is_raising _ = false

abbrev pub interrupted : Option Error → Result (Unit {0})
interrupted none = ok tt
interrupted (some error) = raise error

module _ {O : Type 0} (trial : ℕ → ℕ → O) where
  -- One execution: a row of outcomes for each point, in the order of the seeds.
  unfoldable pub run_core : ℕ → List (List ℕ) → List (List O)
  run_core point [] = []
  run_core point (row ∷ rows) = map (trial point) row ∷ run_core (suc point) rows

  -- `[seeds[replication] for replication in range(start, stop)]`
  abbrev pub slice : ℕ → ℕ → List ℕ → List ℕ
  slice start stop row = take (stop - start) (drop start row)

  -- `for start in range(0, replications, chunk_size)`
  unfoldable pub chunk_loop : ℕ → ℕ → ℕ → ℕ → List (List ℕ) → List (List (List O))
  unfolding run_core
  chunk_loop zero size replications start seeds = []
  chunk_loop (suc fuel) size replications start seeds =
      let stop = min replications (start + size) in
      let rest = chunk_loop fuel size replications (start + size) seeds in
      let here = run_core 0 (map (slice start stop) seeds) in
      if ltb start replications then here ∷ rest else []

  unfoldable pub zip_append : List (List O) → List (List O) → List (List O)
  zip_append [] ys = []
  zip_append (x ∷ xs) [] = []
  zip_append (x ∷ xs) (y ∷ ys) = (x ++ y) ∷ zip_append xs ys

  -- `np.concatenate(chunks, axis=1)`
  unfoldable pub concatenate : List (List (List O)) → List (List O)
  unfolding zip_append
  concatenate [] = []
  concatenate (c ∷ []) = c
  concatenate (c ∷ d ∷ cs) = zip_append c (concatenate (d ∷ cs))

  module _ (has_failed : O → Bool) (interrupts : ℕ → Option Error) where
    unfoldable pub any_outcome : List O → Bool
    any_outcome [] = false
    any_outcome (x ∷ row) = has_failed x || any_outcome row

    -- `failed.any()`
    unfoldable pub any_failed : List (List O) → Bool
    unfolding any_outcome
    any_failed [] = false
    any_failed (row ∷ table) = any_outcome row || any_failed table

    -- The guards of `_run_core` around its executions: the options, what the preparation of the
    -- execution with the given number raises, and the failures of its trials.
    unfoldable pub execute : FailureMode → ℕ → ℕ → List (List O) → Result (List (List O))
    unfolding any_failed
    execute mode memory n table = do
      raise_if (is_unknown mode) experiment_config_error
      raise_if (memory == 0) experiment_config_error
      interrupted (interrupts n)
      raise_if (is_raising mode && any_failed table) trials_failed
      ok table

    -- The executions of the chunks in turn.
    unfoldable pub run_chunks :
        FailureMode → ℕ → ℕ → List (List (List O)) → Result (List (List (List O)))
    unfolding execute
    run_chunks mode memory n [] = ok []
    run_chunks mode memory n (table ∷ tables) = do
      here ← execute mode memory n table
      rest ← run_chunks mode memory (suc n) tables
      ok (here ∷ rest)

    -- `_run_single`
    unfoldable pub run_single : FailureMode → ℕ → ℕ → ℕ → List (List ℕ) → Result (List (List O))
    unfolding chunk_loop run_chunks concatenate chunk_size
    run_single mode bytes memory replications seeds =
        let chunks = chunk_loop replications (chunk_size memory bytes) replications 0 seeds in
        raise_if (is_unknown mode) experiment_config_error
        >> (if leb (bytes * replications) memory
            then execute mode memory 0 (run_core 0 seeds)
            else if ltb memory bytes
            then raise experiment_config_error
            else (run_chunks mode memory 0 chunks >>= λ parts. ok (concatenate parts)))
