-- ===== src/Optimize/Options.antt =====
-- cimba/optimize/study.py: `_positive_integer`, `_options`, the guard of the budget in `run`, and
-- `Optimization.evaluate`, the explicit evaluation of values of the decisions.
pub mod Explicit
use cimba_python.Base.{
  ℕ, Bool, true, false, Option, none, some, List, [], ◌∷◌, Result, ok, raise, raise_if, value_error,
  experiment_config_error, ◌>>=◌, ◌>>◌, if◌then◌else◌, ltb, collect,
}
use cimba_python.Base.Int.{ℤ, pos, negsuc}
use cimba_python.Optimize.{OnFailure, evaluate}

-- An argument of the host: an integer, or another value. A bool counts as another value.
pub data Argument : Type 0 where
  integral : ℤ → Argument
  other : Argument

-- `_positive_integer`
unfoldable pub positive_integer : ℕ → Argument → Result ℕ
positive_integer minimum (integral (pos n)) =
    if ltb n minimum then raise experiment_config_error else ok n
positive_integer minimum (integral (negsuc n)) = raise experiment_config_error
positive_integer minimum other = raise experiment_config_error

abbrev pub check_workers : Option Argument → Result (Unit {0})
check_workers none = ok tt
check_workers (some workers) = positive_integer 1 workers >>= λ n. ok tt

abbrev pub known_mode : Option OnFailure → Result OnFailure
known_mode none = raise experiment_config_error
known_mode (some mode) = ok mode

-- `_options`: the mode of failures is none where the value is not one of the three.
unfoldable pub options : Option Argument → Argument → Option OnFailure → Result OnFailure
unfolding positive_integer
options workers input_memory on_failure = do
  check_workers workers
  memory ← positive_integer 1 input_memory
  known_mode on_failure

abbrev pub is_empty : {C : Type 0} → List C → Bool
is_empty [] = true
is_empty (c ∷ cs) = false

module _ {V C E : Type 0} (dec : Discrete C) (candidate : V → Result C)
    (run_batch : List C → Result (List E)) (failed finite : E → Bool) where
  -- What follows the candidates: the evaluations only, and the cache.
  unfoldable pub evaluate_candidates :
      OnFailure → List C → List (C × E) → Result (List E) × List (C × E)
  unfolding evaluate
  evaluate_candidates mode candidates cache =
      if is_empty candidates
      then (raise value_error, cache)
      else (let r = evaluate dec run_batch failed finite mode candidates cache in
          (r.0 >>= λ found. ok found.0, r.1))

  -- `Optimization.evaluate`: the result, and the cache that it leaves.
  unfoldable pub evaluate_values :
      Option Argument
      → Argument
      → Option OnFailure
      → List V
      → List (C × E)
      → Result (List E) × List (C × E)
  unfolding options collect evaluate_candidates
  evaluate_values workers input_memory on_failure values cache =
      elim (options workers input_memory on_failure) [
        | raise e ↦ (raise e, cache)
        | ok mode ↦ elim (collect candidate values) [
          | raise e ↦ (raise e, cache)
          | ok candidates ↦ evaluate_candidates mode candidates cache
        ]
      ]
