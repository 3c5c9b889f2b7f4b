-- ===== src/Optimize.antt =====
-- cimba/optimize: `Optimization._batch` and `_evaluate`, which reuses the samples of candidates seen
-- before, the evaluations of one search against their budget, and the sizes of
-- cimba/optimize/de.py. What a batch runs, the simulation and the objective of the host, is a
-- parameter, which can raise.
pub mod Fresh
pub mod Cached
pub mod Budget
pub mod Options
use cimba_python.Base.{
  ℕ, zero, suc, ◌+◌, ◌-◌, ◌*◌, ◌^◌, max, Bool, true, false, not, ◌&&◌, ◌||◌, Option, none, some,
  List, [], ◌∷◌, ◌++◌, map, Result, ok, raise, trials_failed, key_error, optimization_error, ◌>>=◌,
  ◌>>◌, raise_if, if◌then◌else◌, ite, ltb, leb, ◌==◌, length, member, unique,
}

-- `on_failure`
pub data OnFailure : Type 0 where
  reject ignore raising : OnFailure

-- `(size - 1).bit_length()` for a size below 2 to the fuel.
unfoldable pub bit_length : ℕ → ℕ → ℕ
bit_length zero n = 0
bit_length (suc fuel) n =
    let rest = bit_length fuel n in if leb (2 ^ fuel) n then suc fuel else rest

-- `population_size`: the strategy's minimum, and a power of two for Sobol's sequence.
unfoldable pub population_size : Bool → Bool → ℕ → ℕ → ℕ
unfolding bit_length
population_size rand2 sobol dimensions popsize =
    let size = max (if rand2 then 6 else 5) (dimensions * popsize) in
    if sobol then 2 ^ bit_length size (size - 1) else size

unfoldable pub any_of : {E : Type 0} → (E → Bool) → List E → Bool
any_of failed [] = false
any_of failed (x ∷ xs) = failed x || any_of failed xs

-- `_raise_failures`, where failures raise.
unfoldable pub raise_failures : {E : Type 0} → (E → Bool) → OnFailure → List E → Result (Unit {0})
unfolding any_of
raise_failures failed raising xs = raise_if (any_of failed xs) trials_failed
raise_failures failed _ xs = ok tt

unfoldable pub get_key : {E : Type 0} → Option E → Result E
get_key none = raise key_error
get_key (some x) = ok x

-- `remaining() < population_size`
unfoldable pub over_budget : Option ℕ → ℕ → ℕ → Bool
over_budget none simulated population = false
over_budget (some total) simulated population = ltb (total - simulated) population

module _ {C E : Type 0} (dec : Discrete C) where
  unfoldable pub find : C → List (C × E) → Option E
  find c [] = none
  find c ((d, x) ∷ cache) = ite (dec d c) (some x) (find c cache)

  unfoldable pub known : C → List (C × E) → Bool
  unfolding find
  known c cache = elim (find c cache) [ none ↦ false | some x ↦ true ]

  -- The candidates that are not in the cache.
  unfoldable pub not_known : List (C × E) → List C → List C
  unfolding known
  not_known cache [] = []
  not_known cache (c ∷ cs) =
      let rest = not_known cache cs in if known c cache then rest else c ∷ rest

  unfoldable pub insert : C → E → List (C × E) → List (C × E)
  insert c x [] = (c, x) ∷ []
  insert c x ((d, y) ∷ cache) = ite (dec d c) ((d, x) ∷ cache) ((d, y) ∷ insert c x cache)

  -- `tuple(self._cache[candidate] for candidate in candidates)`
  unfoldable pub read_all : List (C × E) → List C → Result (List E)
  unfolding find get_key
  read_all cache [] = ok []
  read_all cache (c ∷ cs) = do x ← get_key (find c cache); rest ← read_all cache cs; ok (x ∷ rest)

  -- The rows of the history, each marked if its candidate was seen before.
  unfoldable pub history_rows : List C → List C → List E → List (C × E × Bool)
  unfolding member
  history_rows seen [] xs = []
  history_rows seen (c ∷ cs) [] = []
  history_rows seen (c ∷ cs) (x ∷ xs) = (c, x, member dec c seen) ∷ history_rows (c ∷ seen) cs xs

  -- `self._cache.update(zip(new, evaluations))`
  unfoldable pub update : List (C × E) → List C → List E → List (C × E)
  unfolding insert
  update cache [] xs = cache
  update cache (c ∷ new) [] = cache
  update cache (c ∷ new) (x ∷ xs) = update (insert c x cache) new xs

  module _ (run_batch : List C → Result (List E)) (failed finite : E → Bool) where
    -- `_batch`: the evaluations, and how many candidates were simulated for them.
    unfoldable pub batch : OnFailure → List C → Result (List E × ℕ)
    unfolding raise_failures
    batch mode new = do xs ← run_batch new; raise_failures failed mode xs; ok (xs, length new)

    -- `if new:`
    unfoldable pub batch_new : OnFailure → List C → Result (List E × ℕ)
    unfolding batch
    batch_new mode [] = ok ([], 0)
    batch_new mode (c ∷ new) = batch mode (c ∷ new)

    -- What follows the batch: the evaluations, the rows, and how many were simulated.
    unfoldable pub finish :
        OnFailure
        → List C
        → ℕ
        → List (C × E)
        → List (C × E)
        → Result (List E × List (C × E × Bool) × ℕ)
    unfolding read_all raise_failures history_rows
    finish mode candidates simulated before cache = do
      xs ← read_all cache candidates
      raise_failures failed mode xs
      ok (xs, history_rows (map (λ p. p.0) before) candidates xs, simulated)

    -- `_evaluate`: the result, and the cache that it leaves.
    unfoldable pub evaluate :
        OnFailure → List C → List (C × E) → Result (List E × List (C × E × Bool) × ℕ) × List (C × E)
    unfolding unique not_known batch_new update finish
    evaluate mode candidates cache =
        let new = not_known cache (unique dec [] candidates) in
        elim (batch_new mode new) [
          | raise e ↦ (raise e, cache)
          | ok b ↦ (finish mode candidates b.1 cache (update cache new b.0), update cache new b.0)
        ]

    -- The state of one search.
    pub record Search : Type 0 where
      pub started : Bool
      pub simulated : ℕ
      pub cache : List (C × E)

    -- `evaluate` inside `run`: none is the stop for the budget. `budget` is `evaluations`.
    unfoldable pub search_step : OnFailure → Option ℕ → ℕ → List C → Search → Result (Option Search)
    unfolding evaluate over_budget
    search_step mode budget population candidates s =
        if s.started && over_budget budget s.simulated population
        then ok none
        else (let (result, cache) = evaluate mode candidates s.cache in
            result >>= λ found.
            (raise_if (not s.started && not (any_of finite found.0)) optimization_error
              >> ok (
                  some
                    (record { started = true; simulated = s.simulated + found.2; cache = cache }))))

    -- The calls of one search in turn, up to the first stop.
    unfoldable pub search : OnFailure → Option ℕ → ℕ → List (List C) → Search → Result Search
    unfolding search_step
    search mode budget population [] s = ok s
    search mode budget population (candidates ∷ calls) s =
        search_step mode budget population candidates s >>= λ next. elim next [
          | none ↦ ok s
          | some t ↦ search mode budget population calls t
        ]
