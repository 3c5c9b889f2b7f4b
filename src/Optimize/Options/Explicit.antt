-- ===== src/Optimize/Options/Explicit.antt =====
-- The explicit evaluation of values of the decisions.
use cimba_python.Base.{
  ℕ, ◌≡◌, refl, ap, ◌⊎◌, inl, inr, Bool, false, Option, List, [], ◌∷◌, map, Result, Error, ok,
  raise, value_error, trials_failed, ◌>>=◌, collect,
}
use cimba_python.Optimize.{OnFailure}
use cimba_python.Optimize.Cached.{Coherent, evaluate-IsEvaluated}
use cimba_python.Optimize.Options.{
  Argument, is_empty, options, evaluate_candidates, evaluate_values,
}

module _ {V C E : Type 0} (dec : Discrete C) (simulate : C → E) (candidate : V → Result C)
    (run_batch : List C → Result (List E)) (failed finite : E → Bool)
    (pointwise : (new : List C) (xs : List E) → run_batch new ≡ ok xs → xs ≡ map simulate new) where
  -- The values have candidates, of which there are some, and the results are their evaluations.
  abbrev pub AreEvaluations : List V → List E → Type 0
  AreEvaluations values xs =
      (candidates : List C) × (collect candidate values ≡ ok candidates)
      × (is_empty candidates ≡ false)
      × (xs ≡ map simulate candidates)

  -- The cache that is left holds evaluations, and the values are evaluated, or an error is raised.
  abbrev pub IsOutcome : List V → Result (List E) × List (C × E) → Type 0
  IsOutcome values r =
      Coherent dec simulate r.1
      × (((xs : List E) × (r.0 ≡ ok xs) × AreEvaluations values xs)
          ⊎ ((error : Error) × (r.0 ≡ raise error)))

  evaluate_candidates-IsOutcome :
      (mode : OnFailure) (values : List V) (candidates : List C) (cache : List (C × E))
      → Coherent dec simulate cache
      → collect candidate values ≡ ok candidates
      → IsOutcome values
          (evaluate_candidates dec candidate run_batch failed finite mode candidates cache)
  unfolding evaluate_candidates
  evaluate_candidates-IsOutcome mode values [] cache h q = (h, inr (value_error, refl))
  evaluate_candidates-IsOutcome mode values (c ∷ cs) cache h q =
      let (evaluated, coherent) =
        evaluate-IsEvaluated dec simulate run_batch failed finite pointwise mode (c ∷ cs) cache h in
      (
        coherent,
        elim evaluated [
          | inl (rows, n, e, _, _) ↦
              inl (map simulate (c ∷ cs), ap first_of e, (c ∷ cs, q, refl, refl))
          | inr (inl (stop, _, _)) ↦ inr (trials_failed, ap first_of stop)
          | inr (inr (error, _, stop, _)) ↦ inr (error, ap first_of stop)
        ],
      )
    where
      first_of : Result (List E × List (C × E × Bool) × ℕ) → Result (List E)
      first_of r = r >>= λ found. ok found.0

  -- If a batch that returns has for each candidate in turn its own evaluation, and the cache holds
  -- evaluations, `Optimization.evaluate` leaves such a cache, whatever it returns or raises; and where
  -- it returns, every value has a candidate, there is one at least, and the results are the
  -- candidates' own evaluations, in the order of the values.
  pub evaluate_values-IsOutcome :
      (workers : Option Argument) (input_memory : Argument) (on_failure : Option OnFailure)
      (values : List V) (cache : List (C × E))
      → Coherent dec simulate cache
      → IsOutcome values (
          evaluate_values dec candidate run_batch failed finite workers input_memory on_failure
            values cache)
  unfolding evaluate_values
  evaluate_values-IsOutcome workers input_memory on_failure values cache h =
      by_options (options workers input_memory on_failure)
    where
      by_candidates :
          (mode : OnFailure) (o : Result (List C))
          → collect candidate values ≡ o
          → IsOutcome values (elim o [
            | raise e ↦ (raise e, cache)
            | ok candidates ↦
                evaluate_candidates dec candidate run_batch failed finite mode candidates cache
          ])
      by_candidates mode (raise e) q = (h, inr (e, refl))
      by_candidates mode (ok candidates) q =
          evaluate_candidates-IsOutcome mode values candidates cache h q

      by_options :
          (o : Result OnFailure)
          → IsOutcome values (elim o [
            | raise e ↦ (raise e, cache)
            | ok mode ↦ elim (collect candidate values) [
              | raise e ↦ (raise e, cache)
              | ok candidates ↦
                  evaluate_candidates dec candidate run_batch failed finite mode candidates cache
            ]
          ])
      by_options (raise e) = (h, inr (e, refl))
      by_options (ok mode) = by_candidates mode (collect candidate values) refl
