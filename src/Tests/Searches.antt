-- ===== src/Tests/Searches.antt =====
-- A search over numbered candidates, with a budget of five.
use cimba_python.Base.{
  ℕ, ◌*◌, ◌≤◌, ◌≡◌, refl, Bool, true, false, none, some, List, [], ◌∷◌, ok, arith, raise,
  value_error, optimization_error, Result, map, length, ltb, if◌then◌else◌, ok_injective, ◌+◌,
  ℕ_discrete, ite, sym,
}
use cimba_python.Optimize.{OnFailure, Search, find, evaluate, search, population_size}
use cimba_python.Optimize.Cached.{Coherent, IsEvaluated, evaluate-IsEvaluated}
use cimba_python.Base.Int.{pos}
use cimba_python.Optimize.Options.{Argument, evaluate_values}
use cimba_python.Optimize.Options.Explicit.{IsOutcome, evaluate_values-IsOutcome}
use cimba_python.Optimize.Budget.{search-within_budget}

abbrev square : ℕ → ℕ
square c = c * c

-- The objective of the host refuses batches of more than five.
abbrev squares : List ℕ → Result (List ℕ)
squares cs = if ltb 5 (length cs) then raise optimization_error else ok (map square cs)

squares-pointwise : (new xs : List ℕ) → squares new ≡ ok xs → xs ≡ map square new
squares-pointwise new xs h = pick (ltb 5 (length new)) h
  where
    pick :
        (b : Bool)
        → (if b then raise optimization_error else ok (map square new)) ≡ ok xs
        → xs ≡ map square new
    pick true q = cc
    pick false q = sym (ok_injective q)

abbrev never : ℕ → Bool
never x = false

abbrev always : ℕ → Bool
always x = true

abbrev seen : List (ℕ × ℕ)
seen = (3, 9) ∷ []

seen-Coherent : Coherent ℕ_discrete square seen
unfolding find
seen-Coherent c x e = of_three (ℕ_discrete 3 c) e
  where
    some_injective : some 9 ≡ some x → 9 ≡ x
    some_injective q = cc

    of_three : (d : Dec (3 ≡ c)) → ite d (some 9) none ≡ some x → x ≡ square c
    of_three (yes p) q = rw (← p) (sym (some_injective q))
    of_three (no n) q = cc

-- Two fresh candidates and a known one, then a single fresh one; a third call would not fit.
abbrev calls : List (List ℕ)
calls = (1 ∷ 2 ∷ 3 ∷ []) ∷ (2 ∷ 4 ∷ 2 ∷ []) ∷ (5 ∷ 6 ∷ 7 ∷ []) ∷ []

abbrev reached : Search ℕ_discrete squares never always
reached = record { started = true; simulated = 3; cache = (3, 9) ∷ (1, 1) ∷ (2, 4) ∷ (4, 16) ∷ [] }

within_five :
    search ℕ_discrete squares never always OnFailure.reject
      (some 5)
      3
      calls
      (record { started = false; simulated = 0; cache = seen })
    ≡ ok reached
unfolding search ℕ_discrete
within_five = refl

search-within_budget_example : (3 ≤ 5) × (length reached.cache ≡ 1 + 3)
search-within_budget_example =
    search-within_budget ℕ_discrete square squares never always squares-pointwise OnFailure.reject 5
      3 seen {end = reached} calls (omega arith) (omega arith, (omega arith, (omega arith, tt)))
      seen-Coherent within_five

evaluate-IsEvaluated_example :
    IsEvaluated ℕ_discrete square squares never always OnFailure.raising
      (3 ∷ 4 ∷ 3 ∷ [])
      seen
      (evaluate ℕ_discrete squares never always OnFailure.raising (3 ∷ 4 ∷ 3 ∷ []) seen)
    × Coherent ℕ_discrete square
        (evaluate ℕ_discrete squares never always OnFailure.raising (3 ∷ 4 ∷ 3 ∷ []) seen).1
evaluate-IsEvaluated_example =
    evaluate-IsEvaluated ℕ_discrete square squares never always squares-pointwise OnFailure.raising
      (3 ∷ 4 ∷ 3 ∷ []) seen seen-Coherent

refuses_six :
    evaluate ℕ_discrete squares never always OnFailure.ignore (1 ∷ 2 ∷ 3 ∷ 4 ∷ 5 ∷ 6 ∷ 7 ∷ []) seen
    ≡ (raise optimization_error, seen)
unfolding evaluate ℕ_discrete
refuses_six = refl

-- A decision takes values below ten.
abbrev below_ten : ℕ → Result ℕ
below_ten v = if ltb v 10 then ok v else raise value_error

evaluates_three :
    evaluate_values ℕ_discrete below_ten squares never always none
      (Argument.integral (pos 4096))
      (some OnFailure.reject)
      (3 ∷ 4 ∷ 3 ∷ [])
      seen
    ≡ (ok (9 ∷ 16 ∷ 9 ∷ []), (3, 9) ∷ (4, 16) ∷ [])
unfolding evaluate_values ℕ_discrete
evaluates_three = refl

evaluate_values-IsOutcome_example :
    IsOutcome ℕ_discrete square below_ten squares never always squares-pointwise (3 ∷ 4 ∷ 3 ∷ []) (
      evaluate_values ℕ_discrete below_ten squares never always none
        (Argument.integral (pos 4096))
        (some OnFailure.reject)
        (3 ∷ 4 ∷ 3 ∷ [])
        seen)
evaluate_values-IsOutcome_example =
    evaluate_values-IsOutcome ℕ_discrete square below_ten squares never always squares-pointwise
      none (Argument.integral (pos 4096)) (some OnFailure.reject) (3 ∷ 4 ∷ 3 ∷ []) seen
      seen-Coherent

sobol_sizes : population_size false true 4 15 ≡ 64
unfolding population_size
sobol_sizes = refl
