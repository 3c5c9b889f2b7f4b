-- ===== src/Optimize/Budget.antt =====
-- cimba/optimize/study.py: a search simulates no more candidates than its budget.
use cimba_python.Base.{
  ℕ, ◌+◌, ◌-◌, ◌≤◌, ◌≡◌, refl, ap, ◌∙◌, sym, ◌⊎◌, inl, inr, Bool, true, false, not, ◌&&◌, Option,
  none, some, List, [], ◌∷◌, map, Result, Error, ok, raise, raise_if, optimization_error, >>=-eq-ok,
  >>-eq-ok, if-ok, ok_injective, arith, ltb, length, All, subst,
}
use cimba_python.Optimize.{OnFailure, Search, any_of, evaluate, over_budget, search_step, search}
use cimba_python.Optimize.Cached.{Coherent, evaluate-IsEvaluated}

module _ {C E : Type 0} (dec : Discrete C) (simulate : C → E) (run_batch : List C → Result (List E))
    (failed finite : E → Bool)
    (pointwise : (new : List C) (xs : List E) → run_batch new ≡ ok xs → xs ≡ map simulate new)
    (mode : OnFailure) (total population : ℕ) (start : List (C × E)) where
  -- The cache holds evaluations, the search has added as many as it has simulated, and the next call
  -- stays within the budget or is the first.
  IsWithin : Search {C = C} {E = E} dec run_batch failed finite → Type 0
  IsWithin s =
      Coherent dec simulate s.cache
      × (length s.cache ≡ length start + s.simulated)
      × (s.simulated ≤ total)
      × (s.started ≡ false → s.simulated + population ≤ total)

  search_step-IsWithin :
      (candidates : List C) (s : Search dec run_batch failed finite)
      {next : Option (Search dec run_batch failed finite)}
      → length candidates ≤ population
      → IsWithin s
      → search_step dec run_batch failed finite mode (some total) population candidates s ≡ ok next
      → (next ≡ none) ⊎ ((t : Search dec run_batch failed finite) × (next ≡ some t) × IsWithin t)
  unfolding search_step over_budget IsWithin
  search_step-IsWithin candidates s few (cached, grown, within, first) h =
      elim (if-ok (s.started && ltb (total - s.simulated) population) _ _ h) [
        | inl stop ↦ inl (sym (ok_injective stop.1))
        | inr go ↦
            let (evaluated, coherent) =
              evaluate-IsEvaluated dec simulate run_batch failed finite pointwise mode candidates
                s.cache cached in
            let (found, e, h1) =
              >>=-eq-ok (evaluate dec run_batch failed finite mode candidates s.cache).0 _ go.1 in
            let (_, h2) =
              >>-eq-ok (raise_if (not s.started && not (any_of finite found.0)) optimization_error)
                _ h1 in
            elim evaluated [
              | inl (rows, n, e', small, more) ↦
                  let same : n ≡ found.2 = ap (λ f. f.2) (ok_injective (sym e' ∙ e)) in
                  inr (
                    _,
                    sym (ok_injective h2),
                    (
                      coherent,
                      omega (arith, more, grown, same),
                      omega (arith, small, same, few, room s.started s.simulated go.0 within first),
                      λ q. absurd (true_false q),
                    ),
                  )
              | inr (inl (stop, _, _)) ↦ absurd (no_raise (sym stop ∙ e))
              | inr (inr (_, _, stop, _)) ↦ absurd (no_raise (sym stop ∙ e))
            ]
      ]
    where
      no_raise : {A : Type 0} {a : A} {e : Error} → raise e ≡ ok a → ⊥
      no_raise q = cc

      true_false : true ≡ false → ⊥
      true_false q = cc

      room :
          (b : Bool) (m : ℕ)
          → (b && ltb (total - m) population) ≡ false
          → m ≤ total
          → (b ≡ false → m + population ≤ total)
          → m + population ≤ total
      room true m h k l = ground arith
      room false m h k l = l refl

  search_from :
      (calls : List (List C)) (s : Search dec run_batch failed finite)
      {end : Search dec run_batch failed finite}
      → All (λ candidates. length candidates ≤ population) calls
      → IsWithin s
      → search dec run_batch failed finite mode (some total) population calls s ≡ ok end
      → IsWithin end
  unfolding search
  search_from [] s few w h = subst IsWithin (ok_injective h) w
  search_from (candidates ∷ calls) s {end} few w h =
      let (next, e, h1) =
        >>=-eq-ok
          (search_step dec run_batch failed finite mode (some total) population candidates s) _ h in
      elim (search_step-IsWithin candidates s few.0 w e) [
        | inl stop ↦ subst IsWithin (ok_injective (at_none next stop h1)) w
        | inr (t, more, w') ↦ search_from calls t few.1 w' (at_some next t more h1)
      ]
    where
      continue :
          Option (Search dec run_batch failed finite) → Result (Search dec run_batch failed finite)
      continue none = ok s
      continue (some t) = search dec run_batch failed finite mode (some total) population calls t

      at_none :
          (next : Option (Search dec run_batch failed finite))
          → next ≡ none
          → continue next ≡ ok end
          → ok s ≡ ok end
      at_none next e q = sym (ap continue e) ∙ q

      at_some :
          (next : Option (Search dec run_batch failed finite))
          (t : Search dec run_batch failed finite)
          → next ≡ some t
          → continue next ≡ ok end
          → search dec run_batch failed finite mode (some total) population calls t ≡ ok end
      at_some next t e q = sym (ap continue e) ∙ q

  -- If the budget covers one population, no call of the search asks for more candidates than a
  -- population has, the cache that it starts with holds evaluations, and a batch that returns has for
  -- each candidate in turn its own evaluation, then a search that returns has simulated no more
  -- candidates than its budget, and each of them once: the cache has grown by exactly the number
  -- that is counted.
  pub search-within_budget :
      {end : Search dec run_batch failed finite} (calls : List (List C))
      → population ≤ total
      → All (λ candidates. length candidates ≤ population) calls
      → Coherent dec simulate start
      → search dec run_batch failed finite mode
          (some total)
          population
          calls
          (record { started = false; simulated = 0; cache = start })
        ≡ ok end
      → (end.simulated ≤ total) × (length end.cache ≡ length start + end.simulated)
  unfolding IsWithin
  search-within_budget calls covers few coherent h =
      let (_, grown, within, _) =
        search_from calls _ few (coherent, omega arith, omega arith, λ q. omega (arith, covers))
          h in
      (within, grown)
