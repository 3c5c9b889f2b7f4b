-- ===== src/Optimize/Cached.antt =====
-- cimba/optimize/study.py: `_evaluate` returns what simulating every candidate would.
use cimba_python.Base.{
  member, unique, unique-member, length-unique, ℕ, ◌≡◌, refl, ap, ◌∙◌, ◌⊎◌, inl, inr, Bool, true,
  false, some, List, [], ◌∷◌, map, Result, Error, Result-cases, ◌+◌, ok, raise, trials_failed,
  arith, ◌≤◌, length, Bool-cases, Option-cases, subst,
}
use cimba_python.Optimize.{
  OnFailure, find, known, not_known, get_key, insert, read_all, raise_failures, history_rows,
  update, finish, evaluate, batch, batch_new, any_of,
}
use cimba_python.Optimize.Fresh.{
  find-insert, length-update, new-AreFresh, member-not_known, member-unique, any_of-inside,
}

module _ {C E : Type 0} (dec : Discrete C) (simulate : C → E) where
  -- Every entry is what the simulation of its candidate yields.
  abbrev pub Coherent : List (C × E) → Type 0
  Coherent cache = (c : C) (x : E) → find dec c cache ≡ some x → x ≡ simulate c

  Found : C → List (C × E) → Type 0
  Found c cache = find dec c cache ≡ some (simulate c)

  insert-Coherent :
      (c : C) (cache : List (C × E)) → Coherent cache → Coherent (insert dec c (simulate c) cache)
  insert-Coherent c cache h d x e = ground (arith, find-insert dec c d (simulate c) cache, h d x)

  insert-Found :
      (c d : C) (cache : List (C × E))
      → Found d cache ⊎ (c ≡ d)
      → Found d (insert dec c (simulate c) cache)
  unfolding Found
  insert-Found c d cache h = ground (arith, find-insert dec c d (simulate c) cache, h)

  update-Coherent :
      (cache : List (C × E)) (new : List C)
      → Coherent cache
      → Coherent (update dec cache new (map simulate new))
  unfolding update
  update-Coherent cache [] h = h
  update-Coherent cache (c ∷ new) h =
      update-Coherent (insert dec c (simulate c) cache) new (insert-Coherent c cache h)

  update-Found :
      (c : C) (cache : List (C × E)) (new : List C)
      → Found c cache ⊎ (member dec c new ≡ true)
      → Found c (update dec cache new (map simulate new))
  unfolding update member
  update-Found c cache [] (inl h) = h
  update-Found c cache [] (inr h) = cc
  update-Found c cache (d ∷ new) h = update-Found c (insert dec d (simulate d) cache) new (elim h [
    | inl found ↦ inl (insert-Found d c cache (inl found))
    | inr m ↦ elim (dec d c) [
      | yes e ↦ inl (insert-Found d c cache (inr e))
      | no n ↦ inr (ground (arith, m))
    ]
  ])

  known-cases :
      (c : C) (cache : List (C × E))
      → Coherent cache
      → ((known dec c cache ≡ true) × Found c cache) ⊎ (known dec c cache ≡ false)
  unfolding known Found
  known-cases c cache h = elim (Option-cases (find dec c cache)) [
    | inl e ↦ inr (rw (known, e) refl)
    | inr (x, e) ↦ inl (rw (known, e) refl, e ∙ ap some (h c x e))
  ]

  not_known-member :
      (c : C) (cache : List (C × E)) (cs : List C)
      → Coherent cache
      → member dec c cs ≡ true
      → Found c cache ⊎ (member dec c (not_known dec cache cs) ≡ true)
  unfolding not_known member
  not_known-member c cache [] h m = cc
  not_known-member c cache (d ∷ cs) h m = elim (dec d c) [
    | yes e ↦ elim (known-cases d cache h) [
      | inl old ↦ inl (subst (λ k. Found k cache) e old.1)
      | inr fresh ↦ inr (rw fresh (ground (arith, e)))
    ]
    | no n ↦ elim (not_known-member c cache cs h (ground (arith, m, n))) [
      | inl found ↦ inl found
      | inr kept ↦ inr (elim (Bool-cases (known dec d cache)) [
        | inl k ↦ rw k kept
        | inr k ↦ rw k (ground (arith, kept, n))
      ])
    ]
  ]

  -- Every candidate is found.
  AllFound : List C → List (C × E) → Type 0
  AllFound cs cache = (c : C) → member dec c cs ≡ true → Found c cache

  get_key-some : (x : E) → get_key (some x) ≡ ok x
  unfolding get_key
  get_key-some x = refl

  read_all-map :
      (cs : List C) (cache : List (C × E))
      → AllFound cs cache
      → read_all dec cache cs ≡ ok (map simulate cs)
  unfolding read_all member AllFound Found
  read_all-map [] cache h = refl
  read_all-map (c ∷ cs) cache h =
      let here : get_key (find dec c cache) ≡ ok (simulate c) =
        ap get_key (h c (ground arith)) ∙ get_key-some (simulate c) in
      let rest = read_all-map cs cache (λ d m. h d (ground (arith, m))) in rw (here, rest) refl

  length-not_known :
      (cache : List (C × E)) (cs : List C) → length (not_known dec cache cs) ≤ length cs
  unfolding not_known
  length-not_known cache [] = omega arith
  length-not_known cache (c ∷ cs) = ground (arith, length-not_known cache cs)

  new_of : List C → List (C × E) → List C
  new_of candidates cache = not_known dec cache (unique dec [] candidates)

  evaluated-AllFound :
      (candidates : List C) (cache : List (C × E))
      → Coherent cache
      → AllFound candidates
          (update dec cache (new_of candidates cache) (map simulate (new_of candidates cache)))
  unfolding AllFound new_of member
  evaluated-AllFound candidates cache h c m =
      update-Found c cache (not_known dec cache (unique dec [] candidates)) (
        not_known-member c cache (unique dec [] candidates) h
          (elim (unique-member dec c [] candidates m) [ inl none_seen ↦ cc | inr kept ↦ kept ]))

  module _ (run_batch : List C → Result (List E)) (failed finite : E → Bool) where
    raise_failures-cases :
        (mode : OnFailure) (xs : List E)
        → (raise_failures failed mode xs ≡ ok tt)
          ⊎ ((raise_failures failed mode xs ≡ raise trials_failed)
              × (mode ≡ OnFailure.raising)
              × (any_of failed xs ≡ true))
    unfolding raise_failures
    raise_failures-cases OnFailure.raising xs = elim (Bool-cases (any_of failed xs)) [
      | inl fails ↦ inr (rw fails refl, refl, fails)
      | inr works ↦ inl (rw works refl)
    ]
    raise_failures-cases OnFailure.reject xs = inl refl
    raise_failures-cases OnFailure.ignore xs = inl refl

    -- What the failure of a trial of one of the candidates raises.
    abbrev pub IsFailure : {A : Type 0} → OnFailure → List C → Result A → Type 0
    IsFailure mode candidates r =
        (r ≡ raise trials_failed)
        × (mode ≡ OnFailure.raising)
        × (any_of failed (map simulate candidates) ≡ true)

    -- A result of `_evaluate` on the candidates, with the cache that it leaves.
    abbrev pub IsEvaluated :
        OnFailure
        → List C
        → List (C × E)
        → Result (List E × List (C × E × Bool) × ℕ) × List (C × E)
        → Type 0
    IsEvaluated mode candidates cache r =
        ((rows : List (C × E × Bool)) × (n : ℕ) × (r.0 ≡ ok (map simulate candidates, rows, n))
          × (n ≤ length candidates)
          × (length r.1 ≡ length cache + n))
        ⊎ (IsFailure mode candidates r.0
            ⊎ ((e : Error) × (run_batch (not_known dec cache (unique dec [] candidates)) ≡ raise e)
                × (r.0 ≡ raise e)
                × (r.1 ≡ cache)))

    finish-IsEvaluated :
        (mode : OnFailure) (candidates : List C) (n : ℕ) (before cache : List (C × E))
        → AllFound candidates cache
        → n ≤ length candidates
        → length cache ≡ length before + n
        → IsEvaluated mode candidates before
            (finish dec run_batch failed finite mode candidates n before cache, cache)
    unfolding finish
    finish-IsEvaluated mode candidates n before cache h few grown =
        rw (read_all-map candidates cache h)
          (elim (raise_failures-cases mode (map simulate candidates)) [
            | inl fine ↦ inl (
              history_rows dec (map (λ p. p.0) before) candidates (map simulate candidates),
              n,
              rw fine refl,
              few,
              grown,
            )
            | inr (stop, raises, fails) ↦ inr (inl (rw stop refl, raises, fails))
          ])

    -- A batch that returns has for each candidate in turn its own evaluation: the candidates run on
    -- the same seeds, and the objective works by the point.
    module _
        (pointwise : (new : List C) (xs : List E)
          → run_batch new ≡ ok xs
          → xs ≡ map simulate new) where
      -- The batch of the new candidates returns, fails, or raises what its run raises.
      batch_new-cases :
          (mode : OnFailure) (new : List C)
          → (batch_new dec run_batch failed finite mode new ≡ ok (map simulate new, length new))
            ⊎ IsFailure mode new (batch_new dec run_batch failed finite mode new)
            ⊎ ((e : Error) × (run_batch new ≡ raise e)
                × (batch_new dec run_batch failed finite mode new ≡ raise e))
      unfolding batch_new batch
      batch_new-cases mode [] = inl refl
      batch_new-cases mode (c ∷ new) = elim (Result-cases (run_batch (c ∷ new))) [
        | inr (e, stop) ↦ inr (inr (e, stop, rw stop refl))
        | inl (xs, runs) ↦
            let same = pointwise (c ∷ new) xs runs in
            elim (raise_failures-cases mode (map simulate (c ∷ new))) [
              | inl fine ↦ inl (rw (runs, same, fine) refl)
              | inr (stop, raises, fails) ↦ inr (inl (rw (runs, same, stop) refl, raises, fails))
            ]
      ]

      -- If a batch that returns has for each candidate in turn its own evaluation, then from a cache
      -- whose entries are evaluations of their candidates `_evaluate` leaves such a cache. It returns for
      -- each candidate in turn its own evaluation, having simulated no more than there are candidates,
      -- by which number the cache has grown. Otherwise it raises the failure of a trial, only where
      -- failures are to raise and a trial of one of the candidates failed, or, leaving the cache as it
      -- was, what the run of the candidates that the cache does not know raises.
      pub evaluate-IsEvaluated :
          (mode : OnFailure) (candidates : List C) (cache : List (C × E))
          → Coherent cache
          → IsEvaluated mode candidates cache
              (evaluate dec run_batch failed finite mode candidates cache)
            × Coherent (evaluate dec run_batch failed finite mode candidates cache).1
      unfolding evaluate new_of
      evaluate-IsEvaluated mode candidates cache h =
          let new = not_known dec cache (unique dec [] candidates) in
          elim (batch_new-cases mode new) [
            | inr (inl (stop, raises, fails)) ↦
                rw (evaluate, stop)
                  (
                    inr (
                        inl (
                          refl,
                          raises,
                          any_of-inside dec simulate failed new candidates
                              (λ c m.
                                member-unique dec c [] candidates
                                  (member-not_known dec c cache (unique dec [] candidates) m))
                              fails,
                        )),
                    h,
                  )
            | inr (inr (e, stop, raises)) ↦
                rw (evaluate, raises) (inr (inr (e, stop, refl, refl)), h)
            | inl fine ↦
                rw (evaluate, fine)
                  (
                    finish-IsEvaluated mode candidates (length new) cache
                        (update dec cache new (map simulate new))
                        (evaluated-AllFound candidates cache h)
                        (omega (
                          arith,
                          length-not_known cache (unique dec [] candidates),
                          length-unique dec [] candidates,
                        ))
                        (length-update dec simulate cache new (new-AreFresh dec cache candidates)),
                    update-Coherent cache new h,
                  )
          ]
