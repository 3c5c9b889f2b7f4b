-- ===== src/Run/Single.antt =====
-- cimba/experiments/snapshot.py: what a run yields, and what it raises.
use cimba_python.Base.{
  ℕ, zero, suc, ◌+◌, ◌*◌, ◌<◌, ◌≡◌, refl, ap, ◌∙◌, sym, ◌⊎◌, inl, inr, Bool, true, false, ◌&&◌,
  ◌||◌, Option, some, List, [], ◌∷◌, ◌++◌, map, Result, Error, ok, raise, ◌>>=◌, length, All, arith,
  leb, ltb, ltb→lt, ◌==◌, ==_iff, Bool-cases, Option-cases, experiment_config_error, trials_failed,
  min, subst,
}
use cimba_python.Run.Chunks.{
  FailureMode, is_unknown, is_raising, chunk_size, run_core, slice, chunk_loop, zip_append,
  concatenate, any_outcome, any_failed, execute, run_chunks, run_single,
}
use cimba_python.Run.Whole.{IsRectangular, concatenate-chunk_loop, map-drop-zero}

module _ {O : Type 0} (trial : ℕ → ℕ → O) where
  length-chunk :
      (point start stop : ℕ) (seeds : List (List ℕ))
      → length (run_core trial point (map (slice trial start stop) seeds)) ≡ length seeds
  unfolding run_core
  length-chunk point start stop [] = refl
  length-chunk point start stop (row ∷ seeds) = ap suc (length-chunk (suc point) start stop seeds)

  -- Every chunk has a row for each point.
  chunk_loop-lengths :
      (fuel size replications start : ℕ) (seeds : List (List ℕ))
      → All
          (λ table. length table ≡ length seeds)
          (chunk_loop trial fuel size replications start seeds)
  unfolding chunk_loop
  chunk_loop-lengths zero size replications start seeds = tt
  chunk_loop-lengths (suc fuel) size replications start seeds =
      elim (Bool-cases (ltb start replications)) [
        | inl more ↦ rw more (
          length-chunk 0 start (min replications (start + size)) seeds,
          chunk_loop-lengths fuel size replications (start + size) seeds,
        )
        | inr done ↦ rw done tt
      ]

  length-zip_append :
      (xs ys : List (List O)) → length xs ≡ length ys → length (zip_append trial xs ys) ≡ length xs
  unfolding zip_append
  length-zip_append [] ys h = refl
  length-zip_append (x ∷ xs) [] h = absurd (omega (arith, h))
  length-zip_append (x ∷ xs) (y ∷ ys) h = ap suc (length-zip_append xs ys (omega (arith, h)))

  length-concatenate :
      (n : ℕ) (c : List (List O)) (cs : List (List (List O)))
      → All (λ table. length table ≡ n) (c ∷ cs)
      → length (concatenate trial (c ∷ cs)) ≡ n
  unfolding concatenate
  length-concatenate n c [] (here, rest) = here
  length-concatenate n c (d ∷ cs) (here, rest) =
      length-zip_append c _ (here ∙ sym (length-concatenate n d cs rest)) ∙ here

  module _ (has_failed : O → Bool) (interrupts : ℕ → Option Error) where
    any_outcome-append :
        (xs ys : List O)
        → any_outcome trial has_failed interrupts (xs ++ ys) ≡ (
            any_outcome trial has_failed interrupts xs
            || any_outcome trial has_failed interrupts ys)
    unfolding any_outcome
    any_outcome-append [] ys = refl
    any_outcome-append (x ∷ xs) ys = ground (arith, any_outcome-append xs ys)

    any_failed-zip_append :
        (xs ys : List (List O))
        → length xs ≡ length ys
        → any_failed trial has_failed interrupts (zip_append trial xs ys)
          ≡ (any_failed trial has_failed interrupts xs || any_failed trial has_failed interrupts ys)
    unfolding any_failed zip_append
    any_failed-zip_append [] [] h = refl
    any_failed-zip_append [] (y ∷ ys) h = absurd (omega (arith, h))
    any_failed-zip_append (x ∷ xs) [] h = absurd (omega (arith, h))
    any_failed-zip_append (x ∷ xs) (y ∷ ys) h =
        ground (arith, any_outcome-append x y, any_failed-zip_append xs ys (omega (arith, h)))

    any_chunk : List (List (List O)) → Bool
    any_chunk [] = false
    any_chunk (c ∷ cs) = any_failed trial has_failed interrupts c || any_chunk cs

    any_failed-concatenate :
        (n : ℕ) (cs : List (List (List O)))
        → All (λ table. length table ≡ n) cs
        → any_failed trial has_failed interrupts (concatenate trial cs) ≡ any_chunk cs
    unfolding concatenate any_chunk any_failed
    any_failed-concatenate n [] h = refl
    any_failed-concatenate n (c ∷ []) h = ground arith
    any_failed-concatenate n (c ∷ d ∷ cs) (here, rest) =
        any_failed-zip_append c _ (here ∙ sym (length-concatenate n d cs rest))
        ∙ ap (λ b. any_failed trial has_failed interrupts c || b)
            (any_failed-concatenate n (d ∷ cs) rest)

    module _ (mode : FailureMode) (bytes memory : ℕ) where
      -- Why a run whose outcomes have a failure, or not, raises an error.
      abbrev pub IsReason : Bool → Error → Type 0
      IsReason fails error =
          ((error ≡ experiment_config_error)
            × ((mode ≡ FailureMode.unknown) ⊎ ((memory ≡ 0) ⊎ (memory < bytes))))
          ⊎ (((error ≡ trials_failed) × (mode ≡ FailureMode.raising) × (fails ≡ true))
              ⊎ ((n : ℕ) × (interrupts n ≡ some error)))

      -- The run returns the result, without a failure where those raise, or raises for a reason.
      abbrev pub IsRunOf : {A : Type 0} → Bool → A → Result A → Type 0
      IsRunOf fails a r =
          ((r ≡ ok a) × ((is_raising mode && fails) ≡ false))
          ⊎ ((error : Error) × (r ≡ raise error) × IsReason fails error)

      raising_mode :
          (m : FailureMode) (b : Bool) → (is_raising m && b) ≡ true → m ≡ FailureMode.raising
      raising_mode FailureMode.recording b h = cc
      raising_mode FailureMode.raising b h = refl
      raising_mode FailureMode.unknown b h = cc

      unknown_mode : (m : FailureMode) → is_unknown m ≡ true → m ≡ FailureMode.unknown
      unknown_mode FailureMode.recording h = cc
      unknown_mode FailureMode.raising h = cc
      unknown_mode FailureMode.unknown h = refl

      execute-IsRunOf :
          (n : ℕ) (table : List (List O))
          → IsRunOf
              (any_failed trial has_failed interrupts table)
              table
              (execute trial has_failed interrupts mode memory n table)
      unfolding execute
      execute-IsRunOf n table = elim (Bool-cases (is_unknown mode)) [
        | inl u ↦ inr (experiment_config_error, rw u refl, inl (refl, inl (unknown_mode mode u)))
        | inr u ↦ elim (Bool-cases (memory == 0)) [
          | inl z ↦ inr (
            experiment_config_error,
            rw (u, z) refl,
            inl (refl, inr (inl (ground (arith, ==_iff memory 0)))),
          )
          | inr z ↦ elim (Option-cases (interrupts n)) [
            | inr (error, i) ↦ inr (error, rw (u, z, i) refl, inr (inr (n, i)))
            | inl i ↦
                elim (Bool-cases
                  (is_raising mode && any_failed trial has_failed interrupts table)) [
                    | inl f ↦ inr (
                      trials_failed,
                      rw (u, z, i, f) refl,
                      inr (inl (refl, raising_mode mode _ f, ground (arith, f))),
                    )
                    | inr f ↦ inl (rw (u, z, i, f) refl, f)
                  ]
          ]
        ]
      ]

      weaken :
          (b c : Bool) (error : Error) → (b ≡ true → c ≡ true) → IsReason b error → IsReason c error
      weaken b c error up (inl config) = inl config
      weaken b c error up (inr (inl (e, raises, fails))) = inr (inl (e, raises, up fails))
      weaken b c error up (inr (inr other)) = inr (inr other)

      run_chunks-IsRunOf :
          (n : ℕ) (tables : List (List (List O)))
          → IsRunOf
              (any_chunk tables)
              tables
              (run_chunks trial has_failed interrupts mode memory n tables)
      unfolding run_chunks any_chunk
      run_chunks-IsRunOf n [] = inl (refl, ground arith)
      run_chunks-IsRunOf n (table ∷ tables) = elim (execute-IsRunOf n table) [
        | inr (error, stop, why) ↦
            inr (error, rw stop refl, weaken _ _ error (λ h. ground (arith, h)) why)
        | inl (here, fine) ↦ elim (run_chunks-IsRunOf (suc n) tables) [
          | inr (error, stop, why) ↦
              inr (error, rw (here, stop) refl, weaken _ _ error (λ h. ground (arith, h)) why)
          | inl (rest, clean) ↦ inl (rw (here, rest) refl, ground (arith, fine, clean))
        ]
      ]

      pub run_single-run_core :
          (replications : ℕ) (seeds : List (List ℕ))
          → IsRectangular replications seeds
          → IsRunOf
              (any_failed trial has_failed interrupts (run_core trial 0 seeds))
              (run_core trial 0 seeds)
              (run_single trial has_failed interrupts mode bytes memory replications seeds)
      unfolding run_single
      run_single-run_core replications seeds r = elim (Bool-cases (is_unknown mode)) [
        | inl u ↦ inr (experiment_config_error, rw u refl, inl (refl, inl (unknown_mode mode u)))
        | inr u ↦ elim (Bool-cases (leb (bytes * replications) memory)) [
          | inl whole ↦
              subst
                (IsRunOf (any_failed trial has_failed interrupts (run_core trial 0 seeds))
                  (run_core trial 0 seeds))
                (sym (in_one u whole)) (execute-IsRunOf 0 (run_core trial 0 seeds))
          | inr split ↦ elim (Bool-cases (ltb memory bytes)) [
            | inl over ↦ inr (
              experiment_config_error,
              rw (u, split, over) refl,
              inl (refl, inr (inr (ltb→lt memory bytes over))),
            )
            | inr fits ↦
                rw (u, split, fits)
                  (chunked
                    (chunk_loop trial replications (chunk_size memory bytes) replications 0 seeds)
                    (joined (some_replication split))
                    (chunk_loop-lengths replications (chunk_size memory bytes) replications 0
                      seeds))
          ]
        ]
      ]
        where
          in_one :
              is_unknown mode ≡ false
              → leb (bytes * replications) memory ≡ true
              → run_single trial has_failed interrupts mode bytes memory replications seeds
                ≡ execute trial has_failed interrupts mode memory 0 (run_core trial 0 seeds)
          in_one u whole = rw (u, whole) refl

          some_replication : leb (bytes * replications) memory ≡ false → 0 < replications
          some_replication e = grind arith

          joined :
              0 < replications
              → concatenate trial
                  (chunk_loop trial replications (chunk_size memory bytes) replications 0 seeds)
                ≡ run_core trial 0 seeds
          joined h =
              concatenate-chunk_loop trial replications (chunk_size memory bytes) replications 0
                seeds (unfold chunk_size in omega arith) h (omega arith) r
              ∙ ap (run_core trial 0) (map-drop-zero trial seeds)

          chunked :
              (chunks : List (List (List O)))
              → concatenate trial chunks ≡ run_core trial 0 seeds
              → All (λ table. length table ≡ length seeds) chunks
              → IsRunOf
                  (any_failed trial has_failed interrupts (run_core trial 0 seeds))
                  (run_core trial 0 seeds)
                  (run_chunks trial has_failed interrupts mode memory 0 chunks >>= λ parts.
                    ok (concatenate trial parts))
          chunked chunks same lengths =
              let fails : any_chunk chunks
                  ≡ any_failed trial has_failed interrupts (run_core trial 0 seeds) =
                sym (any_failed-concatenate (length seeds) chunks lengths)
                ∙ ap (any_failed trial has_failed interrupts) same in
              elim (run_chunks-IsRunOf 0 chunks) [
                | inl (returns, fine) ↦
                    inl (rw returns (ap ok same), ap (λ b. is_raising mode && b) (sym fails) ∙ fine)
                | inr (error, stop, why) ↦
                    inr (error, rw stop refl, weaken _ _ error (λ h. sym fails ∙ h) why)
              ]
