-- ===== src/Tests/Trials.antt =====
-- Runs in chunks.
use cimba_python.Base.{ℕ, ◌+◌, ◌*◌, ◌≤◌, ◌≡◌, refl, List, [], ◌∷◌, ok, raise, All, length, arith}
use cimba_python.Base.{
  zero, suc, true, false, none, Result, Bool, Option, Error, trials_failed, ltb, ◌==◌, ==_iff,
  if◌then◌else◌, ok_injective, sym, ap, ◌∙◌, range_from,
}
use cimba_python.Base.Ends.{ends}
use cimba_python.Run.Extension.{generated, Slot, Outcome, Trial, run_trial}
use cimba_python.Run.Extension.Grown.{IsRun, run_trial-IsRun}
use cimba_python.Run.Chunks.{chunk_loop, chunk_size, run_single, FailureMode}
use cimba_python.Run.Whole.{chunk_loop-fits}

abbrev seeds : List (List ℕ)
seeds = (1 ∷ 2 ∷ 3 ∷ []) ∷ (4 ∷ 5 ∷ 6 ∷ []) ∷ []

abbrev trial : ℕ → ℕ → ℕ
trial point seed = point + seed

abbrev fails_at_seven : ℕ → Bool
fails_at_seven x = x == 7

abbrev ready : ℕ → Option Error
ready n = none

-- 48 bytes for three replications do not fit in 40: two chunks.
in_chunks :
    run_single trial fails_at_seven ready FailureMode.recording 16 40 3 seeds
    ≡ ok ((1 ∷ 2 ∷ 3 ∷ []) ∷ (5 ∷ 6 ∷ 7 ∷ []) ∷ [])
unfolding run_single
in_chunks = refl

raises_last :
    run_single trial fails_at_seven ready FailureMode.raising 16 40 3 seeds ≡ raise trials_failed
unfolding run_single
raises_last = refl

chunk_loop-fits_example :
    All (All (λ row. length row * 16 ≤ 40)) (chunk_loop trial 3 (chunk_size 40 16) 3 0 seeds)
chunk_loop-fits_example = chunk_loop-fits trial 3 40 16 3 0 seeds (omega arith) (omega arith)

-- A trial that needs five rows, of which two are bound at first.
abbrev numbered : ℕ → ℕ → Result (List ℕ)
numbered n m = ok (range_from 0 m)

abbrev needs_five : List (List ℕ) → Outcome
needs_five [] = record { status = 2; is_exhausted = λ n. false }
needs_five (row ∷ rest) = record {
  status = if ltb (length row) 5 then 4 else 2;
  is_exhausted = λ n. true;
}

abbrev two_rows : List (Slot ℕ)
two_rows = record { source = generated true none; row = 0 ∷ 1 ∷ []; extensions = 0 } ∷ []

extends_twice :
    run_trial (λ x y. x == y) numbered needs_five 7 two_rows
    ≡ ok (record {
      status = 2;
      slots =
          record {
            source = generated true none;
            row = 0 ∷ 1 ∷ 2 ∷ 3 ∷ 4 ∷ 5 ∷ 6 ∷ 7 ∷ [];
            extensions = 2;
          }
          ∷ [];
    })
unfolding run_trial range_from
extends_twice = refl

length-numbered : (n m : ℕ) → length (range_from n m) ≡ m
unfolding range_from
length-numbered n zero = refl
length-numbered n (suc m) = ap suc (length-numbered (suc n) m)

run_trial-IsRun_example :
    (ends (run_trial (λ x y. x == y) numbered needs_five 7 two_rows) ≡ true)
    × ((t : Trial ℕ)
        → run_trial (λ x y. x == y) numbered needs_five 7 two_rows ≡ ok t
        → IsRun (λ x y. x == y) numbered needs_five two_rows t)
run_trial-IsRun_example =
    run_trial-IsRun (λ x y. x == y) numbered needs_five 7 two_rows (λ x y. (==_iff x y).0)
      (λ n m row h. ap length (sym (ok_injective h)) ∙ length-numbered 0 m) (λ n m. refl) (refl, tt)
      (omega arith)
