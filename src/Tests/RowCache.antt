-- ===== src/Tests/RowCache.antt =====
-- The row cache over a source of constant rows.
use Prim.Native.String.{String}
use cimba_python.Base.{
  ℕ, ◌<◌, ◌≤◌, ◌≡◌, refl, Bool, true, none, List, [], ◌∷◌, Result, ok, replicate, count, ℕ_discrete,
  arith,
}
use cimba_python.Inputs.Sources.{GeneratedRows, Policy}
use cimba_python.Rows.{Key, Row, Cache, rows, row_key}
use cimba_python.Rows.Entries.{occurs, total}
use cimba_python.Rows.Bytes.{IsCounted, rows-IsCounted}
use cimba_python.Rows.Coherent.{Holds, IsGenerated, rows-IsGenerated}

abbrev source : GeneratedRows ℕ ℕ
source = record {
  id = 4;
  data_rows = 1 ∷ [];
  fingerprint = "f";
  draw = λ rng n. replicate n rng;
  tag = none;
  prefix_stable = true;
  max_length = none;
  length_hint = none;
  on_exhausted = Policy.extend;
}

abbrev finite : ℕ → Bool
finite v = true

abbrev print : List ℕ → String
print vs = "f"

abbrev rng : ℕ → String → ℕ
rng seed tag = seed

abbrev empty : Cache ℕ
empty = record { entries = []; bytes = 0 }

empty-IsCounted : IsCounted ℕ empty
unfolding total
empty-IsCounted = record { counted = refl; distinct = λ k. omega arith }

abbrev after : Result (List (Key × Row ℕ)) × Cache ℕ
after = rows finite print rng source "x" (3 ∷ 1 ∷ 3 ∷ []) 2 20 empty

rows-IsCounted_example : IsCounted ℕ after.1 × (after.1.bytes ≤ 20)
rows-IsCounted_example =
    rows-IsCounted finite print rng source "x" (3 ∷ 1 ∷ 3 ∷ []) 2 20 empty empty-IsCounted

rows-IsGenerated_example :
    Holds (IsGenerated finite print rng (λ i. source)) after.1.entries
    × ((rs : List (Key × Row ℕ))
        → after.0 ≡ ok rs
        → Holds (IsGenerated finite print rng (λ i. source)) rs
          × ((seed : ℕ)
              → 0 < count ℕ_discrete seed (3 ∷ 1 ∷ 3 ∷ [])
              → 0 < occurs (row_key finite print rng source "x" 2 seed) rs))
rows-IsGenerated_example =
    rows-IsGenerated finite print rng (λ i. source) source refl "x" 2 (3 ∷ 1 ∷ 3 ∷ []) 20 empty tt
