-- ===== src/Inputs/Sources.antt =====
-- cimba/inputs/sources.py: reference data, exhaustion policies and generated rows. SHA-256 and the
-- test for a finite number are parameters; a random generator is whatever a draw reads.
use Prim.Native.String.{String}
use text.Mathlib.Text.{◌==◌ as str_eq}
use cimba_python.Base.{
  ℕ, Bool, true, false, not, ◌&&◌, ◌||◌, Option, none, some, List, [], ◌∷◌, Result, ok, raise,
  raise_if, input_error, ◌>>=◌, ◌>>◌, if◌then◌else◌, ◌==◌, ltb, length,
}

pub data Policy : Type 0 where
  fail wrap end_trial extend : Policy

-- `validate_policy`: only an extendable source takes `extend`.
unfoldable pub validate_policy : Policy → Bool → Result Policy
validate_policy Policy.extend false = raise input_error
validate_policy p _ = ok p

unfoldable pub all {ℓ} : {A : Type ℓ} → (A → Bool) → List A → Bool
all p [] = true
all p (x ∷ xs) = p x && all p xs

pub record GeneratedRows (V Rng : Type 0) : Type 0 where
  pub id : ℕ
  pub data_rows : List V
  pub fingerprint : String
  pub draw : Rng → ℕ → List V
  pub tag : Option String
  pub prefix_stable : Bool
  pub max_length : Option ℕ
  pub length_hint : Option ℕ
  pub on_exhausted : Policy

abbrev pub exceeds : ℕ → Option ℕ → Bool
exceeds n none = false
exceeds n (some m) = ltb m n

module _ {V : Type 0} (is_finite : V → Bool) (sha256 : List V → String) where
  -- `reference`: the values and their fingerprint.
  unfoldable pub reference : List V → Result (List V × String)
  unfolding all
  reference [] = raise input_error
  reference (v ∷ vs) =
      if all is_finite (v ∷ vs) then ok (v ∷ vs, sha256 (v ∷ vs)) else raise input_error

  -- `TraceSource.verify`
  unfoldable pub verify : List V → String → Result (Unit {0})
  verify values fingerprint = raise_if (not (str_eq (sha256 values) fingerprint)) input_error

module _ {V Rng : Type 0} (is_finite : V → Bool) (sha256 : List V → String) where
  -- One round of the loop of `GeneratedRows.generate`.
  unfoldable pub generate_row : GeneratedRows V Rng → ℕ → Rng → Result (List V)
  unfolding all
  generate_row g n rng =
      let row = g.draw rng n in
      if length row == n && all is_finite row then ok row else raise input_error

  unfoldable pub generate_rows : GeneratedRows V Rng → ℕ → List Rng → Result (List (List V))
  generate_rows g n [] = ok []
  generate_rows g n (rng ∷ rngs) = do
    row ← generate_row g n rng
    rows ← generate_rows g n rngs
    ok (row ∷ rows)

  unfoldable pub generate : GeneratedRows V Rng → List Rng → ℕ → Result (List (List V))
  unfolding generate_rows
  generate g rngs n = do
    raise_if (ltb n 1 || exceeds n g.max_length) input_error
    raise_if (not (str_eq (sha256 g.data_rows) g.fingerprint)) input_error
    generate_rows g n rngs
