-- ===== src/Rows.antt =====
-- cimba/experiments/snapshot.py: `Snapshot.rows` and `Snapshot.trim_rows`, the cache of generated
-- rows. The cache is an ordered dictionary, oldest entry first; a row of `n` float64 values takes
-- `8 * n` bytes.
pub mod Entries
pub mod Bytes
pub mod Coherent
use Prim.Native.String.{String}
use cimba_python.Base.{
  ℕ, zero, suc, ◌+◌, ◌-◌, ◌*◌, ◌≡◌, Bool, true, false, ◌&&◌, Option, none, some, List, [], ◌∷◌,
  ◌++◌, map, Result, ok, raise, if◌then◌else◌, ◌==◌, ltb, length, ite, ℕ_discrete,
}
use cimba_python.Base.Text.{String-discrete}
use cimba_python.Inputs.Sources.{GeneratedRows, generate}

pub record Key : Type 0 where
  pub source : ℕ
  pub tag : String
  pub seed : ℕ
  pub length : ℕ

unfoldable pub Key-discrete : Discrete Key
Key-discrete = hlevel (ℕ_discrete, String-discrete)

abbrev pub Row : Type 0 → Type 0
Row V = List V

abbrev pub nbytes : {V : Type 0} → Row V → ℕ
nbytes row = 8 * length row

pub record Cache (V : Type 0) : Type 0 where
  pub entries : List (Key × Row V)
  pub bytes : ℕ

module _ {V : Type 0} where
  unfoldable pub find : Key → List (Key × Row V) → Option (Row V)
  find k [] = none
  find k ((j, r) ∷ es) = ite (Key-discrete j k) (some r) (find k es)

  -- `cache[key] = row`: an old key keeps its place.
  unfoldable pub put : Key → Row V → List (Key × Row V) → List (Key × Row V)
  put k r [] = (k, r) ∷ []
  put k r ((j, s) ∷ es) = ite (Key-discrete j k) ((k, r) ∷ es) ((j, s) ∷ put k r es)

  unfoldable pub remove : Key → List (Key × Row V) → List (Key × Row V)
  remove k [] = []
  remove k ((j, s) ∷ es) = ite (Key-discrete j k) es ((j, s) ∷ remove k es)

  -- `trim_rows`: entries go, oldest first, until the rest fits. The bytes of an entry are part of
  -- the total, so the subtraction does not stop at zero.
  unfoldable pub trim : ℕ → List (Key × Row V) → ℕ → Cache V
  trim memory [] bytes = record { entries = []; bytes = bytes }
  trim memory ((k, r) ∷ es) bytes =
      let rest = trim memory es (bytes - nbytes r) in
      if ltb memory bytes then rest else record { entries = (k, r) ∷ es; bytes = bytes }

  unfoldable pub trim_rows : ℕ → Cache V → Cache V
  unfolding trim
  trim_rows memory c = trim memory c.entries c.bytes

-- `sorted(set(seeds))`
unfoldable pub insert_sorted : ℕ → List ℕ → List ℕ
insert_sorted x [] = x ∷ []
insert_sorted x (y ∷ ys) =
    let rest = y ∷ insert_sorted x ys in
    if x == y then y ∷ ys else if ltb x y then x ∷ y ∷ ys else rest

unfoldable pub sorted_set : List ℕ → List ℕ
unfolding insert_sorted
sorted_set [] = []
sorted_set (x ∷ xs) = insert_sorted x (sorted_set xs)

-- The rows found in the cache, the seeds that miss, and the cache with the hits made recent.
pub record Scan (V : Type 0) : Type 0 where
  pub rows : List (Key × Row V)
  pub missing : List ℕ
  pub entries : List (Key × Row V)

module _ {V : Type 0} (key : ℕ → Key) where
  -- The loop over the seeds; `key` makes the key of a seed.
  unfoldable pub scan : List ℕ → List (Key × Row V) → Scan V
  unfolding find remove
  scan [] entries = record { rows = []; missing = []; entries = entries }
  scan (seed ∷ seeds) entries = elim (find (key seed) entries) [
    | some r ↦
        let later = scan seeds (remove (key seed) entries ++ (key seed, r) ∷ []) in
        record later { rows = (key seed, r) ∷ later.rows }
    | none ↦ let later = scan seeds entries in record later { missing = seed ∷ later.missing }
  ]

  -- The loop that stores the new rows.
  unfoldable pub store : ℕ → List ℕ → List (Row V) → Cache V → List (Key × Row V) × Cache V
  unfolding put trim_rows
  store memory [] matrix c = ([], c)
  store memory (seed ∷ seeds) [] c = ([], c)
  store memory (seed ∷ seeds) (r ∷ matrix) c =
      let c' : Cache V = record {
        entries = put (key seed) r c.entries;
        bytes = c.bytes + nbytes r;
      } in
      let (rows, end) = store memory seeds matrix (trim_rows memory c') in
      ((key seed, r) ∷ rows, end)

module _ {V Rng : Type 0} (is_finite : V → Bool) (sha256 : List V → String)
    (trace_rng : ℕ → String → Rng) where
  abbrev pub row_key : GeneratedRows V Rng → String → ℕ → ℕ → Key
  row_key source tag n seed = record { source = source.id; tag = tag; seed = seed; length = n }

  -- `if missing:` and what follows; a failed generation leaves the cache as the scan left it.
  unfoldable pub fill :
      GeneratedRows V Rng → String → ℕ → ℕ → Scan V → ℕ → Result (List (Key × Row V)) × Cache V
  unfolding store
  fill source tag n memory s bytes =
      let c : Cache V = record { entries = s.entries; bytes = bytes } in
      elim s.missing [
        | [] ↦ (ok s.rows, c)
        | x ∷ xs ↦
            elim (generate is_finite sha256 source (map (λ seed. trace_rng seed tag) (x ∷ xs)) n) [
              | raise e ↦ (raise e, c)
              | ok matrix ↦
                  let (rows, c') = store (row_key source tag n) memory (x ∷ xs) matrix c in
                  (ok (s.rows ++ rows), c')
            ]
      ]

  -- `Snapshot.rows`
  unfoldable pub rows :
      GeneratedRows V Rng
      → String
      → List ℕ
      → ℕ
      → ℕ
      → Cache V
      → Result (List (Key × Row V)) × Cache V
  unfolding trim_rows scan fill sorted_set
  rows source tag seeds n memory c =
      let c' = trim_rows memory c in
      fill source tag n memory (scan (row_key source tag n) (sorted_set seeds) c'.entries) c'.bytes
