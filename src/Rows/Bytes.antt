-- ===== src/Rows/Bytes.antt =====
-- The byte count of the row cache is right, and within the limit after every call.
use Prim.Native.String.{String}
use cimba_python.Base.{
  ℕ, suc, ◌+◌, ◌<◌, ◌≤◌, ◌≡◌, ◌≢◌, refl, ◌∙◌, ap, List, [], ◌∷◌, ◌++◌, map, arith, ltb, ◌==◌,
  if_neg, Bool, Bool-cases, Option-cases, Result-cases, inl, inr, All,
}
use cimba_python.Inputs.Sources.{GeneratedRows, generate}
use cimba_python.Rows.{
  Key, Key-discrete, Row, nbytes, Cache, Scan, find, put, remove, trim_rows, insert_sorted,
  sorted_set, scan, store, fill, rows, row_key,
}
use cimba_python.Rows.Entries.{
  occurs, total, find-none, occurs-put, total-put, occurs-remove, total-remove, trim-total,
}

-- The byte count is the sum over the entries, and no key stands twice.
pub record IsCounted (V : Type 0) (c : Cache V) : Type 0 where
  pub counted : total c.entries ≡ c.bytes
  pub distinct : (k : Key) → occurs k c.entries ≤ 1

-- Strictly ascending, as `sorted(set(...))` is.
abbrev pub IsAscending : List ℕ → Type 0
IsAscending [] = Unit
IsAscending (x ∷ xs) = All (λ y. x < y) xs × IsAscending xs

All-below : (x y : ℕ) (ys : List ℕ) → x < y → All (λ z. y < z) ys → All (λ z. x < z) ys
All-below x y [] h a = tt
All-below x y (z ∷ ys) h a = (omega arith, All-below x y ys h a.1)

All-insert_sorted :
    (w x : ℕ) (ys : List ℕ) → w < x → All (λ z. w < z) ys → All (λ z. w < z) (insert_sorted x ys)
unfolding insert_sorted
All-insert_sorted w x [] h a = (h, tt)
All-insert_sorted w x (y ∷ ys) h a = ground (arith, All-insert_sorted w x ys h a.1)

insert_sorted-IsAscending :
    (x : ℕ) (ys : List ℕ) → IsAscending ys → IsAscending (insert_sorted x ys)
unfolding insert_sorted
insert_sorted-IsAscending x [] a = (tt, tt)
insert_sorted-IsAscending x (y ∷ ys) a = elim (Bool-cases (x == y)) [
  | inl e ↦ rw e a
  | inr e ↦ elim (Bool-cases (ltb x y)) [
    | inl l ↦ rw (e, l) ((ground arith, All-below x y ys (ground arith) a.0), a)
    | inr g ↦
        rw (e, g) (All-insert_sorted y x ys (ground arith) a.0, insert_sorted-IsAscending x ys a.1)
  ]
]

pub sorted_set-IsAscending : (xs : List ℕ) → IsAscending (sorted_set xs)
unfolding sorted_set
sorted_set-IsAscending [] = tt
sorted_set-IsAscending (x ∷ xs) =
    insert_sorted-IsAscending x (sorted_set xs) (sorted_set-IsAscending xs)

All-lower :
    (low seed : ℕ) (xs : List ℕ) → low ≤ seed → All (λ s. suc seed ≤ s) xs → All (λ s. low ≤ s) xs
All-lower low seed [] h a = tt
All-lower low seed (x ∷ xs) h a = (omega (arith, a.0), All-lower low seed xs h a.1)

module _ {V : Type 0} (key : ℕ → Key) (key_injective : (s t : ℕ) → key s ≡ key t → s ≡ t) where
  -- What the scan leaves: the same keys and bytes, and ascending seeds that are not in the cache.
  record IsScanned (low : ℕ) (entries : List (Key × Row V)) (s : Scan V) : Type 0 where
    bytes : total s.entries ≡ total entries
    keys : (k : Key) → occurs k s.entries ≡ occurs k entries
    missing : All (λ seed. occurs (key seed) entries ≡ 0) s.missing
    above : All (λ seed. low ≤ seed) s.missing
    ascending : IsAscending s.missing

  All-missing_of_le :
      (es es' : List (Key × Row V)) (seeds : List ℕ)
      → ((k : Key) → occurs k es' ≤ occurs k es)
      → All (λ seed. occurs (key seed) es ≡ 0) seeds
      → All (λ seed. occurs (key seed) es' ≡ 0) seeds
  All-missing_of_le es es' [] h a = tt
  All-missing_of_le es es' (s ∷ seeds) h a =
      (omega (arith, h (key s), a.0), All-missing_of_le es es' seeds h a.1)

  scan-IsScanned :
      (seeds : List ℕ) (low : ℕ) (entries : List (Key × Row V))
      → All (λ seed. low ≤ seed) seeds
      → IsAscending seeds
      → IsScanned low entries (scan key seeds entries)
  unfolding scan
  scan-IsScanned [] low entries h a = record {
    bytes = refl;
    keys = λ k. refl;
    missing = tt;
    above = tt;
    ascending = tt;
  }
  scan-IsScanned (seed ∷ seeds) low entries h a = elim (Option-cases (find (key seed) entries)) [
    | inl e ↦
        let ih = scan-IsScanned seeds (suc seed) entries a.0 a.1 in
        rw (e, scan)
          (record {
            bytes = ih.bytes;
            keys = ih.keys;
            missing = (find-none (key seed) entries e, ih.missing);
            above = (h.0, All-lower low seed (scan key seeds entries).missing h.0 ih.above);
            ascending = (ih.above, ih.ascending);
          })
    | inr (r, e) ↦
        let entries' = remove (key seed) entries ++ (key seed, r) ∷ [] in
        let ih = scan-IsScanned seeds (suc seed) entries' a.0 a.1 in
        let missing = (scan key seeds entries').missing in
        rw (e, scan)
          (record {
            bytes = ih.bytes ∙ total-remove (key seed) r entries e;
            keys = λ k. ih.keys k ∙ occurs-remove k (key seed) r entries e;
            missing =
                All-missing_of_le entries' entries missing
                  (λ k. omega (arith, occurs-remove k (key seed) r entries e)) ih.missing;
            above = All-lower low seed missing h.0 ih.above;
            ascending = ih.ascending;
          })
  ]

  absent_later :
      (seed : ℕ) (r : Row V) (es : List (Key × Row V)) (seeds : List ℕ)
      → occurs (key seed) es ≡ 0
      → All (λ s. seed < s) seeds
      → All (λ s. occurs (key s) es ≡ 0) seeds
      → All (λ s. occurs (key s) (put (key seed) r es) ≡ 0) seeds
  absent_later seed r es [] h a b = tt
  absent_later seed r es (s ∷ seeds) h a b =
      let apart : key s ≢ key seed = λ e. absurd (omega (arith, key_injective s seed e)) in
      (
        rw (occurs-put (key s) (key seed) r es h, if_neg (Key-discrete (key s) (key seed)) apart)
            (omega (arith, b.0)),
        absent_later seed r es seeds h a.1 b.1,
      )

  store-IsCounted :
      (memory : ℕ) (seeds : List ℕ) (matrix : List (Row V)) (c : Cache V)
      → IsAscending seeds
      → All (λ seed. occurs (key seed) c.entries ≡ 0) seeds
      → IsCounted V c
      → c.bytes ≤ memory
      → IsCounted V (store key memory seeds matrix c).1
        × ((store key memory seeds matrix c).1.bytes ≤ memory)
  unfolding store trim_rows
  store-IsCounted memory [] matrix c a m v b = (v, b)
  store-IsCounted memory (seed ∷ seeds) [] c a m v b = (v, b)
  store-IsCounted memory (seed ∷ seeds) (r ∷ matrix) c a m v b =
      let es = put (key seed) r c.entries in
      let trimmed =
        trim-total memory es (c.bytes + nbytes r)
          (omega (arith, total-put (key seed) r c.entries m.0, v.counted)) in
      let c' = trim_rows memory (record { entries = es; bytes = c.bytes + nbytes r }) in
      store-IsCounted memory seeds matrix c' a.1
        (All-missing_of_le es c'.entries seeds trimmed.2
          (absent_later seed r c.entries seeds m.0 a.0 m.1))
        (record {
          counted = trimmed.0;
          distinct = λ k.
              ground
                (arith, trimmed.2 k, occurs-put k (key seed) r c.entries m.0, v.distinct k, m.0);
        })
        trimmed.1

module _ {V Rng : Type 0} (is_finite : V → Bool) (sha256 : List V → String)
    (trace_rng : ℕ → String → Rng) where
  row_key_injective :
      (source : GeneratedRows V Rng) (tag : String) (n s t : ℕ)
      → row_key is_finite sha256 trace_rng source tag n s
        ≡ row_key is_finite sha256 trace_rng source tag n t
      → s ≡ t
  row_key_injective source tag n s t e = ap (λ (k : Key). k.seed) e

  fill-IsCounted :
      (source : GeneratedRows V Rng) (tag : String) (n memory : ℕ) (s : Scan V) (bytes : ℕ)
      → IsAscending s.missing
      → All
          (λ seed. occurs (row_key is_finite sha256 trace_rng source tag n seed) s.entries ≡ 0)
          s.missing
      → IsCounted V (record { entries = s.entries; bytes = bytes })
      → bytes ≤ memory
      → (let c' = (fill is_finite sha256 trace_rng source tag n memory s bytes).1 in
          IsCounted V c' × (c'.bytes ≤ memory))
  unfolding fill
  fill-IsCounted source tag n memory s bytes a m v b = go s.missing a m
    where
      go :
          (missing : List ℕ)
          → IsAscending missing
          → All
              (λ seed. occurs (row_key is_finite sha256 trace_rng source tag n seed) s.entries ≡ 0)
              missing
          → (let c' =
                (fill is_finite sha256 trace_rng source tag n memory
                  (record s { missing = missing })
                  bytes).1 in
              IsCounted V c' × (c'.bytes ≤ memory))
      go [] a m = (v, b)
      go (x ∷ xs) a m =
          elim (Result-cases
            (generate is_finite sha256 source (map (λ seed. trace_rng seed tag) (x ∷ xs)) n)) [
              | inl (matrix, e) ↦
                  rw (e, fill)
                    (store-IsCounted (row_key is_finite sha256 trace_rng source tag n)
                      (row_key_injective source tag n) memory (x ∷ xs) matrix
                      (record { entries = s.entries; bytes = bytes }) a m v b)
              | inr (x', e) ↦ rw (e, fill) (v, b)
            ]

  -- From a cache whose byte count is the sum of its entries' bytes and that holds no key twice,
  -- `rows` leaves such a cache, whether it returns or raises, and the byte count is within the
  -- memory limit of the call.
  pub rows-IsCounted :
      (source : GeneratedRows V Rng) (tag : String) (seeds : List ℕ) (n memory : ℕ) (c : Cache V)
      → IsCounted V c
      → (let c' = (rows is_finite sha256 trace_rng source tag seeds n memory c).1 in
          IsCounted V c' × (c'.bytes ≤ memory))
  unfolding rows
  rows-IsCounted source tag seeds n memory c v =
      let key = row_key is_finite sha256 trace_rng source tag n in
      let trimmed = trim-total memory c.entries c.bytes v.counted in
      let c' = trim_rows memory c in
      let s =
        scan-IsScanned key (row_key_injective source tag n) (sorted_set seeds) 0 c'.entries
          (All-zero (sorted_set seeds)) (sorted_set-IsAscending seeds) in
      let found = scan key (sorted_set seeds) c'.entries in
      fill-IsCounted source tag n memory found c'.bytes s.ascending
        (All-missing_of_le key (row_key_injective source tag n) c'.entries found.entries
          found.missing (λ k. omega (arith, s.keys k)) s.missing)
        (record {
          counted = s.bytes ∙ trimmed.0;
          distinct = λ k. omega (arith, s.keys k, trimmed.2 k, v.distinct k);
        })
        trimmed.1
    where
      All-zero : (xs : List ℕ) → All (λ x. 0 ≤ x) xs
      All-zero [] = tt
      All-zero (x ∷ xs) = (omega arith, All-zero xs)
