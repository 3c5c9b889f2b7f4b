-- ===== src/Rows/Coherent.antt =====
-- The row cache is transparent: a row that it returns is the row that the source generates.
use Prim.Native.String.{String}
use cimba_python.Base.{
  ℕ, ◌+◌, ◌-◌, ◌<◌, ◌≤◌, ◌≡◌, some, List, [], ◌∷◌, ◌++◌, map, arith, count, count-append, same, ltb,
  if_pos, if_neg, Bool, Bool-cases, Option-cases, Result-cases, inl, inr, All, All-append, ok,
  ℕ_discrete, >>=-eq-ok,
}
use mathlib.Core.List.{map-append}
use cimba_python.Inputs.Sources.{GeneratedRows, generate, generate_row, generate_rows}
use cimba_python.Rows.{
  Key, Key-discrete, Row, nbytes, Cache, find, put, remove, trim, trim_rows, insert_sorted,
  sorted_set, scan, store, fill, rows, row_key,
}
use cimba_python.Rows.Entries.{occurs}

same-key : (key : ℕ → Key) (s x : ℕ) → same ℕ_discrete s x ≤ same Key-discrete (key s) (key x)
same-key key s x = ground arith

count-insert_sorted :
    (s x : ℕ) (ys : List ℕ)
    → 0 < same ℕ_discrete s x + count ℕ_discrete s ys
    → 0 < count ℕ_discrete s (insert_sorted x ys)
unfolding insert_sorted
count-insert_sorted s x [] h = h
count-insert_sorted s x (y ∷ ys) h = ground (arith, count-insert_sorted s x ys)

count-sorted_set :
    (s : ℕ) (xs : List ℕ) → 0 < count ℕ_discrete s xs → 0 < count ℕ_discrete s (sorted_set xs)
unfolding sorted_set
count-sorted_set s [] h = h
count-sorted_set s (x ∷ xs) h =
    count-insert_sorted s x (sorted_set xs) (ground (arith, count-sorted_set s xs))

module _ {V : Type 0} (P : Key → Row V → Type 0) where
  -- The predicate holds of every entry.
  abbrev pub Holds : List (Key × Row V) → Type 0
  Holds = All (λ e. P e.0 e.1)

  find-Holds :
      (k : Key) (es : List (Key × Row V)) {r : Row V} → Holds es → find k es ≡ some r → P k r
  unfolding find
  find-Holds k [] h e = cc
  find-Holds k ((j, s) ∷ es) {r} h e = elim (Key-discrete j k) [
    | yes p ↦
        let f : some s ≡ some r = rw (if_pos (Key-discrete j k) p) at e in
        let g : s ≡ r = cc in rw (← p, ← g) h.0
    | no p ↦ find-Holds k es h.1 (rw (if_neg (Key-discrete j k) p) at e)
  ]

  put-Holds :
      (k : Key) (r : Row V) (es : List (Key × Row V)) → P k r → Holds es → Holds (put k r es)
  unfolding put
  put-Holds k r [] p h = (p, tt)
  put-Holds k r ((j, s) ∷ es) p h = elim (Key-discrete j k) [
    | yes q ↦ rw (if_pos (Key-discrete j k) q) (p, h.1)
    | no q ↦ rw (if_neg (Key-discrete j k) q) (h.0, put-Holds k r es p h.1)
  ]

  remove-Holds : (k : Key) (es : List (Key × Row V)) → Holds es → Holds (remove k es)
  unfolding remove
  remove-Holds k [] h = tt
  remove-Holds k ((j, s) ∷ es) h = elim (Key-discrete j k) [
    | yes q ↦ rw (if_pos (Key-discrete j k) q) h.1
    | no q ↦ rw (if_neg (Key-discrete j k) q) (h.0, remove-Holds k es h.1)
  ]

  trim-Holds :
      (memory : ℕ) (es : List (Key × Row V)) (bytes : ℕ)
      → Holds es
      → Holds (trim memory es bytes).entries
  unfolding trim
  trim-Holds memory [] bytes h = tt
  trim-Holds memory ((k, r) ∷ es) bytes h = elim (Bool-cases (ltb memory bytes)) [
    | inl e ↦ rw e (trim-Holds memory es (bytes - nbytes r) h.1)
    | inr e ↦ rw e h
  ]

  module _ (key : ℕ → Key) where
    -- Every seed has its row, or is missing.
    abbrev IsCovered : List ℕ → List (Key × Row V) → List ℕ → Type 0
    IsCovered seeds found missing =
        (seed : ℕ)
        → count ℕ_discrete seed seeds ≤ occurs (key seed) found + count ℕ_discrete seed missing

    scan-Holds :
        (seeds : List ℕ) (es : List (Key × Row V))
        → Holds es
        → (let s = scan key seeds es in
            Holds s.rows × Holds s.entries × IsCovered seeds s.rows s.missing)
    unfolding scan
    scan-Holds [] es h = (tt, h, λ seed. omega arith)
    scan-Holds (x ∷ seeds) es h = elim (Option-cases (find (key x) es)) [
      | inl e ↦
          let (found, kept, covered) = scan-Holds seeds es h in
          rw (e, scan) (found, kept, λ s. omega (arith, covered s))
      | inr (r, e) ↦
          let p = find-Holds (key x) es h e in
          let es' = remove (key x) es ++ (key x, r) ∷ [] in
          let (found, kept, covered) = scan-Holds seeds es' (
            All-append _ (remove (key x) es) ((key x, r) ∷ []) (remove-Holds (key x) es h)
              (p, tt)) in
          rw (e, scan) ((p, found), kept, λ s. omega (arith, covered s, same-key key s x))
    ]

    -- The generated rows, each right for its seed.
    abbrev IsMatrix : List ℕ → List (Row V) → Type 0
    IsMatrix [] matrix = Unit
    IsMatrix (seed ∷ seeds) [] = ⊥
    IsMatrix (seed ∷ seeds) (r ∷ matrix) = P (key seed) r × IsMatrix seeds matrix

    store-Holds :
        (memory : ℕ) (seeds : List ℕ) (matrix : List (Row V)) (c : Cache V)
        → IsMatrix seeds matrix
        → Holds c.entries
        → (let s = store key memory seeds matrix c in
            Holds s.0
            × Holds s.1.entries
            × ((seed : ℕ) → count ℕ_discrete seed seeds ≤ occurs (key seed) s.0))
    unfolding store trim_rows
    store-Holds memory [] matrix c m h = (tt, h, λ seed. omega arith)
    store-Holds memory (x ∷ seeds) [] c m h = absurd m
    store-Holds memory (x ∷ seeds) (r ∷ matrix) c m h =
        let es = put (key x) r c.entries in
        let c' = trim memory es (c.bytes + nbytes r) in
        let (stored, kept, covered) =
          store-Holds memory seeds matrix c' m.1
            (trim-Holds memory es (c.bytes + nbytes r) (put-Holds (key x) r c.entries m.0 h)) in
        ((m.0, stored), kept, λ seed. omega (arith, covered seed, same-key key seed x))

module _ {V Rng : Type 0} (is_finite : V → Bool) (sha256 : List V → String)
    (trace_rng : ℕ → String → Rng) (source_of : ℕ → GeneratedRows V Rng) where
  -- The row that the source of a key generates for its seed, tag and length.
  abbrev pub IsGenerated : Key → Row V → Type 0
  IsGenerated k r =
      generate_row is_finite sha256 (source_of k.source) k.length (trace_rng k.seed k.tag) ≡ ok r

  module _ (source : GeneratedRows V Rng) (known : source_of source.id ≡ source) (tag : String)
      (n : ℕ) where
    abbrev key_of : ℕ → Key
    key_of = row_key is_finite sha256 trace_rng source tag n

    generate_rows-IsMatrix :
        (seeds : List ℕ) {matrix : List (Row V)}
        → generate_rows is_finite sha256 source n (map (λ seed. trace_rng seed tag) seeds)
          ≡ ok matrix
        → IsMatrix IsGenerated key_of seeds matrix
    unfolding generate_rows
    generate_rows-IsMatrix [] h = tt
    generate_rows-IsMatrix (x ∷ seeds) {matrix} h =
        let (row, e, h1) =
          >>=-eq-ok (generate_row is_finite sha256 source n (trace_rng x tag)) _ h in
        let (rest, e', h2) =
          >>=-eq-ok
            (generate_rows is_finite sha256 source n (map (λ seed. trace_rng seed tag) seeds)) _
            h1 in
        let f : row ∷ rest ≡ matrix = cc in rw (← f) (rw known e, generate_rows-IsMatrix seeds e')

    generate-rows :
        (rngs : List Rng) {matrix : List (Row V)}
        → generate is_finite sha256 source rngs n ≡ ok matrix
        → generate_rows is_finite sha256 source n rngs ≡ ok matrix
    unfolding generate
    generate-rows rngs h = ground arith

    fill-Holds :
        (memory : ℕ) (found : List (Key × Row V)) (missing : List ℕ) (es : List (Key × Row V))
        (bytes : ℕ)
        → Holds IsGenerated found
        → Holds IsGenerated es
        → (let out =
              fill is_finite sha256 trace_rng source tag n memory
                (record { rows = found; missing = missing; entries = es })
                bytes in
            Holds IsGenerated out.1.entries
            × ((rs : List (Key × Row V))
                → out.0 ≡ ok rs
                → Holds IsGenerated rs
                  × ((seed : ℕ)
                      → occurs (key_of seed) found + count ℕ_discrete seed missing
                        ≤ occurs (key_of seed) rs)))
    unfolding fill
    fill-Holds memory found [] es bytes f h =
        (h, λ rs e. let g : found ≡ rs = cc in rw (← g) (f, λ s. omega arith))
    fill-Holds memory found (x ∷ xs) es bytes f h =
        elim (Result-cases
          (generate is_finite sha256 source (map (λ seed. trace_rng seed tag) (x ∷ xs)) n)) [
            | inl (matrix, e) ↦
                let m =
                  generate_rows-IsMatrix (x ∷ xs)
                    (generate-rows (map (λ seed. trace_rng seed tag) (x ∷ xs)) e) in
                let c : Cache V = record { entries = es; bytes = bytes } in
                let (stored, kept, covered) =
                  store-Holds IsGenerated key_of memory (x ∷ xs) matrix c m h in
                rw (e, fill)
                  (
                    kept,
                    λ rs e'.
                        let g : found ++ (store key_of memory (x ∷ xs) matrix c).0 ≡ rs = cc in
                        rw (← g) (
                          All-append _ found (store key_of memory (x ∷ xs) matrix c).0 f stored,
                          λ s. rw (map-append, count-append) (omega (arith, covered s)),
                        ),
                  )
            | inr (x', e) ↦ rw (e, fill) (h, λ rs e'. cc)
          ]

    -- From a cache that holds only rows that its sources generate, `rows` leaves such a cache,
    -- whether it returns or raises. The rows that it returns are the rows that the sources of their
    -- keys generate, and every seed asked for has a row of this source, tag and length.
    pub rows-IsGenerated :
        (seeds : List ℕ) (memory : ℕ) (c : Cache V)
        → Holds IsGenerated c.entries
        → (let out = rows is_finite sha256 trace_rng source tag seeds n memory c in
            Holds IsGenerated out.1.entries
            × ((rs : List (Key × Row V))
                → out.0 ≡ ok rs
                → Holds IsGenerated rs
                  × ((seed : ℕ) → 0 < count ℕ_discrete seed seeds → 0 < occurs (key_of seed) rs)))
    unfolding rows
    rows-IsGenerated seeds memory c h =
        let c' = trim memory c.entries c.bytes in
        let trimmed = trim-Holds IsGenerated memory c.entries c.bytes h in
        let (found, kept, covered) =
          scan-Holds IsGenerated key_of (sorted_set seeds) c'.entries trimmed in
        let s = scan key_of (sorted_set seeds) c'.entries in
        let (coherent, returned) =
          fill-Holds memory s.rows s.missing s.entries c'.bytes found kept in
        (
          coherent,
          λ rs e.
              let (right, all_there) = returned rs e in
              (
                right,
                λ seed asked.
                    omega (arith, covered seed, all_there seed, count-sorted_set seed seeds asked),
              ),
        )
