-- ===== src/Run/Whole.antt =====
-- cimba/experiments/snapshot.py: a run in chunks yields what one run would.
use mathlib.Core.Path.{ap₂}
use mathlib.Core.List.{map-append}
use native.Mathlib.Nat.{div-add-mod', mod-lt, le_trans, mul-le-mul_right}
use cimba_python.Base.{
  ℕ, zero, suc, ◌+◌, ◌-◌, ◌*◌, ◌/◌, ◌<◌, ◌≤◌, ◌≡◌, refl, sym, ◌≢◌, dec_lt, ◌∙◌, ap, min, max, List,
  [], ◌∷◌, ◌++◌, map, ltb, length, take, drop, All, arith, Bool-cases, length-map, inl, inr,
}
use cimba_python.Run.Chunks.{chunk_size, run_core, slice, chunk_loop, zip_append, concatenate}

take-append-drop : (n : ℕ) (xs : List ℕ) → take n xs ++ drop n xs ≡ xs
take-append-drop zero xs = refl
take-append-drop (suc n) [] = refl
take-append-drop (suc n) (x ∷ xs) = rw (take-append-drop n xs)

take_nil : (n : ℕ) → ◌≡◌ {A = List ℕ} (take n []) []
take_nil zero = refl
take_nil (suc n) = refl

take_of_length-le : (n : ℕ) (row : List ℕ) → length row ≤ n → take n row ≡ row
take_of_length-le zero [] fits = refl
take_of_length-le (suc n) [] fits = refl
take_of_length-le zero (seed ∷ row) fits = absurd (omega arith)
take_of_length-le (suc n) (seed ∷ row) fits =
    ap (λ seeds. seed ∷ seeds) (take_of_length-le n row (omega arith))

length-take-le : (n : ℕ) (xs : List ℕ) → length (take n xs) ≤ n
length-take-le zero xs = omega arith
length-take-le (suc n) [] = omega arith
length-take-le (suc n) (x ∷ xs) = omega (arith, length-take-le n xs)

chunk_size-fits :
    (memory bytes : ℕ) → 0 < bytes → bytes ≤ memory → chunk_size memory bytes * bytes ≤ memory
unfolding chunk_size
chunk_size-fits memory bytes p h =
    let parts = div-add-mod' memory bytes in
    let rest = mod-lt memory p in
    elim (dec_lt 0 (memory / bytes)) [
      | yes q ↦
          let e : max 1 (memory / bytes) ≡ memory / bytes = omega arith in
          rw e (omega (arith, parts))
      | no q ↦
          let e : memory / bytes ≡ 0 = omega arith in absurd (omega (arith, rest, rw e at parts))
    ]

drop_nil : (n : ℕ) → ◌≡◌ {A = List ℕ} (drop n []) []
drop_nil zero = refl
drop_nil (suc n) = refl

-- Every point has a seed for each replication.
abbrev pub IsRectangular : ℕ → List (List ℕ) → Type 0
IsRectangular n = All (λ row. length row ≡ n)

module _ {O : Type 0} (trial : ℕ → ℕ → O) where
  slice-append-drop :
      (start stop : ℕ) (row : List ℕ)
      → start ≤ stop
      → slice trial start stop row ++ drop stop row ≡ drop start row
  slice-append-drop zero stop row h =
      let e : stop - 0 ≡ stop = omega arith in rw e (take-append-drop stop row)
  slice-append-drop (suc start) zero row h = absurd (omega arith)
  slice-append-drop (suc start) (suc stop) [] h = rw take_nil
  slice-append-drop (suc start) (suc stop) (x ∷ row) h =
      let e : suc stop - suc start ≡ stop - start = omega arith in
      rw e (slice-append-drop start stop row (omega arith))

  -- The last chunk takes what is left.
  slice-rest :
      (start stop : ℕ) (row : List ℕ)
      → length row ≤ stop
      → slice trial start stop row ≡ drop start row
  slice-rest zero stop row h =
      let e : stop - 0 ≡ stop = omega arith in rw e (take_of_length-le stop row h)
  slice-rest (suc start) stop [] h = take_nil (stop - suc start)
  slice-rest (suc start) zero (x ∷ row) h = absurd (omega arith)
  slice-rest (suc start) (suc stop) (x ∷ row) h =
      let e : suc stop - suc start ≡ stop - start = omega arith in
      rw e (slice-rest start stop row (omega arith))

  zip_append-run_core :
      (point start stop : ℕ) (seeds : List (List ℕ))
      → start ≤ stop
      → zip_append trial
          (run_core trial point (map (slice trial start stop) seeds))
          (run_core trial point (map (drop stop) seeds))
        ≡ run_core trial point (map (drop start) seeds)
  unfolding zip_append run_core
  zip_append-run_core point start stop [] h = refl
  zip_append-run_core point start stop (row ∷ seeds) h =
      ap₂ ◌∷◌
        (sym (map-append (trial point) (slice trial start stop row) (drop stop row))
          ∙ ap (map (trial point)) (slice-append-drop start stop row h))
        (zip_append-run_core (suc point) start stop seeds h)

  map-slice-rest :
      (start stop : ℕ) (seeds : List (List ℕ))
      → IsRectangular stop seeds
      → map (slice trial start stop) seeds ≡ map (drop start) seeds
  map-slice-rest start stop [] h = refl
  map-slice-rest start stop (row ∷ seeds) h =
      ap₂ ◌∷◌ (slice-rest start stop row (omega (arith, h.0))) (map-slice-rest start stop seeds h.1)

  chunk_loop-done :
      (fuel size replications start : ℕ) (seeds : List (List ℕ))
      → replications ≤ start
      → chunk_loop trial fuel size replications start seeds ≡ []
  unfolding chunk_loop
  chunk_loop-done zero size replications start seeds h = refl
  chunk_loop-done (suc fuel) size replications start seeds h = ground arith

  chunk_loop-more :
      (fuel size replications start : ℕ) (seeds : List (List ℕ))
      → start < replications
      → chunk_loop trial (suc fuel) size replications start seeds
        ≡ run_core trial 0 (map (slice trial start (min replications (start + size))) seeds)
          ∷ chunk_loop trial fuel size replications (start + size) seeds
  unfolding chunk_loop
  chunk_loop-more fuel size replications start seeds h = ground arith

  concatenate-cons :
      (c : List (List O)) (cs : List (List (List O)))
      → cs ≢ []
      → concatenate trial (c ∷ cs) ≡ zip_append trial c (concatenate trial cs)
  unfolding concatenate
  concatenate-cons c [] h = absurd (h refl)
  concatenate-cons c (d ∷ cs) h = refl

  chunk_loop-ne-nil :
      (fuel size replications start : ℕ) (seeds : List (List ℕ))
      → start < replications
      → 0 < fuel
      → chunk_loop trial fuel size replications start seeds ≢ []
  chunk_loop-ne-nil zero size replications start seeds h f e = absurd (omega arith)
  chunk_loop-ne-nil (suc fuel) size replications start seeds h f e =
      cc (chunk_loop-more fuel size replications start seeds h)

  pub concatenate-chunk_loop :
      (fuel size replications start : ℕ) (seeds : List (List ℕ))
      → 0 < size
      → start < replications
      → replications ≤ fuel + start
      → IsRectangular replications seeds
      → concatenate trial (chunk_loop trial fuel size replications start seeds)
        ≡ run_core trial 0 (map (drop start) seeds)
  concatenate-chunk_loop zero size replications start seeds p h f r = absurd (omega arith)
  concatenate-chunk_loop (suc fuel) size replications start seeds p h f r =
      elim (dec_lt (start + size) replications) [
        | yes more ↦
            let stop : min replications (start + size) ≡ start + size = omega arith in
            rw
              (
                chunk_loop-more fuel size replications start seeds h,
                stop,
                concatenate-cons _ (chunk_loop trial fuel size replications (start + size) seeds) (
                    chunk_loop-ne-nil fuel size replications (start + size) seeds more
                      (omega arith)),
                concatenate-chunk_loop fuel size replications (start + size) seeds p more
                    (omega arith) r,
              )
              (zip_append-run_core 0 start (start + size) seeds (omega arith))
        | no last ↦
            let stop : min replications (start + size) ≡ replications = omega arith in
            rw
              (
                chunk_loop-more fuel size replications start seeds h,
                stop,
                chunk_loop-done fuel size replications (start + size) seeds (omega arith),
              )
              (unfold concatenate in
                ap (run_core trial 0) (map-slice-rest start replications seeds r))
      ]

  pub map-drop-zero : (seeds : List (List ℕ)) → map (drop 0) seeds ≡ seeds
  map-drop-zero [] = refl
  map-drop-zero (row ∷ seeds) = ap (λ rows. row ∷ rows) (map-drop-zero seeds)

  length-slice :
      (start stop : ℕ) (row : List ℕ) → length (slice trial start stop row) ≤ stop - start
  length-slice start stop row = length-take-le (stop - start) (drop start row)

  chunk-fits :
      (size memory bytes start stop point : ℕ) (seeds : List (List ℕ))
      → size * bytes ≤ memory
      → stop ≤ start + size
      → All
          (λ row. length row * bytes ≤ memory)
          (run_core trial point (map (slice trial start stop) seeds))
  unfolding run_core
  chunk-fits size memory bytes start stop point [] h k = tt
  chunk-fits size memory bytes start stop point (row ∷ seeds) h k = (
    rw length-map
        (le_trans (mul-le-mul_right bytes (omega (arith, length-slice start stop row))) h),
    chunk-fits size memory bytes start stop (suc point) seeds h k,
  )

  -- Where the rows of one replication fit in the memory, so do the rows of each chunk.
  pub chunk_loop-fits :
      (fuel memory bytes replications start : ℕ) (seeds : List (List ℕ))
      → 0 < bytes
      → bytes ≤ memory
      → All
          (All (λ row. length row * bytes ≤ memory))
          (chunk_loop trial fuel (chunk_size memory bytes) replications start seeds)
  unfolding chunk_loop
  chunk_loop-fits zero memory bytes replications start seeds p h = tt
  chunk_loop-fits (suc fuel) memory bytes replications start seeds p h =
      elim (Bool-cases (ltb start replications)) [
        | inl more ↦
            let size = chunk_size memory bytes in
            rw more (
              chunk-fits size memory bytes start (min replications (start + size)) 0 seeds
                  (chunk_size-fits memory bytes p h) (omega arith),
              chunk_loop-fits fuel memory bytes replications (start + size) seeds p h,
            )
        | inr done ↦ rw done tt
      ]
