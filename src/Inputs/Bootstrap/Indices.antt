-- ===== src/Inputs/Bootstrap/Indices.antt =====
-- cimba/inputs/bootstrap.py: every resampling draws as many values as it is asked for, each of them
-- recorded.
use native.Mathlib.Nat.{mod-lt, mod-add-div}
use cimba_python.Base.{
  ok_injective, ℕ, zero, suc, ◌+◌, ◌-◌, ◌*◌, ◌/◌, ◌≤◌, ◌<◌, ◌≡◌, refl, ap, ◌∙◌, sym, min, true,
  false, List, [], ◌∷◌, ◌++◌, Result, ok, arith, ltb, length, take, length-append, All, All-append,
  gather, element, Bool-cases, inl, inr, ltb→lt, subst, leb, le→leb, ◌&&◌, >>=-eq-ok,
}
use cimba_python.Inputs.Bootstrap.{
  Rng, block_size, run_of, span, ravel, wrap, stationary_loop, stationary_indices, moving_indices,
  circular_indices, iid_draw, moving_draw, circular_draw, stationary_draw,
}

-- What NumPy documents of a generator: integers below the upper bound and not below the lower one,
-- as many as the size asks for, and geometric numbers from 1 on.
pub record Laws (g : Rng) : Type 0 where
  pub integers_range :
      (low high : ℕ) (r : g.R)
      → low < high
      → (low ≤ (g.integers low high r).0) × ((g.integers low high r).0 < high)
  pub sample_length : (low high n : ℕ) (r : g.R) → length (g.sample low high n r) ≡ n
  pub sample_range :
      (low high n : ℕ) (r : g.R)
      → low < high
      → All (λ i. (low ≤ i) × (i < high)) (g.sample low high n r)
  pub geometric_positive : (r : g.R) → 1 ≤ (g.geometric r).0

abbrev pub IsBelow : ℕ → List ℕ → Type 0
IsBelow size = All (λ i. i < size)

length-run_of : (start n size : ℕ) → length (run_of start n size) ≡ n
unfolding run_of
length-run_of start zero size = refl
length-run_of start (suc n) size = ap suc (length-run_of (suc start) n size)

run_of-IsBelow : (start n size : ℕ) → 0 < size → IsBelow size (run_of start n size)
unfolding run_of
run_of-IsBelow start zero size h = tt
run_of-IsBelow start (suc n) size h = (mod-lt start h, run_of-IsBelow (suc start) n size h)

length-wrap : (size : ℕ) (xs : List ℕ) → length (wrap size xs) ≡ length xs
unfolding wrap
length-wrap size [] = refl
length-wrap size (i ∷ xs) = ap suc (length-wrap size xs)

wrap-IsBelow : (size : ℕ) (xs : List ℕ) → 0 < size → IsBelow size (wrap size xs)
unfolding wrap
wrap-IsBelow size [] h = tt
wrap-IsBelow size (i ∷ xs) h = (mod-lt i h, wrap-IsBelow size xs h)

length-span : (start n : ℕ) → length (span start n) ≡ n
unfolding span
length-span start zero = refl
length-span start (suc n) = ap suc (length-span (suc start) n)

span-IsBelow : (start n size : ℕ) → start + n ≤ size → IsBelow size (span start n)
unfolding span
span-IsBelow start zero size h = tt
span-IsBelow start (suc n) size h = (omega arith, span-IsBelow (suc start) n size (omega arith))

length-ravel : (block : ℕ) (starts : List ℕ) → length (ravel block starts) ≡ length starts * block
unfolding ravel
length-ravel block [] = omega arith
length-ravel block (s ∷ starts) =
    length-append (span s block) (ravel block starts)
    ∙ grind (arith, length-span s block, length-ravel block starts)

ravel-IsBelow :
    (block size : ℕ) (starts : List ℕ)
    → block ≤ size
    → All (λ i. (0 ≤ i) × (i < size - block + 1)) starts
    → IsBelow size (ravel block starts)
unfolding ravel
ravel-IsBelow block size [] h k = tt
ravel-IsBelow block size (s ∷ starts) h k =
    All-append (λ i. i < size) (span s block) (ravel block starts)
      (span-IsBelow s block size (omega (arith, k.0.1))) (ravel-IsBelow block size starts h k.1)

pub length-take {ℓ} : {A : Type ℓ} (n : ℕ) (xs : List A) → length (take n xs) ≡ min n (length xs)
length-take zero xs = omega arith
length-take (suc n) [] = omega arith
length-take (suc n) (x ∷ xs) = omega (arith, length-take n xs)

All-take {ℓ κ} :
    {A : Type ℓ} (Holds : A → Type κ) (n : ℕ) (xs : List A) → All Holds xs → All Holds (take n xs)
All-take Holds zero xs h = tt
All-take Holds (suc n) [] h = tt
All-take Holds (suc n) (x ∷ xs) h = (h.0, All-take Holds n xs h.1)

ltb-false : (a b : ℕ) → b ≤ a → ltb a b ≡ false
ltb-false a b h = ground arith

ltb-done : (a b : ℕ) → ltb a b ≡ false → 0 ≡ b - a
ltb-done a b h = ground arith

-- Whole blocks cover the length.
pub blocks_cover : (len block : ℕ) → 1 ≤ block → len ≤ (len + block - 1) / block * block
blocks_cover len block h = grind (
  arith,
  mod-add-div (len + block - 1) block,
  mod-lt (len + block - 1) {m = block} (omega (arith, h)),
)

gather_total :
    {V : Type 0} (values : List V) (is : List ℕ)
    → IsBelow (length values) is
    → (vs : List V) × (gather values is ≡ ok vs) × (length vs ≡ length is)
unfolding gather
gather_total values [] h = ([], refl, refl)
gather_total values (i ∷ is) h =
    let (v, e) = element_total values i h.0 in
    let (vs, e', n) = gather_total values is h.1 in (v ∷ vs, rw (e, e') refl, ap suc n)
  where
    element_total :
        {V : Type 0} (values : List V) (i : ℕ)
        → i < length values
        → (v : V) × (element values i ≡ ok v)
    element_total [] i h = absurd (omega arith)
    element_total (v ∷ values) zero h = (v, refl)
    element_total (v ∷ values) (suc i) h = element_total values i (omega arith)

gather-recorded :
    {V : Type 0} (values : List V) (is : List ℕ) {vs : List V}
    → gather values is ≡ ok vs
    → (k : ℕ) (v : V) → element vs k ≡ ok v
    → (j : ℕ) × (element values j ≡ ok v)
unfolding gather
gather-recorded values [] h k v at =
    absurd (no_element (subst (λ ws. element ws k ≡ ok v) (sym (ok_injective h)) at))
  where
    no_element : element [] k ≡ ok v → ⊥
    no_element q = cc
gather-recorded values (i ∷ is) h zero v at =
    let (w, e, h1) = >>=-eq-ok (element values i) _ h in
    let (ws, e', h2) = >>=-eq-ok (gather values is) _ h1 in
    (i, e ∙ subst (λ xs. element xs 0 ≡ ok v) (sym (ok_injective h2)) at)
gather-recorded values (i ∷ is) h (suc k) v at =
    let (w, e, h1) = >>=-eq-ok (element values i) _ h in
    let (ws, e', h2) = >>=-eq-ok (gather values is) _ h1 in
    gather-recorded values is e' k v
      (subst (λ xs. element xs (suc k) ≡ ok v) (sym (ok_injective h2)) at)

module _ (g : Rng) (laws : Laws g) where
  open g use {R, integers, sample, geometric}
  open laws use {integers_range, sample_length, sample_range, geometric_positive}

  -- A list of indices of the data, as many as asked for.
  abbrev pub Drawn : ℕ → ℕ → List ℕ → Type 0
  Drawn size len is = (length is ≡ len) × IsBelow size is

  stationary_loop_total :
      (fuel size offset len : ℕ) (r : R)
      → 0 < size
      → len ≤ offset + fuel
      → (is : List ℕ) × (stationary_loop g fuel size offset len r ≡ ok is)
        × Drawn size (len - offset) is
  unfolding stationary_loop
  stationary_loop_total zero size offset len r pos enough =
      ([], rw (ltb-false offset len (omega arith)) refl, (omega arith, tt))
  stationary_loop_total (suc fuel) size offset len r pos enough =
      elim (Bool-cases (ltb offset len)) [
        | inl more ↦
            let start = integers 0 size r in
            let run = geometric start.1 in
            let stop = min len (offset + run.0) in
            let positive = geometric_positive start.1 in
            let below = ltb→lt offset len more in
            let (tail, e, (n, small)) =
              stationary_loop_total fuel size stop len run.1 pos (omega (arith, positive)) in
            let block = run_of start.0 (stop - offset) size in
            (
              block ++ tail,
              rw (more, e) refl,
              (
                omega (
                  arith,
                  length-append block tail,
                  n,
                  length-run_of start.0 (stop - offset) size,
                  below,
                  positive,
                ),
                All-append (λ i. i < size) block tail
                    (run_of-IsBelow start.0 (stop - offset) size pos) small,
              ),
            )
        | inr done ↦ ([], rw done refl, (ltb-done offset len done, tt))
      ]

  stationary_total :
      (size len : ℕ) (r : R)
      → 0 < size
      → (is : List ℕ) × (stationary_indices g true size len r ≡ ok is) × Drawn size len is
  unfolding stationary_indices
  stationary_total size len r pos =
      let (is, e, (n, small)) = stationary_loop_total len size 0 len r pos (omega arith) in
      (is, e, (omega (arith, n), small))

  length-take-ravel :
      (block low high len : ℕ) (r : R)
      → 1 ≤ block
      → length (take len (ravel block (sample low high ((len + block - 1) / block) r))) ≡ len
  length-take-ravel block low high len r h =
      let starts = sample low high ((len + block - 1) / block) r in
      omega (
        arith,
        length-take len (ravel block starts),
        enough starts (sample_length low high ((len + block - 1) / block) r),
      )
    where
      enough :
          (starts : List ℕ)
          → length starts ≡ (len + block - 1) / block
          → len ≤ length (ravel block starts)
      enough starts e =
          subst (λ m. len ≤ m) (sym (length-ravel block starts ∙ ap (λ m. m * block) e))
            (blocks_cover len block h)

  moving-Drawn :
      (block size len : ℕ) (r : R)
      → 1 ≤ block
      → block ≤ size
      → Drawn size len (moving_indices g block size len r)
  unfolding moving_indices
  moving-Drawn block size len r h k = (
    length-take-ravel block 0 (size - block + 1) len r h,
    All-take (λ i. i < size) len _
        (ravel-IsBelow block size _ k
          (sample_range 0 (size - block + 1) ((len + block - 1) / block) r (omega arith))),
  )

  circular-Drawn :
      (block size len : ℕ) (r : R)
      → 1 ≤ block
      → 0 < size
      → Drawn size len (circular_indices g block size len r)
  unfolding circular_indices
  circular-Drawn block size len r h k =
      (length-wrap size _ ∙ length-take-ravel block 0 size len r h, wrap-IsBelow size _ k)

  -- A draw that returns as many values as asked for, each of them recorded.
  abbrev pub IsResample : {V : Type 0} → List V → ℕ → Result (List V) → Type 0
  IsResample {V} values len drawn =
      (vs : List V) × (drawn ≡ ok vs)
      × (length vs ≡ len)
      × ((k : ℕ) (v : V) → element vs k ≡ ok v → (j : ℕ) × (element values j ≡ ok v))

  gather-IsResample :
      {V : Type 0} (values : List V) (len : ℕ) (is : List ℕ)
      → Drawn (length values) len is
      → IsResample values len (gather values is)
  gather-IsResample values len is d =
      let (vs, e, n) = gather_total values is d.1 in
      (vs, e, n ∙ d.0, λ k v at. gather-recorded values is e k v at)

  -- If the generator keeps to its laws and there is recorded data, the draws of `iid` and, at a
  -- valid mean, of `stationary` return as many values as asked for, each of them recorded; so do
  -- those of `moving_block` and `circular_block` at a block length from 1 to the data's length.
  pub draws-IsResample :
      {V : Type 0} (values : List V) (block len : ℕ) (r : R)
      → 1 ≤ block
      → block ≤ length values
      → IsResample values len (iid_draw g values len r)
        × IsResample values len (moving_draw g block values len r)
        × IsResample values len (circular_draw g block values len r)
        × IsResample values len (stationary_draw g true values len r)
  unfolding iid_draw moving_draw circular_draw stationary_draw block_size
  draws-IsResample values block len r h k =
      let size = length values in
      let valid : (leb 1 block && leb block size) ≡ true =
        rw (le→leb 1 block h, le→leb block size k) refl in
      let (is, e, d) = stationary_total size len r (omega arith) in
      (
        gather-IsResample values len _
            (sample_length 0 size len r, upper size _ (sample_range 0 size len r (omega arith))),
        rw valid (gather-IsResample values len _ (moving-Drawn block size len r h k)),
        rw valid (gather-IsResample values len _ (circular-Drawn block size len r h (omega arith))),
        rw e (gather-IsResample values len is d),
      )
    where
      upper : (size : ℕ) (is : List ℕ) → All (λ i. (0 ≤ i) × (i < size)) is → IsBelow size is
      upper size [] a = tt
      upper size (i ∷ is) a = (a.0.1, upper size is a.1)
