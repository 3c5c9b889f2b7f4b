-- ===== src/Graph/Relax.antt =====
-- What one pass over the targets of a key does to the in-degrees and to the keys that are ready.
use cimba_python.Base.{
  ℕ, suc, ◌+◌, ◌-◌, ◌≤◌, ◌≡◌, List, [], ◌∷◌, ◌++◌, arith, count, count-snoc, same, ◌==◌,
  if◌then◌else◌,
}
use cimba_python.Base.Int.{ℤ, pos, ◌-ℤ◌, pos_sub_one, is_zero}
use cimba_python.Graph.{relax, update}

-- Whether `c` more edges done make a key ready that waited for `n`.
abbrev pub newly : ℕ → ℕ → ℕ
newly n c = if n == 0 then 0 else if n == c then 1 else 0

module _ {K : Type 0} (dec : Discrete K) where
  abbrev less : (K → ℕ) → K → K → ℕ
  less n t k = n k - same dec k t

  less_lem :
      (t : K) (ts : List K) (ind : K → ℤ) (n : K → ℕ)
      → ((k : K) → ind k ≡ pos (n k))
      → ((k : K) → count dec k (t ∷ ts) ≤ n k)
      → (k : K) → update dec ind t (ind t -ℤ pos 1) k ≡ pos (less n t k)
  less_lem t ts ind n e c k =
      let first : n t ≡ suc (n t - 1) = ground (arith, c t) in
      ground (arith, e k, e t, first, pos_sub_one (n t - 1))

  pub relax-deg :
      (ts : List K) (ind : K → ℤ) (ready : List K) (n : K → ℕ)
      → ((k : K) → ind k ≡ pos (n k))
      → ((k : K) → count dec k ts ≤ n k)
      → (k : K)
      → ((relax dec ts ind ready).0 k ≡ pos (n k - count dec k ts))
        × (count dec k (relax dec ts ind ready).1
            ≡ count dec k ready + newly (n k) (count dec k ts))
  unfolding relax
  relax-deg [] ind ready n e c k = ground (arith, e k)
  relax-deg (t ∷ ts) ind ready n e c k =
      let left = ind t -ℤ pos 1 in
      let ih =
        relax-deg ts (update dec ind t left) (if is_zero left then ready ++ t ∷ [] else ready)
          (less n t) (less_lem t ts ind n e c) (λ j. ground (arith, c j)) k in
      ground (arith, ih, less_lem t ts ind n e c t, c k, c t, count-snoc dec k t ready)
