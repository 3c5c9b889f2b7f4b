-- ===== src/Base/Count.antt =====
-- Occurrences of a key in a list, as a number: membership, multiplicity and permutation in the
-- form that arithmetic reads.
use Prim.Native.Nat.{ℕ, suc, ◌+◌, ◌≤◌, ◌<◌}
use mathlib.Core.Path.{◌≡◌}
use mathlib.Core.Logic.{ite}
use mathlib.Core.List.{List, [], ◌∷◌, ◌++◌}
use native.Mathlib.Omega.{arith}
use native.Mathlib.Decide.{dec_lt}
use cimba_python.Base.Lists.{length}

module _ {K : Type 0} (dec : Discrete K) where
  -- 1 if the two are one key, else 0.
  abbrev pub same : K → K → ℕ
  same a b = ite (dec a b) 1 0

  abbrev pub count : K → List K → ℕ
  count k [] = 0
  count k (x ∷ xs) = same k x + count k xs

  pub count-append : (k : K) (xs ys : List K) → count k (xs ++ ys) ≡ count k xs + count k ys
  count-append k [] ys = omega arith
  count-append k (x ∷ xs) ys = omega (arith, count-append k xs ys)

  pub count-snoc : (k x : K) (xs : List K) → count k (xs ++ x ∷ []) ≡ count k xs + same k x
  count-snoc k x xs = omega (arith, count-append k xs (x ∷ []))

  -- No key twice.
  abbrev pub IsDistinct : List K → Type 0
  IsDistinct xs = (k : K) → count k xs ≤ 1

  -- The position of the first occurrence, the length if there is none.
  abbrev pub index : K → List K → ℕ
  index k [] = 0
  index k (x ∷ xs) = ite (dec k x) 0 (suc (index k xs))

  pub index-lt : (k : K) (xs : List K) → 0 < count k xs → index k xs < length xs
  index-lt k [] h = omega arith
  index-lt k (x ∷ xs) h = ground (arith, index-lt k xs)

  -- The list without the first occurrence.
  remove : K → List K → List K
  remove k [] = []
  remove k (x ∷ xs) = ite (dec k x) xs (x ∷ remove k xs)

  count-remove :
      (k x : K) (xs : List K) → 0 < count x xs → count k (remove x xs) + same k x ≡ count k xs
  unfolding remove
  count-remove k x [] h = absurd (omega arith)
  count-remove k x (y ∷ xs) h = ground (arith, count-remove k x xs)

  length-remove : (x : K) (xs : List K) → 0 < count x xs → length (remove x xs) + 1 ≡ length xs
  unfolding remove
  length-remove x [] h = absurd (omega arith)
  length-remove x (y ∷ xs) h = ground (arith, length-remove x xs)

  -- A list with no more of any key is no longer.
  pub length-le_of_count :
      (xs ys : List K) → ((k : K) → count k xs ≤ count k ys) → length xs ≤ length ys
  length-le_of_count [] ys h = omega arith
  length-le_of_count (x ∷ xs) ys h =
      let found : 0 < count x ys = ground (arith, h x) in
      omega (
        arith,
        length-remove x ys found,
        length-le_of_count xs (remove x ys) (λ k. ground (arith, h k, count-remove k x ys found)),
      )

  -- Where the lengths agree too, each key stands as often in both.
  pub count-eq_of_length :
      (xs ys : List K)
      → ((k : K) → count k xs ≤ count k ys)
      → length xs ≡ length ys
      → (k : K) → count k xs ≡ count k ys
  count-eq_of_length xs ys h e k = elim (dec_lt (count k xs) (count k ys)) [
    | yes p ↦ absurd (omega (arith, length-le_of_count (k ∷ xs) ys (λ j. ground (arith, h j, p))))
    | no p ↦ omega (arith, h k)
  ]
