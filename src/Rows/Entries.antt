-- ===== src/Rows/Entries.antt =====
-- The entries of the row cache: what `put`, `remove` and `trim` do to the keys and to the bytes.
use cimba_python.Base.{
  ℕ, ◌+◌, ◌-◌, ◌≤◌, ◌≡◌, refl, none, some, List, [], ◌∷◌, ◌++◌, map, arith, count, same, ltb,
  if_pos, if_neg, Bool-cases, inl, inr,
}
use cimba_python.Rows.{Key, Key-discrete, Row, nbytes, find, put, remove, trim}

module _ {V : Type 0} where
  abbrev pub occurs : Key → List (Key × Row V) → ℕ
  occurs k es = count Key-discrete k (map (λ e. e.0) es)

  unfoldable pub total : List (Key × Row V) → ℕ
  total [] = 0
  total ((k, r) ∷ es) = nbytes r + total es

  pub find-none : (k : Key) (es : List (Key × Row V)) → find k es ≡ none → occurs k es ≡ 0
  unfolding find
  find-none k [] h = refl
  find-none k ((j, r) ∷ es) h = ground (arith, find-none k es)

  pub occurs-put :
      (j k : Key) (r : Row V) (es : List (Key × Row V))
      → occurs k es ≡ 0
      → occurs j (put k r es) ≡ same Key-discrete j k + occurs j es
  unfolding put
  occurs-put j k r [] h = refl
  occurs-put j k r ((i, s) ∷ es) h = ground (arith, occurs-put j k r es)

  pub total-put :
      (k : Key) (r : Row V) (es : List (Key × Row V))
      → occurs k es ≡ 0
      → total (put k r es) ≡ total es + nbytes r
  unfolding put total
  total-put k r [] h = omega arith
  total-put k r ((i, s) ∷ es) h = ground (arith, total-put k r es)

  occurs-snoc :
      (j k : Key) (r : Row V) (es : List (Key × Row V))
      → occurs j (es ++ (k, r) ∷ []) ≡ occurs j es + same Key-discrete j k
  occurs-snoc j k r [] = omega arith
  occurs-snoc j k r (e ∷ es) = omega (arith, occurs-snoc j k r es)

  total-snoc :
      (k : Key) (r : Row V) (es : List (Key × Row V))
      → total (es ++ (k, r) ∷ []) ≡ total es + nbytes r
  unfolding total
  total-snoc k r [] = omega arith
  total-snoc k r ((i, s) ∷ es) = omega (arith, total-snoc k r es)

  pub occurs-remove :
      (j k : Key) (r : Row V) (es : List (Key × Row V))
      → find k es ≡ some r
      → occurs j (remove k es ++ (k, r) ∷ []) ≡ occurs j es
  unfolding find remove
  occurs-remove j k r [] h = cc
  occurs-remove j k r ((i, s) ∷ es) h = elim (Key-discrete i k) [
    | yes p ↦ rw (if_pos (Key-discrete i k) p) (
        let e : same Key-discrete j i ≡ same Key-discrete j k = rw p in
        omega (arith, occurs-snoc j k r es))
    | no p ↦
        rw (if_neg (Key-discrete i k) p)
          (omega (arith, occurs-remove j k r es (rw (if_neg (Key-discrete i k) p) at h)))
  ]

  pub total-remove :
      (k : Key) (r : Row V) (es : List (Key × Row V))
      → find k es ≡ some r
      → total (remove k es ++ (k, r) ∷ []) ≡ total es
  unfolding find remove total
  total-remove k r [] h = cc
  total-remove k r ((i, s) ∷ es) h = elim (Key-discrete i k) [
    | yes p ↦
        let e : some s ≡ some r = rw (if_pos (Key-discrete i k) p) at h in
        let e' : s ≡ r = cc in
        rw (if_pos (Key-discrete i k) p, e') (omega (arith, total-snoc k r es))
    | no p ↦
        rw (if_neg (Key-discrete i k) p)
          (omega (arith, total-remove k r es (rw (if_neg (Key-discrete i k) p) at h)))
  ]

  -- What trimming keeps: the sum of the bytes, and no key more often than before.
  pub trim-total :
      (memory : ℕ) (es : List (Key × Row V)) (bytes : ℕ)
      → total es ≡ bytes
      → (total (trim memory es bytes).entries ≡ (trim memory es bytes).bytes)
        × ((trim memory es bytes).bytes ≤ memory)
        × ((k : Key) → occurs k (trim memory es bytes).entries ≤ occurs k es)
  unfolding trim total
  trim-total memory [] bytes h = (h, omega (arith, h), λ k. omega arith)
  trim-total memory ((k, r) ∷ es) bytes h =
      let ih = trim-total memory es (bytes - nbytes r) (omega arith) in
      elim (Bool-cases (ltb memory bytes)) [
        | inl over ↦ rw over (ih.0, ih.1, λ j. omega (arith, ih.2 j))
        | inr fits ↦ rw fits (h, ground arith, λ j. omega arith)
      ]
