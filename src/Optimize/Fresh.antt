-- ===== src/Optimize/Fresh.antt =====
-- cimba/optimize/study.py: how the cache grows by the candidates that it does not know.
use cimba_python.Base.{
  suc, ◌+◌, ◌≤◌, ◌≡◌, refl, ap, inl, inr, Bool, true, false, none, some, List, [], ◌∷◌, map, ite,
  arith, length, member, unique, count, Bool-cases, member-count, count-unique-le,
}
use cimba_python.Optimize.{find, known, not_known, insert, update, any_of}

module _ {C : Type 0} (dec : Discrete C) where
  pub member-unique :
      (c : C) (seen cs : List C) → member dec c (unique dec seen cs) ≡ true → member dec c cs ≡ true
  unfolding member unique
  member-unique c seen [] h = cc
  member-unique c seen (d ∷ cs) h =
      ground (arith, member-unique c seen cs, member-unique c (d ∷ seen) cs, h)

module _ {C E : Type 0} (dec : Discrete C) where
  pub find-insert :
      (c d : C) (x : E) (cache : List (C × E))
      → find dec d (insert dec c x cache) ≡ ite (dec c d) (some x) (find dec d cache)
  unfolding find insert
  find-insert c d x [] = refl
  find-insert c d x ((k, y) ∷ cache) = ground (arith, find-insert c d x cache)

  -- Distinct candidates, none of which the cache knows.
  abbrev pub AreFresh : List (C × E) → List C → Type 0
  AreFresh cache [] = Unit
  AreFresh cache (c ∷ cs) =
      (known dec c cache ≡ false) × (member dec c cs ≡ false) × AreFresh cache cs

  length-insert :
      (c : C) (x : E) (cache : List (C × E))
      → known dec c cache ≡ false
      → length (insert dec c x cache) ≡ suc (length cache)
  unfolding insert known find
  length-insert c x [] h = refl
  length-insert c x ((d, y) ∷ cache) h = grow (dec d c) h (length-insert c x cache)
    where
      grow :
          (q : Dec (d ≡ c))
          → elim (ite q (some y) (find dec c cache)) [ none ↦ false | some x ↦ true ] ≡ false
          → (known dec c cache ≡ false → length (insert dec c x cache) ≡ suc (length cache))
          → length (ite q ((d, x) ∷ cache) ((d, y) ∷ insert dec c x cache))
            ≡ suc (suc (length cache))
      grow (yes e) k rest = cc
      grow (no n) k rest = ap suc (rest k)

  known-insert :
      (c d : C) (x : E) (cache : List (C × E))
      → ¬ (c ≡ d)
      → known dec d cache ≡ false
      → known dec d (insert dec c x cache) ≡ false
  unfolding known
  known-insert c d x cache n h = ground (arith, find-insert c d x cache, n, h)

  insert-AreFresh :
      (c : C) (x : E) (cache : List (C × E)) (cs : List C)
      → member dec c cs ≡ false
      → AreFresh cache cs
      → AreFresh (insert dec c x cache) cs
  unfolding member
  insert-AreFresh c x cache [] m h = tt
  insert-AreFresh c x cache (d ∷ cs) m (fresh, once, rest) = (
    known-insert c d x cache (λ e. ground (arith, m, e)) fresh,
    once,
    insert-AreFresh c x cache cs (ground (arith, m)) rest,
  )

  -- The cache grows by the fresh candidates.
  pub length-update :
      (f : C → E) (cache : List (C × E)) (new : List C)
      → AreFresh cache new
      → length (update dec cache new (map f new)) ≡ length cache + length new
  unfolding update
  length-update f cache [] h = omega arith
  length-update f cache (c ∷ new) (fresh, once, rest) = omega (
    arith,
    length-update f (insert dec c (f c) cache) new (insert-AreFresh c (f c) cache new once rest),
    length-insert c (f c) cache fresh,
  )

  pub member-not_known :
      (c : C) (cache : List (C × E)) (cs : List C)
      → member dec c (not_known dec cache cs) ≡ true
      → member dec c cs ≡ true
  unfolding member not_known
  member-not_known c cache [] h = cc
  member-not_known c cache (d ∷ cs) h = ground (arith, member-not_known c cache cs, h)

  not_known-AreFresh :
      (cache : List (C × E)) (cs : List C)
      → ((c : C) → count dec c cs ≤ 1)
      → AreFresh cache (not_known dec cache cs)
  unfolding not_known
  not_known-AreFresh cache [] h = tt
  not_known-AreFresh cache (c ∷ cs) h =
      let rest = not_known-AreFresh cache cs (λ d. ground (arith, h d)) in
      elim (Bool-cases (known dec c cache)) [
        | inl k ↦ rw k rest
        | inr k ↦ rw k (k, absent (member dec c (not_known dec cache cs)) refl, rest)
      ]
    where
      absent : (b : Bool) → member dec c (not_known dec cache cs) ≡ b → b ≡ false
      absent false e = refl
      absent true e =
          absurd (ground (arith, h c, member-count dec c cs (member-not_known c cache cs e)))

  pub new-AreFresh :
      (cache : List (C × E)) (candidates : List C)
      → AreFresh cache (not_known dec cache (unique dec [] candidates))
  new-AreFresh cache candidates =
      not_known-AreFresh cache (unique dec [] candidates) (λ c. count-unique-le dec c [] candidates)

  module _ (f : C → E) (failed : E → Bool) where
    any_of-member :
        (c : C) (cs : List C)
        → member dec c cs ≡ true
        → failed (f c) ≡ true
        → any_of failed (map f cs) ≡ true
    unfolding member any_of
    any_of-member c [] m h = cc
    any_of-member c (d ∷ cs) m h = elim (dec d c) [
      | yes e ↦ rw e (rw h refl)
      | no n ↦ ground (arith, any_of-member c cs (ground (arith, m, n)) h)
    ]

    -- A failure among some of the candidates is one among all.
    pub any_of-inside :
        (xs ys : List C)
        → ((c : C) → member dec c xs ≡ true → member dec c ys ≡ true)
        → any_of failed (map f xs) ≡ true
        → any_of failed (map f ys) ≡ true
    unfolding member any_of
    any_of-inside [] ys sub h = cc
    any_of-inside (x ∷ xs) ys sub h = elim (Bool-cases (failed (f x))) [
      | inl fails ↦ any_of-member x ys (sub x (ground arith)) fails
      | inr works ↦
          any_of-inside xs ys (λ c m. sub c (ground (arith, m))) (ground (arith, h, works))
    ]
