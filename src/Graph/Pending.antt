-- ===== src/Graph/Pending.antt =====
-- How many edges a key still waits for, once the keys of an order are done.
use cimba_python.Base.{
  ℕ, ◌+◌, ◌<◌, ◌≡◌, refl, List, [], ◌∷◌, ◌++◌, arith, count, count-snoc, ite, ◌==◌, if◌then◌else◌,
  All, append-nil, append_assoc,
}
use cimba_python.Graph.{Edge}
use cimba_python.Graph.Edges.{targets, into, IsClosed}

module _ {K : Type 0} (dec : Discrete K) where
  -- The edges into `k` whose source is not in `order`.
  unfoldable pub pending : List (Edge K) → List K → K → ℕ
  pending [] order k = 0
  pending (e ∷ es) order k =
      ite (dec k e.target) (if count dec e.source order == 0 then 1 else 0) 0 + pending es order k

  pub pending-nil : (es : List (Edge K)) (k : K) → pending es [] k ≡ into dec k es
  unfolding pending into
  pending-nil [] k = refl
  pending-nil (e ∷ es) k = ground (arith, pending-nil es k)

  -- A key that is done now no longer counts.
  pub pending-snoc :
      (es : List (Edge K)) (order : List K) (x k : K)
      → count dec x order ≡ 0
      → pending es (order ++ x ∷ []) k + count dec k (targets dec x es) ≡ pending es order k
  unfolding pending targets
  pending-snoc [] order x k h = omega arith
  pending-snoc (e ∷ es) order x k h =
      ground (arith, pending-snoc es order x k h, count-snoc dec e.source x order)

  pub targets-known :
      (ks : List K) (es : List (Edge K)) (x k : K)
      → IsClosed dec ks es
      → 0 < count dec k (targets dec x es)
      → 0 < count dec k ks
  unfolding targets
  targets-known ks [] x k c h = absurd (omega arith)
  targets-known ks (e ∷ es) x k c h = ground (arith, targets-known ks es x k c.1)

  -- Nothing is pending for a key whose edges all come from the order.
  pub pending-zero :
      (es : List (Edge K)) (order : List K) (k : K)
      → All (λ e. k ≡ e.target → 0 < count dec e.source order) es
      → pending es order k ≡ 0
  unfolding pending
  pending-zero [] order k h = refl
  pending-zero (e ∷ es) order k h = ground (arith, pending-zero es order k h.1, h.0)

  -- The order runs from sources to targets: each key waits for nothing when it comes.
  unfoldable pub IsSorted : List (Edge K) → List K → List K → Type 0
  IsSorted es seen [] = Unit
  IsSorted es seen (k ∷ ks) = (pending es seen k ≡ 0) × IsSorted es (seen ++ k ∷ []) ks

  pub IsSorted-snoc :
      (es : List (Edge K)) (seen order : List K) (x : K)
      → IsSorted es seen order
      → pending es (seen ++ order) x ≡ 0
      → IsSorted es seen (order ++ x ∷ [])
  unfolding IsSorted
  IsSorted-snoc es seen [] x s h = (rw (append-nil) at h, tt)
  IsSorted-snoc es seen (k ∷ order) x s h =
      (s.0, IsSorted-snoc es (seen ++ k ∷ []) order x s.1 (rw append_assoc h))
