-- ===== src/Graph/Drain.antt =====
-- The invariant of the `while ready` loop, and what the loop returns.
use cimba_python.Base.{
  ℕ, zero, suc, ◌+◌, ◌≤◌, ◌≡◌, refl, List, [], ◌∷◌, ◌++◌, arith, count, count-snoc, count-append,
  IsDistinct, ◌==◌, if◌then◌else◌, length, length-append, length-le_of_count, ok,
}
use cimba_python.Base.Int.{ℤ, pos}
use cimba_python.Graph.{Edge, drain, relax}
use cimba_python.Graph.Edges.{targets, IsClosed}
use cimba_python.Graph.Relax.{relax-deg}
use cimba_python.Graph.Pending.{pending, pending-snoc, targets-known, IsSorted, IsSorted-snoc}

module _ {K : Type 0} (dec : Discrete K) (ks : List K) (es : List (Edge K)) where
  -- Every key that waits for nothing stands once in the order or in the queue, and no other key.
  pub record Inv (indegree : K → ℤ) (ready order : List K) : Type 0 where
    pub degree : (k : K) → indegree k ≡ pos (pending dec es order k)
    pub placed :
        (k : K)
        → count dec k order + count dec k ready
          ≡ (if pending dec es order k == 0 then count dec k ks else 0)

  Inv-length :
      {indegree : K → ℤ} (ready order : List K)
      → Inv indegree ready order
      → length order + length ready ≤ length ks
  Inv-length ready order v = omega (
    arith,
    length-append order ready,
    length-le_of_count dec (order ++ ready) ks
        (λ k. ground (arith, count-append dec k order ready, v.placed k)),
  )

  module _ (distinct : IsDistinct dec ks) (closed : IsClosed dec ks es) where
    first_lem :
        {indegree : K → ℤ} (x : K) (ready order : List K)
        → Inv indegree (x ∷ ready) order
        → (pending dec es order x ≡ 0) × (count dec x order ≡ 0) × (count dec x ready ≡ 0)
    first_lem x ready order v = ground (arith, v.placed x, distinct x)

    -- One round of the loop keeps the invariant.
    Inv-relax :
        (indegree : K → ℤ) (x : K) (ready order : List K)
        → Inv indegree (x ∷ ready) order
        → (let r = relax dec (targets dec x es) indegree ready in Inv r.0 r.1 (order ++ x ∷ []))
    Inv-relax indegree x ready order v =
        let (_, fresh, _) = first_lem x ready order v in
        let left = λ (k : K). pending-snoc dec es order x k fresh in
        let step = λ (k : K).
          relax-deg dec (targets dec x es) indegree ready (pending dec es order) v.degree
            (λ j. omega (arith, left j)) k in
        record {
          degree = λ k. ground (arith, step k, left k);
          placed = λ k. ground (
            arith,
            step k,
            left k,
            v.placed k,
            count-snoc dec k x order,
            targets-known dec ks es x k closed,
            distinct k,
          );
        }

    pub drain-Inv :
        (fuel : ℕ) (indegree : K → ℤ) (ready order : List K)
        → length ks ≤ fuel + length order
        → Inv indegree ready order
        → IsSorted dec es [] order
        → (order' : List K) × (drain dec (λ k. targets dec k es) fuel indegree ready order
            ≡ ok order')
          × ((k : K)
              → count dec k order' ≡ (if pending dec es order' k == 0 then count dec k ks else 0))
          × IsSorted dec es [] order'
    unfolding drain
    drain-Inv fuel indegree [] order h v s = (order, refl, λ k. omega (arith, v.placed k), s)
    drain-Inv zero indegree (x ∷ ready) order h v s =
        absurd (omega (arith, Inv-length (x ∷ ready) order v))
    drain-Inv (suc fuel) indegree (x ∷ ready) order h v s =
        let r = relax dec (targets dec x es) indegree ready in
        drain-Inv fuel r.0 r.1 (order ++ x ∷ []) (omega (arith, length-append order (x ∷ [])))
          (Inv-relax indegree x ready order v)
          (IsSorted-snoc dec es [] order x s (first_lem x ready order v).0)
