-- ===== src/Graph/Order.antt =====
-- What `topological_order` returns: an order of the keys along the edges, exactly when there is one.
use cimba_python.Base.{
  ◌≡◌, refl, fun_ext, List, [], ◌∷◌, arith, count, IsDistinct, ◌==◌, if◌then◌else◌, length,
}
use cimba_python.Base.Int.{ℤ, is_zero}
use cimba_python.Graph.{
  Graph, Edge, Links, no_links, keys, initial_ready, check_order, topological_order,
}
use cimba_python.Graph.Edges.{targets, into, IsClosed, Holds, record_edges-Holds}
use cimba_python.Graph.Pending.{pending, pending-nil, IsSorted}
use cimba_python.Graph.Drain.{Inv, drain-Inv}

module _ {K : Type 0} (dec : Discrete K) where
  pub Holds-no_links : Holds dec no_links []
  unfolding targets into
  Holds-no_links = record { following = λ k. refl; indegree = λ k. refl }

  count-initial_ready :
      (k : K) (ind : K → ℤ) (ks : List K)
      → count dec k (initial_ready dec ind ks) ≡ (if is_zero (ind k) then count dec k ks else 0)
  unfolding initial_ready
  count-initial_ready k ind [] = ground arith
  count-initial_ready k ind (x ∷ ks) = ground (arith, count-initial_ready k ind ks)

  Inv-initial :
      (ks : List K) (es : List (Edge K)) (l : Links K)
      → Holds dec l es
      → Inv dec ks es l.indegree (initial_ready dec l.indegree ks) []
  Inv-initial ks es l h = record {
    degree = λ k. ground (arith, h.indegree k, pending-nil dec es k);
    placed = λ k.
        ground (arith, h.indegree k, pending-nil dec es k, count-initial_ready k l.indegree ks);
  }

  -- The order that the loop leaves: its keys, and what holds of it.
  pub record IsDrained (ks : List K) (es : List (Edge K)) (order : List K) : Type 0 where
    pub placed :
        (k : K) → count dec k order ≡ (if pending dec es order k == 0 then count dec k ks else 0)
    pub sorted : IsSorted dec es [] order

  -- On a graph whose edges join its nodes the loops end, and only the last test can fail.
  pub topological_order-IsDrained :
      (g : Graph K)
      → IsDistinct dec (keys g)
      → IsClosed dec (keys g) g.edges
      → (order : List K) × IsDrained (keys g) g.edges order
        × (topological_order dec g ≡ check_order dec (keys g) order)
  unfolding topological_order IsSorted
  topological_order-IsDrained g distinct closed =
      let ks = keys g in
      let (l, linked, h) = record_edges-Holds dec ks g.edges no_links [] closed Holds-no_links in
      let (order, run, placed, sorted) =
        drain-Inv dec ks g.edges distinct closed (length ks) l.indegree
          (initial_ready dec l.indegree ks) [] (omega arith) (Inv-initial ks g.edges l h) tt in
      (order, record { placed = placed; sorted = sorted }, rw (linked, fun_ext h.following, run))
