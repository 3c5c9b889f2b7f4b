-- ===== src/Graph/Topological.antt =====
-- `topological_order` against its contract: dependency order, or an error that says why.
use cimba_python.Base.{
  ℕ, zero, suc, ◌<◌, ◌≡◌, List, [], ◌∷◌, ◌++◌, arith, count, count-snoc, count-eq_of_length,
  length-le_of_count, index, IsDistinct, length, ok, raise, Error, value_error, key_error,
  >>=-eq-ok, Result-cases, All, ◌⊎◌, inl, inr,
}
use cimba_python.Graph.{Graph, Edge, no_links, keys, record_edges, check_order, topological_order}
use cimba_python.Graph.Edges.{
  IsClosed, record_edges-Holds, record_edges-IsClosed, record_edges-error,
}
use cimba_python.Graph.Pending.{pending, pending-zero, IsSorted}
use cimba_python.Graph.Order.{IsDrained, Holds-no_links, topological_order-IsDrained}

module _ {K : Type 0} (dec : Discrete K) where
  -- Every edge leads from an earlier position of the order to a later one.
  abbrev pub IsTopological : List K → List (Edge K) → Type 0
  IsTopological order = All (λ e. index dec e.source order < index dec e.target order)

  -- A numbering that grows along every edge: the graph has no cycle.
  abbrev pub IsRanked : (K → ℕ) → List (Edge K) → Type 0
  IsRanked rank = All (λ e. rank e.source < rank e.target)

  split-IsSorted :
      (e : Edge K) (es : List (Edge K)) (seen order : List K)
      → IsSorted dec (e ∷ es) seen order
      → IsSorted dec (e ∷ []) seen order × IsSorted dec es seen order
  unfolding IsSorted pending
  split-IsSorted e es seen [] s = (tt, tt)
  split-IsSorted e es seen (k ∷ order) s =
      let (one, rest) = split-IsSorted e es (seen ++ k ∷ []) order s.1 in
      ((omega (arith, s.0), one), (omega (arith, s.0), rest))

  edge_sorted :
      (e : Edge K) (seen order : List K)
      → IsSorted dec (e ∷ []) seen order
      → 0 < count dec e.target order
      → (0 < count dec e.source seen) ⊎ (index dec e.source order < index dec e.target order)
  unfolding IsSorted pending
  edge_sorted e seen [] s h = absurd (omega arith)
  edge_sorted e seen (k ∷ order) s h =
      ground (arith, s.0, edge_sorted e (seen ++ k ∷ []) order s.1, count-snoc dec e.source k seen)

  sorted-IsTopological :
      (es : List (Edge K)) (order : List K)
      → All (λ e. 0 < count dec e.target order) es
      → IsSorted dec es [] order
      → IsTopological order es
  sorted-IsTopological [] order h s = tt
  sorted-IsTopological (e ∷ es) order h s =
      let (one, rest) = split-IsSorted e es [] order s in
      (ground (arith, edge_sorted e [] order one h.0), sorted-IsTopological es order h.1 rest)

  placed_targets :
      (ks order : List K) (es : List (Edge K))
      → ((k : K) → count dec k order ≡ count dec k ks)
      → IsClosed dec ks es
      → All (λ e. 0 < count dec e.target order) es
  placed_targets ks order [] p c = tt
  placed_targets ks order (e ∷ es) p c =
      (omega (arith, p e.target, c.0), placed_targets ks order es p c.1)

  check_order-ok :
      (ks order : List K) {result : List K}
      → check_order dec ks order ≡ ok result
      → (length order ≡ length ks) × (order ≡ result)
  unfolding check_order
  check_order-ok ks order h = ground arith

  pub topological_order-IsClosed :
      (g : Graph K) {order : List K}
      → topological_order dec g ≡ ok order
      → IsClosed dec (keys g) g.edges
  unfolding topological_order
  topological_order-IsClosed g h =
      let (l, run, _) = >>=-eq-ok (record_edges dec (keys g) g.edges no_links) _ h in
      record_edges-IsClosed dec (keys g) g.edges no_links run

  -- If the node keys are distinct, an order that `topological_order` returns holds every node key
  -- as often as the nodes do and no other key, and every edge leads from an earlier position of it
  -- to a later one.
  pub topological_order-IsTopological :
      (g : Graph K) {order : List K}
      → IsDistinct dec (keys g)
      → topological_order dec g ≡ ok order
      → ((k : K) → count dec k order ≡ count dec k (keys g)) × IsTopological order g.edges
  topological_order-IsTopological g {order} distinct h =
      let closed = topological_order-IsClosed g h in
      let (found, drained, run) = topological_order-IsDrained dec g distinct closed in
      let (same_length, e) = check_order-ok (keys g) found {result = order} (rw (← run) h) in
      let placed : (k : K) → count dec k order ≡ count dec k (keys g) =
        count-eq_of_length dec order (keys g) (λ k. ground (arith, drained.placed k))
          (rw (← e) same_length) in
      (
        placed,
        sorted-IsTopological g.edges order (placed_targets (keys g) order g.edges placed closed)
            (rw (← e) drained.sorted),
      )

  ready_sources :
      (rank : K → ℕ) (ks order : List K) (k : K) (es all_edges : List (Edge K))
      → IsRanked rank es
      → IsClosed dec ks es
      → ((j : K) → rank j < rank k → count dec j order ≡ count dec j ks)
      → All (λ e. k ≡ e.target → 0 < count dec e.source order) es
  ready_sources rank ks order k [] all_edges r c below = tt
  ready_sources rank ks order k (e ∷ es) all_edges r c below = (
    λ p. ground (arith, below e.source, ap_rank p),
    ready_sources rank ks order k es all_edges r.1 c.1 below,
  )
    where
      ap_rank : k ≡ e.target → rank k ≡ rank e.target
      ap_rank p = rw p

  placed_below :
      (rank : K → ℕ) (ks order : List K) (es : List (Edge K))
      → IsRanked rank es
      → IsClosed dec ks es
      → IsDrained dec ks es order
      → (n : ℕ) (k : K) → rank k < n
      → count dec k order ≡ count dec k ks
  placed_below rank ks order es r c d zero k h = elim h [ ]
  placed_below rank ks order es r c d (suc n) k h = ground (
    arith,
    d.placed k,
    pending-zero dec es order k (
        ready_sources rank ks order k es es r c
          (λ j below. placed_below rank ks order es r c d n j (omega arith))),
  )

  -- If the node keys are distinct, every edge joins two nodes and some numbering of the keys grows
  -- along every edge (the graph has no cycle), `topological_order` returns an order.
  pub topological_order_complete :
      (g : Graph K) (rank : K → ℕ)
      → IsDistinct dec (keys g)
      → IsClosed dec (keys g) g.edges
      → IsRanked rank g.edges
      → (order : List K) × (topological_order dec g ≡ ok order)
  unfolding check_order
  topological_order_complete g rank distinct closed ranked =
      let (found, drained, run) = topological_order-IsDrained dec g distinct closed in
      let placed = λ (k : K).
        placed_below rank (keys g) found g.edges ranked closed drained (suc (rank k)) k
          (omega arith) in
      (
        found,
        ground (
          arith,
          run,
          length-le_of_count dec found (keys g) (λ k. omega (arith, placed k)),
          length-le_of_count dec (keys g) found (λ k. omega (arith, placed k)),
        ),
      )

  check_order-error :
      (ks order : List K) {x : Error} → check_order dec ks order ≡ raise x → x ≡ value_error
  unfolding check_order
  check_order-error ks order h = ground arith

  recorded_of_IsClosed :
      (g : Graph K) {x : Error}
      → record_edges dec (keys g) g.edges no_links ≡ raise x
      → ¬ IsClosed dec (keys g) g.edges
  recorded_of_IsClosed g h closed =
      let (l, linked, _) =
        record_edges-Holds dec (keys g) g.edges no_links [] closed (Holds-no_links dec) in
      cc

  unrecorded :
      (g : Graph K) {x y : Error}
      → record_edges dec (keys g) g.edges no_links ≡ raise y
      → topological_order dec g ≡ raise x
      → x ≡ y
  unfolding topological_order
  unrecorded g r h = ground (arith, r, h)

  -- If the node keys are distinct, `topological_order` raises `ValueError` or `KeyError` when it
  -- raises. After `ValueError` every edge joins two nodes and no numbering of the keys grows along
  -- every edge (there is a cycle); after `KeyError` some edge names no node. The fuel is enough.
  pub topological_order-error :
      (g : Graph K) {x : Error}
      → IsDistinct dec (keys g)
      → topological_order dec g ≡ raise x
      → ((x ≡ value_error)
          × IsClosed dec (keys g) g.edges
          × ((rank : K → ℕ) → ¬ IsRanked rank g.edges))
        ⊎ ((x ≡ key_error) × (¬ IsClosed dec (keys g) g.edges))
  topological_order-error g {x} distinct h =
      elim (Result-cases (record_edges dec (keys g) g.edges no_links)) [
        | inr (y, r) ↦
            let e = record_edges-error dec (keys g) g.edges no_links {x = y} r in
            inr (cc (unrecorded g {x = x} r h), recorded_of_IsClosed g r)
        | inl (l, r) ↦
            let closed = record_edges-IsClosed dec (keys g) g.edges no_links r in
            let (found, _, run) = topological_order-IsDrained dec g distinct closed in
            inl (
              check_order-error (keys g) found (rw (← run) h),
              closed,
              λ rank ranked.
                  let (_, done) = topological_order_complete g rank distinct closed ranked in cc,
            )
      ]
