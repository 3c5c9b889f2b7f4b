-- ===== src/Tests/Diagram.antt =====
-- Dependency orders of small graphs.
use cimba_python.Base.{
  ℕ, ◌≡◌, ◌⊎◌, refl, none, List, [], ◌∷◌, ok, raise, value_error, key_error, if◌then◌else◌, ◌==◌,
  arith, count, IsDistinct, ℕ_discrete,
}
use cimba_python.Base.Int.{◌+ℤ◌, ◌-ℤ◌}
use cimba_python.Graph.{
  Graph, Node, Edge, keys, topological_order, record_edge, record_edges, relax, drain,
  initial_ready, check_order,
}
use cimba_python.Graph.Edges.{IsClosed}
use cimba_python.Graph.Topological.{
  IsTopological, IsRanked, topological_order-IsTopological, topological_order_complete,
  topological_order-error,
}

program : Unit {0}
unfolding topological_order record_edge record_edges relax drain initial_ready check_order
    ℕ_discrete ◌+ℤ◌ ◌-ℤ◌
program = tt

abbrev node : ℕ → Node ℕ
node k = record { key = k; label = "n"; kind = "process"; group = none }

abbrev edge : ℕ → ℕ → Edge ℕ
edge a b = record { source = a; target = b; label = none; style = "solid" }

-- 2 feeds 0 and 1, and 0 feeds 1.
abbrev line : Graph ℕ
line = record {
  nodes = node 0 ∷ node 1 ∷ node 2 ∷ [];
  edges = edge 2 1 ∷ edge 2 0 ∷ edge 0 1 ∷ [];
  groups = [];
}

abbrev loop : Graph ℕ
loop = record line { edges = edge 0 1 ∷ edge 1 0 ∷ [] }

line_order : topological_order ℕ_discrete line ≡ ok (2 ∷ 0 ∷ 1 ∷ [])
unfolding program
line_order = refl

loop_order : topological_order ℕ_discrete loop ≡ raise value_error
unfolding program
loop_order = refl

keys-IsDistinct : IsDistinct ℕ_discrete (0 ∷ 1 ∷ 2 ∷ [])
keys-IsDistinct k = ground arith

topological_order-IsTopological_example :
    ((k : ℕ) → count ℕ_discrete k (2 ∷ 0 ∷ 1 ∷ []) ≡ count ℕ_discrete k (keys line))
    × IsTopological ℕ_discrete (2 ∷ 0 ∷ 1 ∷ []) line.edges
topological_order-IsTopological_example =
    topological_order-IsTopological ℕ_discrete line keys-IsDistinct line_order

-- 2 before 0 before 1.
abbrev rank : ℕ → ℕ
rank k = if k == 2 then 0 else if k == 0 then 1 else 2

line-IsClosed : IsClosed ℕ_discrete (keys line) line.edges
unfolding ℕ_discrete
line-IsClosed = omega arith

topological_order_complete_example :
    (order : List ℕ) × (topological_order ℕ_discrete line ≡ ok order)
topological_order_complete_example =
    topological_order_complete ℕ_discrete line rank keys-IsDistinct line-IsClosed (omega arith)

topological_order-error_example :
    ((value_error ≡ value_error)
      × IsClosed ℕ_discrete (keys loop) loop.edges
      × ((r : ℕ → ℕ) → ¬ IsRanked ℕ_discrete r loop.edges))
    ⊎ ((value_error ≡ key_error) × (¬ IsClosed ℕ_discrete (keys loop) loop.edges))
topological_order-error_example = topological_order-error ℕ_discrete loop keys-IsDistinct loop_order
