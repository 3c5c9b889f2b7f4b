-- ===== src/Tests/Drawing.antt =====
-- A diagram of three nodes, of which two stand in a group.
use cimba_python.Base.{ℕ, ◌≡◌, refl, none, some, List, [], ◌∷◌, ok, arith, ℕ_discrete, IsDistinct}
use cimba_python.Graph.{Node, Edge, Group, Graph}
use cimba_python.Diagram.{
  Line, header, open_group, draw_node, close_group, draw_edge, mermaid_lines,
}
use cimba_python.Diagram.Drawn.{drawn, nodes_with, mermaid_lines-drawn}

abbrev desk : Node ℕ
desk = record { key = 1; label = "desk"; kind = "instance"; group = some 9 }

abbrev bank : Node ℕ
bank = record { key = 2; label = "bank"; kind = "instance"; group = none }

abbrev clerk : Node ℕ
clerk = record { key = 3; label = "clerk"; kind = "process"; group = some 9 }

abbrev office : Group ℕ
office = record { key = 9; label = "office"; kind = "static" }

abbrev street : Group ℕ
street = record { key = 8; label = "street"; kind = "static" }

abbrev visit : Edge ℕ
visit = record { source = 2; target = 3; label = none; style = "solid" }

abbrev diagram : Graph ℕ
diagram = record {
  nodes = desk ∷ bank ∷ clerk ∷ [];
  edges = visit ∷ [];
  groups = street ∷ office ∷ [];
}

abbrev lines : List (Line ℕ)
lines =
    header
    ∷ open_group 1 office
    ∷ draw_node desk
    ∷ draw_node clerk
    ∷ close_group
    ∷ draw_node bank
    ∷ draw_edge 1 visit 2
    ∷ []

writes : mermaid_lines ℕ_discrete diagram ≡ ok lines
unfolding mermaid_lines ℕ_discrete
writes = refl

mermaid_lines-drawn_example : drawn ℕ_discrete 3 lines ≡ nodes_with ℕ_discrete 3 diagram.nodes
mermaid_lines-drawn_example = mermaid_lines-drawn ℕ_discrete diagram 3 two_groups writes
  where
    two_groups : IsDistinct ℕ_discrete (8 ∷ 9 ∷ [])
    two_groups k = ground arith
