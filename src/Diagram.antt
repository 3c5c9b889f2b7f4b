-- ===== src/Diagram.antt =====
-- cimba/diagrams/graph.py: the lines that `Graph.to_mermaid` writes, in order. A line is what it is
-- about, without its punctuation.
pub mod Drawn
use cimba_python.Base.{
  ℕ, suc, Bool, true, false, not, Option, none, some, List, [], ◌∷◌, ◌++◌, map, Result, ok, raise,
  key_error, ◌>>=◌, if◌then◌else◌, ite, collect, ◌==◌, length,
}
use cimba_python.Graph.{Node, Edge, Group, Graph}

pub data Line (K : Type 0) : Type 0 where
  header : Line K
  open_group : ℕ → Group K → Line K
  draw_node : Node K → Line K
  close_group : Line K
  draw_edge : ℕ → Edge K → ℕ → Line K

-- `not members`
abbrev pub is_empty : {A : Type 0} → List A → Bool
is_empty [] = true
is_empty (x ∷ xs) = false

module _ {K : Type 0} (dec : Discrete K) where
  abbrev pub has_group : K → Option K → Bool
  has_group k none = false
  has_group k (some h) = ite (dec h k) true false

  -- `[node for node in self.nodes if node.group == group.key]`
  unfoldable pub members_of : K → List (Node K) → List (Node K)
  members_of k [] = []
  members_of k (n ∷ ns) =
      let rest = members_of k ns in if has_group k n.group then n ∷ rest else rest

  -- `node.group in grouped`
  unfoldable pub is_grouped : List (Group K) → Option K → Bool
  is_grouped [] o = false
  is_grouped (g ∷ gs) o = if has_group g.key o then true else is_grouped gs o

  unfoldable pub ungrouped : List (Group K) → List (Node K) → List (Node K)
  unfolding is_grouped
  ungrouped gs [] = []
  ungrouped gs (n ∷ ns) =
      let rest = ungrouped gs ns in if is_grouped gs n.group then rest else n ∷ rest

  -- A group without members is left out.
  unfoldable pub group_lines : ℕ → List (Group K) → List (Node K) → List (Line K)
  unfolding members_of
  group_lines i [] ns = []
  group_lines i (g ∷ gs) ns =
      let rest = group_lines (suc i) gs ns in
      let members = members_of g.key ns in
      if is_empty members
      then rest
      else open_group i g ∷ (map draw_node members ++ close_group ∷ rest)

  -- `ids`: the last node with a key gives its number.
  unfoldable pub find_id : K → ℕ → List (Node K) → Result ℕ
  find_id k i [] = raise key_error
  find_id k i (n ∷ ns) = elim (find_id k (suc i) ns) [
    | ok j ↦ ok j
    | raise e ↦ ite (dec n.key k) (ok i) (raise key_error)
  ]

  unfoldable pub edge_line : List (Node K) → Edge K → Result (Line K)
  unfolding find_id
  edge_line ns e = do i ← find_id e.source 0 ns; j ← find_id e.target 0 ns; ok (draw_edge i e j)

  -- `to_mermaid`
  unfoldable pub mermaid_lines : Graph K → Result (List (Line K))
  unfolding group_lines ungrouped edge_line collect
  mermaid_lines g = do
    edges ← collect (edge_line g.nodes) g.edges
    ok (
        header
        ∷ (group_lines 0 g.groups g.nodes ++ (map draw_node (ungrouped g.groups g.nodes) ++ edges)))
