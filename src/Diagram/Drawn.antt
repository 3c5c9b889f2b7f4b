-- ===== src/Diagram/Drawn.antt =====
-- cimba/diagrams/graph.py: `to_mermaid` draws every node once.
use cimba_python.Base.{
  ℕ, suc, ◌+◌, ◌*◌, ◌≤◌, ◌<◌, ◌≡◌, refl, ap, sym, true, false, Option, none, some, List, [], ◌∷◌,
  ◌++◌, map, ok, >>=-eq-ok, if◌then◌else◌, collect, ok_injective, arith, count, same, IsDistinct,
  ◌⊎◌, Bool-cases, inl, inr,
}
use cimba_python.Graph.{Node, Edge, Group, Graph}
use cimba_python.Diagram.{
  is_empty, Line, header, open_group, draw_node, close_group, draw_edge, has_group, members_of,
  is_grouped, ungrouped, group_lines, find_id, edge_line, mermaid_lines,
}

module _ {K : Type 0} (dec : Discrete K) where
  -- How often the lines draw a node with a key.
  abbrev pub drawn : K → List (Line K) → ℕ
  drawn k [] = 0
  drawn k (draw_node n ∷ ls) = same dec k n.key + drawn k ls
  drawn k (header ∷ ls) = drawn k ls
  drawn k (open_group i g ∷ ls) = drawn k ls
  drawn k (close_group ∷ ls) = drawn k ls
  drawn k (draw_edge i e j ∷ ls) = drawn k ls

  -- How often a key is a node's.
  abbrev pub nodes_with : K → List (Node K) → ℕ
  nodes_with k [] = 0
  nodes_with k (n ∷ ns) = same dec k n.key + nodes_with k ns

  drawn-append : (k : K) (ls ms : List (Line K)) → drawn k (ls ++ ms) ≡ drawn k ls + drawn k ms
  drawn-append k [] ms = omega arith
  drawn-append k (draw_node n ∷ ls) ms = omega (arith, drawn-append k ls ms)
  drawn-append k (header ∷ ls) ms = drawn-append k ls ms
  drawn-append k (open_group i g ∷ ls) ms = drawn-append k ls ms
  drawn-append k (close_group ∷ ls) ms = drawn-append k ls ms
  drawn-append k (draw_edge i e j ∷ ls) ms = drawn-append k ls ms

  drawn-map : (k : K) (ns : List (Node K)) → drawn k (map draw_node ns) ≡ nodes_with k ns
  drawn-map k [] = refl
  drawn-map k (n ∷ ns) = omega (arith, drawn-map k ns)

  -- The groups' members, one group after the other.
  all_members : List (Group K) → List (Node K) → K → ℕ
  all_members [] ns k = 0
  all_members (g ∷ gs) ns k = nodes_with k (members_of dec g.key ns) + all_members gs ns k

  drawn-group_lines :
      (k : K) (i : ℕ) (gs : List (Group K)) (ns : List (Node K))
      → drawn k (group_lines dec i gs ns) ≡ all_members gs ns k
  unfolding group_lines all_members
  drawn-group_lines k i [] ns = refl
  drawn-group_lines k i (g ∷ gs) ns =
      by_members (members_of dec g.key ns) (drawn-group_lines k (suc i) gs ns)
    where
      rest : List (Line K)
      rest = group_lines dec (suc i) gs ns

      by_members :
          (ms : List (Node K))
          → drawn k rest ≡ all_members gs ns k
          → drawn k (
              if is_empty ms
              then rest
              else open_group i g ∷ (map draw_node ms ++ close_group ∷ rest))
            ≡ nodes_with k ms + all_members gs ns k
      by_members [] e = omega (arith, e)
      by_members (m ∷ ms) e =
          omega (arith, drawn-append k (map draw_node ms) (close_group ∷ rest), drawn-map k ms, e)

  no_members : (k : K) (gs : List (Group K)) → all_members gs [] k ≡ 0
  unfolding all_members members_of
  no_members k [] = refl
  no_members k (g ∷ gs) = omega (arith, no_members k gs)

  -- How often a group is a node's.
  hits : Option K → List (Group K) → ℕ
  hits o [] = 0
  hits o (g ∷ gs) = (if has_group dec g.key o then 1 else 0) + hits o gs

  all_members-cons :
      (gs : List (Group K)) (n : Node K) (ns : List (Node K)) (k : K)
      → all_members gs (n ∷ ns) k ≡ hits n.group gs * same dec k n.key + all_members gs ns k
  unfolding all_members members_of hits
  all_members-cons [] n ns k = omega arith
  all_members-cons (g ∷ gs) n ns k = elim (Bool-cases (has_group dec g.key n.group)) [
    | inl e ↦ rw e (grind (arith, all_members-cons gs n ns k))
    | inr e ↦ rw e (grind (arith, all_members-cons gs n ns k))
  ]

  hits-le :
      (o : Option K) (gs : List (Group K)) → IsDistinct dec (map (λ g. g.key) gs) → hits o gs ≤ 1
  unfolding hits
  hits-le none gs d = ground (arith, none_hits gs)
    where
      none_hits : (gs : List (Group K)) → hits none gs ≡ 0
      none_hits [] = refl
      none_hits (g ∷ gs) = omega (arith, none_hits gs)
  hits-le (some h) gs d = omega (arith, some_hits gs, d h)
    where
      some_hits : (gs : List (Group K)) → hits (some h) gs ≡ count dec h (map (λ g. g.key) gs)
      some_hits [] = refl
      some_hits (g ∷ gs) = ground (arith, some_hits gs)

  is_grouped-hits :
      (o : Option K) (gs : List (Group K))
      → ((is_grouped dec gs o ≡ true) × (0 < hits o gs))
        ⊎ ((is_grouped dec gs o ≡ false) × (hits o gs ≡ 0))
  unfolding is_grouped hits
  is_grouped-hits o [] = inr (refl, refl)
  is_grouped-hits o (g ∷ gs) = elim (Bool-cases (has_group dec g.key o)) [
    | inl e ↦ rw e (inl (refl, omega arith))
    | inr e ↦ rw e (elim (is_grouped-hits o gs) [
      | inl p ↦ inl (p.0, omega (arith, p.1))
      | inr p ↦ inr (p.0, omega (arith, p.1))
    ])
  ]

  -- Each node is drawn in its group or after the groups.
  drawn_once :
      (k : K) (gs : List (Group K)) (ns : List (Node K))
      → IsDistinct dec (map (λ g. g.key) gs)
      → all_members gs ns k + nodes_with k (ungrouped dec gs ns) ≡ nodes_with k ns
  unfolding ungrouped
  drawn_once k gs [] d = omega (arith, no_members k gs)
  drawn_once k gs (n ∷ ns) d = elim (is_grouped-hits n.group gs) [
    | inl p ↦ rw p.0 (
        grind (
          arith,
          drawn_once k gs ns d,
          all_members-cons gs n ns k,
          one_hit p.1 (hits-le n.group gs d),
        ))
    | inr p ↦ rw p.0 (grind (arith, drawn_once k gs ns d, all_members-cons gs n ns k, p.1))
  ]
    where
      one_hit : {m : ℕ} → 0 < m → m ≤ 1 → m ≡ 1
      one_hit p q = omega arith

  edges_drawn :
      (k : K) (ns : List (Node K)) (es : List (Edge K)) {ls : List (Line K)}
      → collect (edge_line dec ns) es ≡ ok ls
      → drawn k ls ≡ 0
  unfolding collect edge_line
  edges_drawn k ns [] h = ap (drawn k) (sym (ok_injective h))
  edges_drawn k ns (e ∷ es) h =
      let (l, h1, h2) = >>=-eq-ok (edge_line dec ns e) _ h in
      let (rest, h3, h4) = >>=-eq-ok (collect (edge_line dec ns) es) _ h2 in
      let (i, _, h5) = >>=-eq-ok (find_id dec e.source 0 ns) _ h1 in
      let (j, _, h6) = >>=-eq-ok (find_id dec e.target 0 ns) _ h5 in
      rw (← ok_injective h4, ← ok_injective h6) (edges_drawn k ns es h3)

  -- If the group keys are distinct, the lines that `to_mermaid` writes draw the nodes with a key as
  -- often as the graph has them: no node is lost or drawn twice, in whatever group it is.
  pub mermaid_lines-drawn :
      (g : Graph K) (k : K) {ls : List (Line K)}
      → IsDistinct dec (map (λ h. h.key) g.groups)
      → mermaid_lines dec g ≡ ok ls
      → drawn k ls ≡ nodes_with k g.nodes
  unfolding mermaid_lines
  mermaid_lines-drawn g k d h =
      let (es, drew, h1) = >>=-eq-ok (collect (edge_line dec g.nodes) g.edges) _ h in
      let front = group_lines dec 0 g.groups g.nodes in
      let free = map draw_node (ungrouped dec g.groups g.nodes) in
      rw (← ok_injective h1) (
        omega (
          arith,
          drawn-append k front (free ++ es),
          drawn-append k free es,
          drawn-group_lines k 0 g.groups g.nodes,
          drawn-map k (ungrouped dec g.groups g.nodes),
          edges_drawn k g.nodes g.edges drew,
          drawn_once k g.groups g.nodes d,
        ))
