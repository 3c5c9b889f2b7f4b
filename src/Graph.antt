-- ===== src/Graph.antt =====
-- cimba/diagrams/graph.py: the diagram graph and its dependency order (Kahn's algorithm). Keys are
-- any type with decidable equality. A dictionary whose keys are the node keys is a function, and
-- an access with another key raises `KeyError`.
pub mod Edges
pub mod Relax
pub mod Pending
pub mod Drain
pub mod Order
pub mod Topological
use Prim.Native.String.{String}
use cimba_python.Base.{
  ℕ, zero, suc, ltb, ◌==◌, if◌then◌else◌, Bool, ◌&&◌, List, [], ◌∷◌, ◌++◌, map, Option, Result, ok,
  raise, Error, key_error, value_error, out_of_fuel, ◌>>=◌, ite, length, count,
}
use cimba_python.Base.Int.{ℤ, pos, ◌+ℤ◌, ◌-ℤ◌, is_zero}

pub record Node (K : Type 0) : Type 0 where
  pub key : K
  pub label : String
  pub kind : String
  pub group : Option K

pub record Edge (K : Type 0) : Type 0 where
  pub source : K
  pub target : K
  pub label : Option String
  pub style : String

pub record Group (K : Type 0) : Type 0 where
  pub key : K
  pub label : String
  pub kind : String

pub record Graph (K : Type 0) : Type 0 where
  pub nodes : List (Node K)
  pub edges : List (Edge K)
  pub groups : List (Group K)

-- The two dictionaries that the first loop fills.
pub record Links (K : Type 0) : Type 0 where
  pub following : K → List K
  pub indegree : K → ℤ

-- `dict.fromkeys(keys, 0)` and the empty lists.
abbrev pub no_links : {K : Type 0} → Links K
no_links = record { following = λ k. []; indegree = λ k. pos 0 }

abbrev pub keys : {K : Type 0} → Graph K → List K
keys g = map (λ n. n.key) g.nodes

module _ {K : Type 0} (dec : Discrete K) where
  -- `d[k] = v`
  abbrev pub update : {V : Type 0} → (K → V) → K → V → K → V
  update d k v j = ite (dec j k) v (d j)

  abbrev pub is_known : List K → K → Bool
  is_known ks k = ltb 0 (count dec k ks)

  -- `Graph.node`: the first node with the key.
  unfoldable pub node : List (Node K) → K → Result (Node K)
  node [] k = raise key_error
  node (n ∷ ns) k = ite (dec n.key k) (ok n) (node ns k)

  -- One round of `for edge in self.edges`.
  unfoldable pub record_edge : List K → Edge K → Links K → Result (Links K)
  record_edge ks e l =
      if is_known ks e.source && is_known ks e.target
      then ok (record {
        following = update l.following e.source (l.following e.source ++ e.target ∷ []);
        indegree = update l.indegree e.target (l.indegree e.target +ℤ pos 1);
      })
      else raise key_error

  unfoldable pub record_edges : List K → List (Edge K) → Links K → Result (Links K)
  record_edges ks [] l = ok l
  record_edges ks (e ∷ es) l = record_edge ks e l >>= record_edges ks es

  -- `for target in following[key]`: the in-degrees, and what is ready.
  unfoldable pub relax : List K → (K → ℤ) → List K → (K → ℤ) × List K
  relax [] indegree ready = (indegree, ready)
  relax (t ∷ ts) indegree ready =
      let left = indegree t -ℤ pos 1 in
      relax ts (update indegree t left) (if is_zero left then ready ++ t ∷ [] else ready)

  -- `while ready`, with a bound on the rounds.
  unfoldable pub drain : (K → List K) → ℕ → (K → ℤ) → List K → List K → Result (List K)
  drain following fuel indegree [] order = ok order
  drain following zero indegree (k ∷ ready) order = raise out_of_fuel
  drain following (suc fuel) indegree (k ∷ ready) order =
      let (indegree', ready') = relax (following k) indegree ready in
      drain following fuel indegree' ready' (order ++ k ∷ [])

  -- The keys with no edge into them.
  unfoldable pub initial_ready : (K → ℤ) → List K → List K
  initial_ready indegree [] = []
  initial_ready indegree (k ∷ ks) =
      let rest = initial_ready indegree ks in if is_zero (indegree k) then k ∷ rest else rest

  -- `if len(order) != len(keys): raise`
  unfoldable pub check_order : List K → List K → Result (List K)
  check_order ks order = if length order == length ks then ok order else raise value_error

  unfoldable pub topological_order : Graph K → Result (List K)
  topological_order g = do
    l ← record_edges (keys g) g.edges no_links
    order ← drain l.following (length (keys g)) l.indegree (initial_ready l.indegree (keys g)) []
    check_order (keys g) order
