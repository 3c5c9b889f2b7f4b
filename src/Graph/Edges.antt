-- ===== src/Graph/Edges.antt =====
-- What the first loop of `topological_order` leaves in its two dictionaries.
use cimba_python.Base.{
  ℕ, ◌+◌, ◌<◌, ◌≡◌, refl, List, [], ◌∷◌, ◌++◌, ok, raise, Error, key_error, arith, count, same, All,
  ite, append_assoc, append-nil,
}
use cimba_python.Base.Int.{pos, ◌+ℤ◌, pos_add_one}
use cimba_python.Graph.{Edge, Links, record_edge, record_edges, update}

module _ {K : Type 0} (dec : Discrete K) where
  -- The targets of the edges out of a key, in the order of the edges.
  unfoldable pub targets : K → List (Edge K) → List K
  targets k [] = []
  targets k (e ∷ es) = ite (dec k e.source) (e.target ∷ targets k es) (targets k es)

  -- How many edges end at a key.
  unfoldable pub into : K → List (Edge K) → ℕ
  into k [] = 0
  into k (e ∷ es) = same dec k e.target + into k es

  -- Both ends of every edge are keys.
  abbrev pub IsClosed : List K → List (Edge K) → Type 0
  IsClosed ks = All (λ e. (0 < count dec e.source ks) × (0 < count dec e.target ks))

  -- The links `l` hold the edges `done`.
  pub record Holds (l : Links K) (done : List (Edge K)) : Type 0 where
    pub following : (k : K) → l.following k ≡ targets k done
    pub indegree : (k : K) → l.indegree k ≡ pos (into k done)

  targets-snoc :
      (k : K) (e : Edge K) (es : List (Edge K))
      → targets k (es ++ e ∷ [])
        ≡ ite (dec k e.source) (targets k es ++ e.target ∷ []) (targets k es)
  unfolding targets
  targets-snoc k e [] = ground arith
  targets-snoc k e (d ∷ es) = ground (arith, targets-snoc k e es)

  into-snoc :
      (k : K) (e : Edge K) (es : List (Edge K))
      → into k (es ++ e ∷ []) ≡ into k es + same dec k e.target
  unfolding into
  into-snoc k e [] = omega arith
  into-snoc k e (d ∷ es) = omega (arith, into-snoc k e es)

  abbrev linked : Links K → Edge K → Links K
  linked l e = record {
    following = update dec l.following e.source (l.following e.source ++ e.target ∷ []);
    indegree = update dec l.indegree e.target (l.indegree e.target +ℤ pos 1);
  }

  Holds-linked :
      (l : Links K) (done : List (Edge K)) (e : Edge K)
      → Holds l done
      → Holds (linked l e) (done ++ e ∷ [])
  Holds-linked l done e h = record {
    following = λ k. elim (dec k e.source) [
      | yes p ↦ ground (arith, targets-snoc k e done, h.following k, h.following e.source)
      | no p ↦ ground (arith, targets-snoc k e done, h.following k)
    ];
    indegree = λ k.
        ground
          (arith, into-snoc k e done, h.indegree k, h.indegree e.target, pos_add_one (into k done));
  }

  record_edge-ok :
      (ks : List K) (e : Edge K) (l : Links K)
      → 0 < count dec e.source ks
      → 0 < count dec e.target ks
      → record_edge dec ks e l ≡ ok (linked l e)
  unfolding record_edge
  record_edge-ok ks e l hs ht = ground arith

  pub record_edges-Holds :
      (ks : List K) (es : List (Edge K)) (l : Links K) (done : List (Edge K))
      → IsClosed ks es
      → Holds l done
      → (l' : Links K) × (record_edges dec ks es l ≡ ok l') × Holds l' (done ++ es)
  unfolding record_edges
  record_edges-Holds ks [] l done c h = (l, refl, rw append-nil h)
  record_edges-Holds ks (e ∷ es) l done c h =
      let (l', run, held) =
        record_edges-Holds ks es (linked l e) (done ++ e ∷ []) c.1 (Holds-linked l done e h) in
      (l', rw (record_edge-ok ks e l c.0.0 c.0.1) run, rw append_assoc at held)

  -- An edge that names no node ends the first loop.
  pub record_edges-IsClosed :
      (ks : List K) (es : List (Edge K)) (l : Links K) {l' : Links K}
      → record_edges dec ks es l ≡ ok l'
      → IsClosed ks es
  unfolding record_edges record_edge
  record_edges-IsClosed ks [] l r = tt
  record_edges-IsClosed ks (e ∷ es) l {l'} r =
      ground (arith, record_edges-IsClosed ks es (linked l e) {l' = l'})

  pub record_edges-error :
      (ks : List K) (es : List (Edge K)) (l : Links K) {x : Error}
      → record_edges dec ks es l ≡ raise x
      → x ≡ key_error
  unfolding record_edges record_edge
  record_edges-error ks [] l r = cc
  record_edges-error ks (e ∷ es) l {x} r =
      ground (arith, record_edges-error ks es (linked l e) {x = x})
