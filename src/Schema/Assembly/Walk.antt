-- ===== src/Schema/Assembly/Walk.antt =====
-- The order in which `visit` enters the models: what one call adds to the models visited.
use cimba_python.Base.{
  ℕ, zero, suc, ◌+◌, ◌<◌, ◌≡◌, ◌∙◌, sym, ap, subst, Bool, false, List, [], ◌∷◌, ◌++◌, append-nil,
  append_assoc, Result, ok, raise, raise_if, model_definition_error, >>=-eq-ok, >>-eq-ok,
  raise_if-ok, All, All-append, member, ℕ_discrete, dec_lt, arith,
}
use cimba_python.Base.{count, count-append, IsDistinct}
use cimba_python.Schema.Assembly.{World, children, visit_each, visit}

pub member-false :
    (c : ℕ) (cs : List ℕ) → member ℕ_discrete c cs ≡ false → count ℕ_discrete c cs ≡ 0
unfolding member
member-false c [] h = omega arith
member-false c (d ∷ cs) h = ground (arith, member-false c cs, h)

module _ (w : World) (strict : Bool) where
  -- The children of a list of models, one after another.
  abbrev pub or_empty : Result (List ℕ) → List ℕ
  or_empty (ok cs) = cs
  or_empty (raise e) = []

  unfoldable pub offspring : List ℕ → List ℕ
  offspring [] = []
  offspring (m ∷ ms) = or_empty (children w strict m) ++ offspring ms

  pub offspring-append :
      (k : ℕ) (ms ns : List ℕ)
      → count ℕ_discrete k (offspring (ms ++ ns))
        ≡ count ℕ_discrete k (offspring ms) + count ℕ_discrete k (offspring ns)
  unfolding offspring
  offspring-append k [] ns = omega arith
  offspring-append k (m ∷ ms) ns =
      let cs = or_empty (children w strict m) in
      omega (
        arith,
        offspring-append k ms ns,
        count-append ℕ_discrete k cs (offspring (ms ++ ns)),
        count-append ℕ_discrete k cs (offspring ms),
      )

  -- A model that `visit` could read.
  abbrev pub IsRead : ℕ → Type 0
  IsRead m = (cs : List ℕ) × (children w strict m ≡ ok cs)

  -- A model of the tree below another: itself, or one below a child.
  pub data IsBelow : ℕ → ℕ → Type 0 where
    itself : (m : ℕ) → IsBelow m m
    through :
        {m k : ℕ} (c : ℕ) (cs : List ℕ)
        → children w strict m ≡ ok cs
        → 0 < count ℕ_discrete c cs
        → IsBelow c k
        → IsBelow m k

  -- What is entered below some models: every model is read, and the models are the roots and the
  -- children of the models entered, each as often as it is one.
  pub record Entered (roots visited result : List ℕ) : Type 0 where
    pub entered : List ℕ
    pub appended : result ≡ visited ++ entered
    pub are_read : All IsRead entered
    pub counted :
        (k : ℕ)
        → count ℕ_discrete k entered
          ≡ count ℕ_discrete k roots + count ℕ_discrete k (offspring entered)
    pub are_below :
        (k : ℕ)
        → 0 < count ℕ_discrete k entered
        → (root : ℕ) × (0 < count ℕ_discrete root roots) × IsBelow root k
    pub distinct : IsDistinct ℕ_discrete visited → IsDistinct ℕ_discrete result

  nothing-Entered : (visited : List ℕ) → Entered [] visited visited
  unfolding offspring
  nothing-Entered visited = record {
    entered = [];
    appended = sym (append-nil visited);
    are_read = tt;
    counted = λ k. omega arith;
    are_below = λ k h. absurd (omega arith);
    distinct = λ h. h;
  }

  abbrev IsUnder : List ℕ → ℕ → Type 0
  IsUnder roots k = (root : ℕ) × (0 < count ℕ_discrete root roots) × IsBelow root k

  in_first : (c : ℕ) (cs : List ℕ) (k : ℕ) → IsUnder (c ∷ []) k → IsUnder (c ∷ cs) k
  in_first c cs k u = (u.0, omega (arith, u.1), u.2)

  in_others : (c : ℕ) (cs : List ℕ) (k : ℕ) → IsUnder cs k → IsUnder (c ∷ cs) k
  in_others c cs k u = (u.0, omega (arith, u.1), u.2)

  in_tree :
      (m : ℕ) (cs entered : List ℕ) (k : ℕ)
      → children w strict m ≡ ok cs
      → (0 < count ℕ_discrete k entered → IsUnder cs k)
      → 0 < count ℕ_discrete k (m ∷ entered)
      → IsUnder (m ∷ []) k
  in_tree m cs entered k read below h = elim (ℕ_discrete m k) [
    | yes p ↦ (m, ground arith, subst (IsBelow m) p (itself m))
    | no p ↦ let u = below (ground (arith, h, p)) in (m, ground arith, through u.0 cs read u.1 u.2)
  ]

  Entered-first :
      (c : ℕ) (cs visited middle result : List ℕ)
      → Entered (c ∷ []) visited middle
      → Entered cs middle result
      → Entered (c ∷ cs) visited result
  Entered-first c cs visited middle result a b = record {
    entered = a.entered ++ b.entered;
    appended =
        b.appended
        ∙ ap (λ xs. xs ++ b.entered) a.appended
        ∙ append_assoc visited a.entered b.entered;
    are_read = All-append IsRead a.entered b.entered a.are_read b.are_read;
    counted = λ k. omega (
      arith,
      a.counted k,
      b.counted k,
      offspring-append k a.entered b.entered,
      count-append ℕ_discrete k a.entered b.entered,
    );
    are_below = λ k h. elim (dec_lt 0 (count ℕ_discrete k a.entered)) [
      | yes p ↦ in_first c cs k (a.are_below k p)
      | no p ↦
          in_others c cs k
            (b.are_below k (omega (arith, h, p, count-append ℕ_discrete k a.entered b.entered)))
    ];
    distinct = λ h. b.distinct (a.distinct h);
  }

  pub visit_each-Entered :
      (go : ℕ → List ℕ → Result (List ℕ))
      → ((c : ℕ) (visited result : List ℕ)
          → go c visited ≡ ok result
          → Entered (c ∷ []) visited result)
      → (cs visited result : List ℕ) → visit_each w strict go cs visited ≡ ok result
      → Entered cs visited result
  unfolding visit_each
  visit_each-Entered go each [] visited result h =
      subst (λ r. Entered [] visited r) (ok_eq h) (nothing-Entered visited)
    where
      ok_eq : {x y : List ℕ} → ok x ≡ ok y → x ≡ y
      ok_eq e = cc
  visit_each-Entered go each (c ∷ cs) visited result h =
      let (middle, first, then) = >>=-eq-ok (go c visited) (visit_each w strict go cs) h in
      Entered-first c cs visited middle result (each c visited middle first)
        (visit_each-Entered go each cs middle result then)

  Entered-below :
      (m : ℕ) (cs visited result : List ℕ)
      → member ℕ_discrete m visited ≡ false
      → children w strict m ≡ ok cs
      → Entered cs (visited ++ m ∷ []) result
      → Entered (m ∷ []) visited result
  unfolding offspring
  Entered-below m cs visited result new read below = record {
    entered = m ∷ below.entered;
    appended = below.appended ∙ append_assoc visited (m ∷ []) below.entered;
    are_read = ((cs, read), below.are_read);
    counted = λ k.
        rw read omega
          (arith, below.counted k, count-append ℕ_discrete k cs (offspring below.entered));
    are_below = λ k h. in_tree m cs below.entered k read (below.are_below k) h;
    distinct = λ h. below.distinct (λ k.
        ground
          (arith, h k, count-append ℕ_discrete k visited (m ∷ []), member-false m visited new));
  }

  pub visit-Entered :
      (fuel m : ℕ) (visited result : List ℕ)
      → visit w strict fuel m visited ≡ ok result
      → Entered (m ∷ []) visited result
  unfolding visit
  visit-Entered zero m visited result h = cc
  visit-Entered (suc fuel) m visited result h =
      let (new, rest) =
        >>-eq-ok (raise_if (member ℕ_discrete m visited) model_definition_error) _ h in
      let (cs, read, then) = >>=-eq-ok (children w strict m) _ rest in
      Entered-below m cs visited result
        (raise_if-ok (member ℕ_discrete m visited) model_definition_error new) read
        (visit_each-Entered (visit w strict fuel) (visit-Entered fuel) cs (visited ++ m ∷ []) result
          then)
