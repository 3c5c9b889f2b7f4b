-- ===== src/Inputs/Bootstrap/Panel.antt =====
-- cimba/inputs/bootstrap.py: the members of a panel are resampled together.
use cimba_python.Base.{
  raise_if-ok, ℕ, zero, suc, ◌≡◌, refl, ap, ◌∙◌, sym, Bool, true, false, not, List, [], ◌∷◌, map,
  Result, ok, raise_if, input_error, >>=-eq-ok, >>-eq-ok, arith, length, ◌==◌, ==_iff, gather,
  element, ok_injective, subst,
}
use cimba_python.Inputs.Bootstrap.{
  Rng, all_of_length, equal_lengths, check_columns, joint, joint_draw, stationary_draw,
  stationary_indices,
}

gather-element :
    {V : Type 0} (values : List V) (is : List ℕ) (t : ℕ) {vs : List V} {v : V}
    → gather values is ≡ ok vs
    → element vs t ≡ ok v
    → (s : ℕ) × (element is t ≡ ok s) × (element values s ≡ ok v)
unfolding gather
gather-element values [] t {v = v} h at =
    absurd (no_element (subst (λ xs. element xs t ≡ ok v) (sym (ok_injective h)) at))
  where
    no_element : element [] t ≡ ok v → ⊥
    no_element q = cc
gather-element values (i ∷ is) zero {v = v} h at =
    let (w, e, h1) = >>=-eq-ok (element values i) _ h in
    let (ws, e', h2) = >>=-eq-ok (gather values is) _ h1 in
    (i, refl, e ∙ subst (λ xs. element xs 0 ≡ ok v) (sym (ok_injective h2)) at)
gather-element values (i ∷ is) (suc t) {v = v} h at =
    let (w, e, h1) = >>=-eq-ok (element values i) _ h in
    let (ws, e', h2) = >>=-eq-ok (gather values is) _ h1 in
    gather-element values is t e'
      (subst (λ xs. element xs (suc t) ≡ ok v) (sym (ok_injective h2)) at)

module _ (g : Rng) {V : Type 0} where
  all_of_length-element :
      (n : ℕ) (ys : List (List V)) (i : ℕ) {a : List V}
      → all_of_length g n ys ≡ true
      → element ys i ≡ ok a
      → length a ≡ n
  unfolding all_of_length
  all_of_length-element n [] i h at = cc
  all_of_length-element n (y ∷ ys) zero h at =
      ap length (sym (ok_injective at)) ∙ (==_iff (length y) n).0 (ground arith)
  all_of_length-element n (y ∷ ys) (suc i) h at = all_of_length-element n ys i (ground arith) at

  equal_lengths-element :
      (ys : List (List V)) (i j : ℕ) {a b : List V}
      → equal_lengths g ys ≡ true
      → element ys i ≡ ok a
      → element ys j ≡ ok b
      → length a ≡ length b
  unfolding equal_lengths
  equal_lengths-element [] i j h at at' = cc
  equal_lengths-element (y ∷ ys) i j h at at' = of_first i at ∙ sym (of_first j at')
    where
      of_first : (i : ℕ) {a : List V} → element (y ∷ ys) i ≡ ok a → length a ≡ length y
      of_first zero q = ap length (sym (ok_injective q))
      of_first (suc i) q = all_of_length-element (length y) ys i h q

module _ (g : Rng) {K V : Type 0} (check : List V → Result (List V)) where
  open g use {R}

  -- The columns of a joint panel have one length.
  joint-same_length :
      (panel : List (K × List V)) (i j : ℕ) {members : List (K × List V)} {x y : K × List V}
      → joint g check panel ≡ ok members
      → element members i ≡ ok x
      → element members j ≡ ok y
      → length x.1 ≡ length y.1
  unfolding joint
  joint-same_length panel i j {x = x} {y} h at at' =
      let (_, h1) = >>-eq-ok (raise_if (length panel == 0) input_error) _ h in
      let (found, _, h2) = >>=-eq-ok (check_columns g check panel) _ h1 in
      let (lengths, h3) =
        >>-eq-ok (raise_if (not (equal_lengths g (map (λ m. m.1) found))) input_error) _ h2 in
      let ok_lengths = not_false (raise_if-ok _ _ lengths) in
      equal_lengths-element g (map (λ m. m.1) found) i j ok_lengths
        (element-columns found i (subst (λ ms. element ms i ≡ ok x) (sym (ok_injective h3)) at))
        (element-columns found j (subst (λ ms. element ms j ≡ ok y) (sym (ok_injective h3)) at'))
    where
      not_false : {b : Bool} → not b ≡ false → b ≡ true
      not_false q = ground arith

      element-columns :
          (ms : List (K × List V)) (i : ℕ) {m : K × List V}
          → element ms i ≡ ok m
          → element (map (λ m. m.1) ms) i ≡ ok m.1
      element-columns [] i q = cc
      element-columns (m ∷ ms) zero q = ap (λ a. ok a.1) (ok_injective q)
      element-columns (m ∷ ms) (suc i) q = element-columns ms i q

  -- If a panel is accepted and two of its members are drawn at one length from one state of the
  -- generator, the two rows stay aligned: at each place both take the value of the same row of the
  -- panel.
  pub joint_draw-aligned :
      (panel : List (K × List V)) (valid : Bool) (len : ℕ) (r : R) (i j t : ℕ)
      {members : List (K × List V)} {x y : K × List V} {vs ws : List V} {v w : V}
      → joint g check panel ≡ ok members
      → element members i ≡ ok x
      → element members j ≡ ok y
      → joint_draw g valid x len r ≡ ok vs
      → joint_draw g valid y len r ≡ ok ws
      → element vs t ≡ ok v
      → element ws t ≡ ok w
      → (s : ℕ) × (element x.1 s ≡ ok v) × (element y.1 s ≡ ok w)
  unfolding joint_draw stationary_draw
  joint_draw-aligned panel valid len r i j t {x = x} {y} {w = w} accepted at at' h k in_vs in_ws =
      let same = joint-same_length panel i j accepted at at' in
      let (is, e, h1) = >>=-eq-ok (stationary_indices g valid (length x.1) len r) _ h in
      let (js, d, k1) = >>=-eq-ok (stationary_indices g valid (length y.1) len r) _ k in
      let agree = ok_injective (sym e ∙ ap (λ n. stationary_indices g valid n len r) same ∙ d) in
      let (s, drawn, value) = gather-element x.1 is t h1 in_vs in
      let (s', drawn', value') = gather-element y.1 js t k1 in_ws in
      let one = ok_injective (sym drawn' ∙ ap (λ l. element l t) (sym agree) ∙ drawn) in
      (s, value, subst (λ q. element y.1 q ≡ ok w) one value')
