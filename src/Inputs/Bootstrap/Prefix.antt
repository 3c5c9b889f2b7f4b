-- ===== src/Inputs/Bootstrap/Prefix.antt =====
-- cimba/inputs/bootstrap.py: a longer draw from the same generator begins with the shorter one.
use cimba_python.Base.{
  append-nil, ℕ, zero, suc, ◌+◌, ◌-◌, ◌≤◌, ◌<◌, ◌≡◌, refl, ap, ◌∙◌, sym, min, Bool, false, List, [],
  ◌∷◌, ◌++◌, ok, raise, >>=-eq-ok, arith, ltb, ltb→lt, length, gather, element, inl, inr, ◌||◌,
  ◌==◌, Option, ok_injective, subst, if-ok, dec_lt, ◌%◌, out_of_fuel, append_assoc, if◌then◌else◌,
  raise_if, >>-eq-ok, input_error, not,
}
use cimba_python.Inputs.Bootstrap.{
  Rng, run_of, stationary_loop, stationary_indices, stationary_draw, intermittent_loop, demand,
  intermittent_draw, keep_nonzero,
}

-- One list begins with the other.
abbrev pub IsPrefix : {A : Type 0} → List A → List A → Type 0
IsPrefix {A} xs ys = (rest : List A) × (xs ++ rest ≡ ys)

gather-IsPrefix :
    {V : Type 0} (values : List V) (is more : List ℕ) {vs ws : List V}
    → gather values is ≡ ok vs
    → gather values (is ++ more) ≡ ok ws
    → IsPrefix vs ws
unfolding gather
gather-IsPrefix values [] more {ws = ws} h k = (ws, ap (λ xs. xs ++ ws) (sym (ok_injective h)))
gather-IsPrefix values (i ∷ is) more h k =
    let (v, e, h1) = >>=-eq-ok (element values i) _ h in
    let (vs, e', h2) = >>=-eq-ok (gather values is) _ h1 in
    let (w, d, k1) = >>=-eq-ok (element values i) _ k in
    let (ws, d', k2) = >>=-eq-ok (gather values (is ++ more)) _ k1 in
    let (rest, p) = gather-IsPrefix values is more e' d' in
    (
      rest,
      ap (λ xs. xs ++ rest) (sym (ok_injective h2))
          ∙ ap (λ x. x ∷ (vs ++ rest)) (ok_injective (sym e ∙ d))
          ∙ ap (λ xs. w ∷ xs) p
          ∙ ok_injective k2,
    )

run_of-append :
    (start m n size : ℕ)
    → run_of start m size ++ run_of (start + m) n size ≡ run_of start (m + n) size
unfolding run_of
run_of-append start zero n size =
    ap (λ s. run_of s n size) (plus_zero start) ∙ ap (λ k. run_of start k size) (zero_plus n)
  where
    plus_zero : (a : ℕ) → a + 0 ≡ a
    plus_zero a = omega arith

    zero_plus : (a : ℕ) → a ≡ 0 + a
    zero_plus a = omega arith
run_of-append start (suc m) n size =
    ap (λ s. (start % size) ∷ (run_of (suc start) m size ++ run_of s n size)) (shift start m)
    ∙ ap (λ xs. (start % size) ∷ xs) (run_of-append (suc start) m n size)
    ∙ ap (λ k. run_of start k size) (next m n)
  where
    shift : (a b : ℕ) → a + suc b ≡ suc a + b
    shift a b = omega arith

    next : (a b : ℕ) → suc (a + b) ≡ suc a + b
    next a b = omega arith

module _ (g : Rng) where
  open g use {R, integers, sample, geometric}

  stationary_loop_done :
      (f size offset len : ℕ) (r : R) {xs : List ℕ}
      → len ≤ offset
      → stationary_loop g f size offset len r ≡ ok xs
      → [] ≡ xs
  unfolding stationary_loop
  stationary_loop_done zero size offset len r le h = elim (if-ok (ltb offset len) _ _ h) [
    | inl more ↦ absurd (omega (arith, ltb→lt offset len more.0))
    | inr done ↦ ok_injective done.1
  ]
  stationary_loop_done (suc f) size offset len r le h = elim (if-ok (ltb offset len) _ _ h) [
    | inl more ↦ absurd (omega (arith, ltb→lt offset len more.0))
    | inr done ↦ ok_injective done.1
  ]

  -- One pass: the run's first value and length, and what the remaining passes write.
  Pass : ℕ → ℕ → ℕ → ℕ → R → List ℕ → Type 0
  Pass f size offset len r xs =
      let start = integers 0 size r in
      let run = geometric start.1 in
      let stop = min len (offset + run.0) in
      (tail : List ℕ) × (stationary_loop g f size stop len run.1 ≡ ok tail)
      × ((run_of start.0 (stop - offset) size ++ tail) ≡ xs)

  stationary_loop-Pass-suc :
      (f size offset len : ℕ) (r : R) {xs : List ℕ}
      → offset < len
      → stationary_loop g (suc f) size offset len r ≡ ok xs
      → Pass f size offset len r xs
  unfolding stationary_loop Pass
  stationary_loop-Pass-suc f size offset len r lt h = elim (if-ok (ltb offset len) _ _ h) [
    | inl more ↦
        let (tail, e, h1) =
          >>=-eq-ok
            (stationary_loop g f size (min len (offset + (geometric (integers 0 size r).1).0)) len
              (geometric (integers 0 size r).1).1)
            _ more.1 in
        (tail, e, ok_injective h1)
    | inr done ↦ absurd (not_done offset len lt done.0)
  ]
    where
      not_done : (a b : ℕ) → a < b → ltb a b ≡ false → ⊥
      not_done a b p q = ground arith

  stationary_loop-Pass :
      (f size offset len : ℕ) (r : R) {xs : List ℕ}
      → offset < len
      → stationary_loop g f size offset len r ≡ ok xs
      → (f' : ℕ) × (f ≡ suc f') × Pass f' size offset len r xs
  unfolding stationary_loop Pass
  stationary_loop-Pass zero size offset len r lt h = elim (if-ok (ltb offset len) _ _ h) [
    | inl more ↦ absurd (no_raise more.1)
    | inr done ↦ absurd (not_done offset len lt done.0)
  ]
    where
      no_raise : {A : Type 0} {a : A} → raise out_of_fuel ≡ ok a → ⊥
      no_raise q = cc

      not_done : (a b : ℕ) → a < b → ltb a b ≡ false → ⊥
      not_done a b p q = ground arith
  stationary_loop-Pass (suc f) size offset len r lt h =
      (f, refl, stationary_loop-Pass-suc f size offset len r lt h)

  stationary_loop-IsPrefix :
      (f1 f2 size offset m n : ℕ) (r : R) {xs ys : List ℕ}
      → m ≤ n
      → stationary_loop g f1 size offset m r ≡ ok xs
      → stationary_loop g f2 size offset n r ≡ ok ys
      → IsPrefix xs ys
  unfolding Pass
  stationary_loop-IsPrefix zero f2 size offset m n r {ys = ys} le h k = elim (dec_lt offset m) [
    | yes lt ↦
        let (f', e, p) = stationary_loop-Pass 0 size offset m r lt h in absurd (omega (arith, e))
    | no ge ↦ (ys, ap (λ l. l ++ ys) (sym (stationary_loop_done 0 size offset m r (omega arith) h)))
  ]
  stationary_loop-IsPrefix (suc f1) f2 size offset m n r {ys = ys} le h k = elim (dec_lt offset m) [
    | no ge ↦ (
      ys,
      ap (λ l. l ++ ys) (sym (stationary_loop_done (suc f1) size offset m r (omega arith) h)),
    )
    | yes lt ↦
        let (tail1, e1, p1) = stationary_loop-Pass-suc f1 size offset m r lt h in
        let (f2', _, (tail2, e2, p2)) = stationary_loop-Pass f2 size offset n r (omega arith) k in
        let start = integers 0 size r in
        let run = geometric start.1 in
        let stop1 = min m (offset + run.0) in
        let stop2 = min n (offset + run.0) in
        let block1 = run_of start.0 (stop1 - offset) size in
        elim (dec_lt m (offset + run.0)) [
          | no within ↦
              let q : stop2 ≡ stop1 = omega (arith, within, le) in
              let (rest, p) =
                stationary_loop-IsPrefix f1 f2' size stop1 m n run.1 le e1
                  (subst (λ s. stationary_loop g f2' size s n run.1 ≡ ok tail2) q e2) in
              (
                rest,
                ap (λ l. l ++ rest) (sym p1)
                    ∙ append_assoc block1 tail1 rest
                    ∙ ap (λ l. block1 ++ l) p
                    ∙ ap (λ s. run_of start.0 (s - offset) size ++ tail2) (sym q)
                    ∙ p2,
              )
          | yes beyond ↦
              let cut = run_of (start.0 + (stop1 - offset)) (stop2 - stop1) size in
              let whole : (stop1 - offset) + (stop2 - stop1) ≡ stop2 - offset =
                omega (arith, beyond, le, lt) in
              (
                cut ++ tail2,
                ap (λ l. l ++ (cut ++ tail2)) (sym p1)
                    ∙ ap (λ l. (block1 ++ l) ++ (cut ++ tail2))
                        (sym
                          (stationary_loop_done f1 size stop1 m run.1 (omega (arith, beyond)) e1))
                    ∙ ap (λ l. l ++ (cut ++ tail2)) (append-nil block1)
                    ∙ sym (append_assoc block1 cut tail2)
                    ∙ ap (λ l. l ++ tail2)
                        (run_of-append start.0 (stop1 - offset) (stop2 - stop1) size)
                    ∙ ap (λ c. run_of start.0 c size ++ tail2) whole
                    ∙ p2,
              )
        ]
  ]

  -- If the draw of `stationary` returns for two lengths at one state of the generator, the longer
  -- row begins with the shorter one.
  pub stationary_draw-IsPrefix :
      {V : Type 0} (values : List V) (valid : Bool) (m n : ℕ) (r : R) {vs ws : List V}
      → m ≤ n
      → stationary_draw g valid values m r ≡ ok vs
      → stationary_draw g valid values n r ≡ ok ws
      → IsPrefix vs ws
  unfolding stationary_draw stationary_indices
  stationary_draw-IsPrefix values valid m n r {vs} {ws} le h k =
      let size = length values in
      let (is, e, h1) = >>=-eq-ok (stationary_indices g valid size m r) _ h in
      let (js, d, k1) = >>=-eq-ok (stationary_indices g valid size n r) _ k in
      let (_, e') = >>-eq-ok (raise_if (not valid) input_error) _ e in
      let (_, d') = >>-eq-ok (raise_if (not valid) input_error) _ d in
      let (more, p) = stationary_loop-IsPrefix m n size 0 m n r le e' d' in
      gather-IsPrefix values is more h1 (subst (λ l. gather values l ≡ ok ws) (sym p) k1)

  module _ {V : Type 0} (occurs : V → Bool) (zero_value : V) (moved : V → R → Option V × R) where
    intermittent_loop-IsPrefix :
        (m n : ℕ) (state : Bool) (sizes : List V) (r : R) {vs ws : List V}
        → m ≤ n
        → intermittent_loop g occurs zero_value moved m state sizes r ≡ ok vs
        → intermittent_loop g occurs zero_value moved n state sizes r ≡ ok ws
        → IsPrefix vs ws
    unfolding intermittent_loop
    intermittent_loop-IsPrefix zero n state sizes r {ws = ws} le h k =
        (ws, ap (λ l. l ++ ws) (sym (ok_injective h)))
    intermittent_loop-IsPrefix (suc m) zero state sizes r le h k = absurd (omega arith)
    intermittent_loop-IsPrefix (suc m) (suc n) state sizes r le h k =
        let now = g.below (if state then 1 else 0) r in
        let (one, e, h1) = >>=-eq-ok (demand g occurs zero_value moved now.0 sizes now.1) _ h in
        let (xs, e', h2) =
          >>=-eq-ok (intermittent_loop g occurs zero_value moved m now.0 sizes one.1) _ h1 in
        let (two, d, k1) = >>=-eq-ok (demand g occurs zero_value moved now.0 sizes now.1) _ k in
        let (ys, d', k2) =
          >>=-eq-ok (intermittent_loop g occurs zero_value moved n now.0 sizes two.1) _ k1 in
        let agree = ok_injective (sym e ∙ d) in
        let (rest, p) = intermittent_loop-IsPrefix m n now.0 sizes one.1 (omega arith) e' (
          subst (λ o. intermittent_loop g occurs zero_value moved n now.0 sizes o.1 ≡ ok ys)
            (sym agree) d') in
        (
          rest,
          ap (λ l. l ++ rest) (sym (ok_injective h2))
              ∙ ap (λ o. o.0 ∷ (xs ++ rest)) agree
              ∙ ap (λ l. two.0 ∷ l) p
              ∙ ok_injective k2,
        )

    -- If the draw of `intermittent` returns for two lengths at one state of the generator, the
    -- longer series begins with the shorter one.
    pub intermittent_draw-IsPrefix :
        (values : List V) (m n : ℕ) (r : R) {vs ws : List V}
        → m ≤ n
        → intermittent_draw g occurs zero_value moved values m r ≡ ok vs
        → intermittent_draw g occurs zero_value moved values n r ≡ ok ws
        → IsPrefix vs ws
    unfolding intermittent_draw
    intermittent_draw-IsPrefix values m n r le h k =
        let sizes = keep_nonzero g occurs values in
        let bad = ltb (length sizes) 2 || length sizes == length values in
        let start = g.below 2 r in
        let (_, h1) = >>-eq-ok (raise_if bad input_error) _ h in
        let (_, k1) = >>-eq-ok (raise_if bad input_error) _ k in
        intermittent_loop-IsPrefix m n start.0 sizes start.1 le h1 k1
