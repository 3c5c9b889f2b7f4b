-- ===== src/Run/Extension/Grown.antt =====
-- A trial that is extended ends, and keeps the beginning of every row.
use cimba_python.Base.{
  ℕ, zero, suc, ◌*◌, ◌≤◌, ◌<◌, ◌≡◌, ◌⊎◌, inl, inr, refl, sym, ap, ◌∙◌, subst, Bool, true, false,
  not, ◌&&◌, ◌||◌, List, [], ◌∷◌, Result, ok, runtime_error, >>=-eq-ok, if-ok, ok_injective, leb,
  ◌==◌, ==_iff, length, take, arith, Bool-cases,
}
use cimba_python.Base.Ends.{ends, >>=-ends, raise_if-ends, if-ends}
use cimba_python.Run.Extension.{
  Source, generated, other, Slot, Outcome, Trial, is_generated, exceeds, array_equal, bound,
  any_exhausted, any_generated, extend_slot, extend_first, extend_all, extend, extend_loop,
  run_trial,
}
use cimba_python.Run.Extension.Next.{IsNext, unchanged, longer, AreNext, left, extend-AreNext}

two_values : ¬ (true ≡ false)
two_values e = cc

module _ {V : Type 0} (equal : V → V → Bool) (rows : ℕ → ℕ → Result (List V))
    (engine : List (List V) → Outcome) where
  abbrev pub doubled : ℕ → ℕ → ℕ
  doubled zero n = n
  doubled (suc e) n = doubled e n * 2

  doubled-le : (e n : ℕ) → n ≤ doubled e n
  doubled-le zero n = omega arith
  doubled-le (suc e) n = omega (arith, doubled-le e n)

  take-take : (m n : ℕ) (xs : List V) → m ≤ n → take m (take n xs) ≡ take m xs
  take-take zero n xs h = refl
  take-take (suc m) zero xs h = absurd (omega (arith, h))
  take-take (suc m) (suc n) [] h = refl
  take-take (suc m) (suc n) (x ∷ xs) h = ap (λ ys. x ∷ ys) (take-take m n xs (omega (arith, h)))

  take_all : (xs : List V) → take (length xs) xs ≡ xs
  take_all [] = refl
  take_all (x ∷ xs) = ap (λ ys. x ∷ ys) (take_all xs)

  -- The rows against those of the start.
  abbrev pub IsGrown : Slot V → Slot V → Type 0
  IsGrown s t =
      (t.source ≡ s.source)
      × (length t.row ≡ doubled t.extensions (length s.row))
      × (take (length s.row) t.row ≡ s.row)
      × (t.extensions ≤ 6)

  abbrev pub AreGrown : List (Slot V) → List (Slot V) → Type 0
  AreGrown [] [] = Unit
  AreGrown (s ∷ ss) (t ∷ ts) = IsGrown s t × AreGrown ss ts
  AreGrown _ _ = ⊥

  -- A trial that the loop returns.
  abbrev pub IsRun : List (Slot V) → Trial V → Type 0
  IsRun ss t =
      AreGrown ss t.slots
      × ¬ (t.status ≡ 4)
      × ((t.status ≡ 3) ⊎ (t.status ≡ (engine (bound equal rows engine t.slots)).status))

  module _ (sound : (x y : V) → equal x y ≡ true → x ≡ y)
      (sized : (n m : ℕ) (row : List V) → rows n m ≡ ok row → length row ≡ m) where
    array_equal-eq : (xs ys : List V) → array_equal equal rows engine xs ys ≡ true → xs ≡ ys
    unfolding array_equal
    array_equal-eq [] [] h = refl
    array_equal-eq (x ∷ xs) (y ∷ ys) h =
        let (first, others) = both (equal x y) (array_equal equal rows engine xs ys) h in
        ap (λ z. z ∷ xs) (sound x y first) ∙ ap (λ zs. y ∷ zs) (array_equal-eq xs ys others)
      where
        both : (a b : Bool) → (a && b) ≡ true → (a ≡ true) × (b ≡ true)
        both true b h = (refl, h)
        both false b h = cc
    array_equal-eq [] (y ∷ ys) h = cc
    array_equal-eq (x ∷ xs) [] h = cc

    next-IsGrown : (s t u : Slot V) → IsGrown s t → IsNext equal rows engine t u → IsGrown s u
    next-IsGrown s t u g (unchanged _) = g
    next-IsGrown s t u g (longer _ stable limit n row a b few given same) =
        let front : take (length s.row) (take (length t.row) row) ≡ s.row =
          ap (take (length s.row)) (array_equal-eq (take (length t.row) row) t.row same) ∙ g.2 in
        (
          g.0,
          sized n (length t.row * 2) row given ∙ ap (λ l. l * 2) g.1,
          sym (
                take-take (length s.row) (length t.row) row
                  (omega (arith, g.1, doubled-le t.extensions (length s.row))))
              ∙ front,
          omega (arith, few),
        )

    next-AreGrown :
        (ss ts us : List (Slot V))
        → AreGrown ss ts
        → AreNext equal rows engine ts us
        → AreGrown ss us
    next-AreGrown [] [] [] g h = tt
    next-AreGrown (s ∷ ss) (t ∷ ts) (u ∷ us) g h =
        (next-IsGrown s t u g.0 h.0, next-AreGrown ss ts us g.1 h.1)
    next-AreGrown [] (t ∷ ts) us g h = absurd g
    next-AreGrown (s ∷ ss) [] us g h = absurd g
    next-AreGrown [] [] (u ∷ us) g h = absurd h
    next-AreGrown (s ∷ ss) (t ∷ ts) [] g h = absurd h

    extend_loop-IsRun :
        (fuel : ℕ) (ss ts : List (Slot V)) {t : Trial V}
        → AreGrown ss ts
        → extend_loop equal rows engine fuel (engine (bound equal rows engine ts)) ts ≡ ok t
        → IsRun ss t
    unfolding extend_loop
    extend_loop-IsRun zero ss ts g h = cc
    extend_loop-IsRun (suc fuel) ss ts g h =
        let o = engine (bound equal rows engine ts) in
        elim (if-ok (o.status == 4) _ _ h) [
          | inr a ↦
              subst (IsRun ss) (ok_injective a.1)
                (g, λ q. absurd (two_values (sym ((==_iff o.status 4).1 q) ∙ a.0)), inr refl)
          | inl a ↦
              let (e, given, rest) = >>=-eq-ok (extend equal rows engine o ts) _ a.1 in
              let grown =
                next-AreGrown ss ts e.1 g (extend-AreNext equal rows engine o ts given).0 in
              elim (if-ok e.0 _ _ rest) [
                | inl b ↦
                    subst (IsRun ss) (ok_injective b.1) (grown, λ q. omega (arith, q), inl refl)
                | inr b ↦ extend_loop-IsRun fuel ss e.1 grown b.1
              ]
        ]

  module _ (rows_end : (n m : ℕ) → ends (rows n m) ≡ true) where
    extend_slot-ends :
        (n : ℕ) (source : Source) (s : Slot V)
        → ends (extend_slot equal rows engine n source s) ≡ true
    unfolding extend_slot
    extend_slot-ends n other s = refl
    extend_slot-ends n (generated stable limit) s =
        if-ends (not stable || leb 6 s.extensions) (ok (true, s)) _ refl (
          if-ends (exceeds limit (length s.row * 2)) (ok (true, s)) _ refl (
            >>=-ends (rows n (length s.row * 2)) _ (rows_end n (length s.row * 2)) (λ row given.
              raise_if-ends (not (array_equal equal rows engine (take (length s.row) row) s.row))
                runtime_error _ refl refl)))

    extend_first-ends :
        (exhausted : ℕ → Bool) (n : ℕ) (ss : List (Slot V))
        → ends (extend_first equal rows engine exhausted n ss) ≡ true
    unfolding extend_first
    extend_first-ends exhausted n [] = refl
    extend_first-ends exhausted n (s ∷ ss) =
        if-ends (exhausted n) _ _
          (>>=-ends (extend_slot equal rows engine n s.source s) _ (extend_slot-ends n s.source s)
            (λ e q. refl))
          (>>=-ends (extend_first equal rows engine exhausted (suc n) ss) _
            (extend_first-ends exhausted (suc n) ss) (λ e q. refl))

    extend_all-ends : (n : ℕ) (ss : List (Slot V)) → ends (extend_all equal rows engine n ss) ≡ true
    unfolding extend_all
    extend_all-ends n [] = refl
    extend_all-ends n (s ∷ ss) =
        let others = extend_all-ends (suc n) ss in
        if-ends (is_generated s.source) _ _
          (>>=-ends (extend_slot equal rows engine n s.source s) _ (extend_slot-ends n s.source s)
            (λ e q.
              if-ends e.0 _ _ refl
                (>>=-ends (extend_all equal rows engine (suc n) ss) _ others (λ more r. refl))))
          (>>=-ends (extend_all equal rows engine (suc n) ss) _ others (λ more r. refl))

    extend-ends : (o : Outcome) (ss : List (Slot V)) → ends (extend equal rows engine o ss) ≡ true
    unfolding extend
    extend-ends o ss =
        if-ends (any_exhausted equal rows engine o.is_exhausted 0 ss) _ _
          (extend_first-ends o.is_exhausted 0 ss)
          (if-ends (any_generated equal rows engine ss) _ _ (extend_all-ends 0 ss) refl)

    extend_loop-ends :
        (fuel : ℕ) (o : Outcome) (ss : List (Slot V))
        → left equal rows engine ss < fuel
        → ends (extend_loop equal rows engine fuel o ss) ≡ true
    unfolding extend_loop
    extend_loop-ends zero o ss h = absurd (omega (arith, h))
    extend_loop-ends (suc fuel) o ss h =
        if-ends (o.status == 4) _ _
          (>>=-ends (extend equal rows engine o ss) _ (extend-ends o ss) (λ e q.
            elim (Bool-cases e.0) [
              | inl b ↦ rw b refl
              | inr b ↦ rw b (
                  extend_loop-ends fuel (engine (bound equal rows engine e.1)) e.1
                    (omega (arith, h, (extend-AreNext equal rows engine o ss q).1 b)))
            ]))
          refl

  left-le : (ss : List (Slot V)) → left equal rows engine ss ≤ 6 * length ss
  left-le [] = omega arith
  left-le (s ∷ ss) = omega (arith, left-le ss)

  -- The inputs before the first run.
  abbrev pub AreNew : List (Slot V) → Type 0
  AreNew [] = Unit
  AreNew (s ∷ ss) = (s.extensions ≡ 0) × AreNew ss

  AreNew-AreGrown : (ss : List (Slot V)) → AreNew ss → AreGrown ss ss
  AreNew-AreGrown [] h = tt
  AreNew-AreGrown (s ∷ ss) h = (
    (refl, ap (λ e. doubled e (length s.row)) (sym h.0), take_all s.row, omega (arith, h.0)),
    AreNew-AreGrown ss h.1,
  )

  -- If generating a row ends, with as many values as asked for, and equal values are the same, then
  -- with more fuel than six runs for each input a trial ends: it raises an exception or comes to a
  -- status other than the request for an extension, which is the failure of an extension or what
  -- the engine yields on the rows then bound. Each of these rows begins with the first one and is
  -- as long as it doubled once for each extension, of which there are at most six.
  pub run_trial-IsRun :
      (fuel : ℕ) (ss : List (Slot V))
      → ((x y : V) → equal x y ≡ true → x ≡ y)
      → ((n m : ℕ) (row : List V) → rows n m ≡ ok row → length row ≡ m)
      → ((n m : ℕ) → ends (rows n m) ≡ true)
      → AreNew ss
      → 6 * length ss < fuel
      → (ends (run_trial equal rows engine fuel ss) ≡ true)
        × ((t : Trial V) → run_trial equal rows engine fuel ss ≡ ok t → IsRun ss t)
  unfolding run_trial
  run_trial-IsRun fuel ss sound sized rows_end new enough = (
    extend_loop-ends rows_end fuel (engine (bound equal rows engine ss)) ss
        (omega (arith, enough, left-le ss)),
    λ t h. extend_loop-IsRun sound sized fuel ss ss (AreNew-AreGrown ss new) h,
  )
