-- ===== src/Run/Extension/Next.antt =====
-- One extension of a trial: what becomes of its inputs, and that fewer extensions are left.
use cimba_python.Base.{
  ℕ, suc, ◌+◌, ◌-◌, ◌*◌, ◌≤◌, ◌<◌, ◌≡◌, inl, inr, refl, sym, subst, Bool, true, false, not, ◌||◌,
  Option, List, [], ◌∷◌, Result, ok, raise_if, runtime_error, >>=-eq-ok, >>-eq-ok, raise_if-ok,
  if-ok, ok_injective, leb, length, take, arith,
}
use cimba_python.Run.Extension.{
  Source, generated, other, Slot, Outcome, is_generated, exceeds, array_equal, any_exhausted,
  any_generated, extend_slot, extend_first, extend_all, extend,
}

module _ {V : Type 0} (equal : V → V → Bool) (rows : ℕ → ℕ → Result (List V))
    (engine : List (List V) → Outcome) where
  -- The extensions that are left.
  abbrev pub left : List (Slot V) → ℕ
  left [] = 0
  left (s ∷ rest) = (6 - s.extensions) + left rest

  -- What an extension makes of an input.
  pub data IsNext : Slot V → Slot V → Type 0 where
    unchanged : (s : Slot V) → IsNext s s
    longer :
        (s : Slot V) (stable : Bool) (limit : Option ℕ) (n : ℕ) (row : List V)
        → s.source ≡ generated stable limit
        → exceeds limit (length s.row * 2) ≡ false
        → s.extensions < 6
        → rows n (length s.row * 2) ≡ ok row
        → array_equal equal rows engine (take (length s.row) row) s.row ≡ true
        → IsNext s (record { source = s.source; row = row; extensions = suc s.extensions })

  abbrev pub AreNext : List (Slot V) → List (Slot V) → Type 0
  AreNext [] [] = Unit
  AreNext (s ∷ ss) (t ∷ ts) = IsNext s t × AreNext ss ts
  AreNext _ _ = ⊥

  AreNext-refl : (ss : List (Slot V)) → AreNext ss ss
  AreNext-refl [] = tt
  AreNext-refl (s ∷ ss) = (unchanged s, AreNext-refl ss)

  left-IsNext : (s t : Slot V) → IsNext s t → 6 - t.extensions ≤ 6 - s.extensions
  left-IsNext s t (unchanged _) = omega arith
  left-IsNext s t (longer _ stable limit n row a b few c d) = omega (arith, few)

  not-false : (b : Bool) → not b ≡ false → b ≡ true
  not-false true h = refl
  not-false false h = cc

  two : ¬ (true ≡ false)
  two e = cc

  few_left : (b : Bool) (k : ℕ) → (b || leb 6 k) ≡ false → k < 6
  few_left true k h = cc
  few_left false k h = ground (arith, h)

  abbrev Next : Slot V → Bool × Slot V → Type 0
  Next s e = IsNext s e.1 × (e.0 ≡ false → 6 - e.1.extensions < 6 - s.extensions)

  abbrev pub Nexts : List (Slot V) → Bool × List (Slot V) → Type 0
  Nexts ss e = AreNext ss e.1 × (e.0 ≡ false → left e.1 < left ss)

  failed : (s : Slot V) → Next s (true, s)
  failed s = (unchanged s, λ q. absurd (two q))

  -- A slot whose extension did not fail has one more.
  extend_slot-IsNext :
      (n : ℕ) (s : Slot V) (source : Source) {e : Bool × Slot V}
      → s.source ≡ source
      → extend_slot equal rows engine n source s ≡ ok e
      → IsNext s e.1 × (e.0 ≡ false → 6 - e.1.extensions < 6 - s.extensions)
  unfolding extend_slot
  extend_slot-IsNext n s other same h = subst (Next s) (ok_injective h) (failed s)
  extend_slot-IsNext n s (generated stable limit) same h =
      elim (if-ok (not stable || leb 6 s.extensions) (ok (true, s)) _ h) [
        | inl a ↦ subst (Next s) (ok_injective a.1) (failed s)
        | inr a ↦ elim (if-ok (exceeds limit (length s.row * 2)) (ok (true, s)) _ a.1) [
          | inl b ↦ subst (Next s) (ok_injective b.1) (failed s)
          | inr b ↦
              let (row, given, rest) = >>=-eq-ok (rows n (length s.row * 2)) _ b.1 in
              let (test, returned) =
                >>-eq-ok
                  (raise_if (not (array_equal equal rows engine (take (length s.row) row) s.row))
                    runtime_error)
                  _ rest in
              let few = few_left (not stable) s.extensions a.0 in
              subst (Next s) (ok_injective returned) (
                longer s stable limit n row same b.0 few given
                    (not-false _ (raise_if-ok _ runtime_error test)),
                λ q. omega (arith, few),
              )
        ]
      ]

  -- The first input that ran out has one more extension.
  extend_first-AreNext :
      (exhausted : ℕ → Bool) (n : ℕ) (ss : List (Slot V)) {e : Bool × List (Slot V)}
      → extend_first equal rows engine exhausted n ss ≡ ok e
      → AreNext ss e.1 × (e.0 ≡ false → left e.1 < left ss)
  unfolding extend_first
  extend_first-AreNext exhausted n [] h =
      subst (Nexts []) (ok_injective h) (tt, λ q. absurd (two q))
  extend_first-AreNext exhausted n (s ∷ ss) h = elim (if-ok (exhausted n) _ _ h) [
    | inl a ↦
        let (e, given, same) = >>=-eq-ok (extend_slot equal rows engine n s.source s) _ a.1 in
        let (next, less) = extend_slot-IsNext n s s.source refl given in
        subst (Nexts (s ∷ ss)) (ok_injective same)
          ((next, AreNext-refl ss), λ q. omega (arith, less q))
    | inr a ↦
        let (e, given, same) =
          >>=-eq-ok (extend_first equal rows engine exhausted (suc n) ss) _ a.1 in
        let (next, less) = extend_first-AreNext exhausted (suc n) ss given in
        subst (Nexts (s ∷ ss)) (ok_injective same) ((unchanged s, next), λ q. omega (arith, less q))
  ]

  left-AreNext : (ss ts : List (Slot V)) → AreNext ss ts → left ts ≤ left ss
  left-AreNext [] [] h = omega arith
  left-AreNext (s ∷ ss) (t ∷ ts) h = omega (arith, left-IsNext s t h.0, left-AreNext ss ts h.1)
  left-AreNext [] (t ∷ ts) h = absurd h
  left-AreNext (s ∷ ss) [] h = absurd h

  abbrev NextsIf : List (Slot V) → Bool × List (Slot V) → Type 0
  NextsIf ss e =
      AreNext ss e.1
      × (e.0 ≡ false → any_generated equal rows engine ss ≡ true → left e.1 < left ss)

  -- Some generated input has one more extension.
  extend_all-AreNext :
      (n : ℕ) (ss : List (Slot V)) {e : Bool × List (Slot V)}
      → extend_all equal rows engine n ss ≡ ok e
      → NextsIf ss e
  unfolding extend_all any_generated
  extend_all-AreNext n [] h = subst (NextsIf []) (ok_injective h) (tt, λ q g. absurd (two (sym g)))
  extend_all-AreNext n (s ∷ ss) h = elim (if-ok (is_generated s.source) _ _ h) [
    | inl a ↦
        let (e, given, rest) = >>=-eq-ok (extend_slot equal rows engine n s.source s) _ a.1 in
        let (next, less) = extend_slot-IsNext n s s.source refl given in
        elim (if-ok e.0 (ok (true, e.1 ∷ ss)) _ rest) [
          | inl b ↦
              subst (NextsIf (s ∷ ss)) (ok_injective b.1)
                ((next, AreNext-refl ss), λ q g. absurd (two q))
          | inr b ↦
              let (more, others, same) =
                >>=-eq-ok (extend_all equal rows engine (suc n) ss) _ b.1 in
              let (nexts, less_if) = extend_all-AreNext (suc n) ss others in
              subst (NextsIf (s ∷ ss)) (ok_injective same)
                ((next, nexts), λ q g. omega (arith, less b.0, left-AreNext ss more.1 nexts))
        ]
    | inr a ↦
        let (more, others, same) = >>=-eq-ok (extend_all equal rows engine (suc n) ss) _ a.1 in
        let (nexts, less_if) = extend_all-AreNext (suc n) ss others in
        subst (NextsIf (s ∷ ss)) (ok_injective same) (
          (unchanged s, nexts),
          λ q g. omega (arith, less_if q (or_false (is_generated s.source) _ a.0 g)),
        )
  ]
    where
      or_false : (b c : Bool) → b ≡ false → (b || c) ≡ true → c ≡ true
      or_false true c e g = absurd (two e)
      or_false false c e g = g

  pub extend-AreNext :
      (o : Outcome) (ss : List (Slot V)) {e : Bool × List (Slot V)}
      → extend equal rows engine o ss ≡ ok e
      → Nexts ss e
  unfolding extend
  extend-AreNext o ss h = elim (if-ok (any_exhausted equal rows engine o.is_exhausted 0 ss) _ _ h) [
    | inl a ↦ extend_first-AreNext o.is_exhausted 0 ss a.1
    | inr a ↦ elim (if-ok (any_generated equal rows engine ss) _ _ a.1) [
      | inl b ↦ let (nexts, less) = extend_all-AreNext 0 ss b.1 in (nexts, λ q. less q b.0)
      | inr b ↦ subst (Nexts ss) (ok_injective b.1) (AreNext-refl ss, λ q. absurd (two q))
    ]
  ]
