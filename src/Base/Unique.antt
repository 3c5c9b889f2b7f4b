-- ===== src/Base/Unique.antt =====
-- `dict.fromkeys`: the first occurrence of every element, in order.
use Prim.Native.Nat.{◌≤◌, ◌<◌}
use mathlib.Core.Path.{◌≡◌}
use mathlib.Core.Logic.{ite, ◌⊎◌}
use mathlib.Core.Bool.{Bool, true, false}
use mathlib.Core.List.{List, [], ◌∷◌}
use native.Mathlib.Omega.{arith}
use cimba_python.Base.Tests.{if◌then◌else◌}
use cimba_python.Base.Lists.{length}
use cimba_python.Base.Count.{count}

module _ {C : Type 0} (dec : Discrete C) where
  unfoldable pub member : C → List C → Bool
  member c [] = false
  member c (d ∷ ds) = ite (dec d c) true (member c ds)

  -- `tuple(dict.fromkeys(candidates))`
  unfoldable pub unique : List C → List C → List C
  unfolding member
  unique seen [] = []
  unique seen (c ∷ cs) =
      let rest = unique seen cs in
      let more = unique (c ∷ seen) cs in if member c seen then rest else c ∷ more

  pub unique-member :
      (c : C) (seen cs : List C)
      → member c cs ≡ true
      → (member c seen ≡ true) ⊎ (member c (unique seen cs) ≡ true)
  unfolding member unique
  unique-member c seen [] h = cc
  unique-member c seen (d ∷ cs) h =
      ground (arith, unique-member c seen cs, unique-member c (d ∷ seen) cs)

  pub length-unique : (seen cs : List C) → length (unique seen cs) ≤ length cs
  unfolding unique
  length-unique seen [] = omega arith
  length-unique seen (c ∷ cs) = ground (arith, length-unique seen cs, length-unique (c ∷ seen) cs)

  count-unique_seen :
      (c : C) (seen cs : List C) → member c seen ≡ true → count dec c (unique seen cs) ≡ 0
  unfolding member unique
  count-unique_seen c seen [] h = omega arith
  count-unique_seen c seen (d ∷ cs) h =
      ground (arith, count-unique_seen c seen cs, count-unique_seen c (d ∷ seen) cs, h)

  -- No element stands twice.
  pub count-unique-le : (c : C) (seen cs : List C) → count dec c (unique seen cs) ≤ 1
  unfolding member unique
  count-unique-le c seen [] = omega arith
  count-unique-le c seen (d ∷ cs) = ground (
    arith,
    count-unique-le c seen cs,
    count-unique-le c (d ∷ seen) cs,
    count-unique_seen c (d ∷ seen) cs,
  )

  pub member-count : (c : C) (cs : List C) → member c cs ≡ true → 0 < count dec c cs
  unfolding member
  member-count c [] h = cc
  member-count c (d ∷ cs) h = ground (arith, member-count c cs)
