-- ===== src/Layout/Views.antt =====
-- cimba/layout: a view through a base class reads a derived record at the base's own places.
use Prim.Native.String.{String}
use cimba_python.Base.{
  ◌≡◌, true, Option, none, some, List, [], ◌∷◌, Result, ok, >>=-eq-ok, >>-eq-ok, All, arith, ==_iff,
}
use cimba_python.Layout.Record.{
  Member, Placed, Struct, ModelClass, model_class, Bases, cons, members, pointer, find_field,
  same_place, check_fields, check_field, tail, record_layout, check_bases,
}

same_place-eq : (p q : Placed) → same_place p q ≡ true → p ≡ q
unfolding same_place
same_place-eq p q h = ground (arith, ==_iff p.offset q.offset)

-- Every field stands among `fields` with this member at this offset.
abbrev pub IsEmbedded : List (String × Placed) → List (String × Placed) → Type 0
IsEmbedded fields = All (λ f. find_field f.0 fields ≡ some f.1)

check_field-found : (p : Placed) (o : Option Placed) → check_field p o ≡ ok tt → o ≡ some p
unfolding check_field
check_field-found p none h = cc
check_field-found p (some q) h = ground (arith, same_place-eq q p)

check_fields-IsEmbedded :
    (fields inherited : List (String × Placed))
    → check_fields fields inherited ≡ ok tt
    → IsEmbedded fields inherited
unfolding check_fields
check_fields-IsEmbedded fields [] h = tt
check_fields-IsEmbedded fields ((name, p) ∷ rest) h =
    let (found, later) = >>-eq-ok (check_field p (find_field name fields)) _ h in
    (check_field-found p (find_field name fields) found, check_fields-IsEmbedded fields rest later)

-- A class of the list of bases.
pub data IsBase (b : ModelClass) : Bases → Type 0 where
  here : (bases : Bases) → IsBase b (cons b bases)
  there : (c : ModelClass) {bases : Bases} → IsBase b bases → IsBase b (cons c bases)

abbrev pub bases_of : ModelClass → Bases
bases_of (model_class id fields bases) = bases

module _ (struct : List (String × Member) → Result Struct) where
  check_bases-IsEmbedded :
      (s : Struct) {b : ModelClass} {bases : Bases}
      → IsBase b bases
      → check_bases struct s bases ≡ ok tt
      → (i : Struct) × (record_layout struct b ≡ ok i) × IsEmbedded s.fields (tail i.fields)
  unfolding record_layout
  check_bases-IsEmbedded s {b} (here bases) h =
      let (i, laid, h1) = >>=-eq-ok (record_layout struct b) _ h in
      let (checked, _) = >>-eq-ok (check_fields s.fields (tail i.fields)) _ h1 in
      (i, laid, check_fields-IsEmbedded s.fields (tail i.fields) checked)
  check_bases-IsEmbedded s (there c m) h =
      let (i, _, h1) = >>=-eq-ok (record_layout struct c) _ h in
      let (_, h2) = >>-eq-ok (check_fields s.fields (tail i.fields)) _ h1 in
      check_bases-IsEmbedded s m h2

  -- If the record of a class is laid out, so is the record of each of its base classes, and every
  -- field of the base record but the class descriptor stands in the derived record with the same
  -- member at the same offset.
  pub record_layout-base :
      (c : ModelClass) {s : Struct} {b : ModelClass}
      → record_layout struct c ≡ ok s
      → IsBase b (bases_of c)
      → (i : Struct) × (record_layout struct b ≡ ok i) × IsEmbedded s.fields (tail i.fields)
  unfolding record_layout
  record_layout-base (model_class id fields bases) {s} h m =
      let (ms, _, h1) = >>=-eq-ok (members fields) _ h in
      let (s', _, h2) = >>=-eq-ok (struct (("class_descriptor", pointer) ∷ ms)) _ h1 in
      let (checked, e) = >>-eq-ok (check_bases struct s' bases) _ h2 in
      let same : s' ≡ s = cc in rw (← same) (check_bases-IsEmbedded s' m checked)
