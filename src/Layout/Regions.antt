-- ===== src/Layout/Regions.antt =====
-- cimba/layout: the regions of a trial image do not overlap.
use Prim.Native.String.{String}
use mathlib.Core.List.{map-append}
use native.Mathlib.Nat.{div-add-mod', mod-lt, mul-mod_left}
use cimba_python.Base.{
  ℕ, ◌+◌, ◌-◌, ◌*◌, ◌/◌, ◌%◌, ◌<◌, ◌≤◌, ◌≡◌, refl, ap, List, [], ◌∷◌, ◌++◌, map, Result, ok,
  >>=-eq-ok, >>-eq-ok, All, All-append, arith,
}
use cimba_python.Layout.Record.{
  Member, Struct, ModelClass, model_class, members, pointer, record_layout, check_bases,
}
use cimba_python.Layout.Image.{
  ArrayField, Instance, Placement, ArrayPlace, Image, align_up, longest, array_dtype, place_records,
  place_fields, place_arrays, final_size, image_layout,
}

pub record Region : Type 0 where
  pub start : ℕ
  pub size : ℕ

abbrev pub record_region : Placement → Region
record_region p = record { start = p.offset; size = p.layout.itemsize }

abbrev pub array_region : ArrayPlace → Region
array_region p = record { start = p.offset; size = p.size }

abbrev pub regions : Image → List Region
regions m = map record_region m.placements ++ map array_region m.arrays

-- Each region begins where the ones before it have ended, and all end by `high`.
abbrev pub IsChain : ℕ → List Region → ℕ → Type 0
IsChain low [] high = low ≤ high
IsChain low (r ∷ rs) high = (low ≤ r.start) × IsChain (r.start + r.size) rs high

-- No two regions share a byte: each ends before every later one begins.
abbrev pub IsDisjoint : List Region → Type 0
IsDisjoint [] = Unit
IsDisjoint (r ∷ rs) = All (λ s. r.start + r.size ≤ s.start) rs × IsDisjoint rs

abbrev pub IsWithin : ℕ → List Region → ℕ → Type 0
IsWithin low rs high = All (λ r. (low ≤ r.start) × (r.start + r.size ≤ high)) rs

align_up-ge : (offset alignment : ℕ) → 0 < alignment → offset ≤ align_up offset alignment
align_up-ge offset alignment h =
    omega
      (arith, div-add-mod' (offset + alignment - 1) alignment, mod-lt (offset + alignment - 1) h)

align_up-aligned :
    (offset alignment : ℕ) → 0 < alignment → align_up offset alignment % alignment ≡ 0
align_up-aligned offset alignment h = mul-mod_left ((offset + alignment - 1) / alignment) alignment

IsChain-weaken :
    (low low' high : ℕ) (rs : List Region) → low ≤ low' → IsChain low' rs high → IsChain low rs high
IsChain-weaken low low' high [] h c = omega arith
IsChain-weaken low low' high (r ∷ rs) h c = (omega arith, c.1)

IsChain-append :
    (rs ss : List Region) (low middle high : ℕ)
    → IsChain low rs middle
    → IsChain middle ss high
    → IsChain low (rs ++ ss) high
IsChain-append [] ss low middle high c d = IsChain-weaken low middle high ss c d
IsChain-append (r ∷ rs) ss low middle high c d =
    (c.0, IsChain-append rs ss (r.start + r.size) middle high c.1 d)

chain-IsWithin : (rs : List Region) (low high : ℕ) → IsChain low rs high → IsWithin low rs high
chain-IsWithin [] low high c = tt
chain-IsWithin (r ∷ rs) low high c = (
  (c.0, chain_low rs (r.start + r.size) high c.1),
  chain-IsWithin rs low high (IsChain-weaken low (r.start + r.size) high rs (omega arith) c.1),
)
  where
    chain_low : (rs : List Region) (low high : ℕ) → IsChain low rs high → low ≤ high
    chain_low [] low high c = c
    chain_low (r ∷ rs) low high c = omega (arith, chain_low rs (r.start + r.size) high c.1)

within_starts :
    (rs : List Region) (low high : ℕ) → IsWithin low rs high → All (λ r. low ≤ r.start) rs
within_starts [] low high h = tt
within_starts (r ∷ rs) low high h = (h.0.0, within_starts rs low high h.1)

chain-IsDisjoint : (rs : List Region) (low high : ℕ) → IsChain low rs high → IsDisjoint rs
chain-IsDisjoint [] low high c = tt
chain-IsDisjoint (r ∷ rs) low high c = (
  within_starts rs (r.start + r.size) high (chain-IsWithin rs (r.start + r.size) high c.1),
  chain-IsDisjoint rs (r.start + r.size) high c.1,
)

module _ (struct : List (String × Member) → Result Struct) (element_size : Member → ℕ)
    (header_size : ℕ)
    (alignment_pos : (ms : List (String × Member)) (s : Struct)
      → struct ms ≡ ok s
      → 0 < s.alignment) where
  record_layout-alignment :
      (c : ModelClass) {s : Struct} → record_layout struct c ≡ ok s → 0 < s.alignment
  unfolding record_layout
  record_layout-alignment (model_class id fields bases) h =
      let (ms, _, h1) = >>=-eq-ok (members fields) _ h in
      let (s', laid, h2) = >>=-eq-ok (struct (("class_descriptor", pointer) ∷ ms)) _ h1 in
      let (_, e) = >>-eq-ok (check_bases struct s' bases) _ h2 in
      let same = some_struct e in rw (← same) (alignment_pos _ s' laid)
    where
      some_struct : {s s' : Struct} → ok s' ≡ ok s → s' ≡ s
      some_struct e = cc

  -- What holds of the records placed from an offset up to an end.
  abbrev IsPlaced : ℕ → List Instance → List Placement × ℕ → Type 0
  IsPlaced offset is out =
      IsChain offset (map record_region out.0) out.1
      × All (λ p. p.offset % p.layout.alignment ≡ 0) out.0
      × (map (λ p. p.model) out.0 ≡ map (λ i. i.model) is)

  place_records-IsPlaced :
      (is : List Instance) (offset : ℕ) {out : List Placement × ℕ}
      → place_records struct element_size header_size offset is ≡ ok out
      → IsPlaced offset is out
  unfolding place_records
  place_records-IsPlaced [] offset {out} h =
      let e : ([], offset) ≡ out = cc in rw (← e) (omega arith, tt, refl)
  place_records-IsPlaced (i ∷ is) offset {out} h =
      let (r, laid, h1) = >>=-eq-ok (record_layout struct i.model_class) _ h in
      let start = align_up offset r.alignment in
      let (rest, placed, h2) =
        >>=-eq-ok (place_records struct element_size header_size (start + r.itemsize) is) _ h1 in
      let (chain, aligned, models) = place_records-IsPlaced is (start + r.itemsize) placed in
      let positive = record_layout-alignment i.model_class laid in
      let p : Placement = record { model = i.model; label = i.label; offset = start; layout = r } in
      let e : (p ∷ rest.0, rest.1) ≡ out = cc in
      rw (← e) (
        (align_up-ge offset r.alignment positive, chain),
        (align_up-aligned offset r.alignment positive, aligned),
        ap (λ ms. i.model ∷ ms) models,
      )

  abbrev IsArranged : ℕ → List ArrayPlace × ℕ → Type 0
  IsArranged offset out =
      IsChain offset (map array_region out.0) out.1 × All (λ p. p.offset % 8 ≡ 0) out.0

  place_fields-IsArranged :
      (model : ℕ) (fs : List ArrayField) (offset : ℕ) {out : List ArrayPlace × ℕ}
      → place_fields struct element_size header_size model offset fs ≡ ok out
      → IsArranged offset out
  unfolding place_fields
  place_fields-IsArranged model [] offset {out} h =
      let e : ([], offset) ≡ out = cc in rw (← e) (omega arith, tt)
  place_fields-IsArranged model (f ∷ fs) offset {out} h =
      let (m, _, h1) = >>=-eq-ok (array_dtype f.element) _ h in
      let start = align_up offset 8 in
      let size = longest f.lengths * element_size m in
      let (rest, placed, h2) =
        >>=-eq-ok (place_fields struct element_size header_size model (start + size) fs) _ h1 in
      let (chain, aligned) = place_fields-IsArranged model fs (start + size) placed in
      let p : ArrayPlace = record { model = model; name = f.name; offset = start; size = size } in
      let e : (p ∷ rest.0, rest.1) ≡ out = cc in
      rw (← e) ((omega arith, chain), (align_up-aligned offset 8 (omega arith), aligned))

  place_arrays-IsArranged :
      (is : List Instance) (offset : ℕ) {out : List ArrayPlace × ℕ}
      → place_arrays struct element_size header_size offset is ≡ ok out
      → IsArranged offset out
  unfolding place_arrays
  place_arrays-IsArranged [] offset {out} h =
      let e : ([], offset) ≡ out = cc in rw (← e) (omega arith, tt)
  place_arrays-IsArranged (i ∷ is) offset {out} h =
      let (ps, placed, h1) =
        >>=-eq-ok (place_fields struct element_size header_size i.model offset i.arrays) _ h in
      let (qs, placed', h2) =
        >>=-eq-ok (place_arrays struct element_size header_size ps.1 is) _ h1 in
      let (chain, aligned) = place_fields-IsArranged i.model i.arrays offset placed in
      let (chain', aligned') = place_arrays-IsArranged is ps.1 placed' in
      let e : (ps.0 ++ qs.0, qs.1) ≡ out = cc in
      rw (← e) (
        rw map-append (
            IsChain-append (map array_region ps.0) (map array_region qs.0) offset ps.1 qs.1 chain
              chain'),
        All-append _ ps.0 qs.0 aligned aligned',
      )

  final_size-ge :
      (ps : List ArrayPlace) (offset : ℕ)
      → offset ≤ final_size struct element_size header_size ps offset
  final_size-ge [] offset = omega arith
  final_size-ge (p ∷ ps) offset = omega arith

  widen-IsChain :
      (rs : List Region) (low high high' : ℕ)
      → IsChain low rs high
      → high ≤ high'
      → IsChain low rs high'
  widen-IsChain [] low high high' c h = omega arith
  widen-IsChain (r ∷ rs) low high high' c h =
      (c.0, widen-IsChain rs (r.start + r.size) high high' c.1 h)

  image_layout-parts :
      (is : List Instance) {m : Image}
      → image_layout struct element_size header_size is ≡ ok m
      → IsChain header_size (regions m) m.size
        × All (λ p. p.offset % p.layout.alignment ≡ 0) m.placements
        × All (λ p. p.offset % 8 ≡ 0) m.arrays
        × (map (λ p. p.model) m.placements ≡ map (λ i. i.model) is)
  unfolding image_layout
  image_layout-parts is {m} h =
      let (ps, placed, h1) =
        >>=-eq-ok (place_records struct element_size header_size header_size is) _ h in
      let (qs, arranged, h2) =
        >>=-eq-ok (place_arrays struct element_size header_size ps.1 is) _ h1 in
      let (chain, aligned, models) = place_records-IsPlaced is header_size placed in
      let (chain', aligned') = place_arrays-IsArranged is ps.1 arranged in
      let size = final_size struct element_size header_size qs.0 qs.1 in
      let e : record { placements = ps.0; arrays = qs.0; size = size } ≡ m = ok_eq h2 in
      rw (← e) (
        widen-IsChain (map record_region ps.0 ++ map array_region qs.0) header_size qs.1 size
            (IsChain-append (map record_region ps.0) (map array_region qs.0) header_size ps.1 qs.1
              chain chain')
            (final_size-ge qs.0 qs.1),
        aligned,
        aligned',
        models,
      )
    where
      ok_eq : {m m' : Image} → ok m ≡ ok m' → m ≡ m'
      ok_eq e = cc

  -- If every structure that NumPy lays out has a positive alignment, then in a trial image the
  -- records of the instances and the array buffers lie behind the header and within the image, and
  -- no two of them share a byte.
  pub image_layout-IsDisjoint :
      (is : List Instance) {m : Image}
      → image_layout struct element_size header_size is ≡ ok m
      → IsDisjoint (regions m) × IsWithin header_size (regions m) m.size
  image_layout-IsDisjoint is {m} h =
      let (chain, _, _, _) = image_layout-parts is h in
      (
        chain-IsDisjoint (regions m) header_size m.size chain,
        chain-IsWithin (regions m) header_size m.size chain,
      )

  -- Under the same condition the image has one record for each instance, in the order of the
  -- instances, at an offset that is a multiple of the record's alignment, and every array buffer
  -- begins at a multiple of eight.
  pub image_layout-aligned :
      (is : List Instance) {m : Image}
      → image_layout struct element_size header_size is ≡ ok m
      → (map (λ p. p.model) m.placements ≡ map (λ i. i.model) is)
        × All (λ p. p.offset % p.layout.alignment ≡ 0) m.placements
        × All (λ p. p.offset % 8 ≡ 0) m.arrays
  image_layout-aligned is h =
      let (_, aligned, aligned', models) = image_layout-parts is h in (models, aligned, aligned')
