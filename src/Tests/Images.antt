-- ===== src/Tests/Images.antt =====
-- Records and trial images of small classes.
use Prim.Native.String.{String}
use cimba_python.Base.{
  ℕ, ◌+◌, ◌%◌, ◌<◌, ◌≡◌, refl, map, some, List, [], ◌∷◌, Result, ok, All, arith, false,
}
use cimba_python.Schema.Types.{Kind, ValueType, Field}
use cimba_python.Layout.Record.{
  Member, Placed, Struct, ModelClass, model_class, cons, nil, members, check_fields, record_layout,
  tail, same_place,
}
use cimba_python.Layout.Views.{here, IsEmbedded, record_layout-base}
use cimba_python.Layout.Image.{
  Instance, Image, image_layout, place_records, place_fields, place_arrays, array_dtype, longest,
}
use cimba_python.Layout.Regions.{
  IsDisjoint, IsWithin, regions, image_layout-IsDisjoint, image_layout-aligned,
}

-- Every member takes eight bytes.
abbrev placed_from : ℕ → List (String × Member) → List (String × Placed)
placed_from at [] = []
placed_from at ((name, m) ∷ ms) =
    (name, record { member = m; offset = at }) ∷ placed_from (at + 8) ms

abbrev size_of : List (String × Member) → ℕ
size_of [] = 0
size_of (m ∷ ms) = 8 + size_of ms

abbrev words : List (String × Member) → Result Struct
words ms = ok (record { fields = placed_from 0 ms; alignment = 8; itemsize = size_of ms })

words-alignment : (ms : List (String × Member)) (s : Struct) → words ms ≡ ok s → 0 < s.alignment
words-alignment ms s h = ground arith

abbrev rate : Field
rate = record { name = "rate"; kind = Kind.param; value_type = ValueType.float; optional = false }

abbrev table : Field
table = record { name = "table"; kind = Kind.array; value_type = ValueType.int; optional = false }

abbrev station : ModelClass
station = model_class 0 (rate ∷ []) nil

abbrev clinic : ModelClass
clinic = model_class 1 (rate ∷ table ∷ []) (cons station nil)

program : Unit {0}
unfolding record_layout members check_fields same_place image_layout place_records place_fields
    place_arrays array_dtype longest
program = tt

abbrev clinic_struct : Struct
clinic_struct = record {
  fields = placed_from 0 (
      ("class_descriptor", Member.pointer)
      ∷ ("rate", Member.float64)
      ∷ ("table", Member.pointer)
      ∷ ("table_length", Member.int64)
      ∷ []);
  alignment = 8;
  itemsize = 32;
}

clinic_layout : record_layout words clinic ≡ ok clinic_struct
unfolding program
clinic_layout = refl

record_layout-base_example :
    (i : Struct) × (record_layout words station ≡ ok i)
    × IsEmbedded clinic_struct.fields (tail i.fields)
record_layout-base_example = record_layout-base words clinic clinic_layout (here nil)

abbrev instances : List Instance
instances =
    record {
      model = 7;
      label = "clinic";
      model_class = clinic;
      arrays =
          record { name = "table"; element = ValueType.bool; lengths = some 3 ∷ some 5 ∷ [] } ∷ [];
    }
    ∷ record { model = 9; label = "clinic.a"; model_class = station; arrays = [] }
    ∷ []

abbrev image : Image
image = record {
  placements =
      record { model = 7; label = "clinic"; offset = 112; layout = clinic_struct }
      ∷ record {
        model = 9;
        label = "clinic.a";
        offset = 144;
        layout = record {
          fields =
              placed_from 0 (("class_descriptor", Member.pointer) ∷ ("rate", Member.float64) ∷ []);
          alignment = 8;
          itemsize = 16;
        };
      }
      ∷ [];
  arrays = record { model = 7; name = "table"; offset = 160; size = 5 } ∷ [];
  size = 168;
}

instances-image : image_layout words (λ m. 1) 110 instances ≡ ok image
unfolding program
instances-image = refl

image_layout-IsDisjoint_example : IsDisjoint (regions image) × IsWithin 110 (regions image) 168
image_layout-IsDisjoint_example =
    image_layout-IsDisjoint words (λ m. 1) 110 words-alignment instances instances-image

image_layout-aligned_example :
    (map (λ p. p.model) image.placements ≡ map (λ i. i.model) instances)
    × All (λ p. p.offset % p.layout.alignment ≡ 0) image.placements
    × All (λ p. p.offset % 8 ≡ 0) image.arrays
image_layout-aligned_example =
    image_layout-aligned words (λ m. 1) 110 words-alignment instances instances-image
