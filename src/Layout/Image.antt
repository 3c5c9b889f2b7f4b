-- ===== src/Layout/Image.antt =====
-- cimba/layout: `TrialImageLayout.of`, the records of every instance and then the elements of
-- their arrays. The size of the trial header and of an array element are NumPy's.
use Prim.Native.String.{String}
use cimba_python.Base.{
  ℕ, ◌+◌, ◌-◌, ◌*◌, ◌/◌, max, Option, none, some, List, [], ◌∷◌, ◌++◌, Result, ok, raise, key_error,
  ◌>>=◌,
}
use cimba_python.Schema.Types.{ValueType}
use cimba_python.Layout.Record.{Member, Struct, ModelClass, record_layout}

-- An array field of an instance: the lengths of the options of its value, none for no value.
pub record ArrayField : Type 0 where
  pub name : String
  pub element : ValueType
  pub lengths : List (Option ℕ)

pub record Instance : Type 0 where
  pub model : ℕ
  pub label : String
  pub model_class : ModelClass
  pub arrays : List ArrayField

pub record Placement : Type 0 where
  pub model : ℕ
  pub label : String
  pub offset : ℕ
  pub layout : Struct

-- The elements of one array field of one instance, with the bytes reserved for them.
pub record ArrayPlace : Type 0 where
  pub model : ℕ
  pub name : String
  pub offset : ℕ
  pub size : ℕ

pub record Image : Type 0 where
  pub placements : List Placement
  pub arrays : List ArrayPlace
  pub size : ℕ

-- `(offset + alignment - 1) // alignment * alignment`
abbrev pub align_up : ℕ → ℕ → ℕ
align_up offset alignment = (offset + alignment - 1) / alignment * alignment

unfoldable pub array_dtype : ValueType → Result Member
array_dtype ValueType.int = ok Member.int64
array_dtype ValueType.float = ok Member.float64
array_dtype ValueType.bool = ok Member.boolean
array_dtype _ = raise key_error

-- `max((len(choice) for choice in ... if choice is not None), default=0)`
unfoldable pub longest : List (Option ℕ) → ℕ
longest [] = 0
longest (none ∷ cs) = longest cs
longest (some n ∷ cs) = max n (longest cs)

module _ (struct : List (String × Member) → Result Struct) (element_size : Member → ℕ)
    (header_size : ℕ) where
  -- The first loop, from the offset reached so far.
  unfoldable pub place_records : ℕ → List Instance → Result (List Placement × ℕ)
  place_records offset [] = ok ([], offset)
  place_records offset (i ∷ is) = do
    r ← record_layout struct i.model_class
    let start = align_up offset r.alignment
    (ps, end) ← place_records (start + r.itemsize) is
    ok (record { model = i.model; label = i.label; offset = start; layout = r } ∷ ps, end)

  unfoldable pub place_fields : ℕ → ℕ → List ArrayField → Result (List ArrayPlace × ℕ)
  unfolding array_dtype longest
  place_fields model offset [] = ok ([], offset)
  place_fields model offset (f ∷ fs) = do
    m ← array_dtype f.element
    let start = align_up offset 8
    let size = longest f.lengths * element_size m
    (ps, end) ← place_fields model (start + size) fs
    ok (record { model = model; name = f.name; offset = start; size = size } ∷ ps, end)

  unfoldable pub place_arrays : ℕ → List Instance → Result (List ArrayPlace × ℕ)
  place_arrays offset [] = ok ([], offset)
  place_arrays offset (i ∷ is) = do
    (ps, middle) ← place_fields i.model offset i.arrays
    (qs, end) ← place_arrays middle is
    ok (ps ++ qs, end)

  -- `if arrays: offset = (offset + 7) // 8 * 8`
  abbrev pub final_size : List ArrayPlace → ℕ → ℕ
  final_size [] offset = offset
  final_size (p ∷ ps) offset = align_up offset 8

  unfoldable pub image_layout : List Instance → Result Image
  unfolding place_records place_arrays place_fields
  image_layout is = do
    (placements, middle) ← place_records header_size is
    (arrays, end) ← place_arrays middle is
    ok (record { placements = placements; arrays = arrays; size = final_size arrays end })
