-- ===== src/Sgp22/Bpp.antt =====
-- v2/bpp.go: a BoundProfilePackage cut into the segments that are sent to the card.
pub mod Whole
pub mod Segments
pub mod Validation
use euicc_go.Prelude.{
  ℕ, ◌+◌, ◌^◌, ◌/◌, Bool, true, false, Option, none, some, ◌>>=◌, List, [], ◌∷◌, ◌++◌, Bytes,
  to_byte, ltb, if◌then◌else◌,
}
use euicc_go.Bertlv.Tag.{Tag, new_tag, equal, context_specific, constructed}
use euicc_go.Bertlv.Tlv.{Tlv, Children, no_children, child, nil_child, tag_of, children_of, len}
use euicc_go.Bertlv.Tlv.Write.{bytes}
use euicc_go.Bertlv.Selector.{first}

-- The errors of `ValidBoundProfilePackage`; `missing_fields` joins one for each item that is missing.
pub data Field : Type 0 where
  initialise_secure_channel first_87 sequence_88 sequence_86 : Field

pub data BppError : Type 0 where
  missing_bpp invalid_tag : BppError
  missing_fields : List Field → BppError

-- A value, an error, or (`none`) a panic.
pub data Outcome (A : Type 0) : Type 0 where
  success : A → Outcome A
  failure : BppError → Outcome A

abbrev pub field_tag : Field → Tag
field_tag initialise_secure_channel = new_tag context_specific constructed 35
field_tag first_87 = new_tag context_specific constructed 0
field_tag sequence_88 = new_tag context_specific constructed 1
field_tag sequence_86 = new_tag context_specific constructed 3

unfoldable pub missing : Tlv → List Field → List Field
missing bpp [] = []
missing bpp (f ∷ fs) = elim (first bpp (field_tag f)) [
  | none ↦ f ∷ missing bpp fs
  | some _ ↦ missing bpp fs
]

abbrev pub items : List Field
items = initialise_secure_channel ∷ first_87 ∷ sequence_88 ∷ sequence_86 ∷ []

abbrev pub joined : List Field → Option BppError
joined [] = none
joined fields = some (missing_fields fields)

-- The package is a pointer, and may be nil; `none` is no error.
unfoldable pub valid_bound_profile_package : Option Tlv → Option BppError
valid_bound_profile_package none = some missing_bpp
valid_bound_profile_package (some bpp) =
    if equal (tag_of bpp) (new_tag context_specific constructed 54)
    then joined (missing bpp items)
    else some invalid_tag

-- The loop of `marshalHeader`, which asks each child for its length; a nil child panics.
unfoldable pub lengths : Children → Option ℕ
lengths no_children = some 0
lengths (nil_child cs) = none
lengths (child x cs) = do l ← len x; n ← lengths cs; some (l + n)

unfoldable pub marshal_header : Tlv → Option Bytes
marshal_header x = do
  n ← lengths (children_of x)
  if ltb n 128
      then some (tag_of x ++ (to_byte n ∷ []))
      else if ltb n 256
      then some (tag_of x ++ (0x81 ∷ to_byte n ∷ []))
      else if ltb n 65536
      then some (tag_of x ++ (0x82 ∷ to_byte (n / 2 ^ 8) ∷ to_byte n ∷ []))
      else if ltb n 16777216
      then some (tag_of x ++ (0x83 ∷ to_byte (n / 2 ^ 16) ∷ to_byte (n / 2 ^ 8) ∷ to_byte n ∷ []))
      else none

-- The bytes of each child; a nil child panics.
unfoldable pub each_bytes : Children → Option (List Bytes)
each_bytes no_children = some []
each_bytes (nil_child cs) = none
each_bytes (child x cs) = do b ← bytes x; bs ← each_bytes cs; some (b ∷ bs)

-- `if secondSequenceOf87 != nil`.
unfoldable pub optional_bytes : Option Tlv → Option (List Bytes)
optional_bytes none = some []
optional_bytes (some x) = do b ← bytes x; some (b ∷ [])

-- The segments, from the package and its fields.
unfoldable pub segments : Tlv → Tlv → Tlv → Tlv → Option Tlv → Tlv → Option (List Bytes)
segments bpp secure_channel configure_isdp store_metadata replace_keys load_elements = do
  header ← marshal_header bpp
  channel ← bytes secure_channel
  configure ← bytes configure_isdp
  header_88 ← marshal_header store_metadata
  metadata ← each_bytes (children_of store_metadata)
  keys ← optional_bytes replace_keys
  header_86 ← marshal_header load_elements
  elements ← each_bytes (children_of load_elements)
  some
      ((header ++ channel) ∷ configure ∷ header_88 ∷ (metadata ++ (keys ++ (header_86 ∷ elements))))

-- A field that is nil here would be a nil dereference.
unfoldable pub segmented_bound_profile_package : Option Tlv → Option (Outcome (List Bytes))
segmented_bound_profile_package pointer = elim (valid_bound_profile_package pointer) [
  | some e ↦ some (failure e)
  | none ↦ do
    bpp ← pointer
    secure_channel ← first bpp (field_tag initialise_secure_channel)
    configure ← first bpp (field_tag first_87)
    metadata ← first bpp (field_tag sequence_88)
    elements ← first bpp (field_tag sequence_86)
    out ←
        segments bpp secure_channel configure metadata
          (first bpp (new_tag context_specific constructed 2)) elements
    some (success out)
]
