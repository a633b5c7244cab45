-- ===== src/Sgp22/Es10c.antt =====
-- v2/es10c.go: the requests of ES10c and their responses.
pub mod Tags
use euicc_go.Prelude.{
  ℕ, suc, Bool, true, false, not, ◌||◌, Option, none, some, List, [], ◌∷◌, Bytes, length, to_byte,
  concat, ltb, ◌==◌, if◌then◌else◌,
}
use euicc_go.Prelude.Checked.{Checked, ok, err, panic, ◌>>=◌, refuse_if, pointed}
use euicc_go.Bertlv.Tag.{
  Tag, new_tag, application, context_specific, primitive, constructed, value_of,
}
use euicc_go.Bertlv.Tlv.{Tlv, Children, no_children, child, nil_child, children_of, value_bytes}
use euicc_go.Bertlv.Selector.{first}
use euicc_go.Bertlv.Primitive.{marshal_bool, marshal_bit_string, unmarshal_int}
use euicc_go.Sgp22.Message.{
  Reply, MessageError, new_value, new_children, first_of, check_tag, unmarshal_value,
  nothing_to_delete, iccid_not_found, cat_busy, undefined_error, incorrect_input, not_found,
  not_disabled, not_enabled, disallowed, wrong_reenabling, no_eid, invalid_nickname,
  nickname_too_long,
}

-- `seen[fb]`.
abbrev pub contains : ℕ → List ℕ → Bool
contains n [] = false
contains n (m ∷ ms) = (n == m) || contains n ms

-- `unqiueTags`, with the bytes that were seen.
unfoldable pub unique_tags : List ℕ → List Tag → Reply (List Tag)
unique_tags seen [] = ok []
unique_tags seen (t ∷ ts) = elim (value_of t) [
  | none ↦ panic
  | some v ↦ elim (contains (to_byte v) seen) [
    | true ↦ unique_tags seen ts
    | false ↦ (do rest ← unique_tags (to_byte v ∷ seen) ts; ok (t ∷ rest))
  ]
]

abbrev pub criteria : Option Tlv → Reply (List (Option Tlv))
criteria none = ok []
criteria (some c) = do
  x ← new_children (new_tag context_specific constructed 0) (some c ∷ [])
  ok (some x ∷ [])

abbrev pub tag_list : Bytes → Reply (List (Option Tlv))
tag_list [] = ok []
tag_list (b ∷ s) = do x ← new_value (new_tag application primitive 28) (b ∷ s); ok (some x ∷ [])

abbrev pub both : List (Option Tlv) → List (Option Tlv) → List (Option Tlv)
both [] ys = ys
both (x ∷ xs) ys = x ∷ both xs ys

unfoldable pub marshal_profile_info_list : Option Tlv → List Tag → Reply Tlv
marshal_profile_info_list search_criteria tags = do
  cs ← criteria search_criteria
  unique ← unique_tags [] tags
  ts ← tag_list (concat unique)
  new_children (new_tag context_specific constructed 45) (both cs ts)

-- `range tlv.Children`, of objects that may be nil.
abbrev pub each_child : {P : Type 0} → (Tlv → Reply P) → Children → Reply (List P)
each_child decode no_children = ok []
each_child decode (nil_child cs) = panic
each_child decode (child x cs) = do p ← decode x; ps ← each_child decode cs; ok (p ∷ ps)

-- `ProfileInfoListResponse.Valid`, of the error object.
unfoldable pub valid_profile_info_list : Bytes → Reply (Unit {0})
valid_profile_info_list [] = panic
valid_profile_info_list (b ∷ s) = if b == 1 then err incorrect_input else err undefined_error

-- `ProfileInfo.UnmarshalBERTLV` is a parameter.
unfoldable pub unmarshal_profile_info_list : {P : Type 0} → (Tlv → Reply P) → Tlv → Reply (List P)
unmarshal_profile_info_list decode x = elim (first x (new_tag context_specific primitive 1)) [
  | some e ↦ (do _ ← valid_profile_info_list (value_bytes e); ok [])
  | none ↦ (do
    list ← pointed (first x (new_tag context_specific constructed 0))
    each_child decode (children_of list))
]

abbrev pub enable_profile : ℕ
enable_profile = 49

abbrev pub disable_profile : ℕ
disable_profile = 50

abbrev pub delete_profile : ℕ
delete_profile = 51

-- `NewChildrenIter` collects what is yielded.
unfoldable pub marshal_operation : ℕ → Option Tlv → Bool → Reply Tlv
marshal_operation operation identifier refresh =
    if operation == delete_profile
    then new_children (new_tag context_specific constructed operation) (identifier ∷ [])
    else (do
      named ← new_children (new_tag context_specific constructed 0) (identifier ∷ [])
      flag ← new_value (new_tag context_specific primitive 1) (marshal_bool refresh)
      new_children (new_tag context_specific constructed operation) (some named ∷ some flag ∷ []))

-- `tlv.First(…).UnmarshalValue(primitive.UnmarshalInt(&r.Result))`, of an int8 that is 0.
abbrev pub result_of : Tlv → Reply ℕ
result_of x = unmarshal_value (first x (new_tag context_specific primitive 0)) (unmarshal_int 1) 0

unfoldable pub unmarshal_operation : ℕ → Tlv → Reply ℕ
unmarshal_operation operation x = do
  _ ← check_tag context_specific constructed operation x
  result_of x

unfoldable pub valid_operation : ℕ → ℕ → Reply (Unit {0})
valid_operation operation result =
    if result == 0
    then ok tt
    else if result == 1
    then err not_found
    else if result == 2
    then (if operation == enable_profile then err not_disabled else err not_enabled)
    else if result == 3
    then err disallowed
    else if result == 4
    then err wrong_reenabling
    else if result == 5
    then err cat_busy
    else err undefined_error

unfoldable pub marshal_memory_reset : Bool → Bool → Bool → Reply Tlv
marshal_memory_reset operational field_loaded_test default_smdp_address = do
  x ←
      new_value (new_tag application primitive 2)
        (marshal_bit_string (operational ∷ field_loaded_test ∷ default_smdp_address ∷ []))
  new_children (new_tag context_specific constructed 52) (some x ∷ [])

unfoldable pub unmarshal_memory_reset : Tlv → Reply ℕ
unmarshal_memory_reset x = do _ ← check_tag context_specific constructed 52 x; result_of x

unfoldable pub valid_memory_reset : ℕ → Reply (Unit {0})
valid_memory_reset result =
    if result == 0
    then ok tt
    else if result == 1
    then err nothing_to_delete
    else if result == 5
    then err cat_busy
    else err undefined_error

-- The value is the tag of the EID.
unfoldable pub marshal_get_data : Reply Tlv
marshal_get_data = do
  x ← new_value (new_tag application primitive 28) (new_tag application primitive 26)
  new_children (new_tag context_specific constructed 62) (some x ∷ [])

unfoldable pub unmarshal_get_data : Tlv → Reply Bytes
unmarshal_get_data x = elim (first x (new_tag application primitive 26)) [
  | none ↦ err no_eid
  | some e ↦ ok (value_bytes e)
]

-- `utf8.Valid` is a parameter.
unfoldable pub valid_nickname : (Bytes → Bool) → Bytes → Reply (Unit {0})
valid_nickname utf8_valid nickname =
    if not (utf8_valid nickname)
    then err invalid_nickname
    else if ltb 64 (length nickname)
    then err nickname_too_long
    else ok tt

unfoldable pub marshal_set_nickname : (Bytes → Bool) → Bytes → Bytes → Reply Tlv
marshal_set_nickname utf8_valid iccid nickname = do
  _ ← valid_nickname utf8_valid nickname
  x ← new_value (new_tag application primitive 26) iccid
  y ← new_value (new_tag context_specific primitive 16) nickname
  new_children (new_tag context_specific constructed 41) (some x ∷ some y ∷ [])

unfoldable pub unmarshal_set_nickname : Tlv → Reply ℕ
unmarshal_set_nickname x = do _ ← check_tag context_specific constructed 41 x; result_of x

unfoldable pub valid_set_nickname : ℕ → Reply (Unit {0})
valid_set_nickname result =
    if result == 0 then ok tt else if result == 1 then err iccid_not_found else err undefined_error
