-- ===== src/Bertlv/Examples.antt =====
-- Concrete runs of bertlv/, and its theorems at concrete inputs.
use euicc_go.Prelude.{
  ◌≡◌, ◌≢◌, refl, ◌↔◌, none, some, [], ◌∷◌, ◌++◌, arith, Bytes, IsByte, All, length, lt_wf, dec_lt,
  inl, inr, replicate,
}
use euicc_go.Bertlv.Stream.{ok, panic, out_of_fuel}
use euicc_go.Bertlv.Tag.{
  new_tag_loop, new_tag_byte, new_tag, read_tag, is_primitive, is_constructed,
}
use euicc_go.Bertlv.Tag.New.{new_tag_unreadable}
use euicc_go.Bertlv.Tag.Read.{IsTag, Overlong, read_tag-eq-ok_iff, read_tag-eq-panic_iff}
use euicc_go.Bertlv.Length.{marshal_length, read_length, read_two}
use euicc_go.Bertlv.Tlv.{
  Tlv, object, no_children, child, nil_child, add_header, content_length, children_length, len,
  clone,
}
use euicc_go.Bertlv.Tlv.Write.{write_to, marshal_binary, bytes}
use euicc_go.Bertlv.Tlv.Read.{read_from}
use euicc_go.Bertlv.Tlv.Valid.{IsTlv}
use euicc_go.Bertlv.Tlv.RoundTrip.{read_from-write_to}
use euicc_go.Bertlv.Tlv.Sound.{read_from-ne-out_of_fuel}

-- [0] with the two bytes 1 and 2, and BF20 around it and a nil child.
abbrev leaf : Tlv
leaf = object (0x80 ∷ []) (1 ∷ 2 ∷ []) no_children

abbrev node : Tlv
node = object (0xbf ∷ 0x20 ∷ []) [] (child leaf (nil_child no_children))

abbrev node_bytes : Bytes
node_bytes = 0xbf ∷ 0x20 ∷ 0x04 ∷ 0x80 ∷ 0x02 ∷ 1 ∷ 2 ∷ []

abbrev node_read : Tlv
node_read = object (0xbf ∷ 0x20 ∷ []) [] (child leaf no_children)

write_node : bytes node ≡ some node_bytes
unfolding bytes marshal_binary write_to len content_length add_header marshal_length is_primitive
    is_constructed
write_node = refl

-- The tag of 128, with its last byte marked as not the last.
tag_128 : new_tag 2 1 128 ≡ 0xbf ∷ 0x80 ∷ 0x81 ∷ []
unfolding new_tag new_tag_loop new_tag_byte lt_wf dec_lt
tag_128 = refl

node-IsTlv : IsTlv node
unfolding IsTlv is_primitive children_length content_length add_header
node-IsTlv = (
  (omega arith, refl, omega arith, omega arith, refl),
  inr (
    refl,
    refl,
    ((omega arith, inl (refl, omega arith, omega arith, refl)), tt),
    (4, refl, omega arith),
  ),
)

node_bytes-IsByte : All IsByte node_bytes
node_bytes-IsByte = omega arith

read_from-write_to_example :
    (out : Bytes) × (y : Tlv) × (write_to node ≡ some (record { out = out; error = none }))
    × (len node ≡ some (length out))
    × (clone node ≡ some y)
    × (read_from (out ++ (9 ∷ [])) ≡ ok y (length out) (9 ∷ []))
read_from-write_to_example = read_from-write_to node (9 ∷ []) node-IsTlv

read_from-ne-out_of_fuel_example : read_from node_bytes ≢ out_of_fuel
read_from-ne-out_of_fuel_example = read_from-ne-out_of_fuel node_bytes node_bytes-IsByte

abbrev tag_32 : Bytes
tag_32 = 0xbf ∷ 0x20 ∷ []

read_tag-eq-ok_iff_example :
    (read_tag (tag_32 ++ (4 ∷ [])) ≡ ok tag_32 2 (4 ∷ []))
    ↔ ((tag_32 ++ (4 ∷ []) ≡ tag_32 ++ (4 ∷ [])) × IsTag tag_32 × (2 ≡ length tag_32))
read_tag-eq-ok_iff_example = read_tag-eq-ok_iff (tag_32 ++ (4 ∷ [])) tag_32 2 (4 ∷ []) (omega arith)

read_tag-eq-panic_iff_example :
    (read_tag (0xbf ∷ replicate 10 0x80) ≡ panic) ↔ Overlong (0xbf ∷ replicate 10 0x80)
read_tag-eq-panic_iff_example = read_tag-eq-panic_iff (0xbf ∷ replicate 10 0x80) (omega arith)

read_tag_overruns : read_tag (0xbf ∷ replicate 10 0x80) ≡ panic
unfolding read_tag
read_tag_overruns = refl

new_tag_unreadable_example : read_tag (new_tag 2 1 128) ≢ ok (0xbf ∷ 0x80 ∷ 0x81 ∷ []) 3 []
new_tag_unreadable_example =
    new_tag_unreadable 2 1 128 (omega arith) (omega arith) (omega arith) (0xbf ∷ 0x80 ∷ 0x81 ∷ []) 3
      []

read_length_300 : read_length 0 (0x82 ∷ 1 ∷ 44 ∷ 5 ∷ []) ≡ ok 300 3 (5 ∷ [])
unfolding read_length read_two
read_length_300 = refl
