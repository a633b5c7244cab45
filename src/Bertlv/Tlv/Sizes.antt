-- ===== src/Bertlv/Tlv/Sizes.antt =====
-- What the writer and `Len` give, one step at a time (bertlv/tlv_writer.go).
use euicc_go.Prelude.{
  ℕ, ◌+◌, ◌^◌, ◌<◌, ◌≡◌, true, false, none, some, [], ◌++◌, Bytes, length, arith,
}
use euicc_go.Bertlv.Tag.{Tag, is_primitive}
use euicc_go.Bertlv.Length.{marshal_length}
use euicc_go.Bertlv.Length.Codec.{length_octets}
use euicc_go.Bertlv.Tlv.{Children, object, no_children, add_header, content_length, children_length}
use euicc_go.Bertlv.Tlv.Write.{write_to, write_children}
use euicc_go.Bertlv.Tlv.Valid.{is_constructed_lem}

pub add_header_lem :
    (t : Tag) (n : ℕ) → n < 2 ^ 24 → add_header t n ≡ some (n + length_octets n + length t)
unfolding add_header
add_header_lem t n h = ground arith

pub content_length_primitive :
    (t : Tag) (v : Bytes) (cs : Children)
    → is_primitive t ≡ some true
    → content_length (object t v cs) ≡ some (length v)
unfolding content_length
content_length_primitive t v cs h = rw h

pub content_length_constructed :
    (t : Tag) (v : Bytes) (cs : Children)
    → is_primitive t ≡ some false
    → content_length (object t v cs) ≡ children_length cs
unfolding content_length
content_length_constructed t v cs h = rw h

pub write_to_primitive :
    (t : Tag) (v octets : Bytes)
    → is_primitive t ≡ some true
    → length v < 2 ^ 24
    → marshal_length (length v) ≡ some octets
    → write_to (object t v no_children) ≡ some (record { out = (t ++ octets) ++ v; error = none })
unfolding write_to
write_to_primitive t v octets h l e =
    rw (content_length_primitive t v no_children h, is_constructed_lem t true h, h) (ground arith)

pub write_to_constructed :
    (t : Tag) (cs : Children) (octets out : Bytes) (n : ℕ)
    → is_primitive t ≡ some false
    → children_length cs ≡ some n
    → n < 2 ^ 24
    → marshal_length n ≡ some octets
    → write_children cs ≡ some (record { out = out; error = none })
    → write_to (object t [] cs) ≡ some (record { out = (t ++ octets) ++ out; error = none })
unfolding write_to
write_to_constructed t cs octets out n h en l e w =
    rw (content_length_constructed t [] cs h, en, is_constructed_lem t false h, h) (ground arith)
