-- ===== src/Bertlv/Tlv/Steps.antt =====
-- The reader on a printed object, one step at a time (bertlv/tlv_writer.go, bertlv/tlv_reader.go).
use euicc_go.Prelude.{
  ℕ, suc, ◌+◌, ◌%◌, ◌^◌, ◌≤◌, ◌<◌, ◌≡◌, true, false, some, [], ◌∷◌, ◌++◌, Bytes, length,
  length-append_bytes, take-length_append, drop-length_append, arith, lt→ltb, le→ltb,
}
use euicc_go.Bertlv.Stream.{ok}
use euicc_go.Bertlv.Tag.{Tag, is_primitive}
use euicc_go.Bertlv.Tag.Read.{IsTag, read_tag-append}
use euicc_go.Bertlv.Length.{read_length}
use euicc_go.Bertlv.Tlv.{Tlv, Children, object, no_children, child}
use euicc_go.Bertlv.Tlv.Read.{read_tlv, read_children, read_value}
use euicc_go.Bertlv.Tlv.Valid.{is_constructed_lem}

read_value_lem :
    (t : Tag) (v rest : Bytes) (count : ℕ)
    → read_value t (length v) count (v ++ rest)
      ≡ ok (object t v no_children) (count + length v) rest
unfolding read_value
read_value_lem t [] rest count = ground arith
read_value_lem t (b ∷ v) rest count =
    rw (take-length_append v rest, drop-length_append v rest)
      (ground (arith, length-append_bytes v rest))

pub read_tlv_primitive :
    (f : ℕ) (t octets v rest : Bytes)
    → IsTag t
    → is_primitive t ≡ some true
    → read_length (length t) (octets ++ (v ++ rest))
      ≡ ok (length v) (length t + length octets) (v ++ rest)
    → read_tlv (suc f) (t ++ (octets ++ (v ++ rest)))
      ≡ ok (object t v no_children) (length t + length octets + length v) rest
unfolding read_tlv
read_tlv_primitive f t octets v rest ht hp el =
    rw (read_tag-append t (octets ++ (v ++ rest)) ht, el, is_constructed_lem t true hp)
      (read_value_lem t v rest _)

pub read_tlv_constructed :
    (f : ℕ) (t octets out rest : Bytes) (ys : Children)
    → IsTag t
    → is_primitive t ≡ some false
    → read_length (length t) (octets ++ (out ++ rest))
      ≡ ok (length out) (length t + length octets) (out ++ rest)
    → read_children f t (length out) 0 (length t + length octets) (out ++ rest)
      ≡ ok ys (length t + length octets + length out) rest
    → read_tlv (suc f) (t ++ (octets ++ (out ++ rest)))
      ≡ ok (object t [] ys) (length t + length octets + length out) rest
unfolding read_tlv
read_tlv_constructed f t octets out rest ys ht hp el ec =
    rw (read_tag-append t (octets ++ (out ++ rest)) ht, el, is_constructed_lem t false hp, ec)

pub read_children_done :
    (f : ℕ) (t : Tag) (total index count : ℕ) (s : Bytes)
    → total ≤ index
    → read_children (suc f) t total index count s ≡ ok no_children count s
unfolding read_children
read_children_done f t total index count s h = rw (le→ltb index total h, read_children)

pub read_children_more :
    (f : ℕ) (t : Tag) (total index count n k : ℕ) (s s₁ s₂ : Bytes) (y : Tlv) (ys : Children)
    → index + n ≤ total
    → total < 2 ^ 24
    → 0 < n
    → read_tlv f s ≡ ok y n s₁
    → read_children f t total (index + n) (count + n) s₁ ≡ ok ys k s₂
    → read_children (suc f) t total index count s ≡ ok (child y ys) k s₂
unfolding read_children
read_children_more f t total index count n k s s₁ s₂ y ys hi hl hn e es =
    let wrap : (index + n % 2 ^ 32) % 2 ^ 32 ≡ index + n = omega arith in
    rw (lt→ltb index total (omega arith), read_children, e, wrap, es)
