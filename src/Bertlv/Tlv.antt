-- ===== src/Bertlv/Tlv.antt =====
-- The TLV object of bertlv/tlv.go and its sizes (bertlv/length.go, bertlv/tlv_writer.go).
pub mod Write
pub mod Read
pub mod Valid
pub mod Sizes
pub mod Steps
pub mod Codes
pub mod RoundTrip
pub mod Parts
pub mod Sound
use euicc_go.Prelude.{
  ℕ, zero, suc, ◌+◌, ◌^◌, Bool, true, false, Option, none, some, ◌>>=◌, [], ◌∷◌, Bytes, length, ltb,
  if◌then◌else◌,
}
use euicc_go.Bertlv.Tag.{Tag, is_primitive}

-- A *TLV is the tag, the value and the children of what it points to. A child may be nil.
mutual
  pub data Tlv : Type 0 where
    object : Tag → Bytes → Children → Tlv

  pub data Children : Type 0 where
    no_children : Children
    child : Tlv → Children → Children
    nil_child : Children → Children

abbrev pub tag_of : Tlv → Tag
tag_of (object t v cs) = t

abbrev pub value_bytes : Tlv → Bytes
value_bytes (object t v cs) = v

abbrev pub children_of : Tlv → Children
children_of (object t v cs) = cs

-- `len(tlv.Children)`, nil pointers included.
abbrev pub count : Children → ℕ
count no_children = 0
count (child x cs) = suc (count cs)
count (nil_child cs) = suc (count cs)

-- The body of `Len`, from the content's length on; `none` is its panic.
unfoldable pub add_header : Tag → ℕ → Option ℕ
add_header t n =
    if ltb n 128
    then some (n + 1 + length t)
    else if ltb n 256
    then some (n + 2 + length t)
    else if ltb n 65536
    then some (n + 3 + length t)
    else if ltb n 16777216
    then some (n + 4 + length t)
    else none

-- `contentLength`; its loop over the children asks each one's `Len`.
unfoldable mutual
  pub content_length : Tlv → Option ℕ
  content_length (object t v cs) = do
    p ← is_primitive t
    if p then some (length v) else children_length cs

  pub children_length : Children → Option ℕ
  children_length no_children = some 0
  children_length (nil_child cs) = children_length cs
  children_length (child x cs) = do
    n ← content_length x
    l ← add_header (tag_of x) n
    m ← children_length cs
    some (l + m)

unfoldable pub len : Tlv → Option ℕ
len x = do n ← content_length x; add_header (tag_of x) n

-- `Clone` copies the bytes and drops what the form of the tag does not allow, and nil children.
unfoldable mutual
  pub clone : Tlv → Option Tlv
  clone (object t v cs) = do
    p ← is_primitive t
    if p then some (object t v no_children) else clone_children cs >>= λ ds. some (object t [] ds)

  pub clone_children : Children → Option Children
  clone_children no_children = some no_children
  clone_children (nil_child cs) = clone_children cs
  clone_children (child x cs) = do y ← clone x; ds ← clone_children cs; some (child y ds)
