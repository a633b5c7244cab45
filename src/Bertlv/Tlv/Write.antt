-- ===== src/Bertlv/Tlv/Write.antt =====
-- bertlv/tlv_writer.go: encoding.
use euicc_go.Prelude.{
  ℕ, ◌&&◌, Option, none, some, ◌>>=◌, [], ◌++◌, Bytes, length, ltb, if◌then◌else◌,
}
use euicc_go.Bertlv.Tag.{is_primitive, is_constructed}
use euicc_go.Bertlv.Length.{marshal_length}
use euicc_go.Bertlv.Tlv.{
  Tlv, Children, object, no_children, child, nil_child, count, content_length, len,
}

pub data WriteError : Type 0 where
  -- "tlv: constructed tag cannot have value"
  constructed_value : WriteError
  -- "tlv: primitive tag cannot have children"
  primitive_children : WriteError
  -- "tlv: length exceeds maximum (%d), got %d"
  too_long : ℕ → WriteError

-- What was written, and the error if there was one. The writer is a buffer, which never fails, and
-- the int64 that Go returns is the number of bytes written.
pub record Written : Type 0 where
  pub out : Bytes
  pub error : Option WriteError

abbrev pub failed : WriteError → Option Written
failed e = some (record { out = []; error = some e })

-- `w.Write(bytes)`, then the rest.
abbrev pub prepend : Bytes → Written → Written
prepend bytes w = record w { out = bytes ++ w.out }

-- `if _, err := …; err != nil { return n, err }`, then the rest.
abbrev pub then_write : Written → Option Written → Option Written
then_write w rest = elim (w.error) [ some e ↦ some w | none ↦ rest >>= λ v. some (prepend w.out v) ]

unfoldable mutual
  pub write_to : Tlv → Option Written
  write_to (object t v cs) = do
    n ← content_length (object t v cs)
    c ← is_constructed t
    p ← is_primitive t
    if ltb 0 (length v) && c
        then failed constructed_value
        else if ltb 0 (count cs) && p
        then failed primitive_children
        else if ltb 0xffffff n
        then failed (too_long n)
        else marshal_length n >>= λ octets.
            (if p then some (record { out = v; error = none }) else write_children cs) >>= λ w.
            some (prepend (t ++ octets) w)

  pub write_children : Children → Option Written
  write_children no_children = some (record { out = []; error = none })
  write_children (nil_child cs) = write_children cs
  write_children (child x cs) = do w ← write_to x; then_write w (write_children cs)

-- `buf.Grow(tlv.Len())` panics before the writer is asked, where the length is too large.
unfoldable pub marshal_binary : Tlv → Option Written
marshal_binary x = do _ ← len x; write_to x

unfoldable pub bytes : Tlv → Option Bytes
bytes x = do w ← marshal_binary x; elim (w.error) [ none ↦ some w.out | some e ↦ none ]
