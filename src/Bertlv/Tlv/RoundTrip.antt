-- ===== src/Bertlv/Tlv/RoundTrip.antt =====
-- What the writer writes, the reader reads back (bertlv/tlv_writer.go, bertlv/tlv_reader.go).
use euicc_go.Prelude.{◌≡◌, none, some, ◌++◌, Bytes, length, length-append_bytes, arith}
use euicc_go.Bertlv.Stream.{ok}
use euicc_go.Bertlv.Tlv.{Tlv, len, clone}
use euicc_go.Bertlv.Tlv.Write.{write_to}
use euicc_go.Bertlv.Tlv.Read.{read_from}
use euicc_go.Bertlv.Tlv.Valid.{IsTlv}
use euicc_go.Bertlv.Tlv.Codes.{IsTlv-Codes}

-- The encoding of a valid object is written without an error and has the length that `Len` said;
-- read from the front of any stream it gives the object's clone, and leaves what follows.
pub read_from-write_to :
    (x : Tlv) (rest : Bytes)
    → IsTlv x
    → (out : Bytes) × (y : Tlv) × (write_to x ≡ some (record { out = out; error = none }))
      × (len x ≡ some (length out))
      × (clone x ≡ some y)
      × (read_from (out ++ rest) ≡ ok y (length out) rest)
unfolding read_from
read_from-write_to x rest h =
    let (out, y, (ew, el, ec, _, _, reads)) = IsTlv-Codes x h in
    (out, y, ew, el, ec, reads rest _ (omega (arith, length-append_bytes out rest)))
