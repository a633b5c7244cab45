-- ===== src/Bertlv/Length.antt =====
-- bertlv/length.go: the length octets.
pub mod Codec
use euicc_go.Prelude.{
  ℕ, zero, suc, ◌+◌, ◌*◌, ◌/◌, ◌%◌, ◌^◌, bit_or, Bool, true, false, Option, none, some, [], ◌∷◌,
  Bytes, to_byte, length, ltb, leb, ◌==◌, if◌then◌else◌,
}
use euicc_go.Bertlv.Stream.{Result, ok, err, unsupported_length, short_length}

-- `none` is the panic for a length over three bytes.
unfoldable pub marshal_length : ℕ → Option Bytes
marshal_length n =
    if ltb n 128
    then some (to_byte n ∷ [])
    else if ltb n 256
    then some (0x81 ∷ to_byte n ∷ [])
    else if ltb n 65536
    then some (0x82 ∷ to_byte (n / 2 ^ 8) ∷ to_byte n ∷ [])
    else if ltb n 16777216
    then some (0x83 ∷ to_byte (n / 2 ^ 16) ∷ to_byte (n / 2 ^ 8) ∷ to_byte n ∷ [])
    else none

-- One, two or three bytes more, big endian. `count` is the int64 of the reader's counter: the bytes
-- that the octets before took. A short read takes what there is, and is an error.
unfoldable pub read_one : ℕ → Bytes → Result ℕ
read_one count (a ∷ s) = ok a (count + 1) s
read_one count s = err (short_length 1 (length s)) (count + length s) []

unfoldable pub read_two : ℕ → Bytes → Result ℕ
read_two count (a ∷ b ∷ s) = ok (bit_or (a * 2 ^ 8) b) (count + 2) s
read_two count s = err (short_length 2 (length s)) (count + length s) []

unfoldable pub read_three : ℕ → Bytes → Result ℕ
read_three count (a ∷ b ∷ c ∷ s) = ok (bit_or (bit_or (a * 2 ^ 16) (b * 2 ^ 8)) c) (count + 3) s
read_three count s = err (short_length 3 (length s)) (count + length s) []

unfoldable pub read_length : ℕ → Bytes → Result ℕ
read_length count [] = err (short_length 1 0) count []
read_length count (b ∷ s) =
    if b == 0x81
    then read_one (count + 1) s
    else if b == 0x82
    then read_two (count + 1) s
    else if b == 0x83
    then read_three (count + 1) s
    else if leb 0x80 b
    then err unsupported_length (count + 1) s
    else ok b (count + 1) s
