-- ===== src/Bertlv/Stream.antt =====
-- What a read of bertlv returns. The io.Reader is the bytes that it has still to deliver; at their
-- end it answers EOF. (bertlv/tag.go, bertlv/length.go, bertlv/tlv_reader.go)
use euicc_go.Prelude.{ℕ, Bytes}

-- The errors, with what their texts are built from.
pub data Error : Type 0 where
  -- "tag encoding with less than one byte"
  short_tag : Error
  -- "tag encoding with more than %d bytes"
  long_tag : ℕ → Error
  -- "unsupported length encoding"
  unsupported_length : Error
  -- "expected %d bytes, got %d"
  short_length : ℕ → ℕ → Error
  -- "tag %02X: invalid length encoding"
  invalid_length : Bytes → Error → Error
  -- "tag %02X: invalid child object"
  invalid_child : Bytes → Error → Error
  -- the same text, where the value ends early
  short_value : Bytes → Error

-- A value or an error, each with the int64 that Go returns beside it and the bytes left in the
-- reader; or a panic. `out_of_fuel` is no outcome of the program.
pub data Result {ℓ} (A : Type ℓ) : Type ℓ where
  ok : A → ℕ → Bytes → Result A
  err : Error → ℕ → Bytes → Result A
  panic out_of_fuel : Result A

-- `if v, err := read(); err != nil { … }`: what to do with an error, and with a value.
abbrev pub handle {ℓ κ} :
    {A : Type ℓ} {B : Type κ}
    → Result A
    → (Error → ℕ → Bytes → Result B)
    → (A → ℕ → Bytes → Result B)
    → Result B
handle (ok a n s) on_error next = next a n s
handle (err e n s) on_error next = on_error e n s
handle panic on_error next = panic
handle out_of_fuel on_error next = out_of_fuel
