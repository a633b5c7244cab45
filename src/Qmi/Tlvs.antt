-- ===== src/Qmi/Tlvs.antt =====
-- driver/qmi/protocol/tlv.go: lists of type, length and value.
pub mod Codec
pub mod Sound
use euicc_go.Prelude.{
  ℕ, zero, suc, ◌+◌, ◌*◌, ◌/◌, ◌%◌, Bool, true, false, not, Option, none, some, List, [], ◌∷◌, ◌++◌,
  Bytes, length, take, drop, leb, ltb, ◌==◌, if◌then◌else◌,
}

pub record QmiTlv : Type 0 where
  pub kind : ℕ
  pub len_field : ℕ
  pub value : Bytes

pub data TlvError : Type 0 where
  -- "read TLV length", "read TLV value"
  short_length short_value : TlvError
  -- "TLV type 0x%02X length mismatch: header %d, value %d"
  length_mismatch : ℕ → ℕ → ℕ → TlvError
  -- "result TLV too short, expected 4 bytes, got %d"
  short_result : ℕ → TlvError
  -- a QMIError, by its code
  qmi_error : ℕ → TlvError
  -- "no result TLV found"
  no_result : TlvError
  -- no outcome of the program
  out_of_fuel : TlvError

unfoldable pub find_tlv : List QmiTlv → ℕ → Option QmiTlv
find_tlv [] t = none
find_tlv (tlv ∷ ts) t = let later = find_tlv ts t in if tlv.kind == t then some tlv else later

-- A result of four bytes or more: 0 in the first two is success, the others hold the code.
unfoldable pub result_error : Bytes → Option TlvError
result_error (s₀ ∷ s₁ ∷ e₀ ∷ e₁ ∷ value) =
    if (s₀ + s₁ * 256) == 0 then none else some (qmi_error (e₀ + e₁ * 256))
result_error value = some (short_result (length value))

unfoldable pub tlvs_error : List QmiTlv → Option TlvError
tlvs_error ts = elim (find_tlv ts 0x02) [
  | none ↦ some no_result
  | some tlv ↦ result_error tlv.value
]

-- The int64, the list that was appended to, and the error; `none` is nil.
pub record ReadOutcome : Type 0 where
  pub read : ℕ
  pub tlvs : List QmiTlv
  pub failure : Option TlvError

abbrev pub outcome : ℕ → List QmiTlv → Option TlvError → ReadOutcome
outcome read tlvs failure = record { read = read; tlvs = tlvs; failure = failure }

-- The reader is the bytes that it has still to deliver; each round takes three at least.
unfoldable pub read_loop : ℕ → Bytes → ℕ → List QmiTlv → ReadOutcome
read_loop fuel [] read ts = outcome read ts (tlvs_error ts)
read_loop fuel (t ∷ []) read ts = outcome (read + 1) ts (some short_length)
read_loop fuel (t ∷ lo ∷ []) read ts = outcome (read + 1) ts (some short_length)
read_loop zero (t ∷ lo ∷ hi ∷ s) read ts = outcome read ts (some out_of_fuel)
read_loop (suc fuel) (t ∷ lo ∷ hi ∷ s) read ts =
    let n = lo + hi * 256 in
    let on =
      read_loop fuel (drop n s) (read + 3 + n)
        (ts ++ (record { kind = t; len_field = n; value = take n s } ∷ [])) in
    if leb n (length s) then on else outcome (read + 3 + length s) ts (some short_value)

unfoldable pub read_tlvs : Bytes → List QmiTlv → ReadOutcome
read_tlvs s ts = read_loop (length s) s 0 ts

-- What went to the writer, which takes all that it is given, and the error; the int64 is the number
-- of the bytes.
pub record WriteOutcome : Type 0 where
  pub output : Bytes
  pub failure : Option TlvError

abbrev pub encoding : QmiTlv → Bytes
encoding tlv = tlv.kind ∷ tlv.len_field % 256 ∷ tlv.len_field / 256 % 256 ∷ tlv.value

unfoldable pub write_tlvs : List QmiTlv → WriteOutcome
write_tlvs [] = record { output = []; failure = none }
write_tlvs (tlv ∷ ts) =
    let later = write_tlvs ts in
    if not (tlv.len_field == length tlv.value)
    then record {
      output = [];
      failure = some (length_mismatch tlv.kind tlv.len_field (length tlv.value));
    }
    else record { output = encoding tlv ++ later.output; failure = later.failure }
