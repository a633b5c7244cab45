-- ===== src/Qmi/Examples.antt =====
-- Lists of TLVs, written and read.
use euicc_go.Prelude.{◌≡◌, refl, none, some, [], ◌∷◌, Bytes, length, All, IsByte, arith}
use euicc_go.Qmi.Tlvs.{
  QmiTlv, tlvs_error, find_tlv, result_error, outcome, read_loop, read_tlvs, write_tlvs, qmi_error,
  short_value,
}
use euicc_go.Qmi.Tlvs.Codec.{read_tlvs-write_tlvs}

abbrev success : QmiTlv
success = record { kind = 2; len_field = 4; value = 0 ∷ 0 ∷ 0 ∷ 0 ∷ [] }

abbrev slot : QmiTlv
slot = record { kind = 1; len_field = 1; value = 9 ∷ [] }

abbrev stream : Bytes
stream = 2 ∷ 4 ∷ 0 ∷ 0 ∷ 0 ∷ 0 ∷ 0 ∷ 1 ∷ 1 ∷ 0 ∷ 9 ∷ []

stream-read : read_tlvs stream [] ≡ outcome 11 (success ∷ slot ∷ []) none
unfolding read_tlvs read_loop tlvs_error find_tlv result_error
stream-read = refl

-- The value is one byte short.
cut_stream : read_tlvs (1 ∷ 2 ∷ 0 ∷ 9 ∷ []) [] ≡ outcome 4 [] (some short_value)
unfolding read_tlvs read_loop
cut_stream = refl

refused_example :
    tlvs_error (record { kind = 2; len_field = 4; value = 1 ∷ 0 ∷ 3 ∷ 0 ∷ [] } ∷ [])
    ≡ some (qmi_error 3)
unfolding tlvs_error find_tlv result_error
refused_example = refl

read_tlvs-write_tlvs_example :
    (output : Bytes) × (write_tlvs (success ∷ slot ∷ [])
      ≡ record { output = output; failure = none })
    × (read_tlvs output []
        ≡ outcome (length output) (success ∷ slot ∷ []) (tlvs_error (success ∷ slot ∷ [])))
read_tlvs-write_tlvs_example =
    read_tlvs-write_tlvs (success ∷ slot ∷ []) []
      ((omega arith, omega arith, refl), ((omega arith, omega arith, refl), tt))

stream-Bytes : All IsByte stream
stream-Bytes = (
  omega arith,
  (
    omega arith,
    (
      omega arith,
      (
        omega arith,
        (
          omega arith,
          (
            omega arith,
            (omega arith, (omega arith, (omega arith, (omega arith, (omega arith, tt))))),
          ),
        ),
      ),
    ),
  ),
)
