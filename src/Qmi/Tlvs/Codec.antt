-- ===== src/Qmi/Tlvs/Codec.antt =====
-- Lists of TLVs written and read (driver/qmi/protocol/tlv.go: `WriteTo`, `ReadFrom`).
use euicc_go.Prelude.{
  ℕ, zero, suc, ◌+◌, ◌*◌, ◌/◌, ◌%◌, ◌≤◌, ◌<◌, ◌≡◌, refl, ◌∙◌, true, false, none, some, List, [],
  ◌∷◌, ◌++◌, append_assoc, append-nil, Bytes, length, take, drop, leb, ◌==◌, All, arith,
  take-length_append, drop-length_append, length-append_bytes,
}
use euicc_go.Qmi.Tlvs.{
  QmiTlv, short_value, tlvs_error, outcome, read_loop, read_tlvs, encoding, write_tlvs,
}

-- What a QmiTlv of Go holds, with its length that of its value.
abbrev pub IsQmiTlv : QmiTlv → Type 0
IsQmiTlv tlv = (tlv.kind < 256) × (tlv.len_field < 65536) × (tlv.len_field ≡ length tlv.value)

abbrev pub encodings : List QmiTlv → Bytes
encodings [] = []
encodings (tlv ∷ ts) = encoding tlv ++ encodings ts

pub write_tlvs_lem :
    (ts : List QmiTlv)
    → All IsQmiTlv ts
    → write_tlvs ts ≡ record { output = encodings ts; failure = none }
unfolding write_tlvs
write_tlvs_lem [] h = refl
write_tlvs_lem (tlv ∷ ts) ((hk, hl, hv), hs) =
    let same : (tlv.len_field == length tlv.value) ≡ true = ground arith in
    rw (write_tlvs_lem ts hs, same)

-- One round on a value that is there, and on one that ends early.
module _ (fuel t lo hi : ℕ) (s : Bytes) (read : ℕ) (ts : List QmiTlv) where
  pub read_loop-fits :
      leb (lo + hi * 256) (length s) ≡ true
      → read_loop (suc fuel) (t ∷ lo ∷ hi ∷ s) read ts
        ≡ read_loop fuel (drop (lo + hi * 256) s) (read + 3 + (lo + hi * 256)) (
            ts
            ++ (record { kind = t; len_field = lo + hi * 256; value = take (lo + hi * 256) s }
                ∷ []))
  unfolding read_loop
  read_loop-fits h = rw h

  pub read_loop-short :
      leb (lo + hi * 256) (length s) ≡ false
      → read_loop (suc fuel) (t ∷ lo ∷ hi ∷ s) read ts
        ≡ outcome (read + 3 + length s) ts (some short_value)
  unfolding read_loop
  read_loop-short h = rw h

read_loop-encoding :
    (fuel kind n : ℕ) (value s : Bytes) (read : ℕ) (ts : List QmiTlv)
    → n ≡ length value
    → n < 65536
    → read_loop
        (suc fuel)
        (encoding (record { kind = kind; len_field = n; value = value }) ++ s)
        read
        ts
      ≡ read_loop fuel s
          (read + 3 + n)
          (ts ++ (record { kind = kind; len_field = n; value = value } ∷ []))
read_loop-encoding fuel kind n value s read ts e h =
    let octets : n % 256 + n / 256 % 256 * 256 ≡ n = omega arith in
    let fits : leb (n % 256 + n / 256 % 256 * 256) (length (value ++ s)) ≡ true =
      rw octets (ground (arith, length-append_bytes value s)) in
    read_loop-fits fuel kind (n % 256) (n / 256 % 256) (value ++ s) read ts fits
    ∙ rw (octets, e, take-length_append value s, drop-length_append value s)

read_loop-encodings :
    (fuel : ℕ) (ts : List QmiTlv) (read : ℕ) (before : List QmiTlv)
    → All IsQmiTlv ts
    → length (encodings ts) ≤ fuel
    → read_loop fuel (encodings ts) read before
      ≡ outcome (read + length (encodings ts)) (before ++ ts) (tlvs_error (before ++ ts))
unfolding read_loop
read_loop-encodings fuel [] read before h hf =
    let z : read + 0 ≡ read = omega arith in rw (append-nil before, z)
read_loop-encodings zero (tlv ∷ ts) read before h hf = absurd (omega arith)
read_loop-encodings (suc fuel) (tlv ∷ ts) read before ((hk, hl, hv), hs) hf =
    let l : length (encoding tlv ++ encodings ts) ≡ 3 + length tlv.value + length (encodings ts) =
      omega (arith, length-append_bytes tlv.value (encodings ts)) in
    let total : read + 3 + tlv.len_field + length (encodings ts)
        ≡ read + length (encoding tlv ++ encodings ts) =
      omega arith in
    read_loop-encoding fuel tlv.kind tlv.len_field tlv.value (encodings ts) read before hv hl
    ∙ read_loop-encodings fuel ts (read + 3 + tlv.len_field) (before ++ (tlv ∷ [])) hs (omega arith)
    ∙ rw (append_assoc before (tlv ∷ []) ts, total)

-- A list of TLVs whose lengths are those of their values is written without an error; a read of the
-- bytes counts them all, appends the list to the one given, and returns the error of the result
-- TLV of the list so made.
pub read_tlvs-write_tlvs :
    (ts before : List QmiTlv)
    → All IsQmiTlv ts
    → (output : Bytes) × (write_tlvs ts ≡ record { output = output; failure = none })
      × (read_tlvs output before
          ≡ outcome (length output) (before ++ ts) (tlvs_error (before ++ ts)))
unfolding read_tlvs
read_tlvs-write_tlvs ts before h = (
  encodings ts,
  write_tlvs_lem ts h,
  read_loop-encodings (length (encodings ts)) ts 0 before h (omega arith) ∙ rw zero_plus,
)
  where
    zero_plus : 0 + length (encodings ts) ≡ length (encodings ts)
    zero_plus = omega arith
