-- ===== src/Apdu/Request/Decode.antt =====
-- The bytes of a command against the short forms of ISO 7816-4 (apdu/request.go).
use euicc_go.Prelude.{
  ℕ, ◌≤◌, ◌≡◌, refl, Option, none, some, [], ◌∷◌, ◌++◌, Bytes, length, take, drop, ltb,
  if◌then◌else◌, arith, take-length_append, drop-length_append, length-append_bytes,
}
use euicc_go.Apdu.Request.{Request, payload_bytes, le_bytes, apdu}

abbrev header_of : ℕ → ℕ → ℕ → ℕ → Bytes → Option ℕ → Request
header_of cla ins p1 p2 d le = record {
  cla = cla;
  ins = ins;
  p1 = p1;
  p2 = p2;
  payload = d;
  le = le;
}

-- The data of the announced length, and a last byte that may follow it.
decode_data : ℕ → ℕ → ℕ → ℕ → Bytes → Bytes → Option Request
decode_data cla ins p1 p2 d [] = some (header_of cla ins p1 p2 d none)
decode_data cla ins p1 p2 d (le ∷ []) = some (header_of cla ins p1 p2 d (some le))
decode_data cla ins p1 p2 d (le ∷ b ∷ s) = none

-- How a card reads a short command: four bytes of header; then nothing, or an expected length
-- alone, or the length of the data, the data, and perhaps an expected length.
unfoldable pub decode : Bytes → Option Request
unfolding decode_data
decode (cla ∷ ins ∷ p1 ∷ p2 ∷ []) = some (header_of cla ins p1 p2 [] none)
decode (cla ∷ ins ∷ p1 ∷ p2 ∷ le ∷ []) = some (header_of cla ins p1 p2 [] (some le))
decode (cla ∷ ins ∷ p1 ∷ p2 ∷ lc ∷ b ∷ s) =
    if ltb (length (b ∷ s)) lc
    then none
    else decode_data cla ins p1 p2 (take lc (b ∷ s)) (drop lc (b ∷ s))
decode _ = none

payload_bytes_lem :
    (b : ℕ) (d : Bytes) → length (b ∷ d) ≤ 255 → payload_bytes (b ∷ d) ≡ length (b ∷ d) ∷ b ∷ d
payload_bytes_lem b d h = ground arith

module _ (cla ins p1 p2 : ℕ) where
  decode_data_lem :
      (b : ℕ) (d rest : Bytes) (lc : ℕ)
      → lc ≡ length (b ∷ d)
      → decode (cla ∷ ins ∷ p1 ∷ p2 ∷ lc ∷ b ∷ (d ++ rest)) ≡ decode_data cla ins p1 p2 (b ∷ d) rest
  unfolding decode
  decode_data_lem b d rest lc e =
      rw (e, take-length_append d rest, drop-length_append d rest)
        (ground (arith, length-append_bytes d rest))

  decode_parts :
      (d : Bytes) (le : Option ℕ)
      → length d ≤ 255
      → decode (cla ∷ ins ∷ p1 ∷ p2 ∷ (payload_bytes d ++ le_bytes le))
        ≡ some (header_of cla ins p1 p2 d le)
  unfolding decode
  decode_parts [] none h = refl
  decode_parts [] (some le) h = refl
  decode_parts (b ∷ d) none h =
      rw (payload_bytes_lem b d h) (decode_data_lem b d [] (length (b ∷ d)) refl)
  decode_parts (b ∷ d) (some le) h =
      rw (payload_bytes_lem b d h) (decode_data_lem b d (le ∷ []) (length (b ∷ d)) refl)

-- A card that reads the bytes of a command with at most 255 bytes of data gets the command back.
pub decode-apdu : (r : Request) → length r.payload ≤ 255 → decode (apdu r) ≡ some r
unfolding apdu
decode-apdu r h = decode_parts r.cla r.ins r.p1 r.p2 r.payload r.le h
