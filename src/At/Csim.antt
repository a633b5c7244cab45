-- ===== src/At/Csim.antt =====
-- The answer of AT+CSIM (driver/at/csim.go).
use euicc_go.Prelude.{
  ℕ, ◌-◌, ◌%◌, Bool, true, false, ◌&&◌, ◌||◌, not, Option, none, some, List, [], ◌∷◌, Bytes, length,
  drop, get_elem?, ltb, leb, ◌==◌, if◌then◌else◌,
}
use euicc_go.Prelude.Int.{ℤ, pos, negsuc}
use euicc_go.Prelude.Action.{Result, ok, err}
use euicc_go.Sgp22.Identifier.{any_invalid, decode_string}
use euicc_go.At.{AtError, invalid_csim, trim_space, has_prefix}

-- `strings.SplitSeq(s, sep)` for one byte: the first part and the others.
unfoldable pub split : ℕ → Bytes → Bytes × List Bytes
split sep [] = ([], [])
split sep (b ∷ bs) =
    let (part, parts) = split sep bs in if b == sep then ([], part ∷ parts) else (b ∷ part, parts)

-- `strings.Cut(s, ",")`.
unfoldable pub cut : Bytes → Option (Bytes × Bytes)
cut [] = none
cut (b ∷ bs) =
    let rest = cut bs in
    if b == 44
    then some ([], bs)
    else elim rest [ none ↦ none | some (before, after) ↦ some (b ∷ before, after) ]

-- "+CSIM:".
abbrev pub csim_prefix : Bytes
csim_prefix = 43 ∷ 67 ∷ 83 ∷ 73 ∷ 77 ∷ 58 ∷ []

-- `hex.DecodeString`, which fails on an odd length too.
unfoldable pub decode_hex_response : Bytes → Result AtError Bytes
decode_hex_response data_field =
    if any_invalid data_field || not (length data_field % 2 == 0)
    then err invalid_csim
    else ok (decode_string data_field)

unfoldable pub has_known_status_word : Bytes → Bool
has_known_status_word response = elim (get_elem? response (length response - 2)) [
  | none ↦ false
  | some sw1 ↦
      leb 2 (length response) && ((leb 0x61 sw1 && leb sw1 0x6F) || (leb 0x90 sw1 && leb sw1 0x9F))
]

-- `line == "" || strings.HasPrefix(line, "+")`.
abbrev pub is_ignored : Bytes → Bool
is_ignored [] = true
is_ignored (b ∷ bs) = b == 43

-- `strconv.Atoi` and `strconv.Unquote`, which may fail.
module _ (atoi : Bytes → Option ℤ) (unquote : Bytes → Option Bytes) where
  abbrev pub unquoted : Option Bytes → Result AtError Bytes
  unquoted none = err invalid_csim
  unquoted (some s) = ok s

  -- A field that begins with a quotation mark is quoted.
  unfoldable pub decode_csim_hex_field : Bytes → Result AtError Bytes
  decode_csim_hex_field field =
      if has_prefix (34 ∷ []) (trim_space field)
      then unquoted (unquote (trim_space field))
      else ok (trim_space field)

  abbrev pub measured : ℕ → Result AtError Bytes → Result AtError Bytes
  measured want (err e) = err e
  measured want (ok hex_data) =
      if length hex_data == want then decode_hex_response hex_data else err invalid_csim

  abbrev pub counted : Option ℤ → Bytes → Result AtError Bytes
  counted none data_field = err invalid_csim
  counted (some (negsuc n)) data_field = err invalid_csim
  counted (some (pos want)) data_field = measured want (decode_csim_hex_field data_field)

  abbrev pub bare : Result AtError Bytes → Result AtError Bytes
  bare (err e) = err e
  bare (ok hex_data) = decode_hex_response hex_data

  unfoldable pub decode_csim_body : Bytes → Result AtError Bytes
  decode_csim_body body = elim (cut body) [
    | none ↦ bare (decode_csim_hex_field body)
    | some (length_field, data_field) ↦ counted (atoi (trim_space length_field)) data_field
  ]

  abbrev pub known : Result AtError Bytes → Result AtError Bytes
  known (err e) = err e
  known (ok response) =
      if ltb (length response) 2
      then err invalid_csim
      else if has_known_status_word response
      then ok response
      else err invalid_csim

  unfoldable pub decode_bare_csim_line : Bytes → Result AtError Bytes
  decode_bare_csim_line line = known (decode_csim_body line)

  -- `strings.TrimPrefix(line, "+CSIM:")` of a line that has the prefix.
  unfoldable pub decode_csim_line : Bytes → Result AtError Bytes
  decode_csim_line line = decode_csim_body (trim_space (drop 6 line))

  -- The second loop: the first line that can be decoded.
  unfoldable pub first_bare : List Bytes → Result AtError Bytes
  first_bare [] = err invalid_csim
  first_bare (raw ∷ lines) =
      let rest = first_bare lines in
      if is_ignored (trim_space raw)
      then rest
      else elim (decode_bare_csim_line (trim_space raw)) [ ok r ↦ ok r | err e ↦ rest ]

  -- The first loop: the first line with the prefix decides.
  unfoldable pub first_prefixed : List Bytes → List Bytes → Result AtError Bytes
  first_prefixed everything [] = first_bare everything
  first_prefixed everything (raw ∷ lines) =
      let rest = first_prefixed everything lines in
      if has_prefix csim_prefix (trim_space raw) then decode_csim_line (trim_space raw) else rest

  unfoldable pub decode_csim_response : Bytes → Result AtError Bytes
  decode_csim_response response =
      let (line, lines) = split 10 response in first_prefixed (line ∷ lines) (line ∷ lines)
