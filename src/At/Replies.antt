-- ===== src/At/Replies.antt =====
-- What the answers of a modem come to (driver/at/).
use euicc_go.Prelude.{
  ℕ, zero, suc, ◌*◌, ◌%◌, ◌≡◌, refl, ap, true, false, ◌⊎◌, inl, inr, Option, none, some, List, [],
  ◌∷◌, ◌++◌, map, Bytes, bytes_eq, length, drop, take-append-drop, All, arith, if◌then◌else◌,
}
use euicc_go.Prelude.Int.{ℤ, pos, negsuc}
use euicc_go.Prelude.Action.{Result, ok, err}
use euicc_go.Sgp22.Identifier.{decode_string}
use euicc_go.At.{Port, AtError, trim_space, ok_line, is_skipped, is_error, add_line}
use euicc_go.At.Commands.{gather, write_full, send_command, write_loop}
use euicc_go.At.Csim.{
  cut, decode_hex_response, decode_csim_hex_field, decode_csim_body, counted, measured,
}

-- A line that does not end an answer.
abbrev pub GoesOn : Bytes → Bytes → Type 0
GoesOn command raw =
    (is_skipped command (trim_space raw) ≡ true)
    ⊎ ((is_skipped command (trim_space raw) ≡ false)
        × (bytes_eq (trim_space raw) ok_line ≡ false)
        × (is_error (trim_space raw) ≡ false))

-- The lines that are not skipped, joined by line feeds.
abbrev pub joined : Bytes → Bytes → List Bytes → Bytes
joined command sb [] = sb
joined command sb (raw ∷ lines) =
    if is_skipped command (trim_space raw)
    then joined command sb lines
    else joined command (add_line sb (trim_space raw)) lines

gather-joined :
    (command : Bytes) (idle : ℕ) (sb : Bytes) (lines : List Bytes) (final : Bytes)
    (rest : List (Result ℕ Bytes))
    → All (GoesOn command) lines
    → is_skipped command (trim_space final) ≡ false
    → bytes_eq (trim_space final) ok_line ≡ true
    → gather command idle sb (map ok lines ++ (ok final ∷ rest))
      ≡ (ok (trim_space (joined command sb lines)), rest)
unfolding gather
gather-joined command idle sb [] final rest all kept ends = rw (kept, ends) refl
gather-joined command idle sb (raw ∷ lines) final rest (inl s, all) kept ends =
    rw s (gather-joined command idle sb lines final rest all kept ends)
gather-joined command idle sb (raw ∷ lines) final rest (inr (s, o, e), all) kept ends =
    rw (s, o, e)
      (gather-joined command idle (add_line sb (trim_space raw)) lines final rest all kept ends)

write_loop_whole :
    (script : List (Result ℕ ℕ)) (s : Bytes)
    → (write_loop script s).0 ≡ ok tt
    → (write_loop script s).2 ≡ s
unfolding write_loop
write_loop_whole [] s h = refl
write_loop_whole (r ∷ script) [] h = refl
write_loop_whole (err e ∷ script) (b ∷ bs) h = absurd cc
write_loop_whole (ok zero ∷ script) (b ∷ bs) h = absurd cc
write_loop_whole (ok (suc n) ∷ script) (b ∷ bs) h =
    rw (write_loop_whole script (drop (suc n) (b ∷ bs)) h) (take-append-drop (suc n) (b ∷ bs))

-- A command that was written in whole, and that the modem answers with lines and then "OK": what is returned
-- is the lines that are neither empty nor the command, without their outer white space and joined by
-- line feeds; the port has taken the command with its line end, and the lines behind "OK" are left.
pub send_command-joined :
    (command : Bytes) (p : Port) (lines : List Bytes) (final : Bytes) (rest : List (Result ℕ Bytes))
    → p.incoming ≡ map ok lines ++ (ok final ∷ rest)
    → (write_full (command ++ (13 ∷ 10 ∷ [])) p).0 ≡ ok tt
    → All (GoesOn command) lines
    → is_skipped command (trim_space final) ≡ false
    → bytes_eq (trim_space final) ok_line ≡ true
    → ((send_command command p).0 ≡ ok (trim_space (joined command [] lines)))
      × ((send_command command p).1.incoming ≡ rest)
      × ((send_command command p).1.written ≡ p.written ++ (command ++ (13 ∷ 10 ∷ [])))
unfolding send_command write_full
send_command-joined command p lines final rest i w all kept ends =
    let g = gather-joined command p.idle [] lines final rest all kept ends in
    let s = write_loop_whole p.takes (command ++ (13 ∷ 10 ∷ [])) w in
    (rw (w, i, g) refl, rw (w, i, g) refl, rw (w, s) refl)

decode_string-length : (s : Bytes) → length s % 2 ≡ 0 → 2 * length (decode_string s) ≡ length s
unfolding decode_string
decode_string-length [] h = refl
decode_string-length (a ∷ []) h = absurd (omega arith)
decode_string-length (a ∷ b ∷ s) h = omega (arith, decode_string-length s (omega arith))

decode_hex_response-length : (s r : Bytes) → decode_hex_response s ≡ ok r → 2 * length r ≡ length s
unfolding decode_hex_response
decode_hex_response-length s r h = ground (arith, decode_string-length s)

module _ (atoi : Bytes → Option ℤ) (unquote : Bytes → Option Bytes) where
  measured-length :
      (want : ℕ) (f : Result AtError Bytes) (r : Bytes)
      → measured atoi unquote want f ≡ ok r
      → want ≡ 2 * length r
  measured-length want (err e) r h = absurd cc
  measured-length want (ok hex_data) r h = ground (arith, decode_hex_response-length hex_data r)

  counted-length :
      (z : Option ℤ) (data_field r : Bytes)
      → counted atoi unquote z data_field ≡ ok r
      → z ≡ some (pos (2 * length r))
  counted-length none data_field r h = absurd cc
  counted-length (some (negsuc n)) data_field r h = absurd cc
  counted-length (some (pos want)) data_field r h =
      ap (λ n. some (pos n))
        (measured-length want (decode_csim_hex_field atoi unquote data_field) r h)

-- An answer with a length is decoded only where the length is that of its hexadecimal digits, two
-- for each byte of the response.
pub decode_csim_body-measured :
    (atoi : Bytes → Option ℤ) (unquote : Bytes → Option Bytes)
    (body length_field data_field response : Bytes)
    → cut body ≡ some (length_field, data_field)
    → decode_csim_body atoi unquote body ≡ ok response
    → atoi (trim_space length_field) ≡ some (pos (2 * length response))
unfolding decode_csim_body
decode_csim_body-measured atoi unquote body length_field data_field response c d =
    counted-length atoi unquote (atoi (trim_space length_field)) data_field response
      (rw (c, decode_csim_body) at d)
