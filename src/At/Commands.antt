-- ===== src/At/Commands.antt =====
-- Commands and their answers (driver/at/at.go).
use euicc_go.Prelude.{
  ℕ, zero, suc, ◌&&◌, not, List, [], ◌∷◌, ◌++◌, Bytes, bytes_eq, length, drop, take, ltb,
  if◌then◌else◌,
}
use euicc_go.Prelude.Action.{Result, ok, err, Action, ◌>>=◌, ◌>>◌, pure, fail_if}
use euicc_go.Card.Status.{status_ok, status_has_more}
use euicc_go.At.{
  Port, AtError, port_error, short_write, refused, no_status, connect_status, trim_space, ok_line,
  is_skipped, is_error, add_line,
}

-- The loop of `sendCommand`, from what was gathered, over what the port gives.
unfoldable pub gather :
    Bytes → ℕ → Bytes → List (Result ℕ Bytes) → Result AtError Bytes × List (Result ℕ Bytes)
gather command idle sb [] = (err (port_error idle), [])
gather command idle sb (err e ∷ lines) = (err (port_error e), lines)
gather command idle sb (ok raw ∷ lines) =
    let skipped = gather command idle sb lines in
    let added = gather command idle (add_line sb (trim_space raw)) lines in
    if is_skipped command (trim_space raw)
    then skipped
    else if bytes_eq (trim_space raw) ok_line
    then (ok (trim_space sb), lines)
    else if is_error (trim_space raw)
    then (err (refused (trim_space raw)), lines)
    else added

-- `writeFull`: what the writes give, what is left of the script, and the bytes that were taken. Of a write
-- that fails no byte is recorded.
unfoldable pub write_loop :
    List (Result ℕ ℕ) → Bytes → Result AtError (Unit {0}) × List (Result ℕ ℕ) × Bytes
write_loop [] s = (ok tt, [], s)
write_loop (r ∷ script) [] = (ok tt, r ∷ script, [])
write_loop (err e ∷ script) (b ∷ bs) = (err (port_error e), script, [])
write_loop (ok zero ∷ script) (b ∷ bs) = (err short_write, script, [])
write_loop (ok (suc n) ∷ script) (b ∷ bs) =
    let (r, left, sent) = write_loop script (drop (suc n) (b ∷ bs)) in
    (r, left, take (suc n) (b ∷ bs) ++ sent)

unfoldable pub write_full : Bytes → Action Port AtError (Unit {0})
write_full s p =
    let (r, left, sent) = write_loop p.takes s in
    (r, record p { takes = left; written = p.written ++ sent })

-- The command is followed by a carriage return and a line feed.
unfoldable pub send_command : Bytes → Action Port AtError Bytes
send_command command = do
  write_full (command ++ (13 ∷ 10 ∷ []))
  λ p. let (r, lines) = gather command p.idle [] p.incoming in (r, record p { incoming = lines })

-- "AT+CSIM=?".
abbrev pub csim_test : Bytes
csim_test = 65 ∷ 84 ∷ 43 ∷ 67 ∷ 83 ∷ 73 ∷ 77 ∷ 61 ∷ 63 ∷ []

abbrev pub terminal_capability : Bytes
terminal_capability =
    0x80 ∷ 0xAA ∷ 0x00 ∷ 0x00 ∷ 0x0A ∷ 0xA9 ∷ 0x08 ∷ 0x81 ∷ 0x00 ∷ 0x82 ∷ 0x01 ∷ 0x01 ∷ 0x83 ∷ 0x01
    ∷ 0x07 ∷ []

-- The text of an exchange, `fmt.Sprintf("AT+CSIM=%d,%q", …)` of the upper case hexadecimal digits, and
-- the decoding of its answer.
module _ (csim_command : Bytes → Bytes) (decode : Bytes → Result AtError Bytes) where
  unfoldable pub transmit_apdu : Bytes → Action Port AtError Bytes
  transmit_apdu command = do
    raw ← send_command (csim_command command)
    response ← λ p. (decode raw, p)
    fail_if (ltb (length response) 2) no_status
    pure response

  unfoldable pub connect : Action Port AtError (Unit {0})
  connect = do
    send_command csim_test
    response ← transmit_apdu terminal_capability
    fail_if (not (status_ok response) && not (status_has_more response)) connect_status
