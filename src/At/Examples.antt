-- ===== src/At/Examples.antt =====
-- A command with an answer, and an answer of AT+CSIM.
use euicc_go.Prelude.{◌≡◌, refl, Option, some, inl, inr, List, [], ◌∷◌, ◌++◌, Bytes, take, drop}
use euicc_go.Prelude.Int.{ℤ, pos}
use euicc_go.Prelude.Action.{ok}
use euicc_go.Sgp22.Identifier.{any_invalid, decode_string}
use euicc_go.At.{Port, trim_space}
use euicc_go.At.Commands.{send_command, write_full, write_loop}
use euicc_go.At.Csim.{
  cut, decode_csim_body, decode_csim_hex_field, decode_hex_response, decode_csim_response,
  first_prefixed, decode_csim_line, split,
}
use euicc_go.At.Replies.{joined, send_command-joined}

-- "AT", "+X", "Y".
abbrev attention : Bytes
attention = 65 ∷ 84 ∷ []

abbrev line_x : Bytes
line_x = 43 ∷ 88 ∷ 13 ∷ 10 ∷ []

abbrev line_y : Bytes
line_y = 89 ∷ 13 ∷ 10 ∷ []

abbrev ok_raw : Bytes
ok_raw = 79 ∷ 75 ∷ 13 ∷ 10 ∷ []

-- The first write takes one byte; the command is echoed.
abbrev port : Port
port = record {
  incoming =
      ok (65 ∷ 84 ∷ 13 ∷ 10 ∷ [])
      ∷ ok line_x
      ∷ ok (13 ∷ 10 ∷ [])
      ∷ ok line_y
      ∷ ok ok_raw
      ∷ ok line_x
      ∷ [];
  idle = 5;
  takes = ok 1 ∷ [];
  written = [];
  channel = 0;
}

written_run : (write_full (attention ++ (13 ∷ 10 ∷ [])) port).0 ≡ ok tt
unfolding write_full write_loop
written_run = refl

abbrev answer_lines : List Bytes
answer_lines = (65 ∷ 84 ∷ 13 ∷ 10 ∷ []) ∷ line_x ∷ (13 ∷ 10 ∷ []) ∷ line_y ∷ []

send_command-joined_example :
    ((send_command attention port).0 ≡ ok (trim_space (joined attention [] answer_lines)))
    × ((send_command attention port).1.incoming ≡ ok line_x ∷ [])
    × ((send_command attention port).1.written ≡ [] ++ (attention ++ (13 ∷ 10 ∷ [])))
send_command-joined_example =
    send_command-joined attention port answer_lines ok_raw (ok line_x ∷ []) refl written_run
      (inl refl, (inr (refl, refl, refl), (inl refl, (inr (refl, refl, refl), tt)))) refl refl

joined_run : joined attention [] answer_lines ≡ 43 ∷ 88 ∷ 10 ∷ 89 ∷ []
joined_run = refl

-- "4,\"9000\"", with functions that read these fields.
abbrev body : Bytes
body = 52 ∷ 44 ∷ 34 ∷ 57 ∷ 48 ∷ 48 ∷ 48 ∷ 34 ∷ []

abbrev four : Bytes → Option ℤ
four s = some (pos 4)

abbrev inner : Bytes → Option Bytes
inner s = some (take 4 (drop 1 s))

cut_run : cut body ≡ some (52 ∷ [], 34 ∷ 57 ∷ 48 ∷ 48 ∷ 48 ∷ 34 ∷ [])
unfolding cut
cut_run = refl

body_run : decode_csim_body four inner body ≡ ok (0x90 ∷ 0 ∷ [])
unfolding decode_csim_body cut decode_csim_hex_field decode_hex_response any_invalid decode_string
body_run = refl

-- A line of another kind before the answer.
response_run :
    decode_csim_response four inner (43 ∷ 88 ∷ 10 ∷ 43 ∷ 67 ∷ 83 ∷ 73 ∷ 77 ∷ 58 ∷ 32 ∷ body)
    ≡ ok (0x90 ∷ 0 ∷ [])
unfolding decode_csim_response first_prefixed decode_csim_line split decode_csim_body cut
    decode_csim_hex_field decode_hex_response any_invalid decode_string
response_run = refl

-- A space that does not break in front, a space and a line separator behind.
unicode_trimmed :
    trim_space (0xC2 ∷ 0xA0 ∷ 79 ∷ 0xC3 ∷ 0xA0 ∷ 32 ∷ 0xE2 ∷ 0x80 ∷ 0xA8 ∷ [])
    ≡ 79 ∷ 0xC3 ∷ 0xA0 ∷ []
unicode_trimmed = refl
