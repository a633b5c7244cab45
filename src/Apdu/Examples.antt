-- ===== src/Apdu/Examples.antt =====
-- Commands, responses and exchanges worked out.
use euicc_go.Prelude.{true, ◌≡◌, refl, none, some, List, [], ◌∷◌, Bytes, length, arith}
use euicc_go.Apdu.Request.{apdu}
use euicc_go.Apdu.Request.Decode.{decode, decode-apdu}
use euicc_go.Apdu.Response.{is_ok, has_more, sw, response_data}
use euicc_go.Apdu.Transmitter.{
  Reply, answer, Session, unexpected_status, wrote, set_channel_to_cla, chunk, chunk_loop, write,
  write_loop, transmit, exchange, receive_response, accepted,
}
use euicc_go.Apdu.Transmitter.Blocks.{
  Answered, direct, fetched, card_replies, commands, write-accepted,
}
use euicc_go.Apdu.Transmitter.Complete.{AfterWrite, write-reassembled, write-unfinished}

abbrev command : Bytes
command = 1 ∷ 2 ∷ 3 ∷ 4 ∷ 5 ∷ 6 ∷ 7 ∷ []

abbrev even_command : Bytes
even_command = 1 ∷ 2 ∷ 3 ∷ 4 ∷ 5 ∷ 6 ∷ []

-- The second block has a response to fetch, in two pieces.
abbrev answers : List Answered
answers = direct (9 ∷ []) ∷ fetched [] 2 ((8 ∷ [], 1) ∷ []) (6 ∷ []) ∷ direct [] ∷ []

abbrev two_answers : List Answered
two_answers = direct (9 ∷ []) ∷ direct (8 ∷ []) ∷ []

decode-apdu_example :
    decode (
      apdu
        (record { cla = 0x80; ins = 0xe2; p1 = 0x91; p2 = 0; payload = 1 ∷ 2 ∷ []; le = some 0 }))
    ≡ some (record { cla = 0x80; ins = 0xe2; p1 = 0x91; p2 = 0; payload = 1 ∷ 2 ∷ []; le = some 0 })
decode-apdu_example =
    decode-apdu
      (record { cla = 0x80; ins = 0xe2; p1 = 0x91; p2 = 0; payload = 1 ∷ 2 ∷ []; le = some 0 })
      (omega arith)

statuses_example :
    (is_ok (7 ∷ 0x90 ∷ 0 ∷ []) ≡ some true)
    × (has_more (0x61 ∷ 5 ∷ []) ≡ some true)
    × (sw (0x6a ∷ 0x82 ∷ []) ≡ some 0x6a82)
    × (response_data (7 ∷ 0x90 ∷ 0 ∷ []) ≡ some (7 ∷ []))
unfolding is_ok has_more response_data
statuses_example = (refl, refl, refl, refl)

channels_example : (set_channel_to_cla 0x80 3 ≡ 0x83) × (set_channel_to_cla 0x80 4 ≡ 0xc0)
unfolding set_channel_to_cla
channels_example = (refl, refl)

abbrev session : List Reply → Session
session replies = record { replies = replies; sent = []; response = 0xff ∷ [] }

-- A refused block ends the loop; the count has the blocks before it.
refused_example :
    write 1 3 command
      (session (card_replies (direct (9 ∷ []) ∷ []) (answer (0x6a ∷ 0x82 ∷ []) ∷ [])))
    ≡ wrote 3 (some (unexpected_status 0x6a82)) (record {
      replies = [];
      sent =
          (0x81 ∷ 0xe2 ∷ 0x11 ∷ 0 ∷ 3 ∷ 1 ∷ 2 ∷ 3 ∷ [])
          ∷ (0x81 ∷ 0xe2 ∷ 0x11 ∷ 1 ∷ 3 ∷ 4 ∷ 5 ∷ 6 ∷ [])
          ∷ [];
      response = 9 ∷ [];
    })
unfolding write chunk write_loop transmit exchange receive_response accepted apdu set_channel_to_cla
    is_ok has_more response_data chunk_loop
refused_example = refl

three_chunks : length (chunk 3 command) ≡ 3
unfolding chunk chunk_loop
three_chunks = refl

two_chunks : length (chunk 3 even_command) ≡ 2
unfolding chunk chunk_loop
two_chunks = refl

write-accepted_example :
    write 1 3 command (session (card_replies answers []))
    ≡ wrote 7 none (record {
      replies = [];
      sent = commands (set_channel_to_cla 0x80 1) 2 0 (chunk 3 command) answers;
      response = 9 ∷ 8 ∷ 6 ∷ [];
    })
write-accepted_example =
    write-accepted 1 3 command answers [] [] (0xff ∷ []) (omega arith) three_chunks

write-reassembled_example : AfterWrite 1 3 command answers [] (0xff ∷ []) (some command)
write-reassembled_example =
    write-reassembled 1 3 command answers [] (0xff ∷ []) (omega arith) (omega arith) (omega arith)
      (omega arith) three_chunks

write-unfinished_example : AfterWrite 1 3 even_command two_answers [] (0xff ∷ []) none
write-unfinished_example =
    write-unfinished 1 3 even_command two_answers [] (0xff ∷ []) (omega arith) (omega arith) refl
      (omega arith) two_chunks
