-- ===== src/Apdu/Transmitter/Fetch.antt =====
-- A response fetched in pieces (apdu/transmitter.go: `readCommandResponse`).
use euicc_go.Prelude.{ℕ, ◌≡◌, refl, some, List, [], ◌∷◌, ◌++◌, append_assoc, Bytes}
use euicc_go.Apdu.Request.{Request, apdu}
use euicc_go.Apdu.Response.Status.{with_status, has_more_status, response_data_status, sw2_status}
use euicc_go.Apdu.Transmitter.{
  Reply, answer, Session, finished, set_channel_to_cla, on_line, buffered, fetch_loop,
  read_command_response,
}
use euicc_go.Apdu.Transmitter.Accept.{exchange-accepted, more_IsAccepted, set_channel_to_cla_again}

-- A card's answers: pieces that announce more, each with the length to ask for next, and the last.
abbrev pub chain : List (Bytes × ℕ) → Bytes → List Reply → List Reply
chain [] last rest = answer (with_status last 0x90 0) ∷ rest
chain (p ∷ ps) last rest = answer (with_status p.0 0x61 p.1) ∷ chain ps last rest

abbrev pub gathered : List (Bytes × ℕ) → Bytes → Bytes
gathered [] last = last
gathered (p ∷ ps) last = p.0 ++ gathered ps last

abbrev get_response : ℕ → ℕ → Request
get_response cla le = record { cla = cla; ins = 0xc0; p1 = 0; p2 = 0; payload = []; le = some le }

-- One GET RESPONSE for each answer, with the length announced before it.
abbrev pub get_responses : ℕ → ℕ → List (Bytes × ℕ) → List Bytes
get_responses cla le [] = apdu (get_response cla le) ∷ []
get_responses cla le (p ∷ ps) = apdu (get_response cla le) ∷ get_responses cla p.1 ps

module _ (channel : ℕ) (r : Request) (d : Bytes) (rest : List Reply) (s : Session) where
  abbrev on_channel : Request
  on_channel = record r { cla = set_channel_to_cla r.cla channel }

  fetch_loop-last :
      fetch_loop channel r (answer (with_status d 0x90 0) ∷ rest) s
      ≡ finished tt (buffered d (on_line rest (apdu on_channel) s))
  unfolding fetch_loop
  fetch_loop-last = rw (
    exchange-accepted on_channel d 0x90 0 rest s refl,
    response_data_status d 0x90 0,
    has_more_status d 0x90 0,
    fetch_loop,
  )

  fetch_loop-more :
      (le : ℕ)
      → fetch_loop channel r (answer (with_status d 0x61 le) ∷ rest) s
        ≡ fetch_loop channel
            (record on_channel { le = some le })
            rest
            (buffered d (on_line rest (apdu on_channel) s))
  unfolding fetch_loop
  fetch_loop-more le = rw (
    exchange-accepted on_channel d 0x61 le rest s (more_IsAccepted le),
    response_data_status d 0x61 le,
    has_more_status d 0x61 le,
    sw2_status d 0x61 le,
    fetch_loop,
  )

-- The commands and the data of a chain, after what the session holds.
abbrev after_chain : ℕ → ℕ → List (Bytes × ℕ) → Bytes → List Reply → Session → Session
after_chain cla le ps last rest s = record s {
  replies = rest;
  sent = s.sent ++ get_responses cla le ps;
  response = s.response ++ gathered ps last;
}

fetch_loop-chain :
    (channel cla c le : ℕ) (ps : List (Bytes × ℕ)) (last : Bytes) (rest : List Reply) (s : Session)
    → set_channel_to_cla c channel ≡ cla
    → set_channel_to_cla cla channel ≡ cla
    → fetch_loop channel (get_response c le) (chain ps last rest) s
      ≡ finished tt (after_chain cla le ps last rest s)
fetch_loop-chain channel cla c le [] last rest s hc hcla =
    rw (fetch_loop-last channel (get_response c le) last rest s, hc)
fetch_loop-chain channel cla c le (p ∷ ps) last rest s hc hcla = rw (
  fetch_loop-more channel (get_response c le) p.0 (chain ps last rest) s p.1,
  hc,
  fetch_loop-chain channel cla cla p.1 ps last rest
      (buffered p.0 (on_line (chain ps last rest) (apdu (get_response cla le)) s)) hcla hcla,
  append_assoc s.sent (apdu (get_response cla le) ∷ []) (get_responses cla p.1 ps),
  append_assoc s.response p.0 (gathered ps last),
)

-- Against answers of which each but the last announces more: the loop ends without an error, it asks
-- each time for the length announced, with the class byte of the channel, it takes one answer for
-- each command and no further one, and it adds the data of all of them to the buffer in order.
pub read_command_response-chain :
    (channel le : ℕ) (ps : List (Bytes × ℕ)) (last : Bytes) (rest : List Reply) (sent : List Bytes)
    (response : Bytes)
    → read_command_response channel le
        (record { replies = chain ps last rest; sent = sent; response = response })
      ≡ finished tt (record {
        replies = rest;
        sent = sent ++ get_responses (set_channel_to_cla 0x80 channel) le ps;
        response = response ++ gathered ps last;
      })
unfolding read_command_response
read_command_response-chain channel le ps last rest sent response =
    fetch_loop-chain channel (set_channel_to_cla 0x80 channel) 0x80 le ps last rest _ refl
      (set_channel_to_cla_again channel)
