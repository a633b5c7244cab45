-- ===== src/Apdu/Transmitter.antt =====
-- apdu/transmitter.go: a command cut into blocks, and the loop that fetches a long response.
pub mod Accept
pub mod Blocks
pub mod Card
pub mod Chunks
pub mod Complete
pub mod Fetch
use euicc_go.Prelude.{
  ℕ, zero, suc, ◌+◌, ◌-◌, ◌/◌, ◌%◌, bit_and, bit_or, Bool, true, false, ◌||◌, Option, none, some,
  ◌>>=◌, List, [], ◌∷◌, ◌++◌, Bytes, to_byte, length, take, drop, ltb, ◌==◌, if◌then◌else◌,
}
use euicc_go.Apdu.Request.{Request, apdu}
use euicc_go.Apdu.Response.{Response, response_data, sw, sw2, is_ok, has_more}

-- What the channel's Transmit answers: bytes, or an error of the driver.
pub data Reply : Type 0 where
  answer : Bytes → Reply
  refused : ℕ → Reply

pub data TransmitError : Type 0 where
  channel_error : ℕ → TransmitError
  -- "returned an unexpected response with status %04X"
  unexpected_status : ℕ → TransmitError

-- The channel's answers to come, the commands sent to it, and the transmitter's response buffer.
pub record Session : Type 0 where
  pub replies : List Reply
  pub sent : List Bytes
  pub response : Bytes

-- `waiting` is a call of the channel that has not returned: its answers are used up.
pub data Run (A : Type 0) : Type 0 where
  finished : A → Session → Run A
  stopped : TransmitError → Session → Run A
  panicked : Session → Run A
  waiting : Session → Run A

unfoldable pub set_channel_to_cla : ℕ → ℕ → ℕ
set_channel_to_cla cla channel =
    if ltb channel 4
    then bit_or (bit_and cla 0x9c) channel
    else if ltb channel 20
    then bit_or (bit_or (bit_and cla 0xb0) 0x40) (channel - 4)
    else cla

-- `none` is the panic on a response without a status.
unfoldable pub accepted : Response → Option Bool
accepted r = do o ← is_ok r; m ← has_more r; some (o || m)

-- A response that came in, held to its status.
unfoldable pub receive_response : Request → Response → Session → Run (Request × Response)
receive_response r b s = elim (accepted b) [
  | none ↦ panicked s
  | some true ↦ finished (r, b) s
  | some false ↦ elim (sw b) [
    | none ↦ panicked s
    | some status ↦ stopped (unexpected_status status) s
  ]
]

abbrev pub on_line : List Reply → Bytes → Session → Session
on_line replies command s = record s { replies = replies; sent = s.sent ++ (command ∷ []) }

unfoldable pub exchange : Request → List Reply → Session → Run (Request × Response)
exchange r [] s = waiting (on_line [] (apdu r) s)
exchange r (refused e ∷ replies) s = stopped (channel_error e) (on_line replies (apdu r) s)
exchange r (answer b ∷ replies) s = receive_response r b (on_line replies (apdu r) s)

-- The request is changed in place: the one returned is the one sent.
unfoldable pub transmit : ℕ → Request → Session → Run (Request × Response)
transmit channel request s =
    exchange (record request { cla = set_channel_to_cla request.cla channel }) s.replies s

abbrev pub buffered : Bytes → Session → Session
buffered d s = record s { response = s.response ++ d }

-- The loop of `readCommandResponse`, on the answers that the channel has still to give: each round
-- takes one.
unfoldable pub fetch_loop : ℕ → Request → List Reply → Session → Run (Unit {0})
fetch_loop channel request [] s =
    let r = record request { cla = set_channel_to_cla request.cla channel } in
    waiting (on_line [] (apdu r) s)
fetch_loop channel request (reply ∷ replies) s =
    let r = record request { cla = set_channel_to_cla request.cla channel } in
    elim (exchange r (reply ∷ replies) s) [
      | waiting s' ↦ waiting s'
      | panicked s' ↦ panicked s'
      | stopped e s' ↦ stopped e s'
      | finished (r', b) s' ↦ elim (response_data b) [
        | none ↦ panicked s'
        | some d ↦ elim (has_more b) [
          | none ↦ panicked (buffered d s')
          | some false ↦ finished tt (buffered d s')
          | some true ↦ elim (sw2 b) [
            | none ↦ panicked (buffered d s')
            | some le ↦ fetch_loop channel (record r' { le = some le }) replies (buffered d s')
          ]
        ]
      ]
    ]

unfoldable pub read_command_response : ℕ → ℕ → Session → Run (Unit {0})
read_command_response channel le s =
    fetch_loop channel
      (record { cla = 0x80; ins = 0xc0; p1 = 0; p2 = 0; payload = []; le = some le }) s.replies s

-- `Write` returns how much of the command went out, and the error that broke its loop.
pub data Wrote : Type 0 where
  wrote : ℕ → Option TransmitError → Session → Wrote
  panicked waiting : Session → Wrote

-- `slices.Chunk`, for a size above 0. A chunk takes a byte at least, so the length is enough fuel.
unfoldable pub chunk_loop : ℕ → ℕ → Bytes → List Bytes
chunk_loop fuel size [] = []
chunk_loop zero size (b ∷ bs) = []
chunk_loop (suc fuel) size (b ∷ bs) = take size (b ∷ bs) ∷ chunk_loop fuel size (drop size (b ∷ bs))

unfoldable pub chunk : ℕ → Bytes → List Bytes
chunk size bs = chunk_loop (length bs) size bs

abbrev pub block : ℕ → Request → Bytes → Request
block chunks request d = record request {
  payload = d;
  p1 = if request.p2 == chunks then 0x91 else 0x11;
}

abbrev pub next_block : Request → Request
next_block r = record r { p2 = (r.p2 + 1) % 256 }

unfoldable pub write_loop : ℕ → ℕ → Request → ℕ → List Bytes → Session → Wrote
write_loop channel chunks request n [] s = wrote n none s
write_loop channel chunks request n (d ∷ ds) s =
    elim (transmit channel (block chunks request d) s) [
      | waiting s' ↦ Wrote.waiting s'
      | panicked s' ↦ Wrote.panicked s'
      | stopped e s' ↦ wrote n (some e) s'
      | finished (r, b) s' ↦ elim (has_more b) [
        | none ↦ Wrote.panicked s'
        | some false ↦ elim (response_data b) [
          | none ↦ Wrote.panicked s'
          | some data' ↦
              write_loop channel chunks (next_block r) (n + length d) ds (buffered data' s')
        ]
        | some true ↦ elim (sw2 b) [
          | none ↦ Wrote.panicked s'
          | some le ↦ elim (read_command_response channel le s') [
            | waiting s'' ↦ Wrote.waiting s''
            | panicked s'' ↦ Wrote.panicked s''
            | stopped e s'' ↦ wrote (n + length d) (some e) s''
            | finished _ s'' ↦ write_loop channel chunks (next_block r) (n + length d) ds s''
          ]
        ]
      ]
    ]

abbrev pub store_data : Request
store_data = record { cla = 0x80; ins = 0xe2; p1 = 0; p2 = 0; payload = []; le = none }

-- A fresh response buffer; then the blocks, in order. A size of 0 is a division by zero.
unfoldable pub write : ℕ → ℕ → Bytes → Session → Wrote
write channel mss command s =
    let s' = record s { response = [] } in
    if mss == 0
    then Wrote.panicked s'
    else write_loop channel (to_byte (length command / mss)) store_data 0 (chunk mss command) s'
