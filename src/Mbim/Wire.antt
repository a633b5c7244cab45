-- ===== src/Mbim/Wire.antt =====
-- driver/mbim/types.go: `Request.WriteTo` and `Request.ReadFrom` on a connection.
pub mod Sent
pub mod Traffic
pub mod Answered
use euicc_go.Prelude.{
  ℕ, zero, suc, ◌-◌, Bool, true, false, ◌&&◌, not, Option, none, some, List, [], ◌∷◌, ◌++◌, Bytes,
  length, take, drop, ltb, ◌==◌, if◌then◌else◌,
}
use euicc_go.Mbim.Words.{Checked, ok, err, panic, ◌>>=◌, refuse_if, uint32_at}
use euicc_go.Mbim.Fragment.{
  FragmentError, Collector, frames, is_fragment_message, new_fragment_collector, add, complete,
  marshal_collected,
}
use euicc_go.Mbim.Fragment.Receive.{is_first_of_several}
use euicc_go.Mbim.Message.{
  MessageError, Request, marshal_request, max_control_transfer, response_message_type,
  unmarshal_response,
}

pub data WireError : Type 0 where
  -- an error of the connection, by its number; io.ErrShortWrite; a connection that was closed
  connection : ℕ → WireError
  short_write : WireError
  closed : WireError
  -- the time for a read is over
  timeout : WireError
  -- "invalid MBIM message length %d", "MBIM frame length %d exceeds max control transfer %d"
  invalid_length frame_too_long : ℕ → WireError
  -- "unsupported MBIM request message type %#x"
  unsupported_type : ℕ → WireError
  -- "transaction ID %d not found in response"
  not_found : ℕ → WireError
  fragment : FragmentError → WireError
  message : MessageError → WireError

abbrev pub with_error : {E F A : Type 0} → (E → F) → Checked E A → Checked F A
with_error f (ok a) = ok a
with_error f (err e) = err (f e)
with_error f panic = panic

-- What a call of Write gives: a number of bytes that were taken, or an error.
pub data Write : Type 0 where
  takes : ℕ → Write
  fails : ℕ → Write

-- `writeFull`: the error, the writes that are left, and the bytes that were taken before it. A
-- connection that has no more writes listed takes all. Of a write that fails no byte is recorded.
unfoldable pub write_full : List Write → Bytes → Option WireError × List Write × Bytes
write_full [] s = (none, [], s)
write_full (w ∷ script) [] = (none, w ∷ script, [])
write_full (fails e ∷ script) (b ∷ bs) = (some (connection e), script, [])
write_full (takes zero ∷ script) (b ∷ bs) = (some short_write, script, [])
write_full (takes (suc n) ∷ script) (b ∷ bs) =
    let (e, left, sent) = write_full script (drop (suc n) (b ∷ bs)) in
    (e, left, take (suc n) (b ∷ bs) ++ sent)

unfoldable pub write_frames : List Write → List Bytes → Option WireError × List Write × Bytes
write_frames script [] = (none, script, [])
write_frames script (frame ∷ rest) =
    let (e, left, sent) = write_full script frame in
    let (e', left', sent') = write_frames left rest in
    elim e [ some e ↦ (some e, left, sent) | none ↦ (e', left', sent ++ sent') ]

unfoldable pub write_to :
    {A : Type 0}
    → Request A
    → List Write
    → Checked WireError (Option WireError × List Write × Bytes)
write_to r script = do
  fs ← with_error fragment (frames (marshal_request r) max_control_transfer)
  ok (write_frames script fs)

-- What comes from the connection: a byte, the end of the time that SetReadDeadline gave, or an error.
pub data Arrival : Type 0 where
  byte : ℕ → Arrival
  lapse : Arrival
  breaks : ℕ → Arrival

pub data Received : Type 0 where
  got : Bytes → List Arrival → Received
  late : List Arrival → Received
  failed : WireError → Received

abbrev pub with_byte : ℕ → Received → Received
with_byte b (got s rest) = got (b ∷ s) rest
with_byte b (late rest) = late rest
with_byte b (failed e) = failed e

-- `io.ReadFull` of so many bytes.
unfoldable pub read_full : ℕ → List Arrival → Received
read_full zero conn = got [] conn
read_full (suc n) [] = failed closed
read_full (suc n) (byte b ∷ conn) = with_byte b (read_full n conn)
read_full (suc n) (lapse ∷ conn) = late conn
read_full (suc n) (breaks e ∷ conn) = failed (connection e)

-- The decoded response, and the length of the message.
abbrev pub Outcome : Type 0 → Type 0
Outcome A = Checked WireError (Option A × ℕ)

module _ {A : Type 0} where
  module _ (r : Request A) where
    unfoldable pub answered : Bytes → Outcome A
    answered buf = do
      response ← with_error message (unmarshal_response r.response buf)
      ok (response.response, length buf)

    -- The loop goes on where fragments are missing.
    abbrev pub assembled : Collector → (Option Collector → Outcome A) → Outcome A
    assembled c go_on =
        if not (complete c)
        then go_on (some c)
        else (do buf ← with_error fragment (marshal_collected c); answered buf)

    unfoldable pub fragment_arrived :
        Option Collector → (Option Collector → Outcome A) → Bytes → Outcome A
    fragment_arrived (some c) go_on buf = do
      c' ← with_error fragment (add c buf)
      assembled c' go_on
    fragment_arrived none go_on buf = do
      several ← with_error fragment (is_first_of_several buf)
      if several
          then (do c ← with_error fragment (new_fragment_collector buf); assembled c go_on)
          else answered buf

    -- A whole frame.
    unfoldable pub frame_arrived :
        Option Collector → (Option Collector → Outcome A) → Bytes → Outcome A
    frame_arrived c go_on buf = do
      message_type ← uint32_at buf 0
      transaction_id ← uint32_at buf 8
      if not (transaction_id == r.transaction_id)
          then go_on c
          else elim (response_message_type r.message_type) [
            | none ↦ err (unsupported_type r.message_type)
            | some expected ↦
                if not (message_type == expected) && not (message_type == 0x80000004)
                then go_on c
                else if is_fragment_message message_type
                then fragment_arrived c go_on buf
                else answered buf
          ]

    -- The bytes behind a header; the connection's deadline still holds.
    unfoldable pub header_arrived :
        Option Collector
        → (Option Collector → List Arrival → Outcome A)
        → Bytes
        → List Arrival
        → Outcome A
    header_arrived c go_on header conn = do
      len ← uint32_at header 4
      _ ← refuse_if (ltb len 12) (invalid_length len)
      _ ← refuse_if (ltb max_control_transfer len) (frame_too_long len)
      elim (read_full (len - 12) conn) [
        | got body rest ↦ frame_arrived c (λ c'. go_on c' rest) (header ++ body)
        | late rest ↦ err timeout
        | failed e ↦ err e
      ]

    -- SetReadDeadline may fail; the passes of the loop are those before the request's time is over.
    module _ (set_read_deadline : List Arrival → Option ℕ) where
      unfoldable pub read_loop : ℕ → Option Collector → List Arrival → Outcome A
      read_loop zero c conn = err (not_found r.transaction_id)
      read_loop (suc passes) c conn =
          let go_on = read_loop passes in
          elim (set_read_deadline conn) [
            | some e ↦ err (connection e)
            | none ↦ elim (read_full 12 conn) [
              | got header rest ↦ header_arrived c go_on header rest
              | late rest ↦ go_on c rest
              | failed e ↦ err e
            ]
          ]

      unfoldable pub read_from : ℕ → List Arrival → Outcome A
      read_from passes conn = read_loop passes none conn
