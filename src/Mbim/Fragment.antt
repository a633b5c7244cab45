-- ===== src/Mbim/Fragment.antt =====
-- driver/mbim/fragment.go: a message cut into frames, and frames collected into a message.
pub mod Frame
pub mod Receive
pub mod Safe
pub mod Collect
pub mod Whole
use euicc_go.Prelude.{
  ℕ, zero, suc, ◌+◌, ◌-◌, ◌*◌, ◌/◌, ◌%◌, ◌^◌, min, Bool, true, false, ◌||◌, not, List, [], ◌∷◌,
  ◌++◌, Bytes, length, take, drop, ltb, leb, ◌==◌, if◌then◌else◌,
}
use euicc_go.Mbim.Words.{Checked, ok, err, panic, ◌>>=◌, refuse_if, uint32_at, put_uint32}

pub data FragmentError : Type 0 where
  -- "MBIM message too short to fragment: %d", "MBIM fragment too short: %d"
  too_short : ℕ → FragmentError
  -- "MBIM message type %#x does not support fragments"
  no_fragments : ℕ → FragmentError
  -- "MBIM message length mismatch: header=%d actual=%d", and of a fragment
  length_mismatch : ℕ → ℕ → FragmentError
  -- "MBIM max fragment size %d is too small"
  size_too_small : ℕ → FragmentError
  -- "invalid MBIM fragment total 0", "invalid MBIM fragment %d/%d"
  invalid_total : FragmentError
  invalid_fragment : ℕ → ℕ → FragmentError
  -- "expecting MBIM fragment %d/%d, got %d/%d"
  unexpected_fragment : ℕ → ℕ → ℕ → ℕ → FragmentError
  -- what a further fragment has in place of the first one's
  type_mismatch transaction_mismatch total_mismatch : ℕ → ℕ → FragmentError
  -- "incomplete MBIM fragments: got %d/%d"
  incomplete : ℕ → ℕ → FragmentError

abbrev pub is_fragment_message : ℕ → Bool
is_fragment_message t = (t == 0x3) || ((t == 0x80000003) || (t == 0x80000007))

-- The twenty bytes in front of a fragment's payload.
abbrev pub header : ℕ → ℕ → ℕ → ℕ → ℕ → Bytes
header message_type len transaction_id total current =
    put_uint32 message_type
    ++ (put_uint32 len ++ (put_uint32 transaction_id ++ (put_uint32 total ++ put_uint32 current)))

-- The loop over the payload from `offset` on; a frame takes a byte at least, so its length is
-- enough fuel.
unfoldable pub frames_loop : ℕ → ℕ → ℕ → ℕ → ℕ → ℕ → Bytes → List Bytes
frames_loop fuel message_type transaction_id total size current [] = []
frames_loop zero message_type transaction_id total size current (b ∷ bs) = []
frames_loop (suc fuel) message_type transaction_id total size current (b ∷ bs) =
    (header message_type (20 + min size (length (b ∷ bs))) transaction_id total current
      ++ take size (b ∷ bs))
    ∷ frames_loop fuel message_type transaction_id total size (current + 1) (drop size (b ∷ bs))

abbrev pub at_least_one : ℕ → ℕ
at_least_one zero = 1
at_least_one (suc n) = suc n

unfoldable pub frames : Bytes → ℕ → Checked FragmentError (List Bytes)
frames message max_frame_size =
    if leb (length message) max_frame_size then ok (message ∷ []) else do
      _ ← refuse_if (ltb (length message) 20) (too_short (length message))
      message_type ← uint32_at message 0
      _ ← refuse_if (not (is_fragment_message message_type)) (no_fragments message_type)
      len ← uint32_at message 4
      _ ← refuse_if (not (len == length message % 2 ^ 32)) (length_mismatch len (length message))
      _ ← refuse_if (leb max_frame_size 20) (size_too_small max_frame_size)
      transaction_id ← uint32_at message 8
      let payload = drop 20 message
      let size = max_frame_size - 20
      let total = at_least_one ((length payload + size - 1) / size)
      ok (frames_loop (length payload) message_type transaction_id total size 0 payload)

pub record Fragment : Type 0 where
  pub message_type : ℕ
  pub transaction_id : ℕ
  pub total : ℕ
  pub current : ℕ
  pub payload : Bytes

unfoldable pub unmarshal_fragment : Bytes → Checked FragmentError Fragment
unmarshal_fragment frame = do
  _ ← refuse_if (ltb (length frame) 20) (too_short (length frame))
  message_type ← uint32_at frame 0
  _ ← refuse_if (not (is_fragment_message message_type)) (no_fragments message_type)
  len ← uint32_at frame 4
  _ ← refuse_if (not (len == length frame % 2 ^ 32)) (length_mismatch len (length frame))
  transaction_id ← uint32_at frame 8
  total ← uint32_at frame 12
  current ← uint32_at frame 16
  _ ← refuse_if (total == 0) invalid_total
  _ ← refuse_if (leb total current) (invalid_fragment current total)
  ok (record {
    message_type = message_type;
    transaction_id = transaction_id;
    total = total;
    current = current;
    payload = drop 20 frame;
  })

-- The collector has the fields of the fragment that it started from.
abbrev pub Collector : Type 0
Collector = Fragment

unfoldable pub new_fragment_collector : Bytes → Checked FragmentError Collector
new_fragment_collector frame = do
  f ← unmarshal_fragment frame
  _ ← refuse_if (not (f.current == 0)) (unexpected_fragment 0 f.total f.current f.total)
  ok f

unfoldable pub add : Collector → Bytes → Checked FragmentError Collector
add c frame = do
  f ← unmarshal_fragment frame
  _ ←
      refuse_if (not (f.message_type == c.message_type))
        (type_mismatch f.message_type c.message_type)
  _ ←
      refuse_if (not (f.transaction_id == c.transaction_id))
        (transaction_mismatch f.transaction_id c.transaction_id)
  let next = (c.current + 1) % 2 ^ 32
  _ ← refuse_if (not (f.current == next)) (unexpected_fragment next c.total f.current f.total)
  _ ← refuse_if (not (f.total == c.total)) (total_mismatch f.total c.total)
  ok (record c { current = f.current; payload = c.payload ++ f.payload })

-- `c.total-1` is a uint32.
unfoldable pub complete : Collector → Bool
complete c = c.current == (c.total + (2 ^ 32 - 1)) % 2 ^ 32

-- The length is a uint32, which would cut the message short.
unfoldable pub marshal_collected : Collector → Checked FragmentError Bytes
marshal_collected c =
    if not (complete c)
    then err (incomplete c.current c.total)
    else let len = (20 + length c.payload) % 2 ^ 32 in
      if ltb len 20
      then panic
      else ok (header c.message_type len c.transaction_id 1 0 ++ take (len - 20) c.payload)
