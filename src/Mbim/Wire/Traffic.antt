-- ===== src/Mbim/Wire/Traffic.antt =====
-- What comes in while a command waits for its answer, and one pass of the reading loop over it
-- (driver/mbim/types.go: `Request.ReadFrom`).
use euicc_go.Prelude.{
  ap, ◌∙◌, take, ℕ, suc, ◌+◌, ◌-◌, ◌^◌, ◌≤◌, ◌<◌, ◌≡◌, ◌≢◌, ◌⊎◌, inl, inr, refl, true, false, none,
  some, Option, List, [], ◌∷◌, ◌++◌, Bytes, length, map, ltb, ◌==◌, arith,
}
use euicc_go.Mbim.Words.{ok, uint32_at, put_uint32_lem}
use euicc_go.Mbim.Fragment.{Collector}
use euicc_go.Mbim.Message.{Request, message, response_message_type}
use euicc_go.Mbim.Wire.{
  WireError, Arrival, byte, lapse, got, read_full, Outcome, frame_arrived, fragment_arrived,
  header_arrived, read_loop,
}

-- A frame with a type and a transaction, of at most 4096 bytes.
abbrev pub IsFrame : ℕ → ℕ → Bytes → Type 0
IsFrame message_type transaction_id f =
    (body : Bytes) × (f ≡ message message_type transaction_id body)
    × (message_type < 2 ^ 32)
    × (transaction_id < 2 ^ 32)
    × (12 + length body ≤ 4096)

-- A frame that is not for a command's transaction, or is neither its answer nor an error.
abbrev pub IsOther : ℕ → Bytes → Type 0
IsOther transaction_id f =
    (t : ℕ) × (x : ℕ) × IsFrame t x f
    × ((x ≢ transaction_id) ⊎ ((t ≢ 0x80000003) × (t ≢ 0x80000004)))

-- What arrives until the given frames of the answer are there, in so many passes of the loop: the frames
-- in order, and between them silences and the frames of others.
pub data Traffic (transaction_id : ℕ) : List Bytes → ℕ → List Arrival → Type 0 where
  done : {conn : List Arrival} → Traffic transaction_id [] 0 conn
  idle :
      {fs : List Bytes} {n : ℕ} {conn : List Arrival}
      → Traffic transaction_id fs n conn
      → Traffic transaction_id fs (suc n) (lapse ∷ conn)
  other :
      {fs : List Bytes} {n : ℕ} {conn : List Arrival} (f : Bytes)
      → IsOther transaction_id f
      → Traffic transaction_id fs n conn
      → Traffic transaction_id fs (suc n) (map byte f ++ conn)
  ours :
      {fs : List Bytes} {n : ℕ} {conn : List Arrival} (f : Bytes)
      → IsFrame 0x80000003 transaction_id f
      → Traffic transaction_id fs n conn
      → Traffic transaction_id (f ∷ fs) (suc n) (map byte f ++ conn)

read_full_bytes :
    (s : Bytes) (conn : List Arrival) → read_full (length s) (map byte s ++ conn) ≡ got s conn
unfolding read_full
read_full_bytes [] conn = refl
read_full_bytes (b ∷ s) conn = rw (read_full_bytes s conn)

-- The fields of a frame, where its bytes hold them.
module _ {E : Type 0} where
  frame_type : (t x : ℕ) (f : Bytes) → IsFrame t x f → uint32_at {E = E} f 0 ≡ ok t
  frame_type t x f (body, e, ht, hx, h) = rw e (ap ok (put_uint32_lem t ht))

  frame_transaction : (t x : ℕ) (f : Bytes) → IsFrame t x f → uint32_at {E = E} f 8 ≡ ok x
  frame_transaction t x f (body, e, ht, hx, h) = rw e (ap ok (put_uint32_lem x hx))

module _ {A : Type 0} (r : Request A) (set_read_deadline : List Arrival → Option ℕ)
    (deadlines : (conn : List Arrival) → set_read_deadline conn ≡ none) where
  pub read_loop-idle :
      (passes : ℕ) (c : Option Collector) (conn : List Arrival)
      → read_loop r set_read_deadline (suc passes) c (lapse ∷ conn)
        ≡ read_loop r set_read_deadline passes c conn
  unfolding read_loop read_full
  read_loop-idle passes c conn = rw (deadlines (lapse ∷ conn), read_loop)

  read_loop-pass :
      (passes : ℕ) (c : Option Collector) (conn : List Arrival) (header : Bytes)
      (rest : List Arrival)
      → read_full 12 conn ≡ got header rest
      → read_loop r set_read_deadline (suc passes) c conn
        ≡ header_arrived r c (read_loop r set_read_deadline passes) header rest
  unfolding read_loop
  read_loop-pass passes c conn header rest e = rw (deadlines conn, e, read_loop)

  header_arrived-frame :
      (total : ℕ) (c : Option Collector) (go_on : Option Collector → List Arrival → Outcome A)
      (header body : Bytes) (conn : List Arrival)
      → uint32_at {E = WireError} header 4 ≡ ok total
      → total ≡ 12 + length body
      → total ≤ 4096
      → header_arrived r c go_on header (map byte body ++ conn)
        ≡ frame_arrived r c (λ c'. go_on c' conn) (header ++ body)
  unfolding header_arrived
  header_arrived-frame total c go_on header body conn e e' h =
      let least : ltb total 12 ≡ false = ground arith in
      let most : ltb 4096 total ≡ false = ground arith in
      let rest : total - 12 ≡ length body = omega arith in
      rw (e, least, most, rest, read_full_bytes body conn)

  pub read_loop-frame :
      (t x passes : ℕ) (c : Option Collector) (f : Bytes) (conn : List Arrival)
      → IsFrame t x f
      → read_loop r set_read_deadline (suc passes) c (map byte f ++ conn)
        ≡ frame_arrived r c (λ c'. read_loop r set_read_deadline passes c' conn) f
  unfolding read_full
  read_loop-frame t x passes c f conn (body, e, ht, hx, h) = rw e (
      read_loop-pass passes c _ (take 12 (message t x body)) (map byte body ++ conn) refl
      ∙ header_arrived-frame (12 + length body) c (read_loop r set_read_deadline passes)
          (take 12 (message t x body)) body conn
          (ap ok (put_uint32_lem (12 + length body) (omega arith))) refl h)

module _ {A : Type 0} (r : Request A) (waits : r.message_type ≡ 3)
    (go_on : Option Collector → Outcome A) where
  expects : response_message_type r.message_type ≡ some 0x80000003
  expects = ap response_message_type waits

  pub frame_arrived-other :
      (c : Option Collector) (f : Bytes)
      → IsOther r.transaction_id f
      → frame_arrived r c go_on f ≡ go_on c
  unfolding frame_arrived
  frame_arrived-other c f (t, x, is_frame, inl differs) =
      let not_ours : (x == r.transaction_id) ≡ false = ground arith in
      rw (frame_type t x f is_frame, frame_transaction t x f is_frame, not_ours)
  frame_arrived-other c f (t, x, is_frame, inr (not_done, not_error)) =
      let no_answer : (t == 0x80000003) ≡ false = ground arith in
      let no_error : (t == 0x80000004) ≡ false = ground arith in
      rw (frame_type t x f is_frame, frame_transaction t x f is_frame, expects, no_answer, no_error)
        (ground arith)

  pub frame_arrived-ours :
      (c : Option Collector) (f : Bytes)
      → IsFrame 0x80000003 r.transaction_id f
      → frame_arrived r c go_on f ≡ fragment_arrived r c go_on f
  unfolding frame_arrived
  frame_arrived-ours c f is_frame =
      let same : (r.transaction_id == r.transaction_id) ≡ true = ground arith in
      rw (
        frame_type 0x80000003 r.transaction_id f is_frame,
        frame_transaction 0x80000003 r.transaction_id f is_frame,
        same,
        expects,
      )
