-- ===== src/Apdu/Transmitter/Blocks.antt =====
-- A command sent block by block, with the answers of a card that accepts every block
-- (apdu/transmitter.go: `Write`).
use euicc_go.Prelude.{
  ℕ, ◌+◌, ◌/◌, ◌%◌, ◌<◌, ◌≡◌, refl, false, none, List, [], ◌∷◌, ◌++◌, append-nil, append_assoc,
  Bytes, to_byte, length, concat, length-append_bytes, if◌then◌else◌, ◌==◌, arith,
}
use euicc_go.Apdu.Request.{Request, apdu}
use euicc_go.Apdu.Response.Status.{with_status, has_more_status, response_data_status, sw2_status}
use euicc_go.Apdu.Transmitter.{
  Reply, answer, set_channel_to_cla, wrote, chunk, block, next_block, write_loop, write,
}
use euicc_go.Apdu.Transmitter.Chunks.{concat-chunk}
use euicc_go.Apdu.Transmitter.Accept.{transmit-accepted, more_IsAccepted, set_channel_to_cla_again}
use euicc_go.Apdu.Transmitter.Fetch.{chain, gathered, get_responses, read_command_response-chain}

-- How a card takes one block: with a response at once, or, with the status 61xx, with one to be fetched;
-- the first bytes of `fetched` are those in front of that status, which the code does not keep.
pub data Answered : Type 0 where
  direct : Bytes → Answered
  fetched : Bytes → ℕ → List (Bytes × ℕ) → Bytes → Answered

abbrev pub card_replies : List Answered → List Reply → List Reply
card_replies [] rest = rest
card_replies (direct d ∷ answers) rest = answer (with_status d 0x90 0) ∷ card_replies answers rest
card_replies (fetched d le ps last ∷ answers) rest =
    answer (with_status d 0x61 le) ∷ chain ps last (card_replies answers rest)

-- What the code keeps: the data of the direct answers, and for each other one what was fetched.
abbrev pub kept_data : List Answered → Bytes
kept_data [] = []
kept_data (direct d ∷ answers) = d ++ kept_data answers
kept_data (fetched d le ps last ∷ answers) = gathered ps last ++ kept_data answers

-- The command of block number `i`.
abbrev pub block_command : ℕ → ℕ → ℕ → Bytes → Bytes
block_command cla chunks i d = apdu (record {
  cla = cla;
  ins = 0xe2;
  p1 = if i == chunks then 0x91 else 0x11;
  p2 = i;
  payload = d;
  le = none;
})

abbrev fetches : ℕ → Answered → List Bytes
fetches cla (direct d) = []
fetches cla (fetched d le ps last) = get_responses cla le ps

-- The blocks in order, each followed by the commands that fetch its response.
abbrev pub commands : ℕ → ℕ → ℕ → List Bytes → List Answered → List Bytes
commands cla chunks i (d ∷ ds) (a ∷ answers) =
    block_command cla chunks i d ∷ (fetches cla a ++ commands cla chunks ((i + 1) % 256) ds answers)
commands _ _ _ _ _ = []

module _ (channel chunks : ℕ) (r : Request) (n : ℕ) (d : Bytes) (ds : List Bytes)
    (rest : List Reply) (sent : List Bytes) (response : Bytes) where
  abbrev sent_block : Request
  sent_block = let b = block chunks r d in record b { cla = set_channel_to_cla b.cla channel }

  write_loop-direct :
      (e : Bytes)
      → write_loop channel chunks r n (d ∷ ds) (record {
        replies = answer (with_status e 0x90 0) ∷ rest;
        sent = sent;
        response = response;
      })
        ≡ write_loop channel chunks (next_block sent_block) (n + length d) ds (record {
          replies = rest;
          sent = sent ++ apdu sent_block ∷ [];
          response = response ++ e;
        })
  unfolding write_loop
  write_loop-direct e = rw (
    transmit-accepted channel (block chunks r d) e 0x90 0 rest sent response refl,
    has_more_status e 0x90 0,
    response_data_status e 0x90 0,
    write_loop,
  )

  write_loop-fetched :
      (e : Bytes) (le : ℕ) (ps : List (Bytes × ℕ)) (last : Bytes)
      → write_loop channel chunks r n (d ∷ ds) (record {
        replies = answer (with_status e 0x61 le) ∷ chain ps last rest;
        sent = sent;
        response = response;
      })
        ≡ write_loop channel chunks (next_block sent_block) (n + length d) ds (record {
          replies = rest;
          sent =
              (sent ++ apdu sent_block ∷ [])
              ++ get_responses (set_channel_to_cla 0x80 channel) le ps;
          response = response ++ gathered ps last;
        })
  unfolding write_loop
  write_loop-fetched e le ps last = rw (
    transmit-accepted channel (block chunks r d) e 0x61 le (chain ps last rest) sent response
        (more_IsAccepted le),
    has_more_status e 0x61 le,
    sw2_status e 0x61 le,
    read_command_response-chain channel le ps last rest (sent ++ apdu sent_block ∷ []) response,
    write_loop,
  )

abbrev loop_request : ℕ → ℕ → ℕ → Bytes → Request
loop_request c p i d = record { cla = c; ins = 0xe2; p1 = p; p2 = i; payload = d; le = none }

append_three :
    (s : List Bytes) (b : Bytes) (f t : List Bytes)
    → ((s ++ b ∷ []) ++ f) ++ t ≡ s ++ (b ∷ (f ++ t))
append_three s b f t = rw (append_assoc (s ++ b ∷ []) f t, append_assoc s (b ∷ []) (f ++ t))

length-concat_step : (n : ℕ) (d e : Bytes) → n + length d + length e ≡ n + length (d ++ e)
length-concat_step n d e = omega (arith, length-append_bytes d e)

module _ (channel chunks : ℕ) (rest : List Reply) where
  write_loop_lem :
      (c p i n : ℕ) (d₀ : Bytes) (ds : List Bytes) (answers : List Answered) (sent : List Bytes)
      (response : Bytes)
      → set_channel_to_cla c channel ≡ set_channel_to_cla 0x80 channel
      → length ds ≡ length answers
      → write_loop channel chunks
          (loop_request c p i d₀)
          n
          ds
          (record { replies = card_replies answers rest; sent = sent; response = response })
        ≡ wrote (n + length (concat ds)) none (record {
          replies = rest;
          sent = sent ++ commands (set_channel_to_cla 0x80 channel) chunks i ds answers;
          response = response ++ kept_data answers;
        })
  unfolding write_loop
  write_loop_lem c p i n d₀ [] [] sent response hc h =
      let z : n + 0 ≡ n = omega arith in rw (append-nil sent, append-nil response, z)
  write_loop_lem c p i n d₀ [] (a ∷ answers) sent response hc h = absurd (omega arith)
  write_loop_lem c p i n d₀ (d ∷ ds) [] sent response hc h = absurd (omega arith)
  write_loop_lem c p i n d₀ (d ∷ ds) (direct e ∷ answers) sent response hc h = rw (
    write_loop-direct channel chunks (loop_request c p i d₀) n d ds (card_replies answers rest) sent
        response e,
    hc,
    write_loop_lem (set_channel_to_cla 0x80 channel) (if i == chunks then 0x91 else 0x11)
        ((i + 1) % 256) (n + length d) d ds answers
        (sent ++ block_command (set_channel_to_cla 0x80 channel) chunks i d ∷ []) (response ++ e)
        (set_channel_to_cla_again channel) (omega arith),
    append_assoc sent (block_command (set_channel_to_cla 0x80 channel) chunks i d ∷ [])
        (commands (set_channel_to_cla 0x80 channel) chunks ((i + 1) % 256) ds answers),
    append_assoc response e (kept_data answers),
    length-concat_step n d (concat ds),
  )
  write_loop_lem c p i n d₀ (d ∷ ds) (fetched e le ps last ∷ answers) sent response hc h = rw (
    write_loop-fetched channel chunks (loop_request c p i d₀) n d ds (card_replies answers rest)
        sent response e le ps last,
    hc,
    write_loop_lem (set_channel_to_cla 0x80 channel) (if i == chunks then 0x91 else 0x11)
        ((i + 1) % 256) (n + length d) d ds answers
        ((sent ++ block_command (set_channel_to_cla 0x80 channel) chunks i d ∷ [])
          ++ get_responses (set_channel_to_cla 0x80 channel) le ps)
        (response ++ gathered ps last) (set_channel_to_cla_again channel) (omega arith),
    append_three sent (block_command (set_channel_to_cla 0x80 channel) chunks i d)
        (get_responses (set_channel_to_cla 0x80 channel) le ps)
        (commands (set_channel_to_cla 0x80 channel) chunks ((i + 1) % 256) ds answers),
    append_assoc response (gathered ps last) (kept_data answers),
    length-concat_step n d (concat ds),
  )

-- A command written, in blocks of a size above 0, to a card that accepts each of them: Write sends
-- each block with its number and the class byte of the channel, fetches every response announced,
-- takes one answer each for the commands it sends, and returns the command's length and no error. The
-- response buffer, without what was there before, has the data of the blocks' answers with the status
-- 9000 and what was fetched after each answer with the status 61xx, in order; bytes that stood in
-- front of a status 61xx in the answer to a block itself are lost.
pub write-accepted :
    (channel mss : ℕ) (command : Bytes) (answers : List Answered) (rest : List Reply)
    (sent : List Bytes) (response : Bytes)
    → 0 < mss
    → length (chunk mss command) ≡ length answers
    → write channel mss command
        (record { replies = card_replies answers rest; sent = sent; response = response })
      ≡ wrote (length command) none (record {
        replies = rest;
        sent =
            sent
            ++ commands
                (set_channel_to_cla 0x80 channel)
                (to_byte (length command / mss))
                0
                (chunk mss command)
                answers;
        response = kept_data answers;
      })
unfolding write
write-accepted channel mss command answers rest sent response hm h =
    let f : (mss == 0) ≡ false = ground arith in
    let z : 0 + length command ≡ length command = omega arith in
    rw f (
      rw (
        write_loop_lem channel (to_byte (length command / mss)) rest 0x80 0 0 0 []
            (chunk mss command) answers sent [] refl h,
        concat-chunk mss command hm,
        z,
      ))
