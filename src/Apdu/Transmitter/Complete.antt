-- ===== src/Apdu/Transmitter/Complete.antt =====
-- A whole command written to a card that accepts every block, and what the card makes of it
-- (apdu/transmitter.go: `Write`).
use euicc_go.Prelude.{
  ℕ, ◌/◌, ◌%◌, ◌≤◌, ◌<◌, ◌≡◌, refl, Option, none, some, List, [], Bytes, to_byte, length, arith,
}
use euicc_go.Apdu.Transmitter.{Reply, Session, wrote, set_channel_to_cla, chunk, write}
use euicc_go.Apdu.Transmitter.Blocks.{Answered, commands, card_replies, kept_data, write-accepted}
use euicc_go.Apdu.Transmitter.Chunks.{concat-chunk, count_rounded_up, count_exact, chunk-All}
use euicc_go.Apdu.Transmitter.Card.{
  reassemble, stores, blocks, stores-commands, reassemble-whole, reassemble-short,
}

module _ (channel mss : ℕ) (command : Bytes) (answers : List Answered) (rest : List Reply)
    (response : Bytes) where
  abbrev fresh : Session
  fresh = record { replies = card_replies answers rest; sent = []; response = response }

  abbrev chunks : ℕ
  chunks = length command / mss

  -- What the card was sent, with the low byte of the count in place of the count.
  stores-write :
      length (chunk mss command) ≡ length answers
      → chunks < 256
      → stores (
          commands (set_channel_to_cla 0x80 channel) (to_byte chunks) 0 (chunk mss command) answers)
        ≡ blocks (set_channel_to_cla 0x80 channel) chunks 0 (chunk mss command)
  stores-write ha hk =
      let m : to_byte chunks ≡ chunks = omega arith in
      rw (
        stores-commands (set_channel_to_cla 0x80 channel) (to_byte chunks) 0 (chunk mss command)
            answers ha,
        m,
      )

  abbrev pub AfterWrite : Option Bytes → Type 0
  AfterWrite result =
      (s : Session) × (write channel mss command fresh ≡ wrote (length command) none s)
      × (reassemble 0 (stores s.sent) ≡ result)
      × (s.response ≡ kept_data answers)

  after_write :
      (result : Option Bytes)
      → 0 < mss
      → length (chunk mss command) ≡ length answers
      → chunks < 256
      → reassemble 0 (blocks (set_channel_to_cla 0x80 channel) chunks 0 (chunk mss command))
        ≡ result
      → AfterWrite result
  after_write result hm ha hk h = (
    _,
    write-accepted channel mss command answers rest [] response hm ha,
    rw (stores-write ha hk) h,
    refl,
  )

  -- A command whose length is no multiple of the block size, with a block size of 1 to 255 and
  -- fewer than 256 whole blocks, written to a card that accepts each block: Write returns the length
  -- and no error, and a card that reads the STORE DATA commands in order puts the command together
  -- again. The response buffer has the data of the blocks' answers with the status 9000 and what was
  -- fetched after each answer with the status 61xx, in order, without the bytes in front of 61xx.
  pub write-reassembled :
      0 < mss
      → mss ≤ 255
      → 0 < length command % mss
      → length command / mss < 256
      → length (chunk mss command) ≡ length answers
      → (s : Session) × (write channel mss command fresh ≡ wrote (length command) none s)
        × (reassemble 0 (stores s.sent) ≡ some command)
        × (s.response ≡ kept_data answers)
  write-reassembled hm hs hr hk ha = after_write (some command) hm ha hk (
      rw (
        reassemble-whole (set_channel_to_cla 0x80 channel) chunks hk (chunk mss command)
            (count_rounded_up mss command hm hr) (chunk-All mss command hs),
        concat-chunk mss command hm,
      ))

  -- When the length is a multiple of the block size, Write returns the length and no error as well,
  -- and what Write keeps of the answers is buffered, but the card never sees the last block marked: what
  -- it was sent is no whole command. (A block size of 1 to 255, fewer than 256 blocks, each accepted.)
  pub write-unfinished :
      0 < mss
      → mss ≤ 255
      → length command % mss ≡ 0
      → length command / mss < 256
      → length (chunk mss command) ≡ length answers
      → (s : Session) × (write channel mss command fresh ≡ wrote (length command) none s)
        × (reassemble 0 (stores s.sent) ≡ none)
        × (s.response ≡ kept_data answers)
  write-unfinished hm hs hr hk ha = after_write none hm ha hk (
      reassemble-short (set_channel_to_cla 0x80 channel) chunks hk (chunk mss command)
        (count_exact mss command chunks refl hm hr) (chunk-All mss command hs))
