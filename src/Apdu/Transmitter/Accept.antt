-- ===== src/Apdu/Transmitter/Accept.antt =====
-- The class byte of a logical channel, and one exchange that the card accepts
-- (apdu/transmitter.go: `setChannelToCLA`, `transmit`).
use euicc_go.Prelude.{
  ℕ, ◌<◌, ◌≡◌, refl, true, false, ◌||◌, some, List, ◌∷◌, ◌++◌, [], Bytes, ltb, ltb→lt, ◌==◌, arith,
  inl, inr, Bool-cases, ◌*◌, ◌^◌, bit_or,
}
use euicc_go.Prelude.Masks.{same_values, agree}
use euicc_go.Apdu.Request.{Request, apdu}
use euicc_go.Apdu.Response.{Response}
use euicc_go.Apdu.Response.Status.{with_status, has_more_status, is_ok_status}
use euicc_go.Apdu.Transmitter.{
  Reply, answer, Session, finished, set_channel_to_cla, accepted, receive_response, on_line,
  exchange, transmit,
}

set_channel_to_cla_table :
    (channel : ℕ)
    → channel < 20
    → set_channel_to_cla (set_channel_to_cla 0x80 channel) channel ≡ set_channel_to_cla 0x80 channel
unfolding set_channel_to_cla same_values
set_channel_to_cla_table = agree _ _ 20 refl

set_channel_to_cla_proprietary :
    (cla channel : ℕ) → ltb channel 20 ≡ false → set_channel_to_cla cla channel ≡ cla
unfolding set_channel_to_cla
set_channel_to_cla_proprietary cla channel h = ground arith

-- The class byte is set again before each block of a command: it stays as the first call left it.
pub set_channel_to_cla_again :
    (channel : ℕ)
    → set_channel_to_cla (set_channel_to_cla 0x80 channel) channel ≡ set_channel_to_cla 0x80 channel
set_channel_to_cla_again channel = elim (Bool-cases (ltb channel 20)) [
  | inl t ↦ set_channel_to_cla_table channel (ltb→lt _ _ t)
  | inr f ↦
      rw (set_channel_to_cla_proprietary 0x80 channel f)
        (set_channel_to_cla_proprietary 0x80 channel f)
]

-- A status that the transmitter takes: done, or more to fetch.
abbrev pub IsAccepted : ℕ → ℕ → Type 0
IsAccepted hi lo = (bit_or (hi * 2 ^ 8) lo == 0x9000) || (hi == 0x61) ≡ true

pub more_IsAccepted : (le : ℕ) → IsAccepted 0x61 le
more_IsAccepted le = ground arith

accepted_status :
    (d : Bytes) (hi lo : ℕ) → IsAccepted hi lo → accepted (with_status d hi lo) ≡ some true
unfolding accepted
accepted_status d hi lo h = rw (is_ok_status d hi lo, has_more_status d hi lo, h)

receive_response-accepted :
    (r : Request) (b : Response) (s : Session)
    → accepted b ≡ some true
    → receive_response r b s ≡ finished (r, b) s
unfolding receive_response
receive_response-accepted r b s h = rw (h, receive_response)

pub exchange-accepted :
    (r : Request) (d : Bytes) (hi lo : ℕ) (rest : List Reply) (s : Session)
    → IsAccepted hi lo
    → exchange r (answer (with_status d hi lo) ∷ rest) s
      ≡ finished (r, with_status d hi lo) (on_line rest (apdu r) s)
unfolding exchange
exchange-accepted r d hi lo rest s h =
    receive_response-accepted r (with_status d hi lo) _ (accepted_status d hi lo h)

pub transmit-accepted :
    (channel : ℕ) (r : Request) (d : Bytes) (hi lo : ℕ) (rest : List Reply) (sent : List Bytes)
    (response : Bytes)
    → IsAccepted hi lo
    → let r' = record r { cla = set_channel_to_cla r.cla channel } in
      transmit channel r
        (record { replies = answer (with_status d hi lo) ∷ rest; sent = sent; response = response })
      ≡ finished
          (r', with_status d hi lo)
          (record { replies = rest; sent = sent ++ apdu r' ∷ []; response = response })
unfolding transmit
transmit-accepted channel r d hi lo rest sent response h = exchange-accepted _ d hi lo rest _ h
