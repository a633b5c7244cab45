-- ===== src/Qmi/Uim/Client/Fits.antt =====
-- What a client of the UIM service sends (driver/qmi/uim/client.go).
use euicc_go.Prelude.{
  ℕ, zero, suc, ◌+◌, ◌/◌, ◌%◌, ◌^◌, ◌≤◌, ◌<◌, ◌≡◌, ◌∙◌, refl, true, ◌⊎◌, inl, inr, Bool-cases,
  Option, none, some, List, [], ◌∷◌, Bytes, length, length-append_bytes, to_byte, All, ◌==◌, arith,
}
use euicc_go.Prelude.Action.{Result, ok, err, ◌>>◌, Result-cases}
use euicc_go.Qmi.Tlvs.{QmiTlv, write_tlvs}
use euicc_go.Qmi.Uim.{
  UimError, field, switch_slot_request, open_logical_channel_request, close_logical_channel_request,
  transmit_apdu_request, unmarshal_card_status, unmarshal_slot_status, not_supported, ready,
}
use euicc_go.Qmi.Uim.Client.{
  UimRequest, Client, get_slot_status_request, get_card_status_request, request,
  current_activated_slot, switch_slot, wait_loop, wait_for_slot_activation, ensure_slot_activated,
  examined, unmarshal_nothing, connect,
}

-- TLVs that are written without an error, in at most the given number of bytes.
record IsWritten (ts : List QmiTlv) (n : ℕ) : Type 0 where
  no_failure : (write_tlvs ts).failure ≡ none
  size : length (write_tlvs ts).output ≤ n

[]-IsWritten : IsWritten [] 0
unfolding write_tlvs
[]-IsWritten = record { no_failure = refl; size = omega arith }

field-IsWritten :
    (t : ℕ) (s : Bytes) (ts : List QmiTlv) (n m : ℕ)
    → length s < 65536
    → IsWritten ts n
    → 3 + length s + n ≤ m
    → IsWritten (field t s ∷ ts) m
unfolding write_tlvs
field-IsWritten t s ts n m short w h =
    let e : length s % 65536 == length s ≡ true = ground arith in
    record {
      no_failure = rw e w.no_failure;
      size = rw e (ground (arith, length-append_bytes s (write_tlvs ts).output, w.size));
    }

-- A request that the transport can encode: MaxQMUXServiceTLVLength bytes at most, without an error.
abbrev pub IsFit : UimRequest → Type 0
IsFit r = ((write_tlvs r.1).failure ≡ none) × (length (write_tlvs r.1).output ≤ 65522)

written_fits : (m : ℕ) (ts : List QmiTlv) → IsWritten ts 65522 → IsFit (m, ts)
written_fits m ts w = (w.no_failure, w.size)

byte-IsWritten : (t b : ℕ) → IsWritten (field t (b ∷ []) ∷ []) 4
byte-IsWritten t b = field-IsWritten t (b ∷ []) [] 0 4 (omega arith) []-IsWritten (omega arith)

switch_slot_request-IsFit : (l p : ℕ) → IsFit (switch_slot_request l p)
switch_slot_request-IsFit l p =
    let r = switch_slot_request l p in
    let physical_slot : Bytes =
      p % 256 ∷ p / 256 % 256 ∷ p / 65536 % 256 ∷ p / 16777216 % 256 ∷ [] in
    written_fits r.0 r.1 (
      field-IsWritten 1 (l ∷ []) (field 2 physical_slot ∷ []) 7 65522 (omega arith)
        (field-IsWritten 2 physical_slot [] 0 7 (omega arith) []-IsWritten (omega arith))
        (omega arith))

pub open_logical_channel_request-IsFit :
    (slot : ℕ) (aid : Bytes) → length aid ≤ 255 → IsFit (open_logical_channel_request slot aid)
open_logical_channel_request-IsFit slot aid h =
    let r = open_logical_channel_request slot aid in
    written_fits r.0 r.1 (
      field-IsWritten 0x10 (to_byte (length aid) ∷ aid) (field 1 (slot ∷ []) ∷ []) 4 65522
        (omega (arith, h)) (byte-IsWritten 1 slot) (omega (arith, h)))

pub close_logical_channel_request-IsFit :
    (slot channel : ℕ) → IsFit (close_logical_channel_request slot channel)
close_logical_channel_request-IsFit slot channel =
    let r = close_logical_channel_request slot channel in
    written_fits r.0 r.1 (
      field-IsWritten 1 (slot ∷ []) (field 0x11 (channel ∷ []) ∷ []) 4 65522 (omega arith)
        (byte-IsWritten 0x11 channel) (omega arith))

pub transmit_apdu_request-IsFit :
    (slot channel : ℕ) (command : Bytes)
    → length command ≤ 65509
    → IsFit (transmit_apdu_request slot channel command)
transmit_apdu_request-IsFit slot channel command h =
    let r = transmit_apdu_request slot channel command in
    let counted : Bytes = to_byte (length command) ∷ to_byte (length command / 2 ^ 8) ∷ command in
    let rest =
      field-IsWritten 2 counted (field 1 (slot ∷ []) ∷ []) 4 65518 (omega (arith, h))
        (byte-IsWritten 1 slot) (omega (arith, h)) in
    written_fits r.0 r.1 (
      field-IsWritten 0x10 (channel ∷ []) (field 2 counted ∷ field 1 (slot ∷ []) ∷ []) 65518 65522
        (omega arith) rest (omega arith))

bare_fits : (m : ℕ) → IsFit (m, [])
bare_fits m = ([]-IsWritten.no_failure, omega (arith, []-IsWritten.size))

-- How many requests a client has sent.
abbrev pub requests : {W : Type 0} → Client W → ℕ
requests c = length c.sent

module _ {W : Type 0} (transport : ℕ → ℕ → UimRequest → W → Result UimError (List QmiTlv) × W) where
  -- At most `n` requests were sent, which the transport can encode; the slot and the channel stay.
  pub record Sends (n : ℕ) (c c' : Client W) : Type 0 where
    pub fits : All IsFit c.sent → All IsFit c'.sent
    pub few : requests c' ≤ requests c + n
    pub grows : requests c ≤ requests c'
    pub slot : c'.slot ≡ c.slot
    pub channel : c'.channel ≡ c.channel

  pub request-Sends :
      {A : Type 0} (m : UimRequest) (decode : List QmiTlv → Result UimError A) (c : Client W)
      → IsFit m
      → Sends 1 c (request transport m decode c).1
  request-Sends m decode c h = record {
    fits = λ hs. (h, hs);
    few = omega arith;
    grows = omega arith;
    slot = refl;
    channel = refl;
  }

  Sends-append :
      {c c' c'' : Client W} {n m k : ℕ} → Sends n c c' → Sends m c' c'' → n + m ≤ k → Sends k c c''
  Sends-append p q h = record {
    fits = λ hs. q.fits (p.fits hs);
    few = omega (arith, p.few, q.few, h);
    grows = omega (arith, p.grows, q.grows);
    slot = q.slot ∙ p.slot;
    channel = q.channel ∙ p.channel;
  }

  unchanged : {n : ℕ} (c : Client W) → Sends n c c
  unchanged c = record {
    fits = λ hs. hs;
    few = omega arith;
    grows = omega arith;
    slot = refl;
    channel = refl;
  }

  wait_loop-Sends :
      (n : ℕ) (e : Option UimError) (c : Client W) → Sends n c (wait_loop transport n e c).1
  unfolding wait_loop
  wait_loop-Sends zero e c = unchanged c
  wait_loop-Sends (suc n) e c =
      let c' = (request transport get_card_status_request unmarshal_card_status c).1 in
      let first = request-Sends get_card_status_request unmarshal_card_status c (bare_fits 0x2F) in
      elim (Result-cases (request transport get_card_status_request unmarshal_card_status c).0) [
        | inl (status, r) ↦ elim (Bool-cases (ready status)) [
          | inl b ↦ rw (r, wait_loop, b) (Sends-append first (unchanged {n = 0} c') (omega arith))
          | inr b ↦
              rw (r, wait_loop, b) (Sends-append first (wait_loop-Sends n none c') (omega arith))
        ]
        | inr (e', r) ↦
            rw (r, wait_loop) (Sends-append first (wait_loop-Sends n (some e') c') (omega arith))
      ]

  activation-Sends :
      (c : Client W)
      → Sends 11 c ((switch_slot transport >> wait_for_slot_activation transport) c).1
  unfolding switch_slot wait_for_slot_activation
  activation-Sends c =
      let first =
        request-Sends (switch_slot_request 1 c.slot) unmarshal_nothing c
          (switch_slot_request-IsFit 1 c.slot) in
      elim (Result-cases (request transport (switch_slot_request 1 c.slot) unmarshal_nothing c).0) [
        | inl (a, r) ↦ rw r (Sends-append first (wait_loop-Sends 10 none _) (omega arith))
        | inr (e, r) ↦ rw r (Sends-append first (unchanged {n = 0} _) (omega arith))
      ]

  examined-Sends : (r : Result UimError ℕ) (c : Client W) → Sends 11 c (examined transport (r, c)).1
  examined-Sends (ok slot) c = elim (Bool-cases (slot == c.slot)) [
    | inl b ↦ rw b (unchanged c)
    | inr b ↦ rw b (activation-Sends c)
  ]
  examined-Sends (err not_supported) c = unchanged c
  examined-Sends (err e) c = unchanged c

  ensure_slot_activated-Sends : (c : Client W) → Sends 12 c (ensure_slot_activated transport c).1
  unfolding ensure_slot_activated current_activated_slot
  ensure_slot_activated-Sends c =
      let first = request-Sends get_slot_status_request unmarshal_slot_status c (bare_fits 0x47) in
      elim (Result-cases (request transport get_slot_status_request unmarshal_slot_status c).0) [
        | inl (status, r) ↦
            rw r (Sends-append first (examined-Sends (ok status.activated_slot) _) (omega arith))
        | inr (e, r) ↦ rw r (Sends-append first (examined-Sends (err e) _) (omega arith))
      ]

  -- Connect sends at most twelve requests, each of which the transport can encode, and keeps the channel. It
  -- sets the slot to 1 where it succeeds, and keeps it where it fails.
  pub connect_outcome :
      (c : Client W)
      → All IsFit c.sent
      → All IsFit (connect transport c).1.sent
        × (requests (connect transport c).1 ≤ requests c + 12)
        × ((connect transport c).1.channel ≡ c.channel)
        × ((((connect transport c).0 ≡ ok tt) × ((connect transport c).1.slot ≡ 1))
            ⊎ ((e : UimError) × ((connect transport c).0 ≡ err e)
                × ((connect transport c).1.slot ≡ c.slot)))
  unfolding connect
  connect_outcome c hs =
      let made = ensure_slot_activated-Sends c in
      elim (Result-cases (ensure_slot_activated transport c).0) [
        | inl (a, r) ↦ rw r (made.fits hs, made.few, made.channel, inl (refl, refl))
        | inr (e, r) ↦ rw r (made.fits hs, made.few, made.channel, inr (e, refl, made.slot))
      ]
