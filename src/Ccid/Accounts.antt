-- ===== src/Ccid/Accounts.antt =====
-- What holds of a reader between two calls, and of the count of readers (driver/ccid/ccid.go).
use euicc_go.Prelude.{
  ℕ, ◌+◌, ◌≤◌, ◌≡◌, refl, true, false, not, none, Bytes, ◌==◌, arith, if◌then◌else◌,
}
use euicc_go.Prelude.Action.{err}
use euicc_go.Card.Channels.{CardError, open_logical_channel, close_logical_channel}
use euicc_go.Card.Channels.Frame.{
  Framed, open_logical_channel_related, close_logical_channel_related,
}
use euicc_go.Ccid.{Pcsc, Reader, Host}
use euicc_go.Ccid.Operations.{
  acquire_pcsc, release_pcsc, new_with_reader, transmit, disconnect_card, disconnect, connect,
  set_reader, list_readers, ccid_link,
}

-- A closed reader has no card, and one without a card has no channel and no protocol.
pub record IsValid (r : Reader) : Type 0 where
  pub closed_shut : r.closed ≡ true → r.is_open ≡ false
  pub channel_reset : r.is_open ≡ false → r.channel ≡ 0
  pub protocol_reset : r.is_open ≡ false → r.io_send ≡ none
  pub channel_capped : r.channel ≤ 19

module _ {W : Type 0} (pcsc : Pcsc W) where
  -- The reader stays valid, and the accounts stay as they are.
  pub record Kept (h h' : Host W) : Type 0 where
    pub valid : IsValid h.self → IsValid h'.self
    pub refs : h'.refs ≡ h.refs
    pub flag : h'.initialized ≡ h.initialized
    pub closed : h'.self.closed ≡ h.self.closed

  Kept-follow : (h i j : Host W) → Kept h i → Kept i j → Kept h j
  Kept-follow h i j a b = record {
    valid = λ v. b.valid (a.valid v);
    refs = cc;
    flag = cc;
    closed = cc;
  }

  pub transmit-Kept : (c : Bytes) (h : Host W) → Kept h (transmit pcsc c h).1
  unfolding transmit
  transmit-Kept c h = ground arith

  disconnect_card-Kept : (h : Host W) → Kept h (disconnect_card pcsc h).1
  unfolding disconnect_card
  disconnect_card-Kept h = ground arith

  pub set_reader-Kept : (name : Bytes) (h : Host W) → Kept h (set_reader pcsc name h).1
  unfolding set_reader
  set_reader-Kept name h = ground arith

  pub list_readers-Kept : (h : Host W) → Kept h (list_readers pcsc h).1
  unfolding list_readers
  list_readers-Kept h = ground arith

  IsLive : Host W → Type 0
  IsLive h = h.self.is_open ≡ true

  link-Framed : Framed (ccid_link pcsc) Kept IsLive
  unfolding transmit IsLive
  link-Framed = record {
    same = λ h. ground arith;
    follow = Kept-follow;
    exchanged = λ c h. ground arith;
    answered = λ c h a e. ground arith;
    set = λ n h le live. ground arith;
  }

  pub open_logical_channel-Kept :
      (aid : Bytes) (h : Host W) → Kept h (open_logical_channel (ccid_link pcsc) aid h).1
  open_logical_channel-Kept aid h =
      open_logical_channel_related (ccid_link pcsc) Kept IsLive link-Framed aid h

  pub close_logical_channel-Kept :
      (n : ℕ) (h : Host W) → Kept h (close_logical_channel (ccid_link pcsc) n h).1
  close_logical_channel-Kept n h =
      close_logical_channel_related (ccid_link pcsc) Kept IsLive link-Framed n h

  pub connect-Kept : (h : Host W) → Kept h (connect pcsc h).1
  unfolding connect transmit disconnect_card
  connect-Kept h = ground arith

-- What a reader counts for.
abbrev pub live : Reader → ℕ
live r = if r.closed then 0 else 1

module _ {W : Type 0} (pcsc : Pcsc W) where
  -- The readers that are not closed are counted, this one among them.
  pub record Counted (h : Host W) : Type 0 where
    pub valid : IsValid h.self
    pub among : live h.self ≤ h.refs
    pub flagged : h.initialized ≡ not (h.refs == 0)

  -- The count moves with the reader, and goscard is initialized exactly while it is not 0.
  pub record Tallies (h h' : Host W) : Type 0 where
    pub valid : IsValid h'.self
    pub moved : h'.refs + live h.self ≡ h.refs + live h'.self
    pub flagged : h'.initialized ≡ not (h'.refs == 0)

  pub Kept-Tallies : (h h' : Host W) → Kept pcsc h h' → Counted h → Tallies h h'
  Kept-Tallies h h' k c = record {
    valid = k.valid c.valid;
    moved = rw (k.refs, k.closed) refl;
    flagged = rw (k.refs, k.flag) c.flagged;
  }

  pub disconnect-Tallies : (h : Host W) → Counted h → Tallies h (disconnect pcsc h).1
  unfolding disconnect disconnect_card release_pcsc
  disconnect-Tallies h c = ground arith

  -- Nothing but the new reader is added to the accounts, and nothing where it fails.
  pub new_with_reader-Tallies :
      (name : Bytes) (h : Host W)
      → h.self.closed ≡ true
      → Counted h
      → Tallies h (new_with_reader pcsc name h).1
  unfolding new_with_reader acquire_pcsc release_pcsc
  new_with_reader-Tallies name h closed c = ground arith

  pub new_with_reader_failed :
      (name : Bytes) (h : Host W) (e : CardError)
      → h.self.closed ≡ true
      → (new_with_reader pcsc name h).0 ≡ err e
      → (new_with_reader pcsc name h).1.self.closed ≡ true
  unfolding new_with_reader acquire_pcsc release_pcsc
  new_with_reader_failed name h e closed failed = ground arith
