-- ===== src/Ccid/Life.antt =====
-- All the readers of a process, made and used in any order (driver/ccid/ccid.go).
use euicc_go.Prelude.{
  ℕ, ◌+◌, ◌≤◌, ◌≡◌, refl, sym, ◌∙◌, Bool, true, false, not, List, [], ◌∷◌, ◌++◌, Bytes, ◌==◌, All,
  All-append, All-split, arith,
}
use euicc_go.Prelude.Action.{Result, ok, err}
use euicc_go.Card.Channels.{CardError, open_logical_channel, close_logical_channel}
use euicc_go.Ccid.{Pcsc, Reader, Host}
use euicc_go.Ccid.Operations.{
  fresh, new_with_reader, transmit, disconnect, connect, set_reader, list_readers, ccid_link,
}
use euicc_go.Ccid.Accounts.{
  IsValid, live, Counted, Tallies, Kept-Tallies, disconnect-Tallies, new_with_reader-Tallies,
  transmit-Kept, set_reader-Kept, list_readers-Kept, open_logical_channel-Kept,
  close_logical_channel-Kept, connect-Kept, new_with_reader_failed,
}

-- The exported methods of a reader.
pub data Op : Type 0 where
  connect_op disconnect_op list_readers_op : Op
  transmit_op set_reader_op open_op : Bytes → Op
  close_op : ℕ → Op

-- The readers that were made, and what they share.
pub record System (W : Type 0) : Type 0 where
  pub readers : List Reader
  pub refs : ℕ
  pub initialized : Bool
  pub world : W

abbrev pub live_readers : List Reader → ℕ
live_readers [] = 0
live_readers (r ∷ rs) = live r + live_readers rs

-- The count is that of the readers not closed, goscard is initialized exactly while there is one, and every
-- reader is valid.
pub record IsSound {W : Type 0} (s : System W) : Type 0 where
  pub valid : All IsValid s.readers
  pub counted : s.refs ≡ live_readers s.readers
  pub flagged : s.initialized ≡ not (s.refs == 0)

module _ {W : Type 0} (pcsc : Pcsc W) where
  unfoldable pub run : Op → Host W → Host W
  run connect_op h = (connect pcsc h).1
  run disconnect_op h = (disconnect pcsc h).1
  run list_readers_op h = (list_readers pcsc h).1
  run (transmit_op c) h = (transmit pcsc c h).1
  run (set_reader_op name) h = (set_reader pcsc name h).1
  run (open_op aid) h = (open_logical_channel (ccid_link pcsc) aid h).1
  run (close_op n) h = (close_logical_channel (ccid_link pcsc) n h).1

  run-Tallies : (op : Op) (h : Host W) → Counted pcsc h → Tallies pcsc h (run op h)
  unfolding run
  run-Tallies connect_op h c = Kept-Tallies pcsc h _ (connect-Kept pcsc h) c
  run-Tallies disconnect_op h c = disconnect-Tallies pcsc h c
  run-Tallies list_readers_op h c = Kept-Tallies pcsc h _ (list_readers-Kept pcsc h) c
  run-Tallies (transmit_op b) h c = Kept-Tallies pcsc h _ (transmit-Kept pcsc b h) c
  run-Tallies (set_reader_op name) h c = Kept-Tallies pcsc h _ (set_reader-Kept pcsc name h) c
  run-Tallies (open_op aid) h c = Kept-Tallies pcsc h _ (open_logical_channel-Kept pcsc aid h) c
  run-Tallies (close_op n) h c = Kept-Tallies pcsc h _ (close_logical_channel-Kept pcsc n h) c

  abbrev pub host : Reader → System W → Host W
  host r s = record { self = r; refs = s.refs; initialized = s.initialized; world = s.world }

  abbrev pub with_host : List Reader → Host W → System W
  with_host rs h = record {
    readers = rs;
    refs = h.refs;
    initialized = h.initialized;
    world = h.world;
  }

  -- No reader, for a call that makes one.
  abbrev nobody : Reader
  nobody = record (fresh []) { closed = true }

  abbrev pub made : List Reader → Result CardError (Unit {0}) × Host W → System W
  made rs (ok _, h) = with_host (rs ++ (h.self ∷ [])) h
  made rs (err e, h) = with_host rs h

  -- A reader is made, or one of those made is called.
  pub data Step (s t : System W) : Type 0 where
    make :
        (name : Bytes) → t ≡ made s.readers (new_with_reader pcsc name (host nobody s)) → Step s t
    act :
        (before : List Reader) (r : Reader) (after : List Reader) (op : Op)
        → s.readers ≡ before ++ (r ∷ after)
        → t ≡ with_host (before ++ ((run op (host r s)).self ∷ after)) (run op (host r s))
        → Step s t

  pub data Reach (s : System W) : System W → Type 0 where
    here : Reach s s
    next : {t u : System W} → Reach s t → Step t u → Reach s u

  live_readers-append :
      (xs ys : List Reader) → live_readers (xs ++ ys) ≡ live_readers xs + live_readers ys
  live_readers-append [] ys = omega arith
  live_readers-append (x ∷ xs) ys = omega (arith, live_readers-append xs ys)

  shares :
      (s : System W) (r : Reader)
      → IsSound s
      → IsValid r
      → live r ≤ s.refs
      → Counted pcsc (host r s)
  shares s r sound v h = record { valid = v; among = h; flagged = sound.flagged }

  act-IsSound :
      (s : System W) (before : List Reader) (r : Reader) (after : List Reader) (op : Op)
      → s.readers ≡ before ++ (r ∷ after)
      → IsSound s
      → IsSound (with_host (before ++ ((run op (host r s)).self ∷ after)) (run op (host r s)))
  act-IsSound s before r after op e sound =
      let v : All IsValid before × All IsValid (r ∷ after) =
        All-split IsValid before (r ∷ after) (rw e at sound.valid) in
      let n : s.refs ≡ live_readers before + (live r + live_readers after) =
        sound.counted ∙ (rw e (live_readers-append before (r ∷ after))) in
      let t = run-Tallies op (host r s) (shares s r sound v.1.0 (omega arith)) in
      record {
        valid = All-append IsValid before _ v.0 (t.valid, v.1.1);
        counted =
            omega (arith, live_readers-append before ((run op (host r s)).self ∷ after), t.moved);
        flagged = t.flagged;
      }

  made-IsSound :
      (s : System W) (p : Result CardError (Unit {0}) × Host W)
      → IsSound s
      → Tallies pcsc (host nobody s) p.1
      → ((e : CardError) → p.0 ≡ err e → p.1.self.closed ≡ true)
      → IsSound (made s.readers p)
  made-IsSound s (ok _, h) sound t failed = record {
    valid = All-append IsValid s.readers (h.self ∷ []) sound.valid (t.valid, tt);
    counted = omega (arith, live_readers-append s.readers (h.self ∷ []), sound.counted, t.moved);
    flagged = t.flagged;
  }
  made-IsSound s (err e, h) sound t failed =
      let z : live h.self ≡ 0 = rw (failed e refl) refl in
      record {
        valid = sound.valid;
        counted = omega (arith, sound.counted, t.moved);
        flagged = t.flagged;
      }

  nobody-IsValid : IsValid nobody
  nobody-IsValid = ground arith

  make-IsSound :
      (s : System W) (name : Bytes)
      → IsSound s
      → IsSound (made s.readers (new_with_reader pcsc name (host nobody s)))
  make-IsSound s name sound =
      made-IsSound s (new_with_reader pcsc name (host nobody s)) sound
        (new_with_reader-Tallies pcsc name (host nobody s) refl
          (shares s nobody sound nobody-IsValid (omega arith)))
        (λ e. new_with_reader_failed pcsc name (host nobody s) e refl)

  Step-IsSound : {s t : System W} → Step s t → IsSound s → IsSound t
  Step-IsSound {s} (make name e) sound = rw e (make-IsSound s name sound)
  Step-IsSound {s} (act before r after op e e') sound =
      rw e' (act-IsSound s before r after op e sound)

  Reach-IsSound : {s t : System W} → IsSound s → Reach s t → IsSound t
  Reach-IsSound sound here = sound
  Reach-IsSound sound (next r st) = Step-IsSound st (Reach-IsSound sound r)

  abbrev pub start : W → System W
  start w = record { readers = []; refs = 0; initialized = false; world = w }

  -- From a start without readers, after any calls on any readers in any order and whatever the library
  -- answers: a closed reader has no card, a reader without a card has channel 0 and no protocol,
  -- `pcsc.refs` is the number of readers that are not closed, and goscard is initialized exactly while
  -- there is such a reader.
  pub readers_account :
      (w : W) (t : System W)
      → Reach (start w) t
      → All IsValid t.readers
        × (t.refs ≡ live_readers t.readers)
        × (t.initialized ≡ not (live_readers t.readers == 0))
  readers_account w t r =
      let sound = Reach-IsSound {s = start w} {t = t} (ground arith) r in
      (sound.valid, sound.counted, rw (sym sound.counted) sound.flagged)
