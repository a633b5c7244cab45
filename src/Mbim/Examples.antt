-- ===== src/Mbim/Examples.antt =====
-- Messages cut into frames and put together again, and a session with a modem.
use euicc_go.Prelude.Action.{ok, err}
use euicc_go.Mbim.Session.{end_of_file, Modem, Session, connect, transmit, uicc_status_word}
use euicc_go.Mbim.Session.Bounds.{Account, recorded, Connected, connect-bounded}
use euicc_go.Prelude.{◌≡◌, ◌≤◌, refl, none, some, List, [], ◌∷◌, ◌++◌, Bytes, length, All, arith}
use euicc_go.Mbim.Fragment.Whole.{put_together-frames-whole}
use euicc_go.Mbim.Words.{ok, err}
use euicc_go.Mbim.Fragment.{
  header, frames, frames_loop, unexpected_fragment, new_fragment_collector, unmarshal_fragment, add,
  complete,
}
use euicc_go.Mbim.Fragment.Receive.{put_together, put_together_rest}

abbrev message : Bytes
message = header 3 25 7 1 0 ++ (1 ∷ 2 ∷ 3 ∷ 4 ∷ 5 ∷ [])

abbrev first_part : Bytes
first_part = header 3 23 7 2 0 ++ (1 ∷ 2 ∷ 3 ∷ [])

abbrev second_part : Bytes
second_part = header 3 22 7 2 1 ++ (4 ∷ 5 ∷ [])

-- Three bytes of payload to a frame.
frames_example : frames message 23 ≡ ok (first_part ∷ second_part ∷ [])
unfolding frames frames_loop
frames_example = refl

incomplete_example : put_together (first_part ∷ []) ≡ ok none
unfolding put_together put_together_rest new_fragment_collector unmarshal_fragment complete
incomplete_example = refl

repeated_example : put_together (first_part ∷ first_part ∷ []) ≡ err (unexpected_fragment 1 2 0 2)
unfolding put_together put_together_rest new_fragment_collector unmarshal_fragment complete add
repeated_example = refl

put_together-frames-whole_example :
    (fs : List Bytes) × (frames message 23 ≡ ok fs)
    × (put_together fs ≡ ok (some message))
    × All (λ f. length f ≤ 23) fs
put_together-frames-whole_example =
    put_together-frames-whole 3 7 (omega arith) (omega arith) refl (1 ∷ 2 ∷ 3 ∷ 4 ∷ 5 ∷ [])
      (omega arith) 23 (omega arith)

-- The slot is switched, and no request for the state is answered.
abbrev silent_modem : Modem (Unit {0})
silent_modem = record {
  proxy_config = λ txn device w. (ok tt, w);
  open_device = λ txn w. (ok tt, w);
  slot_mappings = λ txn w. (ok (1 ∷ []), w);
  map_slot = λ txn slot w. (ok tt, w);
  ready_state = λ txn w. (err end_of_file, w);
  open_channel = λ txn aid w. (ok (0, 1), w);
  transmit = λ txn channel command w. (ok ([], 0x90), w);
  close_channel = λ txn channel w. (ok 0, w);
  close_device = λ txn w. (ok tt, w);
  close = λ w. (none, w);
}

abbrev new_session : Session (Unit {0})
new_session = record { device = []; slot = 0; txn_id = 4294967290; channel = 0; world = tt }

-- The same, with an account of what the modem was asked.
abbrev accounted_session : Session (Account (Unit {0}))
accounted_session = record {
  device = [];
  slot = 0;
  txn_id = 4294967290;
  channel = 0;
  world = (tt, []);
}

connect-bounded_example :
    Connected silent_modem accounted_session (connect (recorded silent_modem) accounted_session)
connect-bounded_example = connect-bounded silent_modem accounted_session

transmit_run :
    transmit silent_modem [] new_session
    ≡ (ok (0x90 ∷ 0 ∷ []), record new_session { txn_id = 4294967291 })
unfolding transmit uicc_status_word
transmit_run = refl
