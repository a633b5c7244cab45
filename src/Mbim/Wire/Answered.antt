-- ===== src/Mbim/Wire/Answered.antt =====
-- The answer to a command, read among everything else that comes in (driver/mbim/types.go:
-- `Request.ReadFrom`).
use euicc_go.Prelude.{
  length-append_bytes, drop, ℕ, zero, suc, ◌+◌, ◌^◌, ◌≤◌, ◌<◌, ◌≡◌, ◌∙◌, refl, sym, ap, true, false,
  none, some, Option, List, ◌∷◌, ◌++◌, Bytes, length, inl, inr, Bool-cases, arith,
}
use euicc_go.Mbim.Words.{Checked, ok, err, panic, ◌>>=◌}
use euicc_go.Mbim.Words.{put_uint32}
use euicc_go.Mbim.Fragment.{
  frames, FragmentError, Collector, add, complete, marshal_collected, new_fragment_collector,
}
use euicc_go.Mbim.Fragment.Receive.{
  collected, put_together, put_together_rest, is_first_of_several, Answer,
}
use euicc_go.Mbim.Message.{Request, CommandResponse, decoded, MessageError, unmarshal_response}
use euicc_go.Mbim.Message.Done.{command_done, unmarshal_response-command_done}
use euicc_go.Mbim.Message.Whole.{message-header}
use euicc_go.Mbim.Fragment.Whole.{put_together-frames-whole}
use euicc_go.Mbim.Wire.{
  Arrival, Outcome, message, with_error, answered, assembled, fragment_arrived, read_loop,
  read_from,
}
use euicc_go.Mbim.Wire.Traffic.{
  Traffic, done, idle, other, ours, read_loop-idle, read_loop-frame, frame_arrived-other,
  frame_arrived-ours,
}

-- Where a chain succeeds, its first step does.
module _ {E B C : Type 0} where
  first_ok :
      (x : Checked E B) (f : B → Checked E C) (c : C)
      → (x >>= f) ≡ ok c
      → (b : B) × (x ≡ ok b) × (f b ≡ ok c)
  first_ok (ok b) f c h = (b, refl, h)
  first_ok (err e) f c h = absurd cc
  first_ok panic f c h = absurd cc

ok_injective : {E B : Type 0} (a b : B) → ◌≡◌ {A = Checked E B} (ok a) (ok b) → a ≡ b
ok_injective a b p = cc

some_injective :
    {B : Type 0} (a b : B)
    → ◌≡◌ {A = Checked FragmentError (Option B)} (ok (some a)) (ok (some b))
    → a ≡ b
some_injective a b p = cc

module _ {A : Type 0} (r : Request A) where
  -- What the loop does with a collector follows what `put_together` says of the frames, if it goes on so.
  assembled-collected :
      (c : Collector) (answer : Answer) (go_on : Option Collector → Outcome A) (m : Bytes)
      → (answer ≡ ok (some m) → go_on (some c) ≡ answered r m)
      → collected c answer ≡ ok (some m)
      → assembled r c go_on ≡ answered r m
  assembled-collected c answer go_on m later h = elim (Bool-cases (complete c)) [
    | inl e ↦
        let h' = rw e at h in
        let (m', marshalled, same) = first_ok (marshal_collected c) _ (some m) h' in
        rw (e, marshalled) (ap (answered r) (some_injective m' m same))
    | inr e ↦ let h' = rw e at h in rw e (later h')
  ]

  fragment_arrived-more :
      (c : Collector) (f : Bytes) (fs : List Bytes) (go_on : Option Collector → Outcome A)
      (m : Bytes)
      → ((c' : Collector) → put_together_rest c' fs ≡ ok (some m) → go_on (some c') ≡ answered r m)
      → put_together_rest c (f ∷ fs) ≡ ok (some m)
      → fragment_arrived r (some c) go_on f ≡ answered r m
  unfolding fragment_arrived put_together_rest
  fragment_arrived-more c f fs go_on m later h =
      let (c', added, rest) = first_ok (add c f) _ (some m) h in
      rw added (assembled-collected c' (put_together_rest c' fs) go_on m (later c') rest)

  fragment_arrived-first :
      (f : Bytes) (fs : List Bytes) (go_on : Option Collector → Outcome A) (m : Bytes)
      → ((c : Collector) → put_together_rest c fs ≡ ok (some m) → go_on (some c) ≡ answered r m)
      → put_together (f ∷ fs) ≡ ok (some m)
      → fragment_arrived r none go_on f ≡ answered r m
  unfolding fragment_arrived put_together
  fragment_arrived-first f fs go_on m later h =
      let (several, e, h') = first_ok (is_first_of_several f) _ (some m) h in
      elim (Bool-cases several) [
        | inl yes_several ↦
            let several_frames : is_first_of_several f ≡ ok true = e ∙ ap ok yes_several in
            let started = rw yes_several at h' in
            let (c, collects, rest) = first_ok (new_fragment_collector f) _ (some m) started in
            rw (several_frames, collects)
              (assembled-collected c (put_together_rest c fs) go_on m (later c) rest)
        | inr one ↦
            let one_frame : is_first_of_several f ≡ ok false = e ∙ ap ok one in
            let same = rw one at h' in rw one_frame (ap (answered r) (some_injective f m same))
      ]

module _ {A : Type 0} (r : Request A) (waits : r.message_type ≡ 3)
    (set_read_deadline : List Arrival → Option ℕ)
    (deadlines : (conn : List Arrival) → set_read_deadline conn ≡ none) (m : Bytes) where
  read_loop-rest :
      {fs : List Bytes} {n : ℕ} {conn : List Arrival}
      → Traffic r.transaction_id fs n conn
      → (c : Collector) → put_together_rest c fs ≡ ok (some m)
      → (passes : ℕ) → n ≤ passes
      → read_loop r set_read_deadline passes (some c) conn ≡ answered r m
  unfolding put_together_rest
  read_loop-rest done c h passes l = absurd cc
  read_loop-rest (idle t) c h zero l = absurd (omega arith)
  read_loop-rest (idle t) c h (suc passes) l =
      read_loop-idle r set_read_deadline deadlines passes (some c) _
      ∙ read_loop-rest t c h passes (omega arith)
  read_loop-rest (other f is_other t) c h zero l = absurd (omega arith)
  read_loop-rest (other f is_other t) c h (suc passes) l =
      let (x, y, is_frame, _) = is_other in
      read_loop-frame r set_read_deadline deadlines x y passes (some c) f _ is_frame
      ∙ frame_arrived-other r waits _ (some c) f is_other
      ∙ read_loop-rest t c h passes (omega arith)
  read_loop-rest (ours f is_frame t) c h zero l = absurd (omega arith)
  read_loop-rest (ours {fs = fs} f is_frame t) c h (suc passes) l =
      read_loop-frame r set_read_deadline deadlines 0x80000003 r.transaction_id passes (some c) f _
        is_frame
      ∙ frame_arrived-ours r waits _ (some c) f is_frame
      ∙ fragment_arrived-more r c f fs _ m (λ c' h'. read_loop-rest t c' h' passes (omega arith)) h

  -- Whatever comes between the frames of an answer, what is read is the message that `put_together` puts
  -- together of them.
  pub read_from-put_together :
      {fs : List Bytes} {n : ℕ} {conn : List Arrival}
      → Traffic r.transaction_id fs n conn
      → put_together fs ≡ ok (some m)
      → (passes : ℕ) → n ≤ passes
      → read_from r set_read_deadline passes conn ≡ answered r m
  unfolding put_together read_from
  read_from-put_together done h passes l = absurd cc
  read_from-put_together (idle t) h zero l = absurd (omega arith)
  read_from-put_together (idle t) h (suc passes) l =
      read_loop-idle r set_read_deadline deadlines passes none _
      ∙ read_from-put_together t h passes (omega arith)
  read_from-put_together (other f is_other t) h zero l = absurd (omega arith)
  read_from-put_together (other f is_other t) h (suc passes) l =
      let (x, y, is_frame, _) = is_other in
      read_loop-frame r set_read_deadline deadlines x y passes none f _ is_frame
      ∙ frame_arrived-other r waits _ none f is_other
      ∙ read_from-put_together t h passes (omega arith)
  read_from-put_together (ours f is_frame t) h zero l = absurd (omega arith)
  read_from-put_together (ours {fs = fs} f is_frame t) h (suc passes) l =
      read_loop-frame r set_read_deadline deadlines 0x80000003 r.transaction_id passes none f _
        is_frame
      ∙ frame_arrived-ours r waits _ none f is_frame
      ∙ fragment_arrived-first r f fs _ m (λ c h'. read_loop-rest t c h' passes (omega arith)) h

module _ {A : Type 0} (r : Request A) where
  -- What a decoded buffer becomes for the caller, with the length of a message.
  abbrev pub delivered : ℕ → Checked MessageError (Option A) → Outcome A
  delivered n x = do a ← with_error message x; ok (a, n)

  answered-decoded :
      (s : Bytes) (x : Checked MessageError (Option A)) (f : Option A → CommandResponse A)
      → ((a : Option A) → (f a).response ≡ a)
      → unmarshal_response r.response s ≡ (x >>= λ a. ok (f a))
      → answered r s ≡ delivered (length s) x
  unfolding answered
  answered-decoded s (ok a) f same e = rw (e, same a)
  answered-decoded s (err x) f same e = rw e
  answered-decoded s panic f same e = rw e

module _ {A : Type 0} (r : Request A) (waits : r.message_type ≡ 3)
    (transaction_id_short : r.transaction_id < 2 ^ 32) (set_read_deadline : List Arrival → Option ℕ)
    (deadlines : (conn : List Arrival) → set_read_deadline conn ≡ none) (service_id : Bytes)
    (service_id_long : length service_id ≡ 16) (command_id : ℕ)
    (command_id_short : command_id < 2 ^ 32) (buffer : Bytes)
    (short : 48 + length buffer < 2 ^ 32) where
  abbrev pub answer : Bytes
  answer = command_done r.transaction_id service_id command_id buffer

  abbrev rest : Bytes
  rest = drop 20 answer

  length-rest : length rest ≡ 28 + length buffer
  length-rest = omega (
    arith,
    length-append_bytes service_id
        (put_uint32 command_id ++ (put_uint32 0 ++ (put_uint32 (length buffer) ++ buffer))),
    service_id_long,
  )

  length-answer : length answer ≡ 48 + length buffer
  length-answer = omega (arith, length-rest)

  answered-command_done :
      answered r answer ≡ delivered r (48 + length buffer) (decoded r.response buffer)
  answered-command_done =
      answered-decoded r answer (decoded r.response buffer) _ (λ a. refl)
        (unmarshal_response-command_done r.response r.transaction_id command_id buffer
          transaction_id_short command_id_short short service_id service_id_long)
      ∙ ap (λ n. delivered r n (decoded r.response buffer)) length-answer

  -- The answer that a command of the same transaction was done, cut into frames by a size above 20 and
  -- read with silences, frames of other transactions and frames of other types between them, each
  -- frame of at most 4096 bytes, in time for as many passes of the loop: ReadFrom returns what the buffer is
  -- decoded to and the message's length, or the decoder's error or panic.
  pub read_from-command_done :
      (max : ℕ) (fs : List Bytes)
      → 20 < max
      → frames answer max ≡ ok fs
      → (n : ℕ) (conn : List Arrival) → Traffic r.transaction_id fs n conn
      → (passes : ℕ) → n ≤ passes
      → read_from r set_read_deadline passes conn
        ≡ delivered r (48 + length buffer) (decoded r.response buffer)
  read_from-command_done max fs h cut n conn t passes enough =
      let whole = message-header 0x80000003 r.transaction_id rest in
      let (gs, cut', together, sizes) =
        put_together-frames-whole 0x80000003 r.transaction_id (omega arith) transaction_id_short
          refl rest (omega (arith, length-rest)) max h in
      let same : gs ≡ fs =
        ok_injective gs fs (sym cut' ∙ sym (ap (λ s. frames s max) whole) ∙ cut) in
      read_from-put_together r waits set_read_deadline deadlines answer t
        (ap put_together (sym same) ∙ together ∙ ap (λ s. ok (some s)) (sym whole)) passes enough
      ∙ answered-command_done
