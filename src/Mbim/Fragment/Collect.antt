-- ===== src/Mbim/Fragment/Collect.antt =====
-- The frames behind the first, collected (driver/mbim/fragment.go: `add`, `complete`,
-- `MarshalBinary`; driver/mbim/types.go: `ReadFrom`).
use euicc_go.Prelude.{
  ℕ, zero, suc, ◌+◌, ◌-◌, ◌*◌, ◌%◌, ◌^◌, min, ◌≤◌, ◌<◌, ◌≡◌, refl, sym, ap, ◌∙◌, true, false, some,
  List, [], ◌∷◌, ◌++◌, append_assoc, append-nil, Bytes, length, take, drop, ltb, ◌==◌, le→ltb,
  arith, length-take, length-drop, take-append-drop, length-append_bytes, take-length_append,
}
use euicc_go.Mbim.Words.{ok}
use euicc_go.Mbim.Fragment.{
  Collector, header, frames_loop, is_fragment_message, add, complete, marshal_collected,
}
use euicc_go.Mbim.Fragment.Frame.{unmarshal_fragment-header}
use euicc_go.Mbim.Fragment.Receive.{Answer, collected, put_together_rest}

take_all : (payload : Bytes) → take (length payload) payload ≡ payload
take_all payload =
    ap (take (length payload)) (sym (append-nil payload)) ∙ take-length_append payload []

take_le : (size : ℕ) (bs : Bytes) → length bs ≤ size → take size bs ≡ bs
take_le zero [] h = refl
take_le zero (b ∷ bs) h = absurd (omega arith)
take_le (suc size) [] h = refl
take_le (suc size) (b ∷ bs) h = rw (take_le size bs (omega arith))

pub min-length : (size : ℕ) (bs : Bytes) → min size (length bs) ≡ length (take size bs)
min-length size bs = sym (length-take size bs)

pub short_part :
    (before : Bytes) (size : ℕ) (bs : Bytes)
    → 20 + length (before ++ bs) < 2 ^ 32
    → 20 + length (take size bs) < 2 ^ 32
short_part before size bs h = omega (arith, length-append_bytes before bs, length-take size bs)

pub rejoined :
    (before : Bytes) (size : ℕ) (bs : Bytes)
    → (before ++ take size bs) ++ drop size bs ≡ before ++ bs
rejoined before size bs =
    rw (append_assoc before (take size bs) (drop size bs), take-append-drop size bs)

module _ (message_type transaction_id : ℕ) (message_type_short : message_type < 2 ^ 32)
    (transaction_id_short : transaction_id < 2 ^ 32)
    (fragments : is_fragment_message message_type ≡ true) where
  abbrev pub message : Bytes → Bytes
  message payload = header message_type (20 + length payload) transaction_id 1 0 ++ payload

  abbrev pub collector : ℕ → ℕ → Bytes → Collector
  collector total current payload = record {
    message_type = message_type;
    transaction_id = transaction_id;
    total = total;
    current = current;
    payload = payload;
  }

  marshal_collected-last :
      (k : ℕ) (payload : Bytes)
      → suc k < 2 ^ 32
      → 20 + length payload < 2 ^ 32
      → marshal_collected (collector (suc k) k payload) ≡ ok (message payload)
  unfolding marshal_collected complete
  marshal_collected-last k payload hk h =
      let c : (k == ((suc k + 4294967295) % 4294967296)) ≡ true = ground arith in
      let l : (20 + length payload) % 4294967296 ≡ 20 + length payload = omega arith in
      let t : ltb (20 + length payload) 20 ≡ false = le→ltb _ _ (omega arith) in
      let d : 20 + length payload - 20 ≡ length payload = omega arith in
      rw (c, l, t, d, take_all payload)

  add-frame :
      (total k : ℕ) (before p : Bytes)
      → total < 2 ^ 32
      → k + 1 < total
      → 20 + length p < 2 ^ 32
      → add
          (collector total k before)
          (header message_type (20 + length p) transaction_id total (k + 1) ++ p)
        ≡ ok (collector total (k + 1) (before ++ p))
  unfolding add
  add-frame total k before p ht hk h =
      let m : (message_type == message_type) ≡ true = ground arith in
      let t : (transaction_id == transaction_id) ≡ true = ground arith in
      let n : (total == total) ≡ true = ground arith in
      let c : ((k + 1) == ((k + 1) % 4294967296)) ≡ true = ground arith in
      rw (
        unmarshal_fragment-header message_type transaction_id total (k + 1) p message_type_short
            transaction_id_short ht hk h fragments,
        m,
        t,
        c,
        n,
      )

  put_together_rest-add :
      (total k : ℕ) (before p : Bytes) (bufs : List Bytes)
      → total < 2 ^ 32
      → k + 1 < total
      → 20 + length p < 2 ^ 32
      → put_together_rest
          (collector total k before)
          ((header message_type (20 + length p) transaction_id total (k + 1) ++ p) ∷ bufs)
        ≡ collected
            (collector total (k + 1) (before ++ p))
            (put_together_rest (collector total (k + 1) (before ++ p)) bufs)
  unfolding put_together_rest
  put_together_rest-add total k before p bufs ht hk h = rw (add-frame total k before p ht hk h)

  collected-last :
      (total k : ℕ) (payload : Bytes) (go_on : Answer)
      → total ≡ suc k
      → total < 2 ^ 32
      → 20 + length payload < 2 ^ 32
      → collected (collector total k payload) go_on ≡ ok (some (message payload))
  unfolding complete
  collected-last total k payload go_on e hk h =
      let c : (k == ((suc k + 4294967295) % 4294967296)) ≡ true = ground arith in
      rw (e, c, marshal_collected-last k payload (omega arith) h)

  pub collected-more :
      (total k : ℕ) (payload : Bytes) (go_on : Answer)
      → suc k < total
      → total < 2 ^ 32
      → collected (collector total k payload) go_on ≡ go_on
  unfolding complete
  collected-more total k payload go_on h ht =
      let c : (k == ((total + 4294967295) % 4294967296)) ≡ false = ground arith in rw c

  pub put_together_rest-frames :
      (fuel size total k q : ℕ) (before bs : Bytes)
      → total ≡ k + 2 + q
      → total < 2 ^ 32
      → length bs ≤ fuel
      → q * size < length bs
      → length bs ≤ q * size + size
      → 20 + length (before ++ bs) < 2 ^ 32
      → put_together_rest
          (collector total k before)
          (frames_loop fuel message_type transaction_id total size (k + 1) bs)
        ≡ ok (some (message (before ++ bs)))
  unfolding frames_loop
  put_together_rest-frames fuel size total k q before [] e ht hf h h' hl = absurd (omega arith)
  put_together_rest-frames zero size total k q before (b ∷ bs) e ht hf h h' hl =
      absurd (omega arith)
  put_together_rest-frames (suc fuel) size total k zero before (b ∷ bs) e ht hf h h' hl =
      let short : 20 + length (take size (b ∷ bs)) < 4294967296 =
        short_part before size (b ∷ bs) hl in
      let more =
        frames_loop fuel message_type transaction_id total size (k + 1 + 1) (drop size (b ∷ bs)) in
      let whole : take size (b ∷ bs) ≡ b ∷ bs = take_le size (b ∷ bs) (omega arith) in
      rw (min-length size (b ∷ bs)) (
        put_together_rest-add total k before (take size (b ∷ bs)) more ht (omega arith) short
        ∙ rw whole (collected-last total (k + 1) (before ++ b ∷ bs) _ (omega arith) ht hl))
  put_together_rest-frames (suc fuel) size total k (suc q) before (b ∷ bs) e ht hf h h' hl =
      let short : 20 + length (take size (b ∷ bs)) < 4294967296 =
        short_part before size (b ∷ bs) hl in
      let l : length (drop size (b ∷ bs)) ≡ suc (length bs) - size = length-drop size (b ∷ bs) in
      let m : suc q * size ≡ q * size + size = omega arith in
      rw (min-length size (b ∷ bs)) (
        put_together_rest-add total k before (take size (b ∷ bs)) _ ht (omega arith) short
        ∙ collected-more total (k + 1) (before ++ take size (b ∷ bs)) _ (omega arith) ht
        ∙ put_together_rest-frames fuel size total (k + 1) q (before ++ take size (b ∷ bs))
            (drop size (b ∷ bs)) (omega arith) ht (omega arith) (omega arith) (omega arith)
            (rw (rejoined before size (b ∷ bs)) hl)
        ∙ ap (λ s. ok (some (message s))) (rejoined before size (b ∷ bs)))
