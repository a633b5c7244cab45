-- ===== src/Mbim/Fragment/Whole.antt =====
-- A message cut into frames and put together again (driver/mbim/fragment.go).
use euicc_go.Prelude.{
  ℕ, zero, suc, ◌+◌, ◌-◌, ◌*◌, ◌/◌, ◌%◌, ◌^◌, ◌≤◌, ◌<◌, ◌≡◌, refl, sym, ap, ◌∙◌, true, false, some,
  List, [], ◌∷◌, ◌++◌, Bytes, length, take, drop, ltb, leb, ◌==◌, le→ltb, lt→ltb, arith,
  length-take, length-drop, take-append-drop, All, leb→le, Bool-cases, inl, inr,
}
use euicc_go.Mbim.Words.{ok, put_uint32_lem}
use euicc_go.Mbim.Fragment.{
  Collector, at_least_one, header, frames_loop, frames, is_fragment_message, new_fragment_collector,
}
use euicc_go.Mbim.Fragment.Frame.{unmarshal_fragment-header}
use euicc_go.Mbim.Fragment.Receive.{collected, put_together_rest, put_together}
use euicc_go.Mbim.Fragment.Collect.{
  collected-more, put_together_rest-frames, short_part, min-length,
}

multiple_grows : (q size : ℕ) → 0 < size → q ≤ q * size
multiple_grows zero size h = omega arith
multiple_grows (suc q) size h =
    let m : suc q * size ≡ q * size + size = omega arith in omega (arith, multiple_grows q size h)

-- The number of pieces of a size, for more bytes than one piece takes.
abbrev pieces : ℕ → ℕ → ℕ
pieces len size = (len + size - 1) / size

abbrev Counted : ℕ → ℕ → ℕ → Type 0
Counted len size t =
    (q : ℕ) × (t ≡ 2 + q) × (q * size < len - size) × (len - size ≤ q * size + size) × (t ≤ len)

module _ (len size : ℕ) (positive : 0 < size) (several : size < len) where
  pieces_lem : (t : ℕ) → t ≡ pieces len size → Counted len size t
  pieces_lem t e =
      let p : t * size ≡ (len + size - 1) / size * size = ap (λ c. c * size) e in counted t p
    where
      counted : (t : ℕ) → t * size ≡ (len + size - 1) / size * size → Counted len size t
      counted zero p = absurd (omega arith)
      counted (suc zero) p = absurd (omega arith)
      counted (suc (suc q)) p =
          let m : suc (suc q) * size ≡ q * size + size + size = omega arith in
          (q, omega arith, omega arith, omega arith, omega (arith, multiple_grows q size positive))

at_least_one_lem : (t q : ℕ) → t ≡ 2 + q → at_least_one t ≡ t
at_least_one_lem zero q e = absurd (omega arith)
at_least_one_lem (suc t) q e = refl

frames_loop-All :
    (max fuel message_type transaction_id total size current : ℕ) (bs : Bytes)
    → 20 + size ≤ max
    → All (λ f. length f ≤ max) (frames_loop fuel message_type transaction_id total size current bs)
unfolding frames_loop
frames_loop-All max fuel message_type transaction_id total size current [] room = tt
frames_loop-All max zero message_type transaction_id total size current (b ∷ bs) room = tt
frames_loop-All max (suc fuel) message_type transaction_id total size current (b ∷ bs) room = (
  omega (arith, length-take size (b ∷ bs)),
  frames_loop-All max fuel message_type transaction_id total size (current + 1) (drop size (b ∷ bs))
      room,
)

module _ (message_type transaction_id : ℕ) (message_type_short : message_type < 2 ^ 32)
    (transaction_id_short : transaction_id < 2 ^ 32)
    (fragments : is_fragment_message message_type ≡ true) where
  first_frame :
      (total : ℕ) (p : Bytes) (bufs : List Bytes)
      → 1 < total
      → total < 2 ^ 32
      → 20 + length p < 2 ^ 32
      → let c : Collector = record {
        message_type = message_type;
        transaction_id = transaction_id;
        total = total;
        current = 0;
        payload = p;
      } in
        put_together ((header message_type (20 + length p) transaction_id total 0 ++ p) ∷ bufs)
        ≡ collected c (put_together_rest c bufs)
  unfolding put_together new_fragment_collector
  first_frame total p bufs h ht hp =
      let long : ltb (length (header message_type (20 + length p) transaction_id total 0 ++ p)) 20
          ≡ false =
        le→ltb _ _ (omega arith) in
      let several : ltb 1 total ≡ true = lt→ltb _ _ h in
      rw (
        long,
        put_uint32_lem total ht,
        several,
        unmarshal_fragment-header message_type transaction_id total 0 p message_type_short
            transaction_id_short ht (omega arith) hp fragments,
      )

  put_together-frames :
      (size total q : ℕ) (bs : Bytes)
      → total ≡ 2 + q
      → total < 2 ^ 32
      → q * size < length bs - size
      → length bs - size ≤ q * size + size
      → 20 + length bs < 2 ^ 32
      → put_together (frames_loop (length bs) message_type transaction_id total size 0 bs)
        ≡ ok (some (header message_type (20 + length bs) transaction_id 1 0 ++ bs))
  unfolding frames_loop
  put_together-frames size total q [] e ht h h' hl = absurd (omega arith)
  put_together-frames size total q (b ∷ bs) e ht h h' hl =
      let l : length (drop size (b ∷ bs)) ≡ suc (length bs) - size = length-drop size (b ∷ bs) in
      let short : 20 + length (take size (b ∷ bs)) < 4294967296 = short_part [] size (b ∷ bs) hl in
      rw (min-length size (b ∷ bs)) (
        first_frame total (take size (b ∷ bs)) _ (omega arith) ht short
        ∙ collected-more message_type transaction_id message_type_short transaction_id_short
            fragments total 0 (take size (b ∷ bs)) _ (omega arith) ht
        ∙ put_together_rest-frames message_type transaction_id message_type_short
            transaction_id_short fragments (length bs) size total 0 q (take size (b ∷ bs))
            (drop size (b ∷ bs)) (omega arith) ht (omega arith) (omega arith) (omega arith)
            (rw (take-append-drop size (b ∷ bs)) hl)
        ∙ rw (take-append-drop size (b ∷ bs)))

module _ (message_type transaction_id : ℕ) (message_type_short : message_type < 2 ^ 32)
    (transaction_id_short : transaction_id < 2 ^ 32)
    (fragments : is_fragment_message message_type ≡ true) (payload : Bytes)
    (payload_short : 20 + length payload < 2 ^ 32) where
  abbrev whole : Bytes
  whole = header message_type (20 + length payload) transaction_id 1 0 ++ payload

  put_together-one : put_together (whole ∷ []) ≡ ok (some whole)
  unfolding put_together
  put_together-one = let long : ltb (length whole) 20 ≡ false = le→ltb _ _ (omega arith) in rw long

  frames-one : (max : ℕ) → leb (length whole) max ≡ true → frames whole max ≡ ok (whole ∷ [])
  unfolding frames
  frames-one max h = rw h

  frames-cut :
      (max : ℕ)
      → 20 < max
      → max < 20 + length payload
      → frames whole max
        ≡ ok (
            frames_loop
              (length payload)
              message_type
              transaction_id
              (at_least_one (pieces (length payload) (max - 20)))
              (max - 20)
              0
              payload)
  unfolding frames
  frames-cut max h h' =
      let large : leb (length whole) max ≡ false = ground arith in
      let long : ltb (length whole) 20 ≡ false = le→ltb _ _ (omega arith) in
      let same : ((20 + length payload) == (length whole % 2 ^ 32)) ≡ true = ground arith in
      let enough : leb max 20 ≡ false = ground arith in
      rw (
        large,
        long,
        put_uint32_lem message_type message_type_short,
        fragments,
        put_uint32_lem (20 + length payload) payload_short,
        same,
        enough,
        put_uint32_lem transaction_id transaction_id_short,
      )

  several-whole :
      (max : ℕ)
      → 20 < max
      → max < 20 + length payload
      → (t : ℕ) → t ≡ pieces (length payload) (max - 20)
      → Counted (length payload) (max - 20) t
      → (fs : List Bytes) × (frames whole max ≡ ok fs)
        × (put_together fs ≡ ok (some whole))
        × All (λ f. length f ≤ max) fs
  several-whole max h h' t e (q, et, hq, hq', ht) = (
    frames_loop (length payload) message_type transaction_id t (max - 20) 0 payload,
    frames-cut max h h'
        ∙ ap
            (λ n.
              ok (frames_loop (length payload) message_type transaction_id n (max - 20) 0 payload))
            (sym (ap at_least_one e) ∙ at_least_one_lem t q et),
    put_together-frames message_type transaction_id message_type_short transaction_id_short
        fragments (max - 20) t q payload et (omega arith) hq hq' payload_short,
    frames_loop-All max (length payload) message_type transaction_id t (max - 20) 0 payload
        (omega arith),
  )

  -- A message of a type that is sent in fragments, itself one whole fragment of less than 2^32 bytes,
  -- is cut for every frame size above 20 without an error or panic into frames of at most that size;
  -- a collector that is made of the first frame and given the others in order marshals to the message as
  -- it was, and one frame alone is the message.
  pub put_together-frames-whole :
      (max : ℕ)
      → 20 < max
      → (fs : List Bytes) × (frames whole max ≡ ok fs)
        × (put_together fs ≡ ok (some whole))
        × All (λ f. length f ≤ max) fs
  put_together-frames-whole max h = elim (Bool-cases (leb (length whole) max)) [
    | inl fits ↦
        (whole ∷ [], frames-one max fits, put_together-one, (leb→le (length whole) max fits, tt))
    | inr large ↦
        let long : max < 20 + length payload = ground arith in
        several-whole max h long (pieces (length payload) (max - 20)) refl
          (pieces_lem (length payload) (max - 20) (omega arith) (omega arith) _ refl)
  ]
