-- ===== src/Mbim/Protocol/Slots.antt =====
-- Slot mappings written by the request and read back by the response (driver/mbim/protocol.go).
use euicc_go.Prelude.{
  ℕ, zero, suc, ◌+◌, ◌-◌, ◌*◌, ◌/◌, ◌%◌, ◌^◌, ◌<◌, ◌≡◌, refl, ap, sym, ◌∙◌, true, false, List, [],
  ◌∷◌, ◌++◌, append_assoc, Bytes, length, length-append_bytes, ltb, ◌==◌, All, arith,
}
use euicc_go.Mbim.Words.{ok, byte_at, uint32_at, put_uint32, put_uint32_lem}
use euicc_go.Mbim.Message.{MessageError}
use euicc_go.Mbim.Protocol.{
  slot_table, slot_words, slot_mappings_data, read_slots, unmarshal_slot_mappings,
}

byte_at-append :
    (front back : Bytes) (k : ℕ)
    → byte_at {E = MessageError} (front ++ back) (length front + k) ≡ byte_at back k
byte_at-append [] back k = let e : 0 + k ≡ k = omega arith in rw e refl
byte_at-append (b ∷ front) back k =
    let e : suc (length front) + k ≡ suc (length front + k) = omega arith in
    rw e (byte_at-append front back k)

-- A word that is written is read where it stands.
uint32_at-put :
    (front back s : Bytes) (n k : ℕ)
    → n < 2 ^ 32
    → s ≡ front ++ (put_uint32 n ++ back)
    → length front ≡ k
    → uint32_at {E = MessageError} s k ≡ ok n
uint32_at-put front back s n k h e e' =
    let start : length front + 0 ≡ k = omega (arith, e') in
    let b₀ = rw start at (byte_at-append front (put_uint32 n ++ back) 0) in
    let b₁ = rw e' at (byte_at-append front (put_uint32 n ++ back) 1) in
    let b₂ = rw e' at (byte_at-append front (put_uint32 n ++ back) 2) in
    let b₃ = rw e' at (byte_at-append front (put_uint32 n ++ back) 3) in
    rw (e, b₀, b₁, b₂, b₃) (ap ok (put_uint32_lem n h))

abbrev Short : ℕ → Type 0
Short n = n < 2 ^ 32

read_slots-table :
    (slots : List ℕ) (s front mid : Bytes) (d i : ℕ)
    → All Short slots
    → s ≡ front ++ (slot_table d i (length slots) ++ (mid ++ slot_words slots))
    → length front ≡ 4 + i * 8
    → length front + (length (slot_table d i (length slots)) + length mid) ≡ d + i * 4
    → length s < 2 ^ 32
    → read_slots s i (length slots) ≡ ok slots
unfolding read_slots slot_table
read_slots-table [] s front mid d i short e at_entry at_word h = refl
read_slots-table (slot ∷ slots) s front mid d i (slot_short, short) e at_entry at_word h =
    let offset = d + i * 4 in
    let table = slot_table d (i + 1) (length slots) in
    let words = slot_words slots in
    let behind = table ++ (mid ++ (put_uint32 slot ++ words)) in
    let next = front ++ (put_uint32 offset ++ put_uint32 4) in
    let size_at : s ≡ (front ++ put_uint32 offset) ++ (put_uint32 4 ++ behind) =
      e ∙ sym (append_assoc front (put_uint32 offset) (put_uint32 4 ++ behind)) in
    let split : s ≡ next ++ behind =
      e ∙ sym (append_assoc front (put_uint32 offset ++ put_uint32 4) behind) in
    let word_at : s ≡ (next ++ (table ++ mid)) ++ (put_uint32 slot ++ words) =
      split
      ∙ ap (λ t. next ++ t) (sym (append_assoc table mid (put_uint32 slot ++ words)))
      ∙ sym (append_assoc next (table ++ mid) (put_uint32 slot ++ words)) in
    let moved : s ≡ next ++ (table ++ ((mid ++ put_uint32 slot) ++ words)) =
      split ∙ ap (λ t. next ++ (table ++ t)) (sym (append_assoc mid (put_uint32 slot) words)) in
    let front_size : length (front ++ put_uint32 offset) ≡ length front + 4 =
      length-append_bytes front _ in
    let next_size : length next ≡ length front + 8 = length-append_bytes front _ in
    let mid_size : length (mid ++ put_uint32 slot) ≡ length mid + 4 = length-append_bytes mid _ in
    let table_size = length-append_bytes table mid in
    let before = length-append_bytes next (table ++ mid) in
    let total : length s ≡ length (next ++ (table ++ mid)) + length (put_uint32 slot ++ words) =
      ap length word_at ∙ length-append_bytes (next ++ (table ++ mid)) (put_uint32 slot ++ words) in
    let word_is_at : length (next ++ (table ++ mid)) ≡ offset = omega arith in
    let small : Short offset = omega arith in
    let entry : (4 + i * 8) % 2 ^ 32 ≡ 4 + i * 8 = omega arith in
    let enough : ltb (length s % 2 ^ 32) offset ≡ false = ground arith in
    let room : ltb (length s % 2 ^ 32 - offset) 4 ≡ false = ground arith in
    rw (
      entry,
      uint32_at-put front (put_uint32 4 ++ behind) s offset (4 + i * 8) small e at_entry,
      uint32_at-put (front ++ put_uint32 offset) behind s 4 (4 + i * 8 + 4) (omega arith) size_at
          (omega arith),
      enough,
      room,
      uint32_at-put (next ++ (table ++ mid)) words s slot offset slot_short word_at word_is_at,
      read_slots-table slots s next (mid ++ put_uint32 slot) d (i + 1) short moved (omega arith)
          (omega arith) h,
    )

length-slot_table : (d i n : ℕ) → length (slot_table d i n) ≡ 8 * n
unfolding slot_table
length-slot_table d i zero = refl
length-slot_table d i (suc n) = omega (arith, length-slot_table d (i + 1) n)

length-slot_words : (slots : List ℕ) → length (slot_words slots) ≡ 4 * length slots
length-slot_words [] = refl
length-slot_words (slot ∷ slots) = omega (arith, length-slot_words slots)

-- The mappings of slots below 2^32, counted by MapCount and less than 2^32 bytes in all, are read back
-- from the bytes that DeviceSlotMappingsRequest writes for them, none included.
pub unmarshal_slot_mappings-slot_mappings_data :
    (slots : List ℕ)
    → All (λ slot. slot < 2 ^ 32) slots
    → 4 + 12 * length slots < 2 ^ 32
    → unmarshal_slot_mappings (slot_mappings_data (length slots) slots) ≡ ok slots
unfolding unmarshal_slot_mappings slot_mappings_data
unmarshal_slot_mappings-slot_mappings_data [] short h = refl
unmarshal_slot_mappings-slot_mappings_data (slot ∷ slots) short h =
    let n = suc (length slots) in
    let table = slot_table (4 + n * 8) 0 n in
    let words = slot_words (slot ∷ slots) in
    let s = put_uint32 n ++ (table ++ words) in
    let long : length s ≡ 4 + 12 * n = omega (
      arith,
      length-append_bytes table words,
      length-slot_table (4 + n * 8) 0 n,
      length-slot_words (slot ∷ slots),
    ) in
    let some_slots : ltb 0 n ≡ true = ground arith in
    let not_empty : (n == 0) ≡ false = ground arith in
    let least : ltb (length s) 4 ≡ false = ground arith in
    let counted : ltb ((length s - 4) / 8 % 2 ^ 32) n ≡ false = ground arith in
    let table_inside : ltb (length s) ((4 + n * 8) % 2 ^ 32) ≡ false = ground arith in
    rw (
      some_slots,
      least,
      put_uint32_lem n (omega arith),
      not_empty,
      counted,
      table_inside,
      read_slots-table (slot ∷ slots) s (put_uint32 n) [] (4 + n * 8) 0 short refl (omega arith)
          (omega (arith, length-slot_table (4 + n * 8) 0 n)) (omega arith),
    )
