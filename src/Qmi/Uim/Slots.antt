-- ===== src/Qmi/Uim/Slots.antt =====
-- The status of the slots read from its encoding (driver/qmi/uim/messages.go).
use euicc_go.Prelude.{
  ℕ, suc, ◌+◌, ◌*◌, ◌/◌, ◌%◌, ◌^◌, ◌<◌, ◌≡◌, ◌≢◌, refl, true, ◌⊎◌, inl, inr, Bool-cases, some, List,
  [], ◌∷◌, ◌++◌, Bytes, length, length-append_bytes, get_elem?, drop, take-length_append,
  drop-length_append, All, leb, ◌==◌, arith,
}
use euicc_go.Prelude.Action.{ok}
use euicc_go.Qmi.Tlvs.{QmiTlv, find_tlv}
use euicc_go.Qmi.Uim.{
  Slot, read_uint8, read_uint16, read_uint32, read_uint8_array, read_slot, read_slots, activated,
  unmarshal_slot_status,
}

abbrev pub word_bytes : ℕ → Bytes → Bytes
word_bytes n s = n % 256 ∷ n / 256 % 256 ∷ n / 65536 % 256 ∷ n / 16777216 % 256 ∷ s

-- A slot and what follows.
abbrev pub slot_bytes : Slot → Bytes → Bytes
slot_bytes x s =
    word_bytes x.card_state
      (word_bytes x.slot_state (x.logical_slot ∷ length x.iccid ∷ (x.iccid ++ s)))

abbrev pub slots_bytes : List Slot → Bytes → Bytes
slots_bytes [] s = s
slots_bytes (x ∷ xs) s = slot_bytes x (slots_bytes xs s)

abbrev pub IsSlot : Slot → Type 0
IsSlot x = (x.card_state < 2 ^ 32) × (x.slot_state < 2 ^ 32)

-- The number of the last slot that is active, or the given one if none is.
abbrev pub IsLastActive : ℕ → ℕ → List Slot → ℕ → Type 0
IsLastActive i old xs n =
    ((n ≡ old) × All (λ x. x.slot_state ≢ 1) xs)
    ⊎ ((j : ℕ) × (x : Slot) × (get_elem? xs j ≡ some x)
        × (x.slot_state ≡ 1)
        × (n ≡ i + j + 1)
        × All (λ y. y.slot_state ≢ 1) (drop (suc j) xs))

read_uint32-word : (n : ℕ) (s : Bytes) → n < 2 ^ 32 → read_uint32 (word_bytes n s) ≡ (ok n, s)
unfolding read_uint32 read_uint16 read_uint8
read_uint32-word n s h =
    let e : n % 256 + n / 256 % 256 * 256 + (n / 65536 % 256 + n / 16777216 % 256 * 256) * 65536
        ≡ n =
      omega arith in
    rw e refl

read_slot_lem : (x : Slot) (s : Bytes) → IsSlot x → read_slot (slot_bytes x s) ≡ (ok x, s)
unfolding read_slot read_uint8 read_uint8_array
read_slot_lem x s (h, h') =
    let fits : leb (length x.iccid) (length (x.iccid ++ s)) ≡ true =
      ground (arith, length-append_bytes x.iccid s) in
    rw
      (
        read_uint32-word x.card_state _ h,
        read_uint32-word x.slot_state _ h',
        fits,
        take-length_append x.iccid s,
        drop-length_append x.iccid s,
      )
      refl

IsLastActive-step :
    (i old n : ℕ) (x : Slot) (xs : List Slot)
    → i + 1 < 256
    → IsLastActive (i + 1) (activated i old x) xs n
    → IsLastActive i old (x ∷ xs) n
IsLastActive-step i old n x xs h (inr (j, y, e, a, e', later)) =
    inr (suc j, y, e, a, omega (arith, e'), later)
IsLastActive-step i old n x xs h (inl (e, none_active)) = elim (Bool-cases (x.slot_state == 1)) [
  | inl b ↦ inr (0, x, refl, ground arith, (let e' = rw b at e in omega (arith, e')), none_active)
  | inr b ↦ inl (rw b at e, (ground arith, none_active))
]

read_slots_lem :
    (xs : List Slot) (i old : ℕ) (s : Bytes)
    → All IsSlot xs
    → i + length xs < 256
    → (n : ℕ) × (read_slots (length xs) i old (slots_bytes xs s)
        ≡ (ok (record { slots = xs; activated_slot = n }), s))
      × IsLastActive i old xs n
unfolding read_slots
read_slots_lem [] i old s h short = (old, refl, inl (refl, tt))
read_slots_lem (x ∷ xs) i old s (h, hs) short =
    let (n, e, last) = read_slots_lem xs (i + 1) (activated i old x) s hs (omega arith) in
    (
      n,
      rw (read_slot_lem x (slots_bytes xs s) h, e) refl,
      IsLastActive-step i old n x xs (omega arith) last,
    )

-- At most 255 slots, encoded in a TLV of type 0x10 with anything behind them: the response has the slots, and
-- the activated slot is the number of the last one that is active, counted from 1, or 0 if none is.
pub unmarshal_slot_status_lem :
    (ts : List QmiTlv) (tlv : QmiTlv) (xs : List Slot) (s : Bytes)
    → find_tlv ts 0x10 ≡ some tlv
    → tlv.value ≡ length xs ∷ slots_bytes xs s
    → All IsSlot xs
    → length xs < 256
    → (n : ℕ) × (unmarshal_slot_status ts ≡ ok (record { slots = xs; activated_slot = n }))
      × IsLastActive 0 0 xs n
unfolding unmarshal_slot_status read_uint8
unmarshal_slot_status_lem ts tlv xs s found value h short =
    let (n, e, last) = read_slots_lem xs 0 0 s h (omega arith) in
    (n, rw (found, unmarshal_slot_status, value, e) refl, last)
