-- ===== src/Mbim/Fragment/Safe.antt =====
-- Frames from outside never make the code panic (driver/mbim/fragment.go).
use euicc_go.Prelude.{
  ℕ, zero, suc, ◌+◌, ◌*◌, ◌%◌, ◌^◌, ◌≤◌, ◌<◌, ◌≡◌, ◌≢◌, refl, Bool, true, false, not, [], ◌∷◌,
  Bytes, length, ltb, leb, ◌==◌, arith,
}
use euicc_go.Mbim.Words.{Checked, ok, panic, ◌>>=◌, refuse_if, byte_at, uint32_at}
use euicc_go.Mbim.Fragment.{
  FragmentError, unmarshal_fragment, is_fragment_message, too_short, no_fragments, length_mismatch,
  invalid_total, invalid_fragment,
}

byte_at_inside :
    (s : Bytes) (k : ℕ) → k < length s → (b : ℕ) × (byte_at {E = FragmentError} s k ≡ ok b)
byte_at_inside [] k h = absurd (omega arith)
byte_at_inside (b ∷ s) zero h = (b, refl)
byte_at_inside (b ∷ s) (suc k) h = byte_at_inside s k (omega arith)

uint32_at_inside :
    (s : Bytes) (k : ℕ) → k + 3 < length s → (n : ℕ) × (uint32_at {E = FragmentError} s k ≡ ok n)
uint32_at_inside s k h =
    let (b₀, e₀) = byte_at_inside s k (omega arith) in
    let (b₁, e₁) = byte_at_inside s (k + 1) (omega arith) in
    let (b₂, e₂) = byte_at_inside s (k + 2) (omega arith) in
    let (b₃, e₃) = byte_at_inside s (k + 3) h in
    (b₀ + b₁ * 256 + b₂ * 65536 + b₃ * 16777216, rw (e₀, e₁, e₂, e₃))

-- A step that cannot panic, before one that cannot.
module _ {B : Type 0} where
  ok_safe : (b : B) → ◌≢◌ {A = Checked FragmentError B} (ok b) panic
  ok_safe b = λ p. absurd cc

  refuse_if_safe :
      (b : Bool) (e : FragmentError) (next : Unit {0} → Checked FragmentError B)
      → (b ≡ false → next tt ≢ panic)
      → (refuse_if b e >>= next) ≢ panic
  refuse_if_safe true e next h = λ p. absurd cc
  refuse_if_safe false e next h = h refl

  uint32_at_safe :
      (s : Bytes) (k : ℕ) (next : ℕ → Checked FragmentError B)
      → k + 3 < length s
      → ((n : ℕ) → next n ≢ panic)
      → (uint32_at s k >>= next) ≢ panic
  uint32_at_safe s k next h f = let (n, e) = uint32_at_inside s k h in rw e (f n)

-- Whatever the bytes of a frame, reading its fragment returns a fragment or an error: it does not
-- slice past the end.
pub unmarshal_fragment-ne-panic : (frame : Bytes) → unmarshal_fragment frame ≢ panic
unfolding unmarshal_fragment
unmarshal_fragment-ne-panic frame =
    refuse_if_safe (ltb (length frame) 20) (too_short (length frame)) _ λ long.
      let l : 20 ≤ length frame = ground arith in
      uint32_at_safe frame 0 _ (omega arith) λ message_type.
        refuse_if_safe (not (is_fragment_message message_type)) (no_fragments message_type) _ λ _.
          uint32_at_safe frame 4 _ (omega arith) λ len.
            refuse_if_safe (not (len == length frame % 2 ^ 32)) (length_mismatch len (length frame))
              _
              λ _. uint32_at_safe frame 8 _ (omega arith) λ transaction_id.
                uint32_at_safe frame 12 _ (omega arith) λ total.
                  uint32_at_safe frame 16 _ (omega arith) λ current.
                    refuse_if_safe (total == 0) invalid_total _ λ _.
                      refuse_if_safe (leb total current) (invalid_fragment current total) _
                        λ _. ok_safe _
