-- ===== src/Bertlv/Tag/New.antt =====
-- NewTag against the accessors and the reader (bertlv/tag.go).
use euicc_go.Prelude.{
  ℕ, zero, suc, ◌+◌, ◌*◌, ◌/◌, ◌%◌, ◌≤◌, ◌<◌, ◌≡◌, ◌↔◌, ◌≢◌, bit_and, bit_or, true, some, [], ◌∷◌,
  ◌++◌, arith, Bytes, All, length, length-append_bytes, lt_wf, dec_lt, inl, inr, append_assoc,
  append-nil, sym, ◌∙◌, ◌⊎◌, and_7f_word, bit_or_add, le→ltb,
}
use euicc_go.Prelude.Masks.{tag_byte, and_7f, and_1f, and_1, or_80}
use euicc_go.Bertlv.Stream.{ok}
use euicc_go.Bertlv.Tag.{
  Tag, shift_shrinks, new_tag_loop, new_tag, new_tag_byte, read_tag_loop, read_tag, class_of,
  form_of, value_loop, value_of, tag_if,
}
use mathlib.Core.Logic.{dif_pos, dif_neg}
use native.Mathlib.Bridge.{le_prop}
use mathlib.Core.WellFounded.{Acc}

new_tag_mask :
    (c f v : ℕ)
    → c < 4
    → f < 2
    → v < 32
    → bit_or (bit_or (c * 64 % 256) (f * 32 % 256)) v ≡ c * 64 + f * 32 + v
new_tag_mask c f v hc hf hv =
    let e : c * 64 % 256 ≡ c * 64 = omega arith in
    let e' : f * 32 % 256 ≡ f * 32 = omega arith in rw (e, e') (tag_byte c f v hc hf hv)

-- A number below 31 fits the first byte.
pub new_tag_short :
    (c f v : ℕ) → c < 4 → f < 2 → v < 31 → new_tag c f v ≡ (c * 64 + f * 32 + v) ∷ []
unfolding new_tag
new_tag_short c f v hc hf hv = ground (arith, new_tag_mask c f (v % 256))

new_tag_loop_done : (tag : Tag) (v : ℕ) (w : Acc ◌<◌ v) → v ≡ 0 → new_tag_loop tag v w ≡ tag
unfolding new_tag_loop
new_tag_loop_done tag v (Acc.intro _ smaller) e = ground arith

new_tag_loop_step :
    (tag out : Tag) (v : ℕ) (w : Acc ◌<◌ v)
    → 0 < v
    → ((w' : Acc ◌<◌ (v / 128))
        → new_tag_loop (tag ++ (new_tag_byte tag v ∷ [])) (v / 128) w' ≡ out)
    → new_tag_loop tag v w ≡ out
unfolding new_tag_loop
new_tag_loop_step tag out v (Acc.intro _ smaller) h k = elim (dec_lt 0 v) [
  | yes p ↦ rw (dif_pos _ le_prop p) (k (smaller (v / 128) (shift_shrinks v p)))
  | no p ↦ absurd (p h)
]

low_bits-lt : (v : ℕ) → v < 256 → bit_and v 0x7f % 256 ≡ v % 128
low_bits-lt v h = rw (and_7f v h) (omega arith)

last_byte : (b v : ℕ) → v < 128 → new_tag_byte (b ∷ []) v ≡ v
unfolding new_tag_byte
last_byte b v h = ground (arith, low_bits-lt v (omega arith))

-- One from 31 to 127 takes one byte more.
pub new_tag_long :
    (c f v : ℕ) → c < 4 → f < 2 → 31 ≤ v → v < 128 → new_tag c f v ≡ (c * 64 + f * 32 + 31) ∷ v ∷ []
unfolding new_tag
new_tag_long c f v hc hf lo hi =
    rw (le→ltb v 31 lo, new_tag_mask c f 31 hc hf (omega arith))
      (new_tag_loop_step _ _ v (lt_wf.apply v) (omega arith)
        (λ w. rw (last_byte _ v hi) (new_tag_loop_done _ _ w (omega arith))))

short_byte : (c f v : ℕ) → c < 4 → f < 2 → v < 31 → value_of ((c * 64 + f * 32 + v) ∷ []) ≡ some v
unfolding value_of
short_byte c f v hc hf hv = ground (arith, and_1f (c * 64 + f * 32 + v))

value_loop_last : (v : ℕ) → v < 128 → value_loop 0 (v ∷ []) ≡ v
unfolding value_loop
value_loop_last v h = ground (arith, bit_or_add 7 0 0 v, and_7f v)

long_bytes :
    (c f v : ℕ) → c < 4 → f < 2 → v < 128 → value_of ((c * 64 + f * 32 + 31) ∷ v ∷ []) ≡ some v
unfolding value_of
long_bytes c f v hc hf hv =
    rw (and_1f (c * 64 + f * 32 + 31) (omega arith)) (ground (arith, value_loop_last v))

-- The fields of a tag whose number is below 128.
pub value_of-new_tag : (c f v : ℕ) → c < 4 → f < 2 → v < 128 → value_of (new_tag c f v) ≡ some v
value_of-new_tag c f v hc hf hv = elim (dec_lt v 31) [
  | yes p ↦ rw (new_tag_short c f v hc hf p) (short_byte c f v hc hf p)
  | no p ↦ rw (new_tag_long c f v hc hf (omega arith) hv) (long_bytes c f v hc hf hv)
]

first_byte_fields :
    (c f v : ℕ) (bs : Bytes)
    → c < 4
    → f < 2
    → v < 32
    → (class_of ((c * 64 + f * 32 + v) ∷ bs) ≡ some c)
      × (form_of ((c * 64 + f * 32 + v) ∷ bs) ≡ some f)
unfolding class_of form_of
first_byte_fields c f v bs hc hf hv = ground (arith, and_1 ((c * 64 + f * 32 + v) / 32))

pub new_tag_fields :
    (c f v : ℕ)
    → c < 4
    → f < 2
    → v < 128
    → (class_of (new_tag c f v) ≡ some c) × (form_of (new_tag c f v) ≡ some f)
new_tag_fields c f v hc hf hv = elim (dec_lt v 31) [
  | yes p ↦ rw (new_tag_short c f v hc hf p) (first_byte_fields c f v [] hc hf (omega arith))
  | no p ↦
      rw (new_tag_long c f v hc hf (omega arith) hv)
        (first_byte_fields c f 31 _ hc hf (omega arith))
]

-- `If` on a tag that NewTag made of a number below 128 holds exactly for the class, the form and
-- the number that it was made of.
pub tag_if-new_tag :
    (c f v class form value : ℕ)
    → c < 4
    → f < 2
    → v < 128
    → (tag_if class form value (new_tag c f v) ≡ some true)
      ↔ ((c ≡ class) × (f ≡ form) × (v ≡ value))
unfolding tag_if
tag_if-new_tag c f v class form value hc hf hv =
    let (ec, ef) = new_tag_fields c f v hc hf hv in
    rw (ec, ef, value_of-new_tag c f v hc hf hv) (ground arith)

-- Every byte has the continuation bit.
abbrev pub Continued : ℕ → Type 0
Continued b = 128 ≤ b

read_tag_loop_fails :
    (room : ℕ) (tag : Tag) (s : Bytes) (t : Tag) (n : ℕ) (rest : Bytes)
    → All Continued s
    → read_tag_loop room tag s ≢ ok t n rest
unfolding read_tag_loop
read_tag_loop_fails zero tag s t n rest h = λ e. cc
read_tag_loop_fails (suc room) tag [] t n rest h = λ e. cc
read_tag_loop_fails (suc room) tag (b ∷ s) t n rest (hb, hs) =
    ground (arith, read_tag_loop_fails room (tag ++ (b ∷ [])) s t n rest hs)

continued_byte : (tag : Tag) (v : ℕ) → (1 < length tag) ⊎ (128 ≤ v) → 128 ≤ new_tag_byte tag v
unfolding new_tag_byte
continued_byte tag v h = ground (arith, and_7f_word v, or_80 (v % 128))

new_tag_loop-Continued :
    (tag : Tag) (v : ℕ) (w : Acc ◌<◌ v)
    → 0 < length tag
    → (1 < length tag) ⊎ (128 ≤ v)
    → (more : Tag) × (new_tag_loop tag v w ≡ tag ++ more) × All Continued more
unfolding new_tag_loop
new_tag_loop-Continued tag v (Acc.intro _ smaller) ht h = elim (dec_lt 0 v) [
  | yes p ↦
      let b = new_tag_byte tag v in
      let (more, e, c) =
        new_tag_loop-Continued (tag ++ (b ∷ [])) (v / 128) (smaller (v / 128) (shift_shrinks v p))
          (rw length-append_bytes (omega arith)) (inl (rw length-append_bytes (omega arith))) in
      (
        b ∷ more,
        rw (dif_pos _ le_prop p) (e ∙ append_assoc tag (b ∷ []) more),
        (continued_byte tag v h, c),
      )
  | no p ↦ ([], rw (dif_neg _ p) (sym (append-nil tag)), tt)
]

read_tag-Continued :
    (b : ℕ) (s : Bytes) (t : Tag) (n : ℕ) (rest : Bytes)
    → b < 256
    → b % 32 ≡ 31
    → All Continued s
    → read_tag (b ∷ s) ≢ ok t n rest
unfolding read_tag
read_tag-Continued b s t n rest hb h hs =
    ground (arith, and_1f b, read_tag_loop_fails 10 (b ∷ []) s t n rest hs)

-- A tag that NewTag makes of a number of 128 or more cannot be read back: its last byte announces
-- one more, and the reader fails or panics.
pub new_tag_unreadable :
    (c f v : ℕ)
    → c < 4
    → f < 2
    → 128 ≤ v
    → (t : Tag) (n : ℕ) (rest : Bytes) → read_tag (new_tag c f v) ≢ ok t n rest
unfolding new_tag
new_tag_unreadable c f v hc hf hv t n rest =
    let first = c * 64 + f * 32 + 31 in
    let (more, e, h) =
      new_tag_loop-Continued (first ∷ []) v (lt_wf.apply v) (omega arith) (inr hv) in
    rw (le→ltb v 31 (omega arith), new_tag_mask c f 31 hc hf (omega arith), e)
      (read_tag-Continued first more t n rest (omega arith) (omega arith) h)
