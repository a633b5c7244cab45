-- ===== src/Bertlv/Tag.antt =====
-- bertlv/tag.go and bertlv/constants.go: the identifier octets of a TLV.
pub mod New
pub mod Read
use euicc_go.Prelude.{
  ℕ, zero, suc, ◌+◌, ◌*◌, ◌/◌, ◌%◌, ◌^◌, ◌<◌, bit_and, bit_or, Bool, true, false, ◌&&◌, ◌||◌,
  Option, none, some, ◌>>=◌, List, [], ◌∷◌, ◌++◌, arith, Bytes, bytes_eq, length, ltb, ◌==◌,
  if◌then◌else◌, lt_wf, dec_lt,
}
use euicc_go.Bertlv.Stream.{Result, ok, err, panic, short_tag, long_tag}
use mathlib.Core.Logic.{dite}
use mathlib.Core.WellFounded.{Acc}

abbrev pub Tag : Type 0
Tag = Bytes

-- Class and Form are bytes with named values.
abbrev pub universal : ℕ
universal = 0

abbrev pub application : ℕ
application = 1

abbrev pub context_specific : ℕ
context_specific = 2

abbrev pub private : ℕ
private = 3

abbrev pub primitive : ℕ
primitive = 0

abbrev pub constructed : ℕ
constructed = 1

shift_shrinks : (v : ℕ) → 0 < v → v / 128 < v
shift_shrinks v h = omega arith

-- The byte of one round: the continuation bit is set but in a first round that leaves nothing.
unfoldable pub new_tag_byte : Tag → ℕ → ℕ
new_tag_byte tag value =
    let b = bit_and value 0x7f % 256 in
    if ltb 1 (length tag) || ltb 0 (value / 128) then bit_or b 0x80 else b

-- `for value > 0`: seven bits a round, lowest first.
unfoldable pub new_tag_loop : Tag → (value : ℕ) → Acc ◌<◌ value → Tag
unfolding shift_shrinks
new_tag_loop tag value (Acc.intro _ smaller) =
    dite (dec_lt 0 value)
      (λ h.
        new_tag_loop (tag ++ (new_tag_byte tag value ∷ [])) (value / 128)
          (smaller _ (shift_shrinks value h)))
      (λ _. tag)

unfoldable pub new_tag : ℕ → ℕ → ℕ → Tag
new_tag class form value =
    let mask = bit_or (class * 64 % 256) (form * 32 % 256) in
    if ltb value 0x1f
    then bit_or mask (value % 256) ∷ []
    else new_tag_loop (bit_or mask 0x1f ∷ []) value (lt_wf.apply value)

-- The bytes of `tag [11]byte` that are still free; a slice past its end panics.
unfoldable pub read_tag_loop : ℕ → Tag → Bytes → Result Tag
read_tag_loop zero tag s = panic
read_tag_loop (suc room) tag [] = err (long_tag (length tag + 1)) (length tag) []
read_tag_loop (suc room) tag (b ∷ s) =
    let more = read_tag_loop room (tag ++ (b ∷ [])) s in
    if b / 128 == 0 then ok (tag ++ (b ∷ [])) (length tag + 1) s else more

unfoldable pub read_tag : Bytes → Result Tag
unfolding read_tag_loop
read_tag [] = err short_tag 0 []
read_tag (b ∷ s) = if bit_and b 0x1f == 0x1f then read_tag_loop 10 (b ∷ []) s else ok (b ∷ []) 1 s

-- The accessors index the first byte, and panic on a tag with none.
unfoldable pub class_of : Tag → Option ℕ
class_of [] = none
class_of (b ∷ _) = some (b / 64)

unfoldable pub form_of : Tag → Option ℕ
form_of [] = none
form_of (b ∷ _) = some (bit_and (b / 32) 1)

-- `value <<= 7; value |= tag[index] & 0x7f` on a uint64, up to a byte with the top bit clear.
unfoldable pub value_loop : ℕ → Bytes → ℕ
value_loop value [] = value
value_loop value (b ∷ bs) =
    let value' = bit_or (value * 128 % 2 ^ 64) (bit_and b 0x7f) in
    let more = value_loop value' bs in if b / 128 == 0 then value' else more

unfoldable pub value_of : Tag → Option ℕ
unfolding value_loop
value_of [] = none
value_of (b ∷ bs) =
    let value = bit_and b 0x1f in some (if value == 0x1f then value_loop 0 bs else value)

unfoldable pub is_primitive : Tag → Option Bool
unfolding form_of
is_primitive t = do f ← form_of t; some (f == primitive)

unfoldable pub is_constructed : Tag → Option Bool
unfolding form_of
is_constructed t = do f ← form_of t; some (f == constructed)

unfoldable pub tag_if : ℕ → ℕ → ℕ → Tag → Option Bool
unfolding class_of form_of value_of
tag_if class form value t = do
  c ← class_of t
  f ← form_of t
  v ← value_of t
  some (c == class && f == form && v == value)

unfoldable pub equal : Tag → Tag → Bool
equal t u = bytes_eq t u
