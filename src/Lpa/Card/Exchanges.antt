-- ===== src/Lpa/Card/Exchanges.antt =====
-- What an operation on a profile sends, and what the card's answer makes of it (lpa/es10c.go).
use euicc_go.Prelude.{
  ℕ, ◌<◌, ◌≡◌, refl, ap, bit_xor_shifted, Bool, true, false, ◌||◌, ◌⊎◌, inl, inr, Bool-cases,
  Option, none, some, [], ◌∷◌, Bytes, ◌==◌, if◌then◌else◌, ltb, lt_wf, dec_lt, arith,
}
use euicc_go.Prelude.Checked.{ok, err, panic, ◌>>=◌}
use euicc_go.Bertlv.Tag.{
  new_tag, new_tag_loop, new_tag_byte, context_specific, primitive, constructed, read_tag,
  read_tag_loop, is_primitive, is_constructed, form_of, equal,
}
use euicc_go.Bertlv.Length.{read_length}
use euicc_go.Bertlv.Tlv.{Tlv, object, no_children, child}
use euicc_go.Bertlv.Tlv.Write.{bytes}
use euicc_go.Bertlv.Tlv.Read.{read_from, read_tlv, read_children, read_value}
use euicc_go.Bertlv.Selector.{first, first_child}
use euicc_go.Bertlv.Primitive.{
  parsed, marshal_bool, unmarshal_int, significant, accumulate, sign_word, from_sign,
}
use euicc_go.Sgp22.Message.{Reply, new_value, new_children, unmarshal_value}
use euicc_go.Sgp22.Message.Tagged.{check_tag-new_tag}
use euicc_go.Sgp22.Es10c.{marshal_operation, unmarshal_operation, valid_operation}
use euicc_go.Lpa.Card.{
  Identifier, by_iccid, by_aid, by_other, unmarshal_binary, identifier_object, invoke_apdu,
  set_profile,
}

-- One byte as an int8.
unmarshal_int-byte : (r : ℕ) → r < 256 → unmarshal_int 1 (r ∷ []) ≡ parsed r
unfolding unmarshal_int accumulate from_sign
unmarshal_int-byte r h =
    let itself : significant (r ∷ []) ≡ r ∷ [] = same (Bool-cases ((r == 0) || (r == 0xff))) in
    rw itself (ap parsed (low_byte (Bool-cases (ltb 0x7f r))))
  where
    same :
        (((r == 0) || (r == 0xff)) ≡ true) ⊎ (((r == 0) || (r == 0xff)) ≡ false)
        → significant (r ∷ []) ≡ r ∷ []
    same (inl e) = rw e refl
    same (inr e) = rw e refl

    low_byte :
        (ltb 0x7f r ≡ true) ⊎ (ltb 0x7f r ≡ false)
        → accumulate 1 (sign_word 1 (r ∷ [])) (r ∷ []) ≡ r
    low_byte (inl e) = rw e (omega (arith, bit_xor_shifted 8 0 r h))
    low_byte (inr e) = rw e (omega (arith, bit_xor_shifted 8 0 r h))

-- The answer to an operation, with a byte for its result.
abbrev pub result_object : ℕ → ℕ → Tlv
result_object operation result =
    object (new_tag context_specific constructed operation) []
      (child (object (new_tag context_specific primitive 0) (result ∷ []) no_children) no_children)

abbrev pub answer_bytes : ℕ → ℕ → Bytes
answer_bytes operation result = 0xBF ∷ operation ∷ 3 ∷ 0x80 ∷ 1 ∷ result ∷ []

answer_49 : (result : ℕ) → unmarshal_binary (answer_bytes 49 result) ≡ ok (result_object 49 result)
unfolding read_from read_tlv read_children read_value read_tag read_tag_loop read_length
    is_primitive is_constructed form_of new_tag new_tag_loop new_tag_byte lt_wf dec_lt
answer_49 result = refl

answer_50 : (result : ℕ) → unmarshal_binary (answer_bytes 50 result) ≡ ok (result_object 50 result)
unfolding read_from read_tlv read_children read_value read_tag read_tag_loop read_length
    is_primitive is_constructed form_of new_tag new_tag_loop new_tag_byte lt_wf dec_lt
answer_50 result = refl

answer_51 : (result : ℕ) → unmarshal_binary (answer_bytes 51 result) ≡ ok (result_object 51 result)
unfolding read_from read_tlv read_children read_value read_tag read_tag_loop read_length
    is_primitive is_constructed form_of new_tag new_tag_loop new_tag_byte lt_wf dec_lt
answer_51 result = refl

-- EnableProfile, DisableProfile and DeleteProfile.
abbrev pub IsOperation : ℕ → Type 0
IsOperation n = (n ≡ 49) ⊎ ((n ≡ 50) ⊎ (n ≡ 51))

answer_read :
    (operation result : ℕ)
    → IsOperation operation
    → unmarshal_binary (answer_bytes operation result) ≡ ok (result_object operation result)
answer_read operation result (inl e) = rw e (answer_49 result)
answer_read operation result (inr (inl e)) = rw e (answer_50 result)
answer_read operation result (inr (inr e)) = rw e (answer_51 result)

result_read :
    (operation result : ℕ)
    → IsOperation operation
    → result < 256
    → unmarshal_operation operation (result_object operation result) ≡ ok result
unfolding unmarshal_operation unmarshal_value first first_child equal new_tag is_primitive form_of
result_read operation result is_op h =
    let small : operation < 128 = ground arith in
    rw
      (
        check_tag-new_tag 2 1 operation [] _ (omega arith) (omega arith) small,
        unmarshal_int-byte result h,
      )
      refl

-- The object that names a profile.
abbrev pub name_object : Identifier → Option Tlv
name_object (by_iccid s) = some (object (0x5A ∷ []) s no_children)
name_object (by_aid s) = some (object (0x4F ∷ []) s no_children)
name_object by_other = none

-- What SGP.22 has sent for an operation: the name in a choice of its own and whether to refresh, or the
-- name alone to delete.
abbrev pub request_object : ℕ → Tlv → Bool → Tlv
request_object operation name refresh = object (0xBF ∷ operation ∷ []) [] (
    if operation == 51
    then child name no_children
    else child (object (0xA0 ∷ []) [] (child name no_children))
        (child (object (0x81 ∷ []) (marshal_bool refresh) no_children) no_children))

some_name : {x y : Tlv} → some x ≡ some y → x ≡ y
some_name e = cc

request_49 :
    (id : Identifier) (name : Tlv) (refresh : Bool)
    → name_object id ≡ some name
    → (identifier_object id >>= λ x. marshal_operation 49 (some x) refresh)
      ≡ ok (request_object 49 name refresh)
unfolding marshal_operation new_value new_children is_primitive is_constructed form_of new_tag
    new_tag_loop new_tag_byte lt_wf dec_lt
request_49 (by_iccid s) name refresh e = ap (λ x. ok (request_object 49 x refresh)) (some_name e)
request_49 (by_aid s) name refresh e = ap (λ x. ok (request_object 49 x refresh)) (some_name e)
request_49 by_other name refresh e = absurd cc

request_50 :
    (id : Identifier) (name : Tlv) (refresh : Bool)
    → name_object id ≡ some name
    → (identifier_object id >>= λ x. marshal_operation 50 (some x) refresh)
      ≡ ok (request_object 50 name refresh)
unfolding marshal_operation new_value new_children is_primitive is_constructed form_of new_tag
    new_tag_loop new_tag_byte lt_wf dec_lt
request_50 (by_iccid s) name refresh e = ap (λ x. ok (request_object 50 x refresh)) (some_name e)
request_50 (by_aid s) name refresh e = ap (λ x. ok (request_object 50 x refresh)) (some_name e)
request_50 by_other name refresh e = absurd cc

request_51 :
    (id : Identifier) (name : Tlv) (refresh : Bool)
    → name_object id ≡ some name
    → (identifier_object id >>= λ x. marshal_operation 51 (some x) refresh)
      ≡ ok (request_object 51 name refresh)
unfolding marshal_operation new_value new_children is_primitive is_constructed form_of new_tag
    new_tag_loop new_tag_byte lt_wf dec_lt
request_51 (by_iccid s) name refresh e = ap (λ x. ok (request_object 51 x refresh)) (some_name e)
request_51 (by_aid s) name refresh e = ap (λ x. ok (request_object 51 x refresh)) (some_name e)
request_51 by_other name refresh e = absurd cc

request_written :
    (operation : ℕ) (id : Identifier) (name : Tlv) (refresh : Bool)
    → IsOperation operation
    → name_object id ≡ some name
    → (identifier_object id >>= λ x. marshal_operation operation (some x) refresh)
      ≡ ok (request_object operation name refresh)
request_written operation id name refresh (inl e) h = rw e (request_49 id name refresh h)
request_written operation id name refresh (inr (inl e)) h = rw e (request_50 id name refresh h)
request_written operation id name refresh (inr (inr e)) h = rw e (request_51 id name refresh h)

judged_unit : (a : ℕ) (v : Reply (Unit {0})) → ((v >>= λ _. ok a) >>= λ _. ok tt) ≡ v
judged_unit a (ok tt) = refl
judged_unit a (err e) = refl
judged_unit a panic = refl

module _ {W : Type 0} (transmit_raw : Bytes → W → Reply Bytes × W) where
  -- EnableProfile, DisableProfile and DeleteProfile send one command, the encoding of the object that SGP.22
  -- has for the operation, for a profile named by ICCID or AID; the byte of the card's answer decides between
  -- success and the error of that result.
  pub set_profile-answered :
      (operation result : ℕ) (id : Identifier) (name : Tlv) (refresh : Bool) (command : Bytes)
      (w w' : W)
      → IsOperation operation
      → result < 256
      → name_object id ≡ some name
      → bytes (request_object operation name refresh) ≡ some command
      → transmit_raw command w ≡ (ok (answer_bytes operation result), w')
      → set_profile transmit_raw operation id refresh w ≡ (valid_operation operation result, w')
  unfolding set_profile invoke_apdu
  set_profile-answered operation result id name refresh command w w' is_op small named written
        answered =
      rw
        (
          request_written operation id name refresh is_op named,
          written,
          answered,
          answer_read operation result is_op,
          result_read operation result is_op small,
          judged_unit result (valid_operation operation result),
        )
        refl
