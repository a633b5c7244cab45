-- ===== src/Apdu/Response/Status.antt =====
-- What the accessors of a response read from data with a status behind it (apdu/response.go).
use euicc_go.Prelude.{
  ℕ, suc, ◌+◌, ◌-◌, ◌*◌, ◌^◌, bit_or, ◌≡◌, refl, false, some, [], ◌∷◌, ◌++◌, Bytes, length,
  get_elem?, ltb, ◌==◌, arith, length-append_bytes, take-length_append, le→ltb,
}
use euicc_go.Apdu.Response.{from_end, response_data, sw2, sw, is_ok, has_more}

abbrev pub with_status : Bytes → ℕ → ℕ → Bytes
with_status d hi lo = d ++ hi ∷ lo ∷ []

get_elem?-append : (d e : Bytes) (k : ℕ) → get_elem? (d ++ e) (length d + k) ≡ get_elem? e k
get_elem?-append [] e k = let z : 0 + k ≡ k = omega arith in rw z
get_elem?-append (b ∷ d) e k =
    let z : suc (length d) + k ≡ suc (length d + k) = omega arith in rw z (get_elem?-append d e k)

module _ (d : Bytes) (hi lo : ℕ) where
  length_status : length (with_status d hi lo) ≡ length d + 2
  length_status = length-append_bytes d (hi ∷ lo ∷ [])

  from_end_status :
      (k j : ℕ) → k + j ≡ 2 → from_end k (with_status d hi lo) ≡ get_elem? (hi ∷ lo ∷ []) j
  unfolding from_end
  from_end_status k j h =
      let e : length (with_status d hi lo) - k ≡ length d + j = omega (arith, length_status) in
      let t : ltb (length (with_status d hi lo)) k ≡ false =
        le→ltb _ _ (omega (arith, length_status)) in
      rw (t, e) (get_elem?-append d (hi ∷ lo ∷ []) j)

  pub response_data_status : response_data (with_status d hi lo) ≡ some d
  unfolding response_data
  response_data_status =
      let e : length (with_status d hi lo) - 2 ≡ length d = omega (arith, length_status) in
      let t : ltb (length (with_status d hi lo)) 2 ≡ false =
        le→ltb _ _ (omega (arith, length_status)) in
      rw (t, e, take-length_append d (hi ∷ lo ∷ []))

  pub sw2_status : sw2 (with_status d hi lo) ≡ some lo
  unfolding sw2
  sw2_status = from_end_status 1 1 refl

  pub has_more_status : has_more (with_status d hi lo) ≡ some (hi == 0x61)
  unfolding has_more
  has_more_status = rw (from_end_status 2 0 refl)

  pub sw_status : sw (with_status d hi lo) ≡ some (bit_or (hi * 2 ^ 8) lo)
  unfolding sw
  sw_status = rw (from_end_status 2 0 refl, from_end_status 1 1 refl)

  pub is_ok_status : is_ok (with_status d hi lo) ≡ some (bit_or (hi * 2 ^ 8) lo == 0x9000)
  unfolding is_ok
  is_ok_status = rw sw_status
