-- ===== src/Lpa/Code.antt =====
-- The text of an activation code (`MarshalText` and `UnmarshalText` of lpa/download.go).
use euicc_go.Prelude.{
  ◌≡◌, refl, ap, Bool, true, false, ◌&&◌, not, Option, none, some, List, [], ◌∷◌, ◌++◌, append-nil,
  Bytes, ◌==◌, if◌then◌else◌, arith,
}
use euicc_go.Prelude.Action.{Result, ok, err}
use euicc_go.Lpa.{ActivationCode}

pub data CodeError : Type 0 where
  -- "SM-DP+ is required", "activation code is required", "invalid activation code format"
  no_smdp no_code invalid_format : CodeError
  -- the error of `url.Parse`
  bad_url : CodeError

-- "LPA:1", and "https://".
abbrev pub lpa_1 : Bytes
lpa_1 = 76 ∷ 80 ∷ 65 ∷ 58 ∷ 49 ∷ []

abbrev pub https : Bytes
https = 104 ∷ 116 ∷ 116 ∷ 112 ∷ 115 ∷ 58 ∷ 47 ∷ 47 ∷ []

-- `strings.Split(s, "$")`: the first part and the others.
unfoldable pub split : Bytes → Bytes × List Bytes
split [] = ([], [])
split (b ∷ bs) =
    let (part, parts) = split bs in if b == 36 then ([], part ∷ parts) else (b ∷ part, parts)

abbrev pub has_prefix : Bytes → Bytes → Bool
has_prefix [] s = true
has_prefix (p ∷ ps) [] = false
has_prefix (p ∷ ps) (b ∷ bs) = p == b && has_prefix ps bs

-- "$" and the text, where it is not empty.
abbrev pub field : Bytes → Bytes
field [] = []
field (b ∷ bs) = 36 ∷ b ∷ bs

-- The flag "$1" of a code that needs a confirmation code; without an OID, its place is left empty.
abbrev pub flag : Bytes → Bytes → Bytes
flag [] oid = []
flag (c ∷ cs) [] = 36 ∷ 36 ∷ 49 ∷ []
flag (c ∷ cs) (o ∷ os) = 36 ∷ 49 ∷ []

module _ {U : Type 0} (host : U → Bytes) (parse : Bytes → Option U) where
  unfoldable pub marshal_text : ActivationCode U → Result CodeError Bytes
  marshal_text ac = elim ac.smdp [
    | none ↦ err no_smdp
    | some url ↦ ok (
        lpa_1
        ++ (36
            ∷ (host url
                ++ (36 ∷ (ac.matching_id ++ (field ac.oid ++ flag ac.confirmation_code ac.oid))))))
  ]

  -- The parts from the third on.
  abbrev pub filled : List Bytes → ActivationCode U → ActivationCode U
  filled [] ac = ac
  filled (m ∷ []) ac = record ac { matching_id = m }
  filled (m ∷ o ∷ rest) ac = record ac { matching_id = m; oid = o }

  abbrev parsed :
      Option U → List Bytes → ActivationCode U → Result CodeError (Unit {0}) × ActivationCode U
  parsed none rest ac = (err bad_url, record ac { smdp = none })
  parsed (some url) rest ac = (ok tt, filled rest (record ac { smdp = some url }))

  abbrev assigned : List Bytes → ActivationCode U → Result CodeError (Unit {0}) × ActivationCode U
  assigned [] ac = (err invalid_format, ac)
  assigned (address ∷ rest) ac = parsed (parse (https ++ address)) rest ac

  -- A nil text is `none`.
  unfoldable pub unmarshal_text :
      Option Bytes → ActivationCode U → Result CodeError (Unit {0}) × ActivationCode U
  unmarshal_text none ac = (err no_code, ac)
  unmarshal_text (some text) ac =
      if has_prefix lpa_1 text then assigned (split text).1 ac else (err invalid_format, ac)

-- No "$" in the text.
abbrev pub plain : Bytes → Bool
plain [] = true
plain (b ∷ bs) = not (b == 36) && plain bs

split_part : (x s : Bytes) → plain x ≡ true → split (x ++ (36 ∷ s)) ≡ (x, (split s).0 ∷ (split s).1)
unfolding split
split_part [] s h = ground arith
split_part (b ∷ bs) s h = ground (arith, split_part bs s)

split_last : (x : Bytes) → plain x ≡ true → split x ≡ (x, [])
unfolding split
split_last [] h = refl
split_last (b ∷ bs) h = ground (arith, split_last bs)

filled_tail :
    {U : Type 0} (host : U → Bytes) (parse : Bytes → Option U) (m o c : Bytes)
    (ac : ActivationCode U)
    → plain m ≡ true
    → plain o ≡ true
    → ac.oid ≡ []
    → filled host parse
        ((split (m ++ (field o ++ flag c o))).0 ∷ (split (m ++ (field o ++ flag c o))).1)
        ac
      ≡ record ac { matching_id = m; oid = o }
unfolding split
filled_tail host parse m [] [] ac h k e = rw (append-nil m, split_last m h, e) refl
filled_tail host parse m [] (c ∷ cs) ac h k e = rw (split_part m (36 ∷ 49 ∷ []) h) refl
filled_tail host parse m (o ∷ os) [] ac h k e =
    rw (append-nil os, split_part m (o ∷ os) h, split_last (o ∷ os) k) refl
filled_tail host parse m (o ∷ os) (c ∷ cs) ac h k e =
    rw (split_part m ((o ∷ os) ++ (36 ∷ 49 ∷ [])) h, split_part (o ∷ os) (49 ∷ []) k) refl

module _ {U : Type 0} (host : U → Bytes) (parse : Bytes → Option U) where
  -- The text of a code whose host, matching id and OID have no "$" is read back into a code without
  -- OID, provided that the URL of the host is parsed to the one that it came from: the SM-DP+, the
  -- matching id and the OID are those of the text's code, and the IMEI and the confirmation code
  -- stay as they were.
  pub unmarshal_text-marshal_text :
      (ac old : ActivationCode U) (url : U) (text : Bytes)
      → ac.smdp ≡ some url
      → plain (host url) ≡ true
      → plain ac.matching_id ≡ true
      → plain ac.oid ≡ true
      → old.oid ≡ []
      → parse (https ++ host url) ≡ some url
      → marshal_text host parse ac ≡ ok text
      → unmarshal_text host parse (some text) old
        ≡ (ok tt, record old { smdp = some url; matching_id = ac.matching_id; oid = ac.oid })
  unfolding marshal_text unmarshal_text
  unmarshal_text-marshal_text ac old url text u h m o fresh p t =
      let tail = ac.matching_id ++ (field ac.oid ++ flag ac.confirmation_code ac.oid) in
      let e : text ≡ lpa_1 ++ (36 ∷ (host url ++ (36 ∷ tail))) = ground arith in
      let parts : split (lpa_1 ++ (36 ∷ (host url ++ (36 ∷ tail))))
          ≡ (lpa_1, host url ∷ (split tail).0 ∷ (split tail).1) =
        rw (split_part lpa_1 (host url ++ (36 ∷ tail)) refl, split_part (host url) tail h) refl in
      rw (e, parts, p)
        (ap (λ x. (ok tt, x))
          (filled_tail host parse ac.matching_id ac.oid ac.confirmation_code
            (record old { smdp = some url }) m o fresh))
