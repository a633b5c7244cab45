-- ===== src/Lpa/Install.antt =====
-- The profile package sent to the card (`install` of lpa/download.go, with the response after
-- v2/es10b.go).
pub mod Stops
use euicc_go.Prelude.{ℕ, Bool, true, false, Option, none, some, List, [], ◌∷◌, Bytes, if◌then◌else◌}
use euicc_go.Prelude.Action.{Result, ok, err, Action, ◌>>=◌, ◌>>◌, continue, pure, fail}
use euicc_go.Bertlv.Stream
use euicc_go.Bertlv.Tag.{
  Tag, context_specific, application, constructed, primitive, new_tag, tag_if,
}
use euicc_go.Bertlv.Tlv.{Tlv, tag_of, value_bytes}
use euicc_go.Bertlv.Tlv.Read.{read_from}
use euicc_go.Bertlv.Selector.{first}
use euicc_go.Sgp22.Bpp.{Outcome, success, failure, segmented_bound_profile_package}
use euicc_go.Lpa.{
  LpaError, Failure, panicked, failed, invalid_package, invalid_tlv, unexpected_tag, load_error,
  BoundProfilePackageResponse,
}
use euicc_go.Lpa.Session.{Services, Session, invoke_raw_apdu}

pub record LoadResponse (N : Type 0) : Type 0 where
  pub transaction_id : Bytes
  pub notification : N
  pub final_result : Option Tlv

-- A nil dereference where the pointer is nil.
abbrev pub pointed : {S A : Type 0} → Option A → Action S Failure A
pointed none s = (err panicked, s)
pointed (some a) s = (ok a, s)

-- `value[0]`.
abbrev pub first_byte : {S : Type 0} → Bytes → Action S Failure ℕ
first_byte [] s = (err panicked, s)
first_byte (b ∷ bs) s = (ok b, s)

-- `tlv.First(tag)` of a pointer that may be nil.
abbrev pub first_of : {S : Type 0} → Option Tlv → Tag → Action S Failure (Option Tlv)
first_of none t s = (err panicked, s)
first_of (some x) t s = (ok (first x t), s)

abbrev pub lift : {S A : Type 0} → Result Failure A → Action S Failure A
lift r s = (r, s)

-- `tlv.UnmarshalBinary`. The reader never runs out of fuel.
abbrev pub unmarshal_binary : {S : Type 0} → Bytes → Action S Failure Tlv
unmarshal_binary r s = elim (read_from r) [
  | euicc_go.Bertlv.Stream.ok x n rest ↦ (ok x, s)
  | euicc_go.Bertlv.Stream.err e n rest ↦ (err (failed invalid_tlv), s)
  | euicc_go.Bertlv.Stream.panic ↦ (err panicked, s)
  | euicc_go.Bertlv.Stream.out_of_fuel ↦ (err panicked, s)
]

abbrev pub check_tag : {S : Type 0} → Option Bool → Action S Failure (Unit {0})
check_tag none s = (err panicked, s)
check_tag (some true) s = (ok tt, s)
check_tag (some false) s = (err (failed unexpected_tag), s)

abbrev pub segments_of :
    {S : Type 0} → Option (Outcome (List Bytes)) → Action S Failure (List Bytes)
segments_of none s = (err panicked, s)
segments_of (some (failure e)) s = (err (failed (invalid_package e)), s)
segments_of (some (success commands)) s = (ok commands, s)

-- `LoadBoundProfilePackageResponse.Valid`, which has an error as its value.
unfoldable pub valid : {S : Type 0} → Option Tlv → Action S Failure (Option LpaError)
valid final_result = do
  result ← first_of final_result (new_tag context_specific constructed 1)
  λ s. elim result [
    | none ↦ (ok none, s)
    | some x ↦
        (do
          command ← pointed (first x (new_tag context_specific primitive 0))
          command_id ← first_byte (value_bytes command)
          reason ← pointed (first x (new_tag context_specific primitive 1))
          error_reason ← first_byte (value_bytes reason)
          pure (some (load_error command_id error_reason)))
          s
  ]

module _ {W U P N : Type 0} (services : Services W U P N) where
  unfoldable pub unmarshal_response : Tlv → Action (Session W U) Failure (LoadResponse N)
  unmarshal_response tlv = do
    check_tag (tag_if context_specific constructed 55 (tag_of tlv))
    result ← pointed (first tlv (new_tag context_specific constructed 39))
    transaction ← pointed (first result (new_tag context_specific primitive 0))
    notification ←
        lift
          (services.notification_metadata (first result (new_tag context_specific constructed 47)))
    pure (record {
      transaction_id = value_bytes transaction;
      notification = notification;
      final_result = first result (new_tag context_specific constructed 2);
    })

  -- The loop of `install`: the segments are sent until one is answered.
  unfoldable pub load : List Bytes → Action (Session W U) Failure Bytes
  load [] s = (ok [], s)
  load (command ∷ commands) s =
      continue (invoke_raw_apdu services command s)
        (λ r s'. elim r [ [] ↦ load commands s' | b ∷ bs ↦ (ok (b ∷ bs), s') ])

  unfoldable pub result_of : Bytes → Action (Session W U) Failure (LoadResponse N × Option LpaError)
  result_of r = do
    tlv ← unmarshal_binary r
    result ← unmarshal_response tlv
    invalid ← valid result.final_result
    pure (result, invalid)

  -- A response comes with the error of `Valid`, if any.
  unfoldable pub install :
      BoundProfilePackageResponse → Action (Session W U) Failure (LoadResponse N × Option LpaError)
  install response = do
    commands ← segments_of (segmented_bound_profile_package response.bound_profile_package)
    r ← load commands
    result_of r
