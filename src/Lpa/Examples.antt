-- ===== src/Lpa/Examples.antt =====
-- Downloads from a server that answers, refuses or cannot be reached.
use euicc_go.Prelude.{◌≡◌, ◌≢◌, refl, false, sym, ◌∙◌, none, some, Option, List, [], ◌∷◌, Bytes}
use euicc_go.Prelude.Action.{ok, err}
use euicc_go.Bertlv.Tlv.{Tlv, object, child, no_children}
use euicc_go.Prelude.{lt_wf, dec_lt}
use euicc_go.Bertlv.Tag.{
  equal, new_tag, new_tag_loop, new_tag_byte, tag_if, class_of, form_of, value_of, is_primitive,
  is_constructed, read_tag,
}
use euicc_go.Bertlv.Length.{marshal_length, read_length}
use euicc_go.Bertlv.Tlv.{len, content_length, children_length, add_header}
use euicc_go.Bertlv.Tlv.Write.{bytes, marshal_binary, write_to}
use euicc_go.Bertlv.Tlv.Read.{read_from, read_tlv, read_children, read_value}
use euicc_go.Bertlv.Selector.{first, first_child}
use euicc_go.Sgp22.Bpp.{
  success, segmented_bound_profile_package, valid_bound_profile_package, missing, segments, lengths,
  marshal_header, each_bytes, optional_bytes,
}
use euicc_go.Sgp22.Identifier.{binary_coded_decimal_encode, any_invalid, decode_string, swap_halves}
use euicc_go.Lpa.{
  LpaError, service, failed, unexpected_tag, Header, success_text, executed_success,
  InitiateAuthenticationResponse, AuthenticateClientResponse, BoundProfilePackageResponse,
  CardAnswer,
}
use euicc_go.Lpa.Session.{
  Services, Session, euicc_challenge, euicc_info1, initiate_authentication, invoke_raw_apdu,
  authenticate_client_call, cancel_session_call, http_outcome,
}
use euicc_go.Lpa.Install.{LoadResponse, install, load, result_of, unmarshal_response, valid}
use euicc_go.Lpa.Download.{
  DownloadOptions, Ending, ended, crashed, abort, client_stage, download_profile, validate,
  progress, authenticate_client_stage,
}
use euicc_go.Lpa.Authentication.{initiate, authenticate_client}
use euicc_go.Lpa.Install.Stops.{Sent, install-Sent}
use euicc_go.Lpa.Download.Recorded.{Account, recorded, carried, cancellations}
use euicc_go.Lpa.Download.Closes.{Settled, download_profile-Closes}
use euicc_go.Lpa.Download.Crash.{download_profile-crashed}

abbrev executed : Option Header
executed =
    some (record {
      execution_status = some (record { status = success_text; status_code_data = none });
    })

abbrev answer : CardAnswer
answer = record { transaction_id = 1 ∷ []; response = none }

abbrev initiated_reply : InitiateAuthenticationResponse
initiated_reply = record {
  header = executed;
  transaction_id = 1 ∷ [];
  signed1 = none;
  signature1 = none;
  used_issuer = none;
  certificate = none;
}

abbrev client_reply : Option Header → AuthenticateClientResponse
client_reply header = record {
  header = header;
  transaction_id = 1 ∷ [];
  profile_metadata = none;
  signed2 = none;
  signature2 = none;
  certificate = none;
}

-- Everything is answered, with metadata that cannot be read.
abbrev answering : Services (Unit {0}) (Unit {0}) (Unit {0}) (Unit {0})
answering = record {
  host = λ u. 65 ∷ [];
  get_challenge = λ w. (ok (7 ∷ []), w);
  get_info = λ w. (ok none, w);
  authenticate_server = λ r w. (ok answer, w);
  prepare_download = λ r w. (ok answer, w);
  cancel_session = λ t r w. (ok answer, w);
  transmit_raw = λ c w. (ok [], w);
  send_initiate_authentication = λ u r w. ((none, initiated_reply), w);
  send_authenticate_client = λ u a w. ((none, client_reply executed), w);
  send_bound_profile_package = λ u a w. (
    (none, record { header = executed; transaction_id = 1 ∷ []; bound_profile_package = none }),
    w,
  );
  send_cancel_session = λ u a w. ((none, record { header = executed }), w);
  profile_info = λ m. err (failed unexpected_tag);
  notification_metadata = λ m. ok tt;
  done = λ w. false;
}

-- The server cannot be reached any more once the session was initiated.
abbrev unreachable : Services (Unit {0}) (Unit {0}) (Unit {0}) (Unit {0})
unreachable = record answering {
  send_authenticate_client = λ u a w. ((some (service 3), client_reply none), w);
}

abbrev silent : DownloadOptions (Unit {0}) (Unit {0})
silent = record { on_progress = none; on_confirm = none; on_enter_confirmation_code = none }

-- With the IMEI "12345678".
abbrev fresh_session : Session (Unit {0}) (Unit {0})
fresh_session = record {
  activation = record {
    smdp = some tt;
    matching_id = [];
    imei = 49 ∷ 50 ∷ 51 ∷ 52 ∷ 53 ∷ 54 ∷ 55 ∷ 56 ∷ [];
    oid = [];
    confirmation_code = [];
  };
  world = tt;
}

-- The metadata is refused, and the session is cancelled.
aborted_example :
    (download_profile answering silent fresh_session).0 ≡ ended none (some unexpected_tag)
unfolding download_profile validate client_stage authenticate_client initiate
    initiate_authentication euicc_challenge euicc_info1 authenticate_client_call http_outcome
    executed_success abort cancel_session_call binary_coded_decimal_encode any_invalid decode_string
    swap_halves
aborted_example = refl

ended-ne-crashed :
    (r : Option (LoadResponse (Unit {0}))) (e : Option LpaError) → ended r e ≢ crashed
ended-ne-crashed r e h = absurd cc

-- The same, with an account.
abbrev accounted_session : Session (Account (Unit {0})) (Unit {0})
accounted_session = record { activation = fresh_session.activation; world = (tt, []) }

abbrev accounted_run : Ending (Unit {0}) × Session (Account (Unit {0})) (Unit {0})
accounted_run = download_profile (recorded answering) (carried silent) accounted_session

accounted_ends : accounted_run.0 ≡ ended none (some unexpected_tag)
unfolding download_profile validate client_stage authenticate_client initiate
    initiate_authentication euicc_challenge euicc_info1 authenticate_client_call http_outcome
    executed_success abort cancel_session_call binary_coded_decimal_encode any_invalid decode_string
    swap_halves
accounted_ends = refl

accounted_once : cancellations accounted_run.1.world.1 ≡ 1
unfolding download_profile validate client_stage authenticate_client initiate
    initiate_authentication euicc_challenge euicc_info1 authenticate_client_call http_outcome
    executed_success abort cancel_session_call binary_coded_decimal_encode any_invalid decode_string
    swap_halves
accounted_once = refl

download_profile-Closes_example : Settled answering silent accounted_run
download_profile-Closes_example =
    download_profile-Closes answering silent accounted_session refl
      (λ h. ended-ne-crashed none (some unexpected_tag) (sym accounted_ends ∙ h))

initiate_run :
    initiate unreachable tt (progress unreachable silent authenticate_client_stage fresh_session)
    ≡ (ok (initiated_reply, 0x21 ∷ 0x43 ∷ 0x65 ∷ 0x87 ∷ []), fresh_session)
unfolding initiate initiate_authentication euicc_challenge euicc_info1 http_outcome executed_success
    binary_coded_decimal_encode any_invalid decode_string swap_halves
initiate_run = refl

validate_run : validate unreachable fresh_session.activation ≡ none
unfolding validate
validate_run = refl

download_profile-crashed_example : (download_profile unreachable silent fresh_session).0 ≡ crashed
download_profile-crashed_example =
    download_profile-crashed unreachable silent fresh_session tt initiated_reply
      (0x21 ∷ 0x43 ∷ 0x65 ∷ 0x87 ∷ []) fresh_session answer (service 3) (client_reply none)
      validate_run refl initiate_run (λ r w. refl) (λ w. refl) refl

-- A package with an object in each of its fields.
abbrev small : Tlv
small = object (0xbf ∷ 0x36 ∷ []) [] (
    child
      (object (0xbf ∷ 0x23 ∷ []) [] (child (object (0x82 ∷ []) (1 ∷ []) no_children) no_children))
      (child (object (0xa0 ∷ []) [] (child (object (0x87 ∷ []) (2 ∷ []) no_children) no_children)) (
        child (object (0xa1 ∷ []) [] (child (object (0x88 ∷ []) (3 ∷ []) no_children) no_children))
          (child
            (object (0xa3 ∷ []) [] (child (object (0x86 ∷ []) (4 ∷ []) no_children) no_children))
            no_children))))

-- The card answers each segment with a result.
abbrev report : Bytes
report =
    0xbf ∷ 0x37 ∷ 0x0a ∷ 0xbf ∷ 0x27 ∷ 0x07 ∷ 0x80 ∷ 0x01 ∷ 0x01 ∷ 0xa2 ∷ 0x02 ∷ 0xa0 ∷ 0x00 ∷ []

abbrev installing : Services (Unit {0}) (Unit {0}) (Unit {0}) (Unit {0})
installing = record answering { transmit_raw = λ c w. (ok report, w) }

abbrev bound : BoundProfilePackageResponse
bound = record { header = executed; transaction_id = 1 ∷ []; bound_profile_package = some small }

abbrev loaded : LoadResponse (Unit {0})
loaded = record {
  transaction_id = 1 ∷ [];
  notification = tt;
  final_result =
      some (object (0xa2 ∷ []) [] (child (object (0xa0 ∷ []) [] no_children) no_children));
}

abbrev first_segment : Bytes
first_segment = 0xbf ∷ 0x36 ∷ 0x15 ∷ 0xbf ∷ 0x23 ∷ 0x03 ∷ 0x82 ∷ 0x01 ∷ 0x01 ∷ []

abbrev loaded_session : Session (Unit {0}) (Unit {0})
loaded_session = fresh_session

install_run : install installing bound fresh_session ≡ (ok (loaded, none), loaded_session)
unfolding install load invoke_raw_apdu result_of unmarshal_response valid
    segmented_bound_profile_package valid_bound_profile_package missing segments lengths
    marshal_header each_bytes optional_bytes equal first first_child new_tag new_tag_loop
    new_tag_byte tag_if class_of form_of value_of bytes marshal_binary write_to len content_length
    children_length add_header marshal_length is_primitive read_from read_tlv read_children read_tag
    read_length read_value is_constructed lt_wf dec_lt
install_run = refl

install-Sent_example :
    (commands : List Bytes) × (segmented_bound_profile_package (some small)
      ≡ some (success commands))
    × (r : Bytes) × (t : Session (Unit {0}) (Unit {0})) × Sent installing commands fresh_session t r
    × (result_of installing r t ≡ (ok (loaded, none), loaded_session))
install-Sent_example =
    install-Sent installing bound fresh_session (loaded, none) loaded_session install_run
