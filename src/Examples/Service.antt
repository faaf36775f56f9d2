-- ===== src/Examples/Service.antt =====
-- The theorems of the service, on a device of the in-memory store.
use openiotrsp.EuiccPkg.Outcome.{zero_result, map_unsigned_package_error}
use openiotrsp.EuiccPkg.Result.{PackageResult, unsigned_undefined}
use openiotrsp.EuiccPkg.Service.Intake.{Answered, verify_and_apply-Answered}
use openiotrsp.EuiccPkg.Service.Untrusted.{IsTrusted, SameState, untrusted_leaves_state}
use openiotrsp.Common.{◌⊎◌}
use openiotrsp.Common.{
  ◌<◌, ◌≡◌, refl, none, some, [], ◌∷◌, arith, ascii, eq_nat, eq_bytes, bytes_eq, Int64, inc64,
  lookup, insert, encoding_error, ok, err,
}
use openiotrsp.Storage.Api.{live}
use openiotrsp.Storage.{normalize_tenant_id}
use openiotrsp.Asn1.Result.{kind_error_unsigned}
use openiotrsp.EuiccPkg.Association.{EimCodec}
use openiotrsp.EuiccPkg.Verify.{
  SignedRequest, signature_input, verify_result, ResultInput, verify_kind, verify_error_unsigned,
  unsigned_outcome,
}
use openiotrsp.EuiccPkg.RawTlv.{
  raw_signed_data_from_result_der, parse_tlv_span, tag_end, high_tag, value_place, span_at, byte_at,
  read_length, only_child_span, selected_part,
}
use openiotrsp.EuiccPkg.Service.{
  verify_package_result, verify_and_apply_result, Wire, SignInput, sign, sign_with_counter,
  token_or_stored, finish_request,
}
use openiotrsp.EuiccPkg.Service.Counter.{IsSigned, sign-IsSigned, sign-fresh}
use openiotrsp.Memory.State.{
  Store, new_store, new_device_key, device_key_eq, eq_device_key, eq_result_key, eq_profile_key,
  eq_associated_key, eq_config_key, eq_notification_key,
}
use openiotrsp.Memory.Calls.{run, step, apply, counts}
use openiotrsp.Memory.Devices.{register_device, next_euicc_package_counter}
use openiotrsp.Memory.Profiles.{set_profile_state}
use openiotrsp.Examples.Data.{own_tenant, card, call_at}
use openiotrsp.Examples.Package.{one_profile, clock, shown}
use openiotrsp.Examples.Results.{Numbered, numbered_api, plain_crypto, enable_package, enable_input}

abbrev no_codec : EimCodec Numbered
no_codec = record {
  encode = λ config. err (encoding_error []);
  decode = λ payload. err (encoding_error []);
}

-- A wire that encodes the counter only, signs by copying, and decodes an unsigned error.
abbrev plain_wire : Wire Numbered
plain_wire = record {
  sign_bytes = λ ctx bytes. ok bytes;
  encode_signed = λ signed. ok (signed.counter_value ∷ []);
  encode_request = λ request. ok request.eim_signature;
  decode_result = λ der. ok (record {
    kind = kind_error_unsigned;
    signed = none;
    error_signed = none;
    error_unsigned = some (record {
      eim_id = ascii "eim";
      eim_transaction_id = 1 ∷ [];
      association_token = none;
      error_code = some 127;
    });
  });
}

abbrev sign_input : SignInput Numbered
sign_input = record {
  tenant_id = own_tenant;
  eid = card;
  eid_value = 137 ∷ [];
  eim_transaction_id = some (1 ∷ []);
  association_token = some 9;
  euicc_package = enable_package;
}

abbrev request_with : Int64 → SignedRequest Numbered
request_with counter = record {
  request = record {
    euicc_package_signed = record {
      eim_id = ascii "eim";
      eid = 137 ∷ [];
      counter_value = counter;
      eim_transaction_id = some (1 ∷ []);
      euicc_package = enable_package;
    };
    eim_signature = counter ∷ 132 ∷ 1 ∷ 9 ∷ [];
  };
  der = counter ∷ 132 ∷ 1 ∷ 9 ∷ [];
  signed_der = counter ∷ [];
  signature_input_bytes = counter ∷ 132 ∷ 1 ∷ 9 ∷ [];
  tenant_id = own_tenant;
  eid = card;
  eid_value = 137 ∷ [];
  eim_id = ascii "eim";
  counter_value = counter;
  eim_transaction_id = 1 ∷ [];
  euicc_package = enable_package;
}

abbrev after_counter : Store → Store
after_counter s = (next_euicc_package_counter live own_tenant card s).1

signs_first :
    sign clock no_codec numbered_api plain_crypto plain_wire
      (ascii "eim")
      live
      sign_input
      one_profile
    ≡ (ok (request_with 1), after_counter one_profile)
unfolding sign sign_with_counter token_or_stored finish_request signature_input run step apply
    register_device set_profile_state next_euicc_package_counter new_store new_device_key
    normalize_tenant_id bytes_eq lookup insert device_key_eq
signs_first = refl

sign-IsSigned_example :
    (counter : Int64) × (clock.next_euicc_package_counter live own_tenant card one_profile
      ≡ (ok counter, after_counter one_profile))
    × IsSigned clock no_codec numbered_api plain_crypto plain_wire
        (ascii "eim")
        sign_input
        shown
        counter
        (request_with 1)
sign-IsSigned_example =
    sign-IsSigned clock no_codec numbered_api plain_crypto plain_wire (ascii "eim") sign_input shown
      one_profile (after_counter one_profile) (request_with 1) signs_first

abbrev between : Store
between = run (call_at 8 (counts card) ∷ []) (after_counter one_profile)

signs_third :
    sign clock no_codec numbered_api plain_crypto plain_wire (ascii "eim") live sign_input between
    ≡ (ok (request_with 3), after_counter between)
unfolding sign sign_with_counter token_or_stored finish_request signature_input run step apply
    register_device set_profile_state next_euicc_package_counter new_store new_device_key
    normalize_tenant_id bytes_eq lookup insert device_key_eq inc64
signs_third = refl

sign-fresh_example : (request_with 1).counter_value < (request_with 3).counter_value
sign-fresh_example =
    sign-fresh no_codec numbered_api plain_crypto plain_wire (ascii "eim") 7 7 sign_input sign_input
      one_profile (after_counter one_profile) (after_counter between) (call_at 8 (counts card) ∷ [])
      (request_with 1) (request_with 3) refl refl (omega arith) signs_first signs_third

-- The bytes of a choice without a signature.
abbrev unsigned_input : ResultInput Numbered (Unit {0})
unsigned_input = record enable_input { result_der = 0xbf ∷ 0x51 ∷ 2 ∷ 0xa2 ∷ 0 ∷ [] }

abbrev unsigned_result : PackageResult Numbered
unsigned_result = record (zero_result {Tlv = Numbered}) {
  unsigned_package_error = unsigned_undefined;
  raw_unsigned_error = 127;
}

-- It passes the check without success.
failed_unsigned :
    verify_package_result clock no_codec numbered_api plain_crypto plain_wire
      (ascii "eim")
      live
      unsigned_input
    ≡ ok unsigned_result
unfolding verify_package_result raw_signed_data_from_result_der parse_tlv_span tag_end high_tag
    value_place span_at byte_at read_length only_child_span selected_part bytes_eq verify_result
    signature_input verify_kind verify_error_unsigned unsigned_outcome map_unsigned_package_error
failed_unsigned = refl

verify_and_apply-Answered_example :
    Answered clock no_codec numbered_api plain_crypto plain_wire
      (ascii "eim")
      unsigned_input
      shown
      one_profile
      (verify_and_apply_result clock no_codec numbered_api plain_crypto plain_wire
        (ascii "eim")
        live
        unsigned_input
        one_profile)
verify_and_apply-Answered_example =
    verify_and_apply-Answered clock no_codec numbered_api plain_crypto plain_wire (ascii "eim")
      unsigned_input shown one_profile

untrusted_leaves_state_example :
    IsTrusted 7 no_codec numbered_api plain_crypto plain_wire
      (ascii "eim")
      unsigned_input
      one_profile
    ⊎ SameState one_profile
        (verify_and_apply_result clock no_codec numbered_api plain_crypto plain_wire
          (ascii "eim")
          live
          unsigned_input
          one_profile).1
untrusted_leaves_state_example =
    untrusted_leaves_state 7 no_codec numbered_api plain_crypto plain_wire (ascii "eim")
      unsigned_input one_profile
