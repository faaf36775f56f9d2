-- ===== src/Esipa/Results.antt =====
-- esipa/handler.go: taking in the results of operations. The log is not modelled.
pub mod Trusted
use openiotrsp.Asn1.Result.Values.{result_objects}
use openiotrsp.EuiccPkg.Service.{association_token_for_eim, Wire}
use openiotrsp.EuiccPkg.Association.{EimCodec}
use openiotrsp.EuiccPkg.Service.{verify_package_result}
use openiotrsp.Asn1.Codec.{parse_tlv, or_nil, encode, has_tag}
use openiotrsp.Storage.Api.{StoreApi}
use openiotrsp.Esipa.Select.{is_euicc_package, decode_package_request}
use openiotrsp.Asn1.Result.Decode.{unmarshal_package_result}
use openiotrsp.Asn1.Download.{unmarshal_download_trigger_request}
use openiotrsp.Asn1.Package.Decode.{unmarshal_eim_configuration_data}
use openiotrsp.EuiccPkg.Outcome.Parse.{operation_result}
use openiotrsp.EuiccPkg.Verify.{Crypto, SignedRequest, ResultInput}
use openiotrsp.Asn1.Package.Encode.{marshal_eim_configuration_data, marshal_package_request}
use openiotrsp.Asn1.Tlv.{Bertlv, tag_ipa_euicc_data}
use openiotrsp.EuiccPkg.Result.{PackageResult}
use openiotrsp.Asn1.Package.Encode.{marshal_package_signed}
use openiotrsp.Esipa.{PublicKey, ecdsa_key}
use openiotrsp.Asn1.Esipa.Poll.{get_response}
use openiotrsp.Storage.{TenantId, OperationKind}
use openiotrsp.Asn1.Codec.{decode}
use openiotrsp.Common.{
  Bool, false, not, ◌||◌, Option, none, some, List, [], ◌∷◌, if◌then◌else◌, ◌==◌, Bytes, ascii,
  eq_nat, eq_bytes, Int64, result_not_found, on_ok, invalid_input, Result, ok, err, Context, Action,
  lift, ◌>>=◌, ◌>>◌,
}
use openiotrsp.Storage.{
  Operation, OperationStatus, euicc_package, profile_download_trigger, ipa_euicc_data, other_kind,
}
use openiotrsp.Asn1.Result.{
  EuiccPackageResult, EuiccPackageResultKind, kind_ok, EuiccPackageResultDataSigned,
  EuiccPackageResultSigned, EuiccResultData,
}
use openiotrsp.Asn1.Esipa.{
  get_euicc_package, get_ipa_euicc_data, get_profile_download_trigger, GetEimPackageResponse,
}

-- The codecs of asn1 that euiccpkg calls; the front end signs nothing.
unfoldable pub asn1_codec : {Tlv : Type 0} → Bertlv Tlv → EimCodec Tlv
unfolding marshal_eim_configuration_data decode unmarshal_eim_configuration_data
asn1_codec lib = record {
  encode = λ config. encode lib (marshal_eim_configuration_data lib config);
  decode = decode lib (unmarshal_eim_configuration_data lib);
}

unfoldable pub asn1_wire : {Tlv : Type 0} → Bertlv Tlv → Wire Tlv
unfolding marshal_package_signed marshal_package_request decode unmarshal_package_result
asn1_wire lib = record {
  sign_bytes = λ ctx input. err (invalid_input (ascii "missing signer"));
  encode_signed = λ signed. encode lib (marshal_package_signed lib signed);
  encode_request = λ request. encode lib (marshal_package_request lib request);
  decode_result = decode lib (unmarshal_package_result lib);
}

-- `result.Kind == EuiccPackageResultOK`, with the signed data
abbrev pub ok_data :
    {Tlv : Type 0}
    → EuiccPackageResultKind
    → Option (EuiccPackageResultSigned Tlv)
    → Option (EuiccPackageResultDataSigned Tlv)
ok_data kind_ok (some signed) = some signed.result_data
ok_data _ _ = none

abbrev pub ok_data_of :
    {Tlv : Type 0} → EuiccPackageResult Tlv → Option (EuiccPackageResultDataSigned Tlv)
ok_data_of result = ok_data result.kind result.signed

-- packageResultAckSequences
unfoldable pub package_result_ack_sequences : {Tlv : Type 0} → EuiccPackageResult Tlv → List Int64
package_result_ack_sequences result = elim (ok_data_of result) [
  | none ↦ []
  | some found ↦ if found.seq_number == 0 then [] else found.seq_number ∷ []
]

-- A key that no signature can be checked with is none.
abbrev pub supported_key : {Key : Type 0} → PublicKey Key → Option Key
supported_key (ecdsa_key key) = some key
supported_key _ = none

module _ {Tlv : Type 0} (lib : Bertlv Tlv) where
  -- The loop of resultStatus.
  unfoldable pub any_failure : List (EuiccResultData Tlv) → Bool
  any_failure [] = false
  any_failure (none ∷ items) = any_failure items
  any_failure (some raw ∷ items) =
      let rest = any_failure items in
      elim (lib.unmarshal_int raw) [ ok value ↦ not (value == 0) || rest | err e ↦ rest ]

  -- resultStatus
  unfoldable pub result_status : EuiccPackageResult Tlv → OperationStatus
  unfolding any_failure
  result_status result = elim (ok_data_of result) [
    | none ↦ OperationStatus.failed
    | some found ↦
        if any_failure found.results then OperationStatus.failed else OperationStatus.done
  ]

  -- The end of resultStatusForOperation.
  abbrev pub status_of_parsed : Result (PackageResult Tlv) → Result OperationStatus
  status_of_parsed (err result_not_found) = ok OperationStatus.failed
  status_of_parsed (err e) = err e
  status_of_parsed (ok parsed) =
      ok (if parsed.succeeded then OperationStatus.done else OperationStatus.failed)

  -- resultStatusForOperation
  unfoldable pub result_status_for_operation :
      Operation → EuiccPackageResult Tlv → Result OperationStatus
  unfolding result_status operation_result
  result_status_for_operation operation result = elim (ok_data_of result) [
    | none ↦ ok (result_status result)
    | some found ↦
        if not (is_euicc_package operation.kind)
        then ok (result_status result)
        else on_ok (decode_package_request lib operation.payload) (λ request. status_of_parsed (
            operation_result (result_objects lib) request.euicc_package_signed.euicc_package
              found.results))
  ]

  -- signedRequestFromOperation
  unfoldable pub signed_request_from_operation :
      TenantId → Bytes → Operation → Result (SignedRequest Tlv)
  signed_request_from_operation t eid operation =
      if not (is_euicc_package operation.kind)
      then err (invalid_input (ascii "not an eUICC package"))
      else on_ok (decode_package_request lib operation.payload) λ request.
        let signed = request.euicc_package_signed in
        ok (record {
          request = request;
          der = operation.payload;
          signed_der = [];
          signature_input_bytes = [];
          tenant_id = t;
          eid = eid;
          eid_value = signed.eid;
          eim_id = signed.eim_id;
          counter_value = signed.counter_value;
          eim_transaction_id = or_nil signed.eim_transaction_id;
          euicc_package = signed.euicc_package;
        })

  -- getEimPackageOperationResponse, by the kind of the operation
  unfoldable pub get_operation_response : OperationKind → Bytes → Result (GetEimPackageResponse Tlv)
  unfolding decode unmarshal_download_trigger_request parse_tlv
  get_operation_response euicc_package payload =
      on_ok (decode_package_request lib payload) (λ request.
        ok (record (get_response lib get_euicc_package) { euicc_package_request = some request }))
  get_operation_response profile_download_trigger payload =
      on_ok (decode lib (unmarshal_download_trigger_request lib) payload) (λ request.
        ok (record (get_response lib get_profile_download_trigger) {
          profile_download_trigger_request = some request;
        }))
  get_operation_response ipa_euicc_data payload = on_ok (parse_tlv lib payload) (λ tlv.
      if has_tag lib tlv tag_ipa_euicc_data
      then ok (record (get_response lib get_ipa_euicc_data) { ipa_euicc_data_request = some tlv })
      else err (invalid_input (ascii "IPA eUICC data operation has another tag")))
  get_operation_response (other_kind _) payload =
      err (invalid_input (ascii "unsupported operation kind"))

-- The domain result that a status is accompanied by.
abbrev pub Taken : Type 0 → Type 0
Taken Tlv = Option (PackageResult Tlv) × OperationStatus

-- The end of verifiedOperationResult.
abbrev pub taken_result : {Tlv : Type 0} → Result (PackageResult Tlv) → Result (Taken Tlv)
taken_result (err result_not_found) = ok (none, OperationStatus.failed)
taken_result (err e) = err e
taken_result (ok domain) =
    ok (some domain, if domain.succeeded then OperationStatus.done else OperationStatus.failed)

module _ {S Tlv Key : Type 0} (lib : Bertlv Tlv) (crypto : Crypto Key) (api : StoreApi S)
    (ctx : Context) (t : TenantId) (eid : Bytes) where
  -- The result of an operation as verifiedOperationResult passes it on.
  abbrev pub input_of :
      SignedRequest Tlv → Bytes → PublicKey Key → Option Int64 → ResultInput Tlv Key
  input_of request result_der public_key token = record {
    request = request;
    result_der = result_der;
    euicc_public_key = supported_key public_key;
    association_token = token;
    operation_id = 0;
    sequence_number = 0;
  }

  -- VerifyPackageResult with the codecs of asn1
  unfoldable pub verify_with :
      SignedRequest Tlv → Bytes → PublicKey Key → Option Int64 → Result (PackageResult Tlv)
  unfolding verify_package_result
  verify_with request result_der public_key token =
      verify_package_result api (asn1_codec lib) (result_objects lib) crypto (asn1_wire lib)
        request.eim_id ctx (input_of request result_der public_key token)

  -- verifiedOperationResult
  unfoldable pub verified_operation_result :
      Operation → Bytes → PublicKey Key → Action S (Taken Tlv)
  unfolding signed_request_from_operation association_token_for_eim verify_package_result
  verified_operation_result operation result_der public_key =
      lift (signed_request_from_operation lib t eid operation) >>= λ request.
      association_token_for_eim api (asn1_codec lib) (result_objects lib) crypto (asn1_wire lib)
        request.eim_id ctx t eid
      >>= λ token. lift (taken_result (verify_with request result_der public_key token))
