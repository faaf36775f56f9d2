-- ===== src/Esipa/Record.antt =====
-- esipa/handler.go: taking in what an IPA provides.
use openiotrsp.Esipa.Apply.{for_each, take_verified, resolved_key}
use openiotrsp.Esipa.Apply.{record_trigger_result}
use openiotrsp.Esipa.Apply.{record_response_error}
use openiotrsp.Esipa.Apply.{take_unverified}
use openiotrsp.Prelude.Fallible.{required}
use openiotrsp.Esipa.Select.{matching_euicc_package_operations, pending_ipa_euicc_data_operation}
use openiotrsp.Esipa.Notify.{record_notifications_from_list, append_ack_sequences}
use openiotrsp.Esipa.Resolve.{ipa_euicc_data_transaction_id}
use openiotrsp.Asn1.Tlv.{
  tag_download_trig, tag_ipa_euicc_data, tag_integer, tag_notification_list, tag_euicc_pkg,
  context_constructed, Bertlv,
}
use openiotrsp.Asn1.Tlv.{tag_sequence}
use openiotrsp.IpaData.{apply_response}
use openiotrsp.Asn1.IpaData.Response.{unmarshal_ipa_euicc_data_response}
use openiotrsp.Asn1.Result.Decode.{unmarshal_package_result}
use openiotrsp.Esipa.Results.{package_result_ack_sequences}
use openiotrsp.Asn1.Esipa.Outcome.{unmarshal_eim_package_result}
use openiotrsp.Asn1.IpaData.{IpaEuiccDataResponse}
use openiotrsp.Storage.Api.{StoreApi}
use openiotrsp.EuiccPkg.Verify.{Crypto}
use openiotrsp.Pki.{X509}
use openiotrsp.Common.{
  Bool, true, false, ◌||◌, Option, none, some, List, [], ◌∷◌, if◌then◌else◌, Bytes, ascii, eq_nat,
  eq_bytes, Int64, not_found, on_ok, invalid_input, Result, ok, Context, Action, pure, fail, lift,
  ◌>>=◌, ◌>>◌,
}
use openiotrsp.Storage.{Operation, OperationStatus}
use openiotrsp.Asn1.Result.{EuiccPackageResult}
use openiotrsp.Esipa.{EuiccPublicKeyResolver}
use openiotrsp.Asn1.Notification.{EimAcknowledgements}
use openiotrsp.Storage.{TenantId}
use openiotrsp.Asn1.Codec.{has_tag}

-- The acknowledgements, or that there is nothing to acknowledge.
abbrev pub Answer : Type 0
Answer = Option EimAcknowledgements × Bool

abbrev acknowledged : EimAcknowledgements → Answer
acknowledged ack = (some ack, false)

module _ {S Tlv : Type 0} (lib : Bertlv Tlv) (x509 : X509) (api : StoreApi S) (ctx : Context)
    (t : TenantId) (eid : Bytes) where
  -- The status of an answer to a data request.
  abbrev pub response_status : IpaEuiccDataResponse Tlv → OperationStatus
  response_status response = elim response.response_error [
    | some _ ↦ OperationStatus.failed
    | none ↦ OperationStatus.done
  ]

  abbrev pub notifications_of : IpaEuiccDataResponse Tlv → Option Tlv
  notifications_of response = elim response.response_data [
    | none ↦ none
    | some found ↦ found.notifications_raw
  ]

  -- `len(sequenceNumbers) == 0`
  abbrev pub answer_of_numbers : List Int64 → Answer
  answer_of_numbers [] = (none, true)
  answer_of_numbers (number ∷ numbers) =
      (some (record { sequence_numbers = number ∷ numbers }), false)

  -- The end of recordIpaEuiccDataResponse, where the response is no error.
  unfoldable pub take_data : IpaEuiccDataResponse Tlv → Bytes → Action S Answer
  unfolding apply_response record_notifications_from_list append_ack_sequences
  take_data response payload =
      apply_response lib api ctx t eid x509 response payload
      >> record_notifications_from_list lib api ctx t eid (notifications_of response)
      >>= λ numbers. pure (answer_of_numbers (append_ack_sequences [] numbers))

  -- recordIpaEuiccDataResponse
  unfoldable pub record_ipa_euicc_data_response : Tlv → Bytes → Action S Answer
  unfolding unmarshal_ipa_euicc_data_response ipa_euicc_data_transaction_id
      pending_ipa_euicc_data_operation take_data
  record_ipa_euicc_data_response tlv payload =
      lift (unmarshal_ipa_euicc_data_response lib tlv) >>= λ response.
      pending_ipa_euicc_data_operation lib api ctx t eid
        (ipa_euicc_data_transaction_id lib response)
      >>= λ found. elim found [
        | none ↦ fail not_found
        | some operation ↦
            api.record_euicc_package_result ctx t (record {
              eid = eid;
              operation_id = operation.id;
              sequence_number = operation.sequence_number;
              status = response_status response;
              payload = payload;
            })
            >> elim response.response_error [
              | some _ ↦ pure (none, true)
              | none ↦ take_data response payload
            ]
      ]

module _ {S Tlv Key : Type 0} (lib : Bertlv Tlv) (crypto : Crypto Key) (x509 : X509)
    (api : StoreApi S) (resolver : Option (EuiccPublicKeyResolver Key)) (unverified : Bool)
    (ctx : Context) (t : TenantId) (eid : Bytes) where
  -- The result and the notifications of an EPRAndNotifications, or the result by itself.
  unfoldable pub result_parts : Tlv → Result (Tlv × Option Tlv)
  result_parts tlv =
      if has_tag lib tlv tag_sequence
      then required (invalid_input (ascii "EPRAndNotifications missing EuiccPackageResult"))
          (λ found. ok (found, lib.first tlv tag_notification_list)) (lib.first tlv tag_euicc_pkg)
      else ok (tlv, none)

  -- How the results of operations are taken in: verified with the key of the device, or not.
  unfoldable pub taker :
      EuiccPackageResult Tlv → Bytes → Bytes → Result (Operation → Action S (Unit {0}))
  unfolding take_unverified take_verified
  taker result result_der payload =
      if unverified
      then ok (take_unverified lib crypto api ctx t eid result payload)
      else on_ok (resolved_key lib crypto api ctx t eid resolver)
          (λ key. ok (take_verified lib crypto api ctx t eid key result_der payload))

  -- The end of recordEimPackageResult.
  unfoldable pub record_package_result : Tlv → Option Tlv → Bytes → Action S Answer
  unfolding unmarshal_package_result taker matching_euicc_package_operations for_each
      package_result_ack_sequences record_notifications_from_list append_ack_sequences
  record_package_result result_tlv notification_list payload =
      lift (unmarshal_package_result lib result_tlv) >>= λ result.
      lift (lib.marshal_binary result_tlv) >>= λ result_der.
      lift (taker result result_der payload) >>= λ take_in.
      matching_euicc_package_operations lib api ctx t eid result >>= λ operations.
      for_each lib crypto api ctx t eid take_in operations
      >> record_notifications_from_list lib api ctx t eid notification_list
      >>= λ numbers.
          let own = append_ack_sequences [] (package_result_ack_sequences result) in
          pure (acknowledged (record { sequence_numbers = append_ack_sequences own numbers }))

  -- The third case of recordEimPackageResult. The two tags always decode to the kind of an error.
  unfoldable pub record_error_result : Tlv → Bytes → Action S Answer
  unfolding unmarshal_eim_package_result record_response_error
  record_error_result tlv payload = lift (unmarshal_eim_package_result lib tlv) >>= λ result.
      record_response_error lib crypto api ctx t eid result.response_error payload >>= λ ack.
      pure (acknowledged ack)

  -- recordEimPackageResult, of an object that is there
  unfoldable pub record_eim_package_result : Tlv → Action S Answer
  unfolding record_trigger_result record_ipa_euicc_data_response record_error_result result_parts
      record_package_result
  record_eim_package_result tlv = lift (lib.marshal_binary tlv) >>= λ payload.
      if has_tag lib tlv tag_download_trig
      then (record_trigger_result lib crypto api ctx t eid tlv payload >>= λ ack.
          pure (acknowledged ack))
      else if has_tag lib tlv tag_ipa_euicc_data
      then record_ipa_euicc_data_response lib x509 api ctx t eid tlv payload
      else if has_tag lib tlv tag_integer || has_tag lib tlv (context_constructed 0)
      then record_error_result tlv payload
      else (lift (result_parts tlv) >>= λ (result_tlv, notification_list).
          record_package_result result_tlv notification_list payload)
