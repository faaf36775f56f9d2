-- ===== src/Esipa/Handler.antt =====
-- esipa/handler.go: the handlers of ESipa messages. The store is there, which the code tests; the
-- relay is a parameter, and the log is not modelled.
pub mod Poll
use openiotrsp.Esipa.Forward.{Relay, tag_handle_notify, should_relay, handle_relay}
use openiotrsp.Prelude.Fallible.{required}
use openiotrsp.Esipa.Resolve.{resolve_provide_result_eid}
use openiotrsp.Esipa.Results.{get_operation_response}
use openiotrsp.Asn1.Codec.{or_nil}
use openiotrsp.Asn1.Esipa.Poll.{unmarshal_get_request, marshal_get_response}
use openiotrsp.Asn1.Esipa.Transfer.{unmarshal_transfer_response}
use openiotrsp.Esipa.Record.{record_eim_package_result, Answer}
use openiotrsp.Esipa.Select.{ensure_device_known, select_operation_for_get_eim_package}
use openiotrsp.Esipa.Notify.{store_notifications, notifications_from_handle_notification}
use openiotrsp.Storage.{normalize_tenant_id, Operation}
use openiotrsp.Asn1.Esipa.Outcome.{unmarshal_provide_result}
use openiotrsp.Pki.{X509}
use openiotrsp.EuiccPkg.Verify.{Crypto}
use openiotrsp.Storage.Api.{StoreApi}
use openiotrsp.Asn1.Tlv.{
  tag_get_eim_package, tag_eid, tag_provide_eim_result, tag_transfer_eim_package,
}
use openiotrsp.Common.{
  ◌==◌, Bool, true, false, not, Option, none, some, if◌then◌else◌, Bytes, ascii, eq_nat, eq_bytes,
  not_found, on_ok, invalid_input, Result, ok, err, Context, Action, pure, fail, lift, ◌>>=◌, ◌>>◌,
}
use openiotrsp.Asn1.Tlv.{Bertlv}
use openiotrsp.Asn1.Codec.{has_tag}
use openiotrsp.Storage.{TenantId}
use openiotrsp.Esipa.{
  Request, Response, EidKey, known_eid, eid_error, EuiccPublicKeyResolver, provide_result_tlv,
  empty_response, unsupported_message, provide_result_empty_response,
  get_eim_package_error_response, provide_result_error_response, transfer_ack_response, eid_key,
  provide_result_ack_response, get_eim_package_error_eid_not_found,
  provide_result_error_eid_not_found, get_eim_package_error_no_package, response_from_marshaler,
}

module _ {S Tlv : Type 0} (lib : Bertlv Tlv) (api : StoreApi S) (ctx : Context) (t : TenantId) where
  -- The answer to a poll that has found an operation or none; that an operation has the ID 0 is
  -- there how none is told.
  unfoldable pub answer_operation : Option Operation → Result (Response Tlv)
  unfolding get_eim_package_error_response get_operation_response marshal_get_response
  answer_operation none = get_eim_package_error_response lib get_eim_package_error_no_package
  answer_operation (some operation) =
      if operation.id == 0
      then get_eim_package_error_response lib get_eim_package_error_no_package
      else on_ok (get_operation_response lib operation.kind operation.payload)
          (λ response. response_from_marshaler (marshal_get_response lib response))

  -- What is answered once an operation is looked for.
  unfoldable pub answer_selected : Result (Option Operation) × S → Result (Response Tlv) × S
  unfolding get_eim_package_error_response answer_operation
  answer_selected (err not_found, s) =
      (get_eim_package_error_response lib get_eim_package_error_eid_not_found, s)
  answer_selected (err e, s) = (err e, s)
  answer_selected (ok found, s) = (answer_operation found, s)

  -- The device's part of handleGetEimPackage.
  unfoldable pub poll : Bytes → Action S (Response Tlv)
  unfolding ensure_device_known get_eim_package_error_response answer_operation
      select_operation_for_get_eim_package
  poll eid s = answer_selected (
      (ensure_device_known lib api ctx t eid
          >> select_operation_for_get_eim_package lib api ctx t eid)
        s)

  unfoldable pub poll_key : EidKey → Action S (Response Tlv)
  unfolding poll get_eim_package_error_response
  poll_key (eid_error code) = lift (get_eim_package_error_response lib code)
  poll_key (known_eid eid) = poll eid

  -- handleGetEimPackage
  unfoldable pub handle_get_eim_package : Tlv → Action S (Response Tlv)
  unfolding unmarshal_get_request eid_key poll_key
  handle_get_eim_package tlv =
      lift (unmarshal_get_request lib tlv) >>= λ request. poll_key (eid_key request.eid)

module _ {S Tlv Key : Type 0} (lib : Bertlv Tlv) (crypto : Crypto Key) (x509 : X509)
    (api : StoreApi S) (resolver : Option (EuiccPublicKeyResolver Key)) (unverified : Bool)
    (ctx : Context) (t : TenantId) where
  -- recordEimPackageResult, of the object of a decoded result
  unfoldable pub record_raw : Bytes → Option Tlv → Action S Answer
  unfolding record_eim_package_result
  record_raw eid none = fail (invalid_input (ascii "missing EimPackageResult"))
  record_raw eid (some tlv) =
      record_eim_package_result lib crypto x509 api resolver unverified ctx t eid tlv

  unfoldable pub provided_answer : Answer → Result (Response Tlv)
  unfolding provide_result_empty_response provide_result_ack_response
  provided_answer (ack, true) = provide_result_empty_response lib
  provided_answer (ack, false) = provide_result_ack_response lib ack

  -- What is answered once a result is recorded.
  unfoldable pub answer_recorded : Result Answer × S → Result (Response Tlv) × S
  unfolding provide_result_error_response
  answer_recorded (err not_found, s) =
      (provide_result_error_response lib provide_result_error_eid_not_found, s)
  answer_recorded (err e, s) = (err e, s)
  answer_recorded (ok answer, s) = (provided_answer answer, s)

  -- The device's part of handleProvideEimPackageResult.
  unfoldable pub provide : EidKey → Option Tlv → Action S (Response Tlv)
  unfolding provide_result_error_response record_eim_package_result
  provide (eid_error code) raw s = (provide_result_error_response lib code, s)
  provide (known_eid eid) raw s = answer_recorded (record_raw eid raw s)

  -- handleProvideEimPackageResult
  unfoldable pub handle_provide_eim_package_result : Tlv → Action S (Response Tlv)
  unfolding provide_result_tlv unmarshal_provide_result resolve_provide_result_eid provide
  handle_provide_eim_package_result tlv =
      lift
        (required unsupported_message (unmarshal_provide_result lib) (provide_result_tlv lib tlv))
      >>= λ request.
          resolve_provide_result_eid lib x509 api ctx t (or_nil request.eid)
            request.eim_package_result.raw
          >>= λ key. provide key request.eim_package_result.raw

  abbrev pub transfer_eid : Option Tlv → Option Bytes
  transfer_eid raw = elim raw [
    | none ↦ none
    | some tlv ↦ elim (lib.first tlv tag_eid) [ none ↦ none | some child ↦ some (lib.value child) ]
  ]

  unfoldable pub transferred : EidKey → Option Tlv → Action S (Response Tlv)
  unfolding transfer_ack_response
  transferred (eid_error code) raw = lift (transfer_ack_response lib none)
  transferred (known_eid eid) raw =
      record_raw eid raw >>= λ (ack, nothing). lift (transfer_ack_response lib ack)

  -- handleTransferEimPackageResponse
  unfoldable pub handle_transfer_eim_package_response : Tlv → Action S (Response Tlv)
  unfolding unmarshal_transfer_response eid_key transfer_ack_response record_eim_package_result
  handle_transfer_eim_package_response tlv =
      lift (unmarshal_transfer_response lib tlv) >>= λ request. elim (transfer_eid request.raw) [
        | none ↦ fail (invalid_input (ascii "transfer result response does not identify an EID"))
        | some eid ↦ transferred (eid_key eid) request.raw
      ]

  -- handleNotification
  unfoldable pub handle_notification : Tlv → Action S (Response Tlv)
  unfolding provide_result_tlv handle_provide_eim_package_result store_notifications
      notifications_from_handle_notification
  handle_notification tlv = elim (provide_result_tlv lib tlv) [
    | some _ ↦ handle_provide_eim_package_result tlv >> pure empty_response
    | none ↦ lift (notifications_from_handle_notification lib tlv) >>= λ found.
        store_notifications lib api ctx t found >> pure empty_response
  ]

  -- The cases after the relay's in handle.
  unfoldable pub dispatch : Tlv → Action S (Response Tlv)
  unfolding handle_get_eim_package handle_provide_eim_package_result
      handle_transfer_eim_package_response handle_notification
  dispatch tlv =
      if has_tag lib tlv tag_get_eim_package
      then handle_get_eim_package lib api ctx t tlv
      else if has_tag lib tlv tag_provide_eim_result
      then handle_provide_eim_package_result tlv
      else if has_tag lib tlv tag_transfer_eim_package
      then handle_transfer_eim_package_response tlv
      else if has_tag lib tlv tag_handle_notify
      then handle_notification tlv
      else fail unsupported_message

module _ {S Tlv Key : Type 0} (lib : Bertlv Tlv) (crypto : Crypto Key) (x509 : X509)
    (api : StoreApi S) (resolver : Option (EuiccPublicKeyResolver Key)) (unverified : Bool)
    (relay : Option Relay) (ctx : Context) (given : TenantId) where
  unfoldable pub relay_or_dispatch : Option Bytes → Tlv → Action S (Response Tlv)
  unfolding should_relay handle_relay normalize_tenant_id dispatch
  relay_or_dispatch raw tlv =
      let local : Action S (Response Tlv) =
        dispatch lib crypto x509 api resolver unverified ctx (normalize_tenant_id given) tlv in
      elim relay [
        | none ↦ local
        | some service ↦
            if should_relay lib service tlv
            then lift (handle_relay lib service ctx raw tlv)
            else local
      ]

  -- handle
  unfoldable pub handle : Request Tlv → Action S (Response Tlv)
  unfolding should_relay handle_relay normalize_tenant_id dispatch
  handle request = elim request.message.raw [
    | none ↦ fail (invalid_input (ascii "missing request message"))
    | some tlv ↦ relay_or_dispatch request.raw tlv
  ]
