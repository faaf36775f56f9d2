-- ===== src/Esipa.antt =====
-- esipa/handler.go: the envelopes of the ESipa front end, its answers and its configuration. A
-- string and a byte slice are lists of bytes.
pub mod Select
pub mod Notify
pub mod Results
pub mod Apply
pub mod Resolve
pub mod Record
pub mod Forward
pub mod Handler
use openiotrsp.Asn1.Esipa.Transfer.{marshal_transfer_request, transfer_request}
use openiotrsp.Asn1.Codec.{decode, sole_child}
use openiotrsp.Asn1.Esipa.Outcome.{marshal_provide_response}
use openiotrsp.Asn1.Codec.{encode}
use openiotrsp.Asn1.Notification.{EimAcknowledgements}
use openiotrsp.Asn1.Codec.{has_tag}
use openiotrsp.Asn1.Esipa.Poll.{marshal_get_response, get_response}
use openiotrsp.Storage.{TenantId}
use openiotrsp.Asn1.Tlv.{Bertlv, tag_provide_eim_result, context_constructed}
use openiotrsp.EuiccPkg.State.{hex_encode}
use openiotrsp.Common.{
  ◌-◌, ◌/◌, Option, none, some, [], arith, if◌then◌else◌, length, ◌==◌, Bytes, ascii, eq_nat,
  eq_bytes, Int64, Error, on_ok, invalid_input, Result, ok, err, Context, ◌>>=◌, ◌>>◌,
}
use openiotrsp.Asn1.Esipa.{
  EsipaMessage, get_error, provide_acknowledgements, provide_empty, provide_error,
  transfer_eim_acknowledgements, ProvideEimPackageResultResponseKind, unmarshal_from_ipa,
  marshal_esipa_message, ProvideEimPackageResultResponse,
}

pub record Request (Tlv : Type 0) : Type 0 where
  pub message : EsipaMessage Tlv
  pub raw : Option Bytes

pub record Response (Tlv : Type 0) : Type 0 where
  pub message : EsipaMessage Tlv
  pub raw : Option Bytes

-- crypto.PublicKey: nil, a key of a type that the verification supports, or another one.
pub data PublicKey (Key : Type 0) : Type 0 where
  nil_key other_key : PublicKey Key
  ecdsa_key : Key → PublicKey Key

-- EUICCPublicKeyResolver, a callback of the host.
abbrev pub EuiccPublicKeyResolver : Type 0 → Type 0
EuiccPublicKeyResolver Key = Context → TenantId → Bytes → Result (PublicKey Key)

-- The codes of handler.go.
abbrev pub get_eim_package_error_no_package : Int64
get_eim_package_error_no_package = 1

abbrev pub get_eim_package_error_eid_not_found : Int64
get_eim_package_error_eid_not_found = 2

abbrev pub get_eim_package_error_invalid_eid : Int64
get_eim_package_error_invalid_eid = 3

abbrev pub get_eim_package_error_missing_eid : Int64
get_eim_package_error_missing_eid = 4

abbrev pub provide_result_error_eid_not_found : Int64
provide_result_error_eid_not_found = 2

abbrev pub unsupported_message : Error
unsupported_message = invalid_input (ascii "unsupported IPA-to-eIM message")

-- eidKey: the key of the device, or the code of the error.
pub data EidKey : Type 0 where
  known_eid : Bytes → EidKey
  eid_error : Int64 → EidKey

unfoldable pub eid_key : Bytes → EidKey
unfolding hex_encode
eid_key eid =
    if length eid == 0
    then eid_error get_eim_package_error_missing_eid
    else if length eid == 16
    then known_eid (hex_encode eid)
    else eid_error get_eim_package_error_invalid_eid

-- `Response{}`
abbrev pub empty_response : {Tlv : Type 0} → Response Tlv
empty_response = record { message = record { raw = none }; raw = none }

-- responseFromMarshaler, from what the structure marshals to
abbrev pub response_from_marshaler : {Tlv : Type 0} → Result Tlv → Result (Response Tlv)
response_from_marshaler marshaled =
    on_ok marshaled (λ tlv. ok (record { message = record { raw = some tlv }; raw = none }))

module _ {Tlv : Type 0} (lib : Bertlv Tlv) where
  -- getEimPackageErrorResponse
  unfoldable pub get_eim_package_error_response : Int64 → Result (Response Tlv)
  unfolding marshal_get_response
  get_eim_package_error_response code = response_from_marshaler (
      marshal_get_response lib (record (get_response lib get_error) { response_error = some code }))

  abbrev pub provide_response :
      ProvideEimPackageResultResponseKind → ProvideEimPackageResultResponse Tlv
  provide_response kind = record {
    kind = kind;
    raw = none;
    acknowledgements = none;
    response_error = none;
  }

  -- provideResultEmptyResponse
  unfoldable pub provide_result_empty_response : Result (Response Tlv)
  unfolding marshal_provide_response
  provide_result_empty_response =
      response_from_marshaler (marshal_provide_response lib (provide_response provide_empty))

  -- `if ack == nil { ack = &EimAcknowledgements{} }`
  abbrev pub ack_or_empty : Option EimAcknowledgements → EimAcknowledgements
  ack_or_empty none = record { sequence_numbers = [] }
  ack_or_empty (some ack) = ack

  -- provideResultAckResponse
  unfoldable pub provide_result_ack_response : Option EimAcknowledgements → Result (Response Tlv)
  unfolding marshal_provide_response
  provide_result_ack_response ack = response_from_marshaler (
      marshal_provide_response lib (record (provide_response provide_acknowledgements) {
        acknowledgements = some (ack_or_empty ack);
      }))

  -- provideResultErrorResponse
  unfoldable pub provide_result_error_response : Int64 → Result (Response Tlv)
  unfolding marshal_provide_response
  provide_result_error_response code = response_from_marshaler (
      marshal_provide_response lib
        (record (provide_response provide_error) { response_error = some code }))

  -- transferAckResponse
  unfoldable pub transfer_ack_response : Option EimAcknowledgements → Result (Response Tlv)
  unfolding marshal_transfer_request
  transfer_ack_response ack = response_from_marshaler (
      marshal_transfer_request lib (record (transfer_request lib transfer_eim_acknowledgements) {
        eim_acknowledgements = some (ack_or_empty ack);
      }))

  -- DecodeRequest
  unfoldable pub decode_request : Bytes → Result (Request Tlv)
  unfolding decode unmarshal_from_ipa
  decode_request input =
      on_ok (decode lib (unmarshal_from_ipa lib) input)
        (λ message. ok (record { message = message; raw = some input }))

  -- EncodeResponse
  unfoldable pub encode_response : Response Tlv → Result Bytes
  encode_response response = elim response.raw [
    | some bytes ↦ ok bytes
    | none ↦ encode lib (marshal_esipa_message response.message)
  ]

  -- provideResultTLV, of esipa/eid_resolve.go
  unfoldable pub provide_result_tlv : Tlv → Option Tlv
  provide_result_tlv message =
      let direct : Tlv → Option Tlv =
        λ found. if has_tag lib found tag_provide_eim_result then some found else none in
      if has_tag lib message (context_constructed 61)
      then (elim (sole_child lib message) [ ok child ↦ direct child | err e ↦ none ])
      else direct message
