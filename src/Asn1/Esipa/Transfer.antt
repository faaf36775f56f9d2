-- ===== src/Asn1/Esipa/Transfer.antt =====
-- asn1/esipa.go: handing a package over without being asked, and the answer.
use openiotrsp.Asn1.Download.{marshal_download_trigger_request}
use openiotrsp.Asn1.Download.{unmarshal_download_trigger_request}
use openiotrsp.Asn1.IpaData.Response.{unmarshal_ipa_euicc_data_response}
use openiotrsp.Asn1.Notification.{marshal_acknowledgements}
use openiotrsp.Asn1.Notification.{unmarshal_acknowledgements}
use openiotrsp.Asn1.Esipa.Outcome.{unmarshal_eim_package_result}
use openiotrsp.Asn1.Package.Decode.{unmarshal_package_request}
use openiotrsp.Asn1.Package.Encode.{marshal_package_request}
use openiotrsp.Asn1.Esipa.{
  TransferEimPackageRequest, TransferEimPackageRequestKind, TransferEimPackageResponse,
  TransferEimPackageResponseKind, EimPackageCorrelationId, EimPackageReceivedWithCid,
  EimPackageErrorWithCid, transfer_euicc_package, transfer_ipa_euicc_data,
  transfer_eim_acknowledgements, transfer_profile_download_trigger, transfer_other,
  transferred_package_result, transferred_epr_and_notifications, transferred_ipa_euicc_data,
  transferred_received, transferred_received_with_cid, transferred_error,
  transferred_error_with_cid,
}
use openiotrsp.Common.{
  Option, none, some, List, [], ◌∷◌, ◌++◌, if◌then◌else◌, ascii, eq_nat, eq_bytes, on_ok,
  encoding_error, Result, ok, err,
}
use openiotrsp.Prelude.Fallible.{◌>>=◌, ◌>>◌, required}
use openiotrsp.Asn1.Codec.{
  unexpected_tag, has_tag, expect_tag, integer_value, octet_tlv, sole_child, field,
}
use openiotrsp.Asn1.Tlv.{
  Bertlv, eq_tag, context_primitive, context_constructed, tag_sequence, tag_integer, tag_null,
  tag_eid, tag_euicc_pkg, tag_ipa_euicc_data, tag_eim_ack, tag_download_trig,
  tag_transfer_eim_package,
}

module _ {Tlv : Type 0} (lib : Bertlv Tlv) where
  -- `TransferEimPackageRequest{}`
  abbrev pub transfer_request : TransferEimPackageRequestKind → TransferEimPackageRequest Tlv
  transfer_request kind = record {
    kind = kind;
    euicc_package_request = none;
    ipa_euicc_data_request = none;
    eim_acknowledgements = none;
    profile_download_trigger_request = none;
  }

  -- TransferEimPackageRequest.transferChild
  unfoldable pub transfer_child :
      TransferEimPackageRequestKind → TransferEimPackageRequest Tlv → Result Tlv
  unfolding marshal_package_request marshal_acknowledgements marshal_download_trigger_request
  transfer_child transfer_euicc_package r =
      required (encoding_error (ascii "missing EuiccPackageRequest")) (marshal_package_request lib)
        r.euicc_package_request
  transfer_child transfer_ipa_euicc_data r =
      required (encoding_error (ascii "missing IpaEuiccDataRequest")) ok r.ipa_euicc_data_request
  transfer_child transfer_eim_acknowledgements r =
      required (encoding_error (ascii "missing EimAcknowledgements")) (marshal_acknowledgements lib)
        r.eim_acknowledgements
  transfer_child transfer_profile_download_trigger r =
      required (encoding_error (ascii "missing ProfileDownloadTriggerRequest"))
        (marshal_download_trigger_request lib) r.profile_download_trigger_request
  transfer_child (transfer_other _) r =
      err (encoding_error (ascii "unknown TransferEimPackageRequest kind"))

  -- TransferEimPackageRequest.MarshalBERTLV
  unfoldable pub marshal_transfer_request : TransferEimPackageRequest Tlv → Result Tlv
  unfolding transfer_child
  marshal_transfer_request r =
      on_ok (transfer_child r.kind r)
        (λ child. ok (lib.new_children tag_transfer_eim_package (child ∷ [])))

  -- TransferEimPackageRequest.UnmarshalBERTLV
  unfoldable pub unmarshal_transfer_request : Tlv → Result (TransferEimPackageRequest Tlv)
  unfolding unmarshal_package_request unmarshal_acknowledgements unmarshal_download_trigger_request
  unmarshal_transfer_request tlv = do
    expect_tag lib tlv tag_transfer_eim_package
    child ← sole_child lib tlv
    if has_tag lib child tag_euicc_pkg
        then on_ok (unmarshal_package_request lib child) (λ request.
          ok (record (transfer_request transfer_euicc_package) {
            euicc_package_request = some request;
          }))
        else if has_tag lib child tag_ipa_euicc_data
        then ok (record (transfer_request transfer_ipa_euicc_data) {
          ipa_euicc_data_request = some child;
        })
        else if has_tag lib child tag_eim_ack
        then on_ok (unmarshal_acknowledgements lib child) (λ found.
          ok (record (transfer_request transfer_eim_acknowledgements) {
            eim_acknowledgements = some found;
          }))
        else if has_tag lib child tag_download_trig
        then on_ok (unmarshal_download_trigger_request lib child) (λ request.
          ok (record (transfer_request transfer_profile_download_trigger) {
            profile_download_trigger_request = some request;
          }))
        else err unexpected_tag

  -- EimPackageCorrelationID.marshal: the transaction, or else the EID.
  unfoldable pub marshal_correlation : EimPackageCorrelationId → Option Tlv
  marshal_correlation c = elim c.eim_transaction_id [
    | some transaction ↦ some (octet_tlv lib (context_primitive 0) transaction)
    | none ↦ elim c.eid [ some eid ↦ some (octet_tlv lib tag_eid eid) | none ↦ none ]
  ]

  -- EimPackageCorrelationID.unmarshalChildren
  unfoldable pub unmarshal_correlation : List Tlv → EimPackageCorrelationId
  unmarshal_correlation [] = record { eim_transaction_id = none; eid = none }
  unmarshal_correlation (child ∷ rest) =
      let later = unmarshal_correlation rest in
      if has_tag lib child (context_primitive 0)
      then record { eim_transaction_id = some (lib.value child); eid = none }
      else if has_tag lib child tag_eid
      then record { eim_transaction_id = none; eid = some (lib.value child) }
      else later

  unfoldable pub correlation_fields : Option EimPackageCorrelationId → List Tlv
  unfolding marshal_correlation
  correlation_fields none = []
  correlation_fields (some c) = field (λ child. child) (marshal_correlation c)

  unfoldable pub read_correlation : List Tlv → Option EimPackageCorrelationId
  unfolding unmarshal_correlation
  read_correlation [] = none
  read_correlation (child ∷ rest) = some (unmarshal_correlation (child ∷ rest))

  -- EimPackageReceivedWithCID
  unfoldable pub marshal_received_with_cid : EimPackageReceivedWithCid → Result Tlv
  marshal_received_with_cid r =
      ok (lib.new_children (context_constructed 96) (correlation_fields r.correlation_id))

  unfoldable pub unmarshal_received_with_cid : Tlv → Result EimPackageReceivedWithCid
  unmarshal_received_with_cid tlv =
      on_ok (expect_tag lib tlv (context_constructed 96))
        (λ _. ok (record { correlation_id = read_correlation (lib.children tlv) }))

  -- EimPackageErrorWithCID
  unfoldable pub marshal_error_with_cid : EimPackageErrorWithCid → Result Tlv
  marshal_error_with_cid e = on_ok (lib.marshal_int tag_integer e.error_code) (λ code. ok (
      lib.new_children (context_constructed 97) (correlation_fields e.correlation_id ++ code ∷ [])))

  unfoldable pub unmarshal_error_with_cid : Tlv → Result EimPackageErrorWithCid
  unmarshal_error_with_cid tlv = do
    expect_tag lib tlv (context_constructed 97)
    code ← integer_value lib (lib.first tlv tag_integer)
    ok (record { correlation_id = read_correlation (lib.children tlv); error_code = code })

  -- `TransferEimPackageResponse{Raw: cloneTLV(child)}` of a kind
  abbrev pub answer_of : TransferEimPackageResponseKind → Tlv → TransferEimPackageResponse Tlv
  answer_of kind child = record {
    kind = kind;
    raw = some child;
    eim_package_result = none;
    ipa_euicc_data_response = none;
    received_with_cid = none;
    response_error = none;
    error_with_cid = none;
  }

  -- The switch of TransferEimPackageResponse.UnmarshalBERTLV.
  unfoldable pub read_transfer_answer : Tlv → Result (TransferEimPackageResponse Tlv)
  unfolding unmarshal_eim_package_result unmarshal_ipa_euicc_data_response
      unmarshal_received_with_cid unmarshal_error_with_cid
  read_transfer_answer child =
      if has_tag lib child tag_euicc_pkg
      then on_ok (unmarshal_eim_package_result lib child) (λ found.
        ok
          (record (answer_of transferred_package_result child) { eim_package_result = some found }))
      else if has_tag lib child tag_sequence
      then on_ok (unmarshal_eim_package_result lib child) (λ found.
        ok (record (answer_of transferred_epr_and_notifications child) {
          eim_package_result = some found;
        }))
      else if has_tag lib child tag_ipa_euicc_data
      then on_ok (unmarshal_ipa_euicc_data_response lib child) (λ found.
        ok (record (answer_of transferred_ipa_euicc_data child) {
          ipa_euicc_data_response = some found;
        }))
      else if has_tag lib child tag_null
      then ok (answer_of transferred_received child)
      else if has_tag lib child (context_constructed 96)
      then on_ok (unmarshal_received_with_cid child) (λ found.
        ok (record (answer_of transferred_received_with_cid child) {
          received_with_cid = some found;
        }))
      else if has_tag lib child tag_integer
      then on_ok (lib.unmarshal_int child)
          (λ code. ok (record (answer_of transferred_error child) { response_error = some code }))
      else if has_tag lib child (context_constructed 97)
      then on_ok (unmarshal_error_with_cid child) (λ found.
        ok (record (answer_of transferred_error_with_cid child) { error_with_cid = some found }))
      else err unexpected_tag

  -- TransferEimPackageResponse.UnmarshalBERTLV
  unfoldable pub unmarshal_transfer_response : Tlv → Result (TransferEimPackageResponse Tlv)
  unfolding read_transfer_answer
  unmarshal_transfer_response tlv = do
    expect_tag lib tlv tag_transfer_eim_package
    child ← sole_child lib tlv
    read_transfer_answer child
