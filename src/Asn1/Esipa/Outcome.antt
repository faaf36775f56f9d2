-- ===== src/Asn1/Esipa/Outcome.antt =====
-- asn1/esipa.go: providing the result of a package and the answer.
use openiotrsp.Asn1.DownloadResult.{unmarshal_trigger_result}
use openiotrsp.Asn1.IpaData.Response.{unmarshal_ipa_euicc_data_response}
use openiotrsp.Asn1.Notification.{unmarshal_acknowledgements, unmarshal_notification_list}
use openiotrsp.Asn1.Notification.{marshal_acknowledgements}
use openiotrsp.Asn1.Result.Decode.{unmarshal_package_result}
use openiotrsp.Asn1.Esipa.{
  EimPackageResultResponseError, EimPackageResult, EimPackageResultKind, ProvideEimPackageResult,
  ProvideEimPackageResultResponse, ProvideEimPackageResultResponseKind, provided_euicc_package,
  provided_epr_and_notifications, provided_ipa_euicc_data, provided_profile_download,
  provided_error, provide_acknowledgements, provide_empty, provide_error, provide_other,
}
use openiotrsp.Common.{
  Bool, false, not, ◌&&◌, ◌||◌, Option, none, some, List, [], ◌∷◌, ◌++◌, if◌then◌else◌, ascii,
  eq_nat, eq_bytes, on_ok, encoding_error, Result, ok, err,
}
use openiotrsp.Prelude.Fallible.{◌>>=◌, ◌>>◌, optional, required}
use openiotrsp.Asn1.Codec.{
  unexpected_tag, has_tag, expect_tag, integer_value, octet_tlv, optional_value, sole_child, field,
}
use openiotrsp.Asn1.Tlv.{
  Bertlv, eq_tag, context_primitive, context_constructed, tag_sequence, tag_integer, tag_eid,
  tag_euicc_pkg, tag_ipa_euicc_data, tag_eim_ack, tag_download_trig, tag_provide_eim_result,
  tag_notification_list,
}

module _ {Tlv : Type 0} (lib : Bertlv Tlv) where
  -- EimPackageResultResponseError.MarshalBERTLV
  unfoldable pub marshal_result_error : EimPackageResultResponseError → Result Tlv
  marshal_result_error e = on_ok (lib.marshal_int tag_integer e.code) (λ code. ok (
      lib.new_children tag_sequence
        (field (octet_tlv lib (context_primitive 0)) e.eim_transaction_id ++ code ∷ [])))

  -- EimPackageResultResponseError.UnmarshalBERTLV
  unfoldable pub unmarshal_result_error : Tlv → Result EimPackageResultResponseError
  unmarshal_result_error tlv = do
    expect_tag lib tlv tag_sequence
    code ← integer_value lib (lib.first tlv tag_integer)
    ok (record {
      eim_transaction_id = optional_value lib (lib.first tlv (context_primitive 0));
      code = code;
    })

  abbrev pub starts_with_package : List Tlv → Bool
  starts_with_package [] = false
  starts_with_package (child ∷ _) = has_tag lib child tag_euicc_pkg

  -- isEimPackageResultTLV
  unfoldable pub is_eim_package_result_tlv : Tlv → Bool
  is_eim_package_result_tlv tlv =
      has_tag lib tlv tag_euicc_pkg
      || has_tag lib tlv tag_ipa_euicc_data
      || has_tag lib tlv tag_download_trig
      || has_tag lib tlv (context_constructed 0)
      || has_tag lib tlv tag_integer
      || (has_tag lib tlv tag_sequence && starts_with_package (lib.children tlv))

  -- `EimPackageResult{Raw: cloneTLV(tlv)}` of a kind
  abbrev pub result_of : EimPackageResultKind → Tlv → EimPackageResult Tlv
  result_of kind tlv = record {
    kind = kind;
    raw = some tlv;
    euicc_package_result = none;
    notifications = none;
    ipa_euicc_data_response = none;
    profile_download_result = none;
    response_error = none;
  }

  -- The second case of EimPackageResult.UnmarshalBERTLV.
  unfoldable pub unmarshal_epr_and_notifications : Tlv → Result (EimPackageResult Tlv)
  unfolding unmarshal_package_result unmarshal_notification_list
  unmarshal_epr_and_notifications tlv = do
    found ← optional (unmarshal_package_result lib) (lib.first tlv tag_euicc_pkg)
    listed ← optional (unmarshal_notification_list lib) (lib.first tlv tag_notification_list)
    ok (record (result_of provided_epr_and_notifications tlv) {
      euicc_package_result = found;
      notifications = listed;
    })

  -- EimPackageResult.UnmarshalBERTLV; the switch has a case for each tag that the guard lets pass.
  unfoldable pub unmarshal_eim_package_result : Tlv → Result (EimPackageResult Tlv)
  unfolding is_eim_package_result_tlv unmarshal_epr_and_notifications unmarshal_package_result
      unmarshal_ipa_euicc_data_response unmarshal_trigger_result unmarshal_result_error
  unmarshal_eim_package_result tlv =
      if not (is_eim_package_result_tlv tlv)
      then err unexpected_tag
      else if has_tag lib tlv tag_euicc_pkg
      then on_ok (unmarshal_package_result lib tlv) (λ found.
        ok (record (result_of provided_euicc_package tlv) { euicc_package_result = some found }))
      else if has_tag lib tlv tag_sequence
      then unmarshal_epr_and_notifications tlv
      else if has_tag lib tlv tag_ipa_euicc_data
      then on_ok (unmarshal_ipa_euicc_data_response lib tlv) (λ found.
        ok
          (record (result_of provided_ipa_euicc_data tlv) { ipa_euicc_data_response = some found }))
      else if has_tag lib tlv tag_download_trig
      then on_ok (unmarshal_trigger_result lib tlv) (λ found.
        ok (record (result_of provided_profile_download tlv) {
          profile_download_result = some found;
        }))
      else if has_tag lib tlv (context_constructed 0)
      then on_ok (unmarshal_result_error (lib.new_children tag_sequence (lib.children tlv)))
          (λ found. ok (record (result_of provided_error tlv) { response_error = some found }))
      else on_ok (lib.unmarshal_int tlv) (λ code. ok (record (result_of provided_error tlv) {
        response_error = some (record { eim_transaction_id = none; code = code });
      }))

  -- The loop of ProvideEimPackageResult.UnmarshalBERTLV.
  unfoldable pub provided_child : List Tlv → Option Tlv
  provided_child [] = none
  provided_child (child ∷ rest) =
      let later = provided_child rest in if has_tag lib child tag_eid then later else some child

  -- ProvideEimPackageResult.UnmarshalBERTLV
  unfoldable pub unmarshal_provide_result : Tlv → Result (ProvideEimPackageResult Tlv)
  unfolding provided_child unmarshal_eim_package_result
  unmarshal_provide_result tlv = do
    expect_tag lib tlv tag_provide_eim_result
    found ←
        required (encoding_error (ascii "missing EimPackageResult")) unmarshal_eim_package_result
          (provided_child (lib.children tlv))
    ok (record { eid = optional_value lib (lib.first tlv tag_eid); eim_package_result = found })

  -- The switch of ProvideEimPackageResultResponse.provideResponseChild.
  unfoldable pub provide_response_kind :
      ProvideEimPackageResultResponseKind → ProvideEimPackageResultResponse Tlv → Result Tlv
  unfolding marshal_acknowledgements
  provide_response_kind provide_acknowledgements r =
      required (encoding_error (ascii "missing EimAcknowledgements")) (marshal_acknowledgements lib)
        r.acknowledgements
  provide_response_kind provide_empty r = ok (lib.new_children tag_sequence [])
  provide_response_kind provide_error r =
      required (encoding_error (ascii "missing ProvideEimPackageResultResponse error"))
        (lib.marshal_int tag_integer) r.response_error
  provide_response_kind (provide_other _) r =
      err (encoding_error (ascii "unknown ProvideEimPackageResultResponse kind"))

  -- provideResponseChild
  unfoldable pub provide_response_child : ProvideEimPackageResultResponse Tlv → Result Tlv
  unfolding provide_response_kind
  provide_response_child r = elim r.raw [
    | some raw ↦ ok raw
    | none ↦ provide_response_kind r.kind r
  ]

  -- ProvideEimPackageResultResponse.MarshalBERTLV
  unfoldable pub marshal_provide_response : ProvideEimPackageResultResponse Tlv → Result Tlv
  unfolding provide_response_child
  marshal_provide_response r =
      on_ok (provide_response_child r)
        (λ child. ok (lib.new_children tag_provide_eim_result (child ∷ [])))

  -- ProvideEimPackageResultResponse.UnmarshalBERTLV
  unfoldable pub unmarshal_provide_response : Tlv → Result (ProvideEimPackageResultResponse Tlv)
  unfolding unmarshal_acknowledgements
  unmarshal_provide_response tlv = do
    expect_tag lib tlv tag_provide_eim_result
    child ← sole_child lib tlv
    if has_tag lib child tag_eim_ack
        then on_ok (unmarshal_acknowledgements lib child) (λ found. ok (record {
          kind = provide_acknowledgements;
          raw = some child;
          acknowledgements = some found;
          response_error = none;
        }))
        else if has_tag lib child tag_sequence
        then ok (record {
          kind = provide_empty;
          raw = some child;
          acknowledgements = none;
          response_error = none;
        })
        else if has_tag lib child tag_integer
        then on_ok (lib.unmarshal_int child) (λ code. ok (record {
          kind = provide_error;
          raw = some child;
          acknowledgements = none;
          response_error = some code;
        }))
        else err unexpected_tag
