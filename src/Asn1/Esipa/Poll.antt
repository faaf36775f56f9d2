-- ===== src/Asn1/Esipa/Poll.antt =====
-- asn1/esipa.go: asking for a package and the answer.
use openiotrsp.Asn1.Download.{marshal_download_trigger_request}
use openiotrsp.Asn1.Download.{unmarshal_download_trigger_request}
use openiotrsp.Asn1.Package.Encode.{marshal_package_request}
use openiotrsp.Asn1.Package.Decode.{unmarshal_package_request}
use openiotrsp.Asn1.Esipa.{
  GetEimPackageRequest, GetEimPackageResponse, GetEimPackageResponseKind, get_euicc_package,
  get_ipa_euicc_data, get_profile_download_trigger, get_error, get_other,
}
use openiotrsp.Common.{
  none, some, [], ◌∷◌, ◌++◌, if◌then◌else◌, ascii, eq_nat, eq_bytes, on_ok, encoding_error, Result,
  ok, err,
}
use openiotrsp.Prelude.Fallible.{◌>>=◌, ◌>>◌, optional, required}
use openiotrsp.Asn1.Codec.{
  unexpected_tag, has_tag, expect_tag, octet_tlv, octet_value, null_tlv, optional_value, is_present,
  sole_child, field, field_result, flag_field,
}
use openiotrsp.Asn1.Tlv.{
  Bertlv, eq_tag, context_primitive, tag_integer, tag_eid, tag_euicc_pkg, tag_ipa_euicc_data,
  tag_download_trig, tag_get_eim_package,
}

module _ {Tlv : Type 0} (lib : Bertlv Tlv) where
  -- GetEimPackageRequest.MarshalBERTLV
  unfoldable pub marshal_get_request : GetEimPackageRequest → Result Tlv
  marshal_get_request r =
      on_ok (field_result (lib.marshal_int (context_primitive 1)) r.state_change_cause) (λ cause.
        ok (
          lib.new_children tag_get_eim_package (
            octet_tlv lib tag_eid r.eid
            ∷ (flag_field (null_tlv lib (context_primitive 0)) r.notify_state_change
                ++ (cause ++ field (octet_tlv lib (context_primitive 2)) r.rplmn)))))

  -- GetEimPackageRequest.UnmarshalBERTLV
  unfoldable pub unmarshal_get_request : Tlv → Result GetEimPackageRequest
  unmarshal_get_request tlv = do
    expect_tag lib tlv tag_get_eim_package
    eid ← octet_value lib (lib.first tlv tag_eid)
    cause ← optional lib.unmarshal_int (lib.first tlv (context_primitive 1))
    ok (record {
      eid = eid;
      notify_state_change = is_present lib (lib.first tlv (context_primitive 0));
      state_change_cause = cause;
      rplmn = optional_value lib (lib.first tlv (context_primitive 2));
    })

  -- `GetEimPackageResponse{}`
  abbrev pub get_response : GetEimPackageResponseKind → GetEimPackageResponse Tlv
  get_response kind = record {
    kind = kind;
    euicc_package_request = none;
    ipa_euicc_data_request = none;
    profile_download_trigger_request = none;
    response_error = none;
  }

  -- GetEimPackageResponse.getResponseChild
  unfoldable pub get_response_child :
      GetEimPackageResponseKind → GetEimPackageResponse Tlv → Result Tlv
  unfolding marshal_package_request marshal_download_trigger_request
  get_response_child get_euicc_package r =
      required (encoding_error (ascii "missing EuiccPackageRequest")) (marshal_package_request lib)
        r.euicc_package_request
  get_response_child get_ipa_euicc_data r =
      required (encoding_error (ascii "missing IpaEuiccDataRequest")) ok r.ipa_euicc_data_request
  get_response_child get_profile_download_trigger r =
      required (encoding_error (ascii "missing ProfileDownloadTriggerRequest"))
        (marshal_download_trigger_request lib) r.profile_download_trigger_request
  get_response_child get_error r =
      required (encoding_error (ascii "missing GetEimPackageResponse error"))
        (lib.marshal_int tag_integer) r.response_error
  get_response_child (get_other _) r =
      err (encoding_error (ascii "unknown GetEimPackageResponse kind"))

  -- GetEimPackageResponse.MarshalBERTLV
  unfoldable pub marshal_get_response : GetEimPackageResponse Tlv → Result Tlv
  unfolding get_response_child
  marshal_get_response r =
      on_ok (get_response_child r.kind r)
        (λ child. ok (lib.new_children tag_get_eim_package (child ∷ [])))

  -- GetEimPackageResponse.UnmarshalBERTLV
  unfoldable pub unmarshal_get_response : Tlv → Result (GetEimPackageResponse Tlv)
  unfolding unmarshal_package_request unmarshal_download_trigger_request
  unmarshal_get_response tlv = do
    expect_tag lib tlv tag_get_eim_package
    child ← sole_child lib tlv
    if has_tag lib child tag_euicc_pkg
        then on_ok (unmarshal_package_request lib child) (λ request.
          ok (record (get_response get_euicc_package) { euicc_package_request = some request }))
        else if has_tag lib child tag_ipa_euicc_data
        then ok (record (get_response get_ipa_euicc_data) { ipa_euicc_data_request = some child })
        else if has_tag lib child tag_download_trig
        then on_ok (unmarshal_download_trigger_request lib child) (λ request.
          ok (record (get_response get_profile_download_trigger) {
            profile_download_trigger_request = some request;
          }))
        else if has_tag lib child tag_integer
        then on_ok (lib.unmarshal_int child)
            (λ code. ok (record (get_response get_error) { response_error = some code }))
        else err unexpected_tag
