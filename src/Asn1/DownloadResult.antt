-- ===== src/Asn1/DownloadResult.antt =====
-- asn1/result.go: results of profile download triggers.
use openiotrsp.Asn1.Notification.{unmarshal_installation_result}
use openiotrsp.Asn1.Notification.{ProfileInstallationResult}
use openiotrsp.Asn1.Notification.{marshal_installation_result}
use openiotrsp.Common.{
  Bool, Option, none, some, List, [], ◌∷◌, ◌++◌, if◌then◌else◌, Bytes, ascii, eq_nat, eq_bytes,
  Int64, on_ok, encoding_error, Result, ok, err,
}
use openiotrsp.Prelude.Fallible.{◌>>=◌, ◌>>◌, required}
use openiotrsp.Asn1.Codec.{
  unexpected_tag, has_tag, expect_tag, integer_value, octet_tlv, optional_value, field,
}
use openiotrsp.Asn1.Tlv.{
  Bertlv, eq_tag, context_primitive, tag_sequence, tag_octet, tag_download_trig,
  tag_profile_install,
}

pub record ProfileDownloadError : Type 0 where
  pub reason : Int64
  pub error_response : Option Bytes

pub record ProfileDownloadTriggerResult (Tlv : Type 0) : Type 0 where
  pub eim_transaction_id : Option Bytes
  pub profile_installation : Option (ProfileInstallationResult Tlv)
  pub profile_installation_raw : Option Tlv
  pub profile_installation_succeeded : Option Bool
  pub download_error : Option ProfileDownloadError

module _ {Tlv : Type 0} (lib : Bertlv Tlv) where
  -- ProfileDownloadError
  unfoldable pub marshal_download_error : ProfileDownloadError → Result Tlv
  marshal_download_error e = do
    reason ← lib.marshal_int (context_primitive 0) e.reason
    ok (lib.new_children tag_sequence (reason ∷ field (octet_tlv lib tag_octet) e.error_response))

  unfoldable pub unmarshal_download_error : Tlv → Result ProfileDownloadError
  unmarshal_download_error tlv = do
    expect_tag lib tlv tag_sequence
    reason ← integer_value lib (lib.first tlv (context_primitive 0))
    ok (record { reason = reason; error_response = optional_value lib (lib.first tlv tag_octet) })

  -- The switch of ProfileDownloadTriggerResult.MarshalBERTLV.
  unfoldable pub marshal_trigger_result_data : ProfileDownloadTriggerResult Tlv → Result Tlv
  unfolding marshal_installation_result marshal_download_error
  marshal_trigger_result_data r = elim r.profile_installation [
    | some installation ↦ marshal_installation_result lib installation
    | none ↦ elim r.profile_installation_raw [
      | some raw ↦ if has_tag lib raw tag_profile_install then ok raw else err unexpected_tag
      | none ↦
          required (encoding_error (ascii "requires result data")) marshal_download_error
            r.download_error
    ]
  ]

  -- ProfileDownloadTriggerResult.MarshalBERTLV
  unfoldable pub marshal_trigger_result : ProfileDownloadTriggerResult Tlv → Result Tlv
  unfolding marshal_trigger_result_data
  marshal_trigger_result r = do
    child ← marshal_trigger_result_data r
    ok (
        lib.new_children tag_download_trig
          (field (octet_tlv lib (context_primitive 2)) r.eim_transaction_id ++ child ∷ []))

  -- profileDownloadResultData
  unfoldable pub profile_download_result_data : List Tlv → Option Tlv
  profile_download_result_data [] = none
  profile_download_result_data (child ∷ rest) =
      if has_tag lib child (context_primitive 2)
      then profile_download_result_data rest
      else some child

  abbrev pub installation_succeeded : ProfileInstallationResult Tlv → Option Bool
  installation_succeeded installation = elim installation.result_data [
    | none ↦ none
    | some found ↦ found.succeeded
  ]

  -- The switch of ProfileDownloadTriggerResult.UnmarshalBERTLV.
  unfoldable pub unmarshal_trigger_result_data :
      Option Bytes → Tlv → Result (ProfileDownloadTriggerResult Tlv)
  unfolding unmarshal_installation_result unmarshal_download_error
  unmarshal_trigger_result_data id child =
      if has_tag lib child tag_profile_install
      then on_ok (unmarshal_installation_result lib child) (λ installation. ok (record {
        eim_transaction_id = id;
        profile_installation = some installation;
        profile_installation_raw = some child;
        profile_installation_succeeded = installation_succeeded installation;
        download_error = none;
      }))
      else if has_tag lib child tag_sequence
      then on_ok (unmarshal_download_error child) (λ found. ok (record {
        eim_transaction_id = id;
        profile_installation = none;
        profile_installation_raw = none;
        profile_installation_succeeded = none;
        download_error = some found;
      }))
      else err unexpected_tag

  -- ProfileDownloadTriggerResult.UnmarshalBERTLV
  unfoldable pub unmarshal_trigger_result : Tlv → Result (ProfileDownloadTriggerResult Tlv)
  unfolding profile_download_result_data unmarshal_trigger_result_data
  unmarshal_trigger_result tlv = do
    expect_tag lib tlv tag_download_trig
    required (encoding_error (ascii "missing ProfileDownloadTriggerResult data"))
        (unmarshal_trigger_result_data (optional_value lib (lib.first tlv (context_primitive 2))))
        (profile_download_result_data (lib.children tlv))
