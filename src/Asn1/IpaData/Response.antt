-- ===== src/Asn1/IpaData/Response.antt =====
-- asn1/ipadata.go: an IPA's answer to a data request.
use openiotrsp.Asn1.IpaData.{
  tag_euicc_info1, tag_euicc_info2, tag_ipa_capabilities, EuiccInfo, IpaCapabilities, IpaEuiccData,
  IpaEuiccDataResponseError, IpaEuiccDataResponse,
}
use openiotrsp.Asn1.Result.Decode.{unmarshal_package_result}
use openiotrsp.Asn1.Notification.{is_pending_notification_tlv}
use openiotrsp.Asn1.Result.{
  EuiccPackageResultKind, EuiccPackageResult, kind_ok, EuiccResultData, DecodedProfile,
  EuiccPackageResultSigned,
}
use openiotrsp.Asn1.Result.Values.{unmarshal_profile_info_list}
use openiotrsp.Asn1.Notification.{unmarshal_notification_list}
use openiotrsp.Common.{
  Bool, true, false, not, ◌&&◌, ◌||◌, Option, none, some, List, [], ◌∷◌, ◌++◌, map, if◌then◌else◌,
  Bytes, ascii, eq_nat, eq_bytes, on_ok, encoding_error, Result, ok, err,
}
use openiotrsp.Prelude.Fallible.{◌>>=◌, ◌>>◌, optional, each}
use openiotrsp.Asn1.Codec.{
  has_tag, expect_tag, integer_value, bit_string_value, optional_value, is_present,
}
use openiotrsp.Asn1.Tlv.{
  Bertlv, eq_tag, universal_primitive, context_primitive, context_constructed, tag_sequence,
  tag_integer, tag_eid, tag_ipa_euicc_data, tag_profile_info_list,
}

module _ {Tlv : Type 0} (lib : Bertlv Tlv) where
  -- The loop of isIpaEuiccDataSuccessChoiceArm.
  unfoldable pub any_data_object : List Tlv → Bool
  unfolding is_pending_notification_tlv
  any_data_object [] = false
  any_data_object (child ∷ rest) =
      has_tag lib child (context_constructed 0)
      || not (is_pending_notification_tlv lib child)
      || any_data_object rest

  -- isIpaEuiccDataSuccessChoiceArm
  unfoldable pub is_success_choice_arm : Tlv → Bool
  unfolding any_data_object
  is_success_choice_arm tlv = elim (lib.children tlv) [
    | [] ↦ true
    | child ∷ rest ↦ any_data_object (child ∷ rest)
  ]

  -- The switch of unwrapIpaEuiccDataResponseChoice.
  unfoldable pub unwrap_sole_child : Tlv → Tlv → Tlv × Bool
  unfolding is_success_choice_arm
  unwrap_sole_child tlv child =
      if has_tag lib child (context_constructed 0) && is_success_choice_arm child
      then (lib.new_children tag_ipa_euicc_data (lib.children child), false)
      else if has_tag lib child (context_constructed 1)
      then (lib.new_children tag_ipa_euicc_data (lib.children child), true)
      else (tlv, false)

  -- unwrapIpaEuiccDataResponseChoice
  unfoldable pub unwrap_response_choice : Tlv → Tlv × Bool
  unfolding unwrap_sole_child
  unwrap_response_choice tlv = elim (lib.children tlv) [
    | [] ↦ (tlv, false)
    | child ∷ rest ↦ elim rest [ [] ↦ unwrap_sole_child tlv child | _ ∷ _ ↦ (tlv, false) ]
  ]

  -- IpaEuiccDataObjects; no objects for an error response
  unfoldable pub ipa_euicc_data_objects : Tlv → List Tlv
  unfolding unwrap_response_choice
  ipa_euicc_data_objects tlv =
      let (content, is_error) = unwrap_response_choice tlv in
      if is_error || is_present lib (lib.first content tag_integer)
      then []
      else lib.children content

  -- CertificateDERFromTagged
  unfoldable pub certificate_der_from_tagged : Tlv → Result Bytes
  certificate_der_from_tagged wrapper = elim (lib.children wrapper) [
    | [] ↦ err (encoding_error (ascii "missing Certificate TLV"))
    | a ∷ rest ↦ elim rest [
      | [] ↦
          if has_tag lib a tag_sequence
          then lib.marshal_binary a
          else err (encoding_error (ascii "Certificate TLV is neither SEQUENCE nor siblings"))
      | b ∷ more ↦ elim more [
        | [] ↦ err (encoding_error (ascii "Certificate TLV is neither SEQUENCE nor siblings"))
        | c ∷ _ ↦
            if has_tag lib a tag_sequence
              && has_tag lib b tag_sequence
              && has_tag lib c (universal_primitive 3)
            then lib.marshal_binary (lib.new_children tag_sequence (a ∷ b ∷ c ∷ []))
            else err (encoding_error (ascii "Certificate TLV is neither SEQUENCE nor siblings"))
      ]
    ]
  ]

  -- IpaEuiccDataResponseError.unmarshal
  unfoldable pub unmarshal_response_error : Tlv → Result IpaEuiccDataResponseError
  unmarshal_response_error tlv = do
    code ← integer_value lib (lib.first tlv tag_integer)
    ok (record {
      eim_transaction_id = optional_value lib (lib.first tlv (context_primitive 0));
      code = code;
    })

  -- subjectKeyIdentifiers
  abbrev pub subject_key_identifiers : Option Tlv → List Bytes
  subject_key_identifiers none = []
  subject_key_identifiers (some tlv) = map lib.value (lib.children tlv)

  -- unmarshalEUICCInfo
  unfoldable pub unmarshal_euicc_info : Tlv → EuiccInfo Tlv
  unmarshal_euicc_info tlv = record {
    profile_version = optional_value lib (lib.first tlv (context_primitive 1));
    svn = optional_value lib (lib.first tlv (context_primitive 2));
    firmware_version = optional_value lib (lib.first tlv (context_primitive 3));
    verification_ci_pkids = subject_key_identifiers (lib.first tlv (context_constructed 9));
    signing_ci_pkids = subject_key_identifiers (lib.first tlv (context_constructed 10));
    signing_v3_ci_pkids = subject_key_identifiers (lib.first tlv (context_constructed 17));
    raw = some tlv;
  }

  abbrev pub bits_or_none : Option (List Bool) → List Bool
  bits_or_none none = []
  bits_or_none (some bits) = bits

  -- unmarshalIPACapabilities
  unfoldable pub unmarshal_ipa_capabilities : Tlv → Result (IpaCapabilities Tlv)
  unmarshal_ipa_capabilities tlv = do
    features ← optional (bit_string_value lib) (lib.first tlv (context_primitive 0))
    protocols ← optional (bit_string_value lib) (lib.first tlv (context_primitive 1))
    ok (record {
      features = bits_or_none features;
      supported_protocols = bits_or_none protocols;
      raw = some tlv;
    })

  -- The inner loop of profilesFromPackageResults.
  unfoldable pub profiles_of_items : List (EuiccResultData Tlv) → List DecodedProfile
  unfolding unmarshal_profile_info_list
  profiles_of_items [] = []
  profiles_of_items (none ∷ items) = profiles_of_items items
  profiles_of_items (some raw ∷ items) =
      let rest = profiles_of_items items in
      if has_tag lib raw tag_profile_info_list
      then (elim (unmarshal_profile_info_list lib raw) [
        | ok decoded ↦ decoded.profiles ++ rest
        | err e ↦ rest
      ])
      else rest

  abbrev pub signed_items :
      EuiccPackageResultKind → Option (EuiccPackageResultSigned Tlv) → List (EuiccResultData Tlv)
  signed_items kind_ok (some signed) = signed.result_data.results
  signed_items _ _ = []

  -- profilesFromPackageResults
  unfoldable pub profiles_from_package_results : List (EuiccPackageResult Tlv) → List DecodedProfile
  unfolding profiles_of_items
  profiles_from_package_results [] = []
  profiles_from_package_results (result ∷ results) =
      profiles_of_items (signed_items result.kind result.signed)
      ++ profiles_from_package_results results

abbrev pub empty_ipa_data : {Tlv : Type 0} → IpaEuiccData Tlv
empty_ipa_data = record {
  eid = none;
  notifications = [];
  notifications_raw = none;
  default_smdp_address = none;
  euicc_package_results = [];
  euicc_package_result_raw = none;
  euicc_info1 = none;
  euicc_info1_raw = none;
  euicc_info2 = none;
  euicc_info2_raw = none;
  root_smds_address = none;
  association_token = none;
  eum_certificate_raw = none;
  euicc_certificate_raw = none;
  eim_transaction_id = none;
  ipa_capabilities = none;
  ipa_capabilities_raw = none;
  device_info_raw = none;
  profile_info_list_present = false;
  profiles = [];
  raw_objects = [];
}

module _ {Tlv : Type 0} (lib : Bertlv Tlv) where
  -- The switch in the loop of IpaEuiccData.unmarshal.
  unfoldable pub read_data_object : Tlv → IpaEuiccData Tlv → Result (IpaEuiccData Tlv)
  unfolding unmarshal_notification_list unmarshal_package_result profiles_from_package_results
      unmarshal_euicc_info unmarshal_ipa_capabilities unmarshal_profile_info_list
  read_data_object child out =
      if has_tag lib child tag_eid
      then ok (record out { eid = some (lib.value child) })
      else if has_tag lib child (context_constructed 0)
      then on_ok (unmarshal_notification_list lib child) (λ found.
        ok (record out { notifications_raw = some child; notifications = found.notifications }))
      else if has_tag lib child (context_primitive 1)
      then ok (record out { default_smdp_address = some (lib.value child) })
      else if has_tag lib child (context_constructed 2)
      then on_ok (each (unmarshal_package_result lib) (lib.children child)) (λ found.
        ok (record out {
          euicc_package_result_raw = some child;
          euicc_package_results = found;
          profiles = out.profiles ++ profiles_from_package_results lib found;
        }))
      else if has_tag lib child tag_euicc_info1
      then ok (record out {
        euicc_info1_raw = some child;
        euicc_info1 = some (unmarshal_euicc_info lib child);
      })
      else if has_tag lib child tag_euicc_info2
      then ok (record out {
        euicc_info2_raw = some child;
        euicc_info2 = some (unmarshal_euicc_info lib child);
      })
      else if has_tag lib child (context_primitive 3)
      then ok (record out { root_smds_address = some (lib.value child) })
      else if has_tag lib child (context_primitive 4)
      then on_ok (lib.unmarshal_int child)
          (λ value. ok (record out { association_token = some value }))
      else if has_tag lib child (context_constructed 5)
      then ok (record out { eum_certificate_raw = some child })
      else if has_tag lib child (context_constructed 6)
      then ok (record out { euicc_certificate_raw = some child })
      else if has_tag lib child (context_primitive 7)
      then ok (record out { eim_transaction_id = some (lib.value child) })
      else if has_tag lib child tag_ipa_capabilities
      then on_ok (unmarshal_ipa_capabilities lib child) (λ found.
        ok (record out { ipa_capabilities_raw = some child; ipa_capabilities = some found }))
      else if has_tag lib child (context_constructed 9)
      then ok (record out { device_info_raw = some child })
      else if has_tag lib child tag_profile_info_list
      then on_ok (unmarshal_profile_info_list lib child) (λ found. ok (record out {
        profile_info_list_present = true;
        profiles = out.profiles ++ found.profiles;
      }))
      else ok out

  -- The loop of IpaEuiccData.unmarshal.
  unfoldable pub read_data_objects : List Tlv → IpaEuiccData Tlv → Result (IpaEuiccData Tlv)
  unfolding read_data_object
  read_data_objects [] out = ok out
  read_data_objects (child ∷ rest) out =
      on_ok (read_data_object child (record out { raw_objects = out.raw_objects ++ child ∷ [] }))
        (λ next. read_data_objects rest next)

  -- IpaEuiccDataResponse.UnmarshalBERTLV
  unfoldable pub unmarshal_ipa_euicc_data_response : Tlv → Result (IpaEuiccDataResponse Tlv)
  unfolding unwrap_response_choice unmarshal_response_error read_data_objects
  unmarshal_ipa_euicc_data_response tlv = do
    expect_tag lib tlv tag_ipa_euicc_data
    let (content, is_error) = unwrap_response_choice lib tlv
    if is_error || is_present lib (lib.first content tag_integer)
        then on_ok (unmarshal_response_error lib content)
            (λ found. ok (record { response_data = none; response_error = some found }))
        else on_ok (read_data_objects (lib.children content) empty_ipa_data)
            (λ found. ok (record { response_data = some found; response_error = none }))
