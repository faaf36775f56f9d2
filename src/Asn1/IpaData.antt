-- ===== src/Asn1/IpaData.antt =====
-- asn1/ipadata.go: the data that an IPA reads from its eUICC.
pub mod Response
use openiotrsp.Asn1.Result.{EuiccPackageResult, DecodedProfile}
use openiotrsp.Asn1.Notification.{PendingNotification}
use openiotrsp.Common.{
  Bool, Option, none, some, List, [], ◌∷◌, ◌++◌, if◌then◌else◌, Bytes, ascii, eq_nat, eq_bytes,
  bytes_eq, Int64, on_ok, encoding_error, Result, ok, err,
}
use openiotrsp.Prelude.Fallible.{◌>>=◌, ◌>>◌, optional, required}
use openiotrsp.Asn1.Codec.{
  unexpected_tag, has_tag, expect_tag, integer_value, octet_tlv, octet_value, optional_value,
  sole_child, field, field_result,
}
use openiotrsp.Asn1.Tlv.{
  Tag, Bertlv, eq_tag, application_primitive, context_primitive, context_constructed, tag_octet,
  tag_ipa_euicc_data,
}

abbrev pub tag_tag_list : Tag
tag_tag_list = application_primitive 28

abbrev pub tag_euicc_info1 : Tag
tag_euicc_info1 = context_constructed 32

abbrev pub tag_euicc_info2 : Tag
tag_euicc_info2 = context_constructed 34

abbrev pub tag_ipa_capabilities : Tag
tag_ipa_capabilities = context_constructed 8

module _ (Tlv : Type 0) where
  pub record NotificationSearchCriteria : Type 0 where
    pub seq_number : Option Int64
    pub profile_management_operation_raw : Option Tlv

  pub record IpaEuiccDataRequest : Type 0 where
    pub tag_list : Bytes
    pub euicc_ci_pk_identifier_to_be_used : Option Bytes
    pub search_criteria_notification : Option NotificationSearchCriteria
    pub search_criteria_euicc_package_result : Option Int64
    pub eim_transaction_id : Option Bytes

  pub record EuiccInfo : Type 0 where
    pub profile_version : Option Bytes
    pub svn : Option Bytes
    pub firmware_version : Option Bytes
    pub verification_ci_pkids : List Bytes
    pub signing_ci_pkids : List Bytes
    pub signing_v3_ci_pkids : List Bytes
    pub raw : Option Tlv

  pub record IpaCapabilities : Type 0 where
    pub features : List Bool
    pub supported_protocols : List Bool
    pub raw : Option Tlv

  pub record IpaEuiccData : Type 0 where
    pub eid : Option Bytes
    pub notifications : List (PendingNotification Tlv)
    pub notifications_raw : Option Tlv
    pub default_smdp_address : Option Bytes
    pub euicc_package_results : List (EuiccPackageResult Tlv)
    pub euicc_package_result_raw : Option Tlv
    pub euicc_info1 : Option EuiccInfo
    pub euicc_info1_raw : Option Tlv
    pub euicc_info2 : Option EuiccInfo
    pub euicc_info2_raw : Option Tlv
    pub root_smds_address : Option Bytes
    pub association_token : Option Int64
    pub eum_certificate_raw : Option Tlv
    pub euicc_certificate_raw : Option Tlv
    pub eim_transaction_id : Option Bytes
    pub ipa_capabilities : Option IpaCapabilities
    pub ipa_capabilities_raw : Option Tlv
    pub device_info_raw : Option Tlv
    pub profile_info_list_present : Bool
    pub profiles : List DecodedProfile
    pub raw_objects : List Tlv

pub record IpaEuiccDataResponseError : Type 0 where
  pub eim_transaction_id : Option Bytes
  pub code : Int64

pub record IpaEuiccDataResponse (Tlv : Type 0) : Type 0 where
  pub response_data : Option (IpaEuiccData Tlv)
  pub response_error : Option IpaEuiccDataResponseError

module _ {Tlv : Type 0} (lib : Bertlv Tlv) where
  -- IpaEuiccDataNotificationSearchCriteria
  unfoldable pub marshal_notification_criteria : NotificationSearchCriteria Tlv → Result Tlv
  marshal_notification_criteria c = elim c.seq_number [
    | some number ↦
        on_ok (lib.marshal_int (context_primitive 0) number)
          (λ child. ok (lib.new_children (context_constructed 1) (child ∷ [])))
    | none ↦
        required (encoding_error (ascii "empty notification search criteria"))
          (λ child. ok (lib.new_children (context_constructed 1) (child ∷ [])))
          c.profile_management_operation_raw
  ]

  unfoldable pub unmarshal_notification_criteria : Tlv → Result (NotificationSearchCriteria Tlv)
  unmarshal_notification_criteria tlv = do
    child ← sole_child lib tlv
    if has_tag lib child (context_primitive 0)
        then on_ok (lib.unmarshal_int child) (λ number.
          ok (record { seq_number = some number; profile_management_operation_raw = none }))
        else if has_tag lib child (context_primitive 1)
        then ok (record { seq_number = none; profile_management_operation_raw = some child })
        else err unexpected_tag

  -- The guard of IpaEuiccDataRequest.MarshalBERTLV.
  abbrev pub has_tag_list : Bytes → Result (Unit {0})
  has_tag_list tags =
      if bytes_eq tags []
      then err (encoding_error (ascii "IpaEuiccDataRequest tagList is required"))
      else ok tt

  -- IpaEuiccDataRequest.MarshalBERTLV
  unfoldable pub marshal_ipa_euicc_data_request : IpaEuiccDataRequest Tlv → Result Tlv
  unfolding marshal_notification_criteria
  marshal_ipa_euicc_data_request r = do
    has_tag_list r.tag_list
    criteria ← field_result marshal_notification_criteria r.search_criteria_notification
    package_criteria ←
        field_result
          (λ number.
            on_ok (lib.marshal_int (context_primitive 0) number)
              (λ child. ok (lib.new_children (context_constructed 2) (child ∷ []))))
          r.search_criteria_euicc_package_result
    ok (
        lib.new_children tag_ipa_euicc_data (
          octet_tlv lib tag_tag_list r.tag_list
          ∷ (field (octet_tlv lib tag_octet) r.euicc_ci_pk_identifier_to_be_used
              ++ (criteria
                  ++ (package_criteria
                      ++ field (octet_tlv lib (context_primitive 3)) r.eim_transaction_id)))))

  -- firstUniversalOctet
  unfoldable pub first_universal_octet : List Tlv → Tag → Option Tlv
  first_universal_octet [] skipped = none
  first_universal_octet (child ∷ rest) skipped =
      let later = first_universal_octet rest skipped in
      if has_tag lib child skipped
      then later
      else if has_tag lib child tag_octet
      then some child
      else later

  -- IpaEuiccDataRequest.UnmarshalBERTLV
  unfoldable pub unmarshal_ipa_euicc_data_request : Tlv → Result (IpaEuiccDataRequest Tlv)
  unfolding first_universal_octet unmarshal_notification_criteria
  unmarshal_ipa_euicc_data_request tlv = do
    expect_tag lib tlv tag_ipa_euicc_data
    tag_list ← octet_value lib (lib.first tlv tag_tag_list)
    criteria ← optional unmarshal_notification_criteria (lib.first tlv (context_constructed 1))
    number ←
        optional (λ child. integer_value lib (lib.first child (context_primitive 0)))
          (lib.first tlv (context_constructed 2))
    ok (record {
      tag_list = tag_list;
      euicc_ci_pk_identifier_to_be_used =
          optional_value lib (first_universal_octet (lib.children tlv) tag_tag_list);
      search_criteria_notification = criteria;
      search_criteria_euicc_package_result = number;
      eim_transaction_id = optional_value lib (lib.first tlv (context_primitive 3));
    })
