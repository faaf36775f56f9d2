-- ===== src/Asn1/Esipa.antt =====
-- asn1/esipa.go: the messages of ESipa and what they carry. A kind that is none of the constants is
-- `other`, with its number.
pub mod Poll
pub mod Outcome
pub mod Transfer
use openiotrsp.Asn1.Package.{EuiccPackageRequest}
use openiotrsp.Asn1.Download.{ProfileDownloadTriggerRequest}
use openiotrsp.Asn1.DownloadResult.{ProfileDownloadTriggerResult}
use openiotrsp.Asn1.Notification.{EimAcknowledgements, PendingNotificationList}
use openiotrsp.Asn1.IpaData.{IpaEuiccDataResponse}
use openiotrsp.Asn1.Result.{EuiccPackageResult}
use openiotrsp.Common.{
  ℕ, ◌-◌, ◌/◌, Bool, false, ◌&&◌, ◌||◌, Option, none, some, List, [], ◌∷◌, arith, if◌then◌else◌,
  ◌==◌, Bytes, ascii, eq_nat, eq_bytes, Int64, encoding_error, Result, ok, err,
}
use openiotrsp.Prelude.Fallible.{◌>>=◌, ◌>>◌, required}
use openiotrsp.Asn1.Codec.{unexpected_tag}
use openiotrsp.Asn1.Tlv.{Tag, Bertlv, eq_tag, class_eq, context_specific}

-- ESipaMessageFromIpaToEim and ESipaMessageFromEimToIpa
pub record EsipaMessage (Tlv : Type 0) : Type 0 where
  pub raw : Option Tlv

pub data TransferEimPackageRequestKind : Type 0 where
  transfer_euicc_package transfer_ipa_euicc_data transfer_eim_acknowledgements :
      TransferEimPackageRequestKind
  transfer_profile_download_trigger : TransferEimPackageRequestKind
  transfer_other : Int64 → TransferEimPackageRequestKind

pub data TransferEimPackageResponseKind : Type 0 where
  transferred_package_result transferred_epr_and_notifications transferred_ipa_euicc_data :
      TransferEimPackageResponseKind
  transferred_received transferred_received_with_cid : TransferEimPackageResponseKind
  transferred_error transferred_error_with_cid : TransferEimPackageResponseKind
  transferred_other : Int64 → TransferEimPackageResponseKind

pub record GetEimPackageRequest : Type 0 where
  pub eid : Bytes
  pub notify_state_change : Bool
  pub state_change_cause : Option Int64
  pub rplmn : Option Bytes

pub data GetEimPackageResponseKind : Type 0 where
  get_euicc_package get_ipa_euicc_data : GetEimPackageResponseKind
  get_profile_download_trigger get_error : GetEimPackageResponseKind
  get_other : Int64 → GetEimPackageResponseKind

pub record EimPackageResultResponseError : Type 0 where
  pub eim_transaction_id : Option Bytes
  pub code : Int64

pub data EimPackageResultKind : Type 0 where
  provided_euicc_package provided_epr_and_notifications : EimPackageResultKind
  provided_ipa_euicc_data provided_profile_download provided_error : EimPackageResultKind
  provided_other : Int64 → EimPackageResultKind

pub data ProvideEimPackageResultResponseKind : Type 0 where
  provide_acknowledgements provide_empty provide_error : ProvideEimPackageResultResponseKind
  provide_other : Int64 → ProvideEimPackageResultResponseKind

pub record EimPackageCorrelationId : Type 0 where
  pub eim_transaction_id : Option Bytes
  pub eid : Option Bytes

pub record EimPackageReceivedWithCid : Type 0 where
  pub correlation_id : Option EimPackageCorrelationId

pub record EimPackageErrorWithCid : Type 0 where
  pub correlation_id : Option EimPackageCorrelationId
  pub error_code : Int64

module _ (Tlv : Type 0) where
  pub record TransferEimPackageRequest : Type 0 where
    pub kind : TransferEimPackageRequestKind
    pub euicc_package_request : Option (EuiccPackageRequest Tlv)
    pub ipa_euicc_data_request : Option Tlv
    pub eim_acknowledgements : Option EimAcknowledgements
    pub profile_download_trigger_request : Option ProfileDownloadTriggerRequest

  pub record GetEimPackageResponse : Type 0 where
    pub kind : GetEimPackageResponseKind
    pub euicc_package_request : Option (EuiccPackageRequest Tlv)
    pub ipa_euicc_data_request : Option Tlv
    pub profile_download_trigger_request : Option ProfileDownloadTriggerRequest
    pub response_error : Option Int64

  pub record EimPackageResult : Type 0 where
    pub kind : EimPackageResultKind
    pub raw : Option Tlv
    pub euicc_package_result : Option (EuiccPackageResult Tlv)
    pub notifications : Option (PendingNotificationList Tlv)
    pub ipa_euicc_data_response : Option (IpaEuiccDataResponse Tlv)
    pub profile_download_result : Option (ProfileDownloadTriggerResult Tlv)
    pub response_error : Option EimPackageResultResponseError

  pub record ProvideEimPackageResult : Type 0 where
    pub eid : Option Bytes
    pub eim_package_result : EimPackageResult

  pub record ProvideEimPackageResultResponse : Type 0 where
    pub kind : ProvideEimPackageResultResponseKind
    pub raw : Option Tlv
    pub acknowledgements : Option EimAcknowledgements
    pub response_error : Option Int64

  pub record TransferEimPackageResponse : Type 0 where
    pub kind : TransferEimPackageResponseKind
    pub raw : Option Tlv
    pub eim_package_result : Option EimPackageResult
    pub ipa_euicc_data_response : Option (IpaEuiccDataResponse Tlv)
    pub received_with_cid : Option EimPackageReceivedWithCid
    pub response_error : Option Int64
    pub error_with_cid : Option EimPackageErrorWithCid

-- `tlv.Tag.ContextSpecific() && tlv.Tag.Constructed()`
unfoldable pub form_and_class : Tag → Bool
unfolding class_eq
form_and_class tag = class_eq tag.class context_specific && tag.is_constructed

-- The loop of isAllowedTag.
unfoldable pub is_one_of : ℕ → List ℕ → Bool
is_one_of n [] = false
is_one_of n (number ∷ numbers) = (n == number) || is_one_of n numbers

-- isAllowedTag
unfoldable pub is_allowed_tag : Tag → List ℕ → Bool
unfolding is_one_of
is_allowed_tag tag numbers = form_and_class tag && is_one_of tag.number numbers

module _ {Tlv : Type 0} (lib : Bertlv Tlv) where
  -- ESipaMessageFromIpaToEim.UnmarshalBERTLV
  unfoldable pub unmarshal_from_ipa : Tlv → Result (EsipaMessage Tlv)
  unfolding is_allowed_tag
  unmarshal_from_ipa tlv =
      if is_allowed_tag (lib.tag tlv) (57 ∷ 59 ∷ 58 ∷ 65 ∷ 61 ∷ 78 ∷ 79 ∷ 80 ∷ [])
      then ok (record { raw = some tlv })
      else err unexpected_tag

  -- ESipaMessageFromEimToIpa.UnmarshalBERTLV
  unfoldable pub unmarshal_from_eim : Tlv → Result (EsipaMessage Tlv)
  unfolding is_allowed_tag
  unmarshal_from_eim tlv =
      if is_allowed_tag (lib.tag tlv) (57 ∷ 59 ∷ 58 ∷ 65 ∷ 78 ∷ 79 ∷ 80 ∷ [])
      then ok (record { raw = some tlv })
      else err unexpected_tag

-- The two MarshalBERTLV of the messages.
abbrev pub marshal_esipa_message : {Tlv : Type 0} → EsipaMessage Tlv → Result Tlv
marshal_esipa_message m = required (encoding_error (ascii "missing ESipa message")) ok m.raw
