-- ===== src/Storage.antt =====
-- storage/store.go: the records of the persistence boundary. A byte slice and a string are lists
-- of bytes, so a nil slice and an empty one are one value; times are nanoseconds, 0 for the zero
-- time. The values are immutable here, so the clone functions of the stores are the identity.
pub mod Api
use openiotrsp.Common.{
  ℕ, Bool, true, false, Option, [], List, if◌then◌else◌, Bytes, ascii, Int64, bytes_eq,
}

abbrev pub Time : Type 0
Time = ℕ

abbrev pub TenantId : Type 0
TenantId = Bytes

abbrev pub default_tenant_id : TenantId
default_tenant_id = ascii "openiotrsp"

unfoldable pub normalize_tenant_id : TenantId → TenantId
normalize_tenant_id tenant_id = if bytes_eq tenant_id [] then default_tenant_id else tenant_id

pub record Device : Type 0 where
  pub eid : Bytes

pub record ProfileState : Type 0 where
  pub eid : Bytes
  pub iccid : Bytes
  pub is_enabled : Bool
  pub is_fallback : Bool
  pub smdp_address : Bytes

pub record EuiccState : Type 0 where
  pub eid : Bytes
  pub eid_value : Bytes
  pub default_smdp_address : Bytes
  pub root_smds_address : Bytes
  pub euicc_info1 : Bytes
  pub euicc_info2 : Bytes
  pub ipa_capabilities : Bytes
  pub device_info : Bytes
  pub eum_certificate : Bytes
  pub euicc_certificate : Bytes
  pub certificate_identifiers : List Bytes
  pub raw_payload : Bytes
  pub updated_at : Time

-- A status is a string; `other_status` is any string but the four constants.
pub data OperationStatus : Type 0 where
  pending in_flight done failed : OperationStatus
  other_status : Bytes → OperationStatus

unfoldable pub status_eq : OperationStatus → OperationStatus → Bool
status_eq pending pending = true
status_eq in_flight in_flight = true
status_eq done done = true
status_eq failed failed = true
status_eq (other_status s) (other_status t) = bytes_eq s t
status_eq _ _ = false

pub data OperationKind : Type 0 where
  euicc_package profile_download_trigger ipa_euicc_data : OperationKind
  other_kind : Bytes → OperationKind

pub record OperationRequest : Type 0 where
  pub eid : Bytes
  pub kind : OperationKind
  pub payload : Bytes

pub record Operation : Type 0 where
  pub id : Int64
  pub eid : Bytes
  pub sequence_number : Int64
  pub kind : OperationKind
  pub payload : Bytes
  pub status : OperationStatus
  pub created_at : Time
  pub updated_at : Time

pub record OperationResult : Type 0 where
  pub operation_id : Int64
  pub eid : Bytes
  pub sequence_number : Int64
  pub status : OperationStatus
  pub payload : Bytes
  pub created_at : Time

pub record EuiccPackageResult : Type 0 where
  pub eid : Bytes
  pub operation_id : Int64
  pub sequence_number : Int64
  pub status : OperationStatus
  pub payload : Bytes

pub record EimConfig : Type 0 where
  pub eim_id : Bytes
  pub config_data : Bytes

pub record AssociatedEim : Type 0 where
  pub eid : Bytes
  pub eim_id : Bytes
  pub eim_id_type : Option Int64
  pub config_payload : Bytes

pub record Notification : Type 0 where
  pub eid : Bytes
  pub sequence_number : Int64
  pub kind : Bytes
  pub payload : Bytes
  pub created_at : Time
