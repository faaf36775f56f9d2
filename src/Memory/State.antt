-- ===== src/Memory/State.antt =====
-- storage/memory/store.go: the state of the in-memory store and the structs that key its maps.
-- Each method holds the mutex for its whole body, so a method is one step on this state.
use openiotrsp.Common.{
  ◌≡◌, ◌↔◌, Bool, ◌&&◌, [], arith, Bytes, Int64, Comparable, ◌==◌, eq_nat, eq_bytes, Dict,
  bytes_eq_iff, true,
}
use openiotrsp.Storage.{
  TenantId, normalize_tenant_id, ProfileState, EuiccState, AssociatedEim, Operation,
  EuiccPackageResult, EimConfig, Notification,
}

pub record DeviceKey : Type 0 where
  pub tenant_id : TenantId
  pub eid : Bytes

pub record ResultKey : Type 0 where
  pub tenant_id : TenantId
  pub eid : Bytes
  pub sequence_number : Int64

pub record ProfileStateKey : Type 0 where
  pub tenant_id : TenantId
  pub eid : Bytes
  pub iccid : Bytes

pub record AssociatedEimKey : Type 0 where
  pub tenant_id : TenantId
  pub eid : Bytes
  pub eim_id : Bytes

pub record ConfigKey : Type 0 where
  pub tenant_id : TenantId
  pub eim_id : Bytes

pub record NotificationKey : Type 0 where
  pub tenant_id : TenantId
  pub eid : Bytes
  pub sequence_number : Int64

-- Go compares structs field by field.
unfoldable pub device_key_eq : DeviceKey → DeviceKey → Bool
device_key_eq a b = (a.tenant_id == b.tenant_id) && (a.eid == b.eid)

unfoldable pub result_key_eq : ResultKey → ResultKey → Bool
result_key_eq a b =
    (a.tenant_id == b.tenant_id) && (a.eid == b.eid) && (a.sequence_number == b.sequence_number)

unfoldable pub profile_key_eq : ProfileStateKey → ProfileStateKey → Bool
profile_key_eq a b = (a.tenant_id == b.tenant_id) && (a.eid == b.eid) && (a.iccid == b.iccid)

unfoldable pub associated_key_eq : AssociatedEimKey → AssociatedEimKey → Bool
associated_key_eq a b = (a.tenant_id == b.tenant_id) && (a.eid == b.eid) && (a.eim_id == b.eim_id)

unfoldable pub config_key_eq : ConfigKey → ConfigKey → Bool
config_key_eq a b = (a.tenant_id == b.tenant_id) && (a.eim_id == b.eim_id)

unfoldable pub notification_key_eq : NotificationKey → NotificationKey → Bool
notification_key_eq a b =
    (a.tenant_id == b.tenant_id) && (a.eid == b.eid) && (a.sequence_number == b.sequence_number)

pub device_key_eq_iff : (a b : DeviceKey) → (device_key_eq a b ≡ true) ↔ (a ≡ b)
unfolding device_key_eq
device_key_eq_iff a b =
    ground (arith, bytes_eq_iff a.tenant_id b.tenant_id, bytes_eq_iff a.eid b.eid)

pub result_key_eq_iff : (a b : ResultKey) → (result_key_eq a b ≡ true) ↔ (a ≡ b)
unfolding result_key_eq
result_key_eq_iff a b =
    ground (arith, bytes_eq_iff a.tenant_id b.tenant_id, bytes_eq_iff a.eid b.eid)

pub profile_key_eq_iff : (a b : ProfileStateKey) → (profile_key_eq a b ≡ true) ↔ (a ≡ b)
unfolding profile_key_eq
profile_key_eq_iff a b = ground (
  arith,
  bytes_eq_iff a.tenant_id b.tenant_id,
  bytes_eq_iff a.eid b.eid,
  bytes_eq_iff a.iccid b.iccid,
)

pub associated_key_eq_iff : (a b : AssociatedEimKey) → (associated_key_eq a b ≡ true) ↔ (a ≡ b)
unfolding associated_key_eq
associated_key_eq_iff a b = ground (
  arith,
  bytes_eq_iff a.tenant_id b.tenant_id,
  bytes_eq_iff a.eid b.eid,
  bytes_eq_iff a.eim_id b.eim_id,
)

pub config_key_eq_iff : (a b : ConfigKey) → (config_key_eq a b ≡ true) ↔ (a ≡ b)
unfolding config_key_eq
config_key_eq_iff a b =
    ground (arith, bytes_eq_iff a.tenant_id b.tenant_id, bytes_eq_iff a.eim_id b.eim_id)

pub notification_key_eq_iff : (a b : NotificationKey) → (notification_key_eq a b ≡ true) ↔ (a ≡ b)
unfolding notification_key_eq
notification_key_eq_iff a b =
    ground (arith, bytes_eq_iff a.tenant_id b.tenant_id, bytes_eq_iff a.eid b.eid)

instance abbrev pub eq_device_key : Comparable DeviceKey
eq_device_key = record { same = device_key_eq; same_iff = device_key_eq_iff }

instance abbrev pub eq_result_key : Comparable ResultKey
eq_result_key = record { same = result_key_eq; same_iff = result_key_eq_iff }

instance abbrev pub eq_profile_key : Comparable ProfileStateKey
eq_profile_key = record { same = profile_key_eq; same_iff = profile_key_eq_iff }

instance abbrev pub eq_associated_key : Comparable AssociatedEimKey
eq_associated_key = record { same = associated_key_eq; same_iff = associated_key_eq_iff }

instance abbrev pub eq_config_key : Comparable ConfigKey
eq_config_key = record { same = config_key_eq; same_iff = config_key_eq_iff }

instance abbrev pub eq_notification_key : Comparable NotificationKey
eq_notification_key = record { same = notification_key_eq; same_iff = notification_key_eq_iff }

pub record MemoryDevice : Type 0 where
  pub next_sequence : Int64
  pub next_euicc_package_counter : Int64

pub record MemoryOperation : Type 0 where
  pub tenant_id : TenantId
  pub operation : Operation

pub record Store : Type 0 where
  pub devices : Dict DeviceKey MemoryDevice
  pub profile_states : Dict ProfileStateKey ProfileState
  pub euicc_states : Dict DeviceKey EuiccState
  pub associated_eims : Dict AssociatedEimKey AssociatedEim
  pub operations : Dict Int64 MemoryOperation
  pub results : Dict ResultKey EuiccPackageResult
  pub eim_configs : Dict ConfigKey EimConfig
  pub notifications : Dict NotificationKey Notification
  pub next_operation_id : Int64

-- New
unfoldable pub new_store : Store
new_store = record {
  devices = [];
  profile_states = [];
  euicc_states = [];
  associated_eims = [];
  operations = [];
  results = [];
  eim_configs = [];
  notifications = [];
  next_operation_id = 1;
}

unfoldable pub new_device_key : TenantId → Bytes → DeviceKey
new_device_key tenant_id eid = record { tenant_id = normalize_tenant_id tenant_id; eid = eid }

unfoldable pub new_profile_state_key : TenantId → Bytes → Bytes → ProfileStateKey
new_profile_state_key tenant_id eid iccid = record {
  tenant_id = normalize_tenant_id tenant_id;
  eid = eid;
  iccid = iccid;
}

unfoldable pub new_associated_eim_key : TenantId → Bytes → Bytes → AssociatedEimKey
new_associated_eim_key tenant_id eid eim_id = record {
  tenant_id = normalize_tenant_id tenant_id;
  eid = eid;
  eim_id = eim_id;
}
