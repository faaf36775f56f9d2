-- ===== src/Memory/Api.antt =====
-- storage/memory/store.go: the in-memory store as an implementation of the store interface.
pub mod Holding
pub mod ProfileLaws
pub mod ProfileOrder
pub mod DeviceLaws
pub mod View
use openiotrsp.Common.{
  ◌-◌, ◌/◌, ◌≡◌, some, arith, Bytes, eq_nat, eq_bytes, Dict, HasDistinctKeys, lookup, ◌>>=◌, ◌>>◌,
}
use openiotrsp.Memory.Operations.{
  enqueue_operation, fetch_pending_operations, list_operations, list_pending_operations,
}
use openiotrsp.Memory.Configs.{store_notification}
use openiotrsp.Memory.Devices.{next_euicc_package_counter}
use openiotrsp.Memory.Results.{record_euicc_package_result}
use openiotrsp.Storage.Api.{StoreApi}
use openiotrsp.Memory.Devices.{get_euicc_state, set_euicc_state}
use openiotrsp.Memory.Profiles.{
  get_profile_state, set_profile_state, list_profile_states, delete_profile_state,
}
use openiotrsp.Memory.Configs.{get_associated_eim, set_associated_eim, delete_associated_eim}
use openiotrsp.Memory.State.{
  Store, new_device_key, ProfileStateKey, MemoryDevice, eq_device_key, eq_profile_key,
  eq_associated_key, eq_result_key, eq_config_key, eq_notification_key,
}
use openiotrsp.Storage.{TenantId, Time, ProfileState}

-- The methods of the in-memory store at a time of its clock.
abbrev pub memory_api : Time → StoreApi Store
memory_api now = record {
  get_profile_state = get_profile_state;
  list_profile_states = list_profile_states;
  set_profile_state = set_profile_state;
  delete_profile_state = delete_profile_state;
  get_euicc_state = get_euicc_state;
  set_euicc_state = set_euicc_state now;
  set_associated_eim = set_associated_eim;
  delete_associated_eim = delete_associated_eim;
  get_associated_eim = get_associated_eim;
  next_euicc_package_counter = next_euicc_package_counter;
  record_euicc_package_result = record_euicc_package_result now;
  enqueue_operation = enqueue_operation now;
  fetch_pending_operations = fetch_pending_operations;
  list_operations = list_operations;
  list_pending_operations = list_pending_operations;
  store_notification = store_notification now;
}

-- A profile state is stored under its own names.
abbrev pub HasOwnKeys : Dict ProfileStateKey ProfileState → Type 0
HasOwnKeys m =
    (key : ProfileStateKey) (state : ProfileState)
    → lookup key m ≡ some state
    → (state.eid ≡ key.eid) × (state.iccid ≡ key.iccid)

-- A store that holds a device and whose profile states are well kept.
pub record Holds (t : TenantId) (eid : Bytes) (s : Store) : Type 0 where
  pub device : MemoryDevice
  pub known : lookup (new_device_key t eid) s.devices ≡ some device
  pub distinct : HasDistinctKeys s.profile_states
  pub own : HasOwnKeys s.profile_states
