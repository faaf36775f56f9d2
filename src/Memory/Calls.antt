-- ===== src/Memory/Calls.antt =====
-- storage/memory/store.go: the methods that change the store, as calls, and histories of calls.
-- The mutex makes a history of concurrent callers some sequence of whole calls.
use openiotrsp.Common.{List, [], ◌∷◌, Bytes, eq_nat, eq_bytes, Context}
use openiotrsp.Storage.{
  TenantId, Time, Device, ProfileState, EuiccState, OperationRequest, EuiccPackageResult, EimConfig,
  AssociatedEim, Notification,
}
use openiotrsp.Memory.State.{
  Store, eq_device_key, eq_result_key, eq_profile_key, eq_associated_key, eq_config_key,
  eq_notification_key,
}
use openiotrsp.Memory.Devices.{register_device, next_euicc_package_counter, set_euicc_state}
use openiotrsp.Memory.Profiles.{set_profile_state, delete_profile_state}
use openiotrsp.Memory.Operations.{enqueue_operation}
use openiotrsp.Memory.Results.{record_euicc_package_result}
use openiotrsp.Memory.Configs.{
  store_eim_config, set_associated_eim, delete_associated_eim, store_notification,
}

pub data Change : Type 0 where
  registers : Device → Change
  sets_profile : ProfileState → Change
  deletes_profile : Bytes → Bytes → Change
  sets_euicc : EuiccState → Change
  counts : Bytes → Change
  enqueues : OperationRequest → Change
  records_result : EuiccPackageResult → Change
  stores_config : EimConfig → Change
  sets_associated : AssociatedEim → Change
  deletes_associated : Bytes → Bytes → Change
  stores_notification : Notification → Change

pub record Call : Type 0 where
  pub ctx : Context
  pub tenant_id : TenantId
  pub now : Time
  pub change : Change

-- The store after one call; `at`, `c` and `t` are its clock, context and tenant.
unfoldable pub apply : Time → Context → TenantId → Change → Store → Store
apply at c t (registers device) s = (register_device c t device s).1
apply at c t (sets_profile state) s = (set_profile_state c t state s).1
apply at c t (deletes_profile eid iccid) s = (delete_profile_state c t eid iccid s).1
apply at c t (sets_euicc state) s = (set_euicc_state at c t state s).1
apply at c t (counts eid) s = (next_euicc_package_counter c t eid s).1
apply at c t (enqueues request) s = (enqueue_operation at c t request s).1
apply at c t (records_result result) s = (record_euicc_package_result at c t result s).1
apply at c t (stores_config config) s = (store_eim_config c t config s).1
apply at c t (sets_associated associated) s = (set_associated_eim c t associated s).1
apply at c t (deletes_associated eid eim_id) s = (delete_associated_eim c t eid eim_id s).1
apply at c t (stores_notification notification) s = (store_notification at c t notification s).1

unfoldable pub step : Call → Store → Store
unfolding apply
step call s = apply call.now call.ctx call.tenant_id call.change s

unfoldable pub run : List Call → Store → Store
run [] s = s
run (call ∷ calls) s = run calls (step call s)
