-- ===== src/Memory/Profiles.antt =====
-- storage/memory/store.go: the profile states of the devices.
use openiotrsp.Common.{
  Bool, ◌&&◌, none, some, List, ◌==◌, Bytes, eq_nat, eq_bytes, lookup, insert, delete, values_where,
  not_found, ok, err, Context, Action, checked,
}
use openiotrsp.Prelude.Sort.{insertion_sort}
use openiotrsp.Prelude.ByteOrder.{bytes_gt}
use openiotrsp.Storage.{TenantId, ProfileState}
use openiotrsp.Memory.State.{
  Store, DeviceKey, ProfileStateKey, new_device_key, new_profile_state_key, eq_device_key,
  eq_result_key, eq_profile_key, eq_associated_key, eq_config_key, eq_notification_key,
}
use openiotrsp.Memory.Devices.{registered}

-- GetProfileState
unfoldable pub get_profile_state : Context → TenantId → Bytes → Bytes → Action Store ProfileState
unfolding new_profile_state_key
get_profile_state ctx tenant_id eid iccid = checked ctx (λ s.
    elim (lookup (new_profile_state_key tenant_id eid iccid) s.profile_states) [
      | none ↦ (err not_found, s)
      | some state ↦ (ok state, s)
    ])

-- sortProfileStates
unfoldable pub sort_profile_states : List ProfileState → List ProfileState
unfolding bytes_gt insertion_sort
sort_profile_states = insertion_sort (λ a b. bytes_gt a.iccid b.iccid)

abbrev pub profile_of : DeviceKey → ProfileStateKey → ProfileState → Bool
profile_of device key state = (key.tenant_id == device.tenant_id) && (key.eid == device.eid)

-- ListProfileStates
unfoldable pub list_profile_states : Context → TenantId → Bytes → Action Store (List ProfileState)
unfolding new_device_key sort_profile_states
list_profile_states ctx tenant_id eid = checked ctx (
    let device_key = new_device_key tenant_id eid in
    registered device_key
      (λ s. (ok (sort_profile_states (values_where (profile_of device_key) s.profile_states)), s)))

-- SetProfileState
unfoldable pub set_profile_state : Context → TenantId → ProfileState → Action Store (Unit {0})
unfolding new_device_key new_profile_state_key
set_profile_state ctx tenant_id state = checked ctx (
    registered (new_device_key tenant_id state.eid) (λ s. (
      ok tt,
      record s {
        profile_states =
            insert (new_profile_state_key tenant_id state.eid state.iccid) state s.profile_states;
      },
    )))

-- DeleteProfileState
unfoldable pub delete_profile_state : Context → TenantId → Bytes → Bytes → Action Store (Unit {0})
unfolding new_device_key new_profile_state_key
delete_profile_state ctx tenant_id eid iccid = checked ctx (
    registered (new_device_key tenant_id eid) (λ s.
      let key = new_profile_state_key tenant_id eid iccid in
      elim (lookup key s.profile_states) [
        | none ↦ (err not_found, s)
        | some _ ↦ (ok tt, record s { profile_states = delete key s.profile_states })
      ]))
