-- ===== src/Memory/Devices.antt =====
-- storage/memory/store.go: devices, their package counters and their eUICC state.
use openiotrsp.Common.{
  inl, inr, none, some, Option-cases, Bytes, eq_nat, eq_bytes, Int64, inc64, lookup, insert,
  not_found, ok, err, Context, Action, checked,
}
use openiotrsp.Storage.{TenantId, Time, Device, EuiccState}
use openiotrsp.Memory.State.{
  Store, DeviceKey, new_device_key, eq_device_key, eq_result_key, eq_profile_key, eq_associated_key,
  eq_config_key, eq_notification_key,
}

-- RegisterDevice
unfoldable pub register_device : Context → TenantId → Device → Action Store (Unit {0})
unfolding new_device_key
register_device ctx tenant_id device = checked ctx (λ s.
    let key = new_device_key tenant_id device.eid in
    elim (lookup key s.devices) [
      | some _ ↦ (ok tt, s)
      | none ↦ (
        ok tt,
        record s {
          devices =
              insert key (record { next_sequence = 1; next_euicc_package_counter = 1 }) s.devices;
        },
      )
    ])

-- `if _, ok := s.devices[key]; !ok { return ErrNotFound }`
abbrev pub registered {κ} : {A : Type κ} → DeviceKey → Action Store A → Action Store A
registered key body s = elim (lookup key s.devices) [ none ↦ (err not_found, s) | some _ ↦ body s ]

-- What the body keeps is kept.
pub registered_keeps {κ μ} :
    {A : Type κ} (P : Store → Type μ) (key : DeviceKey) (body : Action Store A) (s : Store)
    → P s
    → P (body s).1
    → P (registered key body s).1
registered_keeps P key body s h k = elim (Option-cases (lookup key s.devices)) [
  | inl unknown ↦ rw (unknown, registered) h
  | inr (d, known) ↦ rw (known, registered) k
]

-- NextEUICCPackageCounter
unfoldable pub next_euicc_package_counter : Context → TenantId → Bytes → Action Store Int64
unfolding new_device_key
next_euicc_package_counter ctx tenant_id eid = checked ctx (λ s.
    let key = new_device_key tenant_id eid in
    elim (lookup key s.devices) [
      | none ↦ (err not_found, s)
      | some device ↦
          let counter = device.next_euicc_package_counter in
          (
            ok counter,
            record s {
              devices =
                  insert key (record device { next_euicc_package_counter = inc64 counter })
                    s.devices;
            },
          )
    ])

-- GetEUICCState
unfoldable pub get_euicc_state : Context → TenantId → Bytes → Action Store EuiccState
unfolding new_device_key
get_euicc_state ctx tenant_id eid = checked ctx (λ s.
    elim (lookup (new_device_key tenant_id eid) s.euicc_states) [
      | none ↦ (err not_found, s)
      | some state ↦ (ok state, s)
    ])

-- SetEUICCState, at the time `now`
unfoldable pub set_euicc_state : Time → Context → TenantId → EuiccState → Action Store (Unit {0})
unfolding new_device_key
set_euicc_state now ctx tenant_id state = checked ctx (
    let key = new_device_key tenant_id state.eid in
    registered key (λ s. (
      ok tt,
      record s {
        euicc_states = insert key (record state { eid = key.eid; updated_at = now }) s.euicc_states;
      },
    )))
