-- ===== src/Memory/Counters.antt =====
-- About the numbers that NextEUICCPackageCounter of storage/memory/store.go hands out.
use openiotrsp.Common.{
  ℕ, ◌+◌, ◌^◌, ◌≤◌, ◌<◌, ◌≡◌, sym, ap, subst, inl, inr, some, List, [], ◌∷◌, arith, Bool-cases,
  Option-cases, length, Bytes, eq_nat, eq_bytes, Int64, inc64, Dict, lookup-insert, lookup, insert,
  ok, Context, checked_keeps,
}
use openiotrsp.Prelude.Int64.{inc64-eq}
use openiotrsp.Storage.{TenantId, Time, Device, OperationRequest, EuiccPackageResult}
use openiotrsp.Memory.State.{
  Store, DeviceKey, MemoryDevice, device_key_eq_iff, new_device_key, eq_device_key, eq_result_key,
  eq_profile_key, eq_associated_key, eq_config_key, eq_notification_key, device_key_eq,
}
use openiotrsp.Memory.Devices.{register_device, next_euicc_package_counter}
use openiotrsp.Memory.Operations.{enqueue_operation}
use openiotrsp.Memory.Results.{record_euicc_package_result, file_result, record_keeps}
use openiotrsp.Memory.Calls.{
  Call, Change, registers, counts, enqueues, records_result, apply, step, run,
}
use openiotrsp.Memory.Queue.Frame.{aside_frame}
use openiotrsp.Storage.Api.{live}

abbrev Devices : Type 0
Devices = Dict DeviceKey MemoryDevice

-- The device is there, and its counter stands between two bounds.
abbrev Counts : DeviceKey → ℕ → ℕ → Devices → Type 0
Counts k low high devices =
    (d : MemoryDevice) × (lookup k devices ≡ some d)
    × (low ≤ d.next_euicc_package_counter)
    × (d.next_euicc_package_counter ≤ high)

module _ (k : DeviceKey) (low high : ℕ) (devices : Devices) (bounded : high + 1 < 2 ^ 63)
    (start : Counts k low high devices) where
  wider : Counts k low (high + 1) devices
  wider = (start.0, start.1, start.2, omega (arith, start.3))

  -- A device written at some key: at `k` its counter may have grown by one.
  written :
      (j : DeviceKey) (d e : MemoryDevice)
      → lookup j devices ≡ some d
      → (d.next_euicc_package_counter ≤ high
          → (d.next_euicc_package_counter ≤ e.next_euicc_package_counter)
            × (e.next_euicc_package_counter ≤ d.next_euicc_package_counter + 1))
      → Counts k low (high + 1) (insert j e devices)
  written j d e found grown = elim (Bool-cases (device_key_eq j k)) [
    | inl same ↦
        let e' : d ≡ start.0 = ground (arith, device_key_eq_iff j k, start.1) in
        let g = grown (rw e' start.3) in
        (
          e,
          ground (arith, lookup-insert j k e devices),
          omega (arith, g.0, start.2, ap (λ (x : MemoryDevice). x.next_euicc_package_counter) e'),
          omega (arith, g.1, start.3, ap (λ (x : MemoryDevice). x.next_euicc_package_counter) e'),
        )
    | inr other ↦ (
      start.0,
      ground (arith, lookup-insert j k e devices, start.1),
      start.2,
      omega (arith, start.3),
    )
  ]

module _ (k : DeviceKey) (low high : ℕ) (s : Store) (bounded : high + 1 < 2 ^ 63)
    (start : Counts k low high s.devices) where
  abbrev Kept : Store → Type 0
  Kept r = Counts k low (high + 1) r.devices

  kept : Kept s
  kept = wider k low high s.devices bounded start

  register-Counts :
      (c : Context) (t : TenantId) (device : Device) → Kept (register_device c t device s).1
  unfolding register_device
  register-Counts c t device =
      checked_keeps Kept c _ s kept
        (elim (Option-cases (lookup (new_device_key t device.eid) s.devices)) [
          | inr (d, found) ↦ rw found kept
          | inl missing ↦ rw missing (
            start.0,
            ground (
              arith,
              start.1,
              missing,
              lookup-insert (new_device_key t device.eid) k
                  (let fresh : MemoryDevice = record {
                    next_sequence = 1;
                    next_euicc_package_counter = 1;
                  } in
                    fresh)
                  s.devices,
              device_key_eq_iff (new_device_key t device.eid) k,
            ),
            start.2,
            omega (arith, start.3),
          )
        ])

  count-Counts :
      (c : Context) (t : TenantId) (eid : Bytes) → Kept (next_euicc_package_counter c t eid s).1
  unfolding next_euicc_package_counter
  count-Counts c t eid =
      checked_keeps Kept c _ s kept (elim (Option-cases (lookup (new_device_key t eid) s.devices)) [
        | inl missing ↦ rw missing kept
        | inr (d, found) ↦ rw found (
            written k low high s.devices bounded start (new_device_key t eid) d _ found (λ h.
              let e = inc64-eq d.next_euicc_package_counter (omega arith) in
              (omega (arith, e), omega (arith, e))))
      ])

  enqueue-Counts :
      (now : Time) (c : Context) (t : TenantId) (request : OperationRequest)
      → Kept (enqueue_operation now c t request s).1
  unfolding enqueue_operation
  enqueue-Counts now c t request =
      checked_keeps Kept c _ s kept
        (elim (Option-cases (lookup (new_device_key t request.eid) s.devices)) [
          | inl missing ↦ rw missing kept
          | inr (d, found) ↦ rw found (
              written k low high s.devices bounded start (new_device_key t request.eid) d _ found
                (λ h. (omega arith, omega arith)))
        ])

  record-Counts :
      (now : Time) (c : Context) (t : TenantId) (given : EuiccPackageResult)
      → Kept (record_euicc_package_result now c t given s).1
  unfolding file_result
  record-Counts now c t given = record_keeps Kept now c t given s kept (λ addressed found. kept)

  apply-Counts :
      (at : Time) (c : Context) (t : TenantId) (change : Change) → Kept (apply at c t change s)
  unfolding apply
  apply-Counts at c t (registers device) = register-Counts c t device
  apply-Counts at c t (counts eid) = count-Counts c t eid
  apply-Counts at c t (enqueues request) = enqueue-Counts at c t request
  apply-Counts at c t (records_result result) = record-Counts at c t result
  apply-Counts at c t change =
      subst (Counts k low (high + 1)) (sym (aside_frame at c t change s tt).1) kept

run-Counts :
    (k : DeviceKey) (low high : ℕ) (calls : List Call) (s : Store)
    → high + length calls < 2 ^ 63
    → Counts k low high s.devices
    → (top : ℕ) × Counts k low top (run calls s).devices
unfolding run step
run-Counts k low high [] s room start = (high, start)
run-Counts k low high (call ∷ calls) s room start =
    run-Counts k low (high + 1) calls (apply call.now call.ctx call.tenant_id call.change s)
      (omega arith)
      (apply-Counts k low high s (omega arith) start call.now call.ctx call.tenant_id call.change)

abbrev bumped : MemoryDevice → MemoryDevice
bumped d = record d { next_euicc_package_counter = inc64 d.next_euicc_package_counter }

next_counter_lem :
    (tenant_id : TenantId) (eid : Bytes) (s : Store) (d : MemoryDevice)
    → lookup (new_device_key tenant_id eid) s.devices ≡ some d
    → next_euicc_package_counter live tenant_id eid s ≡ (
      ok d.next_euicc_package_counter,
      record s { devices = insert (new_device_key tenant_id eid) (bumped d) s.devices },
    )
unfolding next_euicc_package_counter
next_counter_lem tenant_id eid s d found = ground (arith, found)

next_counter_known :
    (tenant_id : TenantId) (eid : Bytes) (c : Int64) (s : Store)
    → (next_euicc_package_counter live tenant_id eid s).0 ≡ ok c
    → (d : MemoryDevice) × (lookup (new_device_key tenant_id eid) s.devices ≡ some d)
      × (d.next_euicc_package_counter ≡ c)
unfolding next_euicc_package_counter
next_counter_known tenant_id eid c s h =
    elim (Option-cases (lookup (new_device_key tenant_id eid) s.devices)) [
      | inl missing ↦ absurd (ground arith)
      | inr (d, found) ↦ (d, found, ground (arith, found))
    ]

counted :
    (tenant_id : TenantId) (eid : Bytes) (c : Int64) (s : Store)
    → c + 1 < 2 ^ 63
    → (next_euicc_package_counter live tenant_id eid s).0 ≡ ok c
    → Counts
        (new_device_key tenant_id eid)
        (c + 1)
        (c + 1)
        (next_euicc_package_counter live tenant_id eid s).1.devices
counted tenant_id eid c s room h =
    let k = new_device_key tenant_id eid in
    let (d, found, same) = next_counter_known tenant_id eid c s h in
    let up = inc64-eq d.next_euicc_package_counter (omega arith) in
    rw (next_counter_lem tenant_id eid s d found) (
      bumped d,
      ground (arith, lookup-insert k k (bumped d) s.devices, device_key_eq_iff k k),
      omega (arith, up),
      omega (arith, up),
    )

-- When NextEUICCPackageCounter has returned a number for a device, and any calls follow, too few
-- for the counter to run out, it succeeds again for the device and returns a greater number.
pub count-fresh :
    (tenant_id : TenantId) (eid : Bytes) (c : Int64) (s : Store) (calls : List Call)
    → c + 1 + length calls < 2 ^ 63
    → (next_euicc_package_counter live tenant_id eid s).0 ≡ ok c
    → (c' : Int64) × ((next_euicc_package_counter live tenant_id eid
          (run calls (next_euicc_package_counter live tenant_id eid s).1)).0
        ≡ ok c')
      × (c < c')
count-fresh tenant_id eid c s calls room h =
    let k = new_device_key tenant_id eid in
    let between =
      run-Counts k (c + 1) (c + 1) calls _ (omega arith)
        (counted tenant_id eid c s (omega arith) h) in
    let (d, found, low, high) = between.1 in
    (
      d.next_euicc_package_counter,
      ap (λ r. r.0) (next_counter_lem tenant_id eid _ d found),
      omega arith,
    )
