-- ===== src/Memory/Queue/Frame.antt =====
-- About the calls of storage/memory/store.go that are not calls of the operation queue.
use openiotrsp.Common.{
  ◌≤◌, ◌<◌, ◌≡◌, ◌≢◌, inl, inr, none, some, arith, Option-cases, Bytes, eq_nat, eq_bytes, Int64,
  lookup-insert, lookup, insert, Context, checked_keeps,
}
use openiotrsp.Storage.{TenantId, Time, Device}
use openiotrsp.Memory.State.{
  Store, DeviceKey, MemoryDevice, MemoryOperation, device_key_eq_iff, new_device_key, eq_device_key,
  eq_result_key, eq_profile_key, eq_associated_key, eq_config_key, eq_notification_key,
}
use openiotrsp.Memory.Devices.{register_device, next_euicc_package_counter, set_euicc_state}
use openiotrsp.Memory.Calls.{Change, apply, registers, counts, enqueues, records_result}
use openiotrsp.Memory.Profiles.{set_profile_state, delete_profile_state}
use openiotrsp.Memory.Configs.{
  store_eim_config, set_associated_eim, delete_associated_eim, store_notification,
}
use openiotrsp.Memory.Queue.{IsQueueValid, device_key_of}

-- A store with the same queue.
pub frame-IsQueueValid :
    (s t : Store)
    → t.operations ≡ s.operations
    → t.devices ≡ s.devices
    → t.next_operation_id ≡ s.next_operation_id
    → IsQueueValid s
    → IsQueueValid t
frame-IsQueueValid s t a b c v = record {
  distinct = rw a v.distinct;
  positive = rw c v.positive;
  keyed = rw a v.keyed;
  fresh = rw (a, c) v.fresh;
  known = rw (a, b) v.known;
  passed = rw (a, b) v.passed;
  unique = rw a v.unique;
  numbered = rw (b, c) v.numbered;
}

-- A new device starts at 1; a device that is there may change its package counter only.
module _ (s : Store) (k : DeviceKey) (e : MemoryDevice) (v : IsQueueValid s) where
  abbrev recounted : Store
  recounted = record s { devices = insert k e s.devices }

  recounted_known :
      (i : Int64) (a : MemoryOperation)
      → lookup i s.operations ≡ some a
      → lookup (device_key_of a) recounted.devices ≢ none
  recounted_known i a l n =
      ground (arith, lookup-insert k (device_key_of a) e s.devices, v.known i a)

  recounted_passed :
      ((d : MemoryDevice) → lookup k s.devices ≡ some d → d.next_sequence ≡ e.next_sequence)
      → (i : Int64) (a : MemoryOperation) (f : MemoryDevice) → lookup i s.operations ≡ some a
      → lookup (device_key_of a) recounted.devices ≡ some f
      → (0 < a.operation.sequence_number) × (a.operation.sequence_number < f.next_sequence)
  recounted_passed same i a f l m = elim (Option-cases (lookup (device_key_of a) s.devices)) [
    | inl n ↦ absurd (v.known i a l n)
    | inr (d, found) ↦ ground (
      arith,
      lookup-insert k (device_key_of a) e s.devices,
      device_key_eq_iff k (device_key_of a),
      v.passed i a d l found,
      same d,
    )
  ]

  recounted-IsQueueValid :
      (0 < e.next_sequence)
      → (e.next_sequence ≤ s.next_operation_id)
      → ((d : MemoryDevice) → lookup k s.devices ≡ some d → d.next_sequence ≡ e.next_sequence)
      → IsQueueValid recounted
  recounted-IsQueueValid p q same = record {
    distinct = v.distinct;
    positive = v.positive;
    keyed = v.keyed;
    fresh = v.fresh;
    known = recounted_known;
    passed = recounted_passed same;
    unique = v.unique;
    numbered = λ j f l. ground (arith, lookup-insert k j e s.devices, v.numbered j f);
  }

pub register-IsQueueValid :
    (ctx : Context) (tenant_id : TenantId) (device : Device) (s : Store)
    → IsQueueValid s
    → IsQueueValid (register_device ctx tenant_id device s).1
unfolding register_device
register-IsQueueValid ctx tenant_id device s v =
    checked_keeps IsQueueValid ctx _ s v
      (elim (Option-cases (lookup (new_device_key tenant_id device.eid) s.devices)) [
        | inr (d, found) ↦ rw found v
        | inl missing ↦ rw missing (
            recounted-IsQueueValid s (new_device_key tenant_id device.eid) _ v (omega arith)
              (omega (arith, v.positive)) (λ d found. cc))
      ])

pub count-IsQueueValid :
    (ctx : Context) (tenant_id : TenantId) (eid : Bytes) (s : Store)
    → IsQueueValid s
    → IsQueueValid (next_euicc_package_counter ctx tenant_id eid s).1
unfolding next_euicc_package_counter
count-IsQueueValid ctx tenant_id eid s v =
    checked_keeps IsQueueValid ctx _ s v
      (elim (Option-cases (lookup (new_device_key tenant_id eid) s.devices)) [
        | inl missing ↦ rw missing v
        | inr (d, found) ↦ rw found (
            recounted-IsQueueValid s (new_device_key tenant_id eid) _ v (v.numbered _ d found).0
              (v.numbered _ d found).1 (λ d' found'. ground arith))
      ])

-- The changes that do not touch the queue, its devices or its id counter.
abbrev pub IsAside : Change → Type 0
IsAside (registers _) = ⊥
IsAside (counts _) = ⊥
IsAside (enqueues _) = ⊥
IsAside (records_result _) = ⊥
IsAside _ = Unit {0}

pub aside_frame :
    (at : Time) (c : Context) (t : TenantId) (change : Change) (s : Store)
    → IsAside change
    → ((apply at c t change s).operations ≡ s.operations)
      × ((apply at c t change s).devices ≡ s.devices)
      × ((apply at c t change s).next_operation_id ≡ s.next_operation_id)
unfolding apply set_profile_state delete_profile_state set_euicc_state store_eim_config
    set_associated_eim delete_associated_eim store_notification
aside_frame at c t (registers device) s h = absurd h
aside_frame at c t (counts eid) s h = absurd h
aside_frame at c t (enqueues request) s h = absurd h
aside_frame at c t (records_result result) s h = absurd h
aside_frame at c t change s h = ground arith

pub aside-IsQueueValid :
    (at : Time) (c : Context) (t : TenantId) (change : Change) (s : Store)
    → IsAside change
    → IsQueueValid s
    → IsQueueValid (apply at c t change s)
aside-IsQueueValid at c t change s h v =
    let f = aside_frame at c t change s h in
    frame-IsQueueValid s (apply at c t change s) f.0 f.1 f.2 v
