-- ===== src/Memory/Queue.antt =====
-- storage/memory/store.go: what keeps the operation queue consistent.
pub mod Enqueue
pub mod Frame
pub mod Complete
pub mod Histories
pub mod Select
pub mod Fetch
pub mod Lifecycle
pub mod Delivery
pub mod Reads
use openiotrsp.Common.{
  ◌-◌, ◌/◌, ◌≤◌, ◌<◌, ◌≡◌, ◌≢◌, none, some, arith, eq_nat, eq_bytes, Int64, HasDistinctKeys, lookup,
  ◌>>=◌, ◌>>◌,
}
use openiotrsp.Memory.State.{
  Store, DeviceKey, MemoryDevice, MemoryOperation, eq_device_key, eq_result_key, eq_profile_key,
  eq_associated_key, eq_config_key, eq_notification_key,
}

-- The device that an operation is queued for.
abbrev pub device_key_of : MemoryOperation → DeviceKey
device_key_of stored = record { tenant_id = stored.tenant_id; eid = stored.operation.eid }

-- Every operation is filed under its id, which the counter has passed; its device is registered
-- and has passed its sequence number; and no two operations of a device share that number.
pub record IsQueueValid (s : Store) : Type 0 where
  pub distinct : HasDistinctKeys s.operations
  pub positive : 0 < s.next_operation_id
  pub keyed :
      (id : Int64) (o : MemoryOperation) → lookup id s.operations ≡ some o → o.operation.id ≡ id
  pub fresh :
      (id : Int64) (o : MemoryOperation)
      → lookup id s.operations ≡ some o
      → (0 < id) × (id < s.next_operation_id)
  pub known :
      (id : Int64) (o : MemoryOperation)
      → lookup id s.operations ≡ some o
      → lookup (device_key_of o) s.devices ≢ none
  pub passed :
      (id : Int64) (o : MemoryOperation) (d : MemoryDevice)
      → lookup id s.operations ≡ some o
      → lookup (device_key_of o) s.devices ≡ some d
      → (0 < o.operation.sequence_number) × (o.operation.sequence_number < d.next_sequence)
  pub unique :
      (i j : Int64) (a b : MemoryOperation)
      → lookup i s.operations ≡ some a
      → lookup j s.operations ≡ some b
      → device_key_of a ≡ device_key_of b
      → a.operation.sequence_number ≡ b.operation.sequence_number
      → i ≡ j
  pub numbered :
      (k : DeviceKey) (d : MemoryDevice)
      → lookup k s.devices ≡ some d
      → (0 < d.next_sequence) × (d.next_sequence ≤ s.next_operation_id)
