-- ===== src/Memory/Queue/Enqueue.antt =====
-- About EnqueueOperation of storage/memory/store.go and the consistency of the queue.
use openiotrsp.Common.{
  ◌+◌, ◌^◌, ◌≤◌, ◌<◌, ◌≡◌, refl, ◌≢◌, inl, inr, none, some, arith, Option-cases, eq_nat, eq_bytes,
  Int64, lookup-insert, insert-HasDistinctKeys, lookup, insert, Context, checked_keeps,
}
use openiotrsp.Prelude.Int64.{inc64-eq}
use openiotrsp.Storage.{TenantId, Time, OperationRequest}
use openiotrsp.Memory.State.{
  Store, DeviceKey, MemoryDevice, MemoryOperation, eq_device_key, eq_result_key, eq_profile_key,
  eq_associated_key, eq_config_key, eq_notification_key, device_key_eq_iff, new_device_key,
}
use openiotrsp.Memory.Operations.{enqueue_operation}
use openiotrsp.Memory.Queue.{IsQueueValid, device_key_of}

-- The store with one more operation, its id and sequence number taken from the counters.
module _ (s : Store) (k : DeviceKey) (d e : MemoryDevice) (id : Int64) (o : MemoryOperation) where
  abbrev grown : Store
  grown = record s {
    next_operation_id = s.next_operation_id + 1;
    devices = insert k e s.devices;
    operations = insert id o s.operations;
  }

  module _ (v : IsQueueValid s) (found : lookup k s.devices ≡ some d) (at_key : device_key_of o ≡ k)
      (at_id : id ≡ s.next_operation_id) (own_id : o.operation.id ≡ id)
      (own_number : o.operation.sequence_number ≡ d.next_sequence)
      (advanced : e.next_sequence ≡ d.next_sequence + 1) where
    grown_keyed :
        (i : Int64) (a : MemoryOperation) → lookup i grown.operations ≡ some a → a.operation.id ≡ i
    grown_keyed i a l = ground (arith, lookup-insert id i o s.operations, v.keyed i a)

    grown_fresh :
        (i : Int64) (a : MemoryOperation)
        → lookup i grown.operations ≡ some a
        → (0 < i) × (i < grown.next_operation_id)
    grown_fresh i a l = ground (arith, lookup-insert id i o s.operations, v.fresh i a, v.positive)

    grown_known :
        (i : Int64) (a : MemoryOperation)
        → lookup i grown.operations ≡ some a
        → lookup (device_key_of a) grown.devices ≢ none
    grown_known i a l n = ground (
      arith,
      lookup-insert id i o s.operations,
      lookup-insert k (device_key_of a) e s.devices,
      device_key_eq_iff k (device_key_of a),
      v.known i a,
    )

    grown_passed :
        (i : Int64) (a : MemoryOperation) (f : MemoryDevice)
        → lookup i grown.operations ≡ some a
        → lookup (device_key_of a) grown.devices ≡ some f
        → (0 < a.operation.sequence_number) × (a.operation.sequence_number < f.next_sequence)
    grown_passed i a f l m = ground (
      arith,
      lookup-insert id i o s.operations,
      lookup-insert k (device_key_of a) e s.devices,
      device_key_eq_iff k (device_key_of a),
      v.passed i a d,
      v.passed i a f,
      v.numbered k d found,
    )

    -- An older operation of the device has a smaller number than the new one.
    older :
        (i : Int64) (a : MemoryOperation)
        → lookup i s.operations ≡ some a
        → device_key_of a ≡ k
        → a.operation.sequence_number < d.next_sequence
    older i a l m = (v.passed i a d l (rw m found)).1

    grown_unique :
        (i j : Int64) (a b : MemoryOperation)
        → lookup i grown.operations ≡ some a
        → lookup j grown.operations ≡ some b
        → device_key_of a ≡ device_key_of b
        → a.operation.sequence_number ≡ b.operation.sequence_number
        → i ≡ j
    grown_unique i j a b l m p q = ground (
      arith,
      lookup-insert id i o s.operations,
      lookup-insert id j o s.operations,
      v.unique i j a b,
      older i a,
      older j b,
    )

    grown_numbered :
        (j : DeviceKey) (f : MemoryDevice)
        → lookup j grown.devices ≡ some f
        → (0 < f.next_sequence) × (f.next_sequence ≤ grown.next_operation_id)
    grown_numbered j f l =
        ground (arith, lookup-insert k j e s.devices, v.numbered j f, v.numbered k d found)

    grown-IsQueueValid : IsQueueValid grown
    grown-IsQueueValid = record {
      distinct = insert-HasDistinctKeys id o s.operations v.distinct;
      positive = omega arith;
      keyed = grown_keyed;
      fresh = grown_fresh;
      known = grown_known;
      passed = grown_passed;
      unique = grown_unique;
      numbered = grown_numbered;
    }

-- The ids have not run out: the next one can still be counted past.
pub enqueue-IsQueueValid :
    (now : Time) (ctx : Context) (tenant_id : TenantId) (request : OperationRequest) (s : Store)
    → IsQueueValid s
    → s.next_operation_id + 1 < 2 ^ 63
    → IsQueueValid (enqueue_operation now ctx tenant_id request s).1
unfolding enqueue_operation
enqueue-IsQueueValid now ctx tenant_id request s v room =
    checked_keeps IsQueueValid ctx _ s v
      (elim (Option-cases (lookup (new_device_key tenant_id request.eid) s.devices)) [
        | inl missing ↦ rw missing v
        | inr (d, found) ↦
            rw
              (
                found,
                inc64-eq s.next_operation_id (omega arith),
                inc64-eq d.next_sequence (omega (arith, v.numbered _ d found)),
              )
              (grown-IsQueueValid s (new_device_key tenant_id request.eid) d _ s.next_operation_id _
                v found refl refl refl refl refl)
      ])
