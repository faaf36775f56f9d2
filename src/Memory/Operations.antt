-- ===== src/Memory/Operations.antt =====
-- storage/memory/store.go: the queue of operations and their results.
use openiotrsp.Common.{
  Bool, ◌&&◌, Option, none, some, List, [], map, if◌then◌else◌, take, ◌==◌, Bytes, eq_nat, eq_bytes,
  Int64, inc64, gt64, lookup, insert, values_where, first_where, not_found, Result, ok, err,
  Context, Action, checked,
}
use openiotrsp.Prelude.Sort.{insertion_sort}
use openiotrsp.Storage.{
  TenantId, Time, Operation, OperationRequest, OperationStatus, status_eq, normalize_tenant_id,
}
use openiotrsp.Memory.State.{
  Store, MemoryOperation, new_device_key, eq_device_key, eq_result_key, eq_profile_key,
  eq_associated_key, eq_config_key, eq_notification_key,
}

-- EnqueueOperation, at the time `now`
unfoldable pub enqueue_operation :
    Time → Context → TenantId → OperationRequest → Action Store Operation
unfolding new_device_key
enqueue_operation now ctx tenant_id request = checked ctx (λ s.
    let key = new_device_key tenant_id request.eid in
    elim (lookup key s.devices) [
      | none ↦ (err not_found, s)
      | some device ↦
          let operation : Operation = record {
            id = s.next_operation_id;
            eid = request.eid;
            sequence_number = device.next_sequence;
            kind = request.kind;
            payload = request.payload;
            status = OperationStatus.pending;
            created_at = now;
            updated_at = now;
          } in
          (
            ok operation,
            record s {
              next_operation_id = inc64 s.next_operation_id;
              devices =
                  insert key (record device { next_sequence = inc64 device.next_sequence })
                    s.devices;
              operations =
                  insert operation.id (record { tenant_id = key.tenant_id; operation = operation })
                    s.operations;
            },
          )
    ])

-- `stored, ok := s.operations[id]; !ok || stored.tenantID != tenantID`
unfoldable pub find_operation : TenantId → Int64 → Store → Option Operation
find_operation tenant_id operation_id s = elim (lookup operation_id s.operations) [
  | none ↦ none
  | some stored ↦ if stored.tenant_id == tenant_id then some stored.operation else none
]

-- GetOperation
unfoldable pub get_operation : Context → TenantId → Int64 → Action Store Operation
unfolding normalize_tenant_id find_operation
get_operation ctx tenant_id operation_id = checked ctx (λ s.
    elim (find_operation (normalize_tenant_id tenant_id) operation_id s) [
      | none ↦ (err not_found, s)
      | some operation ↦ (ok operation, s)
    ])

abbrev pub has_sequence : TenantId → Bytes → Int64 → Int64 → MemoryOperation → Bool
has_sequence tenant_id eid sequence_number id stored =
    (stored.tenant_id == tenant_id)
    && (stored.operation.eid == eid)
    && (stored.operation.sequence_number == sequence_number)

-- GetOperationBySequence
unfoldable pub get_operation_by_sequence :
    Context → TenantId → Bytes → Int64 → Action Store Operation
unfolding normalize_tenant_id
get_operation_by_sequence ctx tenant_id eid sequence_number = checked ctx (λ s.
    elim (first_where (has_sequence (normalize_tenant_id tenant_id) eid sequence_number)
      s.operations) [ none ↦ (err not_found, s) | some (id, stored) ↦ (ok stored.operation, s) ])

-- sortOperations
unfoldable pub sort_operations : List Operation → List Operation
unfolding gt64 insertion_sort
sort_operations = insertion_sort (λ a b. gt64 a.sequence_number b.sequence_number)

-- The loop, the sort and the cut that the three listing methods share: `limit` is an `int`.
unfoldable pub select_operations :
    (MemoryOperation → Bool) → Int64 → Store → Result (List Operation)
unfolding sort_operations
select_operations wanted limit s =
    if gt64 limit 0
    then ok (
        take limit (
          sort_operations (
            map (λ (stored : MemoryOperation). stored.operation)
              (values_where (λ id. wanted) s.operations))))
    else ok []

abbrev pub is_pending_of : TenantId → Bytes → MemoryOperation → Bool
is_pending_of tenant_id eid stored =
    (stored.tenant_id == tenant_id)
    && (stored.operation.eid == eid)
    && status_eq stored.operation.status OperationStatus.pending

-- FetchPendingOperations
unfoldable pub fetch_pending_operations :
    Context → TenantId → Bytes → Int64 → Action Store (List Operation)
unfolding normalize_tenant_id select_operations
fetch_pending_operations ctx tenant_id eid limit =
    checked ctx
      (λ s. (select_operations (is_pending_of (normalize_tenant_id tenant_id) eid) limit s, s))

abbrev pub is_of : TenantId → Bytes → MemoryOperation → Bool
is_of tenant_id eid stored = (stored.tenant_id == tenant_id) && (stored.operation.eid == eid)

-- ListOperations
unfoldable pub list_operations : Context → TenantId → Bytes → Int64 → Action Store (List Operation)
unfolding normalize_tenant_id select_operations
list_operations ctx tenant_id eid limit =
    checked ctx (λ s. (select_operations (is_of (normalize_tenant_id tenant_id) eid) limit s, s))

abbrev pub is_pending_in : TenantId → MemoryOperation → Bool
is_pending_in tenant_id stored =
    (stored.tenant_id == tenant_id) && status_eq stored.operation.status OperationStatus.pending

-- ListPendingOperations
unfoldable pub list_pending_operations : Context → TenantId → Int64 → Action Store (List Operation)
unfolding normalize_tenant_id select_operations
list_pending_operations ctx tenant_id limit =
    checked ctx
      (λ s. (select_operations (is_pending_in (normalize_tenant_id tenant_id)) limit s, s))
