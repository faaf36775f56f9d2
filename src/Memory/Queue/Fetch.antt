-- ===== src/Memory/Queue/Fetch.antt =====
-- About what FetchPendingOperations and ListOperations of storage/memory/store.go return.
use openiotrsp.Common.{
  ◌^◌, ◌<◌, ◌≡◌, ap, true, List, arith, Bytes, eq_nat, eq_bytes, bytes_eq_iff, Int64, gt64, Dict,
  ok,
}
use mathlib.Core.List.{Permᴰ}
use openiotrsp.Storage.Api.{live}
use openiotrsp.Storage.{TenantId, Operation, normalize_tenant_id}
use openiotrsp.Memory.State.{
  Store, MemoryOperation, eq_device_key, eq_result_key, eq_profile_key, eq_associated_key,
  eq_config_key, eq_notification_key,
}
use openiotrsp.Memory.Operations.{fetch_pending_operations, list_operations, is_pending_of, is_of}
use openiotrsp.Memory.Queue.{IsQueueValid, device_key_of}
use openiotrsp.Memory.Queue.Select.{IsOldest, select-IsOldest, select_visit}

pending_narrow :
    (tenant_id : TenantId) (eid : Bytes) (o : MemoryOperation)
    → is_pending_of tenant_id eid o ≡ true
    → device_key_of o ≡ record { tenant_id = tenant_id; eid = eid }
pending_narrow tenant_id eid o h =
    ground (arith, bytes_eq_iff o.tenant_id tenant_id, bytes_eq_iff o.operation.eid eid)

narrow :
    (tenant_id : TenantId) (eid : Bytes) (o : MemoryOperation)
    → is_of tenant_id eid o ≡ true
    → device_key_of o ≡ record { tenant_id = tenant_id; eid = eid }
narrow tenant_id eid o h =
    ground (arith, bytes_eq_iff o.tenant_id tenant_id, bytes_eq_iff o.operation.eid eid)

module _ (tenant_id : TenantId) (eid : Bytes) (limit : Int64) (s : Store) (v : IsQueueValid s)
    (room : s.next_operation_id < 2 ^ 63) where
  -- In a consistent queue whose id counter is not beyond the 64-bit range, and with a positive
  -- limit, FetchPendingOperations returns, without a change to the store, the oldest pending
  -- operations of the device by strictly ascending sequence number, at most `limit` of them:
  -- what is returned is stored, pending and the device's, and a pending operation of the device
  -- is returned or `limit` older ones are.
  pub fetch_pending-IsOldest :
      gt64 limit 0 ≡ true
      → (ops : List Operation) × (fetch_pending_operations live tenant_id eid limit s ≡ (ok ops, s))
        × IsOldest
            (is_pending_of (normalize_tenant_id tenant_id) eid)
            limit
            (normalize_tenant_id tenant_id)
            s
            ops
  unfolding fetch_pending_operations
  fetch_pending-IsOldest positive =
      let tenant = normalize_tenant_id tenant_id in
      let (ops, e, o) =
        select-IsOldest (is_pending_of tenant eid) (record { tenant_id = tenant; eid = eid })
          (pending_narrow tenant eid) s v room limit positive in
      (ops, ap (λ r. (r, s)) e, o)

  -- In a consistent queue whose id counter is not beyond the 64-bit range, and with a positive
  -- limit, ListOperations returns, without a change to the store, the oldest operations of the
  -- device, whatever their status, by strictly ascending sequence number, at most `limit` of them:
  -- what is returned is stored and the device's, and an operation of the device is returned or
  -- `limit` older ones are.
  pub list_operations-IsOldest :
      gt64 limit 0 ≡ true
      → (ops : List Operation) × (list_operations live tenant_id eid limit s ≡ (ok ops, s))
        × IsOldest
            (is_of (normalize_tenant_id tenant_id) eid)
            limit
            (normalize_tenant_id tenant_id)
            s
            ops
  unfolding list_operations
  list_operations-IsOldest positive =
      let tenant = normalize_tenant_id tenant_id in
      let (ops, e, o) =
        select-IsOldest (is_of tenant eid) (record { tenant_id = tenant; eid = eid })
          (narrow tenant eid) s v room limit positive in
      (ops, ap (λ r. (r, s)) e, o)

  -- In a consistent queue whose id counter is not beyond the 64-bit range,
  -- FetchPendingOperations and ListOperations return the same lists whatever the order in which
  -- the map of operations is visited.
  pub fetch_visit :
      (visited : Dict Int64 MemoryOperation)
      → Permᴰ s.operations visited
      → ((fetch_pending_operations live tenant_id eid limit s).0
          ≡ (fetch_pending_operations live tenant_id eid limit
              (record s { operations = visited })).0)
        × ((list_operations live tenant_id eid limit s).0
            ≡ (list_operations live tenant_id eid limit (record s { operations = visited })).0)
  unfolding fetch_pending_operations list_operations
  fetch_visit visited p =
      let tenant = normalize_tenant_id tenant_id in
      (
        select_visit (is_pending_of tenant eid) (record { tenant_id = tenant; eid = eid })
            (pending_narrow tenant eid) s v room limit visited p,
        select_visit (is_of tenant eid) (record { tenant_id = tenant; eid = eid })
            (narrow tenant eid) s v room limit visited p,
      )
