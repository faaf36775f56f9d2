-- ===== src/Memory/Queue/Reads.antt =====
-- About GetOperation and GetOperationBySequence of storage/memory/store.go.
use openiotrsp.Common.{
  ◌+◌, ◌^◌, ◌<◌, ◌≡◌, ap, subst, ◌↔◌, inl, inr, some, arith, Option-cases, Bytes, eq_nat, eq_bytes,
  bytes_eq_iff, Int64, lookup-insert, lookup, first_where, ok,
}
use openiotrsp.Prelude.Dict.Entries.{first_where_unique, first_where-holds, lookup-first_where}
use openiotrsp.Storage.{
  Time, TenantId, Operation, OperationRequest, OperationStatus, normalize_tenant_id,
}
use openiotrsp.Storage.Api.{live}
use openiotrsp.Memory.State.{
  Store, MemoryOperation, new_device_key, eq_device_key, eq_result_key, eq_profile_key,
  eq_associated_key, eq_config_key, eq_notification_key,
}
use openiotrsp.Memory.Operations.{
  find_operation, get_operation, get_operation_by_sequence, has_sequence, enqueue_operation,
}
use openiotrsp.Memory.Queue.{IsQueueValid}
use openiotrsp.Memory.Queue.Enqueue.{enqueue-IsQueueValid}

module _ (s : Store) (v : IsQueueValid s) (tenant_id : TenantId) where
  -- The search by sequence number of a stored operation finds that operation.
  found_by_sequence :
      (id : Int64) (o : MemoryOperation)
      → lookup id s.operations ≡ some o
      → o.tenant_id ≡ normalize_tenant_id tenant_id
      → first_where
          (has_sequence (normalize_tenant_id tenant_id) o.operation.eid o.operation.sequence_number)
          s.operations
        ≡ some (id, o)
  found_by_sequence id o l own =
      first_where_unique _ s.operations id o v.distinct l
        (ground (
          arith,
          bytes_eq_iff o.tenant_id (normalize_tenant_id tenant_id),
          bytes_eq_iff o.operation.eid o.operation.eid,
        ))
        (λ j w m t.
          v.unique j id w o m l
            (ground (
              arith,
              bytes_eq_iff w.tenant_id (normalize_tenant_id tenant_id),
              bytes_eq_iff w.operation.eid o.operation.eid,
            ))
            (ground arith))

  by_number :
      (op : Operation)
      → (get_operation live tenant_id op.id s).0 ≡ ok op
      → (get_operation_by_sequence live tenant_id op.eid op.sequence_number s).0 ≡ ok op
  unfolding get_operation get_operation_by_sequence find_operation
  by_number op h = elim (Option-cases (lookup op.id s.operations)) [
    | inl missing ↦ absurd (ground (arith, missing, h))
    | inr (o, there) ↦
        let own : o.tenant_id ≡ normalize_tenant_id tenant_id =
          ground (arith, there, h, bytes_eq_iff o.tenant_id (normalize_tenant_id tenant_id)) in
        let same : o.operation ≡ op = ground (arith, there, h) in
        ground (arith, found_by_sequence op.id o there own, same)
  ]

  by_own_id :
      (eid : Bytes) (op : Operation) (number : Int64)
      → (get_operation_by_sequence live tenant_id eid number s).0 ≡ ok op
      → (get_operation live tenant_id op.id s).0 ≡ ok op
  unfolding get_operation get_operation_by_sequence find_operation
  by_own_id eid op number h =
      let wanted = has_sequence (normalize_tenant_id tenant_id) eid number in
      elim (Option-cases (first_where wanted s.operations)) [
        | inl missing ↦ absurd (ground (arith, missing, h))
        | inr ((id, o), hit) ↦
            let there = lookup-first_where wanted s.operations id o v.distinct hit in
            let same : o.operation ≡ op = ground (arith, hit, h) in
            ground (
              arith,
              there,
              same,
              v.keyed id o there,
              first_where-holds wanted s.operations id o hit,
            )
      ]

  -- In a consistent queue, GetOperation under an operation's id returns the operation exactly if
  -- GetOperationBySequence under its device and sequence number does, in whatever order the map of
  -- operations is visited.
  pub reads_agree :
      (op : Operation)
      → ((get_operation live tenant_id op.id s).0 ≡ ok op)
        ↔ ((get_operation_by_sequence live tenant_id op.eid op.sequence_number s).0 ≡ ok op)
  reads_agree op = (by_number op, by_own_id op.eid op op.sequence_number)

module _ (now : Time) (tenant_id : TenantId) (request : OperationRequest) (s r : Store)
    (op : Operation) where
  stored_under_id :
      enqueue_operation now live tenant_id request s ≡ (ok op, r)
      → (get_operation live tenant_id op.id r ≡ (ok op, r))
        × (op.eid ≡ request.eid)
        × (op.kind ≡ request.kind)
        × (op.payload ≡ request.payload)
        × (op.status ≡ OperationStatus.pending)
  unfolding enqueue_operation get_operation find_operation new_device_key
  stored_under_id h =
      elim (Option-cases (lookup (new_device_key tenant_id request.eid) s.devices)) [
        | inl missing ↦ absurd (ground (arith, missing, h))
        | inr (d, found) ↦ ground (
          arith,
          found,
          h,
          lookup-insert op.id op.id
              (record { tenant_id = normalize_tenant_id tenant_id; operation = op }) s.operations,
          bytes_eq_iff (normalize_tenant_id tenant_id) (normalize_tenant_id tenant_id),
        )
      ]

  -- On a consistent queue whose ids have not run out: once EnqueueOperation has returned an
  -- operation, which is pending and carries the request, GetOperation under its id and
  -- GetOperationBySequence under its device and sequence number both return that operation.
  pub enqueued_is_read :
      IsQueueValid s
      → s.next_operation_id + 1 < 2 ^ 63
      → enqueue_operation now live tenant_id request s ≡ (ok op, r)
      → ((get_operation live tenant_id op.id r).0 ≡ ok op)
        × ((get_operation_by_sequence live tenant_id op.eid op.sequence_number r).0 ≡ ok op)
        × (op.eid ≡ request.eid)
        × (op.kind ≡ request.kind)
        × (op.payload ≡ request.payload)
        × (op.status ≡ OperationStatus.pending)
  enqueued_is_read v room h =
      let (read, device, kind, payload, status) = stored_under_id h in
      let valid : IsQueueValid r =
        subst IsQueueValid (ap (λ x. x.1) h)
          (enqueue-IsQueueValid now live tenant_id request s v room) in
      let first = ap (λ x. x.0) read in
      (first, (reads_agree r valid tenant_id op).0 first, device, kind, payload, status)
