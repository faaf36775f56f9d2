-- ===== src/Memory/Queue/Lifecycle.antt =====
-- About the life of one operation in the queue of storage/memory/store.go.
use openiotrsp.Storage.Api.{live}
use openiotrsp.Memory.Operations.{find_operation}
use openiotrsp.Common.{
  ◌≡◌, refl, ◌⊎◌, inl, inr, some, arith, nat_eq, nat_eq_iff, if◌then◌else◌, Option-cases, eq_nat,
  eq_bytes, bytes_eq_iff, Int64, lookup-insert, lookup, insert, first_where, ok,
}
use openiotrsp.Prelude.Dict.Entries.{first_where_unique}
use openiotrsp.Storage.{Time, OperationStatus, EuiccPackageResult, normalize_tenant_id, TenantId}
use openiotrsp.Memory.State.{
  Store, MemoryOperation, eq_device_key, eq_result_key, eq_profile_key, eq_associated_key,
  eq_config_key, eq_notification_key, ResultKey, result_key_eq_iff,
}
use openiotrsp.Memory.Results.{
  is_target, normalize_result_status, record_euicc_package_result, address_result, file_result,
  finish_operation, get_operation_result,
}
use openiotrsp.Memory.Queue.{IsQueueValid, device_key_of}

-- The stored operation after a result: its status and its time of change are new.
abbrev pub completed : Time → OperationStatus → MemoryOperation → MemoryOperation
completed now status stored = record stored {
  operation = record stored.operation { status = normalize_result_status status; updated_at = now };
}

-- A result names the operation by its id, or with id 0 by the device and the sequence number.
abbrev pub Names : Int64 → MemoryOperation → EuiccPackageResult → Type 0
Names id o given =
    (given.operation_id ≡ id)
    ⊎ ((given.operation_id ≡ 0)
        × (given.eid ≡ o.operation.eid)
        × (given.sequence_number ≡ o.operation.sequence_number))

module _ (s : Store) (v : IsQueueValid s) (id : Int64) (o : MemoryOperation)
    (there : lookup id s.operations ≡ some o) where
  by_id :
      (result : EuiccPackageResult)
      → result.operation_id ≡ id
      → first_where (is_target o.tenant_id result) s.operations ≡ some (id, o)
  by_id result e =
      let positive = (v.fresh id o there).0 in
      let own = v.keyed id o there in
      first_where_unique (is_target o.tenant_id result) s.operations id o v.distinct there
        (ground (arith, bytes_eq_iff o.tenant_id o.tenant_id))
        (λ j w l t. ground (arith, v.keyed j w l))

  by_sequence :
      (result : EuiccPackageResult)
      → result.operation_id ≡ 0
      → result.eid ≡ o.operation.eid
      → result.sequence_number ≡ o.operation.sequence_number
      → first_where (is_target o.tenant_id result) s.operations ≡ some (id, o)
  by_sequence result z e n =
      first_where_unique (is_target o.tenant_id result) s.operations id o v.distinct there
        (ground
          (arith, bytes_eq_iff o.tenant_id o.tenant_id, bytes_eq_iff o.operation.eid result.eid))
        (λ j w l t.
          v.unique j id w o l there
            (ground (
              arith,
              bytes_eq_iff w.tenant_id o.tenant_id,
              bytes_eq_iff w.operation.eid result.eid,
            ))
            (ground arith))

  module _ (tenant_id : TenantId) (owner : o.tenant_id ≡ normalize_tenant_id tenant_id) (now : Time)
      (given : EuiccPackageResult) where
    -- The result as it is filed.
    abbrev filed : EuiccPackageResult
    filed = record given {
      eid = o.operation.eid;
      sequence_number = o.operation.sequence_number;
      status = normalize_result_status given.status;
    }

    abbrev filed_key : ResultKey
    filed_key = record {
      tenant_id = o.tenant_id;
      eid = o.operation.eid;
      sequence_number = o.operation.sequence_number;
    }

    abbrev recorded : Store
    recorded = record s {
      results = insert filed_key filed s.results;
      operations = insert id (completed now given.status o) s.operations;
    }

    owned : find_operation o.tenant_id id s ≡ some o.operation
    unfolding find_operation
    owned = ground (arith, bytes_eq_iff o.tenant_id o.tenant_id)

    address :
        Names id o given
        → address_result o.tenant_id given s
          ≡ some (record given {
            eid = o.operation.eid;
            sequence_number = o.operation.sequence_number;
          })
    unfolding address_result
    address (inl e) = ground (arith, owned, (v.fresh id o there).0)
    address (inr (z, e, n)) = ground arith

    hit : Names id o given → first_where (is_target o.tenant_id filed) s.operations ≡ some (id, o)
    hit (inl e) = by_id filed e
    hit (inr (z, e, n)) = by_sequence filed z refl refl

    filed_store : Names id o given → file_result now o.tenant_id filed s ≡ recorded
    unfolding file_result finish_operation
    filed_store n = rw (hit n)

    record_lem :
        Names id o given
        → record_euicc_package_result now live tenant_id given s ≡ (ok tt, recorded)
    unfolding record_euicc_package_result
    record_lem n = elim (Option-cases (lookup (device_key_of o) s.devices)) [
      | inl missing ↦ absurd (v.known id o there missing)
      | inr (d, known) ↦ ground (arith, address n, filed_store n)
    ]

    read_back :
        (get_operation_result live tenant_id id recorded).0
        ≡ ok (record {
          operation_id = id;
          eid = o.operation.eid;
          sequence_number = o.operation.sequence_number;
          status = normalize_result_status given.status;
          payload = given.payload;
          created_at = now;
        })
    unfolding get_operation_result
    read_back = ground (
      arith,
      bytes_eq_iff o.tenant_id o.tenant_id,
      nat_eq_iff id id,
      v.keyed id o there,
      lookup-insert id id (completed now given.status o) s.operations,
      lookup-insert filed_key filed_key filed s.results,
      result_key_eq_iff filed_key filed_key,
    )

    -- In a consistent queue, recording a result for a stored operation of the tenant, named by its
    -- id or by device and sequence number, succeeds. It changes of the queue that operation's
    -- status, to failed or else done, and its time of change. The result can then be read back
    -- under the operation's id, with the payload as it was given.
    pub record_completes :
        Names id o given
        → let after = (record_euicc_package_result now live tenant_id given s).1 in
          ((record_euicc_package_result now live tenant_id given s).0 ≡ ok tt)
          × ((j : Int64)
              → lookup j after.operations ≡ (
                  if nat_eq id j
                  then some (completed now given.status o)
                  else lookup j s.operations))
          × ((get_operation_result live tenant_id id after).0
              ≡ ok (record {
                operation_id = id;
                eid = o.operation.eid;
                sequence_number = o.operation.sequence_number;
                status = normalize_result_status given.status;
                payload = given.payload;
                created_at = now;
              }))
    record_completes n =
        rw (record_lem n)
          (refl, (λ j. lookup-insert id j (completed now given.status o) s.operations), read_back)
