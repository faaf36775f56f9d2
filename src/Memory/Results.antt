-- ===== src/Memory/Results.antt =====
-- storage/memory/store.go: results of operations.
use openiotrsp.Common.{
  ◌≡◌, inl, inr, Bool, ◌&&◌, Option, none, some, if◌then◌else◌, Option-cases, ◌==◌, eq_nat,
  eq_bytes, Int64, Dict, lookup, insert, first_where, not_found, ok, err, Context, Action, checked,
  checked_keeps,
}
use openiotrsp.Storage.{
  TenantId, Time, OperationResult, OperationStatus, EuiccPackageResult, normalize_tenant_id,
  status_eq,
}
use openiotrsp.Memory.State.{
  Store, ResultKey, MemoryOperation, eq_device_key, eq_result_key, eq_profile_key,
  eq_associated_key, eq_config_key, eq_notification_key,
}
use openiotrsp.Memory.Devices.{registered, registered_keeps}
use openiotrsp.Memory.Operations.{find_operation}

-- normalizeResultStatus
unfoldable pub normalize_result_status : OperationStatus → OperationStatus
unfolding status_eq
normalize_result_status status =
    if status_eq status OperationStatus.failed then OperationStatus.failed else OperationStatus.done

-- The tests of the loop that looks for the operation of a result.
abbrev pub is_target : TenantId → EuiccPackageResult → Int64 → MemoryOperation → Bool
is_target tenant_id result id stored =
    (stored.tenant_id == tenant_id)
    && (if result.operation_id == 0
        then (stored.operation.eid == result.eid)
          && (stored.operation.sequence_number == result.sequence_number)
        else stored.operation.id == result.operation_id)

-- The body of the loop's last round, if a round got that far.
unfoldable pub finish_operation :
    Time
    → EuiccPackageResult
    → Option (Int64 × MemoryOperation)
    → Dict Int64 MemoryOperation
    → Dict Int64 MemoryOperation
finish_operation now result none operations = operations
finish_operation now result (some (id, stored)) operations =
    insert id
      (record stored {
        operation = record stored.operation { status = result.status; updated_at = now };
      })
      operations

unfoldable pub complete_operation :
    Time → TenantId → EuiccPackageResult → Dict Int64 MemoryOperation → Dict Int64 MemoryOperation
unfolding finish_operation
complete_operation now tenant_id result operations =
    finish_operation now result (first_where (is_target tenant_id result) operations) operations

-- The writes of a result that has its final address and status.
unfoldable pub file_result : Time → TenantId → EuiccPackageResult → Store → Store
unfolding complete_operation
file_result now tenant_id result s = record s {
  results =
      insert
        (record {
          tenant_id = tenant_id;
          eid = result.eid;
          sequence_number = result.sequence_number;
        })
        result s.results;
  operations = complete_operation now tenant_id result s.operations;
}

-- The EID and the sequence number that the result is filed under; none if it names an operation
-- that the tenant does not have.
unfoldable pub address_result : TenantId → EuiccPackageResult → Store → Option EuiccPackageResult
unfolding find_operation
address_result tenant_id result s =
    if result.operation_id == 0
    then some result
    else elim (find_operation tenant_id result.operation_id s) [
      | none ↦ none
      | some operation ↦
          some (record result { eid = operation.eid; sequence_number = operation.sequence_number })
    ]

-- RecordEUICCPackageResult, at the time `now`
unfoldable pub record_euicc_package_result :
    Time → Context → TenantId → EuiccPackageResult → Action Store (Unit {0})
unfolding normalize_tenant_id normalize_result_status file_result address_result
record_euicc_package_result now ctx given_tenant_id given = checked ctx (λ s.
    let tenant_id = normalize_tenant_id given_tenant_id in
    elim (address_result tenant_id given s) [
      | none ↦ (err not_found, s)
      | some addressed ↦
          registered (record { tenant_id = tenant_id; eid = addressed.eid })
            (λ t. (
              ok tt,
              file_result now tenant_id
                  (record addressed { status = normalize_result_status addressed.status }) t,
            ))
            s
    ])

-- What the writes keep is kept.
pub record_keeps {μ} :
    (P : Store → Type μ) (now : Time) (ctx : Context) (tenant_id : TenantId)
    (given : EuiccPackageResult) (s : Store)
    → P s
    → ((addressed : EuiccPackageResult)
        → address_result (normalize_tenant_id tenant_id) given s ≡ some addressed
        → P (
            file_result now
              (normalize_tenant_id tenant_id)
              (record addressed { status = normalize_result_status addressed.status })
              s))
    → P (record_euicc_package_result now ctx tenant_id given s).1
unfolding record_euicc_package_result
record_keeps P now ctx tenant_id given s h k =
    let tenant = normalize_tenant_id tenant_id in
    checked_keeps P ctx _ s h (elim (Option-cases (address_result tenant given s)) [
      | inl missing ↦ rw missing h
      | inr (addressed, found) ↦
          let final = record addressed { status = normalize_result_status addressed.status } in
          rw found (
            registered_keeps P _ (λ t. (ok tt, file_result now tenant final t)) s h
              (k addressed found))
    ])

-- GetOperationResult
unfoldable pub get_operation_result : Context → TenantId → Int64 → Action Store OperationResult
unfolding normalize_tenant_id find_operation
get_operation_result ctx given_tenant_id operation_id = checked ctx (λ s.
    let tenant_id = normalize_tenant_id given_tenant_id in
    elim (find_operation tenant_id operation_id s) [
      | none ↦ (err not_found, s)
      | some operation ↦
          elim (lookup
            (let key : ResultKey = record {
              tenant_id = tenant_id;
              eid = operation.eid;
              sequence_number = operation.sequence_number;
            } in
              key)
            s.results) [
              | none ↦ (err not_found, s)
              | some result ↦ (
                ok (record {
                  operation_id = operation.id;
                  eid = result.eid;
                  sequence_number = result.sequence_number;
                  status = result.status;
                  payload = result.payload;
                  created_at = operation.updated_at;
                }),
                s,
              )
            ]
    ])
