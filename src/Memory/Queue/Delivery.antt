-- ===== src/Memory/Queue/Delivery.antt =====
-- About at-least-once delivery by the queue of storage/memory/store.go.
use openiotrsp.Memory.Queue.Frame.{aside_frame}
use openiotrsp.Memory.Queue.Histories.{apply-IsQueueValid, apply_next}
use openiotrsp.Memory.Devices.{register_device, next_euicc_package_counter}
use openiotrsp.Common.{
  ◌+◌, ◌^◌, ◌<◌, ◌≡◌, refl, ap, ◌∙◌, ◌≢◌, inl, inr, true, Option, none, some, List, [], ◌∷◌, arith,
  nat_eq_iff, Option-cases, length, All, eq_nat, eq_bytes, bytes_eq_iff, Int64, Dict, lookup-insert,
  lookup, insert, first_where, Context, checked_keeps,
}
use openiotrsp.Prelude.Dict.Entries.{lookup-first_where, first_where-holds}
use openiotrsp.Storage.{TenantId, Time, EuiccPackageResult, normalize_tenant_id}
use openiotrsp.Memory.State.{
  Store, MemoryOperation, eq_device_key, eq_result_key, eq_profile_key, eq_associated_key,
  eq_config_key, eq_notification_key, new_device_key,
}
use openiotrsp.Memory.Results.{
  finish_operation, file_result, address_result, is_target, record_euicc_package_result,
  record_keeps,
}
use openiotrsp.Memory.Calls.{
  Call, Change, registers, counts, enqueues, records_result, apply, step, run,
}
use openiotrsp.Memory.Operations.{find_operation, enqueue_operation}
use openiotrsp.Memory.Queue.{IsQueueValid}
use openiotrsp.Memory.Queue.Lifecycle.{Names}

-- The call records no result for the operation.
abbrev pub Spares : Int64 → MemoryOperation → Call → Type 0
Spares id o call =
    (result : EuiccPackageResult)
    → call.change ≡ records_result result
    → normalize_tenant_id call.tenant_id ≡ o.tenant_id
    → ¬ Names id o result

module _ (id : Int64) (o : MemoryOperation) (s : Store) (v : IsQueueValid s)
    (there : lookup id s.operations ≡ some o) where
  -- A result that hits the operation names it.
  target_named :
      (tenant_id : TenantId) (given addressed : EuiccPackageResult)
      → address_result tenant_id given s ≡ some addressed
      → is_target tenant_id addressed id o ≡ true
      → (tenant_id ≡ o.tenant_id) × Names id o given
  unfolding address_result find_operation
  target_named tenant_id given addressed a t = ground (
    arith,
    bytes_eq_iff o.tenant_id tenant_id,
    bytes_eq_iff o.operation.eid addressed.eid,
    v.keyed id o there,
    v.fresh id o there,
  )

  finish_spares :
      (now : Time) (result : EuiccPackageResult) (hit : Option (Int64 × MemoryOperation))
      → ((j : Int64) (w : MemoryOperation) → hit ≡ some (j, w) → j ≢ id)
      → lookup id (finish_operation now result hit s.operations) ≡ some o
  unfolding finish_operation
  finish_spares now result none n = there
  finish_spares now result (some (j, w)) n =
      let other = n j w refl in
      let new : MemoryOperation = record w {
        operation = record w.operation { status = result.status; updated_at = now };
      } in
      ground (arith, lookup-insert j id new s.operations, nat_eq_iff j id)

  file_spares :
      (now : Time) (tenant_id : TenantId) (result : EuiccPackageResult)
      → ¬ (is_target tenant_id result id o ≡ true)
      → lookup id (file_result now tenant_id result s).operations ≡ some o
  unfolding file_result
  file_spares now tenant_id result n =
      let wanted = is_target tenant_id result in
      finish_spares now result (first_where wanted s.operations) λ j w hit same.
        let at = lookup-first_where wanted s.operations j w v.distinct hit in
        n (cc (first_where-holds wanted s.operations j w hit, ap (λ i. lookup i s.operations) same))

  record_spares :
      (now : Time) (c : Context) (t : TenantId) (given : EuiccPackageResult)
      → (normalize_tenant_id t ≡ o.tenant_id → ¬ Names id o given)
      → lookup id (record_euicc_package_result now c t given s).1.operations ≡ some o
  record_spares now c t given n =
      let tenant = normalize_tenant_id t in
      record_keeps (λ r. lookup id r.operations ≡ some o) now c t given s there
        λ addressed found.
          file_spares now tenant _
            λ hit. let (mine, names) = target_named tenant given addressed found hit in n mine names

insert_newer :
    (i id : Int64) (new o : MemoryOperation) (operations : Dict Int64 MemoryOperation)
    → id < i
    → lookup id operations ≡ some o
    → lookup id (insert i new operations) ≡ some o
insert_newer i id new o operations h there = ground (arith, lookup-insert i id new operations)

apply_spares :
    (at : Time) (c : Context) (t : TenantId) (change : Change) (s : Store)
    → IsQueueValid s
    → s.next_operation_id + 1 < 2 ^ 63
    → (id : Int64) (o : MemoryOperation) → lookup id s.operations ≡ some o
    → ((result : EuiccPackageResult)
        → change ≡ records_result result
        → normalize_tenant_id t ≡ o.tenant_id
        → ¬ Names id o result)
    → lookup id (apply at c t change s).operations ≡ some o
unfolding apply register_device next_euicc_package_counter enqueue_operation
apply_spares at c t (registers device) s v room id o there n = ground arith
apply_spares at c t (counts eid) s v room id o there n = ground arith
apply_spares at c t (enqueues request) s v room id o there n =
    let kept : Store → Type 0 = λ r. lookup id r.operations ≡ some o in
    checked_keeps kept c _ s there
      (elim (Option-cases (lookup (new_device_key t request.eid) s.devices)) [
        | inl missing ↦ rw missing there
        | inr (d, found) ↦
            rw found
              (insert_newer s.next_operation_id id _ o s.operations (v.fresh id o there).1 there)
      ])
apply_spares at c t (records_result result) s v room id o there n =
    record_spares id o s v there at c t result (n result refl)
apply_spares at c t change s v room id o there n =
    ap (λ ops. lookup id ops) (aside_frame at c t change s tt).0 ∙ there

-- In a consistent queue, whatever calls follow, as long as none records a result that names the
-- operation and the id counter does not run out, a stored operation stays as it is.
pub run-Spares :
    (calls : List Call) (s : Store) (id : Int64) (o : MemoryOperation)
    → IsQueueValid s
    → s.next_operation_id + length calls < 2 ^ 63
    → lookup id s.operations ≡ some o
    → All (Spares id o) calls
    → lookup id (run calls s).operations ≡ some o
unfolding run step
run-Spares [] s id o v room there all = there
run-Spares (call ∷ calls) s id o v room there all =
    let one : s.next_operation_id + 1 < 2 ^ 63 = omega arith in
    run-Spares calls (apply call.now call.ctx call.tenant_id call.change s) id o
      (apply-IsQueueValid call.now call.ctx call.tenant_id call.change s one v)
      (omega (arith, apply_next call.now call.ctx call.tenant_id call.change s one))
      (apply_spares call.now call.ctx call.tenant_id call.change s v one id o there all.0) all.1
