-- ===== src/Memory/Queue/Complete.antt =====
-- About RecordEUICCPackageResult of storage/memory/store.go and the consistency of the queue.
use openiotrsp.Common.{
  ◌≡◌, refl, sym, ◌∙◌, inl, inr, Option, none, some, arith, nat_eq, nat_eq_iff, Bool-cases, eq_nat,
  eq_bytes, Int64, lookup-insert, insert-HasDistinctKeys, lookup, insert, first_where, Context,
}
use openiotrsp.Prelude.Dict.Entries.{lookup-first_where}
use openiotrsp.Storage.{TenantId, Time, EuiccPackageResult, normalize_tenant_id}
use openiotrsp.Memory.State.{
  Store, MemoryOperation, eq_device_key, eq_result_key, eq_profile_key, eq_associated_key,
  eq_config_key, eq_notification_key,
}
use openiotrsp.Memory.Results.{
  record_euicc_package_result, finish_operation, file_result, is_target, record_keeps,
}
use openiotrsp.Memory.Queue.{IsQueueValid, device_key_of}
use openiotrsp.Memory.Queue.Frame.{frame-IsQueueValid}

-- An operation replaced by one with the same id, device and sequence number.
module _ (s : Store) (id : Int64) (old new : MemoryOperation) (v : IsQueueValid s)
    (found : lookup id s.operations ≡ some old)
    (same_device : device_key_of new ≡ device_key_of old)
    (same_id : new.operation.id ≡ old.operation.id)
    (same_number : new.operation.sequence_number ≡ old.operation.sequence_number) where
  abbrev replaced : Store
  replaced = record s { operations = insert id new s.operations }

  -- What stands behind an entry of the new map.
  origin :
      (i : Int64) (a : MemoryOperation)
      → lookup i replaced.operations ≡ some a
      → (b : MemoryOperation) × (lookup i s.operations ≡ some b)
        × (device_key_of a ≡ device_key_of b)
        × (a.operation.id ≡ b.operation.id)
        × (a.operation.sequence_number ≡ b.operation.sequence_number)
  origin i a l = elim (Bool-cases (nat_eq id i)) [
    | inl same ↦ (
      old,
      ground (arith, nat_eq_iff id i),
      ground (arith, lookup-insert id i new s.operations),
      ground (arith, lookup-insert id i new s.operations),
      ground (arith, lookup-insert id i new s.operations),
    )
    | inr other ↦ (a, ground (arith, lookup-insert id i new s.operations), refl, refl, refl)
  ]

  replaced_unique :
      (i j : Int64) (a b : MemoryOperation)
      → lookup i replaced.operations ≡ some a
      → lookup j replaced.operations ≡ some b
      → device_key_of a ≡ device_key_of b
      → a.operation.sequence_number ≡ b.operation.sequence_number
      → i ≡ j
  replaced_unique i j a b l m p q =
      let (a', la, da, ia, na) = origin i a l in
      let (b', lb, db, ib, nb) = origin j b m in
      v.unique i j a' b' la lb (sym da ∙ p ∙ db) (sym na ∙ q ∙ nb)

  replaced-IsQueueValid : IsQueueValid replaced
  replaced-IsQueueValid = record {
    distinct = insert-HasDistinctKeys id new s.operations v.distinct;
    positive = v.positive;
    keyed = λ i a l. let (b, lb, db, ib, nb) = origin i a l in ib ∙ v.keyed i b lb;
    fresh = λ i a l. let (b, lb, db, ib, nb) = origin i a l in v.fresh i b lb;
    known = λ i a l. let (b, lb, db, ib, nb) = origin i a l in rw db (v.known i b lb);
    passed = λ i a d l m.
        let (b, lb, db, ib, nb) = origin i a l in rw nb (v.passed i b d lb (rw db at m));
    unique = replaced_unique;
    numbered = v.numbered;
  }

finish-IsQueueValid :
    (now : Time) (result : EuiccPackageResult) (hit : Option (Int64 × MemoryOperation)) (s : Store)
    → IsQueueValid s
    → ((id : Int64) (o : MemoryOperation) → hit ≡ some (id, o) → lookup id s.operations ≡ some o)
    → IsQueueValid (record s { operations = finish_operation now result hit s.operations })
unfolding finish_operation
finish-IsQueueValid now result none s v there = v
finish-IsQueueValid now result (some (id, stored)) s v there =
    replaced-IsQueueValid s id stored _ v (there id stored refl) refl refl refl

pub file-IsQueueValid :
    (now : Time) (tenant_id : TenantId) (result : EuiccPackageResult) (s : Store)
    → IsQueueValid s
    → IsQueueValid (file_result now tenant_id result s)
unfolding file_result
file-IsQueueValid now tenant_id result s v =
    let wanted = is_target tenant_id result in
    frame-IsQueueValid
      (record s {
        operations = finish_operation now result (first_where wanted s.operations) s.operations;
      })
      (file_result now tenant_id result s) refl refl refl
      (finish-IsQueueValid now result (first_where wanted s.operations) s v
        (λ id o. lookup-first_where wanted s.operations id o v.distinct))

pub record-IsQueueValid :
    (now : Time) (ctx : Context) (tenant_id : TenantId) (result : EuiccPackageResult) (s : Store)
    → IsQueueValid s
    → IsQueueValid (record_euicc_package_result now ctx tenant_id result s).1
record-IsQueueValid now ctx tenant_id result s v =
    record_keeps IsQueueValid now ctx tenant_id result s v
      (λ addressed found. file-IsQueueValid now (normalize_tenant_id tenant_id) _ s v)
