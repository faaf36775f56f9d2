-- ===== src/Memory/Isolation/Histories.antt =====
-- About histories of calls of storage/memory/store.go and the separation of tenants.
use openiotrsp.Prelude.Dict.Entries.{first_where-holds, lookup-first_where}
use openiotrsp.Memory.Queue.Histories.{apply-IsQueueValid, apply_next}
use openiotrsp.Memory.Results.{file_result, complete_operation, is_target, record_keeps}
use openiotrsp.Memory.Results.{finish_operation}
use openiotrsp.Memory.Calls.{
  Call, Change, apply, step, run, registers, sets_profile, deletes_profile, sets_euicc, counts,
  enqueues, records_result, stores_config, sets_associated, deletes_associated, stores_notification,
}
use openiotrsp.Memory.Operations.{enqueue_operation}
use openiotrsp.Memory.Calls.{
  Call, Change, apply, step, run, registers, sets_profile, deletes_profile, sets_euicc, counts,
  enqueues, records_result, stores_config, sets_associated, deletes_associated, stores_notification,
}
use openiotrsp.Memory.Calls.{
  Call, Change, apply, step, run, registers, sets_profile, deletes_profile, sets_euicc, counts,
  enqueues, records_result, stores_config, sets_associated, deletes_associated, stores_notification,
}
use openiotrsp.Common.{
  ◌+◌, ◌^◌, ◌<◌, ◌≡◌, refl, sym, ap, ◌∙◌, ◌≢◌, ◌↔◌, inl, inr, Option, none, some, List, [], ◌∷◌,
  arith, Bool-cases, Option-cases, length, All, Bytes, eq_nat, eq_bytes, bytes_eq_iff, Int64, gt64,
  lookup, first_where, Context, checked_keeps,
}
use openiotrsp.Storage.{
  TenantId, Time, normalize_tenant_id, Device, EuiccPackageResult, OperationRequest,
}
use openiotrsp.Memory.State.{
  Store, new_device_key, new_profile_state_key, eq_device_key, eq_result_key, eq_profile_key,
  eq_associated_key, eq_config_key, eq_notification_key, new_associated_eim_key,
}
use openiotrsp.Memory.Devices.{
  registered, register_device, next_euicc_package_counter, set_euicc_state,
}
use openiotrsp.Memory.Profiles.{set_profile_state, delete_profile_state}
use openiotrsp.Memory.Configs.{
  store_eim_config, config_key, delete_associated_eim, set_associated_eim, store_notification,
}
use openiotrsp.Memory.Queue.{IsQueueValid}
use openiotrsp.Memory.Isolation.{
  SameFor, same_refl, devices_written, profiles_written, profiles_deleted, euicc_written,
  configs_written, EuiccState, EimConfig, ProfileState, Notification, notifications_written,
  insert-SameAt, associated_deleted, AssociatedEim, MemoryOperation, DeviceKey, associated_written,
  operation_written, ResultKey,
}

module _ (tenant : TenantId) (s : Store) (v : IsQueueValid s) (at : Time) (c : Context)
    (t : TenantId) (other : normalize_tenant_id t ≢ tenant) where
  abbrev Kept : Store → Type 0
  Kept = SameFor tenant s

  kept : Kept s
  kept = same_refl tenant s

  register-Kept : (device : Device) → Kept (register_device c t device s).1
  unfolding register_device new_device_key
  register-Kept device =
      checked_keeps Kept c _ s kept
        (elim (Option-cases (lookup (new_device_key t device.eid) s.devices)) [
          | inr (d, found) ↦ rw found kept
          | inl missing ↦
              rw missing (devices_written tenant s (new_device_key t device.eid) _ other)
        ])

  count-Kept : (eid : Bytes) → Kept (next_euicc_package_counter c t eid s).1
  unfolding next_euicc_package_counter new_device_key
  count-Kept eid =
      checked_keeps Kept c _ s kept (elim (Option-cases (lookup (new_device_key t eid) s.devices)) [
        | inl missing ↦ rw missing kept
        | inr (d, found) ↦ rw found (devices_written tenant s (new_device_key t eid) _ other)
      ])

  set_profile-Kept : (state : ProfileState) → Kept (set_profile_state c t state s).1
  unfolding set_profile_state new_device_key new_profile_state_key
  set_profile-Kept state =
      checked_keeps Kept c _ s kept
        (elim (Option-cases (lookup (new_device_key t state.eid) s.devices)) [
          | inl missing ↦ rw (missing, registered) kept
          | inr (d, known) ↦
              rw (known, registered)
                (profiles_written tenant s (new_profile_state_key t state.eid state.iccid) state
                  other)
        ])

  delete_profile-Kept : (eid iccid : Bytes) → Kept (delete_profile_state c t eid iccid s).1
  unfolding delete_profile_state new_device_key new_profile_state_key
  delete_profile-Kept eid iccid =
      checked_keeps Kept c _ s kept (elim (Option-cases (lookup (new_device_key t eid) s.devices)) [
        | inl missing ↦ rw (missing, registered) kept
        | inr (d, known) ↦
            elim (Option-cases (lookup (new_profile_state_key t eid iccid) s.profile_states)) [
              | inl gone ↦ rw (known, registered, gone) kept
              | inr (p, held) ↦
                  rw (known, registered, held)
                    (profiles_deleted tenant s (new_profile_state_key t eid iccid) other)
            ]
      ])

  set_euicc-Kept : (state : EuiccState) → Kept (set_euicc_state at c t state s).1
  unfolding set_euicc_state new_device_key
  set_euicc-Kept state =
      checked_keeps Kept c _ s kept
        (elim (Option-cases (lookup (new_device_key t state.eid) s.devices)) [
          | inl missing ↦ rw (missing, registered) kept
          | inr (d, known) ↦
              rw (known, registered) (euicc_written tenant s (new_device_key t state.eid) _ other)
        ])

  store_config-Kept : (config : EimConfig) → Kept (store_eim_config c t config s).1
  unfolding store_eim_config
  store_config-Kept config =
      checked_keeps Kept c _ s kept
        (configs_written tenant s (config_key t config.eim_id) config other)

  set_associated-Kept : (associated : AssociatedEim) → Kept (set_associated_eim c t associated s).1
  unfolding set_associated_eim new_device_key new_associated_eim_key
  set_associated-Kept associated =
      checked_keeps Kept c _ s kept
        (elim (Option-cases (lookup (new_device_key t associated.eid) s.devices)) [
          | inl missing ↦ rw (missing, registered) kept
          | inr (d, known) ↦
              rw (known, registered)
                (associated_written tenant s
                  (new_associated_eim_key t associated.eid associated.eim_id) _ other)
        ])

  delete_associated-Kept : (eid eim_id : Bytes) → Kept (delete_associated_eim c t eid eim_id s).1
  unfolding delete_associated_eim new_device_key new_associated_eim_key
  delete_associated-Kept eid eim_id =
      checked_keeps Kept c _ s kept (elim (Option-cases (lookup (new_device_key t eid) s.devices)) [
        | inl missing ↦ rw (missing, registered) kept
        | inr (d, known) ↦
            elim (Option-cases (lookup (new_associated_eim_key t eid eim_id) s.associated_eims)) [
              | inl gone ↦ rw (known, registered, gone) kept
              | inr (p, held) ↦
                  rw (known, registered, held)
                    (associated_deleted tenant s (new_associated_eim_key t eid eim_id) other)
            ]
      ])

  store_notification-Kept :
      (notification : Notification) → Kept (store_notification at c t notification s).1
  unfolding store_notification new_device_key
  store_notification-Kept notification =
      checked_keeps Kept c _ s kept
        (elim (Option-cases (lookup (new_device_key t notification.eid) s.devices)) [
          | inl missing ↦ rw (missing, registered) kept
          | inr (d, known) ↦ elim (Bool-cases (gt64 notification.sequence_number 0)) [
            | inr bad ↦ rw (known, registered, bad) kept
            | inl good ↦ rw (known, registered, good) (notifications_written tenant s _ _ other)
          ]
        ])

  enqueue-Kept : (request : OperationRequest) → Kept (enqueue_operation at c t request s).1
  unfolding enqueue_operation new_device_key
  enqueue-Kept request =
      checked_keeps Kept c _ s kept
        (elim (Option-cases (lookup (new_device_key t request.eid) s.devices)) [
          | inl missing ↦ rw missing kept
          | inr (d, found) ↦ rw found (record {
            devices =
                insert-SameAt (λ (k : DeviceKey). k.tenant_id) tenant (new_device_key t request.eid)
                  _ s.devices other;
            profiles = kept.profiles;
            euicc = kept.euicc;
            associated = kept.associated;
            operations =
                operation_written tenant s s.next_operation_id _ other
                  (λ o l e. absurd (omega (arith, (v.fresh s.next_operation_id o l).1)));
            results = kept.results;
            configs = kept.configs;
            notifications = kept.notifications;
          })
        ])

  finish-Kept :
      (result : EuiccPackageResult) (hit : Option (Int64 × MemoryOperation))
      → ((i : Int64) (w : MemoryOperation)
          → hit ≡ some (i, w)
          → (w.tenant_id ≢ tenant) × (lookup i s.operations ≡ some w))
      → (id : Int64) (o : MemoryOperation) → o.tenant_id ≡ tenant
      → (lookup id (finish_operation at result hit s.operations) ≡ some o)
        ↔ (lookup id s.operations ≡ some o)
  unfolding finish_operation
  finish-Kept result none h id o own = ((λ l. l), (λ l. l))
  finish-Kept result (some (i, w)) h id o own =
      let (theirs, there) = h i w refl in
      operation_written tenant s i _ theirs
        (λ o' l e.
          let same : o' ≡ w = ground (arith, there, l) in
          theirs (ap (λ (x : MemoryOperation). x.tenant_id) (sym same) ∙ e))
        id o own

  file-Kept : (result : EuiccPackageResult) → Kept (file_result at (normalize_tenant_id t) result s)
  unfolding file_result complete_operation
  file-Kept result = record {
    devices = kept.devices;
    profiles = kept.profiles;
    euicc = kept.euicc;
    associated = kept.associated;
    operations =
        finish-Kept result (first_where (is_target (normalize_tenant_id t) result) s.operations)
          (λ i w hit. (
            (λ e. other (
                sym (
                  (bytes_eq_iff w.tenant_id (normalize_tenant_id t)).0 (
                    ground (
                      arith,
                      first_where-holds (is_target (normalize_tenant_id t) result) s.operations i w
                          hit,
                    )))
                ∙ e)),
            lookup-first_where (is_target (normalize_tenant_id t) result) s.operations i w
                v.distinct hit,
          ));
    results = insert-SameAt (λ (k : ResultKey). k.tenant_id) tenant _ result s.results other;
    configs = kept.configs;
    notifications = kept.notifications;
  }

  apply-Kept : (change : Change) → Kept (apply at c t change s)
  unfolding apply
  apply-Kept (registers device) = register-Kept device
  apply-Kept (sets_profile state) = set_profile-Kept state
  apply-Kept (deletes_profile eid iccid) = delete_profile-Kept eid iccid
  apply-Kept (sets_euicc state) = set_euicc-Kept state
  apply-Kept (counts eid) = count-Kept eid
  apply-Kept (enqueues request) = enqueue-Kept request
  apply-Kept (records_result result) =
      record_keeps Kept at c t result s kept (λ addressed found. file-Kept _)
  apply-Kept (stores_config config) = store_config-Kept config
  apply-Kept (sets_associated associated) = set_associated-Kept associated
  apply-Kept (deletes_associated eid eim_id) = delete_associated-Kept eid eim_id
  apply-Kept (stores_notification notification) = store_notification-Kept notification

same_trans :
    (tenant : TenantId) (s r u : Store)
    → SameFor tenant s r
    → SameFor tenant r u
    → SameFor tenant s u
same_trans tenant s r u a b = record {
  devices = λ k h. b.devices k h ∙ a.devices k h;
  profiles = λ k h. b.profiles k h ∙ a.profiles k h;
  euicc = λ k h. b.euicc k h ∙ a.euicc k h;
  associated = λ k h. b.associated k h ∙ a.associated k h;
  operations = λ id o h. (
    (λ l. (a.operations id o h).0 ((b.operations id o h).0 l)),
    (λ l. (b.operations id o h).1 ((a.operations id o h).1 l)),
  );
  results = λ k h. b.results k h ∙ a.results k h;
  configs = λ k h. b.configs k h ∙ a.configs k h;
  notifications = λ k h. b.notifications k h ∙ a.notifications k h;
}

-- The call is another tenant's.
abbrev pub IsForeign : TenantId → Call → Type 0
IsForeign tenant call = normalize_tenant_id call.tenant_id ≢ tenant

-- From a consistent queue, and while the id counter does not run out, calls for other tenants,
-- whatever they are, leave everything that the store holds for a tenant as it was: its devices
-- with their counters, its profiles, eUICC states, associations, operations, results, eIM
-- configurations and notifications.
pub run-SameFor :
    (tenant : TenantId) (calls : List Call) (s : Store)
    → IsQueueValid s
    → s.next_operation_id + length calls < 2 ^ 63
    → All (IsForeign tenant) calls
    → SameFor tenant s (run calls s)
unfolding run step
run-SameFor tenant [] s v room foreign = same_refl tenant s
run-SameFor tenant (call ∷ calls) s v room foreign =
    let one : s.next_operation_id + 1 < 2 ^ 63 = omega arith in
    let next = apply call.now call.ctx call.tenant_id call.change s in
    same_trans tenant s next (run calls next)
      (apply-Kept tenant s v call.now call.ctx call.tenant_id foreign.0 call.change)
      (run-SameFor tenant calls next
        (apply-IsQueueValid call.now call.ctx call.tenant_id call.change s one v)
        (omega (arith, apply_next call.now call.ctx call.tenant_id call.change s one)) foreign.1)
