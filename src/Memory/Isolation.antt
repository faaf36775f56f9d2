-- ===== src/Memory/Isolation.antt =====
-- About single calls of storage/memory/store.go and the separation of tenants.
pub mod Histories
use openiotrsp.Common.{
  ◌≡◌, refl, ap, ◌∙◌, ◌≢◌, ◌↔◌, inl, inr, some, arith, nat_eq_iff, Bool-cases, Comparable, ◌==◌,
  eq_nat, eq_bytes, Int64, Dict, lookup-insert, lookup-delete, lookup, insert, delete,
}
use openiotrsp.Storage.{TenantId, AssociatedEim, ProfileState, Notification, EuiccState, EimConfig}
use openiotrsp.Memory.State.{
  Store, MemoryDevice, DeviceKey, ResultKey, ProfileStateKey, AssociatedEimKey, ConfigKey,
  NotificationKey, MemoryOperation, eq_device_key, eq_result_key, eq_profile_key, eq_associated_key,
  eq_config_key, eq_notification_key,
}

-- Two maps are the same at the keys of a tenant.
abbrev pub SameAt {ℓ κ} :
    {K : Type ℓ} {V : Type κ} ⦃e : Comparable K⦄
    → (K → TenantId)
    → TenantId
    → Dict K V
    → Dict K V
    → Type (ℓ ⊔ κ)
SameAt {K = K} tenant_of tenant m n = (k : K) → tenant_of k ≡ tenant → lookup k n ≡ lookup k m

-- What two stores hold for a tenant is the same.
pub record SameFor (tenant : TenantId) (s r : Store) : Type 0 where
  pub devices : SameAt (λ (k : DeviceKey). k.tenant_id) tenant s.devices r.devices
  pub profiles :
      SameAt (λ (k : ProfileStateKey). k.tenant_id) tenant s.profile_states r.profile_states
  pub euicc : SameAt (λ (k : DeviceKey). k.tenant_id) tenant s.euicc_states r.euicc_states
  pub associated :
      SameAt (λ (k : AssociatedEimKey). k.tenant_id) tenant s.associated_eims r.associated_eims
  pub operations :
      (id : Int64) (o : MemoryOperation)
      → o.tenant_id ≡ tenant
      → (lookup id r.operations ≡ some o) ↔ (lookup id s.operations ≡ some o)
  pub results : SameAt (λ (k : ResultKey). k.tenant_id) tenant s.results r.results
  pub configs : SameAt (λ (k : ConfigKey). k.tenant_id) tenant s.eim_configs r.eim_configs
  pub notifications :
      SameAt (λ (k : NotificationKey). k.tenant_id) tenant s.notifications r.notifications

-- A write or a removal at another tenant's key.
module _ {ℓ κ} {K : Type ℓ} {V : Type κ} ⦃e : Comparable K⦄ (tenant_of : K → TenantId) where
  insert-SameAt :
      (tenant : TenantId) (key : K) (v : V) (m : Dict K V)
      → tenant_of key ≢ tenant
      → SameAt tenant_of tenant m (insert key v m)
  insert-SameAt tenant key v m other k h = elim (Bool-cases (key == k)) [
    | inl same ↦ absurd (other (ap tenant_of ((e.same_iff key k).0 same) ∙ h))
    | inr differ ↦ lookup-insert key k v m ∙ rw differ
  ]

  delete-SameAt :
      (tenant : TenantId) (key : K) (m : Dict K V)
      → tenant_of key ≢ tenant
      → SameAt tenant_of tenant m (delete key m)
  delete-SameAt tenant key m other k h = elim (Bool-cases (key == k)) [
    | inl same ↦ absurd (other (ap tenant_of ((e.same_iff key k).0 same) ∙ h))
    | inr differ ↦ lookup-delete key k m ∙ rw differ
  ]

module _ (tenant : TenantId) (s : Store) where
  pub same_refl : SameFor tenant s s
  same_refl = record {
    devices = λ k h. refl;
    profiles = λ k h. refl;
    euicc = λ k h. refl;
    associated = λ k h. refl;
    operations = λ id o h. ((λ l. l), (λ l. l));
    results = λ k h. refl;
    configs = λ k h. refl;
    notifications = λ k h. refl;
  }

  pub devices_written :
      (key : DeviceKey) (v : MemoryDevice)
      → key.tenant_id ≢ tenant
      → SameFor tenant s (record s { devices = insert key v s.devices })
  devices_written key v other = record {
    devices = insert-SameAt (λ (k : DeviceKey). k.tenant_id) tenant key v s.devices other;
    profiles = λ k h. refl;
    euicc = λ k h. refl;
    associated = λ k h. refl;
    operations = λ id o h. ((λ l. l), (λ l. l));
    results = λ k h. refl;
    configs = λ k h. refl;
    notifications = λ k h. refl;
  }

  pub profiles_written :
      (key : ProfileStateKey) (v : ProfileState)
      → key.tenant_id ≢ tenant
      → SameFor tenant s (record s { profile_states = insert key v s.profile_states })
  profiles_written key v other = record {
    devices = λ k h. refl;
    profiles =
        insert-SameAt (λ (k : ProfileStateKey). k.tenant_id) tenant key v s.profile_states other;
    euicc = λ k h. refl;
    associated = λ k h. refl;
    operations = λ id o h. ((λ l. l), (λ l. l));
    results = λ k h. refl;
    configs = λ k h. refl;
    notifications = λ k h. refl;
  }

  pub euicc_written :
      (key : DeviceKey) (v : EuiccState)
      → key.tenant_id ≢ tenant
      → SameFor tenant s (record s { euicc_states = insert key v s.euicc_states })
  euicc_written key v other = record {
    devices = λ k h. refl;
    profiles = λ k h. refl;
    euicc = insert-SameAt (λ (k : DeviceKey). k.tenant_id) tenant key v s.euicc_states other;
    associated = λ k h. refl;
    operations = λ id o h. ((λ l. l), (λ l. l));
    results = λ k h. refl;
    configs = λ k h. refl;
    notifications = λ k h. refl;
  }

  pub associated_written :
      (key : AssociatedEimKey) (v : AssociatedEim)
      → key.tenant_id ≢ tenant
      → SameFor tenant s (record s { associated_eims = insert key v s.associated_eims })
  associated_written key v other = record {
    devices = λ k h. refl;
    profiles = λ k h. refl;
    euicc = λ k h. refl;
    associated =
        insert-SameAt (λ (k : AssociatedEimKey). k.tenant_id) tenant key v s.associated_eims other;
    operations = λ id o h. ((λ l. l), (λ l. l));
    results = λ k h. refl;
    configs = λ k h. refl;
    notifications = λ k h. refl;
  }

  pub configs_written :
      (key : ConfigKey) (v : EimConfig)
      → key.tenant_id ≢ tenant
      → SameFor tenant s (record s { eim_configs = insert key v s.eim_configs })
  configs_written key v other = record {
    devices = λ k h. refl;
    profiles = λ k h. refl;
    euicc = λ k h. refl;
    associated = λ k h. refl;
    operations = λ id o h. ((λ l. l), (λ l. l));
    results = λ k h. refl;
    configs = insert-SameAt (λ (k : ConfigKey). k.tenant_id) tenant key v s.eim_configs other;
    notifications = λ k h. refl;
  }

  pub notifications_written :
      (key : NotificationKey) (v : Notification)
      → key.tenant_id ≢ tenant
      → SameFor tenant s (record s { notifications = insert key v s.notifications })
  notifications_written key v other = record {
    devices = λ k h. refl;
    profiles = λ k h. refl;
    euicc = λ k h. refl;
    associated = λ k h. refl;
    operations = λ id o h. ((λ l. l), (λ l. l));
    results = λ k h. refl;
    configs = λ k h. refl;
    notifications =
        insert-SameAt (λ (k : NotificationKey). k.tenant_id) tenant key v s.notifications other;
  }

  pub profiles_deleted :
      (key : ProfileStateKey)
      → key.tenant_id ≢ tenant
      → SameFor tenant s (record s { profile_states = delete key s.profile_states })
  profiles_deleted key other = record {
    devices = λ k h. refl;
    profiles =
        delete-SameAt (λ (k : ProfileStateKey). k.tenant_id) tenant key s.profile_states other;
    euicc = λ k h. refl;
    associated = λ k h. refl;
    operations = λ id o h. ((λ l. l), (λ l. l));
    results = λ k h. refl;
    configs = λ k h. refl;
    notifications = λ k h. refl;
  }

  pub associated_deleted :
      (key : AssociatedEimKey)
      → key.tenant_id ≢ tenant
      → SameFor tenant s (record s { associated_eims = delete key s.associated_eims })
  associated_deleted key other = record {
    devices = λ k h. refl;
    profiles = λ k h. refl;
    euicc = λ k h. refl;
    associated =
        delete-SameAt (λ (k : AssociatedEimKey). k.tenant_id) tenant key s.associated_eims other;
    operations = λ id o h. ((λ l. l), (λ l. l));
    results = λ k h. refl;
    configs = λ k h. refl;
    notifications = λ k h. refl;
  }

  -- An operation of another tenant is written where none of the tenant's is.
  pub operation_written :
      (i : Int64) (new : MemoryOperation)
      → new.tenant_id ≢ tenant
      → ((o : MemoryOperation) → lookup i s.operations ≡ some o → o.tenant_id ≢ tenant)
      → (id : Int64) (o : MemoryOperation) → o.tenant_id ≡ tenant
      → (lookup id (insert i new s.operations) ≡ some o) ↔ (lookup id s.operations ≡ some o)
  operation_written i new other free id o h = (
    (λ l. ground (
      arith,
      l,
      h,
      other,
      lookup-insert i id new s.operations,
      ap (λ (x : MemoryOperation). x.tenant_id) (refl {a = o}),
    )),
    (λ l. ground (arith, l, h, free o, lookup-insert i id new s.operations, nat_eq_iff i id)),
  )
