-- ===== src/Storage/Api.antt =====
-- storage/store.go: the part of the interface `Store` that the package effects use, and what one
-- device's caller may rely on, whatever implements it.
use openiotrsp.Common.{
  ℕ, ◌≡◌, Option, none, some, List, if◌then◌else◌, All, Bytes, eq_nat, eq_bytes, bytes_eq, Int64,
  not_found, Result, ok, err, Context, Action,
}
use mathlib.Core.List.{Memᴰ}
use openiotrsp.Common.{
  ℕ, ◌≡◌, Option, none, some, List, if◌then◌else◌, All, Bytes, eq_nat, eq_bytes, bytes_eq, Int64,
  not_found, Result, ok, err, Context, Action,
}
use openiotrsp.Storage.{
  EuiccPackageResult, TenantId, ProfileState, EuiccState, AssociatedEim, OperationRequest,
  Operation, Notification,
}

-- The methods that euiccpkg, ipadata and esipa call. An implementation reads the clock by itself.
pub record StoreApi (S : Type 0) : Type 0 where
  pub get_profile_state : Context → TenantId → Bytes → Bytes → Action S ProfileState
  pub list_profile_states : Context → TenantId → Bytes → Action S (List ProfileState)
  pub set_profile_state : Context → TenantId → ProfileState → Action S (Unit {0})
  pub delete_profile_state : Context → TenantId → Bytes → Bytes → Action S (Unit {0})
  pub get_euicc_state : Context → TenantId → Bytes → Action S EuiccState
  pub set_euicc_state : Context → TenantId → EuiccState → Action S (Unit {0})
  pub set_associated_eim : Context → TenantId → AssociatedEim → Action S (Unit {0})
  pub delete_associated_eim : Context → TenantId → Bytes → Bytes → Action S (Unit {0})
  pub get_associated_eim : Context → TenantId → Bytes → Bytes → Action S AssociatedEim
  pub next_euicc_package_counter : Context → TenantId → Bytes → Action S Int64
  pub record_euicc_package_result : Context → TenantId → EuiccPackageResult → Action S (Unit {0})
  pub enqueue_operation : Context → TenantId → OperationRequest → Action S Operation
  pub fetch_pending_operations : Context → TenantId → Bytes → Int64 → Action S (List Operation)
  pub list_operations : Context → TenantId → Bytes → Int64 → Action S (List Operation)
  pub list_pending_operations : Context → TenantId → Int64 → Action S (List Operation)
  pub store_notification : Context → TenantId → Notification → Action S (Unit {0})

-- The context of a call that has not been cancelled.
abbrev pub live : Context
live = record { ctx_err = none }

-- `v, ok := m[k]; !ok ⇒ ErrNotFound`
abbrev pub found_or {ℓ} : {A : Type ℓ} → Option A → Result A
found_or none = err not_found
found_or (some a) = ok a

-- What a store shows of one device of one tenant, and the laws of its methods there. A registered
-- device is `Ready`; `profile`, `euicc` and `associated` are what it holds.
pub record DeviceView {S : Type 0} (api : StoreApi S) (t : TenantId) (eid : Bytes) : Type 1 where
  pub Ready : S → Type 0
  pub profile : S → Bytes → Option ProfileState
  pub euicc : S → Option EuiccState
  pub associated : S → Bytes → Option AssociatedEim
  pub get_profile :
      (s : S) (i : Bytes) → api.get_profile_state live t eid i s ≡ (found_or (profile s i), s)
  pub list_profiles :
      (s : S)
      → Ready s
      → (l : List ProfileState) × (api.list_profile_states live t eid s ≡ (ok l, s))
        × All (λ p. (p.eid ≡ eid) × (profile s p.iccid ≡ some p)) l
        × ((i : Bytes) (p : ProfileState) → profile s i ≡ some p → (p.iccid ≡ i) × Memᴰ p l)
  pub set_profile :
      (s : S) (p : ProfileState)
      → Ready s
      → p.eid ≡ eid
      → (r : S) × (api.set_profile_state live t p s ≡ (ok tt, r))
        × Ready r
        × ((i : Bytes) → profile r i ≡ (if bytes_eq p.iccid i then some p else profile s i))
        × (euicc r ≡ euicc s)
        × ((i : Bytes) → associated r i ≡ associated s i)
  pub delete_profile :
      (s : S) (i : Bytes)
      → Ready s
      → (r : S) × (api.delete_profile_state live t eid i s
          ≡ (elim (profile s i) [ none ↦ err not_found | some _ ↦ ok tt ], r))
        × Ready r
        × ((j : Bytes) → profile r j ≡ (if bytes_eq i j then none else profile s j))
        × (euicc r ≡ euicc s)
        × ((j : Bytes) → associated r j ≡ associated s j)
  pub get_euicc : (s : S) → api.get_euicc_state live t eid s ≡ (found_or (euicc s), s)
  pub set_euicc :
      (s : S) (e : EuiccState)
      → Ready s
      → e.eid ≡ eid
      → (r : S) × (api.set_euicc_state live t e s ≡ (ok tt, r))
        × Ready r
        × ((at : ℕ) × (euicc r ≡ some (record e { updated_at = at })))
        × ((i : Bytes) → profile r i ≡ profile s i)
        × ((i : Bytes) → associated r i ≡ associated s i)
  pub get_associated :
      (s : S) (i : Bytes) → api.get_associated_eim live t eid i s ≡ (found_or (associated s i), s)
  pub set_associated :
      (s : S) (a : AssociatedEim)
      → Ready s
      → a.eid ≡ eid
      → (r : S) × (api.set_associated_eim live t a s ≡ (ok tt, r))
        × Ready r
        × ((i : Bytes) → associated r i ≡ (if bytes_eq a.eim_id i then some a else associated s i))
        × ((i : Bytes) → profile r i ≡ profile s i)
        × (euicc r ≡ euicc s)
  pub delete_associated :
      (s : S) (i : Bytes)
      → Ready s
      → (r : S) × (api.delete_associated_eim live t eid i s
          ≡ (elim (associated s i) [ none ↦ err not_found | some _ ↦ ok tt ], r))
        × Ready r
        × ((j : Bytes) → associated r j ≡ (if bytes_eq i j then none else associated s j))
        × ((j : Bytes) → profile r j ≡ profile s j)
        × (euicc r ≡ euicc s)
