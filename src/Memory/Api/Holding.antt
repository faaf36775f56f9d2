-- ===== src/Memory/Api/Holding.antt =====
-- About what the in-memory store of storage/memory/store.go holds for one device.
use openiotrsp.Common.{◌≡◌, ap, ◌∙◌, Option, some, Bytes, eq_nat, eq_bytes, lookup}
use openiotrsp.Memory.State.{
  Store, new_device_key, new_profile_state_key, new_associated_eim_key, eq_device_key,
  eq_profile_key, eq_associated_key,
}
use openiotrsp.Storage.{TenantId, Time, ProfileState, AssociatedEim, EuiccState}
use openiotrsp.Memory.Api.{Holds}

module _ (now : Time) (t : TenantId) (eid : Bytes) where
  abbrev pub profile_at : Store → Bytes → Option ProfileState
  profile_at s i = lookup (new_profile_state_key t eid i) s.profile_states

  abbrev pub euicc_at : Store → Option EuiccState
  euicc_at s = lookup (new_device_key t eid) s.euicc_states

  abbrev pub associated_at : Store → Bytes → Option AssociatedEim
  associated_at s i = lookup (new_associated_eim_key t eid i) s.associated_eims

  pub known_as :
      (s : Store) (own : Bytes) (h : Holds t eid s)
      → own ≡ eid
      → lookup (new_device_key t own) s.devices ≡ some h.device
  known_as s own h e = ap (λ i. lookup (new_device_key t i) s.devices) e ∙ h.known
