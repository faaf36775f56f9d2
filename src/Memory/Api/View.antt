-- ===== src/Memory/Api/View.antt =====
-- About the in-memory store and the laws that the callers of the store interface rely on.
use openiotrsp.Memory.Api.DeviceLaws.{
  get_euicc_law, set_euicc_law, get_associated_law, set_associated_law, delete_associated_law,
}
use openiotrsp.Memory.Api.ProfileLaws.{
  delete_profile_law, get_profile_law, list_profiles_law, set_profile_law,
}
use openiotrsp.Memory.Api.Holding.{profile_at, euicc_at, associated_at}
use openiotrsp.Common.{Bytes, eq_nat, eq_bytes}
use openiotrsp.Storage.Api.{DeviceView}
use openiotrsp.Memory.State.{eq_device_key, eq_profile_key, eq_associated_key}
use openiotrsp.Storage.{TenantId, Time}
use openiotrsp.Memory.Api.{memory_api, Holds}

-- The in-memory store keeps the laws of the store interface on every device that it holds.
abbrev pub memory_view :
    (now : Time) (t : TenantId) (eid : Bytes) → DeviceView (memory_api now) t eid
memory_view now t eid = record {
  Ready = Holds t eid;
  profile = profile_at now t eid;
  euicc = euicc_at now t eid;
  associated = associated_at now t eid;
  get_profile = get_profile_law now t eid;
  list_profiles = list_profiles_law now t eid;
  set_profile = set_profile_law now t eid;
  delete_profile = delete_profile_law now t eid;
  get_euicc = get_euicc_law now t eid;
  set_euicc = set_euicc_law now t eid;
  get_associated = get_associated_law now t eid;
  set_associated = set_associated_law now t eid;
  delete_associated = delete_associated_law now t eid;
}
