-- ===== src/EuiccPkg/State/Enable.antt =====
-- euiccpkg/state.go: enable, disable and setDefaultDpAddress on the stored state.
use openiotrsp.Common.{
  ℕ, ◌≡◌, refl, Bool, Option, none, some, if◌then◌else◌, Bytes, eq_nat, eq_bytes, bytes_eq, ok,
}
use openiotrsp.Storage.{TenantId, ProfileState}
use openiotrsp.Storage.Api.{StoreApi, DeviceView, live, found_or}
use openiotrsp.EuiccPkg.State.{
  set_profile_enabled, set_euicc_default_smdp_address, empty_profile, empty_euicc, missing_as,
}

-- The value that is there, or the default.
abbrev pub get_or {ℓ} : {A : Type ℓ} → Option A → A → A
get_or none d = d
get_or (some a) d = a

missing_found {ℓ κ} :
    {S : Type ℓ} {A : Type κ} (d : A) (o : Option A) (s : S)
    → missing_as d (found_or o, s) ≡ (ok (get_or o d), s)
missing_found d none s = refl
missing_found d (some a) s = refl

module _ {S : Type 0} (api : StoreApi S) (t : TenantId) (eid : Bytes)
    (w : DeviceView api t eid) where
  -- The state that is stored for the profile: the old one with the flag set anew.
  abbrev pub with_enabled : S → Bytes → Bool → ProfileState
  with_enabled s iccid enabled = record (get_or (w.profile s iccid) (empty_profile eid iccid)) {
    eid = eid;
    iccid = iccid;
    is_enabled = enabled;
  }

  -- On a ready device, enabling or disabling a profile succeeds. It changes of the device that
  -- profile only, and of the profile the flag: a profile that is not stored yet is created, with
  -- no fallback attribute and no SM-DP+ address.
  pub set_profile_enabled_lem :
      (s : S) (iccid : Bytes) (enabled : Bool)
      → w.Ready s
      → (r : S) × (set_profile_enabled api live t eid iccid enabled s ≡ (ok tt, r))
        × w.Ready r
        × ((j : Bytes)
            → w.profile r j
              ≡ (if bytes_eq iccid j then some (with_enabled s iccid enabled) else w.profile s j))
        × (w.euicc r ≡ w.euicc s)
        × ((j : Bytes) → w.associated r j ≡ w.associated s j)
  unfolding set_profile_enabled
  set_profile_enabled_lem s iccid enabled ready =
      let (r, e, k, p, u, a) = w.set_profile s (with_enabled s iccid enabled) ready refl in
      (
        r,
        rw (w.get_profile s iccid, missing_found (empty_profile eid iccid) (w.profile s iccid) s) e,
        k,
        p,
        u,
        a,
      )

  -- On a ready device, setting the default SM-DP+ address succeeds, and changes of the device
  -- that address and the time of its eUICC state only.
  pub set_default_smdp_lem :
      (s : S) (address : Bytes)
      → w.Ready s
      → (r : S) × (at : ℕ) × (set_euicc_default_smdp_address api live t eid address s ≡ (ok tt, r))
        × w.Ready r
        × (w.euicc r
            ≡ some (record (get_or (w.euicc s) (empty_euicc eid)) {
              eid = eid;
              default_smdp_address = address;
              updated_at = at;
            }))
        × ((j : Bytes) → w.profile r j ≡ w.profile s j)
        × ((j : Bytes) → w.associated r j ≡ w.associated s j)
  unfolding set_euicc_default_smdp_address
  set_default_smdp_lem s address ready =
      let old = get_or (w.euicc s) (empty_euicc eid) in
      let (r, e, k, u, p, a) =
        w.set_euicc s (record old { eid = eid; default_smdp_address = address }) ready refl in
      (r, u.0, rw (w.get_euicc s, missing_found (empty_euicc eid) (w.euicc s) s) e, k, u.1, p, a)
