-- ===== src/Examples/Package.antt =====
-- The theorems of the package effects, on a device of the in-memory store.
use openiotrsp.Memory.Devices.{register_device}
use openiotrsp.EuiccPkg.State.{set_euicc_default_smdp_address, empty_euicc}
use openiotrsp.EuiccPkg.State.{set_profile_enabled}
use openiotrsp.EuiccPkg.State.{clear_profile_fallback}
use openiotrsp.EuiccPkg.State.{sync_profile_inventory}
use openiotrsp.EuiccPkg.State.{set_profile_fallback}
use mathlib.Core.List.{Memᴰ, Permᴰ}
use openiotrsp.Common.{
  ℕ, ◌≡◌, refl, true, false, none, some, List, [], ◌∷◌, arith, if◌then◌else◌, All, Bytes, ascii,
  eq_nat, eq_bytes, bytes_eq, Dict, lookup, insert, ok,
}
use openiotrsp.Storage.{ProfileState, normalize_tenant_id}
use openiotrsp.Storage.Api.{live, StoreApi, DeviceView}
use openiotrsp.Examples.Data.{own_tenant, card, card_device, call_at}
use openiotrsp.Memory.Api.{HasOwnKeys, memory_api, Holds}
use openiotrsp.Memory.Api.ProfileLaws.{list_profiles_law, set_profile_law}
use openiotrsp.Memory.Api.View.{memory_view}
use openiotrsp.Memory.Api.ProfileOrder.{list_profiles_visit, IsAscending}
use openiotrsp.Memory.State.{
  ProfileStateKey, eq_device_key, eq_result_key, eq_profile_key, eq_associated_key, eq_config_key,
  eq_notification_key,
}
use openiotrsp.Memory.Profiles.{list_profile_states, set_profile_state}
use openiotrsp.Memory.Calls.{run, registers, sets_profile, step, apply}
use openiotrsp.Memory.State.{
  Store, new_store, new_device_key, device_key_eq, eq_device_key, eq_result_key, eq_profile_key,
  eq_associated_key, eq_config_key, eq_notification_key, new_profile_state_key, profile_key_eq,
  profile_key_eq_iff,
}
use openiotrsp.EuiccPkg.State.Fallback.{set_profile_fallback_lem, with_fallback}
use openiotrsp.EuiccPkg.State.Clear.{clear_profile_fallback_lem, never}
use openiotrsp.EuiccPkg.State.Marks.{marked}
use openiotrsp.EuiccPkg.State.Enable.{
  set_profile_enabled_lem, set_default_smdp_lem, with_enabled, get_or,
}
use openiotrsp.EuiccPkg.State.Sync.{sync_profile_inventory_lem, latest, synced}
use openiotrsp.EuiccPkg.Result.{ProfileInfo}

abbrev pub first_iccid : Bytes
first_iccid = ascii "01"

abbrev second_iccid : Bytes
second_iccid = ascii "02"

abbrev pub first_profile : ProfileState
first_profile = record {
  eid = card;
  iccid = first_iccid;
  is_enabled = true;
  is_fallback = true;
  smdp_address = ascii "smdp";
}

-- A device that holds one profile, which has the fallback attribute.
abbrev pub one_profile : Store
one_profile =
    run (call_at 1 (registers card_device) ∷ call_at 2 (sets_profile first_profile) ∷ []) new_store

own_keys : HasOwnKeys one_profile.profile_states
unfolding run step apply register_device set_profile_state new_store new_device_key
    new_profile_state_key normalize_tenant_id bytes_eq lookup insert device_key_eq profile_key_eq
own_keys key state l =
    ground (arith, l, profile_key_eq_iff (new_profile_state_key own_tenant card first_iccid) key)

pub held : Holds own_tenant card one_profile
unfolding run step apply register_device set_profile_state new_store new_device_key
    new_profile_state_key normalize_tenant_id bytes_eq lookup insert device_key_eq profile_key_eq
held = record {
  device = record { next_sequence = 1; next_euicc_package_counter = 1 };
  known = refl;
  distinct = (refl, tt);
  own = own_keys;
}

abbrev pub clock : StoreApi Store
clock = memory_api 7

abbrev pub shown : DeviceView clock own_tenant card
shown = memory_view 7 own_tenant card

set_profile_fallback_example :
    (r : Store) × (set_profile_fallback clock live own_tenant card second_iccid one_profile
      ≡ (ok tt, r))
    × shown.Ready r
    × ((j : Bytes)
        → shown.profile r j ≡ with_fallback clock own_tenant card shown one_profile second_iccid j)
set_profile_fallback_example =
    set_profile_fallback_lem clock own_tenant card shown one_profile second_iccid held

clear_profile_fallback_example :
    (r : Store) × (clear_profile_fallback clock live own_tenant card one_profile ≡ (ok tt, r))
    × shown.Ready r
    × ((j : Bytes) → shown.profile r j ≡ marked never (shown.profile one_profile j))
clear_profile_fallback_example =
    clear_profile_fallback_lem clock own_tenant card shown one_profile held

set_profile_enabled_example :
    (r : Store) × (set_profile_enabled clock live own_tenant card second_iccid true one_profile
      ≡ (ok tt, r))
    × shown.Ready r
    × ((j : Bytes)
        → shown.profile r j ≡ (
            if bytes_eq second_iccid j
            then some (with_enabled clock own_tenant card shown one_profile second_iccid true)
            else shown.profile one_profile j))
    × (shown.euicc r ≡ shown.euicc one_profile)
    × ((j : Bytes) → shown.associated r j ≡ shown.associated one_profile j)
set_profile_enabled_example =
    set_profile_enabled_lem clock own_tenant card shown one_profile second_iccid true held

set_default_smdp_example :
    (r : Store) × (at : ℕ) × (set_euicc_default_smdp_address clock live own_tenant card
        (ascii "dp")
        one_profile
      ≡ (ok tt, r))
    × shown.Ready r
    × (shown.euicc r
        ≡ some (record (get_or (shown.euicc one_profile) (empty_euicc card)) {
          eid = card;
          default_smdp_address = ascii "dp";
          updated_at = at;
        }))
    × ((j : Bytes) → shown.profile r j ≡ shown.profile one_profile j)
    × ((j : Bytes) → shown.associated r j ≡ shown.associated one_profile j)
set_default_smdp_example =
    set_default_smdp_lem clock own_tenant card shown one_profile (ascii "dp") held

-- One report of a new profile, and one that names none.
abbrev two_reports : List ProfileInfo
two_reports =
    record { iccid = second_iccid; is_enabled = true; is_fallback = false }
    ∷ record { iccid = []; is_enabled = true; is_fallback = false }
    ∷ []

sync_profile_inventory_example :
    (r : Store) × (sync_profile_inventory clock live own_tenant card two_reports one_profile
      ≡ (ok tt, r))
    × shown.Ready r
    × ((j : Bytes)
        → shown.profile r j ≡ (elim (latest two_reports j) [
          | none ↦ none
          | some p ↦ some (synced clock own_tenant card shown one_profile p)
        ]))
sync_profile_inventory_example =
    sync_profile_inventory_lem clock own_tenant card shown one_profile two_reports held

list_profiles_example :
    (l : List ProfileState) × (list_profile_states live own_tenant card one_profile
      ≡ (ok l, one_profile))
    × All (λ (p : ProfileState). (p.eid ≡ card) × (shown.profile one_profile p.iccid ≡ some p)) l
    × ((i : Bytes) (p : ProfileState)
        → shown.profile one_profile i ≡ some p
        → (p.iccid ≡ i) × Memᴰ p l)
list_profiles_example = list_profiles_law 7 own_tenant card one_profile held

set_profile_example :
    (r : Store) × (set_profile_state live own_tenant first_profile one_profile ≡ (ok tt, r))
    × Holds own_tenant card r
    × ((i : Bytes)
        → shown.profile r i ≡ (
            if bytes_eq first_profile.iccid i
            then some first_profile
            else shown.profile one_profile i))
    × (shown.euicc r ≡ shown.euicc one_profile)
    × ((i : Bytes) → shown.associated r i ≡ shown.associated one_profile i)
set_profile_example = set_profile_law 7 own_tenant card one_profile first_profile held refl

abbrev second_profile : ProfileState
second_profile = record first_profile { iccid = second_iccid; is_enabled = false }

abbrev two_profiles : Store
two_profiles =
    run
      (call_at 1 (registers card_device)
        ∷ call_at 2 (sets_profile first_profile)
        ∷ call_at 3 (sets_profile second_profile)
        ∷ [])
      new_store

two_keys : HasOwnKeys two_profiles.profile_states
unfolding run step apply register_device set_profile_state new_store new_device_key
    new_profile_state_key normalize_tenant_id bytes_eq lookup insert device_key_eq profile_key_eq
two_keys key state l = ground (
  arith,
  l,
  profile_key_eq_iff (new_profile_state_key own_tenant card first_iccid) key,
  profile_key_eq_iff (new_profile_state_key own_tenant card second_iccid) key,
)

two_held : Holds own_tenant card two_profiles
unfolding run step apply register_device set_profile_state new_store new_device_key
    new_profile_state_key normalize_tenant_id bytes_eq lookup insert device_key_eq profile_key_eq
two_held = record {
  device = record { next_sequence = 1; next_euicc_package_counter = 1 };
  known = refl;
  distinct = (refl, (refl, tt));
  own = two_keys;
}

abbrev turned : Dict ProfileStateKey ProfileState
turned =
    (new_profile_state_key own_tenant card second_iccid, second_profile)
    ∷ (new_profile_state_key own_tenant card first_iccid, first_profile)
    ∷ []

visited_turned : Permᴰ two_profiles.profile_states turned
unfolding run step apply register_device set_profile_state new_store new_device_key
    new_profile_state_key normalize_tenant_id bytes_eq lookup insert device_key_eq profile_key_eq
visited_turned = Permᴰ.swap refl refl

list_profiles_visit_example :
    let other = record two_profiles { profile_states = turned } in
    (l : List ProfileState) × (list_profile_states live own_tenant card two_profiles
      ≡ (ok l, two_profiles))
    × (list_profile_states live own_tenant card other ≡ (ok l, other))
    × IsAscending l
list_profiles_visit_example =
    list_profiles_visit own_tenant card two_profiles two_held turned visited_turned
