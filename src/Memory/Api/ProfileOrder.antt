-- ===== src/Memory/Api/ProfileOrder.antt =====
-- About the order of a profile listing in storage/memory/store.go.
use mathlib.Core.List.{Permᴰ}
use openiotrsp.Prelude.Pairs.{AllPairs-combine, All-of_Mem, AllPairs-permᴰ}
use mathlib.Core.List.Permᴰ
use openiotrsp.Prelude.Dict.Entries.{AllPairs-values_where, values_where-permᴰ}
use openiotrsp.Prelude.Sort.{
  HasDistinct, insertion_sort_perm, insertion_sort-IsSorted, insertion_sort-permᴰ,
}
use openiotrsp.Prelude.ByteOrder.{bytes_gt, bytes_gt-IsOrder, bytes_gt_total}
use openiotrsp.Memory.Profiles.{list_profile_states, sort_profile_states, profile_of}
use openiotrsp.Memory.State.{
  new_device_key, ProfileStateKey, profile_key_eq, eq_device_key, eq_result_key, eq_profile_key,
  eq_associated_key, eq_config_key, eq_notification_key,
}
use openiotrsp.Memory.Api.{Holds}
use openiotrsp.Storage.Api.{live}
use openiotrsp.Common.{
  ◌≡◌, sym, true, false, ◌||◌, some, List, arith, ◌==◌, Bytes, eq_nat, eq_bytes, bytes_eq_iff,
  AllPairs, Dict, lookup, values_where, ok,
}
use openiotrsp.Memory.State.{
  Store, eq_device_key, eq_result_key, eq_profile_key, eq_associated_key, eq_config_key,
  eq_notification_key,
}
use openiotrsp.Storage.{TenantId, ProfileState}

-- Strictly ascending ICCIDs.
abbrev pub IsAscending : List ProfileState → Type 0
IsAscending = AllPairs (λ a b. bytes_gt b.iccid a.iccid ≡ true)

module _ (t : TenantId) (eid : Bytes) (s : Store) (h : Holds t eid s) where
  abbrev own_profiles : Dict ProfileStateKey ProfileState → List ProfileState
  own_profiles = values_where (profile_of (new_device_key t eid))

  differ :
      (i : ProfileStateKey) (a : ProfileState) (j : ProfileStateKey) (b : ProfileState)
      → lookup i s.profile_states ≡ some a
      → lookup j s.profile_states ≡ some b
      → (i == j) ≡ false
      → profile_of (new_device_key t eid) i a ≡ true
      → profile_of (new_device_key t eid) j b ≡ true
      → (bytes_gt a.iccid b.iccid || bytes_gt b.iccid a.iccid) ≡ true
  unfolding profile_key_eq
  differ i a j b l m n p q = bytes_gt_total a.iccid b.iccid (
      ground (
        arith,
        h.own i a l,
        h.own j b m,
        bytes_eq_iff i.tenant_id (new_device_key t eid).tenant_id,
        bytes_eq_iff j.tenant_id (new_device_key t eid).tenant_id,
        bytes_eq_iff i.eid (new_device_key t eid).eid,
        bytes_eq_iff j.eid (new_device_key t eid).eid,
        bytes_eq_iff i.tenant_id j.tenant_id,
        bytes_eq_iff i.eid j.eid,
      ))

  own-HasDistinct : HasDistinct (λ a b. bytes_gt a.iccid b.iccid) (own_profiles s.profile_states)
  own-HasDistinct =
      AllPairs-values_where (profile_of (new_device_key t eid)) _ s.profile_states h.distinct differ

  sort-IsAscending : IsAscending (sort_profile_states (own_profiles s.profile_states))
  unfolding sort_profile_states
  sort-IsAscending =
      AllPairs-combine (λ (p : ProfileState). Unit {0}) (λ a b. bytes_gt a.iccid b.iccid ≡ false)
        (λ a b. (bytes_gt a.iccid b.iccid || bytes_gt b.iccid a.iccid) ≡ true) _ _
        (λ a b p q r d. ground (arith, r, d)) (All-of_Mem _ _ (λ x m. tt))
        (insertion_sort-IsSorted _ (bytes_gt-IsOrder (λ (p : ProfileState). p.iccid))
          (own_profiles s.profile_states))
        (AllPairs-permᴰ _ (λ a b e. ground arith)
          (Permᴰ.symm (insertion_sort-permᴰ _ (own_profiles s.profile_states))) own-HasDistinct)

  sort_visit :
      (visited : Dict ProfileStateKey ProfileState)
      → Permᴰ s.profile_states visited
      → sort_profile_states (own_profiles visited)
        ≡ sort_profile_states (own_profiles s.profile_states)
  unfolding sort_profile_states
  sort_visit visited p = sym (
      insertion_sort_perm _ (bytes_gt-IsOrder (λ (p : ProfileState). p.iccid))
        (values_where-permᴰ (profile_of (new_device_key t eid)) p) own-HasDistinct)

  -- Where a store holds the device, a listing of its profiles is in strictly ascending order of
  -- their ICCIDs, and it is the same whatever the order in which the map of profiles is visited.
  pub list_profiles_visit :
      (visited : Dict ProfileStateKey ProfileState)
      → Permᴰ s.profile_states visited
      → let other = record s { profile_states = visited } in
        (l : List ProfileState) × (list_profile_states live t eid s ≡ (ok l, s))
        × (list_profile_states live t eid other ≡ (ok l, other))
        × IsAscending l
  unfolding list_profile_states new_device_key
  list_profiles_visit visited p = (
    sort_profile_states (own_profiles s.profile_states),
    ground (arith, h.known),
    ground (arith, h.known, sort_visit visited p),
    sort-IsAscending,
  )
