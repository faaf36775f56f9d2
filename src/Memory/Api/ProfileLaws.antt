-- ===== src/Memory/Api/ProfileLaws.antt =====
-- About the profile states of one device in storage/memory/store.go, by the calls of the store.
use openiotrsp.Memory.Api.Holding.{profile_at, euicc_at, associated_at, known_as}
use openiotrsp.Prelude.Pairs.{All-permᴰ}
use mathlib.Core.List.{Memᴰ}
use openiotrsp.Common.{
  ◌≡◌, refl, ap, ◌∙◌, inl, inr, true, none, some, List, arith, if◌then◌else◌, Option-cases, All,
  ◌==◌, Bytes, eq_nat, eq_bytes, beq_refl, bytes_eq_iff, bytes_eq, Dict, lookup-insert,
  lookup-delete, insert-HasDistinctKeys, delete-HasDistinctKeys, lookup, insert, delete,
  values_where, not_found, ok, err,
}
use mathlib.Core.List.{Permᴰ}
use mathlib.Core.List.Permᴰ
use openiotrsp.Prelude.Members.{mem-permᴰ}
use openiotrsp.Prelude.Dict.Entries.{mem-values_where, All-values_where}
use openiotrsp.Prelude.Sort.{insertion_sort-permᴰ}
use openiotrsp.Storage.Api.{live, found_or}
use openiotrsp.Memory.Profiles.{
  get_profile_state, set_profile_state, list_profile_states, delete_profile_state,
  sort_profile_states, profile_of,
}
use openiotrsp.Memory.State.{
  Store, new_device_key, new_profile_state_key, ProfileStateKey, profile_key_eq, profile_key_eq_iff,
  eq_device_key, eq_profile_key, eq_associated_key,
}
use openiotrsp.Storage.{TenantId, Time, ProfileState, normalize_tenant_id}
use openiotrsp.Memory.Api.{HasOwnKeys, Holds}

insert-HasOwnKeys :
    (t : TenantId) (p : ProfileState) (m : Dict ProfileStateKey ProfileState)
    → HasOwnKeys m
    → HasOwnKeys (insert (new_profile_state_key t p.eid p.iccid) p m)
unfolding new_profile_state_key
insert-HasOwnKeys t p m h key state l = ground (
  arith,
  lookup-insert (new_profile_state_key t p.eid p.iccid) key p m,
  profile_key_eq_iff (new_profile_state_key t p.eid p.iccid) key,
  h key state,
)

delete-HasOwnKeys :
    (k : ProfileStateKey) (m : Dict ProfileStateKey ProfileState)
    → HasOwnKeys m
    → HasOwnKeys (delete k m)
delete-HasOwnKeys k m h key state l =
    ground (arith, lookup-delete k key m, profile_key_eq_iff k key, h key state)

profile_key_step :
    (t : TenantId) (eid i j : Bytes)
    → (new_profile_state_key t eid i == new_profile_state_key t eid j) ≡ bytes_eq i j
unfolding new_profile_state_key profile_key_eq
profile_key_step t eid i j = rw (beq_refl (normalize_tenant_id t), beq_refl eid)

sorted_permᴰ : (l : List ProfileState) → Permᴰ (sort_profile_states l) l
unfolding sort_profile_states
sorted_permᴰ l = insertion_sort-permᴰ _ l

module _ (now : Time) (t : TenantId) (eid : Bytes) where
  pub get_profile_law :
      (s : Store) (i : Bytes)
      → get_profile_state live t eid i s ≡ (found_or (profile_at now t eid s i), s)
  unfolding get_profile_state new_profile_state_key
  get_profile_law s i = ground arith

  -- Where a store holds the device, storing a profile of it succeeds. Then the store holds the
  -- device still, a lookup under the profile's ICCID finds it, and no other profile, eUICC state
  -- or association of the device has changed.
  pub set_profile_law :
      (s : Store) (p : ProfileState)
      → Holds t eid s
      → p.eid ≡ eid
      → (r : Store) × (set_profile_state live t p s ≡ (ok tt, r))
        × Holds t eid r
        × ((i : Bytes)
            → profile_at now t eid r i
              ≡ (if bytes_eq p.iccid i then some p else profile_at now t eid s i))
        × (euicc_at now t eid r ≡ euicc_at now t eid s)
        × ((i : Bytes) → associated_at now t eid r i ≡ associated_at now t eid s i)
  unfolding set_profile_state new_device_key new_profile_state_key
  set_profile_law s p h own =
      let key = new_profile_state_key t p.eid p.iccid in
      let m = insert key p s.profile_states in
      (
        record s { profile_states = m },
        ground (arith, known_as now t eid s p.eid h own),
        record {
          device = h.device;
          known = h.known;
          distinct = insert-HasDistinctKeys key p s.profile_states h.distinct;
          own = insert-HasOwnKeys t p s.profile_states h.own;
        },
        λ i.
            lookup-insert key (new_profile_state_key t eid i) p s.profile_states
            ∙ rw (own, profile_key_step t eid p.iccid i) refl,
        refl,
        λ i. refl,
      )

  pub delete_profile_law :
      (s : Store) (i : Bytes)
      → Holds t eid s
      → (r : Store) × (delete_profile_state live t eid i s
          ≡ (elim (profile_at now t eid s i) [ none ↦ err not_found | some _ ↦ ok tt ], r))
        × Holds t eid r
        × ((j : Bytes)
            → profile_at now t eid r j ≡ (if bytes_eq i j then none else profile_at now t eid s j))
        × (euicc_at now t eid r ≡ euicc_at now t eid s)
        × ((j : Bytes) → associated_at now t eid r j ≡ associated_at now t eid s j)
  unfolding delete_profile_state new_device_key new_profile_state_key
  delete_profile_law s i h =
      let key = new_profile_state_key t eid i in
      elim (Option-cases (profile_at now t eid s i)) [
        | inl missing ↦ (
          s,
          ground (arith, h.known, missing),
          h,
          λ j. ground (arith, missing, bytes_eq_iff i j),
          refl,
          λ j. refl,
        )
        | inr (p, found) ↦ (
          record s { profile_states = delete key s.profile_states },
          ground (arith, h.known, found),
          record {
            device = h.device;
            known = h.known;
            distinct = delete-HasDistinctKeys key s.profile_states h.distinct;
            own = delete-HasOwnKeys key s.profile_states h.own;
          },
          λ j.
              lookup-delete key (new_profile_state_key t eid j) s.profile_states
              ∙ rw (profile_key_step t eid i j) refl,
          refl,
          λ j. refl,
        )
      ]

  listed_profile :
      (s : Store) (key : ProfileStateKey) (p : ProfileState)
      → Holds t eid s
      → lookup key s.profile_states ≡ some p
      → profile_of (new_device_key t eid) key p ≡ true
      → (p.eid ≡ eid) × (profile_at now t eid s p.iccid ≡ some p)
  unfolding new_device_key new_profile_state_key
  listed_profile s key p h l here =
      let (own_eid, own_iccid) = h.own key p l in
      let tenant : key.tenant_id ≡ normalize_tenant_id t =
        ground (arith, bytes_eq_iff key.tenant_id (normalize_tenant_id t)) in
      let device : key.eid ≡ eid = ground (arith, bytes_eq_iff key.eid eid) in
      let same : new_profile_state_key t eid p.iccid ≡ key = cc in
      (own_eid ∙ device, ap (λ k. lookup k s.profile_states) same ∙ l)

  own_device :
      (i : Bytes) (p : ProfileState)
      → profile_of (new_device_key t eid) (new_profile_state_key t eid i) p ≡ true
  unfolding new_device_key new_profile_state_key
  own_device i p = rw (beq_refl (normalize_tenant_id t), beq_refl eid)

  -- Where a store holds the device, a listing of its profiles succeeds and changes nothing. What
  -- is listed belongs to the device and is what a lookup under its ICCID finds, and every profile
  -- that a lookup finds is listed.
  pub list_profiles_law :
      (s : Store)
      → Holds t eid s
      → (l : List ProfileState) × (list_profile_states live t eid s ≡ (ok l, s))
        × All (λ (p : ProfileState). (p.eid ≡ eid) × (profile_at now t eid s p.iccid ≡ some p)) l
        × ((i : Bytes) (p : ProfileState)
            → profile_at now t eid s i ≡ some p
            → (p.iccid ≡ i) × Memᴰ p l)
  unfolding list_profile_states new_device_key new_profile_state_key
  list_profiles_law s h =
      let found = values_where (profile_of (new_device_key t eid)) s.profile_states in
      (
        sort_profile_states found,
        ground (arith, h.known),
        All-permᴰ (λ (p : ProfileState). (p.eid ≡ eid) × (profile_at now t eid s p.iccid ≡ some p))
            (Permᴰ.symm (sorted_permᴰ found))
            (All-values_where (profile_of (new_device_key t eid)) _ s.profile_states h.distinct
              (λ key p l here. listed_profile s key p h l here)),
        λ i p l. (
          (h.own (new_profile_state_key t eid i) p l).1,
          mem-permᴰ p (Permᴰ.symm (sorted_permᴰ found)) (
              mem-values_where (profile_of (new_device_key t eid)) (new_profile_state_key t eid i) p
                s.profile_states l (own_device i p)),
        ),
      )
