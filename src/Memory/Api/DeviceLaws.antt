-- ===== src/Memory/Api/DeviceLaws.antt =====
-- About the eUICC state and the eIM associations of one device in storage/memory/store.go, by the
-- calls of the store.
use openiotrsp.Memory.Api.Holding.{euicc_at, profile_at, known_as}
use openiotrsp.Memory.Api.Holding.{associated_at}
use openiotrsp.Common.{
  ℕ, ◌≡◌, refl, ap, ◌∙◌, inl, inr, none, some, arith, if◌then◌else◌, Option-cases, ◌==◌, Bytes,
  eq_nat, eq_bytes, beq_refl, bytes_eq_iff, bytes_eq, lookup-insert, lookup-delete, lookup, insert,
  delete, not_found, ok, err,
}
use openiotrsp.Storage.Api.{live, found_or}
use openiotrsp.Memory.Devices.{get_euicc_state, set_euicc_state}
use openiotrsp.Memory.Configs.{get_associated_eim, set_associated_eim, delete_associated_eim}
use openiotrsp.Memory.State.{
  Store, new_device_key, new_associated_eim_key, DeviceKey, associated_key_eq, eq_device_key,
  eq_profile_key, eq_associated_key,
}
use openiotrsp.Storage.{TenantId, Time, AssociatedEim, EuiccState, normalize_tenant_id}
use openiotrsp.Memory.Api.{Holds}

associated_key_step :
    (t : TenantId) (eid i j : Bytes)
    → (new_associated_eim_key t eid i == new_associated_eim_key t eid j) ≡ bytes_eq i j
unfolding new_associated_eim_key associated_key_eq
associated_key_step t eid i j = rw (beq_refl (normalize_tenant_id t), beq_refl eid)

module _ (now : Time) (t : TenantId) (eid : Bytes) where
  pub get_euicc_law :
      (s : Store) → get_euicc_state live t eid s ≡ (found_or (euicc_at now t eid s), s)
  unfolding get_euicc_state new_device_key
  get_euicc_law s = ground arith

  pub get_associated_law :
      (s : Store) (i : Bytes)
      → get_associated_eim live t eid i s ≡ (found_or (associated_at now t eid s i), s)
  unfolding get_associated_eim new_associated_eim_key
  get_associated_law s i = ground arith

  pub set_euicc_law :
      (s : Store) (e : EuiccState)
      → Holds t eid s
      → e.eid ≡ eid
      → (r : Store) × (set_euicc_state now live t e s ≡ (ok tt, r))
        × Holds t eid r
        × ((at : ℕ) × (euicc_at now t eid r ≡ some (record e { updated_at = at })))
        × ((i : Bytes) → profile_at now t eid r i ≡ profile_at now t eid s i)
        × ((i : Bytes) → associated_at now t eid r i ≡ associated_at now t eid s i)
  unfolding set_euicc_state new_device_key
  set_euicc_law s e h own =
      let key : DeviceKey = new_device_key t e.eid in
      let stored : EuiccState = record e { updated_at = now } in
      (
        record s { euicc_states = insert key stored s.euicc_states },
        ground (arith, known_as now t eid s e.eid h own),
        record { device = h.device; known = h.known; distinct = h.distinct; own = h.own },
        (
          now,
          lookup-insert key (new_device_key t eid) stored s.euicc_states
              ∙ ap (λ b. if b then some stored else lookup (new_device_key t eid) s.euicc_states)
                  (ap (λ i. new_device_key t i == new_device_key t eid) own
                    ∙ beq_refl (new_device_key t eid)),
        ),
        λ i. refl,
        λ i. refl,
      )

  pub set_associated_law :
      (s : Store) (a : AssociatedEim)
      → Holds t eid s
      → a.eid ≡ eid
      → (r : Store) × (set_associated_eim live t a s ≡ (ok tt, r))
        × Holds t eid r
        × ((i : Bytes)
            → associated_at now t eid r i
              ≡ (if bytes_eq a.eim_id i then some a else associated_at now t eid s i))
        × ((i : Bytes) → profile_at now t eid r i ≡ profile_at now t eid s i)
        × (euicc_at now t eid r ≡ euicc_at now t eid s)
  unfolding set_associated_eim new_associated_eim_key new_device_key
  set_associated_law s a h own =
      let key = new_associated_eim_key t a.eid a.eim_id in
      (
        record s { associated_eims = insert key a s.associated_eims },
        ground (arith, known_as now t eid s a.eid h own),
        record { device = h.device; known = h.known; distinct = h.distinct; own = h.own },
        λ i.
            lookup-insert key (new_associated_eim_key t eid i) a s.associated_eims
            ∙ rw (own, associated_key_step t eid a.eim_id i) refl,
        λ i. refl,
        refl,
      )

  pub delete_associated_law :
      (s : Store) (i : Bytes)
      → Holds t eid s
      → (r : Store) × (delete_associated_eim live t eid i s
          ≡ (elim (associated_at now t eid s i) [ none ↦ err not_found | some _ ↦ ok tt ], r))
        × Holds t eid r
        × ((j : Bytes)
            → associated_at now t eid r j
              ≡ (if bytes_eq i j then none else associated_at now t eid s j))
        × ((j : Bytes) → profile_at now t eid r j ≡ profile_at now t eid s j)
        × (euicc_at now t eid r ≡ euicc_at now t eid s)
  unfolding delete_associated_eim new_associated_eim_key new_device_key
  delete_associated_law s i h =
      let key = new_associated_eim_key t eid i in
      elim (Option-cases (associated_at now t eid s i)) [
        | inl missing ↦ (
          s,
          ground (arith, h.known, missing),
          h,
          λ j. ground (arith, missing, bytes_eq_iff i j),
          λ j. refl,
          refl,
        )
        | inr (p, found) ↦ (
          record s { associated_eims = delete key s.associated_eims },
          ground (arith, h.known, found),
          record { device = h.device; known = h.known; distinct = h.distinct; own = h.own },
          λ j.
              lookup-delete key (new_associated_eim_key t eid j) s.associated_eims
              ∙ rw (associated_key_step t eid i j) refl,
          λ j. refl,
          refl,
        )
      ]
