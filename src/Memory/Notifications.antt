-- ===== src/Memory/Notifications.antt =====
-- About StoreNotification of storage/memory/store.go.
use openiotrsp.Common.{
  ℕ, ◌≡◌, refl, ◌∙◌, ◌≢◌, true, Option, none, some, arith, if◌then◌else◌, ◌==◌, eq_nat, eq_bytes,
  beq_refl, gt64, lookup-insert, lookup, insert, ok,
}
use openiotrsp.Storage.{TenantId, Time, Notification, normalize_tenant_id}
use openiotrsp.Storage.Api.{live}
use openiotrsp.Memory.State.{
  Store, NotificationKey, MemoryDevice, new_device_key, eq_device_key, eq_result_key,
  eq_profile_key, eq_associated_key, eq_config_key, eq_notification_key,
}
use openiotrsp.Memory.Configs.{store_notification, notification_time}

module _ (tenant_id : TenantId) (n : Notification) where
  -- Where a notification of this device with this sequence number is stored.
  abbrev pub place : NotificationKey
  place = record {
    tenant_id = normalize_tenant_id tenant_id;
    eid = n.eid;
    sequence_number = n.sequence_number;
  }

  abbrev with_time : Time → Notification
  with_time at = record n { created_at = at }

  stored_lem :
      (now : Time) (s : Store) (d : MemoryDevice)
      → lookup (new_device_key tenant_id n.eid) s.devices ≡ some d
      → gt64 n.sequence_number 0 ≡ true
      → store_notification now live tenant_id n s ≡ (
        ok tt,
        record s {
          notifications =
              insert place
                (with_time (notification_time now (lookup place s.notifications) n))
                s.notifications;
        },
      )
  unfolding store_notification new_device_key
  stored_lem now s d known positive = ground (arith, known, positive)

  time_not_zero :
      (now : Time) (existing : Option Notification) → now ≢ 0 → notification_time now existing n ≢ 0
  unfolding notification_time
  time_not_zero now none h e = ground (arith, h, e)
  time_not_zero now (some previous) h e = ground (arith, h, e)

  time_kept :
      (now : Time) (previous : Notification)
      → previous.created_at ≢ 0
      → notification_time now (some previous) n ≡ previous.created_at
  unfolding notification_time
  time_kept now previous h = ground (arith, h)

-- A notification of a known device that is stored twice, with the same positive sequence number and
-- first by a clock that is not at the zero time, is stored each time without an error. The second
-- replaces the first under its key and keeps the first's time of storing, which is not the zero
-- time, and every other notification stays as it was.
pub resent_keeps_time :
    (tenant_id : TenantId) (first second : Notification) (now later : Time) (s : Store)
    (d : MemoryDevice)
    → lookup (new_device_key tenant_id first.eid) s.devices ≡ some d
    → gt64 first.sequence_number 0 ≡ true
    → now ≢ 0
    → second.eid ≡ first.eid
    → second.sequence_number ≡ first.sequence_number
    → (at : ℕ) × (r : Store) × (u : Store) × (store_notification now live tenant_id first s
        ≡ (ok tt, r))
      × (store_notification later live tenant_id second r ≡ (ok tt, u))
      × (at ≢ 0)
      × (lookup (place tenant_id first) r.notifications ≡ some (record first { created_at = at }))
      × ((k : NotificationKey)
          → lookup k u.notifications ≡ (
              if place tenant_id first == k
              then some (record second { created_at = at })
              else lookup k s.notifications))
resent_keeps_time tenant_id first second now later s d known positive ticks same_eid same_number =
    let here = place tenant_id first in
    let at = notification_time now (lookup here s.notifications) first in
    let stored : Notification = record first { created_at = at } in
    let resent : Notification = record second { created_at = at } in
    let r : Store = record s { notifications = insert here stored s.notifications } in
    let set : at ≢ 0 = time_not_zero tenant_id first now (lookup here s.notifications) ticks in
    let found : lookup here r.notifications ≡ some stored =
      lookup-insert here here stored s.notifications ∙ rw (beq_refl here) refl in
    let same : place tenant_id second ≡ here = rw (same_eid, same_number) refl in
    (
      at,
      r,
      record r { notifications = insert here resent r.notifications },
      stored_lem tenant_id first now s d known positive,
      stored_lem tenant_id second later r d (rw same_eid known) (rw same_number positive)
          ∙ rw (same, found, time_kept tenant_id second later stored set) refl,
      set,
      found,
      λ k.
          lookup-insert here k resent r.notifications
          ∙ ground (arith, lookup-insert here k stored s.notifications),
    )
