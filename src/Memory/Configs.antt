-- ===== src/Memory/Configs.antt =====
-- storage/memory/store.go: eIM configurations, Associated eIMs and notifications.
use openiotrsp.Common.{
  ◌&&◌, Option, none, some, List, if◌then◌else◌, ◌==◌, Bytes, eq_nat, eq_bytes, gt64, lookup,
  insert, delete, values_where, not_found, ok, err, Context, Action, checked,
}
use openiotrsp.Prelude.Sort.{insertion_sort}
use openiotrsp.Prelude.ByteOrder.{bytes_gt}
use openiotrsp.Storage.{TenantId, Time, EimConfig, AssociatedEim, Notification, normalize_tenant_id}
use openiotrsp.Memory.State.{
  Store, DeviceKey, ConfigKey, AssociatedEimKey, NotificationKey, new_device_key,
  new_associated_eim_key, eq_device_key, eq_result_key, eq_profile_key, eq_associated_key,
  eq_config_key, eq_notification_key,
}
use openiotrsp.Memory.Devices.{registered}

abbrev pub config_key : TenantId → Bytes → ConfigKey
config_key tenant_id eim_id = record { tenant_id = normalize_tenant_id tenant_id; eim_id = eim_id }

-- StoreEIMConfig
unfoldable pub store_eim_config : Context → TenantId → EimConfig → Action Store (Unit {0})
unfolding normalize_tenant_id
store_eim_config ctx tenant_id config = checked ctx (λ s. (
  ok tt,
  record s { eim_configs = insert (config_key tenant_id config.eim_id) config s.eim_configs },
))

-- ReadEIMConfig
unfoldable pub read_eim_config : Context → TenantId → Bytes → Action Store EimConfig
unfolding normalize_tenant_id
read_eim_config ctx tenant_id eim_id = checked ctx (λ s.
    elim (lookup (config_key tenant_id eim_id) s.eim_configs) [
      | none ↦ (err not_found, s)
      | some config ↦ (ok config, s)
    ])

-- The device part of an Associated eIM's key.
abbrev pub device_of : AssociatedEimKey → DeviceKey
device_of key = record { tenant_id = key.tenant_id; eid = key.eid }

-- SetAssociatedEIM
unfoldable pub set_associated_eim : Context → TenantId → AssociatedEim → Action Store (Unit {0})
unfolding new_associated_eim_key
set_associated_eim ctx tenant_id associated = checked ctx (
    let key = new_associated_eim_key tenant_id associated.eid associated.eim_id in
    registered (device_of key) (λ s. (
      ok tt,
      record s {
        associated_eims =
            insert key (record associated { eid = key.eid; eim_id = key.eim_id }) s.associated_eims;
      },
    )))

-- DeleteAssociatedEIM
unfoldable pub delete_associated_eim : Context → TenantId → Bytes → Bytes → Action Store (Unit {0})
unfolding new_associated_eim_key
delete_associated_eim ctx tenant_id eid eim_id = checked ctx (
    let key = new_associated_eim_key tenant_id eid eim_id in
    registered (device_of key) (λ s. elim (lookup key s.associated_eims) [
      | none ↦ (err not_found, s)
      | some _ ↦ (ok tt, record s { associated_eims = delete key s.associated_eims })
    ]))

-- GetAssociatedEIM
unfoldable pub get_associated_eim : Context → TenantId → Bytes → Bytes → Action Store AssociatedEim
unfolding new_associated_eim_key
get_associated_eim ctx tenant_id eid eim_id = checked ctx (λ s.
    elim (lookup (new_associated_eim_key tenant_id eid eim_id) s.associated_eims) [
      | none ↦ (err not_found, s)
      | some associated ↦ (ok associated, s)
    ])

-- sortAssociatedEIMs
unfoldable pub sort_associated_eims : List AssociatedEim → List AssociatedEim
unfolding bytes_gt insertion_sort
sort_associated_eims = insertion_sort (λ a b. bytes_gt a.eim_id b.eim_id)

-- ListAssociatedEIMs
unfoldable pub list_associated_eims : Context → TenantId → Bytes → Action Store (List AssociatedEim)
unfolding new_device_key sort_associated_eims
list_associated_eims ctx tenant_id eid = checked ctx (
    let device_key = new_device_key tenant_id eid in
    registered device_key (λ s. (
      ok (
          sort_associated_eims (
            values_where
              (λ (key : AssociatedEimKey) associated.
                (key.tenant_id == device_key.tenant_id) && (key.eid == eid))
              s.associated_eims)),
      s,
    )))

-- `if existing, ok := s.notifications[key]; ok { … } if notification.CreatedAt.IsZero() { … }`
unfoldable pub notification_time : Time → Option Notification → Notification → Time
notification_time now existing notification =
    let created_at : Time = elim existing [
      | none ↦ notification.created_at
      | some previous ↦ previous.created_at
    ] in
    if created_at == 0 then now else created_at

-- StoreNotification, at the time `now`
unfoldable pub store_notification :
    Time → Context → TenantId → Notification → Action Store (Unit {0})
unfolding normalize_tenant_id notification_time
store_notification now ctx given_tenant_id notification = checked ctx (
    let tenant_id = normalize_tenant_id given_tenant_id in
    registered (record { tenant_id = tenant_id; eid = notification.eid })
      (λ s.
        if gt64 notification.sequence_number 0
        then (let key : NotificationKey = record {
          tenant_id = tenant_id;
          eid = notification.eid;
          sequence_number = notification.sequence_number;
        } in
            (
              ok tt,
              record s {
                notifications =
                    insert key
                      (record notification {
                        created_at =
                            notification_time now (lookup key s.notifications) notification;
                      })
                      s.notifications;
              },
            ))
        else (err not_found, s)))

-- sortNotifications
unfoldable pub sort_notifications : List Notification → List Notification
unfolding gt64 insertion_sort
sort_notifications = insertion_sort (λ a b. gt64 a.sequence_number b.sequence_number)

-- ListNotifications
unfoldable pub list_notifications : Context → TenantId → Bytes → Action Store (List Notification)
unfolding new_device_key sort_notifications
list_notifications ctx tenant_id eid = checked ctx (
    let device_key = new_device_key tenant_id eid in
    registered device_key (λ s. (
      ok (
          sort_notifications (
            values_where
              (λ (key : NotificationKey) notification.
                (key.tenant_id == device_key.tenant_id) && (key.eid == eid))
              s.notifications)),
      s,
    )))
