-- ===== src/Examples/Notifications.antt =====
-- The theorems of the stored notifications, on a store with one device.
use openiotrsp.Common.{
  ℕ, ◌≡◌, refl, ◌≢◌, true, some, [], ◌∷◌, arith, if◌then◌else◌, ◌==◌, ascii, eq_nat, eq_bytes,
  bytes_eq, gt64, lookup, insert, ok,
}
use openiotrsp.Storage.{Notification}
use openiotrsp.Storage.Api.{live}
use openiotrsp.Memory.State.{
  Store, NotificationKey, new_device_key, new_store, device_key_eq, eq_device_key, eq_result_key,
  eq_profile_key, eq_associated_key, eq_config_key, eq_notification_key,
}
use openiotrsp.Memory.Configs.{store_notification}
use openiotrsp.Memory.Notifications.{place, resent_keeps_time}
use openiotrsp.Memory.Devices.{register_device}
use openiotrsp.Memory.Calls.{run, registers, step, apply}
use openiotrsp.Storage.{normalize_tenant_id}
use openiotrsp.Examples.Data.{own_tenant, card, card_device, call_at}

abbrev one_device : Store
one_device = run (call_at 1 (registers card_device) ∷ []) new_store

abbrev first_sent : Notification
first_sent = record {
  eid = card;
  sequence_number = 1;
  kind = ascii "install";
  payload = ascii "a";
  created_at = 0;
}

abbrev second_sent : Notification
second_sent = record first_sent { payload = ascii "b"; created_at = 9 }

device_there :
    lookup (new_device_key own_tenant card) one_device.devices
    ≡ some (record { next_sequence = 1; next_euicc_package_counter = 1 })
unfolding run step apply register_device new_store new_device_key normalize_tenant_id bytes_eq
    lookup insert device_key_eq
device_there = refl

one_positive : gt64 1 0 ≡ true
unfolding gt64
one_positive = refl

resent_keeps_time_example :
    (at : ℕ) × (r : Store) × (u : Store) × (store_notification 5 live own_tenant first_sent
        one_device
      ≡ (ok tt, r))
    × (store_notification 7 live own_tenant second_sent r ≡ (ok tt, u))
    × (at ≢ 0)
    × (lookup (place own_tenant first_sent) r.notifications
        ≡ some (record first_sent { created_at = at }))
    × ((k : NotificationKey)
        → lookup k u.notifications ≡ (
            if place own_tenant first_sent == k
            then some (record second_sent { created_at = at })
            else lookup k one_device.notifications))
resent_keeps_time_example =
    resent_keeps_time own_tenant first_sent second_sent 5 7 one_device
      (record { next_sequence = 1; next_euicc_package_counter = 1 }) device_there one_positive
      (omega arith) refl refl
