-- ===== src/Esipa/Notify.antt =====
-- esipa/handler.go: pending notifications of devices, and what is acknowledged.
pub mod Acks
use openiotrsp.Asn1.Notification.Queries.{notification_sequence_number, notification_kind}
use openiotrsp.Asn1.Notification.Queries.{notification_eid}
use openiotrsp.Prelude.Fallible.{each}
use openiotrsp.Asn1.Codec.{sole_child, encode}
use openiotrsp.EuiccPkg.State.{hex_encode}
use openiotrsp.Asn1.Notification.{
  unmarshal_pending_notification, marshal_pending_notification, PendingNotification,
}
use openiotrsp.Asn1.Notification.{unmarshal_notification_list}
use openiotrsp.Storage.Api.{StoreApi}
use openiotrsp.Asn1.Tlv.{Bertlv}
use openiotrsp.Common.{
  Bool, false, not, ◌||◌, Option, none, some, List, [], ◌∷◌, ◌++◌, if◌then◌else◌, length, ◌==◌,
  Bytes, ascii, eq_nat, eq_bytes, bytes_eq, Int64, on_ok, invalid_input, Result, ok, err, Context,
  Action, pure, lift, ◌>>=◌, ◌>>◌,
}
use openiotrsp.Storage.{Notification, TenantId}

-- The inner loop of appendAckSequences.
unfoldable pub is_acknowledged : Int64 → List Int64 → Bool
is_acknowledged addition [] = false
is_acknowledged addition (value ∷ values) = (value == addition) || is_acknowledged addition values

-- appendAckSequences
unfoldable pub append_ack_sequences : List Int64 → List Int64 → List Int64
unfolding is_acknowledged
append_ack_sequences existing [] = existing
append_ack_sequences existing (addition ∷ additions) =
    append_ack_sequences
      (if is_acknowledged addition existing then existing else existing ++ addition ∷ []) additions

module _ {Tlv : Type 0} (lib : Bertlv Tlv) where
  -- The EID of notificationFromPending: the given one, or else that of the notification.
  unfoldable pub eid_of_pending : Bytes → PendingNotification Tlv → Bytes
  unfolding notification_eid hex_encode
  eid_of_pending eid pending =
      let found = notification_eid lib pending in
      if not (bytes_eq eid []) then eid else if length found == 16 then hex_encode found else []

  -- notificationFromPending
  unfoldable pub notification_from_pending : Bytes → PendingNotification Tlv → Result Notification
  unfolding eid_of_pending notification_sequence_number notification_kind
      marshal_pending_notification
  notification_from_pending eid pending =
      let found = eid_of_pending eid pending in
      if bytes_eq found []
      then err (invalid_input (ascii "pending notification does not identify an EID"))
      else on_ok (notification_sequence_number lib pending) λ number.
        on_ok (encode lib (marshal_pending_notification lib pending)) λ payload. ok (record {
          eid = found;
          sequence_number = number;
          kind = notification_kind lib pending;
          payload = payload;
          created_at = 0;
        })

  -- notificationsFromHandleNotification
  unfoldable pub notifications_from_handle_notification : Tlv → Result (List Notification)
  unfolding notification_from_pending unmarshal_notification_list unmarshal_pending_notification
  notifications_from_handle_notification tlv = on_ok (sole_child lib tlv) λ child.
      elim (unmarshal_notification_list lib child) [
        | ok found ↦ each (notification_from_pending []) found.notifications
        | err e ↦ on_ok (unmarshal_pending_notification lib child) λ pending.
            on_ok (notification_from_pending [] pending) (λ notification. ok (notification ∷ []))
      ]

module _ {S Tlv : Type 0} (lib : Bertlv Tlv) (api : StoreApi S) (ctx : Context) (t : TenantId) where
  -- The loop of handleNotification.
  unfoldable pub store_notifications : List Notification → Action S (Unit {0})
  store_notifications [] = pure tt
  store_notifications (notification ∷ notifications) =
      let rest = store_notifications notifications in
      api.store_notification ctx t notification >> rest

  -- The loop of recordNotificationsFromList: each notification is stored before the next is read.
  unfoldable pub record_notifications :
      Bytes → List (PendingNotification Tlv) → Action S (List Int64)
  unfolding notification_from_pending
  record_notifications eid [] = pure []
  record_notifications eid (pending ∷ rest) =
      let later = record_notifications eid rest in
      lift (notification_from_pending lib eid pending) >>= λ notification.
      api.store_notification ctx t notification >> later >>= λ numbers.
      pure (notification.sequence_number ∷ numbers)

  -- recordNotificationsFromList
  unfoldable pub record_notifications_from_list : Bytes → Option Tlv → Action S (List Int64)
  unfolding unmarshal_notification_list record_notifications
  record_notifications_from_list eid none = pure []
  record_notifications_from_list eid (some tlv) =
      lift (unmarshal_notification_list lib tlv) >>= λ found.
      record_notifications eid found.notifications
