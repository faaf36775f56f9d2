-- ===== src/Asn1/Notification/Queries.antt =====
-- asn1/result.go: what a notification says of itself. A function that goes down a whole object
-- recurs on its height.
use openiotrsp.Asn1.Notification.{
  NotificationMetadata, ProfileInstallationResult, PendingNotification, metadata_kind,
  unmarshal_notification_metadata,
}
use openiotrsp.Common.{
  ℕ, zero, suc, ◌&&◌, Option, none, some, [], if◌then◌else◌, length, ◌==◌, Bytes, ascii, eq_nat,
  eq_bytes, bytes_eq, Int64, encoding_error, Result, ok, err,
}
use openiotrsp.Prelude.Fallible.{required}
use openiotrsp.Asn1.Codec.{has_tag, or_nil, first_some}
use openiotrsp.Asn1.Tlv.{Bertlv, eq_tag, tag_eid, tag_notification_meta}

module _ {Tlv : Type 0} (lib : Bertlv Tlv) where
  -- findNotificationMetadata
  unfoldable pub find_notification_metadata : ℕ → Tlv → Option Tlv
  find_notification_metadata zero tlv = none
  find_notification_metadata (suc depth) tlv =
      let deeper = first_some (find_notification_metadata depth) (lib.children tlv) in
      if has_tag lib tlv tag_notification_meta then some tlv else deeper

  -- eidFromTLV; no value is nil
  unfoldable pub eid_from_tlv : ℕ → Tlv → Option Bytes
  eid_from_tlv zero tlv = none
  eid_from_tlv (suc depth) tlv =
      let deeper = first_some (eid_from_tlv depth) (lib.children tlv) in
      if has_tag lib tlv tag_eid && (length (lib.value tlv) == 16)
      then some (lib.value tlv)
      else deeper

  abbrev pub ok_or_none {ℓ} : {A : Type ℓ} → Result A → Option A
  ok_or_none (ok a) = some a
  ok_or_none (err e) = none

  -- The second half of PendingNotification.Metadata.
  unfoldable pub metadata_in_raw : Option Tlv → Option (NotificationMetadata Tlv)
  unfolding find_notification_metadata unmarshal_notification_metadata
  metadata_in_raw none = none
  metadata_in_raw (some raw) = elim (find_notification_metadata (suc (lib.height raw)) raw) [
    | none ↦ none
    | some found ↦ ok_or_none (unmarshal_notification_metadata lib found)
  ]

  unfoldable pub metadata_of_installation :
      Option (ProfileInstallationResult Tlv) → Option (NotificationMetadata Tlv)
  metadata_of_installation none = none
  metadata_of_installation (some installation) = elim installation.result_data [
    | none ↦ none
    | some found ↦ found.metadata
  ]

  -- PendingNotification.Metadata
  unfoldable pub notification_metadata : PendingNotification Tlv → Option (NotificationMetadata Tlv)
  unfolding metadata_of_installation metadata_in_raw
  notification_metadata n = elim (metadata_of_installation n.profile_installation) [
    | some found ↦ some found
    | none ↦ metadata_in_raw n.raw
  ]

  -- PendingNotification.SequenceNumber
  unfoldable pub notification_sequence_number : PendingNotification Tlv → Result Int64
  unfolding notification_metadata
  notification_sequence_number n =
      required (encoding_error (ascii "missing sequence number")) (λ m. ok m.sequence_number)
        (notification_metadata n)

  -- The end of PendingNotification.Kind.
  abbrev pub plain_kind : PendingNotification Tlv → Bytes
  plain_kind n = elim n.profile_installation [ some _ ↦ ascii "install" | none ↦ ascii "unknown" ]

  -- PendingNotification.Kind
  unfoldable pub notification_kind : PendingNotification Tlv → Bytes
  unfolding notification_metadata metadata_kind
  notification_kind n = elim (notification_metadata n) [
    | none ↦ plain_kind n
    | some m ↦ if bytes_eq (metadata_kind lib m) [] then plain_kind n else metadata_kind lib m
  ]

  -- PendingNotification.EID
  unfoldable pub notification_eid : PendingNotification Tlv → Bytes
  unfolding eid_from_tlv
  notification_eid n = elim n.raw [
    | none ↦ []
    | some raw ↦ or_nil (eid_from_tlv (suc (lib.height raw)) raw)
  ]
