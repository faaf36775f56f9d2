-- ===== src/Asn1/Notification.antt =====
-- asn1/result.go: notifications of the eUICC, and the acknowledgements of the eIM. A function that
-- goes down a whole object recurs on its height.
pub mod Queries
use openiotrsp.Common.{
  ℕ, zero, suc, Bool, true, false, not, ◌&&◌, ◌||◌, Option, none, some, List, [], ◌∷◌, ◌++◌,
  if◌then◌else◌, ◌==◌, Bytes, ascii, eq_nat, eq_bytes, bytes_eq, Int64, on_ok, encoding_error,
  Result, ok, err,
}
use openiotrsp.Prelude.Fallible.{◌>>=◌, ◌>>◌, optional, each, required}
use openiotrsp.Asn1.Codec.{
  unexpected_tag, has_tag, expect_tag, integer_value, octet_tlv, bit_string_tlv, bit_string_value,
  value_or_nil, optional_value, field, field_result, flag_field,
}
use openiotrsp.Asn1.Tlv.{
  Bertlv, eq_tag, application_primitive, context_primitive, context_constructed, tag_sequence,
  tag_integer, tag_utf8, tag_signature, tag_eim_ack, tag_notification_list, tag_notification_meta,
  tag_profile_install, tag_profile_install_data, tag_profile_final_result, class_eq,
  context_specific,
}

module _ (Tlv : Type 0) where
  pub record NotificationMetadata : Type 0 where
    pub sequence_number : Int64
    pub profile_management : Option (List Bool)
    pub notification_address : Bytes
    pub raw : Option Tlv

  pub record ProfileInstallationResultData : Type 0 where
    pub transaction_id : Option Bytes
    pub metadata : Option NotificationMetadata
    pub final_result_raw : Option Tlv
    pub succeeded : Option Bool
    pub raw : Option Tlv

  pub record ProfileInstallationResult : Type 0 where
    pub result_data : Option ProfileInstallationResultData
    pub signature : Option Bytes
    pub raw : Option Tlv

  pub record PendingNotification : Type 0 where
    pub profile_installation : Option ProfileInstallationResult
    pub raw : Option Tlv

  pub record PendingNotificationList : Type 0 where
    pub notifications : List PendingNotification

pub record EimAcknowledgements : Type 0 where
  pub sequence_numbers : List Int64

-- The loop of NotificationMetadata.Kind.
unfoldable pub event_kind : List Bytes → List Bool → Option Bytes
event_kind (kind ∷ kinds) (true ∷ bits) = some kind
event_kind (kind ∷ kinds) (false ∷ bits) = event_kind kinds bits
event_kind _ _ = none

abbrev pub event_kinds : List Bytes
event_kinds = ascii "install" ∷ ascii "enable" ∷ ascii "disable" ∷ ascii "delete" ∷ []

-- NotificationMetadata.Kind, from the bits
unfoldable pub kind_of_bits : List Bool → Bytes
unfolding event_kind
kind_of_bits [] = []
kind_of_bits (b ∷ bits) = elim (event_kind event_kinds (b ∷ bits)) [
  | some kind ↦ kind
  | none ↦ ascii "unknown"
]

module _ {Tlv : Type 0} (lib : Bertlv Tlv) where
  unfoldable pub metadata_kind : NotificationMetadata Tlv → Bytes
  unfolding kind_of_bits
  metadata_kind m = elim m.profile_management [ none ↦ [] | some bits ↦ kind_of_bits bits ]

  -- NotificationMetadata.MarshalBERTLV
  unfoldable pub marshal_notification_metadata : NotificationMetadata Tlv → Result Tlv
  marshal_notification_metadata m = do
    sequence ← lib.marshal_int (context_primitive 0) m.sequence_number
    ok (
        lib.new_children tag_notification_meta (
          sequence
          ∷ (field (bit_string_tlv lib (context_primitive 1)) m.profile_management
              ++ flag_field (octet_tlv lib tag_utf8 m.notification_address)
                  (not (bytes_eq m.notification_address [])))))

  -- NotificationMetadata.UnmarshalBERTLV
  unfoldable pub unmarshal_notification_metadata : Tlv → Result (NotificationMetadata Tlv)
  unmarshal_notification_metadata tlv = do
    expect_tag lib tlv tag_notification_meta
    sequence ← integer_value lib (lib.first tlv (context_primitive 0))
    bits ← optional (bit_string_value lib) (lib.first tlv (context_primitive 1))
    ok (record {
      sequence_number = sequence;
      profile_management = bits;
      notification_address = value_or_nil lib (lib.first tlv tag_utf8);
      raw = some tlv;
    })

  -- finalResultSucceeded; no value is `ok` false
  unfoldable pub final_result_succeeded : ℕ → List Tlv → Option Bool
  final_result_succeeded zero children = none
  final_result_succeeded (suc depth) [] = none
  final_result_succeeded (suc depth) (head ∷ _) =
      let nested = final_result_succeeded depth (lib.children head) in
      let tag = lib.tag head in
      if class_eq tag.class context_specific && (tag.number == 0)
      then some true
      else if class_eq tag.class context_specific && (tag.number == 1)
      then some false
      else if tag == tag_sequence
      then nested
      else if tag == application_primitive 15
      then some true
      else if tag == tag_integer
      then some false
      else none

  -- ProfileInstallationResultData.UnmarshalBERTLV
  unfoldable pub unmarshal_installation_data : Tlv → Result (ProfileInstallationResultData Tlv)
  unfolding unmarshal_notification_metadata final_result_succeeded
  unmarshal_installation_data tlv = do
    expect_tag lib tlv tag_profile_install_data
    found ← optional unmarshal_notification_metadata (lib.first tlv tag_notification_meta)
    final ←
        required (encoding_error (ascii "missing finalResult")) ok
          (lib.first tlv tag_profile_final_result)
    outcome ←
        required (encoding_error (ascii "cannot determine finalResult outcome")) ok
          (final_result_succeeded (lib.height final) (lib.children final))
    ok (record {
      transaction_id = optional_value lib (lib.first tlv (context_primitive 0));
      metadata = found;
      final_result_raw = some final;
      succeeded = some outcome;
      raw = some tlv;
    })

  -- ProfileInstallationResultData.MarshalBERTLV
  unfoldable pub marshal_installation_data : ProfileInstallationResultData Tlv → Result Tlv
  unfolding marshal_notification_metadata
  marshal_installation_data d = elim d.raw [
    | some raw ↦ ok raw
    | none ↦ on_ok (field_result marshal_notification_metadata d.metadata) (λ metadata. ok (
        lib.new_children tag_profile_install_data (
          field (octet_tlv lib (context_primitive 0)) d.transaction_id
          ++ metadata
          ++ field (λ child. child) d.final_result_raw)))
  ]

  -- ProfileInstallationResult.MarshalBERTLV
  unfoldable pub marshal_installation_result : ProfileInstallationResult Tlv → Result Tlv
  unfolding marshal_installation_data
  marshal_installation_result r = elim r.raw [
    | some raw ↦ ok raw
    | none ↦
        required (encoding_error (ascii "missing ProfileInstallationResultData"))
          (λ d. on_ok (marshal_installation_data d) (λ child. ok (
            lib.new_children tag_profile_install
              (child ∷ field (octet_tlv lib tag_signature) r.signature))))
          r.result_data
  ]

  -- ProfileInstallationResult.UnmarshalBERTLV
  unfoldable pub unmarshal_installation_result : Tlv → Result (ProfileInstallationResult Tlv)
  unfolding unmarshal_installation_data
  unmarshal_installation_result tlv = do
    expect_tag lib tlv tag_profile_install
    found ←
        required (encoding_error (ascii "missing ProfileInstallationResultData"))
          unmarshal_installation_data (lib.first tlv tag_profile_install_data)
    ok (record {
      result_data = some found;
      signature = optional_value lib (lib.first tlv tag_signature);
      raw = some tlv;
    })

  -- isPendingNotificationTLV
  unfoldable pub is_pending_notification_tlv : Tlv → Bool
  is_pending_notification_tlv tlv =
      has_tag lib tlv tag_profile_install
      || has_tag lib tlv tag_sequence
      || has_tag lib tlv tag_notification_list
      || has_tag lib tlv (context_constructed 1)

  -- PendingNotification.MarshalBERTLV
  unfoldable pub marshal_pending_notification : PendingNotification Tlv → Result Tlv
  unfolding marshal_installation_result
  marshal_pending_notification n = elim n.profile_installation [
    | some installation ↦ marshal_installation_result installation
    | none ↦ required (encoding_error (ascii "empty PendingNotification")) ok n.raw
  ]

  -- PendingNotification.UnmarshalBERTLV
  unfoldable pub unmarshal_pending_notification : Tlv → Result (PendingNotification Tlv)
  unfolding unmarshal_installation_result is_pending_notification_tlv
  unmarshal_pending_notification tlv = do
    installation ←
        if has_tag lib tlv tag_profile_install
        then on_ok (unmarshal_installation_result tlv) (λ found. ok (some found))
        else ok none
    if is_pending_notification_tlv tlv
        then ok (record { profile_installation = installation; raw = some tlv })
        else err unexpected_tag

  -- PendingNotificationList
  unfoldable pub marshal_notification_list : PendingNotificationList Tlv → Result Tlv
  unfolding marshal_pending_notification
  marshal_notification_list l =
      on_ok (each marshal_pending_notification l.notifications)
        (λ children. ok (lib.new_children tag_notification_list children))

  unfoldable pub unmarshal_notification_list : Tlv → Result (PendingNotificationList Tlv)
  unfolding unmarshal_pending_notification
  unmarshal_notification_list tlv = do
    expect_tag lib tlv tag_notification_list
    found ← each unmarshal_pending_notification (lib.children tlv)
    ok (record { notifications = found })

  -- EimAcknowledgements
  unfoldable pub marshal_acknowledgements : EimAcknowledgements → Result Tlv
  marshal_acknowledgements a =
      on_ok (each (lib.marshal_int (context_primitive 0)) a.sequence_numbers)
        (λ children. ok (lib.new_children tag_eim_ack children))

  unfoldable pub unmarshal_acknowledgements : Tlv → Result EimAcknowledgements
  unmarshal_acknowledgements tlv = do
    expect_tag lib tlv tag_eim_ack
    numbers ←
        each
          (λ child.
            on_ok (expect_tag lib child (context_primitive 0)) (λ _. lib.unmarshal_int child))
          (lib.children tlv)
    ok (record { sequence_numbers = numbers })
