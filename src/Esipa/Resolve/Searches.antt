-- ===== src/Esipa/Resolve/Searches.antt =====
-- About what the searches through a whole object find (asn1/result.go, esipa/eid_resolve.go).
use openiotrsp.Common.{
  suc, ◌≡◌, refl, inl, inr, ◌⊎◌, true, false, ◌&&◌, arith, Bool-cases, length, ◌==◌, eq_nat,
  eq_bytes,
}
use openiotrsp.Asn1.Codec.{has_tag}
use openiotrsp.Asn1.Depth.{Shrinks}
use openiotrsp.Asn1.Search.{Finds, search_lem}
use openiotrsp.Asn1.Tlv.{
  Bertlv, Tag, eq_tag, tag_eq_iff, context_primitive, tag_eid, tag_notification_meta,
}
use openiotrsp.Asn1.Notification.Queries.{find_notification_metadata, eid_from_tlv}
use openiotrsp.Esipa.Resolve.{first_context_primitive2}

module _ {Tlv : Type 0} (lib : Bertlv Tlv) where
  abbrev pub IsMetadata : Tlv → Type 0
  IsMetadata o = lib.tag o ≡ tag_notification_meta

  abbrev pub IsEid : Tlv → Type 0
  IsEid o = (lib.tag o ≡ tag_eid) × (length (lib.value o) ≡ 16)

  abbrev pub IsTransaction : Tlv → Type 0
  IsTransaction o = lib.tag o ≡ context_primitive 2

  decide_tag : (wanted : Tag) (o : Tlv) → (lib.tag o ≡ wanted) ⊎ (lib.tag o ≡ wanted → ⊥)
  decide_tag wanted o = elim (Bool-cases (has_tag lib o wanted)) [
    | inl e ↦ inl ((tag_eq_iff (lib.tag o) wanted).0 e)
    | inr e ↦ inr (λ same. ground (arith, e, (tag_eq_iff (lib.tag o) wanted).1 same))
  ]

  decide-IsEid : (o : Tlv) → IsEid o ⊎ (IsEid o → ⊥)
  decide-IsEid o = elim (decide_tag tag_eid o) [
    | inr other ↦ inr (λ e. other e.0)
    | inl tagged ↦ elim (Bool-cases (length (lib.value o) == 16)) [
      | inl long ↦ inl (tagged, ground (arith, long))
      | inr short ↦ inr (λ e. ground (arith, short, e.1))
    ]
  ]

  tagged_is_seen : (o : Tlv) (wanted : Tag) → lib.tag o ≡ wanted → has_tag lib o wanted ≡ true
  tagged_is_seen o wanted e = (tag_eq_iff (lib.tag o) wanted).1 e

  untagged_is_not :
      (o : Tlv) (wanted : Tag) → (lib.tag o ≡ wanted → ⊥) → has_tag lib o wanted ≡ false
  untagged_is_not o wanted h = elim (Bool-cases (has_tag lib o wanted)) [
    | inl e ↦ absurd (h ((tag_eq_iff (lib.tag o) wanted).0 e))
    | inr e ↦ e
  ]

  eid_true : (o : Tlv) → IsEid o → (has_tag lib o tag_eid && (length (lib.value o) == 16)) ≡ true
  eid_true o (tagged, long) = rw (tagged_is_seen o tag_eid tagged, long) refl

  eid_false :
      (o : Tlv) → (IsEid o → ⊥) → (has_tag lib o tag_eid && (length (lib.value o) == 16)) ≡ false
  eid_false o h = elim (Bool-cases (has_tag lib o tag_eid && (length (lib.value o) == 16))) [
    | inl e ↦ absurd (h ((tag_eq_iff (lib.tag o) tag_eid).0 (ground (arith, e)), ground (arith, e)))
    | inr e ↦ e
  ]

  module _ (shrinks : Shrinks lib) where
    IsMetadata-Finds :
        (o : Tlv)
        → Finds lib IsMetadata
            (λ found. found)
            o
            (find_notification_metadata lib (suc (lib.height o)) o)
    unfolding find_notification_metadata
    IsMetadata-Finds o =
        search_lem lib IsMetadata (λ found. found) (find_notification_metadata lib)
          (decide_tag tag_notification_meta)
          (λ d o e. rw (tagged_is_seen o tag_notification_meta e) refl)
          (λ d o h. rw (untagged_is_not o tag_notification_meta h) refl) shrinks
          (suc (lib.height o)) o (omega arith)

    IsEid-Finds : (o : Tlv) → Finds lib IsEid lib.value o (eid_from_tlv lib (suc (lib.height o)) o)
    unfolding eid_from_tlv
    IsEid-Finds o =
        search_lem lib IsEid lib.value (eid_from_tlv lib) decide-IsEid
          (λ d o e. rw (eid_true o e) refl) (λ d o h. rw (eid_false o h) refl) shrinks
          (suc (lib.height o)) o (omega arith)

    IsTransaction-Finds :
        (o : Tlv)
        → Finds lib IsTransaction lib.value o (first_context_primitive2 lib (suc (lib.height o)) o)
    unfolding first_context_primitive2
    IsTransaction-Finds o =
        search_lem lib IsTransaction lib.value (first_context_primitive2 lib)
          (decide_tag (context_primitive 2))
          (λ d o e. rw (tagged_is_seen o (context_primitive 2) e) refl)
          (λ d o h. rw (untagged_is_not o (context_primitive 2) h) refl) shrinks
          (suc (lib.height o)) o (omega arith)

    -- Where a child is less high than what it is a child of, the searches through an object, as
    -- their callers start them, find what comes first when each object comes before its children
    -- and these in their order: the notification metadata, the value of the EID of 16 bytes, and
    -- the value of the object [2]; and where a search finds nothing, no object inside is one.
    pub searches_find_first :
        (o : Tlv)
        → let enough = suc (lib.height o) in
          Finds lib IsMetadata (λ found. found) o (find_notification_metadata lib enough o)
          × Finds lib IsEid lib.value o (eid_from_tlv lib enough o)
          × Finds lib IsTransaction lib.value o (first_context_primitive2 lib enough o)
    searches_find_first o = (IsMetadata-Finds o, IsEid-Finds o, IsTransaction-Finds o)
