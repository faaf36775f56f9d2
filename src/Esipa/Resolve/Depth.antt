-- ===== src/Esipa/Resolve/Depth.antt =====
-- About how deep the searches through an object have to go.
use openiotrsp.Common.{
  ℕ, suc, ◌<◌, ◌≡◌, refl, All, arith, Option, none, List, [], ◌∷◌, ap, if◌then◌else◌, Bytes, eq_nat,
  eq_bytes,
}
use openiotrsp.Asn1.Codec.{has_tag}
use openiotrsp.Asn1.Depth.{Shrinks, Deepens, depths_agree, first_some_agrees}
use openiotrsp.Asn1.Tlv.{Bertlv, tag_eid, eq_tag}
use openiotrsp.Asn1.Notification.Queries.{find_notification_metadata, eid_from_tlv}
use openiotrsp.Esipa.Resolve.{first_context_primitive2, recover_eid_from_package_result_tlv}
use openiotrsp.Pki.{X509}

module _ {Tlv : Type 0} (lib : Bertlv Tlv) (x509 : X509) (shrinks : Shrinks lib) where
  metadata-Deepens : Deepens lib (find_notification_metadata lib)
  unfolding find_notification_metadata
  metadata-Deepens d e o agree = rw (first_some_agrees _ _ (lib.children o) agree) refl

  eid-Deepens : Deepens lib (eid_from_tlv lib)
  unfolding eid_from_tlv
  eid-Deepens d e o agree = rw (first_some_agrees _ _ (lib.children o) agree) refl

  transaction-Deepens : Deepens lib (first_context_primitive2 lib)
  unfolding first_context_primitive2
  transaction-Deepens d e o agree = rw (first_some_agrees _ _ (lib.children o) agree) refl

  -- The children other than the EID.
  others_agree :
      (f g : Tlv → Option Bytes) (l : List Tlv)
      → All (λ c. f c ≡ g c) l
      → All
          (λ c.
            (if has_tag lib c tag_eid then none else f c)
            ≡ (if has_tag lib c tag_eid then none else g c))
          l
  others_agree f g [] agree = tt
  others_agree f g (c ∷ l) agree =
      (ap (λ r. if has_tag lib c tag_eid then none else r) agree.0, others_agree f g l agree.1)

  recovery-Deepens : Deepens lib (recover_eid_from_package_result_tlv lib x509)
  unfolding recover_eid_from_package_result_tlv
  recovery-Deepens d e o agree =
      rw (first_some_agrees _ _ (lib.children o) (others_agree _ _ (lib.children o) agree)) refl

  -- The searches for notification metadata, for an EID, for a transaction and for the EID of a
  -- package result find the same at any depth beyond the height of the object, where a child is
  -- less high than what it is a child of; so the depth that the code's callers are given, one more
  -- than the height, is enough.
  pub enough_depth :
      (depth : ℕ) (o : Tlv)
      → lib.height o < depth
      → let enough = suc (lib.height o) in
        (find_notification_metadata lib depth o ≡ find_notification_metadata lib enough o)
        × (eid_from_tlv lib depth o ≡ eid_from_tlv lib enough o)
        × (first_context_primitive2 lib depth o ≡ first_context_primitive2 lib enough o)
        × (recover_eid_from_package_result_tlv lib x509 depth o
            ≡ recover_eid_from_package_result_tlv lib x509 enough o)
  enough_depth depth o deep =
      let within : lib.height o < suc (lib.height o) = omega arith in
      (
        depths_agree lib _ metadata-Deepens shrinks depth _ o deep within,
        depths_agree lib _ eid-Deepens shrinks depth _ o deep within,
        depths_agree lib _ transaction-Deepens shrinks depth _ o deep within,
        depths_agree lib _ recovery-Deepens shrinks depth _ o deep within,
      )
