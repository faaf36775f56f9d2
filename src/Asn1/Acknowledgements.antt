-- ===== src/Asn1/Acknowledgements.antt =====
-- About acknowledgements that are read as they were written (asn1/result.go).
use openiotrsp.Common.{
  ◌^◌, ◌<◌, ◌≡◌, refl, List, [], ◌∷◌, All, Int64, Result, ok, on_ok, eq_nat, eq_bytes, beq_refl,
}
use openiotrsp.Prelude.Fallible.{each}
use openiotrsp.Asn1.Codec.{expect_tag}
use openiotrsp.Asn1.Tlv.{Bertlv, Tag, context_primitive, tag_eim_ack, eq_tag}
use openiotrsp.Asn1.Tlv.Laws.{BertlvLaws}
use openiotrsp.Asn1.Notification.{
  EimAcknowledgements, marshal_acknowledgements, unmarshal_acknowledgements,
}

module _ {Tlv : Type 0} (lib : Bertlv Tlv) (laws : BertlvLaws lib) where
  abbrev written : Int64 → Result Tlv
  written = lib.marshal_int (context_primitive 0)

  abbrev read : Tlv → Result Int64
  read child = on_ok (expect_tag lib child (context_primitive 0)) (λ _. lib.unmarshal_int child)

  expected : (o : Tlv) (t : Tag) → lib.tag o ≡ t → expect_tag lib o t ≡ ok tt
  expected o t e = rw (e, beq_refl t) refl

  number_read_back : (x : Int64) → x < 2 ^ 64 → (o : Tlv) × (written x ≡ ok o) × (read o ≡ ok x)
  number_read_back x small =
      let (o, w, tagged, r) = laws.integer (context_primitive 0) x small in
      (o, w, rw (expected o _ tagged) r)

  numbers_read_back :
      (numbers : List Int64)
      → All (λ x. x < 2 ^ 64) numbers
      → (os : List Tlv) × (each written numbers ≡ ok os) × (each read os ≡ ok numbers)
  numbers_read_back [] h = ([], refl, refl)
  numbers_read_back (x ∷ numbers) h =
      let (o, w, r) = number_read_back x h.0 in
      let (os, ws, rs) = numbers_read_back numbers h.1 in (o ∷ os, rw (w, ws) refl, rw (r, rs) refl)

  -- Acknowledgements of 64-bit sequence numbers can be written, and what is written is read back
  -- as the acknowledgements that they were.
  pub acknowledgements_read_back :
      (acks : EimAcknowledgements)
      → All (λ x. x < 2 ^ 64) acks.sequence_numbers
      → (o : Tlv) × (marshal_acknowledgements lib acks ≡ ok o)
        × (unmarshal_acknowledgements lib o ≡ ok acks)
  unfolding marshal_acknowledgements unmarshal_acknowledgements
  acknowledgements_read_back acks small =
      let (os, ws, rs) = numbers_read_back acks.sequence_numbers small in
      (
        lib.new_children tag_eim_ack os,
        rw (ws) refl,
        rw
            (
              expected _ _ (laws.tag-new_children tag_eim_ack os),
              laws.children-new_children tag_eim_ack os,
              rs,
            )
            refl,
      )
