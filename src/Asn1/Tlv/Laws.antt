-- ===== src/Asn1/Tlv/Laws.antt =====
-- What the code relies on of the BER-TLV library: an object is what it was made from, `First` is
-- the first child with a tag, and an integer is read as it was written.
use openiotrsp.Common.{
  ◌^◌, ◌<◌, ◌≡◌, Option, none, some, List, [], ◌∷◌, if◌then◌else◌, ◌==◌, Bytes, eq_nat, eq_bytes,
  Int64, ok,
}
use openiotrsp.Asn1.Tlv.{Tag, Bertlv, eq_tag}

abbrev pub first_tagged : {Tlv : Type 0} → Bertlv Tlv → Tag → List Tlv → Option Tlv
first_tagged lib wanted [] = none
first_tagged lib wanted (child ∷ rest) =
    if lib.tag child == wanted then some child else first_tagged lib wanted rest

pub record BertlvLaws {Tlv : Type 0} (lib : Bertlv Tlv) : Type 0 where
  pub tag-new_value : (t : Tag) (b : Bytes) → lib.tag (lib.new_value t b) ≡ t
  pub value-new_value : (t : Tag) (b : Bytes) → lib.value (lib.new_value t b) ≡ b
  pub tag-new_children : (t : Tag) (cs : List Tlv) → lib.tag (lib.new_children t cs) ≡ t
  pub children-new_children : (t : Tag) (cs : List Tlv) → lib.children (lib.new_children t cs) ≡ cs
  pub first_lem : (o : Tlv) (t : Tag) → lib.first o t ≡ first_tagged lib t (lib.children o)
  pub integer :
      (t : Tag) (x : Int64)
      → x < 2 ^ 64
      → (o : Tlv) × (lib.marshal_int t x ≡ ok o) × (lib.tag o ≡ t) × (lib.unmarshal_int o ≡ ok x)
