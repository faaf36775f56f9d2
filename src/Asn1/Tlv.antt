-- ===== src/Asn1/Tlv.antt =====
-- The BER-TLV library github.com/damonto/euicc-go/bertlv as the code calls it, and asn1/tags.go.
pub mod Laws
use openiotrsp.Common.{
  ℕ, ◌-◌, ◌/◌, ◌≡◌, ◌↔◌, Bool, true, false, not, ◌&&◌, Option, List, arith, nat_eq, Comparable,
  Bytes, eq_nat, eq_bytes, Int64, Result, ◌>>=◌, ◌>>◌,
}

pub data TagClass : Type 0 where
  universal application context_specific private_use : TagClass

-- What a tag shows: its class, its form and its number.
pub record Tag : Type 0 where
  pub class : TagClass
  pub is_constructed : Bool
  pub number : ℕ

unfoldable pub class_eq : TagClass → TagClass → Bool
class_eq universal universal = true
class_eq application application = true
class_eq context_specific context_specific = true
class_eq private_use private_use = true
class_eq _ _ = false

unfoldable pub form_eq : Bool → Bool → Bool
form_eq true b = b
form_eq false b = not b

-- `Tag.Equal`
unfoldable pub tag_eq : Tag → Tag → Bool
unfolding class_eq form_eq
tag_eq a b =
    class_eq a.class b.class
    && form_eq a.is_constructed b.is_constructed
    && nat_eq a.number b.number

class_eq_iff : (a b : TagClass) → (class_eq a b ≡ true) ↔ (a ≡ b)
unfolding class_eq
class_eq_iff universal b = ground arith
class_eq_iff application b = ground arith
class_eq_iff context_specific b = ground arith
class_eq_iff private_use b = ground arith

pub tag_eq_iff : (a b : Tag) → (tag_eq a b ≡ true) ↔ (a ≡ b)
unfolding tag_eq form_eq
tag_eq_iff a b = ground (arith, class_eq_iff a.class b.class)

instance abbrev pub eq_tag : Comparable Tag
eq_tag = record { same = tag_eq; same_iff = tag_eq_iff }

-- The library's objects and functions. `height` is how deeply an object is nested: an object is a
-- finite tree.
pub record Bertlv (Tlv : Type 0) : Type 0 where
  pub tag : Tlv → Tag
  pub value : Tlv → Bytes
  pub children : Tlv → List Tlv
  pub height : Tlv → ℕ
  pub first : Tlv → Tag → Option Tlv
  pub marshal_binary : Tlv → Result Bytes
  -- ReadFrom: the object and the number of bytes read.
  pub read_from : Bytes → Result (Tlv × ℕ)
  pub new_value : Tag → Bytes → Tlv
  pub new_children : Tag → List Tlv → Tlv
  -- MarshalValue and UnmarshalValue with the codecs of integers and of Booleans.
  pub marshal_int : Tag → Int64 → Result Tlv
  pub unmarshal_int : Tlv → Result Int64
  pub marshal_bool : Tag → Bool → Result Tlv
  pub unmarshal_bool : Tlv → Result Bool

abbrev pub universal_primitive : ℕ → Tag
universal_primitive n = record { class = universal; is_constructed = false; number = n }

abbrev pub universal_constructed : ℕ → Tag
universal_constructed n = record { class = universal; is_constructed = true; number = n }

abbrev pub application_primitive : ℕ → Tag
application_primitive n = record { class = application; is_constructed = false; number = n }

abbrev pub context_primitive : ℕ → Tag
context_primitive n = record { class = context_specific; is_constructed = false; number = n }

abbrev pub context_constructed : ℕ → Tag
context_constructed n = record { class = context_specific; is_constructed = true; number = n }

abbrev pub private_constructed : ℕ → Tag
private_constructed n = record { class = private_use; is_constructed = true; number = n }

abbrev pub tag_sequence : Tag
tag_sequence = universal_constructed 16

abbrev pub tag_integer : Tag
tag_integer = universal_primitive 2

abbrev pub tag_octet : Tag
tag_octet = universal_primitive 4

abbrev pub tag_null : Tag
tag_null = universal_primitive 5

abbrev pub tag_utf8 : Tag
tag_utf8 = universal_primitive 12

abbrev pub tag_eid : Tag
tag_eid = application_primitive 26

abbrev pub tag_signature : Tag
tag_signature = application_primitive 55

abbrev pub tag_euicc_pkg : Tag
tag_euicc_pkg = context_constructed 81

abbrev pub tag_ipa_euicc_data : Tag
tag_ipa_euicc_data = context_constructed 82

abbrev pub tag_eim_ack : Tag
tag_eim_ack = context_constructed 83

abbrev pub tag_download_trig : Tag
tag_download_trig = context_constructed 84

abbrev pub tag_transfer_eim_package : Tag
tag_transfer_eim_package = context_constructed 78

abbrev pub tag_get_eim_package : Tag
tag_get_eim_package = context_constructed 79

abbrev pub tag_provide_eim_result : Tag
tag_provide_eim_result = context_constructed 80

abbrev pub tag_profile_info_list : Tag
tag_profile_info_list = context_constructed 45

abbrev pub tag_profile_info : Tag
tag_profile_info = private_constructed 3

abbrev pub tag_profile_state : Tag
tag_profile_state = context_primitive 112

abbrev pub tag_fallback_attribute : Tag
tag_fallback_attribute = context_primitive 38

abbrev pub tag_notification_list : Tag
tag_notification_list = context_constructed 0

abbrev pub tag_notification_meta : Tag
tag_notification_meta = context_constructed 47

abbrev pub tag_profile_install : Tag
tag_profile_install = context_constructed 55

abbrev pub tag_profile_install_data : Tag
tag_profile_install_data = context_constructed 39

abbrev pub tag_profile_final_result : Tag
tag_profile_final_result = context_constructed 2

abbrev pub tag_set_default_dp_address : Tag
tag_set_default_dp_address = context_constructed 101
