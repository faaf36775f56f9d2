-- ===== src/Asn1/Codec.antt =====
-- asn1/codec.go: the helpers of the encoders and decoders. A Go pointer that may be nil is an
-- option; a clone is the same value. Errors keep the words of the source without the tags that it
-- prints.
use openiotrsp.Common.{
  Bool, true, false, Option, none, some, List, [], ◌∷◌, if◌then◌else◌, length, ◌==◌, Bytes, ascii,
  eq_nat, eq_bytes, bytes_eq, Int64, Error, on_ok, encoding_error, Result, ok, err,
}
use openiotrsp.Asn1.Tlv.{Tag, Bertlv, eq_tag}
use openiotrsp.Asn1.BitString.{marshal_bit_string, unmarshal_bit_string}

abbrev pub unexpected_tag : Error
unexpected_tag = encoding_error (ascii "unexpected BER-TLV tag")

module _ {Tlv : Type 0} (lib : Bertlv Tlv) where
  -- hasTag, for an object that is there
  abbrev pub has_tag : Tlv → Tag → Bool
  has_tag tlv wanted = lib.tag tlv == wanted

  -- expectTag
  abbrev pub expect_tag : Tlv → Tag → Result (Unit {0})
  expect_tag tlv wanted = if has_tag tlv wanted then ok tt else err unexpected_tag

  -- parseTLV
  unfoldable pub parse_tlv : Bytes → Result Tlv
  parse_tlv input =
      if bytes_eq input []
      then err (encoding_error (ascii "empty BER-TLV input"))
      else on_ok (lib.read_from input) (λ (tlv, n).
        if n == length input
        then ok tlv
        else err (encoding_error (ascii "trailing data after BER-TLV object")))

  -- Encode, from the object that the structure marshals to
  abbrev pub encode : Result Tlv → Result Bytes
  encode marshaled = on_ok marshaled lib.marshal_binary

  -- Decode
  unfoldable pub decode {ℓ} : {A : Type ℓ} → (Tlv → Result A) → Bytes → Result A
  unfolding parse_tlv
  decode unmarshal input = on_ok (parse_tlv input) unmarshal

  -- integerValue
  abbrev pub integer_value : Option Tlv → Result Int64
  integer_value none = err (encoding_error (ascii "missing INTEGER"))
  integer_value (some tlv) = lib.unmarshal_int tlv

  -- utf8TLV, octetTLV
  abbrev pub octet_tlv : Tag → Bytes → Tlv
  octet_tlv = lib.new_value

  -- octetValue
  abbrev pub octet_value : Option Tlv → Result Bytes
  octet_value none = err (encoding_error (ascii "missing OCTET STRING"))
  octet_value (some tlv) = ok (lib.value tlv)

  -- utf8Value
  abbrev pub utf8_value : Option Tlv → Result Bytes
  utf8_value none = err (encoding_error (ascii "missing UTF8String"))
  utf8_value (some tlv) = ok (lib.value tlv)

  -- nullTLV
  abbrev pub null_tlv : Tag → Tlv
  null_tlv wanted = lib.new_value wanted []

  -- bitStringTLV
  unfoldable pub bit_string_tlv : Tag → List Bool → Tlv
  unfolding marshal_bit_string
  bit_string_tlv wanted bits = lib.new_value wanted (marshal_bit_string bits)

  -- bitStringValue
  unfoldable pub bit_string_value : Tlv → Result (List Bool)
  unfolding unmarshal_bit_string
  bit_string_value tlv = unmarshal_bit_string (lib.value tlv)

  -- `child.Value` of an optional child; a missing child leaves the slice nil.
  abbrev pub value_or_nil : Option Tlv → Bytes
  value_or_nil none = []
  value_or_nil (some child) = lib.value child

  -- The same where nil and empty are told apart.
  abbrev pub optional_value : Option Tlv → Option Bytes
  optional_value none = none
  optional_value (some child) = some (lib.value child)

  abbrev pub is_present : Option Tlv → Bool
  is_present none = false
  is_present (some child) = true

  -- `len(tlv.Children) != 1`, and the child
  abbrev pub sole_child : Tlv → Result Tlv
  sole_child tlv = elim (lib.children tlv) [
    | [] ↦ err (encoding_error (ascii "requires one selected child"))
    | child ∷ rest ↦ elim rest [
      | [] ↦ ok child
      | _ ∷ _ ↦ err (encoding_error (ascii "requires one selected child"))
    ]
  ]

-- `if x != nil { children = append(children, …) }`
abbrev pub field {ℓ} : {A : Type ℓ} {Tlv : Type 0} → (A → Tlv) → Option A → List Tlv
field make none = []
field make (some x) = make x ∷ []

-- The same for an encoder that can fail.
abbrev pub field_result {ℓ} :
    {A : Type ℓ} {Tlv : Type 0} → (A → Result Tlv) → Option A → Result (List Tlv)
field_result make none = ok []
field_result make (some x) = on_ok (make x) (λ child. ok (child ∷ []))

-- `if flag { children = append(children, …) }`
abbrev pub flag_field : {Tlv : Type 0} → Tlv → Bool → List Tlv
flag_field child true = child ∷ []
flag_field child false = []

-- A slice where nil and empty are told apart, where the code does not.
abbrev pub or_nil : Option Bytes → Bytes
or_nil none = []
or_nil (some bytes) = bytes

-- The first result that is not nil.
abbrev pub first_some {ℓ κ} : {A : Type ℓ} {B : Type κ} → (A → Option B) → List A → Option B
first_some f [] = none
first_some f (x ∷ xs) = elim (f x) [ some y ↦ some y | none ↦ first_some f xs ]
