-- ===== src/Asn1/BitString.antt =====
-- asn1/codec.go: BIT STRINGs. The loops over the bits go through the bytes, eight bits at a time.
pub mod RoundTrip
use openiotrsp.Common.{
  ℕ, ◌+◌, ◌-◌, ◌*◌, ◌/◌, ◌%◌, ◌^◌, Bool, true, false, not, List, [], ◌∷◌, ◌++◌, ltb, if◌then◌else◌,
  length, take, ◌==◌, Bytes, ascii, eq_nat, eq_bytes, encoding_error, Result, ok, err,
}

-- `1 << (7 - index%8)` for a bit that is set, in a byte that starts as 0
abbrev pub bit_value : Bool → ℕ
bit_value true = 1
bit_value false = 0

-- The byte of up to eight bits, the first one highest.
unfoldable pub pack_byte : ℕ → List Bool → ℕ
pack_byte weight [] = 0
pack_byte weight (b ∷ bs) = bit_value b * weight + pack_byte (weight / 2) bs

unfoldable pub pack_bits : List Bool → Bytes
unfolding pack_byte
pack_bits [] = []
pack_bits (a ∷ b ∷ c ∷ d ∷ e ∷ f ∷ g ∷ h ∷ rest) =
    pack_byte 128 (a ∷ b ∷ c ∷ d ∷ e ∷ f ∷ g ∷ h ∷ []) ∷ pack_bits rest
pack_bits bits = pack_byte 128 bits ∷ []

-- marshalBitString
unfoldable pub marshal_bit_string : List Bool → Bytes
unfolding pack_bits
marshal_bit_string [] = 0 ∷ []
marshal_bit_string (b ∷ bits) = ((8 - length (b ∷ bits) % 8) % 8) ∷ pack_bits (b ∷ bits)

-- `data[1+index/8]&(1<<(7-index%8)) != 0`
abbrev pub is_set : ℕ → ℕ → Bool
is_set byte weight = (byte / weight) % 2 == 1

abbrev pub byte_bits : ℕ → List Bool
byte_bits byte =
    is_set byte 128
    ∷ is_set byte 64
    ∷ is_set byte 32
    ∷ is_set byte 16
    ∷ is_set byte 8
    ∷ is_set byte 4
    ∷ is_set byte 2
    ∷ is_set byte 1
    ∷ []

unfoldable pub unpack_bits : Bytes → List Bool
unpack_bits [] = []
unpack_bits (byte ∷ bytes) = byte_bits byte ++ unpack_bits bytes

-- `data[len(data)-1]`, from the bytes after the first
unfoldable pub last_byte : ℕ → Bytes → ℕ
last_byte byte [] = byte
last_byte byte (next ∷ bytes) = last_byte next bytes

-- unmarshalBitString
unfoldable pub unmarshal_bit_string : Bytes → Result (List Bool)
unfolding last_byte unpack_bits
unmarshal_bit_string [] = err (encoding_error (ascii "BIT STRING missing unused-bit octet"))
unmarshal_bit_string (unused ∷ []) =
    if unused == 0 then ok [] else err (encoding_error (ascii "invalid unused-bit count"))
unmarshal_bit_string (unused ∷ byte ∷ bytes) =
    if ltb 7 unused
    then err (encoding_error (ascii "invalid unused-bit count"))
    else if not (last_byte byte bytes % 2 ^ unused == 0)
    then err (encoding_error (ascii "non-zero BIT STRING padding bits"))
    else ok (take (length (byte ∷ bytes) * 8 - unused) (unpack_bits (byte ∷ bytes)))
