-- ===== src/Asn1/Oid.antt =====
-- asn1/euicc_package.go and encoding/asn1: OBJECT IDENTIFIERs.
use openiotrsp.Asn1.Codec.{parse_tlv, expect_tag, octet_tlv}
use openiotrsp.Common.{
  ℕ, zero, suc, ◌+◌, ◌-◌, ◌*◌, ◌/◌, ◌%◌, Bool, true, false, ◌&&◌, ◌||◌, List, [], ◌∷◌, ◌++◌, ltb,
  leb, if◌then◌else◌, length, ◌==◌, Bytes, ascii, eq_nat, eq_bytes, on_ok, encoding_error, Result,
  ok, err,
}
use openiotrsp.Asn1.Tlv.{Bertlv, eq_tag, Tag, universal_primitive}

-- encoding/asn1 parseBase128Int: the number and the bytes after it, from the number so far and the
-- number of bytes that are read. The last byte of a number has its high bit clear.
unfoldable pub parse_base128 : ℕ → ℕ → Bytes → Result (ℕ × Bytes)
parse_base128 shifted value [] = err (encoding_error (ascii "truncated base 128 integer"))
parse_base128 shifted value (b ∷ bytes) =
    let whole = value * 128 + b % 128 in
    let rest = parse_base128 (shifted + 1) whole bytes in
    if shifted == 5
    then err (encoding_error (ascii "base 128 integer too large"))
    else if (shifted == 0) && (b == 128)
    then err (encoding_error (ascii "integer is not minimally encoded"))
    else if leb 128 b
    then rest
    else if ltb 2147483647 whole
    then err (encoding_error (ascii "base 128 integer too large"))
    else ok (whole, bytes)

-- The loop of encoding/asn1 parseObjectIdentifier. A number takes a byte at least, so as many
-- rounds as there are bytes are enough.
unfoldable pub parse_arcs : ℕ → Bytes → Result (List ℕ)
unfolding parse_base128
parse_arcs zero bytes = ok []
parse_arcs (suc rounds) [] = ok []
parse_arcs (suc rounds) (b ∷ bytes) =
    on_ok (parse_base128 0 0 (b ∷ bytes))
      (λ (arc, rest). on_ok (parse_arcs rounds rest) (λ arcs. ok (arc ∷ arcs)))

-- parseObjectIdentifier
unfoldable pub parse_object_identifier : Bytes → Result (List ℕ)
unfolding parse_base128 parse_arcs
parse_object_identifier [] = err (encoding_error (ascii "zero length OBJECT IDENTIFIER"))
parse_object_identifier (b ∷ bytes) = on_ok (parse_base128 0 0 (b ∷ bytes)) (λ (head, rest).
    on_ok (parse_arcs (length rest) rest) (λ arcs.
      if ltb head 80 then ok ((head / 40) ∷ (head % 40) ∷ arcs) else ok (2 ∷ (head - 80) ∷ arcs)))

-- encoding/asn1 appendBase128Int, from whether a byte follows. Ten bytes are enough for an integer
-- of 64 bits.
unfoldable pub base128 : ℕ → Bool → ℕ → Bytes
base128 zero more n = []
base128 (suc rounds) more n =
    let high = base128 rounds true (n / 128) in
    let last = n % 128 + (if more then 128 else 0) in
    if ltb n 128 then last ∷ [] else high ++ last ∷ []

unfoldable pub base128_arcs : List ℕ → Bytes
unfolding base128
base128_arcs [] = []
base128_arcs (arc ∷ arcs) = base128 10 false arc ++ base128_arcs arcs

-- encoding/asn1 makeObjectIdentifier
unfoldable pub marshal_object_identifier : List ℕ → Result Bytes
unfolding base128 base128_arcs
marshal_object_identifier (a ∷ b ∷ arcs) =
    if ltb 2 a || (ltb a 2 && leb 40 b)
    then err (encoding_error (ascii "invalid object identifier"))
    else ok (base128 10 false (a * 40 + b) ++ base128_arcs arcs)
marshal_object_identifier _ = err (encoding_error (ascii "invalid object identifier"))

module _ {Tlv : Type 0} (lib : Bertlv Tlv) where
  -- oidValue. A value of 2^16 bytes or more does not fit the two length bytes: what is decoded
  -- then has trailing bytes, or is not decoded at all.
  unfoldable pub oid_value : Tlv → Result (List ℕ)
  unfolding parse_object_identifier
  oid_value tlv =
      if ltb (length (lib.value tlv)) 65536
      then parse_object_identifier (lib.value tlv)
      else err (encoding_error (ascii "trailing OBJECT IDENTIFIER data"))

  -- encoding/asn1 appendLength, the bytes after the first
  unfoldable pub length_octets : ℕ → ℕ → Bytes
  length_octets zero n = []
  length_octets (suc rounds) n =
      let high = length_octets rounds (n / 256) in
      if ltb n 256 then n ∷ [] else high ++ (n % 256) ∷ []

  -- The length of a definite form. Eight bytes are enough for the length of a slice.
  unfoldable pub der_length : ℕ → Bytes
  unfolding length_octets
  der_length n =
      let octets = length_octets 8 n in if ltb n 128 then n ∷ [] else (128 + length octets) ∷ octets

  -- oidTLV
  unfoldable pub oid_tlv : Tag → List ℕ → Result Tlv
  unfolding marshal_object_identifier der_length
  oid_tlv wanted oid = on_ok (marshal_object_identifier oid) λ body.
      on_ok (parse_tlv lib (6 ∷ (der_length (length body) ++ body))) λ tlv.
        on_ok (expect_tag lib tlv (universal_primitive 6))
          (λ _. ok (octet_tlv lib wanted (lib.value tlv)))
