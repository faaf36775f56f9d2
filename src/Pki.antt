-- ===== src/Pki.antt =====
-- pki/eid.go and pki/subject_key_id.go: what is read off an eUICC's certificates.
pub mod Hex
use openiotrsp.Asn1.Codec.{first_some}
use mathlib.Core.List.{reverse}
use openiotrsp.Common.{
  ℕ, zero, suc, ◌+◌, ◌-◌, ◌*◌, not, ◌&&◌, Option, none, some, List, [], ◌∷◌, map, leb,
  if◌then◌else◌, length, ◌==◌, Bytes, ascii, eq_nat, eq_bytes, bytes_eq, on_ok, invalid_input,
  encoding_error, Result, ok, err,
}

pub record Certificate : Type 0 where
  pub subject_serial_number : Bytes
  pub subject_key_id : Bytes
  pub raw_subject_public_key_info : Bytes

-- crypto/x509 and crypto/sha256
pub record X509 : Type 0 where
  pub parse_certificate : Bytes → Result Certificate
  pub sha256 : Bytes → Bytes

-- The encodings of the runes that unicode.IsSpace holds of.
abbrev pub space_runes : List Bytes
space_runes =
    (9 ∷ [])
    ∷ (10 ∷ [])
    ∷ (11 ∷ [])
    ∷ (12 ∷ [])
    ∷ (13 ∷ [])
    ∷ (32 ∷ [])
    ∷ (194 ∷ 133 ∷ [])
    ∷ (194 ∷ 160 ∷ [])
    ∷ (225 ∷ 154 ∷ 128 ∷ [])
    ∷ (226 ∷ 128 ∷ 128 ∷ [])
    ∷ (226 ∷ 128 ∷ 129 ∷ [])
    ∷ (226 ∷ 128 ∷ 130 ∷ [])
    ∷ (226 ∷ 128 ∷ 131 ∷ [])
    ∷ (226 ∷ 128 ∷ 132 ∷ [])
    ∷ (226 ∷ 128 ∷ 133 ∷ [])
    ∷ (226 ∷ 128 ∷ 134 ∷ [])
    ∷ (226 ∷ 128 ∷ 135 ∷ [])
    ∷ (226 ∷ 128 ∷ 136 ∷ [])
    ∷ (226 ∷ 128 ∷ 137 ∷ [])
    ∷ (226 ∷ 128 ∷ 138 ∷ [])
    ∷ (226 ∷ 128 ∷ 168 ∷ [])
    ∷ (226 ∷ 128 ∷ 169 ∷ [])
    ∷ (226 ∷ 128 ∷ 175 ∷ [])
    ∷ (226 ∷ 129 ∷ 159 ∷ [])
    ∷ (227 ∷ 128 ∷ 128 ∷ [])
    ∷ []

-- The rest of the bytes after a prefix.
unfoldable pub strip_prefix : Bytes → Bytes → Option Bytes
strip_prefix [] bytes = some bytes
strip_prefix (p ∷ prefix) [] = none
strip_prefix (p ∷ prefix) (b ∷ bytes) = if p == b then strip_prefix prefix bytes else none

-- Drops the prefixes of a list as long as there are any; a prefix takes a byte at least, so as many
-- rounds as there are bytes are enough.
unfoldable pub trim_prefixes : List Bytes → ℕ → Bytes → Bytes
unfolding strip_prefix
trim_prefixes prefixes zero bytes = bytes
trim_prefixes prefixes (suc rounds) bytes =
    elim (first_some (λ prefix. strip_prefix prefix bytes) prefixes) [
      | none ↦ bytes
      | some rest ↦ trim_prefixes prefixes rounds rest
    ]

-- strings.TrimSpace
unfoldable pub trim_space : Bytes → Bytes
unfolding trim_prefixes
trim_space bytes =
    let front = trim_prefixes space_runes (length bytes) bytes in
    reverse (trim_prefixes (map reverse space_runes) (length front) (reverse front))

-- The value of a hexadecimal digit, in either case.
unfoldable pub hex_value : ℕ → Option ℕ
hex_value c =
    if leb 48 c && leb c 57
    then some (c - 48)
    else if leb 97 c && leb c 102
    then some (c - 87)
    else if leb 65 c && leb c 70
    then some (c - 55)
    else none

-- hex.DecodeString
unfoldable pub hex_decode : Bytes → Result Bytes
hex_decode [] = ok []
hex_decode (c ∷ []) = err (encoding_error (ascii "odd length hex string"))
hex_decode (c ∷ d ∷ digits) =
    let rest = hex_decode digits in
    elim (hex_value c) [
      | none ↦ err (encoding_error (ascii "invalid byte"))
      | some high ↦ elim (hex_value d) [
        | none ↦ err (encoding_error (ascii "invalid byte"))
        | some low ↦ on_ok rest (λ bytes. ok ((high * 16 + low) ∷ bytes))
      ]
    ]

-- strings.ToLower, on ASCII
unfoldable pub to_lower : Bytes → Bytes
to_lower [] = []
to_lower (c ∷ cs) = (if leb 65 c && leb c 90 then c + 32 else c) ∷ to_lower cs

module _ (x509 : X509) where
  -- EIDHexFromCertificate
  unfoldable pub eid_hex_from_certificate : Bytes → Result Bytes
  unfolding trim_space hex_decode to_lower
  eid_hex_from_certificate der =
      if bytes_eq der []
      then err (invalid_input (ascii "missing eUICC certificate"))
      else on_ok (x509.parse_certificate der) λ cert.
        let eid = trim_space cert.subject_serial_number in
        if not (length eid == 32)
        then err (invalid_input (ascii "serialNumber is not a 32-digit EID"))
        else on_ok (hex_decode eid) (λ _. ok (to_lower eid))

  -- SubjectKeyIdentifier
  unfoldable pub subject_key_identifier : Bytes → Result Bytes
  subject_key_identifier der =
      if bytes_eq der []
      then err (invalid_input (ascii "missing certificate"))
      else on_ok (x509.parse_certificate der) λ cert.
        if not (bytes_eq cert.subject_key_id [])
        then ok cert.subject_key_id
        else ok (x509.sha256 cert.raw_subject_public_key_info)
