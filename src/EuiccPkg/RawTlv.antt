-- ===== src/EuiccPkg/RawTlv.antt =====
-- euiccpkg/raw_tlv.go: the spans of BER-TLV objects in the bytes of a package result. A length is
-- below 2^32 and a slice is shorter than 2^63, so no `int` of this file wraps around and none is
-- negative: they are natural numbers here.
pub mod Spans
pub mod Fields
pub mod Extraction
use openiotrsp.Common.{
  ℕ, zero, suc, ◌+◌, ◌-◌, ◌*◌, ◌/◌, ◌%◌, ◌^◌, Bool, false, not, ◌&&◌, ◌||◌, Option, none, some,
  List, [], ◌∷◌, arith, ltb, leb, if◌then◌else◌, length, take, drop, ◌==◌, Bytes, ascii, eq_nat,
  eq_bytes, on_ok, invalid_input, Result, ok, err, ◌>>=◌, ◌>>◌,
}

-- `data[index]`, for an index in range
unfoldable pub byte_at : Bytes → ℕ → ℕ
byte_at [] index = 0
byte_at (b ∷ rest) zero = b
byte_at (b ∷ rest) (suc index) = byte_at rest index

-- `data[start:stop]`
abbrev pub slice : ℕ → ℕ → Bytes → Bytes
slice start stop bytes = take (stop - start) (drop start bytes)

pub record TlvSpan : Type 0 where
  pub tag_start : ℕ
  pub value_start : ℕ
  pub value_end : ℕ
  pub span_end : ℕ
  pub tag : Bytes

-- The loop over the bytes of a high tag number, from the bytes that are left and the offset.
unfoldable pub high_tag : Bytes → ℕ → Result ℕ
high_tag [] offset = err (invalid_input (ascii "truncated high-tag-number TLV"))
high_tag (b ∷ rest) offset =
    let later = high_tag rest (offset + 1) in if b / 128 % 2 == 0 then ok (offset + 1) else later

-- The loop over the length bytes.
unfoldable pub read_length : ℕ → Bytes → ℕ → ℕ
read_length zero rest length_value = length_value
read_length (suc n) [] length_value = length_value
read_length (suc n) (b ∷ rest) length_value = read_length n rest (length_value * 256 + b)

-- The end of the tag that starts at the offset.
unfoldable pub tag_end : Bytes → ℕ → Result ℕ
unfolding byte_at high_tag
tag_end bytes offset =
    if byte_at bytes offset % 32 == 31
    then high_tag (drop (offset + 1) bytes) (offset + 1)
    else ok (offset + 1)

-- The start of the value and its length, from the offset of the length byte.
unfoldable pub value_place : Bytes → ℕ → Result (ℕ × ℕ)
unfolding byte_at read_length
value_place bytes offset =
    let length_byte = byte_at bytes offset in
    let n = length_byte % 128 in
    if leb (length bytes) offset
    then err (invalid_input (ascii "missing TLV length"))
    else if ltb length_byte 128
    then ok (offset + 1, length_byte)
    else if length_byte == 128
    then err (invalid_input (ascii "indefinite-length TLV is not supported"))
    else if n == 0
    then err (invalid_input (ascii "invalid TLV length"))
    else if ltb 4 n
    then err (invalid_input (ascii "TLV length too large"))
    else if ltb (length bytes) (offset + 1 + n)
    then err (invalid_input (ascii "truncated TLV length"))
    else ok (offset + 1 + n, read_length n (drop (offset + 1) bytes) 0)

unfoldable pub span_at : Bytes → ℕ → ℕ → ℕ × ℕ → Result TlvSpan
span_at bytes offset tag_stop (value_start, n) =
    if ltb (length bytes) (value_start + n)
    then err (invalid_input (ascii "truncated TLV value"))
    else ok (record {
      tag_start = offset;
      value_start = value_start;
      value_end = value_start + n;
      span_end = value_start + n;
      tag = slice offset tag_stop bytes;
    })

-- parseTLVSpan
unfoldable pub parse_tlv_span : Bytes → ℕ → Result TlvSpan
unfolding tag_end value_place span_at
parse_tlv_span bytes offset =
    if leb (length bytes) offset
    then err (invalid_input (ascii "missing TLV"))
    else on_ok (tag_end bytes offset)
        λ tag_stop. on_ok (value_place bytes tag_stop) (span_at bytes offset tag_stop)

-- The loop of children. A child is not empty, so the bytes from the offset to the end of the
-- parent's value are fuel enough.
unfoldable pub child_loop : ℕ → Bytes → ℕ → ℕ → Result (List TlvSpan)
unfolding parse_tlv_span
child_loop zero bytes value_end offset = ok []
child_loop (suc fuel) bytes value_end offset =
    if leb value_end offset
    then ok []
    else on_ok (parse_tlv_span bytes offset) λ child.
      on_ok (child_loop fuel bytes value_end child.span_end) (λ later. ok (child ∷ later))

-- children
unfoldable pub child_spans : Bytes → TlvSpan → Result (List TlvSpan)
unfolding child_loop
child_spans bytes parent =
    child_loop (parent.value_end - parent.value_start) bytes parent.value_end parent.value_start

-- onlyChild
unfoldable pub only_child_span : Bytes → TlvSpan → Result TlvSpan
unfolding parse_tlv_span
only_child_span bytes parent = on_ok (parse_tlv_span bytes parent.value_start) λ child.
    if child.span_end == parent.value_end
    then ok child
    else err (invalid_input (ascii "expected exactly one selected result child"))

abbrev pub tag_is : TlvSpan → Bytes → Bool
tag_is span tag = span.tag == tag

-- signedDataPrefix, and the fields from its index on: what its callers look at.
unfoldable pub after_prefix : List TlvSpan → Option (List TlvSpan)
after_prefix (first ∷ second ∷ third ∷ rest) =
    if not (tag_is first (0x80 ∷ [])) || not (tag_is second (0x81 ∷ []))
    then none
    else if not (tag_is third (0x82 ∷ []))
    then some (third ∷ rest)
    else elim rest [ [] ↦ none | next ∷ later ↦ some (next ∷ later) ]
after_prefix _ = none

-- isPackageResultDataSigned, from the index on
unfoldable pub ends_with_results : Option (List TlvSpan) → Bool
ends_with_results (some (sequence ∷ results ∷ [])) =
    tag_is sequence (0x83 ∷ []) && tag_is results (0x30 ∷ [])
ends_with_results _ = false

-- isPackageErrorDataSigned, from the index on
unfoldable pub ends_with_code : Option (List TlvSpan) → Bool
ends_with_code (some (code ∷ [])) = tag_is code (0x02 ∷ [])
ends_with_code _ = false

-- validateResultSignedData
unfoldable pub validate_result_signed_data : Bytes → TlvSpan → Result (Unit {0})
unfolding child_spans after_prefix ends_with_results ends_with_code
validate_result_signed_data bytes signed_data =
    if not (tag_is signed_data (0x30 ∷ []))
    then err (invalid_input (ascii "signed result data must be a SEQUENCE"))
    else on_ok (child_spans bytes signed_data) λ fields.
      if ends_with_results (after_prefix fields) || ends_with_code (after_prefix fields)
      then ok tt
      else err (invalid_input (ascii "signed data is not a package result payload"))

-- The checks of the children of the selected choice; the last decides whether there is a signature.
unfoldable pub last_span : TlvSpan → List TlvSpan → TlvSpan
last_span span [] = span
last_span span (next ∷ later) = last_span next later

unfoldable pub signed_part : Bytes → List TlvSpan → Result Bytes
unfolding validate_result_signed_data last_span
signed_part bytes [] = err (invalid_input (ascii "signed result child is empty"))
signed_part bytes (first ∷ rest) =
    if not (tag_is (last_span first rest) (0x5f ∷ 0x37 ∷ []))
    then ok []
    else if not (length rest == 1)
    then err (invalid_input (ascii "signed result requires signed data and signature"))
    else on_ok (validate_result_signed_data bytes first)
        (λ _. ok (slice first.tag_start first.span_end bytes))

unfoldable pub selected_part : Bytes → TlvSpan → Result Bytes
unfolding signed_part child_spans
selected_part bytes selected =
    if tag_is selected (0xa2 ∷ [])
    then ok []
    else if not
        (tag_is selected (0x30 ∷ []) || tag_is selected (0xa0 ∷ []) || tag_is selected (0xa1 ∷ []))
    then ok []
    else on_ok (child_spans bytes selected) (signed_part bytes)

-- rawSignedDataFromResultDER
unfoldable pub raw_signed_data_from_result_der : Bytes → Result Bytes
unfolding parse_tlv_span only_child_span selected_part
raw_signed_data_from_result_der bytes = on_ok (parse_tlv_span bytes 0) λ root.
    if not (root.span_end == length bytes)
    then err (invalid_input (ascii "trailing data after eUICC package result"))
    else if not (tag_is root (0xbf ∷ 0x51 ∷ []))
    then err (invalid_input (ascii "result tag"))
    else on_ok (only_child_span bytes root) (selected_part bytes)
