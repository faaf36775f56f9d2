-- ===== src/Examples/Spans.antt =====
-- The theorems of the raw spans, on the bytes of a small signed package error.
use openiotrsp.Common.{◌≡◌, refl, [], ◌∷◌, ◌++◌, Bytes, eq_nat, eq_bytes, bytes_eq, ok}
use openiotrsp.EuiccPkg.RawTlv.{
  TlvSpan, byte_at, high_tag, read_length, tag_end, value_place, span_at, parse_tlv_span,
  child_loop, child_spans, only_child_span, after_prefix, ends_with_results, ends_with_code,
  validate_result_signed_data, last_span, signed_part, selected_part,
  raw_signed_data_from_result_der,
}
use openiotrsp.EuiccPkg.RawTlv.Spans.{InBounds, parse_tlv_span-InBounds, Tiles, child_spans-Tiles}
use openiotrsp.EuiccPkg.RawTlv.Extraction.{IsExtracted, raw_signed_data-IsExtracted}

-- The signed data: a SEQUENCE of [0], [1] and an INTEGER.
abbrev signed_sequence : Bytes
signed_sequence = 0x30 ∷ 9 ∷ 0x80 ∷ 1 ∷ 65 ∷ 0x81 ∷ 1 ∷ 4 ∷ 0x02 ∷ 1 ∷ 127 ∷ []

-- The result: BF51 around a choice of the signed data and a signature.
abbrev small_result : Bytes
small_result = 0xbf ∷ 0x51 ∷ 17 ∷ 0xa1 ∷ 15 ∷ signed_sequence ++ (0x5f ∷ 0x37 ∷ 1 ∷ 7 ∷ [])

abbrev small_root : TlvSpan
small_root = record {
  tag_start = 0;
  value_start = 3;
  value_end = 20;
  span_end = 20;
  tag = 0xbf ∷ 0x51 ∷ [];
}

parses_root : parse_tlv_span small_result 0 ≡ ok small_root
unfolding parse_tlv_span tag_end value_place span_at byte_at high_tag read_length
parses_root = refl

parse_tlv_span-InBounds_example : InBounds small_result 0 small_root
parse_tlv_span-InBounds_example = parse_tlv_span-InBounds small_result 0 small_root parses_root

abbrev small_choice : TlvSpan
small_choice = record {
  tag_start = 3;
  value_start = 5;
  value_end = 20;
  span_end = 20;
  tag = 0xa1 ∷ [];
}

parses_children : child_spans small_result small_root ≡ ok (small_choice ∷ [])
unfolding child_spans child_loop parse_tlv_span tag_end value_place span_at byte_at high_tag
    read_length
parses_children = refl

child_spans-Tiles_example : Tiles small_result 20 3 (small_choice ∷ [])
child_spans-Tiles_example =
    child_spans-Tiles small_result small_root (small_choice ∷ []) parses_children

extracts : raw_signed_data_from_result_der small_result ≡ ok signed_sequence
unfolding raw_signed_data_from_result_der selected_part signed_part last_span
    validate_result_signed_data after_prefix ends_with_results ends_with_code only_child_span
    child_spans child_loop parse_tlv_span tag_end value_place span_at byte_at high_tag read_length
    bytes_eq
extracts = refl

raw_signed_data-IsExtracted_example : IsExtracted small_result signed_sequence
raw_signed_data-IsExtracted_example =
    raw_signed_data-IsExtracted small_result signed_sequence extracts
