-- ===== src/Asn1/Result/Decode.antt =====
-- asn1/result.go: decoding of eUICC package results. In the records of results a nil slice and an
-- empty one are one value, as nothing that reads them tells the two apart.
use openiotrsp.Asn1.Result.{
  EuiccPackageResult, EuiccPackageErrorDataSigned, kind_error_unsigned, kind_ok, kind_error_signed,
}
use openiotrsp.Asn1.Result.{EuiccPackageResultSigned}
use openiotrsp.Asn1.Result.{EuiccPackageResultDataSigned}
use openiotrsp.Asn1.Result.{EuiccResultData}
use openiotrsp.Asn1.Result.{EuiccPackageErrorSigned}
use openiotrsp.Asn1.Result.{EuiccPackageErrorUnsigned}
use openiotrsp.Common.{
  Bool, ◌&&◌, ◌||◌, Option, none, some, List, [], ◌∷◌, map, leb, if◌then◌else◌, ◌==◌, ascii, eq_nat,
  eq_bytes, on_ok, encoding_error, Result, ok, err,
}
use openiotrsp.Prelude.Fallible.{◌>>=◌, ◌>>◌, optional, required}
use openiotrsp.Asn1.Codec.{
  unexpected_tag, has_tag, expect_tag, integer_value, octet_value, utf8_value, value_or_nil,
  is_present, sole_child,
}
use openiotrsp.Asn1.Tlv.{
  Bertlv, eq_tag, context_primitive, context_constructed, tag_sequence, tag_integer, tag_signature,
  tag_euicc_pkg, tag_profile_info_list, tag_set_default_dp_address, class_eq, context_specific,
}

module _ {Tlv : Type 0} (lib : Bertlv Tlv) where
  -- isEuiccResultDataTLV
  unfoldable pub is_euicc_result_data_tlv : Tlv → Bool
  is_euicc_result_data_tlv tlv =
      let tag = lib.tag tlv in
      tag == tag_profile_info_list
      || tag == tag_set_default_dp_address
      || (class_eq tag.class context_specific && (leb 3 tag.number && leb tag.number 15))

  -- `tlv.Children[len(tlv.Children)-1]`
  unfoldable pub last_child : List Tlv → Option Tlv
  last_child [] = none
  last_child (child ∷ []) = some child
  last_child (_ ∷ child ∷ rest) = last_child (child ∷ rest)

  abbrev pub raw_result : Tlv → EuiccResultData Tlv
  raw_result tlv = some tlv

  -- The results at the end of the signed data.
  unfoldable pub results_of : Tlv → Result (List (EuiccResultData Tlv))
  unfolding is_euicc_result_data_tlv
  results_of result_list =
      if has_tag lib result_list tag_sequence
      then ok (map raw_result (lib.children result_list))
      else if is_euicc_result_data_tlv result_list
      then ok (raw_result result_list ∷ [])
      else err unexpected_tag

  -- EuiccPackageResultDataSigned.UnmarshalBERTLV
  unfoldable pub unmarshal_result_data_signed : Tlv → Result (EuiccPackageResultDataSigned Tlv)
  unfolding last_child results_of
  unmarshal_result_data_signed tlv = do
    expect_tag lib tlv tag_sequence
    eim_id ← utf8_value lib (lib.first tlv (context_primitive 0))
    counter ← integer_value lib (lib.first tlv (context_primitive 1))
    sequence ← integer_value lib (lib.first tlv (context_primitive 3))
    results ←
        required (encoding_error (ascii "EuiccPackageResultDataSigned is empty")) results_of
          (last_child (lib.children tlv))
    ok (record {
      eim_id = eim_id;
      counter_value = counter;
      eim_transaction_id = value_or_nil lib (lib.first tlv (context_primitive 2));
      seq_number = sequence;
      results = results;
    })

  -- `len(tlv.Children) < 2`, and the first child
  abbrev pub first_of_two : Tlv → Result Tlv
  first_of_two tlv = elim (lib.children tlv) [
    | [] ↦ err (encoding_error (ascii "requires data and signature"))
    | child ∷ rest ↦ elim rest [
      | [] ↦ err (encoding_error (ascii "requires data and signature"))
      | _ ∷ _ ↦ ok child
    ]
  ]

  -- EuiccPackageResultSigned.UnmarshalBERTLV
  unfoldable pub unmarshal_result_signed : Tlv → Result (EuiccPackageResultSigned Tlv)
  unfolding unmarshal_result_data_signed
  unmarshal_result_signed tlv = do
    expect_tag lib tlv tag_sequence
    head ← first_of_two tlv
    found ← unmarshal_result_data_signed head
    signature ← octet_value lib (lib.first tlv tag_signature)
    ok (record { result_data = found; euicc_sign_epr = signature })

  -- EuiccPackageErrorDataSigned.UnmarshalBERTLV
  unfoldable pub unmarshal_error_data_signed : Tlv → Result EuiccPackageErrorDataSigned
  unmarshal_error_data_signed tlv = do
    expect_tag lib tlv tag_sequence
    eim_id ← utf8_value lib (lib.first tlv (context_primitive 0))
    counter ← integer_value lib (lib.first tlv (context_primitive 1))
    code ← integer_value lib (lib.first tlv tag_integer)
    ok (record {
      eim_id = eim_id;
      counter_value = counter;
      eim_transaction_id = value_or_nil lib (lib.first tlv (context_primitive 2));
      error_code = code;
    })

  -- EuiccPackageErrorSigned.UnmarshalBERTLV
  unfoldable pub unmarshal_error_signed : Tlv → Result EuiccPackageErrorSigned
  unfolding unmarshal_error_data_signed
  unmarshal_error_signed tlv = do
    expect_tag lib tlv tag_sequence
    head ← first_of_two tlv
    found ← unmarshal_error_data_signed head
    signature ← octet_value lib (lib.first tlv tag_signature)
    ok (record { error_data = found; euicc_sign_epe = signature })

  -- isEuiccPackageUnsignedErrorCodeTLV
  abbrev pub is_unsigned_error_code : Tlv → Bool
  is_unsigned_error_code tlv = has_tag lib tlv tag_integer || has_tag lib tlv (context_primitive 15)

  -- EuiccPackageErrorUnsigned.UnmarshalBERTLV, for a sequence
  unfoldable pub unmarshal_error_fields : Tlv → Result EuiccPackageErrorUnsigned
  unmarshal_error_fields tlv = do
    expect_tag lib tlv tag_sequence
    token ← optional lib.unmarshal_int (lib.first tlv (context_primitive 4))
    code ← optional lib.unmarshal_int (lib.first tlv (context_primitive 15))
    ok (record {
      eim_id = value_or_nil lib (lib.first tlv (context_primitive 0));
      eim_transaction_id = value_or_nil lib (lib.first tlv (context_primitive 2));
      association_token = token;
      error_code = code;
    })

  -- EuiccPackageErrorUnsigned.UnmarshalBERTLV
  unfoldable pub unmarshal_error_unsigned : Tlv → Result EuiccPackageErrorUnsigned
  unfolding unmarshal_error_fields
  unmarshal_error_unsigned tlv =
      if is_unsigned_error_code tlv
      then on_ok (lib.unmarshal_int tlv) (λ code. ok (record {
        eim_id = [];
        eim_transaction_id = [];
        association_token = none;
        error_code = some code;
      }))
      else unmarshal_error_fields (
          if has_tag lib tlv (context_constructed 2)
          then lib.new_children tag_sequence (lib.children tlv)
          else tlv)

  -- unwrapEuiccPackageResultChoice
  unfoldable pub unwrap_result_choice : Tlv → Tlv
  unwrap_result_choice tlv =
      if has_tag lib tlv (context_constructed 0)
        || has_tag lib tlv (context_constructed 1)
        || has_tag lib tlv (context_constructed 2)
      then lib.new_children tag_sequence (lib.children tlv)
      else tlv

  -- The signed half of EuiccPackageResult.UnmarshalBERTLV, from the child and its first child.
  unfoldable pub unmarshal_signed_choice : Tlv → Tlv → Result (EuiccPackageResult Tlv)
  unfolding unmarshal_result_signed unmarshal_error_signed
  unmarshal_signed_choice child head =
      if is_present lib (lib.first head (context_primitive 3))
      then on_ok (unmarshal_result_signed child) (λ found. ok (record {
        kind = kind_ok;
        signed = some found;
        error_signed = none;
        error_unsigned = none;
      }))
      else on_ok (unmarshal_error_signed child) (λ found. ok (record {
        kind = kind_error_signed;
        signed = none;
        error_signed = some found;
        error_unsigned = none;
      }))

  unfoldable pub unmarshal_result_choice : Tlv → Result (EuiccPackageResult Tlv)
  unfolding unmarshal_signed_choice unmarshal_error_unsigned
  unmarshal_result_choice child =
      if is_present lib (lib.first child tag_signature)
      then (elim (lib.children child) [
        | [] ↦ err (encoding_error (ascii "signed EuiccPackageResult child is empty"))
        | head ∷ _ ↦ unmarshal_signed_choice child head
      ])
      else on_ok (unmarshal_error_unsigned child) (λ found. ok (record {
        kind = kind_error_unsigned;
        signed = none;
        error_signed = none;
        error_unsigned = some found;
      }))

  -- EuiccPackageResult.UnmarshalBERTLV
  unfoldable pub unmarshal_package_result : Tlv → Result (EuiccPackageResult Tlv)
  unfolding unwrap_result_choice unmarshal_result_choice
  unmarshal_package_result tlv = do
    expect_tag lib tlv tag_euicc_pkg
    child ← sole_child lib tlv
    unmarshal_result_choice (unwrap_result_choice child)
