-- ===== src/Asn1/Result/Values.antt =====
-- asn1/result.go: decoding of the values inside package results.
use openiotrsp.EuiccPkg.Outcome.{TlvApi}
use openiotrsp.Asn1.Result.{ListEimResult}
use openiotrsp.Asn1.Result.{DecodedProfile}
use openiotrsp.Asn1.Result.{EuiccResultData}
use openiotrsp.Asn1.Result.{EimIdInfo}
use openiotrsp.Asn1.Result.{ProfileInfoListResponse}
use openiotrsp.Asn1.Result.{AddEimResult}
use openiotrsp.Common.{
  ℕ, false, ◌||◌, Option, none, some, List, [], ◌∷◌, if◌then◌else◌, ascii, eq_nat, eq_bytes, Int64,
  on_ok, encoding_error, Result, ok, err,
}
use openiotrsp.Prelude.Fallible.{◌>>=◌, ◌>>◌, optional, each, required}
use openiotrsp.Asn1.Codec.{
  unexpected_tag, has_tag, expect_tag, octet_tlv, utf8_value, value_or_nil, sole_child,
  field_result,
}
use openiotrsp.Asn1.Tlv.{
  Tag, Bertlv, eq_tag, context_primitive, context_constructed, tag_sequence, tag_integer, tag_eid,
  tag_profile_info_list, tag_profile_info, tag_profile_state, tag_fallback_attribute,
  tag_set_default_dp_address, class_eq, context_specific,
}

module _ {Tlv : Type 0} (lib : Bertlv Tlv) where
  -- ProfileInfo.UnmarshalBERTLV
  unfoldable pub unmarshal_profile_info : Tlv → Result DecodedProfile
  unmarshal_profile_info tlv = do
    expect_tag lib tlv tag_profile_info
    state ← optional lib.unmarshal_int (lib.first tlv tag_profile_state)
    fallback ← optional lib.unmarshal_bool (lib.first tlv tag_fallback_attribute)
    ok (record {
      iccid = value_or_nil lib (lib.first tlv tag_eid);
      profile_state = state;
      fallback_attribute = elim fallback [ none ↦ false | some value ↦ value ];
    })

  -- unwrapProfileInfoListOk
  unfoldable pub unwrap_profile_info_list_ok : Tlv → Tlv
  unwrap_profile_info_list_ok tlv =
      if has_tag lib tlv (context_constructed 0)
      then lib.new_children tag_sequence (lib.children tlv)
      else tlv

  -- `len(tlv.Children) == 1 && hasTag(tlv.Children[0], tagInteger)`, and that child
  abbrev pub sole_integer_child : List Tlv → Option Tlv
  sole_integer_child (child ∷ []) = if has_tag lib child tag_integer then some child else none
  sole_integer_child _ = none

  -- profileInfoListErrorTLV
  unfoldable pub profile_info_list_error_tlv : Tlv → Option Tlv
  profile_info_list_error_tlv tlv =
      if has_tag lib tlv tag_integer || has_tag lib tlv (context_primitive 1)
      then some tlv
      else if has_tag lib tlv (context_constructed 1)
      then sole_integer_child (lib.children tlv)
      else none

  unfoldable pub unmarshal_profiles : Tlv → Result ProfileInfoListResponse
  unfolding unmarshal_profile_info
  unmarshal_profiles tlv = do
    expect_tag lib tlv tag_sequence
    found ← each unmarshal_profile_info (lib.children tlv)
    ok (record { profiles = found; list_error = none })

  -- ProfileInfoListResponse.UnmarshalBERTLV
  unfoldable pub unmarshal_profile_info_list : Tlv → Result ProfileInfoListResponse
  unfolding profile_info_list_error_tlv unwrap_profile_info_list_ok unmarshal_profiles
  unmarshal_profile_info_list tlv = do
    expect_tag lib tlv tag_profile_info_list
    child ← sole_child lib tlv
    elim (profile_info_list_error_tlv child) [
      | some code ↦
          on_ok (lib.unmarshal_int code)
            (λ value. ok (record { profiles = []; list_error = some value }))
      | none ↦ unmarshal_profiles (unwrap_profile_info_list_ok child)
    ]

  -- AddEimResult
  unfoldable pub marshal_add_eim_result : AddEimResult → Result Tlv
  marshal_add_eim_result r = elim r.association_token [
    | some token ↦ lib.marshal_int (context_primitive 4) token
    | none ↦
        required (encoding_error (ascii "AddEimResult requires association token or code"))
          (lib.marshal_int tag_integer) r.code
  ]

  unfoldable pub unmarshal_add_eim_result : Tlv → Result AddEimResult
  unmarshal_add_eim_result tlv =
      if has_tag lib tlv (context_primitive 4)
      then on_ok (lib.unmarshal_int tlv)
          (λ value. ok (record { association_token = some value; code = none }))
      else if has_tag lib tlv tag_integer
      then on_ok (lib.unmarshal_int tlv)
          (λ value. ok (record { association_token = none; code = some value }))
      else err unexpected_tag

  -- EimIDInfo
  unfoldable pub marshal_eim_id_info : EimIdInfo → Result Tlv
  marshal_eim_id_info i = do
    kind ← field_result (lib.marshal_int (context_primitive 2)) i.eim_id_type
    ok (lib.new_children tag_sequence (octet_tlv lib (context_primitive 0) i.eim_id ∷ kind))

  unfoldable pub unmarshal_eim_id_info : Tlv → Result EimIdInfo
  unmarshal_eim_id_info tlv = do
    expect_tag lib tlv tag_sequence
    eim_id ← utf8_value lib (lib.first tlv (context_primitive 0))
    kind ← optional lib.unmarshal_int (lib.first tlv (context_primitive 2))
    ok (record { eim_id = eim_id; eim_id_type = kind })

  -- ListEimResult
  unfoldable pub marshal_list_eim_result : ListEimResult → Result Tlv
  unfolding marshal_eim_id_info
  marshal_list_eim_result r = elim r.list_error [
    | some code ↦ lib.marshal_int tag_integer code
    | none ↦
        on_ok (each marshal_eim_id_info r.eim_id_list)
          (λ children. ok (lib.new_children tag_sequence children))
  ]

  unfoldable pub unmarshal_list_eim_result : Tlv → Result ListEimResult
  unfolding unmarshal_eim_id_info
  unmarshal_list_eim_result tlv =
      if has_tag lib tlv tag_integer
      then on_ok (lib.unmarshal_int tlv)
          (λ value. ok (record { eim_id_list = []; list_error = some value }))
      else on_ok (expect_tag lib tlv tag_sequence) (λ _.
        on_ok (each unmarshal_eim_id_info (lib.children tlv))
          (λ found. ok (record { eim_id_list = found; list_error = none })))

  -- SetDefaultDPAddressResponse
  unfoldable pub marshal_set_default_dp_address_response : Int64 → Result Tlv
  marshal_set_default_dp_address_response value =
      on_ok (lib.marshal_int tag_integer value)
        (λ child. ok (lib.new_children tag_set_default_dp_address (child ∷ [])))

  unfoldable pub unmarshal_set_default_dp_address_response : Tlv → Result Int64
  unmarshal_set_default_dp_address_response tlv = do
    expect_tag lib tlv tag_set_default_dp_address
    child ← sole_child lib tlv
    lib.unmarshal_int child

  -- IntegerEuiccResult
  unfoldable pub integer_euicc_result : ℕ → Int64 → Result (EuiccResultData Tlv)
  integer_euicc_result number value =
      on_ok (lib.marshal_int (context_primitive number) value) (λ raw. ok (some raw))

  -- explicitEuiccResult, from the object that the value marshals to
  abbrev pub explicit_euicc_result : Tag → Result Tlv → Result (EuiccResultData Tlv)
  explicit_euicc_result wanted marshaled =
      on_ok marshaled (λ child. ok (some (lib.new_children wanted (child ∷ []))))

  -- AddEimEuiccResult
  unfoldable pub add_eim_euicc_result : AddEimResult → Result (EuiccResultData Tlv)
  unfolding marshal_add_eim_result
  add_eim_euicc_result r = explicit_euicc_result (context_constructed 8) (marshal_add_eim_result r)

  -- ListEimEuiccResult
  unfoldable pub list_eim_euicc_result : ListEimResult → Result (EuiccResultData Tlv)
  unfolding marshal_list_eim_result
  list_eim_euicc_result r =
      explicit_euicc_result (context_constructed 11) (marshal_list_eim_result r)

  -- SetDefaultDPAddressEuiccResult
  unfoldable pub set_default_dp_address_euicc_result : Int64 → Result (EuiccResultData Tlv)
  unfolding marshal_set_default_dp_address_response
  set_default_dp_address_euicc_result value =
      on_ok (marshal_set_default_dp_address_response value) (λ raw. ok (some raw))

  -- The operations on objects that the parser of the domain results uses.
  unfoldable pub result_objects : TlvApi Tlv
  unfolding class_eq unmarshal_profile_info_list unmarshal_set_default_dp_address_response
      unmarshal_add_eim_result unmarshal_list_eim_result
  result_objects = record {
    is_context_specific = λ tlv. class_eq (lib.tag tlv).class context_specific;
    tag_value = λ tlv. (lib.tag tlv).number;
    is_universal_integer = λ tlv. has_tag lib tlv tag_integer;
    children = lib.children;
    read_integer = lib.unmarshal_int;
    read_profile_list = unmarshal_profile_info_list;
    read_set_default_dp = unmarshal_set_default_dp_address_response;
    read_add_eim = unmarshal_add_eim_result;
    read_list_eim = unmarshal_list_eim_result;
  }
