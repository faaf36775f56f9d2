-- ===== src/EuiccPkg/Outcome/Parse.antt =====
-- euiccpkg/service.go: the domain result of the one operation that a package carries.
use openiotrsp.Common.{
  ℕ, true, ◌&&◌, ◌||◌, Option, none, some, List, [], ◌∷◌, if◌then◌else◌, ◌==◌, ascii, eq_nat,
  eq_bytes, Int64, result_not_found, on_ok, invalid_input, Result, ok, err,
}
use openiotrsp.Asn1.Package.{EuiccPackage}
use openiotrsp.Asn1.Result.{
  EuiccResultData, ProfileInfoListResponse, AddEimResult, EimIdInfo, ListEimResult,
}
use openiotrsp.EuiccPkg.Operation.{
  OperationKind, no_operation, list_profile_info, get_rat, set_default_dp_address, add_eim,
  delete_eim, update_eim, list_eim, result_tag, package_psmo, package_eco,
}
use openiotrsp.EuiccPkg.Result.{PackageResult, EimInfo, result_ok, eco_ok}
use openiotrsp.EuiccPkg.Outcome.{
  TlvApi, zero_result, map_operation_result, map_add_eim_result, map_delete_eim_result,
  map_update_eim_result, map_list_eim_result, is_result_ok, is_eco_ok, is_last_eim_deleted,
  profile_infos,
}

-- The loop of listEIMResult.
unfoldable pub eim_infos : List EimIdInfo → List EimInfo
eim_infos [] = []
eim_infos (item ∷ items) =
    record { eim_id = item.eim_id; eim_id_type = item.eim_id_type } ∷ eim_infos items

module _ {Tlv : Type 0} (tlvs : TlvApi Tlv) where
  -- resultDataByTag
  unfoldable pub result_data_by_tag : List (EuiccResultData Tlv) → ℕ → Option Tlv
  result_data_by_tag [] tag = none
  result_data_by_tag (none ∷ results) tag = result_data_by_tag results tag
  result_data_by_tag (some raw ∷ results) tag =
      if tlvs.is_context_specific raw && (tlvs.tag_value raw == tag)
      then some raw
      else result_data_by_tag results tag

  -- The results of integer operations, from the value: integerOperationResult and
  -- setDefaultDPAddressResult.
  unfoldable pub integer_outcome : OperationKind → Int64 → PackageResult Tlv
  unfolding map_operation_result is_result_ok
  integer_outcome operation value =
      let code = map_operation_result operation value in
      record zero_result {
        succeeded = is_result_ok code;
        operation = operation;
        result_code = code;
        raw_result_code = value;
      }

  -- integerOperationResult
  unfoldable pub integer_operation_result : OperationKind → Tlv → Result (PackageResult Tlv)
  unfolding integer_outcome
  integer_operation_result operation raw =
      on_ok (tlvs.read_integer raw) (λ value. ok (integer_outcome operation value))

  -- setDefaultDPAddressResult
  unfoldable pub set_default_dp_address_result : Tlv → Result (PackageResult Tlv)
  unfolding integer_outcome
  set_default_dp_address_result raw =
      on_ok (tlvs.read_set_default_dp raw)
        (λ value. ok (integer_outcome set_default_dp_address value))

  unfoldable pub list_profile_outcome : ProfileInfoListResponse → PackageResult Tlv
  unfolding map_operation_result profile_infos
  list_profile_outcome decoded = elim decoded.list_error [
    | some value ↦ record zero_result {
      operation = list_profile_info;
      result_code = map_operation_result list_profile_info value;
      raw_result_code = value;
    }
    | none ↦ record zero_result {
      operation = list_profile_info;
      succeeded = true;
      result_code = result_ok;
      profiles = profile_infos decoded.profiles;
    }
  ]

  -- listProfileInfoResult
  unfoldable pub list_profile_info_result : Tlv → Result (PackageResult Tlv)
  unfolding list_profile_outcome
  list_profile_info_result raw =
      on_ok (tlvs.read_profile_list raw) (λ decoded. ok (list_profile_outcome decoded))

  -- The switch in the loop of psmoOperationResult.
  unfoldable pub tagged_result : OperationKind → Tlv → Result (PackageResult Tlv)
  unfolding list_profile_info_result set_default_dp_address_result integer_operation_result
  tagged_result list_profile_info raw = list_profile_info_result raw
  tagged_result get_rat raw = ok (record zero_result {
    succeeded = true;
    operation = get_rat;
    result_code = result_ok;
    rules_authorisation_table = some raw;
  })
  tagged_result set_default_dp_address raw = set_default_dp_address_result raw
  tagged_result operation raw = integer_operation_result operation raw

  unfoldable pub sole_integer : List (EuiccResultData Tlv) → Option Tlv
  sole_integer (some raw ∷ []) = if tlvs.is_universal_integer raw then some raw else none
  sole_integer _ = none

  -- baseTypeIntegerResult
  unfoldable pub base_type_integer_result : OperationKind → List (EuiccResultData Tlv) → Option Tlv
  unfolding sole_integer
  base_type_integer_result list_profile_info results = none
  base_type_integer_result get_rat results = none
  base_type_integer_result set_default_dp_address results = none
  base_type_integer_result _ results = sole_integer results

  -- psmoOperationResult
  unfoldable pub psmo_operation_result :
      OperationKind → List (EuiccResultData Tlv) → Result (PackageResult Tlv)
  unfolding result_data_by_tag result_tag tagged_result base_type_integer_result
      integer_operation_result
  psmo_operation_result operation results =
      elim (result_data_by_tag results (result_tag operation)) [
        | some raw ↦ tagged_result operation raw
        | none ↦ elim (base_type_integer_result operation results) [
          | some raw ↦ integer_operation_result operation raw
          | none ↦ err result_not_found
        ]
      ]

  -- explicitResultChild
  unfoldable pub only_child : List Tlv → Result Tlv
  only_child (child ∷ []) = ok child
  only_child _ = err (invalid_input (ascii "must contain one child"))

  unfoldable pub explicit_result_child : Tlv → ℕ → Result Tlv
  unfolding only_child
  explicit_result_child raw tag =
      if tlvs.is_context_specific raw && (tlvs.tag_value raw == tag)
      then only_child (tlvs.children raw)
      else err (invalid_input (ascii "result tag"))

  unfoldable pub add_eim_outcome : AddEimResult → Result (PackageResult Tlv)
  unfolding map_add_eim_result is_eco_ok
  add_eim_outcome decoded = elim decoded.association_token [
    | some token ↦ ok (record zero_result {
      operation = add_eim;
      succeeded = true;
      eco_result_code = eco_ok;
      add_eim_association_token = some token;
    })
    | none ↦ elim decoded.code [
      | none ↦ err (invalid_input (ascii "addEimResult has no selected value"))
      | some value ↦ ok (record zero_result {
        operation = add_eim;
        succeeded = is_eco_ok (map_add_eim_result value);
        eco_result_code = map_add_eim_result value;
        raw_result_code = value;
      })
    ]
  ]

  -- addEIMResult
  unfoldable pub add_eim_result : Tlv → Result (PackageResult Tlv)
  unfolding explicit_result_child add_eim_outcome
  add_eim_result raw =
      on_ok (explicit_result_child raw 8) λ child. on_ok (tlvs.read_add_eim child) add_eim_outcome

  unfoldable pub list_eim_outcome : ListEimResult → PackageResult Tlv
  unfolding map_list_eim_result eim_infos
  list_eim_outcome decoded = elim decoded.list_error [
    | some value ↦ record zero_result {
      operation = list_eim;
      eco_result_code = map_list_eim_result value;
      raw_result_code = value;
    }
    | none ↦ record zero_result {
      operation = list_eim;
      succeeded = true;
      eco_result_code = eco_ok;
      eims = eim_infos decoded.eim_id_list;
    }
  ]

  -- listEIMResult
  unfoldable pub list_eim_result : Tlv → Result (PackageResult Tlv)
  unfolding explicit_result_child list_eim_outcome
  list_eim_result raw =
      on_ok (explicit_result_child raw 11)
        λ child. on_ok (tlvs.read_list_eim child) (λ decoded. ok (list_eim_outcome decoded))

  unfoldable pub delete_eim_outcome : Int64 → PackageResult Tlv
  unfolding map_delete_eim_result is_eco_ok is_last_eim_deleted
  delete_eim_outcome value =
      let code = map_delete_eim_result value in
      record zero_result {
        succeeded = is_eco_ok code || is_last_eim_deleted code;
        operation = delete_eim;
        eco_result_code = code;
        raw_result_code = value;
        last_eim_deleted = is_last_eim_deleted code;
      }

  unfoldable pub update_eim_outcome : Int64 → PackageResult Tlv
  unfolding map_update_eim_result is_eco_ok
  update_eim_outcome value =
      let code = map_update_eim_result value in
      record zero_result {
        succeeded = is_eco_ok code;
        operation = update_eim;
        eco_result_code = code;
        raw_result_code = value;
      }

  -- The switch of ecoOperationResult.
  unfoldable pub eco_tagged_result : OperationKind → Tlv → Result (PackageResult Tlv)
  unfolding add_eim_result delete_eim_outcome update_eim_outcome list_eim_result
  eco_tagged_result add_eim raw = add_eim_result raw
  eco_tagged_result delete_eim raw =
      on_ok (tlvs.read_integer raw) (λ value. ok (delete_eim_outcome value))
  eco_tagged_result update_eim raw =
      on_ok (tlvs.read_integer raw) (λ value. ok (update_eim_outcome value))
  eco_tagged_result list_eim raw = list_eim_result raw
  eco_tagged_result _ raw = err (invalid_input (ascii "unsupported ECO operation"))

  -- ecoOperationResult
  unfoldable pub eco_operation_result :
      OperationKind → List (EuiccResultData Tlv) → Result (PackageResult Tlv)
  unfolding result_data_by_tag result_tag eco_tagged_result
  eco_operation_result operation results =
      elim (result_data_by_tag results (result_tag operation)) [
        | none ↦ err result_not_found
        | some raw ↦ eco_tagged_result operation raw
      ]

  -- operationResult, from the operation of the PSMO and that of the ECO
  unfoldable pub outcome_of :
      OperationKind → OperationKind → List (EuiccResultData Tlv) → Result (PackageResult Tlv)
  unfolding psmo_operation_result eco_operation_result
  outcome_of no_operation no_operation results =
      ok (record zero_result { succeeded = true; result_code = result_ok })
  outcome_of no_operation eco results = eco_operation_result eco results
  outcome_of psmo eco results = psmo_operation_result psmo results

  -- ParseOperationResult
  unfoldable pub operation_result :
      EuiccPackage Tlv → List (EuiccResultData Tlv) → Result (PackageResult Tlv)
  unfolding package_psmo package_eco outcome_of
  operation_result pkg results = outcome_of (package_psmo pkg).0 (package_eco pkg).0 results
