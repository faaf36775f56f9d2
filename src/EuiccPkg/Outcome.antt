-- ===== src/EuiccPkg/Outcome.antt =====
-- euiccpkg/service.go: the tables of result codes, and the domain result of one operation.
pub mod Parse
pub mod Codes
pub mod Claims
pub mod Sources
pub mod PsmoClaims
pub mod EcoClaims
pub mod Agreement
use openiotrsp.Common.{
  ℕ, ◌-◌, ◌/◌, Bool, true, false, not, none, some, List, [], ◌∷◌, arith, if◌then◌else◌, ◌==◌,
  eq_nat, eq_bytes, bytes_eq, Int64, Result, ◌>>=◌, ◌>>◌,
}
use openiotrsp.Asn1.Result.{DecodedProfile, ProfileInfoListResponse, AddEimResult, ListEimResult}
use openiotrsp.EuiccPkg.Operation.{
  OperationKind, no_operation, enable, disable, delete_profile, list_profile_info,
  configure_immediate_enable, set_fallback_attribute, unset_fallback_attribute,
  set_default_dp_address,
}
use openiotrsp.EuiccPkg.Result.{
  PackageResult, ProfileInfo, ResultCode, EcoResultCode, PackageError, UnsignedPackageError,
}
use openiotrsp.EuiccPkg.Result.{
  no_result, result_ok, iccid_or_aid_not_found, profile_not_in_disabled_state,
  profile_not_in_enabled_state, disallowed_by_policy, cat_busy, insufficient_memory, command_error,
  incorrect_input_values, profile_change_ongoing, rollback_not_available, return_fallback_profile,
  fallback_not_allowed, fallback_profile_enabled, no_fallback_attribute, undefined_error,
  unknown_result,
}
use openiotrsp.EuiccPkg.Result.{
  no_eco, eco_ok, eco_insufficient_memory, eco_associated_eim_already_exists, eco_ci_pk_unknown,
  eco_invalid_association_token, eco_counter_value_out_of_range, eco_command_error,
  eco_eim_not_found, eco_last_eim_deleted, eco_undefined_error, eco_unknown_result,
}
use openiotrsp.EuiccPkg.Result.{
  no_package_error, package_invalid_eid, package_replay, package_counter_out_of_range,
  package_size_overflow, package_ecall_active, package_undefined, package_unknown,
  no_unsigned_error, unsigned_size_overflow, unsigned_undefined, unsigned_unknown,
}
use openiotrsp.EuiccPkg.State.{hex_encode}

-- The switch of mapOperationResult, for a value that is not 0.
unfoldable pub map_failure : OperationKind → Int64 → ResultCode
map_failure enable value =
    if value == 1
    then iccid_or_aid_not_found
    else if value == 2
    then profile_not_in_disabled_state
    else if value == 3
    then disallowed_by_policy
    else if value == 5
    then cat_busy
    else if value == 20
    then rollback_not_available
    else if value == 127
    then undefined_error
    else unknown_result
map_failure disable value =
    if value == 1
    then iccid_or_aid_not_found
    else if value == 2
    then profile_not_in_enabled_state
    else if value == 3
    then disallowed_by_policy
    else if value == 5
    then cat_busy
    else if value == 127
    then undefined_error
    else unknown_result
map_failure delete_profile value =
    if value == 1
    then iccid_or_aid_not_found
    else if value == 2
    then profile_not_in_disabled_state
    else if value == 3
    then disallowed_by_policy
    else if value == 20
    then rollback_not_available
    else if value == 21
    then return_fallback_profile
    else if value == 127
    then undefined_error
    else unknown_result
map_failure list_profile_info value =
    if value == 1
    then incorrect_input_values
    else if value == 11
    then profile_change_ongoing
    else if value == 127
    then undefined_error
    else unknown_result
map_failure configure_immediate_enable value =
    if value == 1
    then insufficient_memory
    else if value == 7
    then command_error
    else if value == 127
    then undefined_error
    else unknown_result
map_failure set_fallback_attribute value =
    if value == 1
    then iccid_or_aid_not_found
    else if value == 2
    then fallback_not_allowed
    else if value == 3
    then fallback_profile_enabled
    else if value == 127
    then undefined_error
    else unknown_result
map_failure unset_fallback_attribute value =
    if value == 2
    then no_fallback_attribute
    else if value == 3
    then fallback_profile_enabled
    else if value == 7
    then command_error
    else if value == 127
    then undefined_error
    else unknown_result
map_failure set_default_dp_address value = if value == 127 then undefined_error else unknown_result
map_failure _ value = unknown_result

-- mapOperationResult
unfoldable pub map_operation_result : OperationKind → Int64 → ResultCode
unfolding map_failure
map_operation_result operation value = if value == 0 then result_ok else map_failure operation value

-- mapAddEIMResult
unfoldable pub map_add_eim_result : Int64 → EcoResultCode
map_add_eim_result value =
    if value == 0
    then eco_ok
    else if value == 1
    then eco_insufficient_memory
    else if value == 2
    then eco_associated_eim_already_exists
    else if value == 3
    then eco_ci_pk_unknown
    else if value == 5
    then eco_invalid_association_token
    else if value == 6
    then eco_counter_value_out_of_range
    else if value == 7
    then eco_command_error
    else if value == 127
    then eco_undefined_error
    else eco_unknown_result

-- mapDeleteEIMResult
unfoldable pub map_delete_eim_result : Int64 → EcoResultCode
map_delete_eim_result value =
    if value == 0
    then eco_ok
    else if value == 1
    then eco_eim_not_found
    else if value == 2
    then eco_last_eim_deleted
    else if value == 7
    then eco_command_error
    else if value == 127
    then eco_undefined_error
    else eco_unknown_result

-- mapUpdateEIMResult
unfoldable pub map_update_eim_result : Int64 → EcoResultCode
map_update_eim_result value =
    if value == 0
    then eco_ok
    else if value == 1
    then eco_eim_not_found
    else if value == 3
    then eco_ci_pk_unknown
    else if value == 6
    then eco_counter_value_out_of_range
    else if value == 7
    then eco_command_error
    else if value == 127
    then eco_undefined_error
    else eco_unknown_result

-- mapListEIMResult
unfoldable pub map_list_eim_result : Int64 → EcoResultCode
map_list_eim_result value = if value == 127 then eco_undefined_error else eco_unknown_result

-- mapPackageError
unfoldable pub map_package_error : Int64 → PackageError
map_package_error value =
    if value == 3
    then package_invalid_eid
    else if value == 4
    then package_replay
    else if value == 6
    then package_counter_out_of_range
    else if value == 15
    then package_size_overflow
    else if value == 104
    then package_ecall_active
    else if value == 127
    then package_undefined
    else package_unknown

-- mapUnsignedPackageError
unfoldable pub map_unsigned_package_error : Int64 → UnsignedPackageError
map_unsigned_package_error value =
    if value == 15
    then unsigned_size_overflow
    else if value == 127
    then unsigned_undefined
    else unsigned_unknown

-- What the code asks of a TLV object of the bertlv library, and the decoders of asn1 that it calls.
pub record TlvApi (Tlv : Type 0) : Type 0 where
  pub is_context_specific : Tlv → Bool
  pub tag_value : Tlv → ℕ
  pub is_universal_integer : Tlv → Bool
  pub children : Tlv → List Tlv
  pub read_integer : Tlv → Result Int64
  pub read_profile_list : Tlv → Result ProfileInfoListResponse
  pub read_set_default_dp : Tlv → Result Int64
  pub read_add_eim : Tlv → Result AddEimResult
  pub read_list_eim : Tlv → Result ListEimResult

module _ {Tlv : Type 0} where
  -- `Result{}`
  abbrev pub zero_result : PackageResult Tlv
  zero_result = record {
    succeeded = false;
    operation = no_operation;
    result_code = no_result;
    eco_result_code = no_eco;
    raw_result_code = 0;
    add_eim_association_token = none;
    last_eim_deleted = false;
    eims = [];
    profiles = [];
    rules_authorisation_table = none;
    package_error = no_package_error;
    raw_package_error = 0;
    unsigned_package_error = no_unsigned_error;
    raw_unsigned_error = 0;
  }

-- `code == ResultOK`
unfoldable pub is_result_ok : ResultCode → Bool
is_result_ok result_ok = true
is_result_ok _ = false

unfoldable pub is_eco_ok : EcoResultCode → Bool
is_eco_ok eco_ok = true
is_eco_ok _ = false

unfoldable pub is_last_eim_deleted : EcoResultCode → Bool
is_last_eim_deleted eco_last_eim_deleted = true
is_last_eim_deleted _ = false

-- The loop of listProfileInfoResult.
unfoldable pub profile_infos : List DecodedProfile → List ProfileInfo
unfolding hex_encode
profile_infos [] = []
profile_infos (profile ∷ profiles) =
    let enabled : Bool = elim profile.profile_state [ none ↦ false | some state ↦ state == 1 ] in
    if bytes_eq profile.iccid []
    then profile_infos profiles
    else record {
      iccid = hex_encode profile.iccid;
      is_enabled = enabled;
      is_fallback = profile.fallback_attribute;
    }
      ∷ profile_infos profiles
