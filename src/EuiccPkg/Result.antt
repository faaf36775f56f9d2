-- ===== src/EuiccPkg/Result.antt =====
-- euiccpkg/service.go and euiccpkg/errors.go: the domain form of a package result.
use openiotrsp.Common.{Bool, Option, List, Bytes, eq_nat, eq_bytes, Int64}
use openiotrsp.EuiccPkg.Operation.{OperationKind}

-- The codes are strings; the first constructor of each type is the empty one.
pub data ResultCode : Type 0 where
  no_result result_ok iccid_or_aid_not_found profile_not_in_disabled_state : ResultCode
  profile_not_in_enabled_state disallowed_by_policy cat_busy insufficient_memory : ResultCode
  command_error incorrect_input_values profile_change_ongoing rollback_not_available : ResultCode
  return_fallback_profile fallback_not_allowed fallback_profile_enabled : ResultCode
  no_fallback_attribute undefined_error unknown_result : ResultCode

pub data EcoResultCode : Type 0 where
  no_eco eco_ok eco_insufficient_memory eco_associated_eim_already_exists : EcoResultCode
  eco_ci_pk_unknown eco_invalid_association_token eco_counter_value_out_of_range : EcoResultCode
  eco_command_error eco_eim_not_found eco_last_eim_deleted eco_undefined_error : EcoResultCode
  eco_unknown_result : EcoResultCode

pub data PackageError : Type 0 where
  no_package_error package_invalid_eid package_replay package_counter_out_of_range : PackageError
  package_size_overflow package_ecall_active package_undefined package_unknown : PackageError

pub data UnsignedPackageError : Type 0 where
  no_unsigned_error unsigned_size_overflow unsigned_undefined : UnsignedPackageError
  unsigned_missing unsigned_unknown : UnsignedPackageError

pub record EimInfo : Type 0 where
  pub eim_id : Bytes
  pub eim_id_type : Option Int64

pub record ProfileInfo : Type 0 where
  pub iccid : Bytes
  pub is_enabled : Bool
  pub is_fallback : Bool

pub record PackageResult (Tlv : Type 0) : Type 0 where
  pub succeeded : Bool
  pub operation : OperationKind
  pub result_code : ResultCode
  pub eco_result_code : EcoResultCode
  pub raw_result_code : Int64
  pub add_eim_association_token : Option Int64
  pub last_eim_deleted : Bool
  pub eims : List EimInfo
  pub profiles : List ProfileInfo
  pub rules_authorisation_table : Option Tlv
  pub package_error : PackageError
  pub raw_package_error : Int64
  pub unsigned_package_error : UnsignedPackageError
  pub raw_unsigned_error : Int64
