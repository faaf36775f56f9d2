-- ===== src/EuiccPkg/Outcome/Codes.antt =====
-- About the tables of result codes of euiccpkg/service.go.
use openiotrsp.Common.{◌≡◌, ◌≢◌, ◌↔◌, arith, eq_nat, eq_bytes, Int64}
use openiotrsp.EuiccPkg.Operation.{
  OperationKind, no_operation, enable, disable, delete_profile, list_profile_info, get_rat,
  configure_immediate_enable, set_fallback_attribute, unset_fallback_attribute,
  set_default_dp_address, add_eim, delete_eim, update_eim, list_eim,
}
use openiotrsp.EuiccPkg.Result.{result_ok, eco_ok, eco_last_eim_deleted}
use openiotrsp.EuiccPkg.Outcome.{
  map_failure, map_operation_result, map_add_eim_result, map_delete_eim_result,
  map_update_eim_result,
}

failure_not_ok :
    (operation : OperationKind) (value : Int64) → map_failure operation value ≢ result_ok
unfolding map_failure
failure_not_ok enable value = ground arith
failure_not_ok disable value = ground arith
failure_not_ok delete_profile value = ground arith
failure_not_ok list_profile_info value = ground arith
failure_not_ok configure_immediate_enable value = ground arith
failure_not_ok set_fallback_attribute value = ground arith
failure_not_ok unset_fallback_attribute value = ground arith
failure_not_ok set_default_dp_address value = ground arith
failure_not_ok no_operation value = ground arith
failure_not_ok get_rat value = ground arith
failure_not_ok add_eim value = ground arith
failure_not_ok delete_eim value = ground arith
failure_not_ok update_eim value = ground arith
failure_not_ok list_eim value = ground arith

-- The code tables claim success for the value 0 only: the table of the PSMO results for any
-- operation, and those of addEim, deleteEim and updateEim; deleteEim reports the last eIM's
-- removal for the value 2 only.
pub zero_is_ok :
    (operation : OperationKind) (value : Int64)
    → ((map_operation_result operation value ≡ result_ok) ↔ (value ≡ 0))
      × ((map_add_eim_result value ≡ eco_ok) ↔ (value ≡ 0))
      × ((map_delete_eim_result value ≡ eco_ok) ↔ (value ≡ 0))
      × ((map_delete_eim_result value ≡ eco_last_eim_deleted) ↔ (value ≡ 2))
      × ((map_update_eim_result value ≡ eco_ok) ↔ (value ≡ 0))
unfolding map_operation_result map_add_eim_result map_delete_eim_result map_update_eim_result
zero_is_ok operation value = (
  ground (arith, failure_not_ok operation value),
  ground arith,
  ground arith,
  ground arith,
  ground arith,
)
