-- ===== src/EuiccPkg/Operation.antt =====
-- euiccpkg/operation.go: the one operation that a package carries.
use openiotrsp.Common.{ℕ, Option, none, some, List, [], ◌∷◌, Bytes, eq_nat, eq_bytes}
use openiotrsp.Asn1.Package.{
  EuiccPackage, Psmo, Eco, PsmoOperation, EcoOperation, EuiccPackageKind, kind_psmo, kind_eco,
}
use openiotrsp.Asn1.Package.{
  psmo_enable, psmo_disable, psmo_delete, psmo_list_profile_info, psmo_get_rat,
  psmo_configure_immediate_enable, psmo_set_fallback_attribute, psmo_unset_fallback_attribute,
  psmo_set_default_dp_address, psmo_unknown,
}
use openiotrsp.Asn1.Package.{eco_add_eim, eco_delete_eim, eco_update_eim, eco_list_eim, eco_unknown}

pub data OperationKind : Type 0 where
  no_operation enable disable delete_profile list_profile_info get_rat : OperationKind
  configure_immediate_enable set_fallback_attribute unset_fallback_attribute : OperationKind
  set_default_dp_address add_eim delete_eim update_eim list_eim : OperationKind

-- resultTag
unfoldable pub result_tag : OperationKind → ℕ
result_tag enable = 3
result_tag disable = 4
result_tag delete_profile = 5
result_tag list_profile_info = 45
result_tag get_rat = 6
result_tag configure_immediate_enable = 7
result_tag set_fallback_attribute = 13
result_tag unset_fallback_attribute = 14
result_tag set_default_dp_address = 101
result_tag add_eim = 8
result_tag delete_eim = 9
result_tag update_eim = 10
result_tag list_eim = 11
result_tag no_operation = 0

-- The cases of packagePSMO, on the operation and the ICCID of the one PSMO.
unfoldable pub psmo_kind : PsmoOperation → Bytes → OperationKind × Bytes
psmo_kind psmo_enable iccid = (enable, iccid)
psmo_kind psmo_disable iccid = (disable, iccid)
psmo_kind psmo_delete iccid = (delete_profile, iccid)
psmo_kind psmo_list_profile_info iccid = (list_profile_info, [])
psmo_kind psmo_get_rat iccid = (get_rat, [])
psmo_kind psmo_configure_immediate_enable iccid = (configure_immediate_enable, [])
psmo_kind psmo_set_fallback_attribute iccid = (set_fallback_attribute, iccid)
psmo_kind psmo_unset_fallback_attribute iccid = (unset_fallback_attribute, [])
psmo_kind psmo_set_default_dp_address iccid = (set_default_dp_address, [])
psmo_kind (psmo_unknown _) iccid = (no_operation, [])

unfoldable pub eco_kind : EcoOperation → OperationKind
eco_kind eco_add_eim = add_eim
eco_kind eco_delete_eim = delete_eim
eco_kind eco_update_eim = update_eim
eco_kind eco_list_eim = list_eim
eco_kind (eco_unknown _) = no_operation

unfoldable pub first_known : OperationKind → OperationKind → OperationKind
first_known no_operation other = other
first_known kind other = kind

module _ {Tlv : Type 0} where
  -- `pkg.Kind != EuiccPackagePSMO || len(pkg.PSMOs) != 1`
  unfoldable pub only_psmo : EuiccPackageKind → List (Psmo Tlv) → Option (Psmo Tlv)
  only_psmo kind_psmo (psmo ∷ []) = some psmo
  only_psmo _ _ = none

  unfoldable pub only_eco : EuiccPackageKind → List (Eco Tlv) → Option (Eco Tlv)
  only_eco kind_eco (eco ∷ []) = some eco
  only_eco _ _ = none

  -- packagePSMO
  unfoldable pub package_psmo : EuiccPackage Tlv → OperationKind × Bytes
  unfolding only_psmo psmo_kind
  package_psmo pkg = elim (only_psmo pkg.kind pkg.psmos) [
    | none ↦ (no_operation, [])
    | some psmo ↦ psmo_kind psmo.operation psmo.iccid
  ]

  -- The ECO goes along with an operation that is known.
  unfoldable pub with_eco : Eco Tlv → OperationKind → OperationKind × Option (Eco Tlv)
  with_eco eco no_operation = (no_operation, none)
  with_eco eco kind = (kind, some eco)

  -- packageECO
  unfoldable pub package_eco : EuiccPackage Tlv → OperationKind × Option (Eco Tlv)
  unfolding only_eco eco_kind with_eco
  package_eco pkg = elim (only_eco pkg.kind pkg.ecos) [
    | none ↦ (no_operation, none)
    | some eco ↦ with_eco eco (eco_kind eco.operation)
  ]

  -- PackageOperationKind: the PSMO if there is one, else the ECO.
  unfoldable pub package_operation_kind : EuiccPackage Tlv → OperationKind
  unfolding package_psmo package_eco first_known
  package_operation_kind pkg = first_known (package_psmo pkg).0 (package_eco pkg).0
