-- ===== src/EuiccPkg/Outcome/Agreement.antt =====
-- About the agreement of a domain result with the operation that the package carries and with what
-- the result data says.
use openiotrsp.EuiccPkg.Outcome.Sources.{IsPsmo, package_psmo-IsPsmo, Reports}
use openiotrsp.EuiccPkg.Outcome.PsmoClaims.{psmo-Reports}
use openiotrsp.EuiccPkg.Outcome.EcoClaims.{eco-Reports}
use openiotrsp.EuiccPkg.Operation.{set_default_dp_address}
use openiotrsp.EuiccPkg.Operation.{
  enable, disable, delete_profile, get_rat, configure_immediate_enable, set_fallback_attribute,
  unset_fallback_attribute,
}
use openiotrsp.Asn1.Package.{EuiccPackage}
use openiotrsp.Common.{◌≡◌, refl, List, eq_nat, eq_bytes, ok, subst}
use openiotrsp.Asn1.Result.{EuiccResultData}
use openiotrsp.EuiccPkg.Operation.{
  OperationKind, add_eim, delete_eim, update_eim, list_eim, package_psmo, first_known, no_operation,
  package_operation_kind, list_profile_info, package_eco,
}
use openiotrsp.EuiccPkg.Result.{PackageResult}
use openiotrsp.EuiccPkg.Outcome.{TlvApi}
use openiotrsp.EuiccPkg.Outcome.Claims.{Agrees}
use openiotrsp.EuiccPkg.Outcome.Parse.{outcome_of, operation_result}

module _ {Tlv : Type 0} (tlvs : TlvApi Tlv) where
  module _ (results : List (EuiccResultData Tlv)) where
    -- Where there is a PSMO it is the operation.
    abbrev Outcome : OperationKind → OperationKind → Type 0
    Outcome psmo eco =
        Reports tlvs results (first_known psmo eco) (outcome_of tlvs psmo eco results)

    eco-Outcome : (eco : OperationKind) → Outcome no_operation eco
    unfolding outcome_of first_known
    eco-Outcome no_operation = record { about = refl; backed = λ h. refl }
    eco-Outcome enable = eco-Reports tlvs results enable
    eco-Outcome disable = eco-Reports tlvs results disable
    eco-Outcome delete_profile = eco-Reports tlvs results delete_profile
    eco-Outcome list_profile_info = eco-Reports tlvs results list_profile_info
    eco-Outcome get_rat = eco-Reports tlvs results get_rat
    eco-Outcome configure_immediate_enable = eco-Reports tlvs results configure_immediate_enable
    eco-Outcome set_fallback_attribute = eco-Reports tlvs results set_fallback_attribute
    eco-Outcome unset_fallback_attribute = eco-Reports tlvs results unset_fallback_attribute
    eco-Outcome set_default_dp_address = eco-Reports tlvs results set_default_dp_address
    eco-Outcome add_eim = eco-Reports tlvs results add_eim
    eco-Outcome delete_eim = eco-Reports tlvs results delete_eim
    eco-Outcome update_eim = eco-Reports tlvs results update_eim
    eco-Outcome list_eim = eco-Reports tlvs results list_eim

    psmo-Outcome : (psmo eco : OperationKind) → IsPsmo psmo → Outcome psmo eco
    unfolding outcome_of first_known
    psmo-Outcome no_operation eco p = eco-Outcome eco
    psmo-Outcome enable eco p = psmo-Reports tlvs results enable p
    psmo-Outcome disable eco p = psmo-Reports tlvs results disable p
    psmo-Outcome delete_profile eco p = psmo-Reports tlvs results delete_profile p
    psmo-Outcome list_profile_info eco p = psmo-Reports tlvs results list_profile_info p
    psmo-Outcome get_rat eco p = psmo-Reports tlvs results get_rat p
    psmo-Outcome configure_immediate_enable eco p =
        psmo-Reports tlvs results configure_immediate_enable p
    psmo-Outcome set_fallback_attribute eco p = psmo-Reports tlvs results set_fallback_attribute p
    psmo-Outcome unset_fallback_attribute eco p =
        psmo-Reports tlvs results unset_fallback_attribute p
    psmo-Outcome set_default_dp_address eco p = psmo-Reports tlvs results set_default_dp_address p
    psmo-Outcome add_eim eco p = absurd p
    psmo-Outcome delete_eim eco p = absurd p
    psmo-Outcome update_eim eco p = absurd p
    psmo-Outcome list_eim eco p = absurd p

  -- A result that is read off the result data of a package is about the operation that the package
  -- carries, and it claims success only where the data says so. The data has an object with the
  -- operation's result tag, or for an integer PSMO is a bare integer by itself, and the object's
  -- value is 0; or, by the operation, it is an association token for addEim, 2 for deleteEim where
  -- the last eIM was deleted, a list without an error, or the rules table that is passed on. The
  -- code is then the last eIM's for the value 2 of deleteEim, and otherwise ok. For a package
  -- without a known operation, a success has the code ok.
  pub operation_result-Agrees :
      (pkg : EuiccPackage Tlv) (results : List (EuiccResultData Tlv)) (r : PackageResult Tlv)
      → operation_result tlvs pkg results ≡ ok r
      → Agrees tlvs results (package_operation_kind pkg) r
  unfolding operation_result package_operation_kind
  operation_result-Agrees pkg results r h =
      subst (Reports tlvs results (first_known (package_psmo pkg).0 (package_eco pkg).0)) h
        (psmo-Outcome results (package_psmo pkg).0 (package_eco pkg).0 (package_psmo-IsPsmo pkg))
