-- ===== src/EuiccPkg/Outcome/PsmoClaims.antt =====
-- About the results of PSMOs: what backs a success.
use openiotrsp.EuiccPkg.Outcome.Sources.{is_result_ok_inv, IsPsmo, found-HasData, sole_lem, Reports}
use openiotrsp.EuiccPkg.Operation.{set_default_dp_address}
use openiotrsp.EuiccPkg.Operation.{
  enable, disable, delete_profile, get_rat, configure_immediate_enable, set_fallback_attribute,
  unset_fallback_attribute,
}
use openiotrsp.Common.{
  ℕ, ◌≡◌, refl, ap, ◌∙◌, ◌⊎◌, inl, inr, true, some, none, List, [], ◌∷◌, arith, Option-cases,
  eq_nat, eq_bytes, Int64, on_ok_keeps, ok,
}
use openiotrsp.Asn1.Result.{EuiccResultData, ProfileInfoListResponse}
use openiotrsp.EuiccPkg.Operation.{
  OperationKind, add_eim, delete_eim, update_eim, list_eim, result_tag, no_operation,
  list_profile_info,
}
use openiotrsp.EuiccPkg.Result.{PackageResult, result_ok}
use openiotrsp.EuiccPkg.Outcome.{TlvApi, map_operation_result}
use openiotrsp.EuiccPkg.Outcome.Codes.{zero_is_ok}
use openiotrsp.EuiccPkg.Outcome.Claims.{HasData, SaysZero, Said, Agrees}
use openiotrsp.EuiccPkg.Outcome.Parse.{
  integer_outcome, integer_operation_result, tagged_result, base_type_integer_result,
  psmo_operation_result, result_data_by_tag, sole_integer, list_profile_info_result,
  list_profile_outcome, set_default_dp_address_result,
}

module _ {Tlv : Type 0} (tlvs : TlvApi Tlv) (results : List (EuiccResultData Tlv)) where
  zero_of :
      (operation : OperationKind) (value : Int64)
      → (integer_outcome {Tlv = Tlv} tlvs operation value).succeeded ≡ true
      → (value ≡ 0) × (map_operation_result operation value ≡ result_ok)
  unfolding integer_outcome
  zero_of operation value h =
      let code = is_result_ok_inv (map_operation_result operation value) h in
      ((zero_is_ok operation value).0.0 code, code)

  -- An integer result of an operation whose success an integer backs.
  integer-Reports :
      (operation : OperationKind) (tag : ℕ) (raw : Tlv)
      → (HasData tlvs results tag raw
          ⊎ ((results ≡ some raw ∷ []) × (tlvs.is_universal_integer raw ≡ true)))
      → ((r : PackageResult Tlv) → SaysZero tlvs results tag r → Said tlvs results operation r)
      → Reports tlvs results operation (integer_operation_result tlvs operation raw)
  unfolding integer_operation_result integer_outcome
  integer-Reports operation tag raw source enough =
      on_ok_keeps (Reports tlvs results operation) (tlvs.read_integer raw) _ (λ e. tt)
        (λ value came. record {
          about = refl;
          backed = λ h.
              let (zero_value, code) = zero_of operation value h in
              enough _ (record {
                raw = raw;
                source = source;
                zero_read = came ∙ ap ok zero_value;
                code = code;
              });
        })

  psmo_integer-Reports :
      (operation : OperationKind)
      → ((raw : Tlv)
          → tagged_result tlvs operation raw ≡ integer_operation_result tlvs operation raw)
      → (base_type_integer_result tlvs operation results ≡ sole_integer tlvs results)
      → ((r : PackageResult Tlv)
          → SaysZero tlvs results (result_tag operation) r
          → Said tlvs results operation r)
      → Reports tlvs results operation (psmo_operation_result tlvs operation results)
  unfolding psmo_operation_result
  psmo_integer-Reports operation tagged base enough =
      elim (Option-cases (result_data_by_tag tlvs results (result_tag operation))) [
        | inr (raw, found) ↦
            rw (psmo_operation_result, found, tagged raw)
              (integer-Reports operation (result_tag operation) raw
                (inl (found-HasData tlvs results (result_tag operation) raw found)) enough)
        | inl missing ↦ elim (Option-cases (sole_integer tlvs results)) [
          | inr (raw, sole) ↦
              rw (psmo_operation_result, missing, base, sole)
                (integer-Reports operation (result_tag operation) raw
                  (inr (sole_lem tlvs results raw sole)) enough)
          | inl none_left ↦ rw (psmo_operation_result, missing, base, none_left) tt
        ]
      ]

  -- An operation without results that are bare integers.
  psmo_tagged-Reports :
      (operation : OperationKind)
      → (base_type_integer_result tlvs operation results ≡ none)
      → ((raw : Tlv)
          → HasData tlvs results (result_tag operation) raw
          → Reports tlvs results operation (tagged_result tlvs operation raw))
      → Reports tlvs results operation (psmo_operation_result tlvs operation results)
  unfolding psmo_operation_result
  psmo_tagged-Reports operation base tagged =
      elim (Option-cases (result_data_by_tag tlvs results (result_tag operation))) [
        | inr (raw, found) ↦
            rw (psmo_operation_result, found)
              (tagged raw (found-HasData tlvs results (result_tag operation) raw found))
        | inl missing ↦ rw (psmo_operation_result, missing, base) tt
      ]

  list_profile-Agrees :
      (raw : Tlv) (decoded : ProfileInfoListResponse)
      → HasData tlvs results 45 raw
      → tlvs.read_profile_list raw ≡ ok decoded
      → Agrees tlvs results list_profile_info (list_profile_outcome tlvs decoded)
  unfolding list_profile_outcome
  list_profile-Agrees raw decoded source came = elim (Option-cases decoded.list_error) [
    | inl fine ↦ rw fine (record {
      about = refl;
      backed = λ h. record {
        raw = raw;
        source = source;
        decoded = decoded;
        came = came;
        no_error = fine;
        code = refl;
      };
    })
    | inr (value, failed) ↦
        rw failed (record { about = refl; backed = λ h. absurd (ground (arith, h)) })
  ]

  pub psmo-Reports :
      (operation : OperationKind)
      → IsPsmo operation
      → Reports tlvs results operation (psmo_operation_result tlvs operation results)
  unfolding tagged_result base_type_integer_result list_profile_info_result
      set_default_dp_address_result result_tag integer_outcome
  psmo-Reports no_operation p = psmo_integer-Reports no_operation (λ raw. refl) refl (λ r z. z.code)
  psmo-Reports enable p = psmo_integer-Reports enable (λ raw. refl) refl (λ r z. z)
  psmo-Reports disable p = psmo_integer-Reports disable (λ raw. refl) refl (λ r z. z)
  psmo-Reports delete_profile p = psmo_integer-Reports delete_profile (λ raw. refl) refl (λ r z. z)
  psmo-Reports configure_immediate_enable p =
      psmo_integer-Reports configure_immediate_enable (λ raw. refl) refl (λ r z. z)
  psmo-Reports set_fallback_attribute p =
      psmo_integer-Reports set_fallback_attribute (λ raw. refl) refl (λ r z. z)
  psmo-Reports unset_fallback_attribute p =
      psmo_integer-Reports unset_fallback_attribute (λ raw. refl) refl (λ r z. z)
  psmo-Reports list_profile_info p = psmo_tagged-Reports list_profile_info refl (λ raw source.
      on_ok_keeps (Reports tlvs results list_profile_info) (tlvs.read_profile_list raw) _ (λ e. tt)
        (λ decoded came. list_profile-Agrees raw decoded source came))
  psmo-Reports get_rat p = psmo_tagged-Reports get_rat refl (λ raw source. record {
    about = refl;
    backed = λ h. record { raw = raw; source = source; passed_on = refl; code = refl };
  })
  psmo-Reports set_default_dp_address p =
      psmo_tagged-Reports set_default_dp_address refl (λ raw source.
        on_ok_keeps (Reports tlvs results set_default_dp_address) (tlvs.read_set_default_dp raw) _
          (λ e. tt)
          (λ value came. record {
            about = refl;
            backed = λ h.
                let (zero_value, code) = zero_of set_default_dp_address value h in
                record {
                  raw = raw;
                  source = source;
                  zero_read = came ∙ ap ok zero_value;
                  code = code;
                };
          }))
  psmo-Reports add_eim p = absurd p
  psmo-Reports delete_eim p = absurd p
  psmo-Reports update_eim p = absurd p
  psmo-Reports list_eim p = absurd p
