-- ===== src/EuiccPkg/Outcome/EcoClaims.antt =====
-- About the results of ECOs: what backs a success.
use openiotrsp.EuiccPkg.Outcome.Sources.{is_eco_ok_inv, delete_ok_inv, found-HasData, Reports}
use openiotrsp.EuiccPkg.Operation.{set_default_dp_address}
use openiotrsp.EuiccPkg.Operation.{
  enable, disable, delete_profile, get_rat, configure_immediate_enable, set_fallback_attribute,
  unset_fallback_attribute,
}
use openiotrsp.Common.{
  ℕ, ◌≡◌, refl, ap, ◌∙◌, inl, inr, some, List, [], ◌∷◌, arith, Option-cases, eq_nat, eq_bytes,
  Int64, on_ok_keeps, ok, err,
}
use openiotrsp.Asn1.Result.{EuiccResultData, AddEimResult, ListEimResult}
use openiotrsp.EuiccPkg.Operation.{
  OperationKind, add_eim, delete_eim, update_eim, list_eim, result_tag, no_operation,
  list_profile_info,
}
use openiotrsp.EuiccPkg.Outcome.{
  TlvApi, map_update_eim_result, map_delete_eim_result, map_add_eim_result,
}
use openiotrsp.EuiccPkg.Outcome.Codes.{zero_is_ok}
use openiotrsp.EuiccPkg.Outcome.Claims.{HasData, Agrees}
use openiotrsp.EuiccPkg.Outcome.Parse.{
  result_data_by_tag, eco_operation_result, add_eim_outcome, only_child, explicit_result_child,
  delete_eim_outcome, eco_tagged_result, update_eim_outcome, list_eim_outcome, add_eim_result,
  list_eim_result,
}

module _ {Tlv : Type 0} (tlvs : TlvApi Tlv) (results : List (EuiccResultData Tlv)) where
  -- The sole child of an object, where it is read.
  only_child_lem :
      (children : List Tlv) (child : Tlv)
      → only_child tlvs children ≡ ok child
      → children ≡ child ∷ []
  unfolding only_child
  only_child_lem [] child h = absurd (ground (arith, h))
  only_child_lem (x ∷ []) child h = ap (λ r. elim r [ ok y ↦ y ∷ [] | err e ↦ x ∷ [] ]) h
  only_child_lem (x ∷ y ∷ rest) child h = absurd (ground (arith, h))

  explicit_lem :
      (raw child : Tlv) (tag : ℕ)
      → explicit_result_child tlvs raw tag ≡ ok child
      → tlvs.children raw ≡ child ∷ []
  unfolding explicit_result_child
  explicit_lem raw child tag h = only_child_lem (tlvs.children raw) child (ground (arith, h))

  add_eim-Reports :
      (raw child : Tlv) (decoded : AddEimResult)
      → HasData tlvs results 8 raw
      → tlvs.children raw ≡ child ∷ []
      → tlvs.read_add_eim child ≡ ok decoded
      → Reports tlvs results add_eim (add_eim_outcome tlvs decoded)
  unfolding add_eim_outcome
  add_eim-Reports raw child decoded source sole came =
      elim (Option-cases decoded.association_token) [
        | inr (token, given) ↦ rw given (record {
          about = refl;
          backed = λ h. record {
            raw = raw;
            child = child;
            source = source;
            sole = sole;
            decoded = decoded;
            came = came;
            added = inl (token, given, refl);
            code = refl;
          };
        })
        | inl lacks ↦ elim (Option-cases decoded.code) [
          | inr (value, coded) ↦
              rw (lacks, coded)
                (record {
                  about = refl;
                  backed = λ h.
                      let code = is_eco_ok_inv (map_add_eim_result value) h in
                      record {
                        raw = raw;
                        child = child;
                        source = source;
                        sole = sole;
                        decoded = decoded;
                        came = came;
                        added =
                            inr
                              (lacks, coded ∙ ap some ((zero_is_ok add_eim value).1.0 code), refl);
                        code = code;
                      };
                })
          | inl uncoded ↦ rw (lacks, uncoded) tt
        ]
      ]

  list_eim-Agrees :
      (raw child : Tlv) (decoded : ListEimResult)
      → HasData tlvs results 11 raw
      → tlvs.children raw ≡ child ∷ []
      → tlvs.read_list_eim child ≡ ok decoded
      → Agrees tlvs results list_eim (list_eim_outcome tlvs decoded)
  unfolding list_eim_outcome
  list_eim-Agrees raw child decoded source sole came = elim (Option-cases decoded.list_error) [
    | inl fine ↦ rw fine (record {
      about = refl;
      backed = λ h. record {
        raw = raw;
        child = child;
        source = source;
        sole = sole;
        decoded = decoded;
        came = came;
        no_error = fine;
        code = refl;
      };
    })
    | inr (value, failed) ↦
        rw failed (record { about = refl; backed = λ h. absurd (ground (arith, h)) })
  ]

  delete_eim-Agrees :
      (raw : Tlv) (value : Int64)
      → HasData tlvs results 9 raw
      → tlvs.read_integer raw ≡ ok value
      → Agrees tlvs results delete_eim (delete_eim_outcome tlvs value)
  unfolding delete_eim_outcome
  delete_eim-Agrees raw value source came = record {
    about = refl;
    backed = λ h. record {
      raw = raw;
      source = source;
      deleted = elim (delete_ok_inv (map_delete_eim_result value) h) [
        | inl code ↦ inl (came ∙ ap ok ((zero_is_ok delete_eim value).2.0 code), code)
        | inr code ↦ inr (came ∙ ap ok ((zero_is_ok delete_eim value).3.0 code), code)
      ];
    };
  }

  update_eim-Agrees :
      (raw : Tlv) (value : Int64)
      → HasData tlvs results 10 raw
      → tlvs.read_integer raw ≡ ok value
      → Agrees tlvs results update_eim (update_eim_outcome tlvs value)
  unfolding update_eim_outcome
  update_eim-Agrees raw value source came = record {
    about = refl;
    backed = λ h.
        let code = is_eco_ok_inv (map_update_eim_result value) h in
        record {
          raw = raw;
          source = source;
          zero_read = came ∙ ap ok ((zero_is_ok update_eim value).4.0 code);
          code = code;
        };
  }

  eco_tagged-Reports :
      (operation : OperationKind) (raw : Tlv)
      → HasData tlvs results (result_tag operation) raw
      → Reports tlvs results operation (eco_tagged_result tlvs operation raw)
  unfolding eco_tagged_result add_eim_result list_eim_result result_tag
  eco_tagged-Reports add_eim raw source =
      on_ok_keeps (Reports tlvs results add_eim) (explicit_result_child tlvs raw 8) _ (λ e. tt)
        (λ child sole.
          on_ok_keeps (Reports tlvs results add_eim) (tlvs.read_add_eim child) _ (λ e. tt)
            (λ decoded came.
              add_eim-Reports raw child decoded source (explicit_lem raw child 8 sole) came))
  eco_tagged-Reports delete_eim raw source =
      on_ok_keeps (Reports tlvs results delete_eim) (tlvs.read_integer raw) _ (λ e. tt)
        (λ value came. delete_eim-Agrees raw value source came)
  eco_tagged-Reports update_eim raw source =
      on_ok_keeps (Reports tlvs results update_eim) (tlvs.read_integer raw) _ (λ e. tt)
        (λ value came. update_eim-Agrees raw value source came)
  eco_tagged-Reports list_eim raw source =
      on_ok_keeps (Reports tlvs results list_eim) (explicit_result_child tlvs raw 11) _ (λ e. tt)
        (λ child sole.
          on_ok_keeps (Reports tlvs results list_eim) (tlvs.read_list_eim child) _ (λ e. tt)
            (λ decoded came.
              list_eim-Agrees raw child decoded source (explicit_lem raw child 11 sole) came))
  eco_tagged-Reports no_operation raw source = tt
  eco_tagged-Reports enable raw source = tt
  eco_tagged-Reports disable raw source = tt
  eco_tagged-Reports delete_profile raw source = tt
  eco_tagged-Reports list_profile_info raw source = tt
  eco_tagged-Reports get_rat raw source = tt
  eco_tagged-Reports configure_immediate_enable raw source = tt
  eco_tagged-Reports set_fallback_attribute raw source = tt
  eco_tagged-Reports unset_fallback_attribute raw source = tt
  eco_tagged-Reports set_default_dp_address raw source = tt

  pub eco-Reports :
      (operation : OperationKind)
      → Reports tlvs results operation (eco_operation_result tlvs operation results)
  unfolding eco_operation_result
  eco-Reports operation =
      elim (Option-cases (result_data_by_tag tlvs results (result_tag operation))) [
        | inr (raw, found) ↦
            rw (eco_operation_result, found)
              (eco_tagged-Reports operation raw
                (found-HasData tlvs results (result_tag operation) raw found))
        | inl missing ↦ rw (eco_operation_result, missing) tt
      ]
