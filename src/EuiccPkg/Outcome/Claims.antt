-- ===== src/EuiccPkg/Outcome/Claims.antt =====
-- What the result data of a package has to say for the operation to have succeeded, by the tags and
-- values of the protocol.
use openiotrsp.Common.{ℕ, ◌≡◌, ◌⊎◌, true, some, none, List, [], ◌∷◌, Int64, ok}
use mathlib.Core.List.{Memᴰ}
use openiotrsp.Asn1.Result.{EuiccResultData, ProfileInfoListResponse, AddEimResult, ListEimResult}
use openiotrsp.EuiccPkg.Operation.{
  OperationKind, no_operation, enable, disable, delete_profile, list_profile_info, get_rat,
  configure_immediate_enable, set_fallback_attribute, unset_fallback_attribute,
  set_default_dp_address, add_eim, delete_eim, update_eim, list_eim,
}
use openiotrsp.EuiccPkg.Result.{PackageResult, result_ok, eco_ok, eco_last_eim_deleted}
use openiotrsp.EuiccPkg.Outcome.{TlvApi}

module _ {Tlv : Type 0} (tlvs : TlvApi Tlv) (results : List (EuiccResultData Tlv)) where
  -- The results have an object with the context-specific tag.
  pub record HasData (tag : ℕ) (raw : Tlv) : Type 0 where
    pub listed : Memᴰ (some raw) results
    pub context : tlvs.is_context_specific raw ≡ true
    pub tagged : tlvs.tag_value raw ≡ tag

  -- An integer that is tagged, or that is all there is, is 0.
  pub record SaysZero (tag : ℕ) (r : PackageResult Tlv) : Type 0 where
    pub raw : Tlv
    pub source :
        HasData tag raw ⊎ ((results ≡ some raw ∷ []) × (tlvs.is_universal_integer raw ≡ true))
    pub zero_read : tlvs.read_integer raw ≡ ok 0
    pub code : r.result_code ≡ result_ok

  pub record SaysProfiles (r : PackageResult Tlv) : Type 0 where
    pub raw : Tlv
    pub source : HasData 45 raw
    pub decoded : ProfileInfoListResponse
    pub came : tlvs.read_profile_list raw ≡ ok decoded
    pub no_error : decoded.list_error ≡ none
    pub code : r.result_code ≡ result_ok

  pub record SaysRules (r : PackageResult Tlv) : Type 0 where
    pub raw : Tlv
    pub source : HasData 6 raw
    pub passed_on : r.rules_authorisation_table ≡ some raw
    pub code : r.result_code ≡ result_ok

  pub record SaysDefaultSet (r : PackageResult Tlv) : Type 0 where
    pub raw : Tlv
    pub source : HasData 101 raw
    pub zero_read : tlvs.read_set_default_dp raw ≡ ok 0
    pub code : r.result_code ≡ result_ok

  -- The sole child of the object has the association token, or the code 0 in its place.
  pub record SaysAdded (r : PackageResult Tlv) : Type 0 where
    pub raw : Tlv
    pub child : Tlv
    pub source : HasData 8 raw
    pub sole : tlvs.children raw ≡ child ∷ []
    pub decoded : AddEimResult
    pub came : tlvs.read_add_eim child ≡ ok decoded
    pub added :
        ((token : Int64) × (decoded.association_token ≡ some token)
          × (r.add_eim_association_token ≡ some token))
        ⊎ ((decoded.association_token ≡ none)
            × (decoded.code ≡ some 0)
            × (r.add_eim_association_token ≡ none))
    pub code : r.eco_result_code ≡ eco_ok

  -- The code is 0, or 2 where the last eIM was deleted.
  pub record SaysDeleted (r : PackageResult Tlv) : Type 0 where
    pub raw : Tlv
    pub source : HasData 9 raw
    pub deleted :
        ((tlvs.read_integer raw ≡ ok 0) × (r.eco_result_code ≡ eco_ok))
        ⊎ ((tlvs.read_integer raw ≡ ok 2) × (r.eco_result_code ≡ eco_last_eim_deleted))

  pub record SaysUpdated (r : PackageResult Tlv) : Type 0 where
    pub raw : Tlv
    pub source : HasData 10 raw
    pub zero_read : tlvs.read_integer raw ≡ ok 0
    pub code : r.eco_result_code ≡ eco_ok

  pub record SaysListed (r : PackageResult Tlv) : Type 0 where
    pub raw : Tlv
    pub child : Tlv
    pub source : HasData 11 raw
    pub sole : tlvs.children raw ≡ child ∷ []
    pub decoded : ListEimResult
    pub came : tlvs.read_list_eim child ≡ ok decoded
    pub no_error : decoded.list_error ≡ none
    pub code : r.eco_result_code ≡ eco_ok

  -- What backs a success of each operation.
  abbrev pub Said : OperationKind → PackageResult Tlv → Type 0
  Said no_operation r = r.result_code ≡ result_ok
  Said enable r = SaysZero 3 r
  Said disable r = SaysZero 4 r
  Said delete_profile r = SaysZero 5 r
  Said list_profile_info r = SaysProfiles r
  Said get_rat r = SaysRules r
  Said configure_immediate_enable r = SaysZero 7 r
  Said set_fallback_attribute r = SaysZero 13 r
  Said unset_fallback_attribute r = SaysZero 14 r
  Said set_default_dp_address r = SaysDefaultSet r
  Said add_eim r = SaysAdded r
  Said delete_eim r = SaysDeleted r
  Said update_eim r = SaysUpdated r
  Said list_eim r = SaysListed r

  -- A result about the operation, whose success is backed by what the results say.
  pub record Agrees (operation : OperationKind) (r : PackageResult Tlv) : Type 0 where
    pub about : r.operation ≡ operation
    pub backed : r.succeeded ≡ true → Said operation r
