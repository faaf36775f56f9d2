-- ===== src/Esipa/Handler/Poll.antt =====
-- About polls for a package.
use openiotrsp.EuiccPkg.State.{hex_encode}
use openiotrsp.Memory.Api.{memory_api}
use openiotrsp.Memory.Operations.{is_pending_of}
use openiotrsp.Esipa.Select.{is_euicc_package}
use openiotrsp.Memory.Queue.Select.{IsOldest}
use openiotrsp.Common.{
  ◌≡◌, ◌≢◌, ◌⊎◌, true, false, Option, none, some, List, [], ◌∷◌, ◌++◌, length, All, Bytes, eq_nat,
  eq_bytes, lookup, Result,
}
use openiotrsp.Storage.{TenantId, Time, Operation, normalize_tenant_id}
use openiotrsp.Storage.Api.{live}
use openiotrsp.Asn1.Tlv.{Bertlv}
use openiotrsp.Asn1.Esipa.{GetEimPackageRequest}
use openiotrsp.Esipa.{
  Response, get_eim_package_error_response, get_eim_package_error_missing_eid,
  get_eim_package_error_invalid_eid, get_eim_package_error_eid_not_found,
}
use openiotrsp.Esipa.Handler.{answer_operation}
use openiotrsp.Memory.State.{
  Store, eq_device_key, eq_result_key, eq_profile_key, eq_associated_key, eq_config_key,
  eq_notification_key, new_device_key, MemoryDevice,
}

-- The first eUICC package of the operations.
pub record IsFirstPackage (operations : List Operation) (chosen : Operation) : Type 0 where
  pub before : List Operation
  pub after : List Operation
  pub split : operations ≡ before ++ chosen ∷ after
  pub packed : is_euicc_package chosen.kind ≡ true
  pub passed : All (λ (o : Operation). is_euicc_package o.kind ≡ false) before

-- The first operation, where none is an eUICC package.
pub record IsFirstOther (operations : List Operation) (chosen : Operation) : Type 0 where
  pub after : List Operation
  pub split : operations ≡ chosen ∷ after
  pub passed : All (λ (o : Operation). is_euicc_package o.kind ≡ false) operations

abbrev pub IsPreferred : List Operation → Option Operation → Type 0
IsPreferred operations none = operations ≡ []
IsPreferred operations (some chosen) =
    IsFirstPackage operations chosen ⊎ IsFirstOther operations chosen

abbrev FirstPackage : List Operation → Option Operation → Type 0
FirstPackage operations none = All (λ (o : Operation). is_euicc_package o.kind ≡ false) operations
FirstPackage operations (some chosen) = IsFirstPackage operations chosen

module _ {Tlv : Type 0} (lib : Bertlv Tlv) (now : Time) (t : TenantId) (s : Store) where
  -- The answer to a poll for a known device.
  pub record IsAnswered (eid : Bytes) (response : Result (Response Tlv)) : Type 0 where
    pub pending : List Operation
    pub oldest :
        IsOldest (is_pending_of (normalize_tenant_id t) eid) 100 (normalize_tenant_id t) s pending
    pub chosen : Option Operation
    pub preference : IsPreferred pending chosen
    pub answer : response ≡ answer_operation lib (memory_api now) live t chosen

  -- The answer by what is polled for.
  abbrev pub Answers : GetEimPackageRequest → Result (Response Tlv) → Type 0
  Answers request response =
      ((length request.eid ≡ 0)
        × (response ≡ get_eim_package_error_response lib get_eim_package_error_missing_eid))
      ⊎ ((length request.eid ≢ 0)
          × (length request.eid ≢ 16)
          × (response ≡ get_eim_package_error_response lib get_eim_package_error_invalid_eid))
      ⊎ ((length request.eid ≡ 16)
          × (lookup (new_device_key t (hex_encode request.eid)) s.devices ≡ none)
          × (response ≡ get_eim_package_error_response lib get_eim_package_error_eid_not_found))
      ⊎ ((length request.eid ≡ 16)
          × ((device : MemoryDevice) × (lookup (new_device_key t (hex_encode request.eid)) s.devices
                ≡ some device))
          × IsAnswered (hex_encode request.eid) response)
