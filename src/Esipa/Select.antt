-- ===== src/Esipa/Select.antt =====
-- esipa/handler.go: which operation of a device is delivered, and which one a result is for.
pub mod Match
use openiotrsp.Asn1.IpaData.{unmarshal_ipa_euicc_data_request}
use openiotrsp.Asn1.Download.{unmarshal_download_trigger_request}
use openiotrsp.Asn1.Package.Decode.{unmarshal_package_request}
use openiotrsp.Storage.Api.{StoreApi}
use openiotrsp.Asn1.Codec.{decode}
use openiotrsp.Asn1.Codec.{or_nil}
use openiotrsp.Asn1.Package.{EuiccPackageSigned, EuiccPackageRequest}
use openiotrsp.Asn1.Tlv.{Bertlv}
use openiotrsp.Common.{
  Bool, true, false, not, ◌&&◌, ◌||◌, Option, none, some, List, [], ◌∷◌, if◌then◌else◌, ◌==◌, Bytes,
  eq_nat, eq_bytes, bytes_eq, Int64, not_found, on_ok, Result, ok, err, Context, Action, pure, fail,
  lift, ◌>>=◌, ◌>>◌,
}
use openiotrsp.Storage.{
  Operation, OperationKind, euicc_package, profile_download_trigger, ipa_euicc_data, other_kind,
  TenantId,
}
use openiotrsp.Asn1.Result.{
  EuiccPackageResult, EuiccPackageResultKind, kind_ok, kind_error_signed, kind_error_unsigned,
  kind_other, EuiccPackageErrorUnsigned,
}

-- `operation.Kind == storage.OperationEuiccPackage`
abbrev pub is_euicc_package : OperationKind → Bool
is_euicc_package euicc_package = true
is_euicc_package _ = false

abbrev pub is_ipa_euicc_data : OperationKind → Bool
is_ipa_euicc_data ipa_euicc_data = true
is_ipa_euicc_data _ = false

abbrev pub is_profile_download_trigger : OperationKind → Bool
is_profile_download_trigger profile_download_trigger = true
is_profile_download_trigger _ = false

-- The first operation of the kind eUICC package.
unfoldable pub first_euicc_package : List Operation → Option Operation
first_euicc_package [] = none
first_euicc_package (operation ∷ operations) =
    if is_euicc_package operation.kind then some operation else first_euicc_package operations

-- The end of selectOperationForGetEimPackage; nothing pending is the operation with ID 0 there.
unfoldable pub preferred_operation : List Operation → Option Operation
unfolding first_euicc_package
preferred_operation [] = none
preferred_operation (operation ∷ operations) = elim (first_euicc_package (operation ∷ operations)) [
  | some found ↦ some found
  | none ↦ some operation
]

-- The three tests of firstMatchingEuiccPackage; an empty or zero criterion holds of all.
unfoldable pub matches_criteria :
    {Tlv : Type 0} → Bytes → Int64 → Bytes → EuiccPackageSigned Tlv → Bool
matches_criteria eim_id counter transaction_id signed =
    (bytes_eq eim_id [] || (signed.eim_id == eim_id))
    && ((counter == 0) || (signed.counter_value == counter))
    && (bytes_eq transaction_id [] || (or_nil signed.eim_transaction_id == transaction_id))

module _ {Tlv : Type 0} (lib : Bertlv Tlv) where
  unfoldable pub decode_package_request : Bytes → Result (EuiccPackageRequest Tlv)
  unfolding decode unmarshal_package_request
  decode_package_request payload = decode lib (unmarshal_package_request lib) payload

  -- firstMatchingEuiccPackage
  unfoldable pub first_matching_euicc_package :
      Bytes → Int64 → Bytes → List Operation → Result (Option Operation)
  unfolding matches_criteria
  first_matching_euicc_package eim_id counter transaction_id [] = ok none
  first_matching_euicc_package eim_id counter transaction_id (operation ∷ operations) =
      let rest = first_matching_euicc_package eim_id counter transaction_id operations in
      if is_euicc_package operation.kind
      then on_ok (decode_package_request operation.payload) (λ request.
        if matches_criteria eim_id counter transaction_id request.euicc_package_signed
        then ok (some operation)
        else rest)
      else rest

  -- The loop of pendingIpaEuiccDataOperation.
  unfoldable pub first_data_operation : Bytes → List Operation → Result (Option Operation)
  unfolding decode unmarshal_ipa_euicc_data_request
  first_data_operation transaction_id [] = ok none
  first_data_operation transaction_id (operation ∷ operations) =
      let rest = first_data_operation transaction_id operations in
      if not (is_ipa_euicc_data operation.kind)
      then rest
      else if bytes_eq transaction_id []
      then ok (some operation)
      else on_ok (decode lib (unmarshal_ipa_euicc_data_request lib) operation.payload) (λ request.
        if or_nil request.eim_transaction_id == transaction_id then ok (some operation) else rest)

  -- The loop of pendingProfileDownloadTrigger.
  unfoldable pub first_download_operation : Bytes → List Operation → Result (Option Operation)
  unfolding decode unmarshal_download_trigger_request
  first_download_operation transaction_id [] = ok none
  first_download_operation transaction_id (operation ∷ operations) =
      let rest = first_download_operation transaction_id operations in
      if is_profile_download_trigger operation.kind
      then on_ok (decode lib (unmarshal_download_trigger_request lib) operation.payload) (λ request.
        if or_nil request.eim_transaction_id == transaction_id then ok (some operation) else rest)
      else rest

  -- The switch of OperationMatchesEimTransactionID, of esipa/eid_resolve.go.
  unfoldable pub operation_transaction_id : OperationKind → Bytes → Result (Option Bytes)
  unfolding decode unmarshal_ipa_euicc_data_request unmarshal_download_trigger_request
  operation_transaction_id euicc_package payload =
      on_ok (decode_package_request payload)
        (λ request. ok (some (or_nil request.euicc_package_signed.eim_transaction_id)))
  operation_transaction_id ipa_euicc_data payload =
      on_ok (decode lib (unmarshal_ipa_euicc_data_request lib) payload)
        (λ request. ok (some (or_nil request.eim_transaction_id)))
  operation_transaction_id profile_download_trigger payload =
      on_ok (decode lib (unmarshal_download_trigger_request lib) payload)
        (λ request. ok (some (or_nil request.eim_transaction_id)))
  operation_transaction_id (other_kind _) payload = ok none

  -- OperationMatchesEimTransactionID
  unfoldable pub operation_matches_eim_transaction_id : Operation → Bytes → Result Bool
  unfolding operation_transaction_id
  operation_matches_eim_transaction_id operation transaction_id =
      if bytes_eq transaction_id []
      then ok false
      else on_ok (operation_transaction_id operation.kind operation.payload)
          (λ found. ok (elim found [ none ↦ false | some id ↦ id == transaction_id ]))

module _ {S Tlv : Type 0} (lib : Bertlv Tlv) (api : StoreApi S) (ctx : Context) (t : TenantId)
    (eid : Bytes) where
  -- selectOperationForGetEimPackage
  unfoldable pub select_operation_for_get_eim_package : Action S (Option Operation)
  unfolding preferred_operation
  select_operation_for_get_eim_package =
      api.fetch_pending_operations ctx t eid 100 >>= λ operations.
      pure (preferred_operation operations)

  -- ensureDeviceKnown
  unfoldable pub ensure_device_known : Action S (Unit {0})
  ensure_device_known = api.list_profile_states ctx t eid >> pure tt

  abbrev pub one_or_not_found : Option Operation → Result (List Operation)
  one_or_not_found none = err not_found
  one_or_not_found (some operation) = ok (operation ∷ [])

  -- The idempotent redelivery in matchPendingEuiccPackageByCorrelation.
  unfoldable pub match_completed : Bytes → Int64 → Bytes → Action S (List Operation)
  unfolding first_matching_euicc_package
  match_completed eim_id counter transaction_id =
      if bytes_eq transaction_id [] && bytes_eq eim_id [] && (counter == 0)
      then fail not_found
      else (api.list_operations ctx t eid 10000 >>= λ operations. lift (
          on_ok (first_matching_euicc_package lib eim_id counter transaction_id operations)
            one_or_not_found))

  -- matchPendingEuiccPackageByCorrelation
  unfoldable pub match_pending_euicc_package_by_correlation :
      Bytes → Int64 → Bytes → Action S (List Operation)
  unfolding first_matching_euicc_package match_completed
  match_pending_euicc_package_by_correlation eim_id counter transaction_id =
      api.fetch_pending_operations ctx t eid 10000 >>= λ operations.
      lift (first_matching_euicc_package lib eim_id counter transaction_id operations) >>= λ found.
      elim found [
        | some operation ↦ pure (operation ∷ [])
        | none ↦ match_completed eim_id counter transaction_id
      ]

  -- firstPendingEuiccPackageOperation
  unfoldable pub first_pending_euicc_package_operation : Action S (List Operation)
  unfolding first_euicc_package
  first_pending_euicc_package_operation =
      api.fetch_pending_operations ctx t eid 10000 >>= λ operations.
      lift (one_or_not_found (first_euicc_package operations))

  -- `err == nil || !errors.Is(err, storage.ErrNotFound)`, or else the next attempt
  abbrev pub unless_not_found :
      Result (List Operation) → Action S (List Operation) → Action S (List Operation)
  unless_not_found (err not_found) next = next
  unless_not_found result next = lift result

  -- The third case of matchingEUICCPackageOperations.
  unfoldable pub matching_unsigned : EuiccPackageErrorUnsigned → Action S (List Operation)
  unfolding match_pending_euicc_package_by_correlation first_pending_euicc_package_operation
  matching_unsigned found s =
      let (result, r) =
        match_pending_euicc_package_by_correlation found.eim_id 0 found.eim_transaction_id s in
      if bytes_eq found.eim_id [] && bytes_eq found.eim_transaction_id []
      then first_pending_euicc_package_operation s
      else unless_not_found result first_pending_euicc_package_operation r

  -- The switch of matchingEUICCPackageOperations.
  unfoldable pub matching_kind :
      EuiccPackageResultKind → EuiccPackageResult Tlv → Action S (List Operation)
  unfolding match_pending_euicc_package_by_correlation matching_unsigned
  matching_kind kind_ok result = elim result.signed [
    | none ↦ fail not_found
    | some signed ↦
        match_pending_euicc_package_by_correlation signed.result_data.eim_id
          signed.result_data.counter_value signed.result_data.eim_transaction_id
  ]
  matching_kind kind_error_signed result = elim result.error_signed [
    | none ↦ fail not_found
    | some signed ↦
        match_pending_euicc_package_by_correlation signed.error_data.eim_id
          signed.error_data.counter_value signed.error_data.eim_transaction_id
  ]
  matching_kind kind_error_unsigned result = elim result.error_unsigned [
    | none ↦ fail not_found
    | some found ↦ matching_unsigned found
  ]
  matching_kind (kind_other _) result = fail not_found

  -- matchingEUICCPackageOperations
  unfoldable pub matching_euicc_package_operations :
      EuiccPackageResult Tlv → Action S (List Operation)
  unfolding matching_kind
  matching_euicc_package_operations result = matching_kind result.kind result

  -- pendingIpaEuiccDataOperation
  unfoldable pub pending_ipa_euicc_data_operation : Bytes → Action S (Option Operation)
  unfolding first_data_operation
  pending_ipa_euicc_data_operation transaction_id =
      api.fetch_pending_operations ctx t eid 100 >>= λ operations.
      lift (first_data_operation lib transaction_id operations)

  -- pendingProfileDownloadTrigger
  unfoldable pub pending_profile_download_trigger : Bytes → Action S (Option Operation)
  unfolding first_download_operation
  pending_profile_download_trigger transaction_id =
      api.fetch_pending_operations ctx t eid 100 >>= λ operations.
      lift (first_download_operation lib transaction_id operations)
