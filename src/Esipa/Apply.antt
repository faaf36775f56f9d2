-- ===== src/Esipa/Apply.antt =====
-- esipa/handler.go: what is recorded of the results of operations, and what is applied.
use openiotrsp.Esipa.Results.{
  asn1_codec, ok_data_of, result_status_for_operation, signed_request_from_operation,
  verified_operation_result,
}
use openiotrsp.Asn1.Result.Values.{result_objects}
use openiotrsp.EuiccPkg.Association.{apply_package_state}
use openiotrsp.Asn1.DownloadResult.{unmarshal_trigger_result}
use openiotrsp.Asn1.DownloadResult.{ProfileDownloadTriggerResult}
use openiotrsp.Asn1.Codec.{or_nil}
use openiotrsp.Storage.Api.{StoreApi}
use openiotrsp.Esipa.Select.{
  is_euicc_package, match_pending_euicc_package_by_correlation, decode_package_request,
  first_pending_euicc_package_operation, pending_profile_download_trigger,
}
use openiotrsp.EuiccPkg.Outcome.Parse.{operation_result}
use openiotrsp.EuiccPkg.Verify.{Crypto}
use openiotrsp.Asn1.Tlv.{Bertlv}
use openiotrsp.EuiccPkg.Result.{PackageResult}
use openiotrsp.Asn1.Notification.{EimAcknowledgements}
use openiotrsp.Esipa.{PublicKey, EuiccPublicKeyResolver, nil_key}
use openiotrsp.Storage.{TenantId}
use openiotrsp.Storage.{EuiccPackageResult as StoredResult}
use openiotrsp.Common.{
  not, Option, none, some, List, [], ◌∷◌, map, if◌then◌else◌, Bytes, ascii, eq_nat, eq_bytes,
  bytes_eq, Error, not_found, on_ok, invalid_input, Result, ok, err, Context, Action, pure, fail,
  lift, ◌>>=◌, ◌>>◌,
}
use openiotrsp.Storage.{Operation, OperationStatus, status_eq}
use openiotrsp.Asn1.Result.{EuiccPackageResult}
use openiotrsp.Asn1.Esipa.{EimPackageResultResponseError}

abbrev missing_resolver : Error
missing_resolver = invalid_input (ascii "eUICC public key resolver is required")

module _ {S Tlv Key : Type 0} (lib : Bertlv Tlv) (crypto : Crypto Key) (api : StoreApi S)
    (ctx : Context) (t : TenantId) (eid : Bytes) where
  -- The result of a failed or a finished operation, with the bytes that it came in.
  abbrev pub record_of : Operation → OperationStatus → Bytes → StoredResult
  record_of operation status payload = record {
    eid = eid;
    operation_id = operation.id;
    sequence_number = operation.sequence_number;
    status = status;
    payload = payload;
  }

  -- applyEUICCPackageOperationState
  unfoldable pub apply_operation_state : Operation → EuiccPackageResult Tlv → Action S (Unit {0})
  unfolding operation_result apply_package_state
  apply_operation_state operation result =
      if not (is_euicc_package operation.kind)
      then pure tt
      else (lift (decode_package_request lib operation.payload) >>= λ request.
          let pkg = request.euicc_package_signed.euicc_package in
          let parsed : Result (Option (PackageResult Tlv)) = elim (ok_data_of result) [
            | none ↦ ok none
            | some found ↦
                on_ok (operation_result (result_objects lib) pkg found.results)
                  (λ domain. ok (some domain))
          ] in
          lift parsed >>= λ domain.
          apply_package_state (asn1_codec lib) api ctx t operation.eid pkg domain)

  -- The state of a verified result in recordEimPackageResult.
  unfoldable pub apply_verified_state : Operation → Option (PackageResult Tlv) → Action S (Unit {0})
  unfolding signed_request_from_operation apply_package_state
  apply_verified_state operation domain =
      lift (signed_request_from_operation lib t eid operation) >>= λ request.
      apply_package_state (asn1_codec lib) api ctx t eid request.euicc_package domain

  -- The body of the loop of recordEimPackageResult where results are verified.
  unfoldable pub take_verified : PublicKey Key → Bytes → Bytes → Operation → Action S (Unit {0})
  unfolding verified_operation_result apply_verified_state status_eq
  take_verified public_key result_der payload operation =
      verified_operation_result lib crypto api ctx t eid operation result_der public_key
      >>= λ (domain, status).
          api.record_euicc_package_result ctx t (record_of operation status payload)
          >> (if status_eq status OperationStatus.done
              then apply_verified_state operation domain
              else pure tt)

  -- The same where they are not.
  unfoldable pub take_unverified : EuiccPackageResult Tlv → Bytes → Operation → Action S (Unit {0})
  unfolding result_status_for_operation apply_operation_state status_eq
  take_unverified result payload operation =
      lift (result_status_for_operation lib operation result) >>= λ status.
      api.record_euicc_package_result ctx t (record_of operation status payload)
      >> (if status_eq status OperationStatus.done
          then apply_operation_state operation result
          else pure tt)

  -- for _, operation := range operations
  unfoldable pub for_each : (Operation → Action S (Unit {0})) → List Operation → Action S (Unit {0})
  for_each body [] = pure tt
  for_each body (operation ∷ operations) =
      let rest = for_each body operations in body operation >> rest

  -- `publicKey == nil`
  abbrev pub present_key : PublicKey Key → Result (PublicKey Key)
  present_key nil_key = err missing_resolver
  present_key key = ok key

  -- The public key of the device, where results are verified.
  abbrev pub resolved_key : Option (EuiccPublicKeyResolver Key) → Result (PublicKey Key)
  resolved_key none = err missing_resolver
  resolved_key (some resolve) = on_ok (resolve ctx t eid) present_key

  -- recordEimPackageResultResponseError
  unfoldable pub record_response_error :
      Option EimPackageResultResponseError → Bytes → Action S EimAcknowledgements
  unfolding match_pending_euicc_package_by_correlation first_pending_euicc_package_operation
      for_each
  record_response_error failure payload =
      let transaction : Bytes = elim failure [
        | none ↦ []
        | some found ↦ or_nil found.eim_transaction_id
      ] in
      let operations : Action S (List Operation) =
        if bytes_eq transaction []
        then first_pending_euicc_package_operation lib api ctx t eid
        else match_pending_euicc_package_by_correlation lib api ctx t eid [] 0 transaction in
      operations >>= λ found.
      for_each
        (λ operation.
          api.record_euicc_package_result ctx t
            (record_of operation OperationStatus.failed payload))
        found
      >> pure (record { sequence_numbers = map (λ operation. operation.sequence_number) found })

  -- The status that a download trigger's result gives.
  unfoldable pub trigger_status : ProfileDownloadTriggerResult Tlv → OperationStatus
  trigger_status result = elim result.download_error [
    | some _ ↦ OperationStatus.failed
    | none ↦ elim result.profile_installation_succeeded [
      | none ↦ OperationStatus.done
      | some succeeded ↦ if succeeded then OperationStatus.done else OperationStatus.failed
    ]
  ]

  -- recordProfileDownloadTriggerResult
  unfoldable pub record_trigger_result : Tlv → Bytes → Action S EimAcknowledgements
  unfolding unmarshal_trigger_result pending_profile_download_trigger trigger_status
  record_trigger_result tlv payload = lift (unmarshal_trigger_result lib tlv) >>= λ result.
      pending_profile_download_trigger lib api ctx t eid (or_nil result.eim_transaction_id)
      >>= λ found. elim found [
        | none ↦ fail not_found
        | some operation ↦
            api.record_euicc_package_result ctx t
              (record_of operation (trigger_status result) payload)
            >> pure (record { sequence_numbers = operation.sequence_number ∷ [] })
      ]
