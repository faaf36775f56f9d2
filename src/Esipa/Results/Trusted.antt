-- ===== src/Esipa/Results/Trusted.antt =====
-- About which results finish an operation where results are verified.
use openiotrsp.Common.{bytes_eq}
use openiotrsp.Asn1.Result.Values.{result_objects}
use openiotrsp.Asn1.Result.Decode.{unmarshal_package_result}
use openiotrsp.Asn1.Result.{EuiccPackageResult}
use openiotrsp.EuiccPkg.RawTlv.{raw_signed_data_from_result_der}
use openiotrsp.EuiccPkg.Result.{PackageResult}
use openiotrsp.Esipa.Results.{
  Taken, signed_request_from_operation, taken_result, verify_with, asn1_codec, input_of, asn1_wire,
}
use openiotrsp.Esipa.{PublicKey}
use openiotrsp.Asn1.Codec.{decode}
use openiotrsp.Storage.{TenantId, Operation, OperationStatus, status_eq}
use openiotrsp.Storage.Api.{StoreApi}
use openiotrsp.EuiccPkg.Verify.{Crypto, SignedRequest, ResultInput, verify_result}
use openiotrsp.EuiccPkg.Verify.Trust.{Trusted, verify_result-Trusted}
use openiotrsp.EuiccPkg.Service.{verify_package_result, association_token_for_eim}
use openiotrsp.Esipa.Results.{verified_operation_result}
use openiotrsp.Common.{
  ◌≡◌, refl, ap, subst, true, Option, some, arith, Bytes, eq_nat, eq_bytes, Int64, Error, not_found,
  signature_invalid, transaction_mismatch, counter_mismatch, result_not_found, on_ok_keeps,
  after_keeps, context_error, invalid_input, encoding_error, Result, ok, err, Context,
}
use openiotrsp.Asn1.Tlv.{Bertlv}

module _ {S Tlv Key : Type 0} (lib : Bertlv Tlv) (crypto : Crypto Key) (api : StoreApi S)
    (ctx : Context) (t : TenantId) (eid : Bytes) (operation : Operation) (result_der : Bytes)
    (key : PublicKey Key) where
  -- The result is signed and answers the request of the operation, and says that it succeeded.
  pub record IsVerified (s : S) (domain : Option (PackageResult Tlv)) : Type 0 where
    pub request : SignedRequest Tlv
    pub asked : signed_request_from_operation lib t eid operation ≡ ok request
    pub token : Option Int64
    pub decoded : EuiccPackageResult Tlv
    pub came : decode lib (unmarshal_package_result lib) result_der ≡ ok decoded
    pub raw_signed_data : Bytes
    pub part : raw_signed_data_from_result_der result_der ≡ ok raw_signed_data
    pub trusted :
        Trusted
          (result_objects lib)
          crypto
          (input_of lib crypto api ctx t eid request result_der key token)
          decoded
          raw_signed_data
    pub outcome : PackageResult Tlv
    pub passed_on : domain ≡ some outcome
    pub succeeded : outcome.succeeded ≡ true

  abbrev Finished : S → Result (Taken Tlv) × S → Type 0
  Finished s (ok (domain, status), r) =
      status_eq status OperationStatus.done ≡ true → IsVerified s domain
  Finished s (err e, r) = Unit {0}

  failed_keeps : (s r : S) (e : Error) → Finished s (taken_result (err e), r)
  unfolding status_eq
  failed_keeps s r not_found = tt
  failed_keeps s r signature_invalid = tt
  failed_keeps s r transaction_mismatch = tt
  failed_keeps s r counter_mismatch = tt
  failed_keeps s r result_not_found = λ h. ground arith
  failed_keeps s r (context_error e) = tt
  failed_keeps s r (invalid_input e) = tt
  failed_keeps s r (encoding_error e) = tt

  module _ (s r : S) (request : SignedRequest Tlv) (token : Option Int64)
      (asked : signed_request_from_operation lib t eid operation ≡ ok request) where
    abbrev input : ResultInput Tlv Key
    input = input_of lib crypto api ctx t eid request result_der key token

    succeeded_keeps :
        (decoded : EuiccPackageResult Tlv) (raw : Bytes)
        → decode lib (unmarshal_package_result lib) result_der ≡ ok decoded
        → raw_signed_data_from_result_der result_der ≡ ok raw
        → (x : Result (PackageResult Tlv))
        → verify_result (result_objects lib) crypto input decoded raw ≡ x
        → Finished s (taken_result x, r)
    unfolding status_eq
    succeeded_keeps decoded raw came part (err e) f = failed_keeps s r e
    succeeded_keeps decoded raw came part (ok outcome) f = λ h.
        let success : outcome.succeeded ≡ true = ground arith in
        record {
          request = request;
          asked = asked;
          token = token;
          decoded = decoded;
          came = came;
          raw_signed_data = raw;
          part = part;
          trusted =
              verify_result-Trusted (result_objects lib) crypto input decoded raw outcome f success;
          outcome = outcome;
          passed_on = refl;
          succeeded = success;
        }

    taken :
        Finished s
          (taken_result (verify_with lib crypto api ctx t eid request result_der key token), r)
    unfolding verify_package_result asn1_wire decode verify_with bytes_eq
    taken =
        on_ok_keeps (λ x. Finished s (taken_result x, r))
          (decode lib (unmarshal_package_result lib) result_der) _ (failed_keeps s r)
          (λ decoded came.
            on_ok_keeps (λ x. Finished s (taken_result x, r))
              (raw_signed_data_from_result_der result_der) _ (failed_keeps s r)
              (λ raw part. succeeded_keeps decoded raw came part _ refl))

  -- Where results are verified, a result leaves its operation done only if it decodes, it passes the
  -- trust checks against the request that the operation's payload carries, its signature over the raw
  -- signed data included, and the outcome that is passed on says that it succeeded.
  pub verified_operation_result-IsVerified :
      (s r : S) (domain : Option (PackageResult Tlv))
      → verified_operation_result lib crypto api ctx t eid operation result_der key s
        ≡ (ok (domain, OperationStatus.done), r)
      → IsVerified s domain
  unfolding verified_operation_result status_eq
  verified_operation_result-IsVerified s r domain e =
      subst (Finished s) e
        (after_keeps (Finished s) (signed_request_from_operation lib t eid operation, s) _
          (λ x u. tt)
          (λ request u asked.
            after_keeps (Finished s)
              (association_token_for_eim api (asn1_codec lib) (result_objects lib) crypto
                (asn1_wire lib) request.eim_id ctx t eid u)
              _ (λ x w. tt) (λ token w found. taken s w request token (ap (λ x. x.0) asked))))
        refl
