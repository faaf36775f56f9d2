-- ===== src/EuiccPkg/Service.antt =====
-- euiccpkg/service.go: signing a package for a device, and taking in its result. A Service here has
-- a store and a signer, so the checks for nil ones have no counterpart; the log lines have none
-- either. An error that is wrapped stays the error that it wraps.
pub mod Counter
pub mod Untrusted
pub mod Intake
use openiotrsp.Common.{
  ◌-◌, ◌/◌, Bool, true, false, not, ◌||◌, Option, none, some, [], arith, if◌then◌else◌, ◌==◌, Bytes,
  ascii, eq_nat, eq_bytes, bytes_eq, Int64, on_ok, invalid_input, Result, ok, Context, Action, pure,
  fail, lift, ◌>>=◌, ◌>>◌,
}
use openiotrsp.Storage.{TenantId, OperationStatus}
use openiotrsp.Storage.Api.{StoreApi}
use openiotrsp.Asn1.Package.{EuiccPackage, EuiccPackageSigned, EuiccPackageRequest}
use openiotrsp.Asn1.Result.{EuiccPackageResult}
use openiotrsp.EuiccPkg.Result.{PackageResult}
use openiotrsp.Asn1.Codec.{or_nil}
use openiotrsp.EuiccPkg.Association.{EimCodec, stored_token, apply_package_state}
use openiotrsp.EuiccPkg.Outcome.{TlvApi}
use openiotrsp.EuiccPkg.RawTlv.{raw_signed_data_from_result_der}
use openiotrsp.EuiccPkg.Verify.{Crypto, ResultInput, SignedRequest, signature_input, verify_result}

-- The signer, and the codec of asn1 for what is signed, sent and received.
pub record Wire (Tlv : Type 0) : Type 0 where
  pub sign_bytes : Context → Bytes → Result Bytes
  pub encode_signed : EuiccPackageSigned Tlv → Result Bytes
  pub encode_request : EuiccPackageRequest Tlv → Result Bytes
  pub decode_result : Bytes → Result (EuiccPackageResult Tlv)

pub record SignInput (Tlv : Type 0) : Type 0 where
  pub tenant_id : TenantId
  pub eid : Bytes
  pub eid_value : Bytes
  pub eim_transaction_id : Option Bytes
  pub association_token : Option Int64
  pub euicc_package : EuiccPackage Tlv

module _ {S Tlv Key : Type 0} (api : StoreApi S) (codec : EimCodec Tlv) (tlvs : TlvApi Tlv)
    (crypto : Crypto Key) (wire : Wire Tlv) (eim_id : Bytes) (ctx : Context) where
  -- AssociationTokenForEIM
  unfoldable pub association_token_for_eim : TenantId → Bytes → Action S (Option Int64)
  unfolding stored_token
  association_token_for_eim t eid s =
      let (associated, r) = api.get_associated_eim ctx t eid eim_id s in
      (stored_token codec associated, r)

  -- The token that is given, or else the stored one.
  unfoldable pub token_or_stored : Option Int64 → TenantId → Bytes → Action S (Option Int64)
  unfolding association_token_for_eim
  token_or_stored (some token) t eid = pure (some token)
  token_or_stored none t eid = association_token_for_eim t eid

  -- The end of Sign, with the bytes to be signed.
  unfoldable pub finish_request :
      SignInput Tlv → EuiccPackageSigned Tlv → Bytes → Bytes → Result (SignedRequest Tlv)
  finish_request input signed signed_der input_bytes =
      on_ok (wire.sign_bytes ctx input_bytes) λ signature.
        let request : EuiccPackageRequest Tlv = record {
          euicc_package_signed = signed;
          eim_signature = signature;
        } in
        on_ok (wire.encode_request request) (λ der. ok (record {
          request = request;
          der = der;
          signed_der = signed_der;
          signature_input_bytes = input_bytes;
          tenant_id = input.tenant_id;
          eid = input.eid;
          eid_value = input.eid_value;
          eim_id = eim_id;
          counter_value = signed.counter_value;
          eim_transaction_id = or_nil input.eim_transaction_id;
          euicc_package = input.euicc_package;
        }))

  -- Sign, once it has the counter
  unfoldable pub sign_with_counter : SignInput Tlv → Int64 → Action S (SignedRequest Tlv)
  unfolding token_or_stored signature_input finish_request
  sign_with_counter input counter =
      let signed : EuiccPackageSigned Tlv = record {
        eim_id = eim_id;
        eid = input.eid_value;
        counter_value = counter;
        eim_transaction_id = input.eim_transaction_id;
        euicc_package = input.euicc_package;
      } in
      lift (wire.encode_signed signed) >>= λ signed_der.
      token_or_stored input.association_token input.tenant_id input.eid >>= λ token.
      lift
        (on_ok (signature_input crypto signed_der token) (finish_request input signed signed_der))

  -- Sign
  unfoldable pub sign : SignInput Tlv → Action S (SignedRequest Tlv)
  unfolding sign_with_counter
  sign input =
      if bytes_eq eim_id []
      then fail (invalid_input (ascii "missing eIM ID"))
      else if bytes_eq input.eid []
      then fail (invalid_input (ascii "missing EID"))
      else (api.next_euicc_package_counter ctx input.tenant_id input.eid
          >>= sign_with_counter input)

  -- VerifyPackageResult
  unfoldable pub verify_package_result : ResultInput Tlv Key → Result (PackageResult Tlv)
  unfolding raw_signed_data_from_result_der verify_result
  verify_package_result input = on_ok (wire.decode_result input.result_der) λ decoded.
      on_ok (raw_signed_data_from_result_der input.result_der)
        (verify_result tlvs crypto input decoded)

  unfoldable pub result_status : Bool → OperationStatus
  result_status true = OperationStatus.done
  result_status false = OperationStatus.failed

  -- The record of a verified result, if it is for an operation.
  unfoldable pub record_result : ResultInput Tlv Key → PackageResult Tlv → Action S (Unit {0})
  unfolding result_status
  record_result input result =
      if not (input.operation_id == 0) || not (input.sequence_number == 0)
      then api.record_euicc_package_result ctx input.request.tenant_id (record {
        eid = input.request.eid;
        operation_id = input.operation_id;
        sequence_number = input.sequence_number;
        status = result_status result.succeeded;
        payload = input.result_der;
      })
      else pure tt

  -- VerifyAndApplyResult, once the result is verified
  unfoldable pub take_in : ResultInput Tlv Key → PackageResult Tlv → Action S (PackageResult Tlv)
  unfolding record_result apply_package_state
  take_in input result =
      let request = input.request in
      let applied : Action S (Unit {0}) =
        if result.succeeded
        then apply_package_state codec api ctx request.tenant_id request.eid request.euicc_package
            (some result)
        else pure tt in
      record_result input result >> applied >> pure result

  -- VerifyAndApplyResult
  unfoldable pub verify_and_apply_result : ResultInput Tlv Key → Action S (PackageResult Tlv)
  unfolding token_or_stored verify_package_result take_in
  verify_and_apply_result input =
      token_or_stored input.association_token input.request.tenant_id input.request.eid >>= λ token.
      let found : ResultInput Tlv Key = record input { association_token = token } in
      lift (verify_package_result found) >>= take_in found
