-- ===== src/EuiccPkg/Verify.antt =====
-- euiccpkg/service.go: the checks of a decoded package result against the signed request.
pub mod Trust
pub mod Acceptance
use openiotrsp.Common.{
  ◌+◌, ◌-◌, ◌/◌, Bool, false, not, ◌&&◌, ◌||◌, Option, none, some, [], ◌++◌, arith, if◌then◌else◌,
  ◌==◌, Bytes, ascii, eq_nat, eq_bytes, bytes_eq, Int64, signature_invalid, transaction_mismatch,
  counter_mismatch, on_ok, invalid_input, Result, ok, err, ◌>>=◌, ◌>>◌,
}
use openiotrsp.Storage.{TenantId}
use openiotrsp.Asn1.Package.{EuiccPackage, EuiccPackageRequest}
use openiotrsp.Asn1.Result.{
  EuiccPackageResult, EuiccPackageResultKind, kind_ok, kind_error_signed, kind_error_unsigned,
  kind_other, EuiccPackageResultSigned, EuiccPackageErrorSigned, EuiccPackageErrorUnsigned,
}
use openiotrsp.EuiccPkg.Result.{PackageResult, unsigned_missing}
use openiotrsp.EuiccPkg.Outcome.{TlvApi, zero_result, map_package_error, map_unsigned_package_error}
use openiotrsp.EuiccPkg.Outcome.Parse.{operation_result}

-- What the checks need of crypto/sha256, crypto/ecdsa, pki.VerifyECDSATR03111 and bertlv: the last
-- encodes the object [4] INTEGER.
pub record Crypto (Key : Type 0) : Type 0 where
  pub sha256 : Bytes → Bytes
  pub verify_asn1 : Key → Bytes → Bytes → Bool
  pub verify_tr03111 : Key → Bytes → Bytes → Result Bool
  pub association_token_tlv : Int64 → Result Bytes

module _ (Tlv : Type 0) where
  pub record SignedRequest : Type 0 where
    pub request : EuiccPackageRequest Tlv
    pub der : Bytes
    pub signed_der : Bytes
    pub signature_input_bytes : Bytes
    pub tenant_id : TenantId
    pub eid : Bytes
    pub eid_value : Bytes
    pub eim_id : Bytes
    pub counter_value : Int64
    pub eim_transaction_id : Bytes
    pub euicc_package : EuiccPackage Tlv

  -- ResultInput; a public key that is no ECDSA key is none.
  pub record ResultInput (Key : Type 0) : Type 0 where
    pub request : SignedRequest
    pub result_der : Bytes
    pub euicc_public_key : Option Key
    pub association_token : Option Int64
    pub operation_id : Int64
    pub sequence_number : Int64

abbrev pub is_verified : Result Bool → Bool
is_verified (ok b) = b
is_verified (err e) = false

module _ {Key : Type 0} (crypto : Crypto Key) where
  -- signatureInput
  unfoldable pub signature_input : Bytes → Option Int64 → Result Bytes
  signature_input signed_der association_token =
      let value : Int64 = elim association_token [ none ↦ 0 | some token ↦ token ] in
      on_ok (crypto.association_token_tlv value) (λ token_der. ok (signed_der ++ token_der))

  -- verifySignedBytes
  unfoldable pub verify_signed_bytes : Option Key → Bytes → Bytes → Result (Unit {0})
  verify_signed_bytes none signed_data signature =
      err (invalid_input (ascii "unsupported eUICC public key type"))
  verify_signed_bytes (some key) signed_data signature =
      let digest = crypto.sha256 signed_data in
      if bytes_eq signed_data []
      then err (invalid_input (ascii "missing raw signed data"))
      else if crypto.verify_asn1 key digest signature
      then ok tt
      else if is_verified (crypto.verify_tr03111 key digest signature)
      then ok tt
      else err signature_invalid

module _ {Tlv : Type 0} where
  -- matchSignedResult
  unfoldable pub match_signed_result :
      SignedRequest Tlv → Int64 → Bytes → Int64 → Bytes → Int64 → Result (Unit {0})
  match_signed_result request want_sequence eim_id counter transaction_id sequence =
      if not (eim_id == request.eim_id) || not (transaction_id == request.eim_transaction_id)
      then err transaction_mismatch
      else if not (counter == request.counter_value)
      then err counter_mismatch
      else if not (want_sequence == 0) && not (sequence == want_sequence)
      then err transaction_mismatch
      else ok tt

module _ {Tlv Key : Type 0} (tlvs : TlvApi Tlv) (crypto : Crypto Key)
    (input : ResultInput Tlv Key) where
  -- The first case of verifyResult.
  unfoldable pub verify_signed :
      Bytes → Option (EuiccPackageResultSigned Tlv) → Result (PackageResult Tlv)
  unfolding verify_signed_bytes match_signed_result operation_result
  verify_signed signed_input none = err (invalid_input (ascii "missing signed result"))
  verify_signed signed_input (some signed) =
      let found = signed.result_data in
      on_ok (verify_signed_bytes crypto input.euicc_public_key signed_input signed.euicc_sign_epr)
        λ _.
          on_ok
            (match_signed_result input.request input.sequence_number found.eim_id
              found.counter_value found.eim_transaction_id found.seq_number)
            (λ _. operation_result tlvs input.request.euicc_package found.results)

  -- The second case.
  unfoldable pub verify_error_signed :
      Bytes → Option EuiccPackageErrorSigned → Result (PackageResult Tlv)
  unfolding verify_signed_bytes match_signed_result map_package_error
  verify_error_signed signed_input none = err (invalid_input (ascii "missing signed package error"))
  verify_error_signed signed_input (some signed) =
      let found = signed.error_data in
      on_ok (verify_signed_bytes crypto input.euicc_public_key signed_input signed.euicc_sign_epe)
        λ _.
          on_ok
            (match_signed_result input.request 0 found.eim_id found.counter_value
              found.eim_transaction_id 0)
            (λ _. ok (record zero_result {
              package_error = map_package_error found.error_code;
              raw_package_error = found.error_code;
            }))

  unfoldable pub unsigned_outcome : Option Int64 → PackageResult Tlv
  unfolding map_unsigned_package_error
  unsigned_outcome none = record zero_result { unsigned_package_error = unsigned_missing }
  unsigned_outcome (some code) = record zero_result {
    unsigned_package_error = map_unsigned_package_error code;
    raw_unsigned_error = code;
  }

  -- The third case.
  unfoldable pub verify_error_unsigned :
      Option EuiccPackageErrorUnsigned → Result (PackageResult Tlv)
  unfolding unsigned_outcome
  verify_error_unsigned none = err (invalid_input (ascii "missing unsigned package error"))
  verify_error_unsigned (some found) =
      if not (found.eim_id == input.request.eim_id)
        || not (found.eim_transaction_id == input.request.eim_transaction_id)
      then err transaction_mismatch
      else ok (unsigned_outcome found.error_code)

  -- The switch of verifyResult.
  unfoldable pub verify_kind :
      EuiccPackageResultKind → EuiccPackageResult Tlv → Bytes → Result (PackageResult Tlv)
  unfolding verify_signed verify_error_signed verify_error_unsigned
  verify_kind kind_ok decoded signed_input = verify_signed signed_input decoded.signed
  verify_kind kind_error_signed decoded signed_input =
      verify_error_signed signed_input decoded.error_signed
  verify_kind kind_error_unsigned decoded signed_input =
      verify_error_unsigned decoded.error_unsigned
  verify_kind (kind_other _) decoded signed_input =
      err (invalid_input (ascii "unsupported result kind"))

  -- verifyResult
  unfoldable pub verify_result : EuiccPackageResult Tlv → Bytes → Result (PackageResult Tlv)
  unfolding signature_input verify_kind
  verify_result decoded raw_signed_data =
      on_ok (signature_input crypto raw_signed_data input.association_token)
        (verify_kind decoded.kind decoded)
