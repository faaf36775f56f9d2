-- ===== src/EuiccPkg/Verify/Trust.antt =====
-- About the successes that the checks of euiccpkg/service.go return.
use openiotrsp.Common.{
  ◌≡◌, refl, ap, subst, ◌≢◌, ◌↔◌, ◌⊎◌, inl, inr, Bool, true, not, ◌||◌, Option, none, some, [],
  arith, if_keeps, Bool-cases, ◌==◌, Bytes, eq_nat, eq_bytes, bytes_eq_iff, Int64, Error,
  transaction_mismatch, on_ok_keeps, Result, ok, err,
}
use openiotrsp.Asn1.Result.{
  EuiccPackageResult, EuiccPackageResultKind, kind_ok, kind_error_signed, kind_error_unsigned,
  kind_other, EuiccPackageResultSigned, EuiccPackageErrorSigned, EuiccPackageErrorUnsigned,
}
use openiotrsp.EuiccPkg.Result.{PackageResult}
use openiotrsp.EuiccPkg.Outcome.{TlvApi}
use openiotrsp.EuiccPkg.Outcome.Parse.{operation_result}
use openiotrsp.EuiccPkg.Verify.{
  Crypto, ResultInput, SignedRequest, signature_input, verify_signed_bytes, match_signed_result,
  verify_signed, is_verified, verify_error_signed, unsigned_outcome, verify_error_unsigned,
  verify_kind, verify_result,
}

module _ {Key : Type 0} (crypto : Crypto Key) where
  -- One of the two signature formats verifies over the digest of the data, which is not empty.
  abbrev pub SignedBy : Option Key → Bytes → Bytes → Type 0
  SignedBy found bytes signature =
      (key : Key) × (found ≡ some key)
      × (bytes ≢ [])
      × ((crypto.verify_asn1 key (crypto.sha256 bytes) signature ≡ true)
          ⊎ (crypto.verify_tr03111 key (crypto.sha256 bytes) signature ≡ ok true))

  is_verified_inv : (r : Result Bool) → is_verified r ≡ true → r ≡ ok true
  is_verified_inv (ok b) h = ap ok h
  is_verified_inv (err e) h = absurd (ground (arith, h))

  verify_signed_bytes-SignedBy :
      (found : Option Key) (bytes signature : Bytes)
      → verify_signed_bytes crypto found bytes signature ≡ ok tt
      → SignedBy found bytes signature
  unfolding verify_signed_bytes
  verify_signed_bytes-SignedBy none bytes signature h = absurd (ground (arith, h))
  verify_signed_bytes-SignedBy (some key) bytes signature h = (
    key,
    refl,
    ground (arith, h, bytes_eq_iff bytes []),
    elim (Bool-cases (crypto.verify_asn1 key (crypto.sha256 bytes) signature)) [
      | inl good ↦ inl good
      | inr bad ↦ inr (
          is_verified_inv (crypto.verify_tr03111 key (crypto.sha256 bytes) signature)
            (ground (arith, h, bad)))
    ],
  )

-- What a data object says is what the request says.
pub record Matches {Tlv : Type 0} (request : SignedRequest Tlv) (want_sequence : Int64)
    (eim_id : Bytes) (counter : Int64) (transaction_id : Bytes) (sequence : Int64) : Type 0 where
  pub same_eim : eim_id ≡ request.eim_id
  pub same_transaction : transaction_id ≡ request.eim_transaction_id
  pub same_counter : counter ≡ request.counter_value
  pub same_sequence : (want_sequence ≡ 0) ⊎ (sequence ≡ want_sequence)

-- matchSignedResult succeeds just when the data object names the eIM, the transaction and the
-- counter of the request, and the sequence number that is wanted, where one is (0 wants none).
pub match_signed_result-Matches :
    {Tlv : Type 0} (request : SignedRequest Tlv) (want_sequence : Int64) (eim_id : Bytes)
    (counter : Int64) (transaction_id : Bytes) (sequence : Int64)
    → (match_signed_result request want_sequence eim_id counter transaction_id sequence ≡ ok tt)
      ↔ Matches request want_sequence eim_id counter transaction_id sequence
unfolding match_signed_result
match_signed_result-Matches request want_sequence eim_id counter transaction_id sequence = (
  (λ h. record {
    same_eim = ground (arith, h, bytes_eq_iff eim_id request.eim_id);
    same_transaction = ground (arith, h, bytes_eq_iff transaction_id request.eim_transaction_id);
    same_counter = ground (arith, h);
    same_sequence = ground (arith, h);
  }),
  (λ m. ground (
    arith,
    m.same_eim,
    m.same_transaction,
    m.same_counter,
    m.same_sequence,
    bytes_eq_iff eim_id request.eim_id,
    bytes_eq_iff transaction_id request.eim_transaction_id,
  )),
)

module _ {Tlv Key : Type 0} (tlvs : TlvApi Tlv) (crypto : Crypto Key)
    (input : ResultInput Tlv Key) where
  -- The result has a signed part that answers the request and whose signature verifies over the
  -- raw signed data and the association token.
  pub record Trusted (decoded : EuiccPackageResult Tlv) (raw_signed_data : Bytes) : Type 0 where
    pub signed : EuiccPackageResultSigned Tlv
    pub present : decoded.signed ≡ some signed
    pub signed_input : Bytes
    pub covers : signature_input crypto raw_signed_data input.association_token ≡ ok signed_input
    pub verified : SignedBy crypto input.euicc_public_key signed_input signed.euicc_sign_epr
    pub answers :
        Matches input.request input.sequence_number signed.result_data.eim_id
          signed.result_data.counter_value signed.result_data.eim_transaction_id
          signed.result_data.seq_number

  module _ (decoded : EuiccPackageResult Tlv) (raw_signed_data : Bytes) where
    -- A success that is returned is trusted.
    abbrev Backs : Result (PackageResult Tlv) → Type 0
    Backs (ok r) = r.succeeded ≡ true → Trusted decoded raw_signed_data
    Backs (err e) = Unit {0}

    no_claim : (e : Error) → Backs (err e)
    no_claim e = tt

    any_result : (r : Result (PackageResult Tlv)) → Trusted decoded raw_signed_data → Backs r
    any_result (ok r) trusted = λ h. trusted
    any_result (err e) trusted = tt

    signed-Backs :
        (signed_input : Bytes) (found : Option (EuiccPackageResultSigned Tlv))
        → decoded.signed ≡ found
        → signature_input crypto raw_signed_data input.association_token ≡ ok signed_input
        → Backs (verify_signed tlvs crypto input signed_input found)
    unfolding verify_signed
    signed-Backs signed_input none there covers = tt
    signed-Backs signed_input (some signed) there covers =
        let found = signed.result_data in
        on_ok_keeps Backs
          (verify_signed_bytes crypto input.euicc_public_key signed_input signed.euicc_sign_epr) _
          no_claim
          (λ x verified.
            on_ok_keeps Backs
              (match_signed_result input.request input.sequence_number found.eim_id
                found.counter_value found.eim_transaction_id found.seq_number)
              _ no_claim
              (λ y matched.
                any_result (operation_result tlvs input.request.euicc_package found.results)
                  (record {
                    signed = signed;
                    present = there;
                    signed_input = signed_input;
                    covers = covers;
                    verified =
                        verify_signed_bytes-SignedBy crypto input.euicc_public_key signed_input
                          signed.euicc_sign_epr verified;
                    answers =
                        (match_signed_result-Matches input.request input.sequence_number
                            found.eim_id found.counter_value found.eim_transaction_id
                            found.seq_number).0
                          matched;
                  })))

    error_signed-Backs :
        (signed_input : Bytes) (found : Option EuiccPackageErrorSigned)
        → Backs (verify_error_signed tlvs crypto input signed_input found)
    unfolding verify_error_signed
    error_signed-Backs signed_input none = tt
    error_signed-Backs signed_input (some found) =
        on_ok_keeps Backs
          (verify_signed_bytes crypto input.euicc_public_key signed_input found.euicc_sign_epe) _
          no_claim
          (λ x verified.
            on_ok_keeps Backs
              (match_signed_result input.request 0 found.error_data.eim_id
                found.error_data.counter_value found.error_data.eim_transaction_id 0)
              _ no_claim (λ y matched h. absurd (ground (arith, h))))

    unsigned-Backs : (code : Option Int64) → Backs (ok (unsigned_outcome tlvs crypto input code))
    unfolding unsigned_outcome
    unsigned-Backs none h = absurd (ground (arith, h))
    unsigned-Backs (some code) h = absurd (ground (arith, h))

    error_unsigned-Backs :
        (found : Option EuiccPackageErrorUnsigned)
        → Backs (verify_error_unsigned tlvs crypto input found)
    unfolding verify_error_unsigned
    error_unsigned-Backs none = tt
    error_unsigned-Backs (some found) =
        if_keeps Backs
          (not (found.eim_id == input.request.eim_id)
            || not (found.eim_transaction_id == input.request.eim_transaction_id))
          (err transaction_mismatch) (ok (unsigned_outcome tlvs crypto input found.error_code)) tt
          (unsigned-Backs found.error_code)

    kind-Backs :
        (kind : EuiccPackageResultKind) (signed_input : Bytes)
        → signature_input crypto raw_signed_data input.association_token ≡ ok signed_input
        → Backs (verify_kind tlvs crypto input kind decoded signed_input)
    unfolding verify_kind
    kind-Backs kind_ok signed_input covers = signed-Backs signed_input decoded.signed refl covers
    kind-Backs kind_error_signed signed_input covers =
        error_signed-Backs signed_input decoded.error_signed
    kind-Backs kind_error_unsigned signed_input covers = error_unsigned-Backs decoded.error_unsigned
    kind-Backs (kind_other k) signed_input covers = tt

    -- A success that verifyResult returns is trusted: the public key is an ECDSA key, and the
    -- decoded result has a signed part whose signature verifies with it, in one of two formats,
    -- over the digest of the raw signed data and the association token, and that names the eIM, the transaction and the counter of the request, and the wanted
    -- sequence number, where one is wanted.
    pub verify_result-Trusted :
        (r : PackageResult Tlv)
        → verify_result tlvs crypto input decoded raw_signed_data ≡ ok r
        → r.succeeded ≡ true
        → Trusted decoded raw_signed_data
    unfolding verify_result
    verify_result-Trusted r e = subst Backs e (
        on_ok_keeps Backs (signature_input crypto raw_signed_data input.association_token) _
          no_claim (λ signed_input covers. kind-Backs decoded.kind signed_input covers))
