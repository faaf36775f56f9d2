-- ===== src/EuiccPkg/Verify/Acceptance.antt =====
-- About the results that the checks of euiccpkg/service.go accept.
use openiotrsp.Common.{
  ◌≡◌, refl, inl, inr, arith, Bytes, eq_nat, eq_bytes, bytes_eq_iff, Option, ok, [],
}
use openiotrsp.Asn1.Result.{EuiccPackageResult, kind_ok}
use openiotrsp.EuiccPkg.Outcome.{TlvApi}
use openiotrsp.EuiccPkg.Outcome.Parse.{operation_result}
use openiotrsp.EuiccPkg.Verify.{
  Crypto, ResultInput, verify_signed_bytes, verify_signed, verify_kind, verify_result,
}
use openiotrsp.EuiccPkg.Verify.Trust.{SignedBy, Trusted, match_signed_result-Matches}

module _ {Key : Type 0} (crypto : Crypto Key) where
  signed_accepted :
      (found : Option Key) (bytes signature : Bytes)
      → SignedBy crypto found bytes signature
      → verify_signed_bytes crypto found bytes signature ≡ ok tt
  unfolding verify_signed_bytes
  signed_accepted found bytes signature (key, there, filled, inl good) =
      rw there (ground (arith, filled, bytes_eq_iff bytes [], good))
  signed_accepted found bytes signature (key, there, filled, inr good) =
      rw there (ground (arith, filled, bytes_eq_iff bytes [], good))

module _ {Tlv Key : Type 0} (tlvs : TlvApi Tlv) (crypto : Crypto Key)
    (input : ResultInput Tlv Key) where
  -- A result of the signed kind that is trusted is answered with what its data says.
  pub Trusted-accepted :
      (decoded : EuiccPackageResult Tlv) (raw_signed_data : Bytes)
      → decoded.kind ≡ kind_ok
      → (t : Trusted tlvs crypto input decoded raw_signed_data)
      → verify_result tlvs crypto input decoded raw_signed_data
        ≡ operation_result tlvs input.request.euicc_package t.signed.result_data.results
  unfolding verify_result verify_kind verify_signed
  Trusted-accepted decoded raw_signed_data kind t =
      let found = t.signed.result_data in
      rw
        (
          verify_result,
          t.covers,
          kind,
          t.present,
          signed_accepted crypto input.euicc_public_key t.signed_input t.signed.euicc_sign_epr
              t.verified,
          (match_signed_result-Matches input.request input.sequence_number found.eim_id
                found.counter_value found.eim_transaction_id found.seq_number).1
              t.answers,
        )
        refl
