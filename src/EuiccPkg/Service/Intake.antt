-- ===== src/EuiccPkg/Service/Intake.antt =====
-- About everything that VerifyAndApplyResult of euiccpkg/service.go does with a result.
use openiotrsp.EuiccPkg.Verify.Acceptance.{Trusted-accepted}
use openiotrsp.Common.{
  ◌≡◌, refl, ap, sym, ◌∙◌, subst, ◌⊎◌, inl, inr, Bool, true, false, ◌&&◌, Option, none, some, arith,
  Bool-cases, Option-cases, if◌then◌else◌, ◌==◌, Bytes, eq_nat, eq_bytes, Int64, Error, after,
  Result, ok, err, Action, pure, lift, ◌>>=◌, ◌>>◌,
}
use openiotrsp.Storage.{OperationStatus, AssociatedEim}
use openiotrsp.Storage.Api.{StoreApi, DeviceView, live}
use openiotrsp.Asn1.Result.{EuiccPackageResult, kind_ok}
use openiotrsp.EuiccPkg.Association.{EimCodec, stored_token, apply_package_state}
use openiotrsp.EuiccPkg.Association.Tokens.{TokenBefore}
use openiotrsp.EuiccPkg.Outcome.{TlvApi}
use openiotrsp.EuiccPkg.Outcome.Parse.{operation_result}
use openiotrsp.EuiccPkg.RawTlv.{raw_signed_data_from_result_der}
use openiotrsp.EuiccPkg.Result.{PackageResult}
use openiotrsp.EuiccPkg.Verify.{Crypto, ResultInput, verify_result}
use openiotrsp.EuiccPkg.Verify.Trust.{Trusted, verify_result-Trusted}
use openiotrsp.EuiccPkg.Service.{
  Wire, association_token_for_eim, token_or_stored, verify_package_result, record_result, take_in,
  verify_and_apply_result, result_status,
}

result_cases {ℓ} :
    {A : Type ℓ} (r : Result A) → ((a : A) × (r ≡ ok a)) ⊎ ((e : Error) × (r ≡ err e))
result_cases (ok a) = inl (a, refl)
result_cases (err e) = inr (e, refl)

step_skipped {ℓ} :
    {S : Type ℓ} {A : Type 0} (x : Result (Unit {0}) × S) (next : Action S A)
    → after {A = Unit {0}} (after {B = Unit {0}} x (λ _. pure tt)) (λ _. next) ≡ after x (λ _. next)
step_skipped (ok a, r) next = refl
step_skipped (err e, r) next = refl

skipped {ℓ} :
    {S : Type ℓ} {A : Type 0} (b : Bool) (x : Result (Unit {0}) × S) (step : Action S (Unit {0}))
    (next : Action S A)
    → b ≡ false
    → after {A = Unit {0}} (after {B = Unit {0}} x (λ _. if b then step else pure tt)) (λ _. next)
      ≡ after x (λ _. next)
skipped true x step next h = absurd (ground (arith, h))
skipped false x step next h = step_skipped x next

performed {ℓ} :
    {S : Type ℓ} {A : Type 0} (b : Bool) (x : Result (Unit {0}) × S) (step : Action S (Unit {0}))
    (next : Action S A)
    → b ≡ true
    → after {A = Unit {0}} (after {B = Unit {0}} x (λ _. if b then step else pure tt)) (λ _. next)
      ≡ after {A = Unit {0}} (after {B = Unit {0}} x (λ _. step)) (λ _. next)
performed true x step next h = refl
performed false x step next h = absurd (ground (arith, h))

module _ {S Tlv Key : Type 0} (api : StoreApi S) (codec : EimCodec Tlv) (tlvs : TlvApi Tlv)
    (crypto : Crypto Key) (wire : Wire Tlv) (eim_id : Bytes) (input : ResultInput Tlv Key)
    (w : DeviceView api input.request.tenant_id input.request.eid) where
  -- The input with the association token that the check uses.
  abbrev pub with_used : Option Int64 → ResultInput Tlv Key
  with_used token = record input { association_token = token }

  -- The given token, or else the one that the eIM's association holds.
  abbrev pub TokenUsed : S → Option Int64 → Option Int64 → Type 0
  TokenUsed s (some given) token = token ≡ some given
  TokenUsed s none token =
      TokenBefore codec api input.request.tenant_id input.request.eid w s eim_id token

  -- No token is given and the association's payload does not decode.
  abbrev pub Undecodable : S → Error → Type 0
  Undecodable s e =
      (input.association_token ≡ none)
      × ((held : AssociatedEim) × (w.associated s eim_id ≡ some held)
          × (codec.decode held.config_payload ≡ err e))

  -- The result decodes and passes the check, and a success is trusted.
  pub record Checked (s : S) (token : Option Int64) (result : PackageResult Tlv) : Type 0 where
    pub used : TokenUsed s input.association_token token
    pub decoded : EuiccPackageResult Tlv
    pub came : wire.decode_result input.result_der ≡ ok decoded
    pub raw_signed_data : Bytes
    pub part : raw_signed_data_from_result_der input.result_der ≡ ok raw_signed_data
    pub verdict : verify_result tlvs crypto (with_used token) decoded raw_signed_data ≡ ok result
    pub trusted :
        result.succeeded ≡ true → Trusted tlvs crypto (with_used token) decoded raw_signed_data

  -- Why a decoded result with its raw signed data is refused. One that is trusted is refused only
  -- where its result data cannot be read.
  abbrev Failure : Option Int64 → EuiccPackageResult Tlv → Bytes → Error → Type 0
  Failure token decoded raw e =
      (verify_result tlvs crypto (with_used token) decoded raw ≡ err e)
      × (decoded.kind ≡ kind_ok
          → (trusted : Trusted tlvs crypto (with_used token) decoded raw)
          → operation_result tlvs input.request.euicc_package trusted.signed.result_data.results
            ≡ err e)

  abbrev pub Refused : S → Error → Type 0
  Refused s e =
      Undecodable s e
      ⊎ ((token : Option Int64) × TokenUsed s input.association_token token
          × ((wire.decode_result input.result_der ≡ err e)
              ⊎ ((decoded : EuiccPackageResult Tlv) × (wire.decode_result input.result_der
                    ≡ ok decoded)
                  × ((raw_signed_data_from_result_der input.result_der ≡ err e)
                      ⊎ ((raw : Bytes) × (raw_signed_data_from_result_der input.result_der ≡ ok raw)
                          × Failure token decoded raw e)))))

  -- The record of the result for the operation that it names, if it names one.
  abbrev pub recorded : OperationStatus → Action S (Unit {0})
  recorded status =
      if (input.operation_id == 0) && (input.sequence_number == 0)
      then pure tt
      else api.record_euicc_package_result live input.request.tenant_id (record {
        eid = input.request.eid;
        operation_id = input.operation_id;
        sequence_number = input.sequence_number;
        status = status;
        payload = input.result_der;
      })

  abbrev pub applied : PackageResult Tlv → Action S (Unit {0})
  applied result =
      apply_package_state codec api live input.request.tenant_id input.request.eid
        input.request.euicc_package (some result)

  -- The three ways in which a result is answered.
  abbrev pub Answered : S → Result (PackageResult Tlv) × S → Type 0
  Answered s x =
      ((e : Error) × Refused s e × (x ≡ (err e, s)))
      ⊎ ((token : Option Int64) × (result : PackageResult Tlv) × Checked s token result
          × (result.succeeded ≡ false)
          × (x ≡ (recorded OperationStatus.failed >> pure result) s))
      ⊎ ((token : Option Int64) × (result : PackageResult Tlv) × Checked s token result
          × (result.succeeded ≡ true)
          × (x ≡ (recorded OperationStatus.done >> applied result >> pure result) s))

  token_known :
      (given : Option Int64) (s : S)
      → ((token : Option Int64) × TokenUsed s given token
          × (token_or_stored api codec tlvs crypto wire eim_id live given input.request.tenant_id
                input.request.eid s
              ≡ (ok token, s)))
        ⊎ ((e : Error) × (given ≡ none)
            × ((held : AssociatedEim) × (w.associated s eim_id ≡ some held)
                × (codec.decode held.config_payload ≡ err e))
            × (token_or_stored api codec tlvs crypto wire eim_id live given input.request.tenant_id
                  input.request.eid s
                ≡ (err e, s)))
  unfolding token_or_stored association_token_for_eim stored_token
  token_known (some token) s = inl (some token, refl, refl)
  token_known none s = elim (Option-cases (w.associated s eim_id)) [
    | inl missing ↦ inl (none, inl (missing, refl), rw (w.get_associated s eim_id, missing) refl)
    | inr (held, there) ↦ elim (result_cases (codec.decode held.config_payload)) [
      | inl (config, decoded) ↦ inl (
        config.association_token,
        inr (held, config, there, decoded, refl),
        rw (w.get_associated s eim_id, there, decoded) refl,
      )
      | inr (e, failed) ↦
          inr (e, refl, (held, there, failed), rw (w.get_associated s eim_id, there, failed) refl)
    ]
  ]

  recorded_lem :
      (token : Option Int64) (result : PackageResult Tlv) (status : OperationStatus)
      → result_status api codec tlvs crypto wire eim_id live result.succeeded ≡ status
      → record_result api codec tlvs crypto wire eim_id live (with_used token) result
        ≡ recorded status
  unfolding record_result
  recorded_lem token result status e = elim (Bool-cases (input.operation_id == 0)) [
    | inl a ↦ elim (Bool-cases (input.sequence_number == 0)) [
      | inl b ↦ rw (a, b) refl
      | inr b ↦ rw (a, b, e) refl
    ]
    | inr a ↦ rw (a, e) refl
  ]

  not_applied :
      (given : ResultInput Tlv Key) (result : PackageResult Tlv) (s : S)
      → result.succeeded ≡ false
      → take_in api codec tlvs crypto wire eim_id live given result s
        ≡ (record_result api codec tlvs crypto wire eim_id live given result >> pure result) s
  unfolding take_in
  not_applied given result s failed =
      skipped result.succeeded (record_result api codec tlvs crypto wire eim_id live given result s)
        _ (pure result) failed

  failed_status :
      (result : PackageResult Tlv)
      → result.succeeded ≡ false
      → result_status api codec tlvs crypto wire eim_id live result.succeeded
        ≡ OperationStatus.failed
  unfolding result_status
  failed_status result h = rw h refl

  done_status :
      (result : PackageResult Tlv)
      → result.succeeded ≡ true
      → result_status api codec tlvs crypto wire eim_id live result.succeeded ≡ OperationStatus.done
  unfolding result_status
  done_status result h = rw h refl

  -- A result that has passed the check is recorded, and applied where it is a success.
  taken-Answered :
      (s : S) (token : Option Int64) (result : PackageResult Tlv)
      → Checked s token result
      → Answered s (take_in api codec tlvs crypto wire eim_id live (with_used token) result s)
  unfolding take_in
  taken-Answered s token result checked = elim (Bool-cases result.succeeded) [
    | inr failed ↦ inr (
        inl (
          token,
          result,
          checked,
          failed,
          (not_applied (with_used token) result s failed)
              ∙ ap (λ m. (m >> pure result) s)
                  (recorded_lem token result OperationStatus.failed (failed_status result failed)),
        ))
    | inl good ↦ inr (
        inr (
          token,
          result,
          checked,
          good,
          performed result.succeeded
                (record_result api codec tlvs crypto wire eim_id live (with_used token) result s)
                (applied result) (pure result) good
              ∙ ap (λ (m : Action S (Unit {0})). (m >> applied result >> pure result) s)
                  (recorded_lem token result OperationStatus.done (done_status result good)),
        ))
  ]

  -- What is done once the token is known.
  abbrev checking : Option Int64 → Action S (PackageResult Tlv)
  checking token =
      lift (verify_package_result api codec tlvs crypto wire eim_id live (with_used token))
      >>= take_in api codec tlvs crypto wire eim_id live (with_used token)

  module _ (s : S) (token : Option Int64) (used : TokenUsed s input.association_token token) where
    verdict-Answered :
        (decoded : EuiccPackageResult Tlv) (raw : Bytes)
        → wire.decode_result input.result_der ≡ ok decoded
        → raw_signed_data_from_result_der input.result_der ≡ ok raw
        → Answered s (checking token s)
    unfolding verify_package_result
    verdict-Answered decoded raw came part =
        elim (result_cases (verify_result tlvs crypto (with_used token) decoded raw)) [
          | inr (e, failed) ↦
              let run : checking token s ≡ (err e, s) = rw (came, part, failed) refl in
              let only : Failure token decoded raw e = (
                failed,
                λ kind trusted.
                    sym (Trusted-accepted tlvs crypto (with_used token) decoded raw kind trusted)
                    ∙ failed,
              ) in
              inl (e, inr (token, used, inr (decoded, came, inr (raw, part, only))), run)
          | inl (result, verdict) ↦
              let run : checking token s
                  ≡ take_in api codec tlvs crypto wire eim_id live (with_used token) result s =
                rw (came, part, verdict) refl in
              subst (Answered s) (sym run) (
                taken-Answered s token result (record {
                  used = used;
                  decoded = decoded;
                  came = came;
                  raw_signed_data = raw;
                  part = part;
                  verdict = verdict;
                  trusted =
                      verify_result-Trusted tlvs crypto (with_used token) decoded raw result
                        verdict;
                }))
        ]

    checked-Answered : Answered s (checking token s)
    unfolding verify_package_result
    checked-Answered = elim (result_cases (wire.decode_result input.result_der)) [
      | inr (e, failed) ↦
          let run : checking token s ≡ (err e, s) = rw failed refl in
          inl (e, inr (token, used, inl failed), run)
      | inl (decoded, came) ↦
          elim (result_cases (raw_signed_data_from_result_der input.result_der)) [
            | inr (e, failed) ↦
                let run : checking token s ≡ (err e, s) = rw (came, failed) refl in
                inl (e, inr (token, used, inr (decoded, came, inl failed)), run)
            | inl (raw, part) ↦ verdict-Answered decoded raw came part
          ]
    ]

  -- For a store that keeps the laws of the interface, and with the given association token or else
  -- the one that the eIM's association holds, a result is answered in one of three ways. It is
  -- refused with an error and nothing changes, because the association's payload or the result
  -- does not decode, its raw signed data is not found, or it does not pass the check; a result of
  -- the signed kind that is trusted is refused only because its result data cannot be read. Or it
  -- passes without success, is recorded as failed where it names an operation, and nothing else
  -- is done. Or it passes as a success, which is trusted: it is recorded as done and its package is
  -- applied.
  pub verify_and_apply-Answered :
      (s : S) → Answered s (verify_and_apply_result api codec tlvs crypto wire eim_id live input s)
  unfolding verify_and_apply_result
  verify_and_apply-Answered s = elim (token_known input.association_token s) [
    | inl (token, used, e) ↦
        let run : verify_and_apply_result api codec tlvs crypto wire eim_id live input s
            ≡ checking token s =
          rw (verify_and_apply_result, e) refl in
        subst (Answered s) (sym run) (checked-Answered s token used)
    | inr (e, absent, held, f) ↦
        let run : verify_and_apply_result api codec tlvs crypto wire eim_id live input s
            ≡ (err e, s) =
          rw (verify_and_apply_result, f) refl in
        inl (e, inl (absent, held), run)
  ]
