-- ===== src/EuiccPkg/Service/Untrusted.antt =====
-- About results that are not trusted, where the store is the in-memory store.
use openiotrsp.Common.{
  ◌≡◌, refl, ◌⊎◌, inl, inr, ◌&&◌, Option, Bool-cases, ◌==◌, Bytes, eq_nat, eq_bytes, Int64, after,
  Result, ok, err, pure,
}
use openiotrsp.Storage.{Time, OperationStatus}
use openiotrsp.Storage.Api.{live}
use openiotrsp.Asn1.Result.{EuiccPackageResult}
use openiotrsp.Memory.Api.{memory_api}
use openiotrsp.Memory.Api.View.{memory_view}
use openiotrsp.Memory.Results.{record_keeps, file_result}
use openiotrsp.Memory.State.{
  Store, eq_device_key, eq_result_key, eq_profile_key, eq_associated_key, eq_config_key,
  eq_notification_key,
}
use openiotrsp.EuiccPkg.Association.{EimCodec}
use openiotrsp.EuiccPkg.Outcome.{TlvApi}
use openiotrsp.EuiccPkg.RawTlv.{raw_signed_data_from_result_der}
use openiotrsp.EuiccPkg.Verify.{Crypto, ResultInput}
use openiotrsp.EuiccPkg.Verify.Trust.{Trusted}
use openiotrsp.EuiccPkg.Service.{Wire, verify_and_apply_result}
use openiotrsp.EuiccPkg.Service.Intake.{verify_and_apply-Answered, recorded, TokenUsed}

-- What the store holds of devices, and all else but operations and results, is as it was.
pub record SameState (s r : Store) : Type 0 where
  pub devices : r.devices ≡ s.devices
  pub profiles : r.profile_states ≡ s.profile_states
  pub euiccs : r.euicc_states ≡ s.euicc_states
  pub associations : r.associated_eims ≡ s.associated_eims
  pub configs : r.eim_configs ≡ s.eim_configs
  pub notifications : r.notifications ≡ s.notifications
  pub next_id : r.next_operation_id ≡ s.next_operation_id

unchanged : (s : Store) → SameState s s
unchanged s = record {
  devices = refl;
  profiles = refl;
  euiccs = refl;
  associations = refl;
  configs = refl;
  notifications = refl;
  next_id = refl;
}

after_pure :
    {S A : Type 0} (x : Result (Unit {0}) × S) (a : A) → (after {S = S} x (λ _. pure a)).1 ≡ x.1
after_pure (ok _, r) a = refl
after_pure (err e, r) a = refl

module _ {Tlv Key : Type 0} (now : Time) (codec : EimCodec Tlv) (tlvs : TlvApi Tlv)
    (crypto : Crypto Key) (wire : Wire Tlv) (eim_id : Bytes) (input : ResultInput Tlv Key) where
  -- The result decodes and is trusted, with the association token that is given or held.
  pub record IsTrusted (s : Store) : Type 0 where
    pub token : Option Int64
    pub used :
        TokenUsed
          (memory_api now)
          codec
          tlvs
          crypto
          wire
          eim_id
          input
          (memory_view now input.request.tenant_id input.request.eid)
          s
          input.association_token
          token
    pub decoded : EuiccPackageResult Tlv
    pub came : wire.decode_result input.result_der ≡ ok decoded
    pub raw_signed_data : Bytes
    pub part : raw_signed_data_from_result_der input.result_der ≡ ok raw_signed_data
    pub trusted :
        Trusted tlvs crypto (record input { association_token = token }) decoded raw_signed_data

  recorded-SameState :
      (status : OperationStatus) (s : Store)
      → SameState s
          (recorded
            (memory_api now)
            codec
            tlvs
            crypto
            wire
            eim_id
            input
            (memory_view now input.request.tenant_id input.request.eid)
            status
            s).1
  unfolding file_result
  recorded-SameState status s =
      elim (Bool-cases ((input.operation_id == 0) && (input.sequence_number == 0))) [
        | inl unnamed ↦ rw unnamed (unchanged s)
        | inr named ↦ rw named (
            record_keeps (SameState s) now live input.request.tenant_id _ s (unchanged s)
              (λ addressed found. record {
                devices = refl;
                profiles = refl;
                euiccs = refl;
                associations = refl;
                configs = refl;
                notifications = refl;
                next_id = refl;
              }))
      ]

  -- In the in-memory store, VerifyAndApplyResult leaves devices with their counters, profiles,
  -- eUICC states, associations, configurations and notifications of all tenants as they were
  -- unless the result decodes and is trusted: signed by the eUICC over its raw signed data and the
  -- association token, and an answer to the request.
  pub untrusted_leaves_state :
      (s : Store)
      → IsTrusted s
        ⊎ SameState s
            (verify_and_apply_result (memory_api now) codec tlvs crypto wire eim_id live input s).1
  untrusted_leaves_state s =
      elim (verify_and_apply-Answered (memory_api now) codec tlvs crypto wire eim_id input
        (memory_view now input.request.tenant_id input.request.eid) s) [
          | inl (e, refused, run) ↦ inr (rw run (unchanged s))
          | inr (inl (token, result, checked, failed, run)) ↦ inr (
              rw
                (
                  run,
                  after_pure
                      (recorded (memory_api now) codec tlvs crypto wire eim_id input
                        (memory_view now input.request.tenant_id input.request.eid)
                        OperationStatus.failed s)
                      result,
                )
                (recorded-SameState OperationStatus.failed s))
          | inr (inr (token, result, checked, good, run)) ↦ inl (record {
            token = token;
            used = checked.used;
            decoded = checked.decoded;
            came = checked.came;
            raw_signed_data = checked.raw_signed_data;
            part = checked.part;
            trusted = checked.trusted good;
          })
        ]
