-- ===== src/EuiccPkg/Service/Counter.antt =====
-- About the counters of the requests that Sign of euiccpkg/service.go returns.
use openiotrsp.Memory.Devices.{next_euicc_package_counter}
use openiotrsp.Memory.Counters.{count-fresh}
use openiotrsp.Memory.Api.View.{memory_view}
use openiotrsp.Memory.Api.{memory_api}
use openiotrsp.Memory.Calls.{Call, run}
use openiotrsp.Storage.{Time}
use openiotrsp.Common.{
  ◌+◌, ◌^◌, ◌<◌, ◌≡◌, refl, sym, ap, ◌∙◌, subst, Option, none, some, List, [], arith, if_keeps,
  length, Bytes, eq_nat, eq_bytes, bytes_eq, Int64, on_ok_keeps, after_keeps, Result, ok, err,
  Action,
}
use openiotrsp.Storage.Api.{StoreApi, DeviceView, live}
use openiotrsp.Asn1.Package.{EuiccPackageSigned}
use openiotrsp.EuiccPkg.Association.{EimCodec}
use openiotrsp.EuiccPkg.Outcome.{TlvApi}
use openiotrsp.EuiccPkg.Verify.{Crypto, SignedRequest, signature_input}
use openiotrsp.EuiccPkg.Service.{
  Wire, SignInput, association_token_for_eim, token_or_stored, finish_request, sign_with_counter,
  sign,
}
use openiotrsp.Memory.State.{
  eq_device_key, eq_result_key, eq_profile_key, eq_associated_key, eq_config_key,
  eq_notification_key, Store,
}

module _ {S Tlv Key : Type 0} (api : StoreApi S) (codec : EimCodec Tlv) (tlvs : TlvApi Tlv)
    (crypto : Crypto Key) (wire : Wire Tlv) (eim_id : Bytes) (input : SignInput Tlv)
    (w : DeviceView api input.tenant_id input.eid) where
  -- The parts of a signed request fit one another and what was asked for.
  pub record IsSigned (counter : Int64) (request : SignedRequest Tlv) : Type 0 where
    pub counted : request.counter_value ≡ counter
    pub contents : request.request.euicc_package_signed ≡ record {
      eim_id = eim_id;
      eid = input.eid_value;
      counter_value = counter;
      eim_transaction_id = input.eim_transaction_id;
      euicc_package = input.euicc_package;
    }
    pub encoded : wire.encode_signed request.request.euicc_package_signed ≡ ok request.signed_der
    pub token : Option Int64
    pub covered : signature_input crypto request.signed_der token ≡ ok request.signature_input_bytes
    pub signed :
        wire.sign_bytes live request.signature_input_bytes ≡ ok request.request.eim_signature
    pub sent : wire.encode_request request.request ≡ ok request.der

  abbrev Finished : Int64 → Result (SignedRequest Tlv) → Type 0
  Finished counter (ok request) = IsSigned counter request
  Finished counter (err e) = Unit {0}

  finish-Finished :
      (counter : Int64) (signed_der input_bytes : Bytes) (token : Option Int64)
      → let signed : EuiccPackageSigned Tlv = record {
        eim_id = eim_id;
        eid = input.eid_value;
        counter_value = counter;
        eim_transaction_id = input.eim_transaction_id;
        euicc_package = input.euicc_package;
      } in
        wire.encode_signed signed ≡ ok signed_der
        → signature_input crypto signed_der token ≡ ok input_bytes
        → Finished counter (
            finish_request api codec tlvs crypto wire eim_id live input signed signed_der
              input_bytes)
  unfolding finish_request
  finish-Finished counter signed_der input_bytes token e f =
      on_ok_keeps (Finished counter) (wire.sign_bytes live input_bytes) _ (λ x. tt)
        (λ signature g.
          on_ok_keeps (Finished counter) (wire.encode_request _) _ (λ x. tt)
            (λ der h. record {
              counted = refl;
              contents = refl;
              encoded = e;
              token = token;
              covered = f;
              signed = g;
              sent = h;
            }))

  token_keeps :
      (given : Option Int64) (s : S)
      → (token_or_stored api codec tlvs crypto wire eim_id live given input.tenant_id input.eid s).1
        ≡ s
  unfolding token_or_stored association_token_for_eim
  token_keeps (some token) s = refl
  token_keeps none s = ap (λ x. x.1) (w.get_associated s eim_id)

  -- Signing with a counter leaves the store as it is.
  abbrev Kept : Int64 → S → Result (SignedRequest Tlv) × S → Type 0
  Kept counter s (ok request, r) = IsSigned counter request × (r ≡ s)
  Kept counter s (err e, r) = Unit {0}

  lifted-Kept :
      (counter : Int64) (s r : S) (x : Result (SignedRequest Tlv))
      → r ≡ s
      → Finished counter x
      → Kept counter s (x, r)
  lifted-Kept counter s r (ok request) e f = (f, e)
  lifted-Kept counter s r (err x) e f = tt

  counter-Kept :
      (counter : Int64) (s : S)
      → Kept counter s (sign_with_counter api codec tlvs crypto wire eim_id live input counter s)
  unfolding sign_with_counter
  counter-Kept counter s =
      after_keeps (Kept counter s) (wire.encode_signed _, s) _ (λ e r. tt)
        (λ signed_der r e.
          after_keeps (Kept counter s)
            (token_or_stored api codec tlvs crypto wire eim_id live input.association_token
              input.tenant_id input.eid r)
            _ (λ x u. tt)
            (λ token u f.
              lifted-Kept counter s u _
                (sym (ap (λ x. x.1) f)
                  ∙ token_keeps input.association_token r
                  ∙ sym (ap (λ x. x.1) e))
                (on_ok_keeps (Finished counter) (signature_input crypto signed_der token) _
                  (λ x. tt)
                  (λ input_bytes g.
                    finish-Finished counter signed_der input_bytes token (ap (λ x. x.0) e) g))))

  abbrev Counted : S → Result (SignedRequest Tlv) × S → Type 0
  Counted s (ok request, r) =
      (counter : Int64) × (api.next_euicc_package_counter live input.tenant_id input.eid s
        ≡ (ok counter, r))
      × IsSigned counter request
  Counted s (err e, r) = Unit {0}

  counted :
      (counter : Int64) (s u : S) (x : Result (SignedRequest Tlv) × S)
      → api.next_euicc_package_counter live input.tenant_id input.eid s ≡ (ok counter, u)
      → Kept counter u x
      → Counted s x
  counted counter s u (ok request, r) e k = (counter, e ∙ ap (λ v. (ok counter, v)) (sym k.1), k.0)
  counted counter s u (err x, r) e k = tt

  sign-Counted : (s : S) → Counted s (sign api codec tlvs crypto wire eim_id live input s)
  unfolding sign
  sign-Counted s =
      if_keeps (λ (m : Action S (SignedRequest Tlv)). Counted s (m s)) (bytes_eq eim_id []) _ _ tt
        (if_keeps (λ (m : Action S (SignedRequest Tlv)). Counted s (m s)) (bytes_eq input.eid []) _
          _ tt
          (after_keeps (Counted s) (api.next_euicc_package_counter live input.tenant_id input.eid s)
            _ (λ e r. tt)
            (λ counter r e.
              counted counter s r
                (sign_with_counter api codec tlvs crypto wire eim_id live input counter r) e
                (counter-Kept counter r))))

  -- A request that Sign returns, for a store that keeps the laws of the interface, has the next
  -- package counter of the device and leaves of the store what taking that counter leaves. Its
  -- contents are what was asked for, its signed bytes encode them, its signature is the signer's
  -- over those bytes and an association token, and its bytes encode contents and signature.
  pub sign-IsSigned :
      (s r : S) (request : SignedRequest Tlv)
      → sign api codec tlvs crypto wire eim_id live input s ≡ (ok request, r)
      → (counter : Int64) × (api.next_euicc_package_counter live input.tenant_id input.eid s
          ≡ (ok counter, r))
        × IsSigned counter request
  sign-IsSigned s r request h = subst (Counted s) h (sign-Counted s)

-- Two requests that Sign returns for one device, with any calls of the in-memory store between
-- them, too few for the counter to run out, have different counters: the later one's is greater.
pub sign-fresh :
    {Tlv Key : Type 0} (codec : EimCodec Tlv) (tlvs : TlvApi Tlv) (crypto : Crypto Key)
    (wire : Wire Tlv) (eim_id : Bytes) (now later : Time) (first second : SignInput Tlv)
    (s r u : Store) (calls : List Call) (request next : SignedRequest Tlv)
    → second.tenant_id ≡ first.tenant_id
    → second.eid ≡ first.eid
    → request.counter_value + 1 + length calls < 2 ^ 63
    → sign (memory_api now) codec tlvs crypto wire eim_id live first s ≡ (ok request, r)
    → sign (memory_api later) codec tlvs crypto wire eim_id live second (run calls r) ≡ (ok next, u)
    → request.counter_value < next.counter_value
sign-fresh codec tlvs crypto wire eim_id now later first second s r u calls request next same_tenant
      same_eid room e f =
    let (c, taken, one) =
      sign-IsSigned (memory_api now) codec tlvs crypto wire eim_id first
        (memory_view now first.tenant_id first.eid) s r request e in
    let (d, taken', two) =
      sign-IsSigned (memory_api later) codec tlvs crypto wire eim_id second
        (memory_view later second.tenant_id second.eid) (run calls r) u next f in
    let (d', found, less) =
      count-fresh first.tenant_id first.eid c s calls (omega (arith, room, one.counted))
        (ap (λ x. x.0) taken) in
    let again : (next_euicc_package_counter live first.tenant_id first.eid (run calls r)).0 ≡ ok d =
      rw (← same_tenant, ← same_eid) (ap (λ x. x.0) taken') in
    let back : (next_euicc_package_counter live first.tenant_id first.eid (run calls r)).0 ≡ ok d' =
      rw⁻¹ (ap (λ x. x.1) taken) found in
    let same : d ≡ d' = ground (arith, again, back) in
    omega (arith, one.counted, two.counted, same, less)
