-- ===== src/Esipa/Resolve.antt =====
-- esipa/eid_resolve.go and esipa/eid_recover.go: whose result it is. A value that an object carries
-- is not nil, not even where it is empty.
pub mod Depth
pub mod Searches
use openiotrsp.Storage.{Operation}
use openiotrsp.Esipa.Select.{operation_matches_eim_transaction_id}
use openiotrsp.Storage.Api.{StoreApi}
use openiotrsp.Storage.{TenantId}
use openiotrsp.Esipa.{
  provide_result_tlv, EidKey, eid_key, eid_error, get_eim_package_error_missing_eid,
  provide_result_error_eid_not_found, known_eid,
}
use openiotrsp.Asn1.Codec.{first_some, or_nil, has_tag}
use openiotrsp.Asn1.IpaData.{IpaEuiccDataResponse}
use openiotrsp.Asn1.IpaData.Response.{
  unmarshal_ipa_euicc_data_response, ipa_euicc_data_objects, certificate_der_from_tagged,
}
use openiotrsp.Asn1.Esipa.Outcome.{unmarshal_eim_package_result, unmarshal_provide_result}
use openiotrsp.Asn1.Result.Decode.{unmarshal_package_result}
use openiotrsp.Pki.{X509, eid_hex_from_certificate, hex_decode}
use openiotrsp.Asn1.DownloadResult.{unmarshal_trigger_result}
use openiotrsp.Asn1.Tlv.{
  Bertlv, tag_ipa_euicc_data, tag_eid, context_constructed, context_primitive, tag_download_trig,
  tag_provide_eim_result,
}
use openiotrsp.Common.{
  ℕ, zero, suc, not, Option, none, some, List, [], ◌∷◌, if◌then◌else◌, length, ◌==◌, Bytes, eq_nat,
  eq_bytes, bytes_eq, on_ok, Result, ok, err, Context, Action, pure, lift, ◌>>=◌,
}
use openiotrsp.Asn1.Result.{
  EuiccPackageResult, EuiccPackageResultKind, kind_ok, kind_error_signed, kind_error_unsigned,
  kind_other,
}

module _ {Tlv : Type 0} (lib : Bertlv Tlv) where
  -- firstContextPrimitive2
  unfoldable pub first_context_primitive2 : ℕ → Tlv → Option Bytes
  first_context_primitive2 zero tlv = none
  first_context_primitive2 (suc depth) tlv =
      let deeper = first_some (first_context_primitive2 depth) (lib.children tlv) in
      if has_tag lib tlv (context_primitive 2) then some (lib.value tlv) else deeper

  -- The switch on a decoded package result in EimTransactionIDFromResultTLV.
  unfoldable pub package_result_transaction_id :
      EuiccPackageResultKind → EuiccPackageResult Tlv → Option Bytes
  package_result_transaction_id kind_ok result = elim result.signed [
    | none ↦ none
    | some signed ↦ some signed.result_data.eim_transaction_id
  ]
  package_result_transaction_id kind_error_signed result = elim result.error_signed [
    | none ↦ none
    | some signed ↦ some signed.error_data.eim_transaction_id
  ]
  package_result_transaction_id kind_error_unsigned result = elim result.error_unsigned [
    | none ↦ none
    | some found ↦ some found.eim_transaction_id
  ]
  package_result_transaction_id (kind_other _) result = none

  -- The next three are the attempts of EimTransactionIDFromResultTLV; none is to try the next one.
  unfoldable pub download_transaction_id : Tlv → Option Bytes
  unfolding unmarshal_trigger_result
  download_transaction_id tlv =
      if has_tag lib tlv tag_download_trig
      then (elim (unmarshal_trigger_result lib tlv) [
        | ok result ↦ some (or_nil result.eim_transaction_id)
        | err e ↦ none
      ])
      else none

  unfoldable pub result_transaction_id : Tlv → Option Bytes
  unfolding unmarshal_package_result package_result_transaction_id
  result_transaction_id tlv = elim (unmarshal_package_result lib tlv) [
    | ok result ↦ package_result_transaction_id result.kind result
    | err e ↦ none
  ]

  unfoldable pub nested_transaction_id : Tlv → Option Bytes
  unfolding unmarshal_eim_package_result
  nested_transaction_id tlv = elim (unmarshal_eim_package_result lib tlv) [
    | ok result ↦ elim result.profile_download_result [
      | some found ↦ some (or_nil found.eim_transaction_id)
      | none ↦ none
    ]
    | err e ↦ none
  ]

  -- ipaEuiccDataTransactionID, of esipa/handler.go
  unfoldable pub ipa_euicc_data_transaction_id : IpaEuiccDataResponse Tlv → Bytes
  ipa_euicc_data_transaction_id response = elim response.response_error [
    | some found ↦ or_nil found.eim_transaction_id
    | none ↦ elim response.response_data [
      | some found ↦ or_nil found.eim_transaction_id
      | none ↦ []
    ]
  ]

  abbrev pub or_else : Option Bytes → Option Bytes → Option Bytes
  or_else (some bytes) next = some bytes
  or_else none next = next

  -- EimTransactionIDFromResultTLV
  unfoldable pub eim_transaction_id_from_result_tlv : Tlv → Bytes
  unfolding first_context_primitive2 download_transaction_id result_transaction_id
      nested_transaction_id ipa_euicc_data_transaction_id unmarshal_ipa_euicc_data_response
  eim_transaction_id_from_result_tlv tlv =
      if has_tag lib tlv tag_ipa_euicc_data
      then (elim (unmarshal_ipa_euicc_data_response lib tlv) [
        | ok response ↦ ipa_euicc_data_transaction_id response
        | err e ↦ []
      ])
      else or_nil (
          or_else (download_transaction_id tlv) (
            or_else (result_transaction_id tlv) (
              or_else (nested_transaction_id tlv)
                (first_context_primitive2 (suc (lib.height tlv)) tlv))))

  -- A value of 16 bytes.
  abbrev pub of_sixteen : Bytes → Option Bytes
  of_sixteen bytes = if length bytes == 16 then some bytes else none

module _ {Tlv : Type 0} (lib : Bertlv Tlv) (x509 : X509) where
  -- eidFromEUICCCertificateTLV
  unfoldable pub eid_from_euicc_certificate_tlv : Tlv → Option Bytes
  unfolding certificate_der_from_tagged eid_hex_from_certificate hex_decode
  eid_from_euicc_certificate_tlv wrapper =
      let eid : Result Bytes =
        on_ok (certificate_der_from_tagged lib wrapper)
          λ der. on_ok (eid_hex_from_certificate x509 der) hex_decode in
      elim eid [ ok bytes ↦ of_sixteen lib bytes | err e ↦ none ]

  abbrev pub eid_object : Tlv → Option Bytes
  eid_object child = if has_tag lib child tag_eid then of_sixteen lib (lib.value child) else none

  unfoldable pub certificate_object : Tlv → Option Bytes
  unfolding eid_from_euicc_certificate_tlv
  certificate_object child =
      if has_tag lib child (context_constructed 6)
      then eid_from_euicc_certificate_tlv child
      else none

  -- recoverEIDFromIpaEuiccDataTLV
  unfoldable pub recover_eid_from_ipa_euicc_data_tlv : Tlv → Option Bytes
  unfolding ipa_euicc_data_objects eid_from_euicc_certificate_tlv
  recover_eid_from_ipa_euicc_data_tlv tlv =
      let objects = ipa_euicc_data_objects lib tlv in
      or_else lib (first_some eid_object objects) (first_some certificate_object objects)

  abbrev pub eid_child : Option Tlv → Option Bytes
  eid_child none = none
  eid_child (some child) = of_sixteen lib (lib.value child)

  -- recoverEIDFromPackageResultTLV, to a depth
  unfoldable pub recover_eid_from_package_result_tlv : ℕ → Tlv → Option Bytes
  unfolding recover_eid_from_ipa_euicc_data_tlv
  recover_eid_from_package_result_tlv zero tlv = none
  recover_eid_from_package_result_tlv (suc depth) tlv =
      let nested =
        first_some
          (λ child.
            let deeper = recover_eid_from_package_result_tlv depth child in
            if has_tag lib child tag_eid then none else deeper)
          (lib.children tlv) in
      if has_tag lib tlv tag_provide_eim_result
      then or_else lib (eid_child (lib.first tlv tag_eid)) nested
      else if has_tag lib tlv tag_ipa_euicc_data
      then recover_eid_from_ipa_euicc_data_tlv tlv
      else none

  unfoldable pub recovered_eid : Option Tlv → Option Bytes
  unfolding recover_eid_from_package_result_tlv
  recovered_eid none = none
  recovered_eid (some tlv) = recover_eid_from_package_result_tlv (suc (lib.height tlv)) tlv

  unfoldable pub result_transaction : Option Tlv → Bytes
  unfolding eim_transaction_id_from_result_tlv
  result_transaction none = []
  result_transaction (some tlv) = eim_transaction_id_from_result_tlv lib tlv

  -- The loop of ResolveProvideResultEID.
  unfoldable pub eid_of_transaction : Bytes → List Operation → Result EidKey
  unfolding operation_matches_eim_transaction_id
  eid_of_transaction transaction_id [] = ok (eid_error provide_result_error_eid_not_found)
  eid_of_transaction transaction_id (operation ∷ operations) =
      let rest = eid_of_transaction transaction_id operations in
      on_ok (operation_matches_eim_transaction_id lib operation transaction_id)
        (λ matched. if matched then ok (known_eid operation.eid) else rest)

  -- ProvideResultFromMessage
  unfoldable pub provide_result_from_message : Tlv → Option (Option Bytes × Option Tlv)
  unfolding provide_result_tlv unmarshal_provide_result
  provide_result_from_message message = elim (provide_result_tlv lib message) [
    | none ↦ none
    | some tlv ↦ elim (unmarshal_provide_result lib tlv) [
      | err e ↦ none
      | ok found ↦ some (found.eid, found.eim_package_result.raw)
    ]
  ]

module _ {S Tlv : Type 0} (lib : Bertlv Tlv) (x509 : X509) (api : StoreApi S) (ctx : Context)
    (t : TenantId) where
  -- The end of ResolveProvideResultEID.
  unfoldable pub resolve_by_transaction : Bytes → Action S EidKey
  unfolding eid_of_transaction
  resolve_by_transaction transaction_id =
      if bytes_eq transaction_id []
      then pure (eid_error get_eim_package_error_missing_eid)
      else (api.list_pending_operations ctx t 10000 >>= λ operations.
          lift (eid_of_transaction lib x509 transaction_id operations))

  -- ResolveProvideResultEID
  unfoldable pub resolve_provide_result_eid : Bytes → Option Tlv → Action S EidKey
  unfolding eid_key resolve_by_transaction
  resolve_provide_result_eid explicit result =
      if not (bytes_eq explicit [])
      then pure (eid_key explicit)
      else (elim (recovered_eid lib x509 result) [
        | some eid ↦ pure (eid_key eid)
        | none ↦ resolve_by_transaction (result_transaction lib x509 result)
      ])
