-- ===== src/IpaData.antt =====
-- ipadata/request.go: data requests to an IPA, and what the store keeps of the answers. A nil slice
-- and an empty one are one value where the store is concerned.
pub mod Inventory
use openiotrsp.EuiccPkg.Result.{ProfileInfo}
use openiotrsp.Asn1.Result.{DecodedProfile}
use openiotrsp.Asn1.Codec.{or_nil, encode}
use openiotrsp.Storage.Api.{StoreApi}
use openiotrsp.Pki.{X509}
use openiotrsp.Asn1.IpaData.Response.{certificate_der_from_tagged}
use openiotrsp.EuiccPkg.State.{hex_encode, by_iccid, reported, prune_loop}
use openiotrsp.Asn1.Tlv.{Bertlv, eq_tag}
use openiotrsp.Common.{
  Bool, true, false, not, ◌&&◌, ◌||◌, Option, none, some, List, [], ◌∷◌, ◌++◌, if◌then◌else◌,
  length, ◌==◌, Bytes, ascii, eq_nat, eq_bytes, bytes_eq, Int64, Dict, insert, on_ok, invalid_input,
  Result, ok, err, Context, Action, pure, lift, ◌>>=◌, ◌>>◌,
}
use openiotrsp.Asn1.IpaData.{
  IpaEuiccDataRequest, IpaEuiccDataResponse, IpaEuiccData, EuiccInfo, NotificationSearchCriteria,
  marshal_ipa_euicc_data_request,
}
use openiotrsp.Storage.{ipa_euicc_data, TenantId, EuiccState, ProfileState, Operation}

-- DefaultTagList
abbrev pub default_tag_list : Bytes
default_tag_list = 191 ∷ 32 ∷ 191 ∷ 34 ∷ 160 ∷ 165 ∷ 166 ∷ 168 ∷ []

pub record RequestInput : Type 0 where
  pub tag_list : Bytes
  pub euicc_ci_pk_identifier_to_be_used : Option Bytes
  pub notification_seq_number : Option Int64
  pub euicc_package_result_seq_number : Option Int64
  pub eim_transaction_id : Option Bytes

-- NewRequest; its last guard cannot fail, the default list is not empty.
unfoldable pub new_request : {Tlv : Type 0} → RequestInput → Result (IpaEuiccDataRequest Tlv)
new_request {Tlv} input =
    let tags : Bytes = if bytes_eq input.tag_list [] then default_tag_list else input.tag_list in
    let criteria : Option (NotificationSearchCriteria Tlv) = elim input.notification_seq_number [
      | none ↦ none
      | some number ↦
          some (record { seq_number = some number; profile_management_operation_raw = none })
    ] in
    if bytes_eq tags []
    then err (invalid_input (ascii "tagList is required"))
    else ok (record {
      tag_list = tags;
      euicc_ci_pk_identifier_to_be_used = input.euicc_ci_pk_identifier_to_be_used;
      search_criteria_notification = criteria;
      search_criteria_euicc_package_result = input.euicc_package_result_seq_number;
      eim_transaction_id = input.eim_transaction_id;
    })

module _ {Tlv : Type 0} (lib : Bertlv Tlv) where
  -- marshalRaw
  abbrev pub marshal_raw : Option Tlv → Bytes
  marshal_raw none = []
  marshal_raw (some tlv) = elim (lib.marshal_binary tlv) [ ok raw ↦ raw | err e ↦ [] ]

  -- certificateSubjectKeyID
  unfoldable pub certificate_subject_key_id : X509 → Option Tlv → Bytes
  unfolding certificate_der_from_tagged
  certificate_subject_key_id x509 none = []
  certificate_subject_key_id x509 (some tlv) =
      elim (on_ok (certificate_der_from_tagged lib tlv) x509.parse_certificate) [
        | ok cert ↦ cert.subject_key_id
        | err e ↦ []
      ]

  -- `seen[value]`
  unfoldable pub is_listed : Bytes → List Bytes → Bool
  is_listed value [] = false
  is_listed value (x ∷ out) = (x == value) || is_listed value out

  -- The loop of ids through `add`, which keeps the first of each.
  unfoldable pub add_identifiers : List Bytes → List Bytes → List Bytes
  unfolding hex_encode is_listed
  add_identifiers [] out = out
  add_identifiers (id ∷ ids) out =
      let value = hex_encode id in
      let kept = add_identifiers ids out in
      let added = add_identifiers ids (out ++ value ∷ []) in
      if bytes_eq id [] || is_listed value out then kept else added

  -- addInfo
  abbrev pub info_identifiers : Option (EuiccInfo Tlv) → List Bytes
  info_identifiers none = []
  info_identifiers (some info) =
      info.verification_ci_pkids ++ (info.signing_ci_pkids ++ info.signing_v3_ci_pkids)

  -- certificateIdentifiers
  unfoldable pub certificate_identifiers : X509 → IpaEuiccData Tlv → List Bytes
  unfolding certificate_subject_key_id add_identifiers
  certificate_identifiers x509 found =
      add_identifiers
        (info_identifiers found.euicc_info1
          ++ (info_identifiers found.euicc_info2
              ++ (certificate_subject_key_id x509 found.eum_certificate_raw
                  ∷ certificate_subject_key_id x509 found.euicc_certificate_raw
                  ∷ [])))
        []

  -- StateFromResponse, of a response with data
  unfoldable pub state_of_data : X509 → Bytes → IpaEuiccData Tlv → Bytes → EuiccState
  unfolding certificate_identifiers hex_encode
  state_of_data x509 eid found payload = record {
    eid = if length (or_nil found.eid) == 16 then hex_encode (or_nil found.eid) else eid;
    eid_value = or_nil found.eid;
    default_smdp_address = or_nil found.default_smdp_address;
    root_smds_address = or_nil found.root_smds_address;
    euicc_info1 = marshal_raw found.euicc_info1_raw;
    euicc_info2 = marshal_raw found.euicc_info2_raw;
    ipa_capabilities = marshal_raw found.ipa_capabilities_raw;
    device_info = marshal_raw found.device_info_raw;
    eum_certificate = marshal_raw found.eum_certificate_raw;
    euicc_certificate = marshal_raw found.euicc_certificate_raw;
    certificate_identifiers = certificate_identifiers x509 found;
    raw_payload = payload;
    updated_at = 0;
  }

  -- StateFromResponse
  unfoldable pub state_from_response :
      X509 → Bytes → IpaEuiccDataResponse Tlv → Bytes → Result EuiccState
  unfolding state_of_data
  state_from_response x509 eid response payload = elim response.response_data [
    | none ↦ err (invalid_input (ascii "response contains no eUICC data"))
    | some found ↦ ok (state_of_data x509 eid found payload)
  ]

-- What syncProfileInventory reads off a decoded profile.
abbrev pub info_of : DecodedProfile → ProfileInfo
info_of profile = record {
  iccid = hex_encode profile.iccid;
  is_enabled = elim profile.profile_state [ none ↦ false | some state ↦ state == 1 ];
  is_fallback = profile.fallback_attribute;
}

module _ {S Tlv : Type 0} (lib : Bertlv Tlv) (api : StoreApi S) (ctx : Context) (t : TenantId)
    (eid : Bytes) where
  -- EnqueueRequest
  unfoldable pub enqueue_request : RequestInput → Action S Operation
  unfolding new_request marshal_ipa_euicc_data_request
  enqueue_request input = do
    request ← lift (new_request input)
    payload ← lift (encode lib (marshal_ipa_euicc_data_request lib request))
    api.enqueue_operation ctx t (record { eid = eid; kind = ipa_euicc_data; payload = payload })

  -- The first loop of syncProfileInventory; it returns `seen`.
  unfoldable pub inventory_loop :
      Dict Bytes ProfileState → List DecodedProfile → Dict Bytes Bool → Action S (Dict Bytes Bool)
  unfolding reported hex_encode
  inventory_loop index [] seen = pure seen
  inventory_loop index (profile ∷ profiles) seen =
      let iccid = hex_encode profile.iccid in
      let named = inventory_loop index profiles (insert iccid true seen) in
      let skipped = inventory_loop index profiles seen in
      if bytes_eq profile.iccid []
      then skipped
      else (api.set_profile_state ctx t (reported api ctx t eid index (info_of profile)) >> named)

  -- syncProfileInventory
  unfoldable pub sync_inventory : IpaEuiccData Tlv → Action S (Unit {0})
  unfolding by_iccid inventory_loop prune_loop
  sync_inventory found =
      if not found.profile_info_list_present && (length found.profiles == 0)
      then pure tt
      else (api.list_profile_states ctx t eid >>= λ existing.
          inventory_loop (by_iccid api ctx t eid existing []) found.profiles [] >>= λ seen.
          prune_loop api ctx t eid seen existing)

  -- ApplyResponse
  unfoldable pub apply_response : X509 → IpaEuiccDataResponse Tlv → Bytes → Action S (Unit {0})
  unfolding state_of_data sync_inventory
  apply_response x509 response payload = elim response.response_data [
    | none ↦ pure tt
    | some found ↦
        api.set_euicc_state ctx t (state_of_data lib x509 eid found payload) >> sync_inventory found
  ]
