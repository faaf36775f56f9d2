-- ===== src/Asn1/Package/Decode.antt =====
-- asn1/euicc_package.go: decoding of eUICC packages.
use openiotrsp.Asn1.Result.Decode.{first_of_two}
use openiotrsp.Asn1.Package.{
  psmo_configure_immediate_enable, psmo_set_fallback_attribute, psmo_unset_fallback_attribute, Eco,
  kind_psmo, eco_add_eim, ConfigureImmediateEnable, psmo_enable, psmo_disable, kind_eco,
  eco_delete_eim, psmo_delete, eco_update_eim, psmo_list_profile_info, eco_list_eim, psmo_get_rat,
  psmo_set_default_dp_address,
}
use openiotrsp.Asn1.Package.{EuiccPackageSigned}
use openiotrsp.Asn1.Package.{Psmo}
use openiotrsp.Asn1.Oid.{oid_value}
use openiotrsp.Asn1.Package.{X509Choice}
use openiotrsp.Asn1.Package.{EuiccPackage}
use openiotrsp.Asn1.Package.{PsmoOperation}
use openiotrsp.Asn1.Package.{EuiccPackageRequest}
use openiotrsp.Asn1.Package.{EimConfigurationData}
use openiotrsp.Common.{
  Bool, false, Option, none, some, [], ◌∷◌, if◌then◌else◌, Bytes, ascii, eq_nat, eq_bytes, on_ok,
  encoding_error, Result, ok, err,
}
use openiotrsp.Prelude.Fallible.{◌>>=◌, ◌>>◌, optional, each, required}
use openiotrsp.Asn1.Codec.{
  unexpected_tag, has_tag, expect_tag, integer_value, octet_value, utf8_value, bit_string_value,
  optional_value, is_present, sole_child,
}
use openiotrsp.Asn1.Tlv.{
  Bertlv, eq_tag, context_primitive, context_constructed, tag_sequence, tag_null, tag_eid,
  tag_signature, tag_euicc_pkg, tag_profile_info_list, tag_set_default_dp_address,
}

module _ {Tlv : Type 0} (lib : Bertlv Tlv) where
  -- x509ChoiceArmObject
  unfoldable pub x509_choice_arm_object : Tlv → Result Tlv
  x509_choice_arm_object arm = elim (lib.children arm) [
    | [] ↦ err (encoding_error (ascii "X.509 CHOICE arm does not carry an X.509 object"))
    | child ∷ rest ↦ elim rest [
      | _ ∷ _ ↦ ok (lib.new_children tag_sequence (lib.children arm))
      | [] ↦
          if has_tag lib child tag_sequence
          then ok child
          else err (encoding_error (ascii "X.509 CHOICE arm does not carry an X.509 object"))
    ]
  ]

  -- unmarshalX509Choice; the kinds are 1 for SubjectPublicKeyInfo and 2 for Certificate
  unfoldable pub unmarshal_x509_choice : Tlv → Result (X509Choice Tlv)
  unfolding x509_choice_arm_object
  unmarshal_x509_choice tlv = do
    arm ← sole_child lib tlv
    kind ←
        if has_tag lib arm (context_constructed 0)
        then ok 1
        else if has_tag lib arm (context_constructed 1)
        then ok 2
        else err (encoding_error (ascii "X.509 choice missing A0/A1 CHOICE wrapper"))
    found ← x509_choice_arm_object arm
    ok (record { kind = kind; choice_data = some found })

  -- EimConfigurationData.UnmarshalBERTLV
  unfoldable pub unmarshal_eim_configuration_data : Tlv → Result (EimConfigurationData Tlv)
  unfolding unmarshal_x509_choice
  unmarshal_eim_configuration_data tlv = do
    expect_tag lib tlv tag_sequence
    eim_id ← utf8_value lib (lib.first tlv (context_primitive 0))
    id_type ← optional lib.unmarshal_int (lib.first tlv (context_primitive 2))
    counter ← optional lib.unmarshal_int (lib.first tlv (context_primitive 3))
    token ← optional lib.unmarshal_int (lib.first tlv (context_primitive 4))
    public_key ← optional unmarshal_x509_choice (lib.first tlv (context_constructed 5))
    tls_key ← optional unmarshal_x509_choice (lib.first tlv (context_constructed 6))
    protocol ← optional (bit_string_value lib) (lib.first tlv (context_primitive 7))
    ok (record {
      eim_id = eim_id;
      eim_fqdn = optional_value lib (lib.first tlv (context_primitive 1));
      eim_id_type = id_type;
      counter_value = counter;
      association_token = token;
      eim_public_key_data = public_key;
      trusted_public_key_data_tls = tls_key;
      eim_supported_protocol = protocol;
      euicc_ci_pkid = optional_value lib (lib.first tlv (context_primitive 8));
      indirect_profile_download = is_present lib (lib.first tlv (context_primitive 9));
      esipa_proprietary_protocol_information = lib.first tlv (context_constructed 10);
    })

  -- unmarshalTaggedEimConfig
  unfoldable pub unmarshal_tagged_eim_config : Tlv → Result (EimConfigurationData Tlv)
  unfolding unmarshal_eim_configuration_data
  unmarshal_tagged_eim_config tlv =
      unmarshal_eim_configuration_data (lib.new_children tag_sequence (lib.children tlv))

  -- Eco.UnmarshalBERTLV
  unfoldable pub unmarshal_eco : Tlv → Result (Eco Tlv)
  unfolding unmarshal_tagged_eim_config
  unmarshal_eco tlv =
      if has_tag lib tlv (context_constructed 8)
      then on_ok (unmarshal_tagged_eim_config tlv)
          (λ config. ok (record { operation = eco_add_eim; config = some config; eim_id = [] }))
      else if has_tag lib tlv (context_constructed 9)
      then on_ok (utf8_value lib (lib.first tlv (context_primitive 0)))
          (λ eim_id. ok (record { operation = eco_delete_eim; config = none; eim_id = eim_id }))
      else if has_tag lib tlv (context_constructed 10)
      then on_ok (unmarshal_tagged_eim_config tlv)
          (λ config. ok (record { operation = eco_update_eim; config = some config; eim_id = [] }))
      else if has_tag lib tlv (context_constructed 11)
      then ok (record { operation = eco_list_eim; config = none; eim_id = [] })
      else err unexpected_tag

  -- unmarshalConfigureImmediateEnable
  unfoldable pub unmarshal_configure_immediate_enable : Tlv → Result (ConfigureImmediateEnable Tlv)
  unfolding oid_value
  unmarshal_configure_immediate_enable tlv = do
    oid ← optional (oid_value lib) (lib.first tlv (context_primitive 1))
    ok (record {
      immediate_enable_flag = is_present lib (lib.first tlv (context_primitive 0));
      default_smdp_oid = elim oid [ none ↦ [] | some arcs ↦ arcs ];
      default_smdp_address = optional_value lib (lib.first tlv (context_primitive 2));
    })

  -- SetDefaultDPAddressRequest.UnmarshalBERTLV
  unfoldable pub unmarshal_set_default_dp_address_request : Tlv → Result Bytes
  unmarshal_set_default_dp_address_request tlv = do
    expect_tag lib tlv tag_set_default_dp_address
    child ← sole_child lib tlv
    ok (lib.value child)

  abbrev pub plain_psmo : PsmoOperation → Psmo Tlv
  plain_psmo operation = record {
    operation = operation;
    iccid = [];
    rollback_flag = false;
    profile_info_list_request = none;
    immediate_enable = none;
    set_default_dp_address = none;
  }

  abbrev pub psmo_with_iccid : PsmoOperation → Bool → Tlv → Result (Psmo Tlv)
  psmo_with_iccid operation rollback tlv =
      on_ok (octet_value lib (lib.first tlv tag_eid))
        (λ iccid. ok (record (plain_psmo operation) { iccid = iccid; rollback_flag = rollback }))

  -- Psmo.UnmarshalBERTLV
  unfoldable pub unmarshal_psmo : Tlv → Result (Psmo Tlv)
  unfolding unmarshal_configure_immediate_enable unmarshal_set_default_dp_address_request
  unmarshal_psmo tlv =
      if has_tag lib tlv (context_constructed 3)
      then psmo_with_iccid psmo_enable (is_present lib (lib.first tlv tag_null)) tlv
      else if has_tag lib tlv (context_constructed 4)
      then psmo_with_iccid psmo_disable false tlv
      else if has_tag lib tlv (context_constructed 5)
      then psmo_with_iccid psmo_delete false tlv
      else if has_tag lib tlv tag_profile_info_list
      then ok (record (plain_psmo psmo_list_profile_info) { profile_info_list_request = some tlv })
      else if has_tag lib tlv (context_constructed 6)
      then ok (plain_psmo psmo_get_rat)
      else if has_tag lib tlv (context_constructed 7)
      then on_ok (unmarshal_configure_immediate_enable tlv) (λ found.
        ok (record (plain_psmo psmo_configure_immediate_enable) { immediate_enable = some found }))
      else if has_tag lib tlv (context_constructed 8)
      then psmo_with_iccid psmo_set_fallback_attribute false tlv
      else if has_tag lib tlv (context_constructed 9)
      then ok (plain_psmo psmo_unset_fallback_attribute)
      else if has_tag lib tlv tag_set_default_dp_address
      then on_ok (unmarshal_set_default_dp_address_request tlv) (λ address.
        ok (record (plain_psmo psmo_set_default_dp_address) {
          set_default_dp_address = some address;
        }))
      else err unexpected_tag

  -- EuiccPackage.UnmarshalBERTLV
  unfoldable pub unmarshal_euicc_package : Tlv → Result (EuiccPackage Tlv)
  unfolding unmarshal_psmo unmarshal_eco
  unmarshal_euicc_package tlv =
      if has_tag lib tlv (context_constructed 0)
      then on_ok (each unmarshal_psmo (lib.children tlv))
          (λ psmos. ok (record { kind = kind_psmo; psmos = psmos; ecos = [] }))
      else if has_tag lib tlv (context_constructed 1)
      then on_ok (each unmarshal_eco (lib.children tlv))
          (λ ecos. ok (record { kind = kind_eco; psmos = []; ecos = ecos }))
      else err unexpected_tag

  abbrev pub package_child : Tlv → Option Tlv
  package_child tlv = elim (lib.first tlv (context_constructed 0)) [
    | some found ↦ some found
    | none ↦ lib.first tlv (context_constructed 1)
  ]

  -- EuiccPackageSigned.UnmarshalBERTLV
  unfoldable pub unmarshal_package_signed : Tlv → Result (EuiccPackageSigned Tlv)
  unfolding unmarshal_euicc_package
  unmarshal_package_signed tlv = do
    expect_tag lib tlv tag_sequence
    eim_id ← utf8_value lib (lib.first tlv (context_primitive 0))
    eid ← octet_value lib (lib.first tlv tag_eid)
    counter ← integer_value lib (lib.first tlv (context_primitive 1))
    found ←
        required (encoding_error (ascii "missing EuiccPackage")) unmarshal_euicc_package
          (package_child tlv)
    ok (record {
      eim_id = eim_id;
      eid = eid;
      counter_value = counter;
      eim_transaction_id = optional_value lib (lib.first tlv (context_primitive 2));
      euicc_package = found;
    })

  -- EuiccPackageRequest.UnmarshalBERTLV
  unfoldable pub unmarshal_package_request : Tlv → Result (EuiccPackageRequest Tlv)
  unfolding unmarshal_package_signed
  unmarshal_package_request tlv = do
    expect_tag lib tlv tag_euicc_pkg
    head ← first_of_two lib tlv
    found ← unmarshal_package_signed head
    signature ← octet_value lib (lib.first tlv tag_signature)
    ok (record { euicc_package_signed = found; eim_signature = signature })
