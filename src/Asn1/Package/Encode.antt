-- ===== src/Asn1/Package/Encode.antt =====
-- asn1/euicc_package.go: encoding of eUICC packages.
use openiotrsp.Asn1.Package.{
  eco_add_eim, eco_delete_eim, eco_update_eim, eco_list_eim, eco_unknown, psmo_enable, psmo_disable,
  psmo_delete, psmo_list_profile_info, psmo_get_rat, psmo_configure_immediate_enable,
  psmo_set_fallback_attribute, psmo_unset_fallback_attribute, psmo_set_default_dp_address,
  psmo_unknown, kind_psmo, kind_eco,
}
use openiotrsp.Asn1.Oid.{oid_tlv}
use openiotrsp.Asn1.Package.{X509Choice, eco_unknown, psmo_unknown}
use openiotrsp.Asn1.Package.{EuiccPackage}
use openiotrsp.Asn1.Package.{PsmoOperation}
use openiotrsp.Asn1.Package.{Eco}
use openiotrsp.Asn1.Package.{EuiccPackageKind}
use openiotrsp.Asn1.Package.{EcoOperation}
use openiotrsp.Asn1.Package.{Psmo}
use openiotrsp.Asn1.Package.{ConfigureImmediateEnable}
use openiotrsp.Asn1.Package.{EuiccPackageRequest}
use openiotrsp.Asn1.Package.{EuiccPackageSigned}
use openiotrsp.Asn1.Package.{EimConfigurationData}
use openiotrsp.Common.{
  ℕ, Option, none, some, List, [], ◌∷◌, ◌++◌, if◌then◌else◌, ◌==◌, Bytes, ascii, eq_nat, eq_bytes,
  Error, on_ok, encoding_error, Result, ok, err,
}
use openiotrsp.Prelude.Fallible.{◌>>=◌, each, required}
use openiotrsp.Asn1.Codec.{octet_tlv, null_tlv, bit_string_tlv, field, field_result, flag_field}
use openiotrsp.Asn1.Tlv.{
  Tag, Bertlv, eq_tag, context_primitive, context_constructed, tag_sequence, tag_null, tag_utf8,
  tag_eid, tag_signature, tag_euicc_pkg, tag_set_default_dp_address,
}

abbrev invalid_kind : Error
invalid_kind = encoding_error (ascii "unknown kind")

module _ {Tlv : Type 0} (lib : Bertlv Tlv) where
  -- marshalX509Choice, with x509ChoiceArmTag
  unfoldable pub marshal_x509_choice : Tag → X509Choice Tlv → Result Tlv
  marshal_x509_choice wanted choice =
      required (encoding_error (ascii "missing X.509 choice data"))
        (λ child.
          let arm : Tag → Result Tlv =
            λ inner. ok (lib.new_children wanted (lib.new_children inner (child ∷ []) ∷ [])) in
          if choice.kind == 1
          then arm (context_constructed 0)
          else if choice.kind == 2
          then arm (context_constructed 1)
          else err invalid_kind)
        choice.choice_data

  -- EimConfigurationData.MarshalBERTLV
  unfoldable pub marshal_eim_configuration_data : EimConfigurationData Tlv → Result Tlv
  unfolding marshal_x509_choice
  marshal_eim_configuration_data e = do
    id_type ← field_result (lib.marshal_int (context_primitive 2)) e.eim_id_type
    counter ← field_result (lib.marshal_int (context_primitive 3)) e.counter_value
    token ← field_result (lib.marshal_int (context_primitive 4)) e.association_token
    public_key ← field_result (marshal_x509_choice (context_constructed 5)) e.eim_public_key_data
    tls_key ←
        field_result (marshal_x509_choice (context_constructed 6)) e.trusted_public_key_data_tls
    ok (
        lib.new_children tag_sequence (
          octet_tlv lib (context_primitive 0) e.eim_id
          ∷ (field (octet_tlv lib (context_primitive 1)) e.eim_fqdn
              ++ (id_type
                  ++ (counter
                      ++ (token
                          ++ (public_key
                              ++ (tls_key
                                  ++ (field (bit_string_tlv lib (context_primitive 7))
                                        e.eim_supported_protocol
                                      ++ (field (octet_tlv lib (context_primitive 8))
                                            e.euicc_ci_pkid
                                          ++ (flag_field (null_tlv lib (context_primitive 9))
                                                e.indirect_profile_download
                                              ++ field (λ raw. raw)
                                                  e.esipa_proprietary_protocol_information)))))))))))

  -- marshalTaggedEimConfig
  unfoldable pub marshal_tagged_eim_config : Tag → Option (EimConfigurationData Tlv) → Result Tlv
  unfolding marshal_eim_configuration_data
  marshal_tagged_eim_config wanted config =
      required (encoding_error (ascii "missing EimConfigurationData"))
        (λ found.
          on_ok (marshal_eim_configuration_data found)
            (λ encoded. ok (lib.new_children wanted (lib.children encoded))))
        config

  -- The switch of Eco.MarshalBERTLV.
  unfoldable pub marshal_eco_operation : EcoOperation → Eco Tlv → Result Tlv
  unfolding marshal_tagged_eim_config
  marshal_eco_operation eco_add_eim e = marshal_tagged_eim_config (context_constructed 8) e.config
  marshal_eco_operation eco_delete_eim e =
      ok (
        lib.new_children (context_constructed 9)
          (octet_tlv lib (context_primitive 0) e.eim_id ∷ []))
  marshal_eco_operation eco_update_eim e =
      marshal_tagged_eim_config (context_constructed 10) e.config
  marshal_eco_operation eco_list_eim e = ok (lib.new_children (context_constructed 11) [])
  marshal_eco_operation (eco_unknown _) e = err invalid_kind

  -- Eco.MarshalBERTLV
  unfoldable pub marshal_eco : Eco Tlv → Result Tlv
  unfolding marshal_eco_operation
  marshal_eco e = marshal_eco_operation e.operation e

  unfoldable pub marshal_smdp_oid : List ℕ → Result (List Tlv)
  unfolding oid_tlv
  marshal_smdp_oid [] = ok []
  marshal_smdp_oid (arc ∷ arcs) =
      on_ok (oid_tlv lib (context_primitive 1) (arc ∷ arcs)) (λ child. ok (child ∷ []))

  -- marshalConfigureImmediateEnable
  unfoldable pub marshal_configure_immediate_enable :
      Option (ConfigureImmediateEnable Tlv) → Result Tlv
  marshal_configure_immediate_enable none = ok (lib.new_children (context_constructed 7) [])
  marshal_configure_immediate_enable (some value) =
      on_ok (marshal_smdp_oid value.default_smdp_oid) (λ oid. ok (
        lib.new_children (context_constructed 7) (
          flag_field (null_tlv lib (context_primitive 0)) value.immediate_enable_flag
          ++ (oid ++ field (octet_tlv lib (context_primitive 2)) value.default_smdp_address))))

  -- SetDefaultDPAddressRequest.MarshalBERTLV
  unfoldable pub marshal_set_default_dp_address_request : Bytes → Result Tlv
  marshal_set_default_dp_address_request address =
      ok (lib.new_children tag_set_default_dp_address (octet_tlv lib tag_utf8 address ∷ []))

  abbrev with_iccid : Tag → Psmo Tlv → Tlv
  with_iccid wanted p = lib.new_children wanted (octet_tlv lib tag_eid p.iccid ∷ [])

  -- The switch of Psmo.MarshalBERTLV.
  unfoldable pub marshal_psmo_operation : PsmoOperation → Psmo Tlv → Result Tlv
  unfolding marshal_configure_immediate_enable marshal_set_default_dp_address_request
  marshal_psmo_operation psmo_enable p = ok (
      lib.new_children (context_constructed 3)
        (octet_tlv lib tag_eid p.iccid ∷ flag_field (null_tlv lib tag_null) p.rollback_flag))
  marshal_psmo_operation psmo_disable p = ok (with_iccid (context_constructed 4) p)
  marshal_psmo_operation psmo_delete p = ok (with_iccid (context_constructed 5) p)
  marshal_psmo_operation psmo_list_profile_info p =
      required (encoding_error (ascii "missing ProfileInfoListRequest TLV")) ok
        p.profile_info_list_request
  marshal_psmo_operation psmo_get_rat p = ok (lib.new_children (context_constructed 6) [])
  marshal_psmo_operation psmo_configure_immediate_enable p =
      marshal_configure_immediate_enable p.immediate_enable
  marshal_psmo_operation psmo_set_fallback_attribute p = ok (with_iccid (context_constructed 8) p)
  marshal_psmo_operation psmo_unset_fallback_attribute p =
      ok (lib.new_children (context_constructed 9) [])
  marshal_psmo_operation psmo_set_default_dp_address p =
      required (encoding_error (ascii "missing SetDefaultDPAddressRequest"))
        marshal_set_default_dp_address_request p.set_default_dp_address
  marshal_psmo_operation (psmo_unknown _) p = err invalid_kind

  -- Psmo.MarshalBERTLV
  unfoldable pub marshal_psmo : Psmo Tlv → Result Tlv
  unfolding marshal_psmo_operation
  marshal_psmo p = marshal_psmo_operation p.operation p

  -- The switch of EuiccPackage.MarshalBERTLV.
  unfoldable pub marshal_euicc_package_kind : EuiccPackageKind → EuiccPackage Tlv → Result Tlv
  unfolding marshal_psmo marshal_eco
  marshal_euicc_package_kind kind_psmo p =
      on_ok (each marshal_psmo p.psmos)
        (λ children. ok (lib.new_children (context_constructed 0) children))
  marshal_euicc_package_kind kind_eco p =
      on_ok (each marshal_eco p.ecos)
        (λ children. ok (lib.new_children (context_constructed 1) children))
  marshal_euicc_package_kind _ p = err invalid_kind

  -- EuiccPackage.MarshalBERTLV
  unfoldable pub marshal_euicc_package : EuiccPackage Tlv → Result Tlv
  unfolding marshal_euicc_package_kind
  marshal_euicc_package p = marshal_euicc_package_kind p.kind p

  -- EuiccPackageSigned.MarshalBERTLV
  unfoldable pub marshal_package_signed : EuiccPackageSigned Tlv → Result Tlv
  unfolding marshal_euicc_package
  marshal_package_signed s = do
    counter ← lib.marshal_int (context_primitive 1) s.counter_value
    child ← marshal_euicc_package s.euicc_package
    ok (
        lib.new_children tag_sequence (
          octet_tlv lib (context_primitive 0) s.eim_id
          ∷ octet_tlv lib tag_eid s.eid
          ∷ counter
          ∷ (field (octet_tlv lib (context_primitive 2)) s.eim_transaction_id ++ child ∷ [])))

  -- EuiccPackageRequest.MarshalBERTLV
  unfoldable pub marshal_package_request : EuiccPackageRequest Tlv → Result Tlv
  unfolding marshal_package_signed
  marshal_package_request r = on_ok (marshal_package_signed r.euicc_package_signed) (λ signed.
      ok (
        lib.new_children tag_euicc_pkg (signed ∷ octet_tlv lib tag_signature r.eim_signature ∷ [])))
